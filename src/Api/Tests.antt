-- ===== src/Api/Tests.antt =====
-- A program with handlers, access checks and RESTful entries, on which the theorems are tried.
use landau.Common.{
  ℕ, ◌≡◌, ◌≢◌, refl, true, false, Bytes, codes, none, some, [], ◌∷◌, ◌==◌, bytes_eq, nat_eq,
  lookup_or, if◌then◌else◌, is_some, All, length, ◌||◌,
}
use landau.Api.Values.{gin_h, text}
use landau.Api.{Request, Program, Api, HttpHandleEntry, initial_api, add_http_handle}
use landau.Api.Serve.{http_handle_proxy, no_route}
use landau.Api.Serve.Access.{Admitted, called-Admitted}
use landau.Api.Restful.{
  Restful, RestfulApiEntry, Regexp, new_restful_entry, is_exist_restful, is_matched,
}
use landau.Api.Restful.Search.{candidates, any_without_id, is_exist_restful_found}
use landau.Data.Keepalive.{Keepalive}

-- Parameters are the body's text; the action is read from the query.
abbrev shop : Program
shop = record {
  Kind = Unit;
  Param = Bytes;
  bind_action = λ post complex r.
      let action : Bytes = lookup_or (codes "Action") [] r.query in
      (action, if action == [] then some (codes "required") else none);
  bind_param = λ kind post complex r. (r.body, none);
  bind_restful = λ kind reads complex id r. (id, none);
  path_param = λ id r. id;
}

abbrev echo : HttpHandleEntry shop
echo = record {
  handle_func = λ r p. gin_h ((codes "Echo", text p) ∷ []);
  new_requester_parameter = tt;
  http_code_status = [];
}

abbrev order_request : Request
order_request = record {
  http_method = codes "POST";
  url_path = codes "/order";
  origin = [];
  query = (codes "Action", codes "Order") ∷ [];
  service_name = codes "cart";
  service_address = codes "10.0.0.7:80";
  body = codes "3 pears";
}

abbrev open_api : Api shop
open_api = add_http_handle shop (codes "/order") (codes "Order") echo (initial_api shop)

called-Admitted_example :
    All
      (Admitted shop open_api order_request (codes "/"))
      (http_handle_proxy shop open_api order_request).called
    × All
        (Admitted shop open_api order_request (codes "/order"))
        (no_route shop open_api order_request).called
called-Admitted_example = called-Admitted shop open_api order_request

-- A check that answers 3.
abbrev odd_check : Bytes → Bytes → Request → ℕ
odd_check url action r = 3

some_path : (c : ℕ) (s : Bytes) → c ∷ s ≢ []
some_path c s e = absurd (cc e)

abbrev lone_keepalive : Keepalive
lone_keepalive = record {
  service_health_mesh = [];
  receive_service_mesh = [];
  primary_to_secondary = [];
  secondary_to_primary = [];
  last_receive_server_check_address = [];
  last_trace_service_address = [];
  receiver_keep_timer = 10;
}

-- A package regexp whose patterns match everything.
abbrev any_text : Regexp
any_text = record { compiles = λ p. true; match_string = λ p s. true }

abbrev item_entry : RestfulApiEntry shop
item_entry =
    new_restful_entry shop (codes "/item/:id") tt (λ r p. gin_h ((codes "Item", text p) ∷ [])) [] []
      (codes "InnerApiCode")

abbrev all_entry : RestfulApiEntry shop
all_entry =
    new_restful_entry shop (codes "/item/all") tt (λ r p. gin_h []) [] [] (codes "InnerApiCode")

abbrev items : Restful shop
items = record {
  restful_http_entry = (codes "/item/:id", item_entry) ∷ (codes "/item/all", all_entry) ∷ [];
  replace_default_restful_bind_error = false;
  default_restful_bind_error_response = gin_h [];
}

is_exist_restful_found_example :
    is_some (is_exist_restful shop any_text (codes "/item/all") (codes "GET") items) ≡ (
      any_without_id shop (
        candidates shop
          (is_matched shop any_text (codes "/item/all") (codes "GET"))
          items.restful_http_entry)
      || (length (
            candidates shop
              (is_matched shop any_text (codes "/item/all") (codes "GET"))
              items.restful_http_entry)
          == 1))
is_exist_restful_found_example =
    is_exist_restful_found shop any_text (codes "/item/all") (codes "GET") items

the_item : is_exist_restful shop any_text (codes "/item/7") (codes "GET") items ≡ some item_entry
unfolding is_exist_restful is_matched new_restful_entry
the_item = refl
