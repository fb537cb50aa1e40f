-- ===== src/Data/HttpHelper/Tests.antt =====
-- data/http_helper.go at a helper that posts, and at one that calls by name.
use landau.Common.{◌≡◌, refl, true, [], ◌∷◌, ◌++◌, bytes_eq, codes}
use landau.Data.Database.{gives}
use landau.Data.Keepalive.{Keepalive}
use landau.Data.Keepalive.Select.{get_service_addr_by_name}
use landau.Data.HttpHelper.{
  Params, HttpHelper, HttpResponse, Library, new_http_helper, set_http_url, set_http_service_name,
  set_http_public_key, set_http_private_key, http_call,
}
use landau.Data.HttpHelper.Calls.{http_call-get_service_addr_by_name}

-- A digest that keeps the text behind an `x`.
abbrev plain_library : Library
plain_library = record {
  sha1_hex = λ s. codes "x" ++ s;
  encode_values = λ p. codes "q";
  marshal_params = λ p. codes "{}";
}

abbrev quiet_keepalive : Keepalive
quiet_keepalive = record {
  service_health_mesh = [];
  receive_service_mesh = [];
  primary_to_secondary = [];
  secondary_to_primary = [];
  last_receive_server_check_address = [];
  last_trace_service_address = [];
  receiver_keep_timer = 10;
}

abbrev by_name : HttpHelper
by_name = new_http_helper (set_http_service_name (codes "pay") ∷ [])

abbrev by_url : HttpHelper
by_url = new_http_helper (
    set_http_url (codes "http://a")
    ∷ set_http_public_key (codes "pk")
    ∷ set_http_private_key (codes "sk")
    ∷ [])

abbrev one_param : Params
one_param = (codes "id", codes "7") ∷ []

abbrev answered : HttpResponse
answered = record { response_body = []; svr_name = codes "pay"; svr_addr = codes "10.0.0.9:80" }

http_call-get_service_addr_by_name_example :
    (get_service_addr_by_name
      (codes "pay")
      9
      (http_call plain_library (λ q. gives answered) [] [] by_url 3 quiet_keepalive).1).0
    ≡ (codes "http://10.0.0.9:80", true)
http_call-get_service_addr_by_name_example =
    http_call-get_service_addr_by_name plain_library answered [] [] by_url 3 9 quiet_keepalive refl
      refl refl refl refl refl
