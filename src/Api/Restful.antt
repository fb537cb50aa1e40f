-- ===== src/Api/Restful.antt =====
-- api/restful_api.go: the entries with parameters in their paths, the search for the entry of a
-- request, and `restFullHttpHandleProxy`.
-- The package regexp and gin's parameters of a path are arguments; a panic of `MustCompile` is `none`.
pub mod Search
use landau.Common.{
  ℕ, zero, suc, Bool, true, false, not, ◌&&◌, ◌||◌, List, [], ◌∷◌, ◌++◌, ◌==◌, bytes_eq, nat_eq,
  length, Bytes, codes, Option, none, some, if◌then◌else◌, insert, join, split_byte, leb, map, pos,
  ◌-◌,
}
use landau.Api.Values.{Response, service_too_early}
use landau.Api.{Request, Program, Api, is_check_service_not_ready, is_post_binding_complex}
use landau.Api.Serve.{Outcome, Caller, by_url, send, json, bind_error_response}

-- The package regexp: whether a pattern compiles, and `MatchString` of one that does.
pub record Regexp : Type 0 where
  pub compiles : Bytes → Bool
  pub match_string : Bytes → Bytes → Bool

-- `strings.Index(u, ":") == 0`.
abbrev pub is_parameter : Bytes → Bool
is_parameter [] = false
is_parameter (c ∷ u) = c == b':'

abbrev name_of : Bytes → Bytes
name_of [] = []
name_of (c ∷ u) = u

-- The name of the last parameter among the segments.
abbrev pub last_id : Bytes → List Bytes → Bytes
last_id id [] = id
last_id id (u ∷ urls) = last_id (if is_parameter u then name_of u else id) urls

abbrev pub key_segment : Bytes → Bytes
key_segment u = if is_parameter u then codes "[^/]*" else u

-- `strings.ToUpper` of ASCII text.
abbrev pub to_upper : Bytes → Bytes
to_upper = map (λ c. if leb b'a' c && leb c b'z' then c - 0x20 else c)

-- The test of the segments, behind that of the lengths.
abbrev pub segments_match : List Bytes → List Bytes → Bool
segments_match [] urls = true
segments_match (u ∷ us) [] = true
segments_match (u ∷ us) (v ∷ vs) =
    if not (u == v) && not (is_parameter v) then false else segments_match us vs

module _ (program : Program) where
  open program use {Kind, Param, bind_restful, path_param}

  -- `_RESTFulApiEntry`.
  pub record RestfulApiEntry : Type 0 where
    pub url : Bytes
    pub new_request_parameter : Kind
    pub http_handle : Request → Param → Response
    pub urls : List Bytes
    pub id : Bytes
    pub http_code_status : Bytes
    pub url_regex : Bytes
    pub http_method : Bytes
    pub inner_api_code : Bytes

  pub record Restful : Type 0 where
    pub restful_http_entry : List (Bytes × RestfulApiEntry)
    pub replace_default_restful_bind_error : Bool
    pub default_restful_bind_error_response : Response

  unfoldable pub new_restful_entry :
      Bytes → Kind → (Request → Param → Response) → Bytes → Bytes → Bytes → RestfulApiEntry
  new_restful_entry url_path kind handle http_code_field_name http_method
        inner_api_code_field_name =
      let urls : List Bytes = split_byte b'/' url_path in
      record {
        url = url_path;
        new_request_parameter = kind;
        http_handle = handle;
        urls = urls;
        id = last_id [] urls;
        http_code_status = http_code_field_name;
        url_regex = codes "^" ++ join (codes "/") (map key_segment urls) ++ codes "$";
        http_method = to_upper http_method;
        inner_api_code = inner_api_code_field_name;
      }

  -- `AddRESTFulAPIHttpHandle4`; the other three leave the last arguments at their defaults.
  unfoldable pub add_restful_handle : Regexp → RestfulApiEntry → Restful → Option Restful
  add_restful_handle regexp e s =
      if regexp.compiles e.url_regex
      then some (record s { restful_http_entry = insert e.url e s.restful_http_entry })
      else none

  unfoldable pub set_default_restful_bind_error : Bool → Response → Restful → Restful
  set_default_restful_bind_error replaced response s = record s {
    replace_default_restful_bind_error = replaced;
    default_restful_bind_error_response = response;
  }

  -- The test of one entry in `isExistRESTFul`.
  unfoldable pub is_matched : Regexp → Bytes → Bytes → RestfulApiEntry → Bool
  is_matched regexp url_path http_method a =
      let request_url : List Bytes = split_byte b'/' url_path in
      ((a.http_method == []) || (a.http_method == http_method))
      && (regexp.match_string a.url_regex url_path
          && ((length request_url == length a.urls) && segments_match request_url a.urls))

  abbrev pub only_one : List RestfulApiEntry → Option RestfulApiEntry
  only_one [] = none
  only_one (a ∷ []) = some a
  only_one (a ∷ b ∷ rest) = none

  -- The loop over the entries, with the entries that are matched so far.
  abbrev pub search_entries :
      (RestfulApiEntry → Bool)
      → List RestfulApiEntry
      → List (Bytes × RestfulApiEntry)
      → Option RestfulApiEntry
  search_entries matched found [] = only_one found
  search_entries matched found ((k, a) ∷ m) =
      let behind = search_entries matched found m in
      let kept = search_entries matched (found ++ a ∷ []) m in
      if matched a then (if a.id == [] then some a else kept) else behind

  -- `isExistRESTFul`.
  unfoldable pub is_exist_restful : Regexp → Bytes → Bytes → Restful → Option RestfulApiEntry
  is_exist_restful regexp url_path http_method s =
      search_entries (is_matched regexp url_path http_method) [] s.restful_http_entry

  abbrev pub restful_bind_error : Restful → Bytes → Response
  restful_bind_error s e =
      if s.replace_default_restful_bind_error
      then s.default_restful_bind_error_response
      else bind_error_response e

  restful_bound : Api program → Restful → RestfulApiEntry → Request → Param × Option Bytes → Outcome
  restful_bound api s a r (param, some e) = record {
    sent = some (send program api r a.http_code_status true (restful_bind_error s e));
    called = [];
  }
  restful_bound api s a r (param, none) =
      if is_check_service_not_ready program api [] a.url
      then record {
        sent =
            some
              (record { status = pos 425; allow_origin = []; body = json true service_too_early });
        called = [];
      }
      else record {
        sent = some (send program api r a.http_code_status true (a.http_handle r param));
        called = by_url a.url ∷ [];
      }

  restful_found : Api program → Restful → Request → Option RestfulApiEntry → Outcome
  unfolding restful_bound
  restful_found api s r none = record { sent = none; called = [] }
  restful_found api s r (some a) = restful_bound api s a r (
      bind_restful a.new_request_parameter (not (r.http_method == codes "GET"))
        (is_post_binding_complex program api r.url_path []) (path_param a.id r) r)

  -- `restFullHttpHandleProxy`.
  unfoldable pub restful_handle_proxy : Regexp → Api program → Restful → Request → Outcome
  unfolding restful_found
  restful_handle_proxy regexp api s r =
      restful_found api s r (is_exist_restful regexp r.url_path r.http_method s)
