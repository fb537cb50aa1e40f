-- ===== src/Data/HttpHelper.antt =====
-- data/http_helper.go: the helper that calls other services, its options and its requests.
-- The transport, `url.Values.Encode`, json's `Marshal`, SHA-1 and the texts of parameters are arguments.
-- Fields that only logs, timeouts and the dialer read are left out, and so is the upload of files.
pub mod Calls
mod Tests
use landau.Common.{
  bytes_ltb, ℕ, Bool, true, false, not, ◌&&◌, ◌||◌, List, [], ◌∷◌, ◌++◌, ◌==◌, nat_eq, bytes_eq,
  Bytes, codes, Option, none, some, if◌then◌else◌, lookup_or, insert, contains_bytes, cut_byte, ltb,
  is_some,
}
use landau.Data.Database.{Answer, failed, gives}
use landau.Data.Keepalive.{Keepalive}
use landau.Data.Keepalive.Select.{get_service_addr_by_name}

-- A parameter's value stands as its text, that of its `String` or of `%v`.
abbrev pub Params : Type 0
Params = List (Bytes × Bytes)

-- `HTTPMethod`; `other_method` is any other text.
pub data HttpMethod : Type 0 where
  http_get http_post http_put http_delete : HttpMethod
  other_method : Bytes → HttpMethod

-- `requestParams` is none for a nil map; `requestRawObject` stands as the text that json makes of it.
pub record HttpHelper : Type 0 where
  pub method : HttpMethod
  pub url : Bytes
  pub service_name : Bytes
  pub request_params : Option Params
  pub request_raw_object : Option Bytes
  pub post_body : Bytes
  pub user_agent : Bytes
  pub content_type : Bytes
  pub request_head : Params
  pub public_key : Bytes
  pub private_key : Bytes
  pub public_key_para_name : Bytes
  pub signature_para_name : Bytes
  pub append_service_id : Bool
  pub is_primary_address : Bool
  pub request_host : Bytes

pub data HttpOption : Type 0 where
  set_http_url set_http_service_name set_http_user_agent set_http_content_type : Bytes → HttpOption
  set_http_public_key set_http_private_key set_http_public_key_para_name : Bytes → HttpOption
  set_http_signature_para_name set_http_post_body set_http_request_host : Bytes → HttpOption
  set_http_method : HttpMethod → HttpOption
  set_http_request_params : Option Params → HttpOption
  set_http_request_raw_object : Option Bytes → HttpOption
  set_http_request_head : Params → HttpOption
  append_http_request_header : Bytes → Bytes → HttpOption
  set_http_append_service_id set_http_is_primary_address : Bool → HttpOption

abbrev pub apply_http_option : HttpHelper → HttpOption → HttpHelper
apply_http_option c (set_http_url s) = record c { url = s }
apply_http_option c (set_http_service_name s) = record c { service_name = s }
apply_http_option c (set_http_user_agent s) = record c { user_agent = s }
apply_http_option c (set_http_content_type s) = record c { content_type = s }
apply_http_option c (set_http_public_key s) = record c { public_key = s }
apply_http_option c (set_http_private_key s) = record c { private_key = s }
apply_http_option c (set_http_public_key_para_name s) = record c { public_key_para_name = s }
apply_http_option c (set_http_signature_para_name s) = record c { signature_para_name = s }
apply_http_option c (set_http_post_body s) = record c { post_body = s }
apply_http_option c (set_http_request_host s) = record c { request_host = s }
apply_http_option c (set_http_method m) = record c { method = m }
apply_http_option c (set_http_request_params p) = record c { request_params = p }
apply_http_option c (set_http_request_raw_object o) = record c { request_raw_object = o }
apply_http_option c (set_http_request_head h) = record c { request_head = h }
apply_http_option c (append_http_request_header name v) = record c {
  request_head = insert name v c.request_head;
}
apply_http_option c (set_http_append_service_id b) = record c { append_service_id = b }
apply_http_option c (set_http_is_primary_address b) = record c { is_primary_address = b }

abbrev apply_http_options : HttpHelper → List HttpOption → HttpHelper
apply_http_options c [] = c
apply_http_options c (o ∷ options) = apply_http_options (apply_http_option c o) options

abbrev pub default_helper : HttpHelper
default_helper = record {
  method = http_post;
  url = [];
  service_name = [];
  request_params = some [];
  request_raw_object = none;
  post_body = [];
  user_agent =
      codes
        "Mozilla/5.0 (Windows; U; Windows NT 6.0; en-US; rv:1.9.0.5) Gecko/2008120122 Firefox/3.0.5";
  content_type = codes "application/json";
  request_head = [];
  public_key = [];
  private_key = [];
  public_key_para_name = codes "PublicKey";
  signature_para_name = codes "Signature";
  append_service_id = true;
  is_primary_address = true;
  request_host = [];
}

-- `NewHTTPHelper`: no option returns an error.
abbrev pub new_http_helper : List HttpOption → HttpHelper
new_http_helper = apply_http_options default_helper

-- `sort.Strings` on the parameters' names, which are distinct.
abbrev pub insert_sorted : Bytes × Bytes → Params → Params
insert_sorted p [] = p ∷ []
insert_sorted p (q ∷ ps) =
    let rest = insert_sorted p ps in if bytes_ltb q.0 p.0 then q ∷ rest else p ∷ q ∷ ps

abbrev pub sort_params : Params → Params
sort_params [] = []
sort_params (p ∷ ps) = insert_sorted p (sort_params ps)

abbrev pub concat_params : Params → Bytes
concat_params [] = []
concat_params ((k, v) ∷ ps) = k ++ v ++ concat_params ps

-- What the code takes from other packages.
pub record Library : Type 0 where
  pub sha1_hex : Bytes → Bytes
  pub encode_values : Params → Bytes
  pub marshal_params : Params → Bytes

-- A request as `http.NewRequest` gets it, with its headers.
pub record HttpRequest : Type 0 where
  pub req_method : Bytes
  pub req_url : Bytes
  pub req_body : Bytes
  pub headers : Params
  pub host : Bytes

-- A response that could be read, with the two headers that name its sender.
pub record HttpResponse : Type 0 where
  pub response_body : Bytes
  pub svr_name : Bytes
  pub svr_addr : Bytes

module _ (library : Library) where
  -- `getSha1Sign`, without the text that is logged.
  unfoldable pub get_sha1_sign : Params → Bytes → Bytes
  get_sha1_sign params private_key =
      library.sha1_hex (concat_params (sort_params params) ++ private_key)

  unfoldable pub get_encoded_query_string : Option Params → Bytes
  get_encoded_query_string none = []
  get_encoded_query_string (some params) = library.encode_values params

  -- The scheme that `_prepareRequest` puts before an address.
  abbrev pub with_any_scheme : Bytes → Bytes
  with_any_scheme addr =
      if not (contains_bytes (codes "http://") addr) && not (contains_bytes (codes "https://") addr)
      then codes "http://" ++ addr
      else addr

  -- The address of the call, by the service's name when there is no URL.
  unfoldable pub resolve_url : HttpHelper → ℕ → Keepalive → (Bytes × HttpHelper) × Keepalive
  resolve_url c t k =
      if (c.url == []) && not (c.service_name == [])
      then (let ((addr, is_primary), k') = get_service_addr_by_name c.service_name t k in
          ((with_any_scheme addr, record c { is_primary_address = is_primary }), k'))
      else ((c.url, c), k)

  signed_by : HttpHelper → Params → Bytes × HttpHelper
  signed_by c params =
      let params' : Params = insert c.public_key_para_name c.public_key params in
      (get_sha1_sign params' c.private_key, record c { request_params = some params' })

  sign_params : HttpHelper → Option Params → Bytes × HttpHelper
  unfolding signed_by
  sign_params c none = ([], c)
  sign_params c (some params) =
      if not (c.public_key == []) && not (c.private_key == []) then signed_by c params else ([], c)

  -- The signature, and the helper with the public key among its parameters.
  unfoldable pub sign_request : HttpHelper → Bytes × HttpHelper
  unfolding sign_params
  sign_request c = sign_params c c.request_params

  -- `strings.Index(reqURL, "?") > 0`.
  abbrev inside : Option (Bytes × Bytes) → Bool
  inside none = false
  inside (some (before, after)) = not (before == [])

  abbrev get_url : HttpHelper → Bytes → Bytes → Bytes → Bytes
  get_url c address signature query =
      if query == []
      then address
      else (address
          ++ (if inside (cut_byte b'?' address) then codes "&" else codes "?")
          ++ query
          ++ (if signature == []
              then []
              else codes "&" ++ c.signature_para_name ++ codes "=" ++ signature))

  abbrev params_body : HttpHelper → Bytes → Bytes → Option Params → Bytes
  params_body c signature query none = query
  params_body c signature query (some params) =
      if signature == []
      then query
      else library.marshal_params (insert c.signature_para_name signature params)

  abbrev body_of : HttpHelper → Bytes → Bytes → Option Bytes → Bytes
  body_of c signature query none = params_body c signature query c.request_params
  body_of c signature query (some object) = object

  abbrev method_parts : HttpHelper → Bytes → Bytes → Bytes → HttpMethod → Bytes × Bytes × Bytes
  method_parts c address signature query http_get =
      (codes "GET", get_url c address signature query, [])
  method_parts c address signature query http_post = (
    codes "POST",
    address,
    if c.post_body == [] then body_of c signature query c.request_raw_object else c.post_body,
  )
  method_parts c address signature query http_put = (
    codes "PUT",
    address,
    if c.post_body == [] then body_of c signature query c.request_raw_object else c.post_body,
  )
  method_parts c address signature query http_delete = (
    codes "DELETE",
    address,
    if c.post_body == [] then body_of c signature query c.request_raw_object else c.post_body,
  )
  method_parts c address signature query (other_method m) = ([], address, [])

  -- The parameters that a signed body leaves in the helper's map.
  abbrev signed_params : HttpHelper → Bytes → Option Params → Option Params
  signed_params c signature none = none
  signed_params c signature (some params) = some (insert c.signature_para_name signature params)

  abbrev is_body_method : HttpMethod → Bool
  is_body_method http_get = false
  is_body_method http_post = true
  is_body_method http_put = true
  is_body_method http_delete = true
  is_body_method (other_method m) = false

  abbrev after_body : HttpHelper → Bytes → HttpHelper
  after_body c signature =
      if is_body_method c.method
        && ((c.post_body == []) && (not (is_some c.request_raw_object) && not (signature == [])))
      then record c { request_params = signed_params c signature c.request_params }
      else c

  -- `_prepareRequest`: method, URL and body, and the helper that is left behind.
  unfoldable pub prepare_request :
      HttpHelper → ℕ → Keepalive → ((Bytes × Bytes × Bytes) × HttpHelper) × Keepalive
  prepare_request c t k =
      let ((address, c'), k') = resolve_url c t k in
      let (signature, signed) = sign_request c' in
      (
        (
          method_parts signed address signature (get_encoded_query_string signed.request_params)
              signed.method,
          after_body signed signature,
        ),
        k',
      )

  abbrev set_all : Params → Params → Params
  set_all [] h = h
  set_all ((k, v) ∷ more) h = set_all more (insert k v h)

  -- The headers of `Call`, with the name and the address of the own service.
  abbrev request_headers : HttpHelper → Bytes → Bytes → Params
  request_headers c own_name own_address =
      let agent : Params = (codes "User-Agent", c.user_agent) ∷ [] in
      let typed : Params =
        if c.content_type == []
        then agent
        else insert (codes "Content-Type") c.content_type agent in
      let given : Params = set_all c.request_head typed in
      if c.append_service_id && (not (own_name == []) && not (own_address == []))
      then insert (codes "Landau-Service-Addr") own_address
          (insert (codes "Landau-Service") own_name given)
      else given

  abbrev received : Answer HttpResponse → Keepalive → Answer Bytes × Keepalive
  received (failed e) k = (failed e, k)
  received (gives r) k = (
    gives r.response_body,
    if not (r.svr_name == []) && not (r.svr_addr == [])
        then record k {
          last_trace_service_address = insert r.svr_name r.svr_addr k.last_trace_service_address;
        }
        else k,
  )

  -- `Call`: the request is handed to the transport, and the service that answers is noted.
  unfoldable pub http_call :
      (HttpRequest → Answer HttpResponse)
      → Bytes
      → Bytes
      → HttpHelper
      → ℕ
      → Keepalive
      → (Answer Bytes × HttpHelper) × Keepalive
  http_call transport own_name own_address c t k =
      let (((req_method, req_url, req_body), c'), k') = prepare_request c t k in
      let request : HttpRequest = record {
        req_method = req_method;
        req_url = req_url;
        req_body = req_body;
        headers = request_headers c' own_name own_address;
        host = c'.request_host;
      } in
      let (answer, k'') = received (transport request) k' in ((answer, c'), k'')
