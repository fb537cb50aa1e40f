-- ===== src/Api.antt =====
-- api/serv_api.go: the handlers that are registered, and who may call them.
-- `Api` is the state of the package's variables. What gin's binding makes of a request, and what the
-- access check and the handlers answer, are parameters. Report has the logs, the metrics, the audit
-- callback and the notification of a robot.
pub mod Values
pub mod Serve
pub mod Restful
pub mod Binding
pub mod Report
mod Tests
use landau.Common.{
  ℕ, Bool, true, false, not, ◌&&◌, ◌||◌, List, [], ◌∷◌, ◌++◌, ◌==◌, bytes_eq, nat_eq, Bytes, codes,
  Option, none, some, if◌then◌else◌, insert, has, trim_space, split_byte,
}
use landau.Api.Values.{Response, default_access_deny_response, default_access_no_right_response}

-- What is read of a request.
pub record Request : Type 0 where
  pub http_method : Bytes
  pub url_path : Bytes
  pub origin : Bytes
  pub query : List (Bytes × Bytes)
  pub service_name : Bytes
  pub service_address : Bytes
  pub body : Bytes

abbrev pub is_post_method : Request → Bool
is_post_method r = r.http_method == codes "POST"

-- The program that uses the library: the types of its parameters, and how a request is bound to them.
-- The arguments of a binding say whether the body is read, and whether complex JSON is read; that of a
-- RESTful entry gets the parameter of the path, which gin's `Param` reads, too.
pub record Program : Type 1 where
  pub Kind : Type 0
  pub Param : Type 0
  pub bind_action : Bool → Bool → Request → Bytes × Option Bytes
  pub bind_param : Kind → Bool → Bool → Request → Param × Option Bytes
  pub bind_restful : Kind → Bool → Bool → Bytes → Request → Param × Option Bytes
  pub path_param : Bytes → Request → Bytes

-- `HTTPACLResult`, an `int`.
abbrev pub http_acl_ok : ℕ
http_acl_ok = 0

abbrev pub http_acl_deny : ℕ
http_acl_deny = 1

abbrev pub http_acl_no_right : ℕ
http_acl_no_right = 2

module _ (program : Program) where
  open program use {Kind, Param}

  -- `httpHandleEntry`.
  pub record HttpHandleEntry : Type 0 where
    pub handle_func : Request → Param → Response
    pub new_requester_parameter : Kind
    pub http_code_status : Bytes

  -- An entry for a URL: `dispatchAction`, which `init` puts at "/", or a handler of the program.
  pub data UrlEntry : Type 0 where
    dispatch : UrlEntry
    handler : HttpHandleEntry → UrlEntry

  -- The package's variables.
  pub record Api : Type 0 where
    pub http_entry : List (Bytes × UrlEntry)
    pub http_action_entry : List (Bytes × HttpHandleEntry)
    pub http_need_check_acl : Bool
    pub http_check_acl : Option (Bytes → Bytes → Request → ℕ)
    pub http_access_control_allow_origin : Bool
    pub response_jsonp_enable : Bool
    pub response_jsonp_callback_query_name : Bytes
    pub post_binding_complex_url : List (Bytes × Bool)
    pub post_binding_complex_action : List (Bytes × Bool)
    pub un_html_escape_url : List (Bytes × Bool)
    pub un_html_escape_action : List (Bytes × Bool)
    pub un_register_handle : Option (Request → Bytes → Response)
    pub disable_trace_service_address : Bool
    pub replace_default_bind_error : Option Response
    pub service_disabled : Bool
    pub exclude_init_service_disabled : List (Bytes × Bool)

  -- The variables' first values, behind `init`.
  pub initial_api : Api
  initial_api = record {
    http_entry = (codes "/", dispatch) ∷ [];
    http_action_entry = [];
    http_need_check_acl = false;
    http_check_acl = none;
    http_access_control_allow_origin = true;
    response_jsonp_enable = true;
    response_jsonp_callback_query_name = codes "callback";
    post_binding_complex_url = [];
    post_binding_complex_action = [];
    un_html_escape_url = [];
    un_html_escape_action = [];
    un_register_handle = none;
    disable_trace_service_address = false;
    replace_default_bind_error = none;
    service_disabled = false;
    exclude_init_service_disabled = [];
  }

  unfoldable pub add_exclude_service_disabled : Bytes → Api → Api
  add_exclude_service_disabled key s = record s {
    exclude_init_service_disabled = insert key true s.exclude_init_service_disabled;
  }

  -- `SetDefaultBindError`.
  unfoldable pub set_default_bind_error : Bool → Response → Api → Api
  set_default_bind_error replaced response s = record s {
    replace_default_bind_error = if replaced then some response else none;
  }

  unfoldable pub set_http_check_acl : Bool → Option (Bytes → Bytes → Request → ℕ) → Api → Api
  set_http_check_acl need check s = record s { http_need_check_acl = need; http_check_acl = check }

  unfoldable pub set_http_access_control_allow_origin : Bool → Api → Api
  set_http_access_control_allow_origin allow s = record s {
    http_access_control_allow_origin = allow;
  }

  unfoldable pub set_response_jsonp : Bool → Bytes → Api → Api
  set_response_jsonp enable name s = record s {
    response_jsonp_enable = enable;
    response_jsonp_callback_query_name = name;
  }

  unfoldable pub set_service_ready : Bool → Api → Api
  set_service_ready ready s = record s { service_disabled = not ready }

  unfoldable pub set_un_register_handle : Option (Request → Bytes → Response) → Api → Api
  set_un_register_handle handle s = record s { un_register_handle = handle }

  -- `AddHTTPHandle3`; with an empty `http_code_status`, `AddHTTPHandle`.
  unfoldable pub add_http_handle : Bytes → Bytes → HttpHandleEntry → Api → Api
  add_http_handle url_path action_id h s = record s {
    http_entry = if url_path == [] then s.http_entry else insert url_path (handler h) s.http_entry;
    http_action_entry =
        if action_id == [] then s.http_action_entry else insert action_id h s.http_action_entry;
  }

  unfoldable pub add_un_html_escape_http_handle : Bytes → Bytes → HttpHandleEntry → Api → Api
  add_un_html_escape_http_handle url_path action_id h s =
      let s' = add_http_handle url_path action_id h s in
      record s' {
        un_html_escape_url =
            if (url_path == []) || (url_path == codes "/")
            then s'.un_html_escape_url
            else insert url_path true s'.un_html_escape_url;
        un_html_escape_action =
            if action_id == []
            then s'.un_html_escape_action
            else insert action_id true s'.un_html_escape_action;
      }

  put_names : List Bytes → List (Bytes × Bool) → List (Bytes × Bool)
  put_names [] m = m
  put_names (s ∷ names) m =
      put_names names (if trim_space s == [] then m else insert (trim_space s) true m)

  -- `SetPostBindingComplex`, of the two texts of names.
  unfoldable pub set_post_binding_complex : Bytes → Bytes → Api → Api
  unfolding put_names
  set_post_binding_complex urls actions s = record s {
    post_binding_complex_url = put_names (split_byte b',' urls) [];
    post_binding_complex_action = put_names (split_byte b',' actions) [];
  }

  -- `isPostBindingComplex`.
  unfoldable pub is_post_binding_complex : Api → Bytes → Bytes → Bool
  is_post_binding_complex s url action =
      has url s.post_binding_complex_url || has action s.post_binding_complex_action

  denied : ℕ → Option Response
  denied result =
      if result == http_acl_deny
      then some default_access_deny_response
      else if result == http_acl_no_right
      then some default_access_no_right_response
      else none

  acl_result : Option (Bytes → Bytes → Request → ℕ) → Bytes → Bytes → Request → Option Response
  unfolding denied
  acl_result none url_path action_id r = none
  acl_result (some check) url_path action_id r = denied (check url_path action_id r)

  -- `isACLDeny`: the response that denies the access, if it is denied.
  unfoldable pub is_acl_deny : Api → Bytes → Bytes → Request → Option Response
  unfolding acl_result
  is_acl_deny s url_path action_id r =
      if s.http_need_check_acl then acl_result s.http_check_acl url_path action_id r else none

  -- `_isCheckServiceNotReady`.
  unfoldable pub is_check_service_not_ready : Api → Bytes → Bytes → Bool
  is_check_service_not_ready s action url =
      if not s.service_disabled
      then false
      else if not (action == []) && has action s.exclude_init_service_disabled
      then false
      else if not (url == []) && has url s.exclude_init_service_disabled
      then false
      else true
