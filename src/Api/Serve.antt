-- ===== src/Api/Serve.antt =====
-- `dispatchAction`, `httpHandleProxy` and the handler for unknown routes, of api/serv_api.go.
-- `Outcome` is what the client is sent, and which handlers of the program were called.
pub mod Access
pub mod Trace
use landau.Common.{
  ℕ, Bool, true, false, not, ◌&&◌, ◌||◌, List, [], ◌∷◌, ◌++◌, ◌==◌, bytes_eq, Bytes, codes, Option,
  none, some, if◌then◌else◌, lookup, lookup_or, has, ℤ, pos, insert,
}
use landau.Api.Values.{
  Response, gin_h, int, text, default_bind_error_response, service_too_early, get_http_status_code,
}
use landau.Api.{
  Request, Program, Api, HttpHandleEntry, UrlEntry, dispatch, handler, is_acl_deny,
  is_check_service_not_ready, is_post_binding_complex, is_post_method,
}
use landau.Data.Keepalive.{Keepalive}

-- Under which name a handler was called.
pub data Caller : Type 0 where
  by_url by_action un_registered : Bytes → Caller

-- The body that is written: JSON, with or without the HTML escape, JSONP or a text.
pub data Body : Type 0 where
  json : Bool → Response → Body
  jsonp : Bytes → Response → Body
  plain_text : Bytes → Body

-- `allow_origin` is empty without the headers of `addAccessControlAllowHeader`.
pub record Sent : Type 0 where
  pub status : ℤ
  pub allow_origin : Bytes
  pub body : Body

pub record Outcome : Type 0 where
  pub sent : Option Sent
  pub called : List Caller

-- The early returns on a denied access: of the dispatcher, and of a handler that is sent.
unless_denied : Option Response → Response × List Caller → Response × List Caller
unless_denied none answer = answer
unless_denied (some response) answer = (response, [])

unless_refused : Option Response → (Response → Sent) → Outcome → Outcome
unless_refused none answer outcome = outcome
unless_refused (some response) answer outcome = record {
  sent = some (answer response);
  called = [];
}

unfoldable pub bind_error_response : Bytes → Response
bind_error_response e = gin_h (
    (codes "Code", int (pos 230))
    ∷ (codes "Message", text (codes "Bind params error [" ++ e ++ codes "]"))
    ∷ [])

-- `_traceLastServiceAddress`, on the state of data/service_keepalive.go; the switch comes first.
unfoldable pub trace_last_service_address : Bool → Request → Keepalive → Keepalive
trace_last_service_address disabled r k =
    if not disabled && (not (r.service_name == []) && not (r.service_address == []))
    then record k {
      last_trace_service_address =
          insert r.service_name r.service_address k.last_trace_service_address;
    }
    else k

module _ (program : Program) where
  open program use {Kind, Param, bind_action, bind_param}

  -- `bindParams` of an entry's own parameter.
  bind_entry :
      Api program → HttpHandleEntry program → Bytes → Bytes → Request → Param × Option Bytes
  bind_entry s a url action r =
      bind_param a.new_requester_parameter (is_post_method r)
        (is_post_binding_complex program s url action) r

  run_action :
      Api program
      → HttpHandleEntry program
      → Bytes
      → Request
      → Param × Option Bytes
      → Response × List Caller
  run_action s a action r (param, some e) = (bind_error_response e, [])
  run_action s a action r (param, none) =
      if is_check_service_not_ready program s action []
      then (service_too_early, [])
      else (a.handle_func r param, by_action action ∷ [])

  run_un_registered :
      Api program → Bytes → Request → Option (Request → Bytes → Response) → Response × List Caller
  unfolding unless_denied
  run_un_registered s action r none = (default_bind_error_response, [])
  run_un_registered s action r (some handle) =
      unless_denied (is_acl_deny program s (codes "/") action r) (
        if is_check_service_not_ready program s action r.url_path
        then (service_too_early, [])
        else (handle r action, un_registered action ∷ []))

  dispatch_found :
      Api program → Bytes → Request → Option (HttpHandleEntry program) → Response × List Caller
  unfolding run_un_registered run_action bind_entry unless_denied
  dispatch_found s action r none = run_un_registered s action r s.un_register_handle
  dispatch_found s action r (some a) =
      unless_denied (is_acl_deny program s (codes "/") action r)
        (run_action s a action r (bind_entry s a [] action r))

  -- `dispatchAction`, of the bound action.
  unfoldable pub dispatch_action : Api program → Bytes → Request → Response × List Caller
  unfolding dispatch_found
  dispatch_action s action r = dispatch_found s action r (lookup action s.http_action_entry)

  -- `addAccessControlAllowHeader`.
  unfoldable pub allow_origin_header : Api program → Request → Bytes
  allow_origin_header s r = if s.http_access_control_allow_origin then r.origin else []

  jsonp_callback : Api program → Request → Bytes
  jsonp_callback s r =
      if s.response_jsonp_enable
      then lookup_or s.response_jsonp_callback_query_name [] r.query
      else []

  status_of : Bytes → Response → ℤ
  status_of field response =
      if field == [] then pos 200 else get_http_status_code response field (pos 200)

  -- The end of `httpHandleProxy`: the status by the entry's field, and the form of the body.
  unfoldable pub send : Api program → Request → Bytes → Bool → Response → Sent
  unfolding jsonp_callback status_of
  send s r field escape_html response =
      let callback : Bytes = jsonp_callback s r in
      record {
        status = status_of field response;
        allow_origin = allow_origin_header s r;
        body = if callback == [] then json escape_html response else jsonp callback response;
      }

  bind_error : Api program → Bytes → Response
  bind_error s e = elim (s.replace_default_bind_error) [
    | some response ↦ response
    | none ↦ bind_error_response e
  ]

  -- The root entry, at "/": the action is bound and handed to `dispatchAction`.
  serve_root : Api program → Request → Bytes × Option Bytes → Outcome
  unfolding bind_error
  serve_root s r (action, some e) = record {
    sent = some (send s r [] (not (has action s.un_html_escape_action)) (bind_error s e));
    called = [];
  }
  serve_root s r (action, none) =
      let (response, called) = dispatch_action s action r in
      record {
        sent = some (send s r [] (not (has action s.un_html_escape_action)) response);
        called = called;
      }

  escapes : Api program → Request → Bool
  escapes s r = (r.url_path == codes "/") || not (has r.url_path s.un_html_escape_url)

  serve_bound : Api program → HttpHandleEntry program → Request → Param × Option Bytes → Outcome
  unfolding bind_error escapes
  serve_bound s a r (param, some e) = record {
    sent = some (send s r a.http_code_status (escapes s r) (bind_error s e));
    called = [];
  }
  serve_bound s a r (param, none) =
      if not (r.url_path == codes "/") && is_check_service_not_ready program s [] r.url_path
      then record {
        sent =
            some
              (record { status = pos 425; allow_origin = []; body = json true service_too_early });
        called = [];
      }
      else record {
        sent = some (send s r a.http_code_status (escapes s r) (a.handle_func r param));
        called = by_url r.url_path ∷ [];
      }

  -- The access check of a handler at another path than "/".
  check_url : Api program → Request → Option Response
  check_url s r = if r.url_path == codes "/" then none else is_acl_deny program s r.url_path [] r

  serve_handler : Api program → HttpHandleEntry program → Request → Outcome
  unfolding serve_bound check_url bind_entry unless_refused
  serve_handler s a r =
      unless_refused (check_url s r) (send s r a.http_code_status true)
        (serve_bound s a r (bind_entry s a r.url_path [] r))

  serve_entry : Api program → Request → Option (UrlEntry program) → Outcome
  unfolding serve_root serve_handler
  serve_entry s r none = record { sent = none; called = [] }
  serve_entry s r (some dispatch) =
      serve_root s r
        (bind_action (is_post_method r) (is_post_binding_complex program s r.url_path []) r)
  serve_entry s r (some (handler a)) = serve_handler s a r

  -- `httpHandleProxy`, which gin calls for the paths that are registered.
  unfoldable pub http_handle_proxy : Api program → Request → Outcome
  unfolding serve_entry
  http_handle_proxy s r = serve_entry s r (lookup r.url_path s.http_entry)

  -- The same with the trace of the caller; that `dispatchAction` notes it again changes nothing.
  unfoldable pub http_handle_traced : Api program → Request → Keepalive → Outcome × Keepalive
  http_handle_traced s r k =
      (http_handle_proxy s r, trace_last_service_address s.disable_trace_service_address r k)

  no_route_bound : Api program → Request → Option (Request → Bytes → Response) → Bytes → Outcome
  unfolding unless_refused
  no_route_bound s r none action = record {
    sent = some (record {
      status = pos 404;
      allow_origin = allow_origin_header s r;
      body = plain_text (codes "404 page not found");
    });
    called = [];
  }
  no_route_bound s r (some handle) action =
      let answer : ℤ → Response → Sent = λ status response. record {
        status = status;
        allow_origin = allow_origin_header s r;
        body = json true response;
      } in
      if is_check_service_not_ready program s action r.url_path
      then record { sent = some (answer (pos 425) service_too_early); called = [] }
      else unless_refused (is_acl_deny program s r.url_path action r) (answer (pos 200)) (record {
        sent = some (answer (pos 200) (handle r action));
        called = un_registered action ∷ [];
      })

  options_success : Response
  options_success =
      gin_h ((codes "Code", int (pos 0)) ∷ (codes "Message", text (codes "options success")) ∷ [])

  -- The handler for unknown routes of `RegisterHTTPHandle`. Its binding's error is dropped, and the
  -- answer to OPTIONS has the headers whatever the switch.
  unfoldable pub no_route : Api program → Request → Outcome
  unfolding no_route_bound options_success
  no_route s r =
      if r.http_method == codes "OPTIONS"
      then record {
        sent = some (record {
          status = pos 200;
          allow_origin = r.origin;
          body = json true options_success;
        });
        called = [];
      }
      else no_route_bound s r s.un_register_handle
          (bind_action (is_post_method r) (is_post_binding_complex program s r.url_path []) r).0
