-- ===== src/Api/Report.antt =====
-- api/serv_api.go: what a request that was answered leaves behind, the notice to a robot, the audit, the
-- line of the log and the metric, in that order. The texts of responses and durations are arguments,
-- and so are the callbacks. A text is its list of code points, the runes that the code counts; a
-- callback that panics has no text.
mod Trimmed
mod Tests
use landau.Common.{
  ℕ, ◌-◌, Bool, true, false, not, ◌&&◌, List, [], ◌∷◌, ◌++◌, ◌==◌, bytes_eq, Bytes, codes, Option,
  none, some, if◌then◌else◌, ℤ, pos, negsuc, format_int, lookup, insert, length, take, drop, leb,
}
use landau.Api.Values.{Response, get_code_from_interface2}

-- `defaultResponseShowDetail` and `defaultResponseShowSize`.
pub record ShowSettings : Type 0 where
  pub show_detail : Bool
  pub show_size : ℤ

-- `HTTPLogResponse`, which may read the package's variables when it is called, and the logger of a
-- handler.
pub record LogEntry : Type 0 where
  pub log_response : ShowSettings → Bytes → Option Bytes
  pub logger : Bytes

-- The package's variables for logs, audits and notices, and the handlers' entries.
pub record Reports : Type 0 where
  pub response_show : ShowSettings
  pub response_log_as_json : Bool
  pub custom_log_tag : Option Bytes
  pub has_audit_log : Bool
  pub enable_monitor : Bool
  pub robot : Bytes
  pub log_entry : List (Bytes × LogEntry)
  pub log_action_entry : List (Bytes × LogEntry)

unfoldable pub set_http_audit_log : Bool → Reports → Reports
set_http_audit_log set s = record s { has_audit_log = set }

unfoldable pub set_default_http_log_response : Bool → ℤ → Reports → Reports
set_default_http_log_response show_detail show_size s = record s {
  response_show = record { show_detail = show_detail; show_size = show_size };
}

unfoldable pub set_http_custom_log_tag : Bool → Option Bytes → Reports → Reports
set_http_custom_log_tag enable tag s = record s { custom_log_tag = if enable then tag else none }

unfoldable pub set_response_log_as_json : Bool → Reports → Reports
set_response_log_as_json as_json s = record s { response_log_as_json = as_json }

abbrev pub fits_size : ℤ → Bytes → Bool
fits_size (pos n) msg = leb (length msg) n
fits_size (negsuc n) msg = false

-- The first and the last 64 runes; with fewer the slice expressions panic.
abbrev pub cut_response : Bytes → Option Bytes
cut_response msg =
    if leb 64 (length msg)
    then some (take 64 msg ++ codes "......" ++ drop (length msg - 64) msg)
    else none

-- `defaultLogResponse`
unfoldable pub default_log_response : ShowSettings → Bytes → Option Bytes
default_log_response shown msg =
    if shown.show_detail
    then some msg
    else if fits_size shown.show_size msg
    then some msg
    else cut_response msg

abbrev pub default_api_logger : Bytes
default_api_logger = codes "API"

-- `AddHTTPHandle`, for the log.
unfoldable pub add_log_entry : Bytes → Bytes → LogEntry → Reports → Reports
add_log_entry url_path action_id h s = record s {
  log_entry = if url_path == [] then s.log_entry else insert url_path h s.log_entry;
  log_action_entry =
      if action_id == [] then s.log_action_entry else insert action_id h s.log_action_entry;
}

-- A parameter of a handler: that of the dispatcher, a pointer to a struct, or a pointer to something else.
pub data ParamField : Type 0 where
  int_field : ℤ → ParamField
  float_field : Bytes → ParamField
  printed_field : Bytes → ParamField
  hidden_field : ParamField

pub data Parameter : Type 0 where
  action_param : Bytes → Parameter
  struct_param : List (Bytes × ParamField) → Parameter
  other_param : Parameter

abbrev pub field_text : ParamField → Option Bytes
field_text (int_field n) = some (format_int n)
field_text (float_field s) = some s
field_text (printed_field s) = some s
field_text hidden_field = none

abbrev pub text_or : Option Bytes → Bytes → Bytes
text_or none later = later
text_or (some s) later = s

unfoldable pub action_field : List (Bytes × ParamField) → Bytes
action_field [] = []
action_field ((name, v) ∷ fields) =
    let later = action_field fields in
    if name == codes "Action" then text_or (field_text v) later else later

-- `getActionFromInterface`.
unfoldable pub get_action_from_interface : Parameter → Bytes
unfolding action_field
get_action_from_interface (action_param action) = action
get_action_from_interface (struct_param fields) = action_field fields
get_action_from_interface other_param = []

abbrev own_logger : LogEntry → LogEntry → LogEntry
own_logger root h = record {
  log_response = h.log_response;
  logger = if h.logger == [] then root.logger else h.logger;
}

abbrev of_action : LogEntry → Option LogEntry → LogEntry
of_action root none = root
of_action root (some h) = own_logger root h

abbrev of_param : Reports → LogEntry → Parameter → LogEntry
of_param s root (action_param action) = of_action root (lookup action s.log_action_entry)
of_param s root (struct_param fields) = root
of_param s root other_param = root

-- The formatter and the logger of a request's line; at "/" those of the action, if it has an entry.
unfoldable pub entry_of : Reports → Bytes → LogEntry → Parameter → LogEntry
entry_of s url_path a param = if url_path == codes "/" then of_param s a param else a

-- Where a response comes from: a failed binding, a handler, or a handler that `dispatchAction` has called.
pub data Answered : Type 0 where
  unbound by_handler by_dispatcher : Answered

-- What package json, package fmt and the program give.
pub record Printer : Type 0 where
  pub stringer : Response → Option Bytes
  pub json_text : Bool → Response → Bytes
  pub printed : Response → Bytes
  pub copied_action : Parameter → Bytes
  pub notice : Response → Bytes

module _ (p : Printer) where
  -- `strResponse`
  unfoldable pub response_text : Reports → Bool → Response → Bytes
  response_text s json_escape_html r =
      if s.response_log_as_json
      then text_or (p.stringer r) (p.json_text json_escape_html r)
      else p.printed r

  -- `getHTTPAuditLogContent`.
  unfoldable pub audit_content : Bytes → Parameter → Response → Bytes × Bytes
  audit_content url param r =
      ((if url == codes "/" then p.copied_action param else []), p.json_text true r)

  pub data Trace : Type 0 where
    notified : Bytes → Bytes → Trace
    audited : Bytes → Bytes → Bytes → Trace
    logged : Bytes → Bytes → Trace
    metered : ℤ → Bytes → Trace

  -- `_doMonitorAPIResult`; `notice` is empty unless the response is one that was not expected.
  unfoldable pub do_monitor_api_result : Reports → Response → List Trace
  do_monitor_api_result s r =
      if s.enable_monitor && not (s.robot == []) && not (p.notice r == [])
      then notified s.robot (p.notice r) ∷ []
      else []

  abbrev pub notices : Reports → Answered → Response → List Trace
  notices s unbound r = []
  notices s by_handler r = do_monitor_api_result s r
  notices s by_dispatcher r = do_monitor_api_result s r ++ do_monitor_api_result s r

  abbrev pub audit : Reports → Bytes → Parameter → Response → List Trace
  audit s url param r =
      let (action, content) = audit_content url param r in
      if s.has_audit_log then audited url action content ∷ [] else []

  abbrev pub log_line : Bytes → Bytes → Bytes → Bytes → Bytes → Bytes
  log_line url elapsed tag request response =
      codes "["
      ++ url
      ++ codes "]\t["
      ++ elapsed
      ++ codes "]\t"
      ++ tag
      ++ codes "\tRequest:"
      ++ request
      ++ codes "\tResponse:"
      ++ response

  -- The line and the metric; a formatter that panics leaves neither.
  abbrev pub logged_and_metered :
      Reports
      → Bytes
      → Bytes
      → Bytes
      → Parameter
      → Response
      → Bytes
      → Option Bytes
      → List Trace × Bool
  logged_and_metered s logger url elapsed param r request none = ([], true)
  logged_and_metered s logger url elapsed param r request (some text) = (
    logged logger (log_line url elapsed (text_or s.custom_log_tag []) request text)
        ∷ metered (get_code_from_interface2 r (codes "Code")) (get_action_from_interface param)
        ∷ [],
    false,
  )

  -- What `httpHandleProxy` leaves beside the answer, and whether it panics.
  unfoldable pub report :
      Reports
      → LogEntry
      → Answered
      → Bool
      → Bytes
      → Bytes
      → Parameter
      → Bytes
      → Response
      → List Trace × Bool
  unfolding do_monitor_api_result audit_content entry_of response_text
  report s a answered json_escape_html url elapsed param request r =
      let e = entry_of s url a param in
      let (traces, panicked) =
        logged_and_metered s e.logger url elapsed param r request
          (e.log_response s.response_show (response_text s json_escape_html r)) in
      (notices s answered r ++ audit s url param r ++ traces, panicked)
