-- ===== src/Api/Report/Tests.antt =====
-- Witnesses of what a request leaves behind.
use landau.Common.{◌≡◌, refl, true, false, [], ◌∷◌, ◌++◌, codes, none, pos, inr, replicate, arith}
use landau.Api.Values.{Response, gin_h, int}
use landau.Api.Report.{
  Reports, LogEntry, action_param, Printer, by_handler, notices, audit, report, response_text,
  default_log_response, set_default_http_log_response,
}
use landau.Api.Report.Trimmed.{IsShort, default_log_response-IsShort, report-default_log_response}

abbrev plain_printer : Printer
plain_printer = record {
  stringer = λ r. none;
  json_text = λ escape r. codes "{\"Code\":500}";
  printed = λ r. codes "map[Code:500]";
  copied_action = λ p. codes "list";
  notice = λ r. codes "**500**";
}

abbrev short_reports : Reports
short_reports = record {
  response_show = record { show_detail = false; show_size = pos 5 };
  response_log_as_json = true;
  custom_log_tag = none;
  has_audit_log = true;
  enable_monitor = true;
  robot = codes "http://robot";
  log_entry = [];
  log_action_entry = [];
}

abbrev failure : Response
failure = gin_h ((codes "Code", int (pos 500)) ∷ [])

abbrev short_entry : LogEntry
short_entry = record { log_response = default_log_response; logger = codes "API" }

report-default_log_response_example :
    report plain_printer short_reports short_entry by_handler true
      (codes "/list")
      (codes "1ms")
      (action_param [])
      []
      failure
    ≡ (
      notices plain_printer short_reports by_handler failure
          ++ audit plain_printer short_reports (codes "/list") (action_param []) failure
          ++ [],
      true,
    )
unfolding response_text
report-default_log_response_example =
    report-default_log_response plain_printer short_reports 5 (codes "API") (codes "/list")
      (codes "1ms") by_handler true (action_param []) [] failure refl refl refl (omega arith)
      (omega arith)

default_log_response-IsShort_example : IsShort 5 (
    default_log_response
      (set_default_http_log_response false (pos 5) short_reports).response_show
      (replicate 70 b'a'))
default_log_response-IsShort_example =
    default_log_response-IsShort short_reports 5 (replicate 70 b'a') (inr (omega arith))
