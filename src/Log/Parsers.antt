-- ===== src/Log/Parsers.antt =====
-- log/log.go and log/log_parser_sql.go, log_parser_http.go, log_parser_grpc.go: a line of a log read
-- back into its parts. Parameters: the decoding of a JSON object, the parsing of a duration and of a
-- query, and what a registered regular expression matches. A panic is `none`.
mod Text
pub mod Trim
use landau.Common.{
  ℕ, Bool, ◌||◌, List, [], ◌∷◌, ◌++◌, Bytes, ℤ, ◌==◌, bytes_eq, codes, if◌then◌else◌, Option, none,
  some, lookup, insert, split_byte, atoi, ◌>>=◌, get_elem?, map,
}
use landau.Log.Parsers.Text.{trim_set, trim_left_set, erase, unbracket, url_words, http_answer}

-- A key of a query with a single value, or with the values that it has.
pub data FormValue : Type 0 where
  one : Bytes → FormValue
  many : List Bytes → FormValue

abbrev pub form_value : List Bytes → FormValue
form_value (v ∷ []) = one v
form_value [] = many []
form_value (v ∷ w ∷ vs) = many (v ∷ w ∷ vs)

-- What a key of the log object holds; `V` is what a JSON text decodes to.
pub data LogValue (V : Type 0) : Type 0 where
  string : Bytes → LogValue V
  number : ℤ → LogValue V
  object : List (Bytes × V) → LogValue V
  form : List (Bytes × FormValue) → LogValue V

pub record Decoder (V : Type 0) : Type 0 where
  pub unmarshal : Bytes → Option (List (Bytes × V))
  pub as_string : V → Option Bytes
  pub parse_duration : Bytes → Option ℤ
  pub parse_query : Bytes → Option (List (Bytes × List Bytes))

abbrev pub LogObject : Type 0 → Type 0
LogObject V = List (Bytes × LogValue V)

-- `DataLogParser`: whether its expression matches, and what it reads.
pub record DataLogParser (V : Type 0) : Type 0 where
  pub matches : Bytes → Bool
  pub parse : Bytes → LogObject V

module _ {V : Type 0} where
  -- A part of the line, if it is there.
  abbrev string_part : Bytes → (Bytes → Bytes) → Option Bytes → LogObject V → LogObject V
  string_part key read none m = m
  string_part key read (some s) m = insert key (string (read s)) m

  abbrev number_if : Bytes → Option ℤ → LogObject V → LogObject V
  number_if key none m = m
  number_if key (some n) m = insert key (number n) m

  abbrev cost_part : Decoder V → (Bytes → Bytes) → Option Bytes → LogObject V → LogObject V
  cost_part d read none m = m
  cost_part d read (some s) m = number_if (codes "time_cost") (d.parse_duration (read s)) m

  -- A response that decodes is an object, any other a text.
  abbrev object_or_string : Bytes → Bytes → Option (List (Bytes × V)) → LogObject V → LogObject V
  object_or_string key s none m = insert key (string s) m
  object_or_string key s (some o) m = insert key (object o) m

  -- `v.(string)` panics at a value that is no string.
  abbrev pub asserted : Bytes → Option Bytes → LogObject V → Option (LogObject V)
  asserted key none m = none
  asserted key (some s) m = some (insert key (string s) m)

  abbrev pub copy_string : Decoder V → Bytes → Option V → LogObject V → Option (LogObject V)
  copy_string d key none m = some m
  copy_string d key (some v) m = asserted key (d.as_string v) m

  abbrev pub copy_first : Bytes → List Bytes → LogObject V → Option (LogObject V)
  copy_first key [] m = none
  copy_first key (v ∷ vs) m = some (insert key (string v) m)

  -- The loop over the values of a query.
  unfoldable pub copy_query : List (Bytes × List Bytes) → LogObject V → Option (LogObject V)
  copy_query [] m = some m
  copy_query ((k, v) ∷ values) m =
      (if (k == codes "request_uuid") || (k == codes "Action") then copy_first k v m else some m)
      >>= copy_query values

  abbrev pub query_request :
      Bytes → Option (List (Bytes × List Bytes)) → LogObject V → Option (LogObject V)
  query_request s none m = some (insert (codes "request") (string s) m)
  query_request s (some values) m = do
    m' ← copy_query values m
    some (insert (codes "request") (form (map (λ (k, v). (k, form_value v)) values)) m')

  abbrev pub json_request :
      Decoder V → Bytes → Option (List (Bytes × V)) → LogObject V → Option (LogObject V)
  json_request d s none m = query_request s (d.parse_query s) m
  json_request d s (some o) m = do
    m' ←
        copy_string d (codes "request_uuid") (lookup (codes "request_uuid") o)
          (insert (codes "request") (object o) m)
    copy_string d (codes "Action") (lookup (codes "Action") o) m'

  unfoldable pub request_part : Decoder V → Option Bytes → LogObject V → Option (LogObject V)
  unfolding copy_query
  request_part d none m = some m
  request_part d (some s) m =
      let text : Bytes = trim_set (codes "Request:") s in json_request d text (d.unmarshal text) m

  unfoldable pub response_part : Decoder V → Option Bytes → LogObject V → LogObject V
  response_part d none m = m
  response_part d (some s) m =
      let text : Bytes = trim_set (codes "Response:") s in
      object_or_string (codes "response") text (d.unmarshal text) m

  -- `_apiLoggerParse`.
  unfoldable pub api_logger_parse : Decoder V → Bytes → Option (LogObject V)
  unfolding request_part response_part
  api_logger_parse d log_text = do
    let parts = split_byte 0x09 log_text
    let m =
        cost_part d unbracket (get_elem? parts 1)
          (string_part (codes "url") unbracket (get_elem? parts 0) [])
    m' ←
        request_part d (get_elem? parts 3)
          (string_part (codes "custom_tag") unbracket (get_elem? parts 2) m)
    some (response_part d (get_elem? parts 4) m')

  abbrev code_or_string : Bytes → Option ℤ → LogObject V → LogObject V
  code_or_string s none m = insert (codes "response_http_code") (string s) m
  code_or_string s (some n) m = insert (codes "response_http_code") (number n) m

  abbrev code_part : Option Bytes → LogObject V → LogObject V
  code_part none m = m
  code_part (some s) m =
      let text : Bytes = trim_set (codes " ") s in code_or_string text (atoi text) m

  abbrev url_found : Bytes × Bytes → LogObject V → LogObject V
  url_found (url, other) m =
      let m' : LogObject V = insert (codes "url") (string url) m in
      if other == [] then m' else insert (codes "trace") (string other) m'

  abbrev url_split : List Bytes → LogObject V → LogObject V
  url_split [] m = url_found ([], []) m
  url_split (method ∷ words) m =
      url_found (url_words words ([], [])) (insert (codes "request_method") (string method) m)

  abbrev url_part : Option Bytes → LogObject V → LogObject V
  url_part none m = m
  url_part (some s) m = url_split (split_byte b' ' (trim_set (codes " ") s)) m

  abbrev gin_parts : Decoder V → Bytes → List Bytes → LogObject V
  gin_parts d text (s ∷ []) = insert (codes "trace") (string text) []
  gin_parts d text [] = []
  gin_parts d text (time ∷ code ∷ parts) = url_part (get_elem? parts 2) (
      string_part (codes "client_ip") (trim_set (codes " ")) (get_elem? parts 1) (
        cost_part d (trim_set (codes " ")) (get_elem? parts 0) (
          code_part (some code) (
            insert (codes "request_time")
              (string (trim_set (codes " ") (erase (codes "[GIN]") time))) []))))

  -- `_ginLoggerParse`.
  unfoldable pub gin_logger_parse : Decoder V → Bytes → LogObject V
  gin_logger_parse d log_text =
      let text : Bytes = trim_set (0x0a ∷ []) log_text in gin_parts d text (split_byte b'|' text)

  -- The parsers of log_parser_http.go, log_parser_sql.go and log_parser_grpc.go on a matching line.
  abbrev http_response : Decoder V → Option Bytes → Option Bytes → LogObject V → LogObject V
  http_response d none answer m = m
  http_response d (some request) none m = m
  http_response d (some request) (some answer) m =
      let text : Bytes = http_answer request answer in
      object_or_string (codes "response") text (d.unmarshal text) m

  unfoldable pub http_parse : Decoder V → Bytes → LogObject V
  http_parse d log_text =
      let parts : List Bytes = split_byte 0x09 log_text in
      http_response d (get_elem? parts 3) (get_elem? parts 4) (
        string_part (codes "request") (λ s. s) (get_elem? parts 3)
          (string_part (codes "url") (erase (codes "URL:")) (get_elem? parts 2) (
            cost_part d unbracket (get_elem? parts 1)
              ((codes "data_category", string (codes "HTTP")) ∷ []))))

  unfoldable pub sql_parse : Decoder V → Bytes → LogObject V
  sql_parse d log_text =
      let parts : List Bytes = split_byte 0x09 log_text in
      string_part (codes "result") (λ s. unbracket (trim_set (codes "Error:") s))
        (get_elem? parts 3)
        (string_part (codes "parameter") (λ s. unbracket (erase (codes "Args ") s))
          (get_elem? parts 2)
          (string_part (codes "SQL") unbracket (get_elem? parts 1) (
            cost_part d (λ s. unbracket (erase (codes "[SQL] ") s)) (get_elem? parts 0)
              ((codes "data_category", string (codes "SQL")) ∷ []))))

  -- The sixth part only decides whether there is an error; the text is taken from the fifth.
  abbrev grpc_error : Option Bytes → Option Bytes → LogObject V → LogObject V
  grpc_error none last m = m
  grpc_error (some s) none m = m
  grpc_error (some s) (some e) m =
      if e == [] then m else insert (codes "error") (string (trim_left_set (codes "Error:") s)) m

  unfoldable pub grpc_parse : Decoder V → Bytes → LogObject V
  grpc_parse d log_text =
      let parts : List Bytes = split_byte 0x09 log_text in
      grpc_error (get_elem? parts 4) (get_elem? parts 5) (
        string_part (codes "result") (trim_left_set (codes "Response:")) (get_elem? parts 4) (
          string_part (codes "parameter") (trim_left_set (codes "Request:")) (get_elem? parts 3) (
            string_part (codes "service_method") unbracket (get_elem? parts 2) (
              cost_part d unbracket (get_elem? parts 1)
                ((codes "data_category", string (codes "GRPC")) ∷ [])))))

  -- The parsers that `init` registers, each with its regular expression.
  abbrev pub registered :
      Decoder V → (Bytes → Bool) → (Bytes → Bool) → (Bytes → Bool) → List (DataLogParser V)
  registered d http sql grpc =
      record { matches = http; parse = http_parse d }
      ∷ record { matches = sql; parse = sql_parse d }
      ∷ record { matches = grpc; parse = grpc_parse d }
      ∷ []

  -- `_mainLoggerParse`.
  unfoldable pub main_logger_parse : List (DataLogParser V) → Bytes → LogObject V
  main_logger_parse [] log_text = (codes "trace", string log_text) ∷ []
  main_logger_parse (p ∷ parsers) log_text =
      if p.matches log_text then p.parse log_text else main_logger_parse parsers log_text

  -- `_loggedText2Map` of a formatted text, by the names of the two loggers.
  unfoldable pub logged_text_to_map :
      Decoder V → List (DataLogParser V) → Bytes → Bytes → Bytes → Bytes → Option (LogObject V)
  unfolding api_logger_parse gin_logger_parse main_logger_parse
  logged_text_to_map d parsers api_name gin_name logger log_text =
      if logger == api_name
      then api_logger_parse d log_text
      else if logger == gin_name
      then some (gin_logger_parse d log_text)
      else some (main_logger_parse parsers log_text)
