-- ===== src/Log/Logger.antt =====
-- log/log.go and log/log_category_control.go: where a message of a logger goes. Parameters: the
-- encoding of a log object as JSON, the decoders of the parsers, and what a configuration's text says.
-- The text of a message is already formatted; the time and the host's name are given. log4go writes
-- the files: a call of one of its loggers is an event.
pub mod Routes
pub mod Category
use landau.Common.{
  ℕ, Bool, true, false, ◌&&◌, ◌||◌, not, List, [], ◌∷◌, ◌++◌, Bytes, ℤ, ◌==◌, bytes_eq, codes, leb,
  if◌then◌else◌, Option, none, some, lookup, insert, has, ◌>>=◌, map,
}
use landau.Log.Parsers.{
  Decoder, DataLogParser, LogObject, LogValue, string, number, logged_text_to_map,
}
use landau.Log.Monitor.{LogFileMonitor, LogFileMonitorConfig, init_monitor_config}

-- `_loggerConfig` and `_logConfig`.
pub record LoggerConfig : Type 0 where
  pub category : Bytes
  pub level : Bytes
  pub stdout : Bool
  pub file_name : Bytes

pub record LogConfig : Type 0 where
  pub files : List LoggerConfig
  pub stdout_to_file : Bytes
  pub double_write_mode : Bool
  pub file_monitor_config : LogFileMonitorConfig

-- The package's variables.
pub record Loggers : Type 0 where
  pub default_logger : Bytes
  pub log_to_stdout : List (Bytes × Bytes)
  pub stdout_to : Bytes
  pub double_write : Bool
  pub application_logger_name : List (Bytes × Bytes)
  pub api_logger_name : Bytes
  pub gin_logger_name : Bytes

-- `_ReplaceLoggerNameIfNotExist`.
abbrev pub replaced_name : Bytes
replaced_name = codes "__replaced_logger_name__"

-- The first category that is no logger of requests stands in for unknown ones.
abbrev pub note_replacement : Bytes → Bytes → Bytes → List (Bytes × Bytes) → List (Bytes × Bytes)
note_replacement api gin category m =
    if has replaced_name m || (category == api) || (category == gin)
    then m
    else insert replaced_name category m

-- The loop over the files, on the two maps.
unfoldable pub register_files : List LoggerConfig → Loggers → Loggers
register_files [] s = s
register_files (fc ∷ files) s = register_files files record s {
  log_to_stdout =
      if fc.stdout && not (fc.category == [])
      then insert fc.category fc.level s.log_to_stdout
      else s.log_to_stdout;
  application_logger_name =
      note_replacement s.api_logger_name s.gin_logger_name fc.category
        (insert fc.category [] s.application_logger_name);
}

-- If all categories are loggers of requests, the first one stands in.
abbrev pub replace_by_first : List LoggerConfig → List (Bytes × Bytes) → List (Bytes × Bytes)
replace_by_first [] m = m
replace_by_first (fc ∷ files) m =
    if has replaced_name m then m else insert replaced_name fc.category m

unfoldable pub init_loggers : LogConfig → Loggers → Loggers
unfolding register_files
init_loggers lc s =
    let s' : Loggers = register_files lc.files record s {
      log_to_stdout = [];
      stdout_to = lc.stdout_to_file;
      double_write = lc.double_write_mode;
    } in
    record s' { application_logger_name = replace_by_first lc.files s'.application_logger_name }

-- `LoadLogConfig`, of a text that `decode` reads, or else the program ends. The first result is what
-- the loggers are, the second what the monitor of the files is; `none` is the end of the program.
unfoldable pub load_log_config :
    (Bytes → Option LogConfig)
    → Bytes
    → Bytes
    → Bytes
    → Loggers
    → LogFileMonitor
    → Option (Loggers × LogFileMonitor)
unfolding init_loggers
load_log_config decode current_path content default_name s monitor = do
  lc ← decode content
  m ←
      init_monitor_config current_path lc.file_monitor_config
        (map (λ (fc : LoggerConfig). fc.file_name) lc.files) monitor
  some (init_loggers lc (record s { default_logger = default_name }), m)

-- `getLoggerSafely`.
unfoldable pub get_logger_safely : Bytes → Loggers → Bytes
get_logger_safely category s =
    if has category s.application_logger_name
    then category
    else elim (lookup replaced_name s.application_logger_name) [ none ↦ category | some v ↦ v ]

-- `_logLevelMap`; a level that is not in it reads as zero.
abbrev pub log_level : Bytes → ℕ
log_level level =
    if level == codes "INFO"
    then 1
    else if level == codes "WARN"
    then 2
    else if level == codes "ERROR"
    then 3
    else 0

-- A line on the standard output, or a call of a log4go logger at a level.
pub data Written : Type 0 where
  printed : Bytes → Written
  logged : Bytes → Bytes → Bytes → Written

-- The `switch` over the level of a redirected line.
abbrev pub known_level : Bytes → Bytes
known_level level =
    if (level == codes "DEBUG") || (level == codes "ERROR") || (level == codes "WARN")
    then level
    else codes "INFO"

abbrev pub redirected : Bytes → Bytes → Option Bytes → List Written
redirected target level none = []
redirected target level (some line) =
    (if target == [] then printed line else logged target (known_level level) line) ∷ []

module _ {V : Type 0} (d : Decoder V) (parsers : List (DataLogParser V))
    (marshal : LogObject V → Option Bytes) (instance_id : Bytes) (now : ℤ) where
  -- The keys of the line override those of the message.
  unfoldable pub with_keys : LogObject V → LogObject V → LogObject V
  with_keys [] m = m
  with_keys ((k, v) ∷ more) m = with_keys more (insert k v m)

  abbrev pub log_object : Bytes → Bytes → LogObject V
  log_object logger level =
      (codes "logger", string logger)
      ∷ (codes "level", string level)
      ∷ (codes "instance_id", string instance_id)
      ∷ (codes "time", number now)
      ∷ []

  -- What a redirected logger writes; `none` is a panic of a parser.
  abbrev pub json_line : Bytes → Bytes → Bytes → Loggers → Option (List Written)
  json_line logger level text s = do
    m ← logged_text_to_map d parsers s.api_logger_name s.gin_logger_name logger text
    some (redirected s.stdout_to level (marshal (with_keys m (log_object logger level))))

  abbrev pub at_level :
      Option Bytes → Bytes → Bytes → Bytes → Loggers → Option (List Written × Bool)
  at_level none logger level text s = some ([], false)
  at_level (some logger_level) logger level text s =
      if leb (log_level logger_level) (log_level level)
      then (do ws ← json_line logger level text s; some (ws, true))
      else some ([], true)

  -- `_log2StdoutAsJSON`: what is written, and whether the logger is redirected.
  unfoldable pub log_to_stdout_as_json :
      Bytes → Bytes → Bytes → Loggers → Option (List Written × Bool)
  unfolding with_keys
  log_to_stdout_as_json logger level text s =
      if logger == s.stdout_to
      then some ([], false)
      else at_level (lookup logger s.log_to_stdout) logger level text s

  abbrev pub or_double : Bytes → Bytes → Bytes → Loggers → List Written × Bool → List Written
  or_double logger level text s (ws, handled) =
      if not handled || s.double_write
      then ws ++ logged (get_logger_safely logger s) level text ∷ []
      else ws

  -- `Info2`, `Debug2`, `Error2` and `Warn2`, by the level.
  unfoldable pub write_log : Bytes → Bytes → Bytes → Loggers → Option (List Written)
  unfolding log_to_stdout_as_json get_logger_safely
  write_log logger level text s = do
    r ← log_to_stdout_as_json logger level text s
    some (or_double logger level text s r)

  unfoldable pub info2 : Bytes → Bytes → Loggers → Option (List Written)
  unfolding write_log
  info2 logger text s = write_log logger (codes "INFO") text s

  unfoldable pub debug2 : Bytes → Bytes → Loggers → Option (List Written)
  unfolding write_log
  debug2 logger text s = write_log logger (codes "DEBUG") text s

  unfoldable pub error2 : Bytes → Bytes → Loggers → Option (List Written)
  unfolding write_log
  error2 logger text s = write_log logger (codes "ERROR") text s

  unfoldable pub warn2 : Bytes → Bytes → Loggers → Option (List Written)
  unfolding write_log
  warn2 logger text s = write_log logger (codes "WARN") text s

  -- `Info`, `Debug`, `Error` and `Warn`.
  unfoldable pub info : Bytes → Loggers → Option (List Written)
  unfolding info2
  info text s = info2 s.default_logger text s

  unfoldable pub debug : Bytes → Loggers → Option (List Written)
  unfolding debug2
  debug text s = debug2 s.default_logger text s

  unfoldable pub error : Bytes → Loggers → Option (List Written)
  unfolding error2
  error text s = error2 s.default_logger text s

  unfoldable pub warn : Bytes → Loggers → Option (List Written)
  unfolding warn2
  warn text s = warn2 s.default_logger text s
