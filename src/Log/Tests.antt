-- ===== src/Log/Tests.antt =====
-- The package log at concrete files, lines and configurations.
use mathlib.Core.List.{Perm}
use landau.Common.{
  ℕ, ◌≡◌, refl, true, false, List, [], ◌∷◌, ◌++◌, Bytes, codes, Option, none, some, pos, arith,
  insertion_sort, insertion_sort-Sorts,
}
use landau.Log.Monitor.{LogFileMonitorPath, default_monitor_config}
use landau.Log.Monitor.Clean.{
  CleanFileInfo, DirEntry, Statfs, less_clean, clean_files, released_files, read_dir, monitor_size,
}
use landau.Log.Monitor.Clean.Release.{Released, released_files-Released, less_clean-IsStrictOrder}
use landau.Log.Monitor.Clean.Safe.{is_there, monitor_size_keeps}
use landau.Log.Parsers.{Decoder, request_part, json_request}
use landau.Log.Parsers.Trim.{request_part_json}
use landau.Log.Logger.{Loggers, LoggerConfig, LogConfig, init_loggers, write_log}
use landau.Log.Logger.Routes.{IsLost, write_log-IsLost}

abbrev old_file : Bytes → ℕ → ℕ → DirEntry
old_file name size time = record { entry = name; is_dir = false; info = some (size, time) }

abbrev log_dir : List DirEntry
log_dir =
    old_file (codes "app.log") 5 90
    ∷ old_file (codes "app.log.2") 7 50
    ∷ old_file (codes "app.log.1") 8 40
    ∷ old_file (codes "other") 9 10
    ∷ []

abbrev by_age : List CleanFileInfo → List CleanFileInfo
by_age = insertion_sort less_clean

released_files-Released_example :
    (kept : List CleanFileInfo) × Perm
      (released_files by_age (codes "app.log") 6 log_dir ++ kept)
      (clean_files (codes "app.log") log_dir)
    × Released 6 (released_files by_age (codes "app.log") 6 log_dir) kept
unfolding clean_files
released_files-Released_example =
    released_files-Released by_age (insertion_sort-Sorts less_clean less_clean-IsStrictOrder)
      (codes "app.log") 6 log_dir (omega arith)

abbrev app_log : LogFileMonitorPath
app_log = record { file_name = codes "app.log"; path = codes "/var/log" }

-- A disk that is nine tenths full.
abbrev full_disk : Bytes → Option Statfs
full_disk path = some (record { bsize = 1; blocks = 100; bfree = 10 })

monitor_size_keeps_example :
    is_there (codes "app.log") (
      read_dir (codes "/var/log") (
        monitor_size by_age
          (λ _ _. true)
          default_monitor_config
          full_disk
          (app_log ∷ [])
          ((codes "/var/log", log_dir) ∷ [])))
    ≡ true
monitor_size_keeps_example =
    monitor_size_keeps default_monitor_config full_disk by_age
      (insertion_sort-Sorts less_clean less_clean-IsStrictOrder) (λ _ _. true) (codes "/var/log")
      (codes "app.log") (app_log ∷ []) ((codes "/var/log", log_dir) ∷ []) (refl, tt)

-- A decoder that takes every text for an object without a key.
abbrev any_decoder : Decoder Bytes
any_decoder = record {
  unmarshal = λ s. some [];
  as_string = λ v. some v;
  parse_duration = λ s. none;
  parse_query = λ s. none;
}

request_part_json_example :
    request_part any_decoder (some (codes "Request:{\"q\":1}")) []
    ≡ json_request any_decoder (codes "{\"q\":1}") (some []) []
request_part_json_example = request_part_json any_decoder (codes "\"q\":1") []

abbrev no_loggers : Loggers
no_loggers = record {
  default_logger = [];
  log_to_stdout = [];
  stdout_to = [];
  double_write = false;
  application_logger_name = [];
  api_logger_name = codes "API";
  gin_logger_name = codes "gin";
}

abbrev main_file : LoggerConfig
main_file = record {
  category = codes "main";
  level = codes "ERROR";
  stdout = true;
  file_name = codes "/log/main.log";
}

abbrev one_file : LogConfig
one_file = record {
  files = main_file ∷ [];
  stdout_to_file = [];
  double_write_mode = false;
  file_monitor_config = default_monitor_config;
}

write_log-IsLost_example :
    IsLost any_decoder []
      (λ m. some [])
      (codes "host")
      (pos 0)
      (codes "main")
      (codes "INFO")
      (codes "started")
      (init_loggers one_file no_loggers)
unfolding init_loggers write_log
write_log-IsLost_example =
    write_log-IsLost any_decoder [] (λ m. some []) (codes "host") (pos 0) (codes "main")
      (codes "INFO") (codes "started") (init_loggers one_file no_loggers) refl
