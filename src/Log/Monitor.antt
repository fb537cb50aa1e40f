-- ===== src/Log/Monitor.antt =====
-- log/log_file_monitor.go: the settings of the job that watches the log files, and the paths that
-- it watches. The integers of the settings come from a JSON text and may be negative.
pub mod Paths
pub mod Clean
pub mod Daily
use landau.Common.{
  ℕ, Bool, true, false, ◌&&◌, not, List, [], ◌∷◌, ◌++◌, Bytes, ℤ, pos, negsuc, leb, ◌==◌, bytes_eq,
  nat_beq, codes, if◌then◌else◌, Option, none, some, split_byte, join, ◌>>=◌, ◌≡◌, refl, arith,
}

-- `_LogFileMonitorConfig`; `debug` only chooses what is printed.
pub record LogFileMonitorConfig : Type 0 where
  pub disable_log_file_monitor : Bool
  pub check_interval : ℤ
  pub clean_usage_percent : ℤ
  pub release_size_percent : ℤ
  pub debug : Bool
  pub clean_daily_mode : Bool
  pub keep_day_count : ℤ
  pub keep_compress_day_count : ℤ
  pub exclude_compress_days : ℤ

-- `_monitorConfig` before any configuration is loaded.
abbrev pub default_monitor_config : LogFileMonitorConfig
default_monitor_config = record {
  disable_log_file_monitor = false;
  check_interval = pos 300;
  clean_usage_percent = pos 85;
  release_size_percent = pos 20;
  debug = false;
  clean_daily_mode = false;
  keep_day_count = pos 3;
  keep_compress_day_count = pos 7;
  exclude_compress_days = pos 1;
}

abbrev pub at_least : ℕ → ℤ → Bool
at_least n (pos m) = leb n m
at_least n (negsuc m) = false

-- The guards of `_initMonitorConfig`: a value that fails its test leaves the old one.
unfoldable pub update_monitor_config :
    LogFileMonitorConfig → LogFileMonitorConfig → LogFileMonitorConfig
update_monitor_config c s = record {
  disable_log_file_monitor = c.disable_log_file_monitor;
  check_interval = if at_least 10 c.check_interval then c.check_interval else s.check_interval;
  clean_usage_percent =
      if at_least 1 c.clean_usage_percent && not (at_least 95 c.clean_usage_percent)
      then c.clean_usage_percent
      else s.clean_usage_percent;
  release_size_percent =
      if at_least 6 c.release_size_percent then c.release_size_percent else s.release_size_percent;
  debug = c.debug;
  clean_daily_mode = c.clean_daily_mode;
  keep_day_count = if at_least 1 c.keep_day_count then c.keep_day_count else s.keep_day_count;
  keep_compress_day_count =
      if at_least 1 c.keep_compress_day_count
      then c.keep_compress_day_count
      else s.keep_compress_day_count;
  exclude_compress_days =
      if at_least 1 c.exclude_compress_days
      then c.exclude_compress_days
      else s.exclude_compress_days;
}

-- `_LogFileMonitorPath`.
pub record LogFileMonitorPath : Type 0 where
  pub file_name : Bytes
  pub path : Bytes

-- `paths[:len(paths)-1]` and `paths[len(paths)-1]`.
abbrev pub front : List Bytes → List Bytes
front [] = []
front (p ∷ []) = []
front (p ∷ q ∷ ps) = p ∷ front (q ∷ ps)

abbrev pub last_of : List Bytes → Bytes
last_of [] = []
last_of (p ∷ []) = p
last_of (p ∷ q ∷ ps) = last_of (q ∷ ps)

-- `strings.ReplaceAll(path, "//", "/")`.
pub collapse : Bytes → Bytes
collapse [] = []
collapse (a ∷ []) = a ∷ []
collapse (a ∷ b ∷ s) =
    let shorter = b'/' ∷ collapse s in
    let same = a ∷ collapse (b ∷ s) in if nat_beq a b'/' && nat_beq b b'/' then shorter else same

-- The `switch` over the first part of a name. A name with no byte, and the name ".", panic.
pub below_dot : Bytes → List Bytes → Option Bytes
below_dot current [] = none
below_dot current (q ∷ ps) = some (current ++ b'/' ∷ join (codes "/") (front (q ∷ ps)))

pub below_root : Bytes → List Bytes → Bytes → Option Bytes
below_root current paths [] = none
below_root current paths (c ∷ f) =
    if nat_beq c b'/'
    then some (join (codes "/") (front paths))
    else some (current ++ b'/' ∷ join (codes "/") (front paths))

pub directory : Bytes → Bytes → List Bytes → Option Bytes
directory current f [] = none
directory current f (p ∷ ps) =
    if p == codes "." then below_dot current ps else below_root current (p ∷ ps) f

unfoldable pub monitor_path : Bytes → Bytes → Option LogFileMonitorPath
unfolding collapse below_dot below_root directory
monitor_path current f = do
  path ← directory current f (split_byte b'/' f)
  some (record { file_name = last_of (split_byte b'/' f); path = collapse path })

-- The loop of `_initMonitorConfig`; `none` is a panic.
unfoldable pub monitor_paths : Bytes → List Bytes → Option (List LogFileMonitorPath)
unfolding monitor_path
monitor_paths current [] = some []
monitor_paths current (f ∷ names) = do
  mf ← monitor_path current f
  rest ← monitor_paths current names
  some (mf ∷ rest)

-- `_initMonitorConfig` on the package's variables, less the goroutine that it starts.
pub record LogFileMonitor : Type 0 where
  pub config : LogFileMonitorConfig
  pub files : List LogFileMonitorPath

unfoldable pub init_monitor_config :
    Bytes → LogFileMonitorConfig → List Bytes → LogFileMonitor → Option LogFileMonitor
unfolding update_monitor_config monitor_paths
init_monitor_config current c names s = do
  more ← monitor_paths current names
  some (record { config = update_monitor_config c s.config; files = s.files ++ more })

-- What the job may count on: it sleeps for ten seconds at least, and each bound lies in its range.
pub record IsUsable (s : LogFileMonitorConfig) : Type 0 where
  pub interval : at_least 10 s.check_interval ≡ true
  pub usage : at_least 1 s.clean_usage_percent && not (at_least 95 s.clean_usage_percent) ≡ true
  pub release : at_least 6 s.release_size_percent ≡ true
  pub keep : at_least 1 s.keep_day_count ≡ true
  pub keep_compress : at_least 1 s.keep_compress_day_count ≡ true
  pub exclude : at_least 1 s.exclude_compress_days ≡ true

pub default_monitor_config-IsUsable : IsUsable default_monitor_config
default_monitor_config-IsUsable = ground arith

guarded : (test : ℤ → Bool) (a b : ℤ) → test b ≡ true → test (if test a then a else b) ≡ true
guarded test a b h = ground arith

-- Whatever the configuration says, each setting of the job stays in its range.
pub update_monitor_config-IsUsable :
    (c s : LogFileMonitorConfig) → IsUsable s → IsUsable (update_monitor_config c s)
unfolding update_monitor_config
update_monitor_config-IsUsable c s u = record {
  interval = guarded (at_least 10) c.check_interval s.check_interval u.interval;
  usage =
      guarded (λ z. at_least 1 z && not (at_least 95 z)) c.clean_usage_percent s.clean_usage_percent
        u.usage;
  release = guarded (at_least 6) c.release_size_percent s.release_size_percent u.release;
  keep = guarded (at_least 1) c.keep_day_count s.keep_day_count u.keep;
  keep_compress =
      guarded (at_least 1) c.keep_compress_day_count s.keep_compress_day_count u.keep_compress;
  exclude = guarded (at_least 1) c.exclude_compress_days s.exclude_compress_days u.exclude;
}
