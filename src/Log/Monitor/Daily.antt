-- ===== src/Log/Monitor/Daily.antt =====
-- log/log_file_monitor.go: the daily mode, which compresses the log files of the past days and removes
-- the old archives. Parameters: the compilation of a regular expression (`none` is the panic of
-- `MustCompile`), the day `n` days ago, the moment that a day begins, and the listing of a directory.
-- A moment is a number of nanoseconds.
use landau.Common.{
  ℕ, zero, suc, ◌+◌, ◌*◌, Bool, true, false, ◌&&◌, not, List, [], ◌∷◌, ◌++◌, Bytes, ℤ, pos, negsuc,
  ltb, ◌==◌, bytes_eq, codes, if◌then◌else◌, Option, none, some, lookup, insert, split_byte,
}
use landau.Log.Monitor.{LogFileMonitorConfig, LogFileMonitorPath}

-- What the job does to the files of a directory.
pub data Command : Type 0 where
  gzip : Bytes → Bytes → Command
  remove : Bytes → Bytes → Command

-- The commands so far, and the listings; `broken` is a panic, which ends the round.
pub record Round : Type 0 where
  pub commands : List Command
  pub listings : List (Bytes × List Bytes)
  pub broken : Bool

abbrev Matcher : Type 0
Matcher = Bytes → Bool

abbrev pub any_match : List Matcher → Bytes → Bool
any_match [] name = false
any_match (e ∷ es) name = if e name then true else any_match es name

-- `values[len(values)-2]`, where there are three values or more.
abbrev pub day_part : List Bytes → Option Bytes
day_part (a ∷ b ∷ c ∷ []) = some b
day_part (a ∷ b ∷ c ∷ d ∷ more) = day_part (b ∷ c ∷ d ∷ more)
day_part [] = none
day_part (a ∷ []) = none
day_part (a ∷ b ∷ []) = none

abbrev pub history_pattern : Bytes → Bytes
history_pattern name = codes "^" ++ name ++ codes "\\.\\d{4}-\\d{2}-\\d{2}$"

abbrev pub archive_pattern : Bytes → Bytes
archive_pattern name = codes "^" ++ name ++ codes "\\.\\d{4}-\\d{2}-\\d{2}\\.gz$"

-- A number of days as the code counts them up to it.
abbrev days : ℤ → ℕ
days (pos n) = n
days (negsuc n) = 0

module _ (compile : Bytes → Option Matcher) (day_before : ℕ → Bytes) (day_start : Bytes → Option ℕ)
    (now : ℕ) (read_dir : Bytes → List Bytes) where
  -- `_getExcludeCompressDays`: of the days 1 to `n` ago, the farthest last.
  unfoldable pub get_exclude_compress_days : ℕ → Option (List Matcher)
  get_exclude_compress_days zero = some []
  get_exclude_compress_days (suc n) = elim (get_exclude_compress_days n) [
    | none ↦ none
    | some m ↦ elim (compile (codes "^.*" ++ day_before (suc n) ++ codes "$")) [
      | none ↦ none
      | some e ↦ some (m ++ e ∷ [])
    ]
  ]

  -- The inner loop of the compression.
  unfoldable pub compress_files : Bytes → Bytes → Matcher → List Matcher → List Bytes → List Command
  compress_files path current history exclude [] = []
  compress_files path current history exclude (name ∷ files) =
      let rest : List Command = compress_files path current history exclude files in
      if not (current == name) && history name && not (any_match exclude name)
      then gzip path name ∷ rest
      else rest

  -- A directory is listed once, unless it is empty.
  abbrev keep_listing : Bytes → List Bytes → List (Bytes × List Bytes) → List (Bytes × List Bytes)
  keep_listing path [] m = m
  keep_listing path (f ∷ files) m = insert path (f ∷ files) m

  abbrev compress_dir :
      LogFileMonitorPath → Matcher → List Matcher → Option (List Bytes) → Round → Round
  compress_dir mf history exclude (some files) r = record r {
    commands = r.commands ++ compress_files mf.path mf.file_name history exclude files;
  }
  compress_dir mf history exclude none r = record r {
    commands = r.commands ++ compress_files mf.path mf.file_name history exclude (read_dir mf.path);
    listings = keep_listing mf.path (read_dir mf.path) r.listings;
  }

  abbrev compress_log : LogFileMonitorPath → Option Matcher → List Matcher → Round → Round
  compress_log mf none exclude r = record r { broken = true }
  compress_log mf (some history) exclude r =
      compress_dir mf history exclude (lookup mf.path r.listings) r

  unfoldable pub compress_logs : List LogFileMonitorPath → List Matcher → Round → Round
  unfolding compress_files
  compress_logs [] exclude r = r
  compress_logs (mf ∷ files) exclude r =
      compress_logs files exclude
        (if r.broken then r else compress_log mf (compile (history_pattern mf.file_name)) exclude r)

  -- `dt.Before(t)`, where `t` lies `keep` days back.
  abbrev pub is_expired : ℕ → Option Bytes → Bool
  is_expired keep none = false
  is_expired keep (some day) = elim (day_start day) [
    | none ↦ false
    | some dt ↦ ltb (dt + keep * (24 * 3600 * 1000000000)) now
  ]

  -- The inner loop of the removal.
  unfoldable pub remove_archives : Bytes → Bytes → Matcher → ℕ → List Bytes → List Command
  remove_archives path current archive keep [] = []
  remove_archives path current archive keep (name ∷ files) =
      let rest : List Command = remove_archives path current archive keep files in
      if not (current == name) && archive name && is_expired keep (day_part (split_byte b'.' name))
      then remove path name ∷ rest
      else rest

  abbrev remove_dir : LogFileMonitorPath → Matcher → ℕ → Option (List Bytes) → Round → Round
  remove_dir mf archive keep none r = r
  remove_dir mf archive keep (some files) r = record r {
    commands = r.commands ++ remove_archives mf.path mf.file_name archive keep files;
  }

  abbrev remove_log : LogFileMonitorPath → Option Matcher → ℕ → Round → Round
  remove_log mf none keep r = record r { broken = true }
  remove_log mf (some archive) keep r = remove_dir mf archive keep (lookup mf.path r.listings) r

  unfoldable pub remove_logs : List LogFileMonitorPath → ℕ → Round → Round
  unfolding remove_archives
  remove_logs [] keep r = r
  remove_logs (mf ∷ files) keep r =
      remove_logs files keep
        (if r.broken then r else remove_log mf (compile (archive_pattern mf.file_name)) keep r)

  abbrev run_daily :
      LogFileMonitorConfig → List LogFileMonitorPath → Option (List Matcher) → List Command
  run_daily config files none = []
  run_daily config files (some exclude) =
      (remove_logs files (days config.keep_compress_day_count) (
        compress_logs files exclude
          (record { commands = []; listings = []; broken = false }))).commands

  -- `_monitor` in its daily mode.
  unfoldable pub monitor_daily : LogFileMonitorConfig → List LogFileMonitorPath → List Command
  unfolding get_exclude_compress_days compress_logs remove_logs
  monitor_daily config files =
      run_daily config files (get_exclude_compress_days (days config.exclude_compress_days))
