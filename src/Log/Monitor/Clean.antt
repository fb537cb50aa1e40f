-- ===== src/Log/Monitor/Clean.antt =====
-- log/log_file_monitor.go and disk_usage_linux.go: the removal of old log files by the usage of the
-- disk. What the operating system answers is a parameter: the statistics of a file system, and which
-- files it lets go. Sizes and times are the unsigned numbers that the code turns them into; a map is
-- ranged over in the order of its insertions.
pub mod Release
pub mod Safe
use landau.Common.{
  ℕ, ◌+◌, ◌-◌, ◌*◌, ◌/◌, ◌%◌, ◌^◌, Bool, ◌&&◌, not, List, [], ◌∷◌, ◌++◌, Bytes, ℤ, leb, ltb, ◌==◌,
  nat_eq, bytes_eq, nat_beq, if◌then◌else◌, Option, none, some, lookup, lookup_or, insert,
  wrap_unsigned, contains_bytes,
}
use landau.Log.Monitor.{LogFileMonitorConfig, LogFileMonitorPath, at_least}

-- `_CleanFileInfo`.
pub record CleanFileInfo : Type 0 where
  pub name : Bytes
  pub size : ℕ
  pub modify_time : ℕ

-- `_SortCleanFileInfo.Less`: the file that was written earlier, and of two such the larger one.
unfoldable pub less_clean : CleanFileInfo → CleanFileInfo → Bool
less_clean a b =
    if a.modify_time == b.modify_time then ltb b.size a.size else ltb a.modify_time b.modify_time

-- An entry of a directory, whose size and time may be out of reach.
pub record DirEntry : Type 0 where
  pub entry : Bytes
  pub is_dir : Bool
  pub info : Option (ℕ × ℕ)

-- The directories by path; a path that cannot be read has no entry.
abbrev pub Disk : Type 0
Disk = List (Bytes × List DirEntry)

abbrev pub read_dir : Bytes → Disk → List DirEntry
read_dir path disk = lookup_or path [] disk

unfoldable pub without : Bytes → List DirEntry → List DirEntry
without name [] = []
without name (e ∷ entries) =
    if e.entry == name then without name entries else e ∷ without name entries

-- The test for a file of the past of the log `log_name`.
abbrev pub is_history : Bytes → DirEntry → Bool
is_history log_name e = not e.is_dir && not (e.entry == log_name) && contains_bytes log_name e.entry

-- `cleanFiles` after one more entry, whose information is `info`.
abbrev with_info : Bool → Bytes → Option (ℕ × ℕ) → List CleanFileInfo → List CleanFileInfo
with_info past name none files = files
with_info past name (some (size, time)) files =
    if past then record { name = name; size = size; modify_time = time } ∷ files else files

unfoldable pub clean_files : Bytes → List DirEntry → List CleanFileInfo
clean_files log_name [] = []
clean_files log_name (e ∷ entries) =
    with_info (is_history log_name e) e.entry e.info (clean_files log_name entries)

-- The files that the last loop removes: it ends once `goal` bytes are released.
unfoldable pub remove_until : ℕ → ℕ → List CleanFileInfo → List CleanFileInfo
remove_until goal released [] = []
remove_until goal released (f ∷ files) =
    let sum : ℕ = (released + f.size) % 2 ^ 64 in
    let more : List CleanFileInfo = remove_until goal sum files in
    if leb goal sum then f ∷ [] else f ∷ more

-- What `statfs` says: the size of a block, the blocks and the free ones.
pub record Statfs : Type 0 where
  pub bsize : ℕ
  pub blocks : ℕ
  pub bfree : ℕ

pub data DiskUsage : Type 0 where
  usage : ℕ → ℕ → DiskUsage
  not_known : DiskUsage
  by_zero : DiskUsage

-- The usage in percent and the size; the division panics where the size is zero.
abbrev usage_of : ℕ → ℕ → DiskUsage
usage_of all free =
    if all == 0 then by_zero else usage (((all + 2 ^ 64 - free) % 2 ^ 64) * 100 % 2 ^ 64 / all) all

-- `_getDiskUsagePercent`; `none` is an error of the call.
unfoldable pub get_disk_usage_percent : Option Statfs → DiskUsage
get_disk_usage_percent none = not_known
get_disk_usage_percent (some fs) =
    usage_of (fs.blocks * fs.bsize % 2 ^ 64) (fs.bfree * fs.bsize % 2 ^ 64)

-- The three maps of the first loop.
pub record Matched : Type 0 where
  pub usage_percents : List (Bytes × ℕ)
  pub clean_path : List (Bytes × Bytes)
  pub release_sizes : List (Bytes × ℕ)

module _ (config : LogFileMonitorConfig) (stat : Bytes → Option Statfs) where
  -- `allSize * uint64(ReleaseSizePercent) / 100`.
  unfoldable pub release_size : ℕ → ℕ
  release_size all = all * wrap_unsigned 64 config.release_size_percent % 2 ^ 64 / 100

  -- `v >= CleanUsagePercent`.
  abbrev pub over_usage : ℕ → Bool
  over_usage v = not (at_least (v + 1) config.clean_usage_percent)

  abbrev pub match_file : LogFileMonitorPath → ℕ → Matched → Matched
  match_file f v m = record m {
    usage_percents = insert f.path v m.usage_percents;
    clean_path = if over_usage v then insert f.file_name f.path m.clean_path else m.clean_path;
  }

  unfoldable pub ask_usage : LogFileMonitorPath → DiskUsage → Matched → Option Matched
  unfolding release_size
  ask_usage f (usage v all) m =
      some (
        match_file f v
          record m { release_sizes = insert f.path (release_size all) m.release_sizes })
  ask_usage f not_known m = some (match_file f 0 m)
  ask_usage f by_zero m = none

  -- A path is asked for its usage once.
  unfoldable pub match_path : LogFileMonitorPath → Option ℕ → Matched → Option Matched
  unfolding ask_usage get_disk_usage_percent
  match_path f (some v) m = some (match_file f v m)
  match_path f none m = ask_usage f (get_disk_usage_percent (stat f.path)) m

  unfoldable pub match_rest : (List LogFileMonitorPath) → Option Matched → Option Matched
  unfolding match_path
  match_rest [] m = m
  match_rest (f ∷ files) none = none
  match_rest (f ∷ files) (some m) =
      match_rest files (match_path f (lookup f.path m.usage_percents) m)

-- The files that one log gives up.
unfoldable pub released_files :
    (List CleanFileInfo → List CleanFileInfo) → Bytes → ℕ → List DirEntry → List CleanFileInfo
unfolding clean_files remove_until
released_files sort log_name goal entries =
    remove_until goal 0 (sort (clean_files log_name entries))

module _ (sort : List CleanFileInfo → List CleanFileInfo) (can_remove : Bytes → Bytes → Bool) where
  -- `os.Remove` of the files one after the other; its errors are ignored.
  unfoldable pub remove_all : Bytes → List CleanFileInfo → List DirEntry → List DirEntry
  unfolding without
  remove_all path [] entries = entries
  remove_all path (f ∷ files) entries =
      remove_all path files (if can_remove path f.name then without f.name entries else entries)

  unfoldable pub clean_dir : Bytes → Bytes → ℕ → List DirEntry → List DirEntry
  unfolding released_files remove_all
  clean_dir log_name path goal entries =
      remove_all path (released_files sort log_name goal entries) entries

  -- One round of the loop over `cleanPath`, if the size to release is known.
  abbrev pub clean_log : Bytes → Bytes → Option ℕ → Disk → Disk
  clean_log log_name path none disk = disk
  clean_log log_name path (some goal) disk =
      insert path (clean_dir log_name path goal (read_dir path disk)) disk

  unfoldable pub clean_logs : List (Bytes × Bytes) → List (Bytes × ℕ) → Disk → Disk
  unfolding clean_dir
  clean_logs [] sizes disk = disk
  clean_logs ((log_name, path) ∷ logs) sizes disk =
      clean_logs logs sizes (clean_log log_name path (lookup path sizes) disk)

  abbrev clean_matched : Option Matched → Disk → Disk
  clean_matched none disk = disk
  clean_matched (some m) disk = clean_logs m.clean_path m.release_sizes disk

  -- `_monitor` but for its daily mode; a panic of the first loop ends the round.
  unfoldable pub monitor_size :
      LogFileMonitorConfig → (Bytes → Option Statfs) → List LogFileMonitorPath → Disk → Disk
  unfolding clean_logs match_rest
  monitor_size config stat files disk =
      clean_matched
        (match_rest config stat files
          (some (record { usage_percents = []; clean_path = []; release_sizes = [] })))
        disk
