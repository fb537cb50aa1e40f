-- ===== src/Log/Monitor/Clean/Safe.antt =====
-- log/log_file_monitor.go: the files that a full disk leaves alone.
use mathlib.Core.List.{Mem, forall_mem-cons, not-mem-nil}
use mathlib.Core.List.Perm
use mathlib.Core.Bool.{Bool-set}
use landau.Common.{
  ℕ, Bool, true, false, ◌||◌, not, List, [], ◌∷◌, Bytes, ◌==◌, bytes_eq, bytes_beq_iff,
  if◌then◌else◌, Option, none, some, lookup, insert, contains_bytes, ◌≡◌, refl, arith, inl, inr,
  Bool-cases, All, Sorts, ◌+◌, ◌^◌, ◌%◌, leb, beq_ne, eq_of_beq, ap, sym, subst, ◌∙◌, lookup-insert,
  lookup_or-lookup, or_else,
}
use landau.Log.Monitor.{LogFileMonitorConfig, LogFileMonitorPath}
use landau.Log.Monitor.Clean.{
  CleanFileInfo, DirEntry, Disk, Statfs, Matched, less_clean, clean_files, with_info, is_history,
  remove_until, released_files, without, remove_all, clean_dir, clean_logs, clean_log, read_dir,
  match_rest, match_path, match_file, monitor_size, ask_usage, over_usage, release_size,
  clean_matched, get_disk_usage_percent, DiskUsage, usage, not_known, by_zero,
}

-- A name that the log `log_name` never counts among its old files.
abbrev pub spares : Bytes → Bytes → Bool
spares log_name name = (name == log_name) || not (contains_bytes log_name name)

-- Whether a directory has a file of this name.
abbrev pub is_there : Bytes → List DirEntry → Bool
is_there name [] = false
is_there name (e ∷ entries) = if e.entry == name then true else is_there name entries

module _ (log_name : Bytes) where
  -- The files of a list may all be removed.
  abbrev Removable : List CleanFileInfo → Type 0
  Removable files = (f : CleanFileInfo) → Mem f files → spares log_name f.name ≡ false

  Removable-cons :
      (f : CleanFileInfo) (files : List CleanFileInfo)
      → spares log_name f.name ≡ false
      → Removable files
      → Removable (f ∷ files)
  Removable-cons f files p h =
      (forall_mem-cons λ g. Bool-set (spares log_name g.name) false).1 (p, h)

  with_info-Removable :
      (e : DirEntry) (info : Option (ℕ × ℕ)) (files : List CleanFileInfo)
      → Removable files
      → Removable (with_info (is_history log_name e) e.entry info files)
  with_info-Removable e none files h = h
  with_info-Removable e (some (size, time)) files h = elim (Bool-cases (is_history log_name e)) [
    | inl t ↦ rw t (
        Removable-cons (record { name = e.entry; size = size; modify_time = time }) files
          (ground arith) h)
    | inr n ↦ rw n h
  ]

  clean_files-Removable : (entries : List DirEntry) → Removable (clean_files log_name entries)
  unfolding clean_files
  clean_files-Removable [] = λ f m. absurd (not-mem-nil m)
  clean_files-Removable (e ∷ entries) =
      with_info-Removable e e.info (clean_files log_name entries) (clean_files-Removable entries)

  remove_until-Removable :
      (goal released : ℕ) (files : List CleanFileInfo)
      → Removable files
      → Removable (remove_until goal released files)
  unfolding remove_until
  remove_until-Removable goal released [] h = h
  remove_until-Removable goal released (f ∷ files) h =
      let parts =
        (forall_mem-cons λ (g : CleanFileInfo). Bool-set (spares log_name g.name) false).0 h in
      let sum : ℕ = (released + f.size) % 2 ^ 64 in
      elim (Bool-cases (leb goal sum)) [
        | inl t ↦ rw t (Removable-cons f [] parts.0 λ g m. absurd (not-mem-nil m))
        | inr e ↦ rw e (
            Removable-cons f (remove_until goal sum files) parts.0
              (remove_until-Removable goal sum files parts.1))
      ]

is_there-without :
    (name removed : Bytes) (entries : List DirEntry)
    → (removed == name) ≡ false
    → is_there name (without removed entries) ≡ is_there name entries
unfolding without
is_there-without name removed [] h = refl
is_there-without name removed (e ∷ entries) h = ground (
  arith,
  is_there-without name removed entries,
  bytes_beq_iff e.entry removed,
  bytes_beq_iff e.entry name,
  bytes_beq_iff removed name,
)

module _ (sort : List CleanFileInfo → List CleanFileInfo) (s : Sorts less_clean sort)
    (can_remove : Bytes → Bytes → Bool) (path name : Bytes) where
  remove_all_keeps :
      (log_name dir : Bytes) (files : List CleanFileInfo) (entries : List DirEntry)
      → spares log_name name ≡ true
      → Removable log_name files
      → is_there name (remove_all sort can_remove dir files entries) ≡ is_there name entries
  unfolding remove_all
  remove_all_keeps log_name dir [] entries h r = refl
  remove_all_keeps log_name dir (f ∷ files) entries h r =
      let parts =
        (forall_mem-cons λ (g : CleanFileInfo). Bool-set (spares log_name g.name) false).0 r in
      let ne : (f.name == name) ≡ false =
        beq_ne f.name name λ e. cc (ap (spares log_name) e, parts.0, h) in
      elim (Bool-cases (can_remove dir f.name)) [
        | inl t ↦ rw t (
            remove_all_keeps log_name dir files (without f.name entries) h parts.1
            ∙ is_there-without name f.name entries ne)
        | inr n ↦ rw n (remove_all_keeps log_name dir files entries h parts.1)
      ]

  clean_dir_keeps :
      (log_name dir : Bytes) (goal : ℕ) (entries : List DirEntry)
      → spares log_name name ≡ true
      → is_there name (clean_dir sort can_remove log_name dir goal entries) ≡ is_there name entries
  unfolding clean_dir released_files
  clean_dir_keeps log_name dir goal entries h =
      remove_all_keeps log_name dir (remove_until goal 0 (sort (clean_files log_name entries)))
        entries h
        (remove_until-Removable log_name goal 0 (sort (clean_files log_name entries)) λ f m.
          clean_files-Removable log_name entries f
            ((Perm.mem_iff (s.perm (clean_files log_name entries))).0 m))

  -- A log of another directory, or one that spares the name.
  abbrev IsSafe : Bytes × Bytes → Type 0
  IsSafe (log_name, dir) = (not (dir == path) || spares log_name name) ≡ true

  clean_log_keeps :
      (log_name dir : Bytes) (goal : Option ℕ) (disk : Disk)
      → IsSafe (log_name, dir)
      → is_there name (read_dir path (clean_log sort can_remove log_name dir goal disk))
        ≡ is_there name (read_dir path disk)
  clean_log_keeps log_name dir none disk h = refl
  clean_log_keeps log_name dir (some goal) disk h =
      let entries = clean_dir sort can_remove log_name dir goal (read_dir dir disk) in
      let after : read_dir path (insert dir entries disk)
          ≡ or_else (lookup path (insert dir entries disk)) [] =
        lookup_or-lookup path [] (insert dir entries disk) in
      rw (after, lookup-insert path dir entries disk, lookup_or-lookup path [] disk)
        elim (Bool-cases (dir == path)) [
          | inl t ↦
              let same : dir ≡ path = eq_of_beq dir path t in
              rw t (
                clean_dir_keeps log_name dir goal (read_dir dir disk) (ground arith)
                ∙ ap (λ p. is_there name (read_dir p disk)) same
                ∙ ap (is_there name) (lookup_or-lookup path [] disk))
          | inr n ↦ rw n refl
        ]

  clean_logs_keeps :
      (logs : List (Bytes × Bytes)) (sizes : List (Bytes × ℕ)) (disk : Disk)
      → All IsSafe logs
      → is_there name (read_dir path (clean_logs sort can_remove logs sizes disk))
        ≡ is_there name (read_dir path disk)
  unfolding clean_logs
  clean_logs_keeps [] sizes disk h = refl
  clean_logs_keeps ((log_name, dir) ∷ logs) sizes disk (p, h) =
      clean_logs_keeps logs sizes (clean_log sort can_remove log_name dir (lookup dir sizes) disk) h
      ∙ clean_log_keeps log_name dir (lookup dir sizes) disk p

  insert-IsSafe :
      (log_name dir : Bytes) (logs : List (Bytes × Bytes))
      → IsSafe (log_name, dir)
      → All IsSafe logs
      → All IsSafe (insert log_name dir logs)
  insert-IsSafe log_name dir [] p h = (p, tt)
  insert-IsSafe log_name dir ((l, d) ∷ logs) p (q, h) = elim (Bool-cases (l == log_name)) [
    | inl t ↦ rw t (subst (λ k. IsSafe (k, dir)) (sym (eq_of_beq l log_name t)) p, h)
    | inr n ↦ rw n (q, insert-IsSafe log_name dir logs p h)
  ]

module _ (config : LogFileMonitorConfig) (stat : Bytes → Option Statfs)
    (sort : List CleanFileInfo → List CleanFileInfo) (s : Sorts less_clean sort)
    (can_remove : Bytes → Bytes → Bool) (path name : Bytes) where
  -- What the first loop has found so far.
  abbrev AreSafe : Option Matched → Type 0
  AreSafe none = Unit
  AreSafe (some m) = All (IsSafe sort s can_remove path name) m.clean_path

  match_file-AreSafe :
      (f : LogFileMonitorPath) (v : ℕ) (m : Matched)
      → IsSafe sort s can_remove path name (f.file_name, f.path)
      → AreSafe (some m)
      → AreSafe (some (match_file config stat f v m))
  match_file-AreSafe f v m p h = elim (Bool-cases (over_usage config stat v)) [
    | inl t ↦ rw t (insert-IsSafe sort s can_remove path name f.file_name f.path m.clean_path p h)
    | inr n ↦ rw n h
  ]

  match_path-AreSafe :
      (f : LogFileMonitorPath) (known : Option ℕ) (m : Matched)
      → IsSafe sort s can_remove path name (f.file_name, f.path)
      → AreSafe (some m)
      → AreSafe (match_path config stat f known m)
  unfolding match_path
  match_path-AreSafe f (some v) m p h = match_file-AreSafe f v m p h
  match_path-AreSafe f none m p h = asked (get_disk_usage_percent (stat f.path))
    where
      asked : (u : DiskUsage) → AreSafe (ask_usage config stat f u m)
      asked (usage v all) =
          match_file-AreSafe f v
            (record m {
              release_sizes = insert f.path (release_size config stat all) m.release_sizes;
            })
            p h
      asked not_known = match_file-AreSafe f 0 m p h
      asked by_zero = tt

  match_rest-AreSafe :
      (files : List LogFileMonitorPath) (m : Option Matched)
      → All (λ f. IsSafe sort s can_remove path name (f.file_name, f.path)) files
      → AreSafe m
      → AreSafe (match_rest config stat files m)
  unfolding match_rest
  match_rest-AreSafe [] m a h = h
  match_rest-AreSafe (f ∷ files) none a h = tt
  match_rest-AreSafe (f ∷ files) (some m) (p, a) h =
      match_rest-AreSafe files (match_path config stat f (lookup f.path m.usage_percents) m) a
        (match_path-AreSafe f (lookup f.path m.usage_percents) m p h)

  clean_matched_keeps :
      (m : Option Matched) (disk : Disk)
      → AreSafe m
      → is_there name (read_dir path (clean_matched sort can_remove m disk))
        ≡ is_there name (read_dir path disk)
  clean_matched_keeps none disk h = refl
  clean_matched_keeps (some m) disk h =
      clean_logs_keeps sort s can_remove path name m.clean_path m.release_sizes disk h

  -- A round that removes files by the usage of the disk leaves a file where it is, if each log of its
  -- directory has its very name or a name that is no part of its own, for a sort that orders as it promises.
  pub monitor_size_keeps :
      (files : List LogFileMonitorPath) (disk : Disk)
      → All (λ f. (not (f.path == path) || spares f.file_name name) ≡ true) files
      → is_there name (read_dir path (monitor_size sort can_remove config stat files disk))
        ≡ is_there name (read_dir path disk)
  unfolding monitor_size
  monitor_size_keeps files disk h =
      let start : Matched = record { usage_percents = []; clean_path = []; release_sizes = [] } in
      clean_matched_keeps (match_rest config stat files (some start)) disk
        (match_rest-AreSafe files (some start) h tt)
