-- ===== src/Log/Monitor/Paths.antt =====
-- log/log_file_monitor.go: the directory and the name of a log file give its path back.
use landau.Common.{
  false, List, [], ◌∷◌, ◌++◌, Bytes, bytes_eq, nat_beq, codes, some, split_byte, join, ◌≡◌, refl,
  arith, Bool-cases, inl, inr, append_assoc, append-nil, contains_bytes, ap, sym, ◌∙◌,
}
use landau.Log.Monitor.{LogFileMonitorPath, front, last_of, collapse, monitor_path}

collapse_same : (s t : Bytes) → contains_bytes (codes "//") (s ++ t) ≡ false → collapse s ≡ s
unfolding collapse
collapse_same [] t h = refl
collapse_same (a ∷ []) t h = refl
collapse_same (a ∷ b ∷ s) t h = ground (arith, collapse_same (b ∷ s) t)

-- The parts that a separator stands between make up the text.
join-front :
    (p q : Bytes) (ps : List Bytes)
    → join (codes "/") (front (p ∷ q ∷ ps)) ++ b'/' ∷ last_of (p ∷ q ∷ ps)
      ≡ join (codes "/") (p ∷ q ∷ ps)
join-front p q [] = simp (append-nil)
join-front p q (r ∷ ps) =
    append_assoc p (b'/' ∷ join (codes "/") (front (q ∷ r ∷ ps))) (b'/' ∷ last_of (r ∷ ps))
    ∙ ap (λ l. p ++ b'/' ∷ l) (join-front q r ps)

split_parts : (s : Bytes) → (q : Bytes) × (qs : List Bytes) × (split_byte b'/' s ≡ q ∷ qs)
split_parts [] = ([], [], refl)
split_parts (c ∷ s) =
    let (q, qs, e) = split_parts s in
    elim (Bool-cases (nat_beq c b'/')) [
      | inl t ↦ ([], q ∷ qs, rw (t, e) refl)
      | inr n ↦ (c ∷ q, qs, rw (n, e) refl)
    ]

join-split_byte : (s : Bytes) → join (codes "/") (split_byte b'/' s) ≡ s
join-split_byte [] = refl
join-split_byte (c ∷ s) =
    let (q, qs, e) = split_parts s in
    let ih = join-split_byte s in
    elim (Bool-cases (nat_beq c b'/')) [
      | inl t ↦ ground (arith, e, ih)
      | inr n ↦ ground (arith, e, ih)
    ]

-- Where an absolute name has no two slashes in a row, its directory and its last part are found, and
-- make up the name.
pub monitor_path_absolute :
    (current rest : Bytes)
    → contains_bytes (codes "//") (b'/' ∷ rest) ≡ false
    → (mf : LogFileMonitorPath) × (monitor_path current (b'/' ∷ rest) ≡ some mf)
      × (mf.path ++ b'/' ∷ mf.file_name ≡ b'/' ∷ rest)
unfolding monitor_path
monitor_path_absolute current rest h =
    let (q, qs, e) = split_parts rest in
    let dir : Bytes = join (codes "/") (front ([] ∷ q ∷ qs)) in
    let whole : dir ++ b'/' ∷ last_of (q ∷ qs) ≡ b'/' ∷ rest =
      join-front [] q qs
      ∙ ap (λ l. b'/' ∷ join (codes "/") l) (sym e)
      ∙ ap (λ l. b'/' ∷ l) (join-split_byte rest) in
    let same : collapse dir ≡ dir =
      collapse_same dir (b'/' ∷ last_of (q ∷ qs)) (ap (contains_bytes (codes "//")) whole ∙ h) in
    (record { file_name = last_of (q ∷ qs); path = collapse dir }, rw e refl, rw same whole)
