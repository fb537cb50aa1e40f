-- ===== src/Log/Monitor/Clean/Release.antt =====
-- log/log_file_monitor.go: which files a full disk takes from a log. They are the oldest, they are
-- enough, and all of them were needed.
use mathlib.Core.List.{Mem, Perm, Pairwise-append, foldr}
use mathlib.Core.List.Perm
use mathlib.Core.Bool.{Bool-set}
use landau.Common.{
  ℕ, zero, suc, ◌+◌, ◌^◌, ◌<◌, ◌≤◌, false, List, [], ◌∷◌, ◌++◌, Bytes, nat_eq, leb, length, take,
  if◌then◌else◌, ◌≡◌, refl, arith, ◌⊎◌, inl, inr, Bool-cases, IsOrdered, Sorts, IsStrictOrder, sym,
  ◌∙◌, subst,
}
use landau.Log.Monitor.Clean.{
  CleanFileInfo, DirEntry, less_clean, clean_files, remove_until, released_files,
}

pub less_clean-IsStrictOrder : IsStrictOrder less_clean
unfolding less_clean
less_clean-IsStrictOrder = record {
  asym = λ a b h. ground arith;
  trans = λ a b c p q. ground arith;
}

-- The bytes of some files.
abbrev pub total : List CleanFileInfo → ℕ
total = foldr (λ f n. f.size + n) 0

pub record Released (goal : ℕ) (removed kept : List CleanFileInfo) : Type 0 where
  pub oldest : (a b : CleanFileInfo) → Mem a removed → Mem b kept → less_clean b a ≡ false
  pub enough : (kept ≡ []) ⊎ (goal ≤ total removed)
  pub needed : (k : ℕ) → suc k < length removed → total (take (suc k) removed) < goal

-- The files that the loop leaves.
abbrev left_after : ℕ → ℕ → List CleanFileInfo → List CleanFileInfo
left_after goal released [] = []
left_after goal released (f ∷ files) =
    let more = left_after goal (released + f.size) files in
    if leb goal (released + f.size) then files else more

remove_until-cons :
    (goal released : ℕ) (f : CleanFileInfo) (files : List CleanFileInfo)
    → released + f.size < 2 ^ 64
    → remove_until goal released (f ∷ files) ≡ (
        if leb goal (released + f.size)
        then f ∷ []
        else f ∷ remove_until goal (released + f.size) files)
unfolding remove_until
remove_until-cons goal released f files h = ground arith

module _ (goal : ℕ) where
  remove_until-split :
      (released : ℕ) (files : List CleanFileInfo)
      → released + total files < 2 ^ 64
      → remove_until goal released files ++ left_after goal released files ≡ files
  unfolding remove_until
  remove_until-split released [] h = refl
  remove_until-split released (f ∷ files) h =
      rw (remove_until-cons goal released f files (omega arith))
        elim (Bool-cases (leb goal (released + f.size))) [
          | inl t ↦ rw t
          | inr e ↦ rw (e, remove_until-split (released + f.size) files (omega arith))
        ]

  remove_until_enough :
      (released : ℕ) (files : List CleanFileInfo)
      → released + total files < 2 ^ 64
      → (left_after goal released files ≡ [])
        ⊎ (goal ≤ released + total (remove_until goal released files))
  remove_until_enough released [] h = inl refl
  remove_until_enough released (f ∷ files) h =
      rw (remove_until-cons goal released f files (omega arith))
        elim (Bool-cases (leb goal (released + f.size))) [
          | inl t ↦ rw t (inr (ground arith))
          | inr e ↦ rw e elim (remove_until_enough (released + f.size) files (omega arith)) [
            | inl none_left ↦ inl none_left
            | inr p ↦ inr (omega arith)
          ]
        ]

  remove_until_needed :
      (released : ℕ) (files : List CleanFileInfo)
      → released + total files < 2 ^ 64
      → (k : ℕ) → suc k < length (remove_until goal released files)
      → released + total (take (suc k) (remove_until goal released files)) < goal
  unfolding remove_until
  remove_until_needed released [] h k p = absurd (omega arith)
  remove_until_needed released (f ∷ files) h k p =
      let cons = remove_until-cons goal released f files (omega arith) in
      elim (Bool-cases (leb goal (released + f.size))) [
        | inl t ↦
            let one : length (remove_until goal released (f ∷ files)) ≡ 1 = rw (cons, t) refl in
            absurd (omega arith)
        | inr e ↦
            let more : remove_until goal released (f ∷ files)
                ≡ f ∷ remove_until goal (released + f.size) files =
              cons ∙ (rw e refl) in
            rw more (
              behind k f files e (remove_until_needed (released + f.size) files (omega arith))
                (subst (λ l. suc k < length l) more p))
      ]
    where
      behind :
          (k : ℕ) (f : CleanFileInfo) (files : List CleanFileInfo)
          → leb goal (released + f.size) ≡ false
          → ((k : ℕ)
              → suc k < length (remove_until goal (released + f.size) files)
              → released
                  + f.size
                  + total (take (suc k) (remove_until goal (released + f.size) files))
                < goal)
          → suc k < suc (length (remove_until goal (released + f.size) files))
          → released + (f.size + total (take k (remove_until goal (released + f.size) files)))
            < goal
      behind zero f files e ih p = ground arith
      behind (suc k) f files e ih p = omega (arith, ih k (omega arith))

total-perm : {l r : List CleanFileInfo} → Perm l r → total l ≡ total r
total-perm p = Perm.foldr-eq (hlevel) (λ f n. f.size + n) (λ a b n. omega arith) p 0

module _ (sort : List CleanFileInfo → List CleanFileInfo) (s : Sorts less_clean sort)
    (log_name : Bytes) (goal : ℕ) (entries : List DirEntry)
    (small : total (clean_files log_name entries) < 2 ^ 64) where
  kept_files : List CleanFileInfo
  kept_files = left_after goal 0 (sort (clean_files log_name entries))

  pub released_files-Released :
      (kept : List CleanFileInfo) × Perm
        (released_files sort log_name goal entries ++ kept)
        (clean_files log_name entries)
      × Released goal (released_files sort log_name goal entries) kept
  unfolding released_files kept_files
  released_files-Released =
      let files : List CleanFileInfo = sort (clean_files log_name entries) in
      let bound : 0 + total files < 2 ^ 64 =
        omega (arith, total-perm (s.perm (clean_files log_name entries))) in
      let split = remove_until-split goal 0 files bound in
      let parts =
        (Pairwise-append (λ a b. Bool-set (less_clean b a) false)).0
          (subst (IsOrdered less_clean) (sym split) (s.ordered (clean_files log_name entries))) in
      (
        kept_files,
        subst (λ l. Perm l (clean_files log_name entries)) (sym split)
            (s.perm (clean_files log_name entries)),
        record {
          oldest = λ a b m n. parts.2 a m b n;
          enough = elim (remove_until_enough goal 0 files bound) [
            | inl done ↦ inl done
            | inr p ↦ inr (omega arith)
          ];
          needed = λ k p. omega (arith, remove_until_needed goal 0 files bound k p);
        },
      )
