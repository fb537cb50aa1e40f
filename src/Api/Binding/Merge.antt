-- ===== src/Api/Binding/Merge.antt =====
-- api/binding.go: which values a key of a merged form has.
use landau.Common.{
  map, trim_space, ℕ, ◌+◌, ◌<◌, ◌≤◌, Bool, true, false, ◌&&◌, ◌||◌, not, List, [], ◌∷◌, ◌++◌, Bytes,
  codes, ◌==◌, bytes_eq, nat_beq, if◌then◌else◌, lookup_or, lookup-insert, lookup_or-lookup,
  eq_of_beq, ◌⊎◌, insert, is_digit, ◌≡◌, refl, arith, append_assoc, append-nil, length, ◌∙◌, ap,
  sym, Bool-cases, inl, inr,
}
use landau.Api.Binding.{
  Form, holds_byte, index_tail, strip_index, occurs_inside, merged_key, merged_values,
  append_values, merge_rest, merge_array,
}

-- The values of all keys that are merged into `key`, in the order of the form.
abbrev pub gathered_values : Bytes → Form → List Bytes
gathered_values key [] = []
gathered_values key ((k, vs) ∷ u) =
    let rest = gathered_values key u in
    if merged_key k == key then merged_values vs ++ rest else rest

lookup_or-append_values :
    (j key : Bytes) (vs : List Bytes) (o : Form)
    → lookup_or j [] (append_values key vs o)
      ≡ (if key == j then lookup_or j [] o ++ vs else lookup_or j [] o)
lookup_or-append_values j key [] o =
    rw (append-nil (lookup_or j [] o)) (if_same (key == j) (lookup_or j [] o))
  where
    if_same : (b : Bool) (x : List Bytes) → x ≡ (if b then x else x)
    if_same true x = refl
    if_same false x = refl
lookup_or-append_values j key (v ∷ vs) o =
    let whole : List Bytes = lookup_or key [] o ++ v ∷ vs in
    lookup_or-lookup j [] (insert key whole o)
    ∙ rw (lookup-insert j key whole o) elim (Bool-cases (key == j)) [
      | inl t ↦ rw (t, eq_of_beq key j t) refl
      | inr f ↦ rw f (sym (lookup_or-lookup j [] o))
    ]

lookup_or-merge_rest :
    (key : Bytes) (u o : Form)
    → lookup_or key [] (merge_rest u o) ≡ lookup_or key [] o ++ gathered_values key u
unfolding merge_rest
lookup_or-merge_rest key [] o = sym (append-nil (lookup_or key [] o))
lookup_or-merge_rest key ((k, vs) ∷ u) o =
    lookup_or-merge_rest key u (append_values (merged_key k) (merged_values vs) o)
    ∙ rw (lookup_or-append_values key (merged_key k) (merged_values vs) o)
        elim (Bool-cases (merged_key k == key)) [
          | inl t ↦
              rw t (append_assoc (lookup_or key [] o) (merged_values vs) (gathered_values key u))
          | inr f ↦ rw f refl
        ]

lookup_or-merge_array :
    (key : Bytes) (u : Form) → lookup_or key [] (merge_array u) ≡ gathered_values key u
unfolding merge_array
lookup_or-merge_array key u = lookup_or-merge_rest key u []

-- A name that has no bracket and no point, and digits.
abbrev pub is_plain : Bytes → Bool
is_plain [] = true
is_plain (c ∷ s) = not (nat_beq c b'[' || nat_beq c b'.') && is_plain s

abbrev pub are_digits : Bytes → Bool
are_digits [] = true
are_digits (c ∷ s) = is_digit c && are_digits s

index_tail-digits :
    (count : ℕ) (ds close : Bytes)
    → are_digits ds ≡ true
    → 0 < count + length ds
    → count + length ds ≤ 9
    → (close ≡ []) ⊎ (close ≡ codes "]")
    → index_tail count (ds ++ close) ≡ true
index_tail-digits count [] close a p q (inl e) = rw e (ground arith)
index_tail-digits count [] close a p q (inr e) = rw e (ground arith)
index_tail-digits count (d ∷ ds) close a p q e =
    let ih = index_tail-digits (count + 1) ds close (ground arith) (omega arith) (omega arith) e in
    ground (arith, ih)

strip_index-plain :
    (key : Bytes) (mark : ℕ) (tail : Bytes)
    → is_plain key ≡ true
    → (nat_beq mark b'[' || nat_beq mark b'.') ≡ true
    → index_tail 0 tail ≡ true
    → strip_index (key ++ mark ∷ tail) ≡ key
strip_index-plain [] mark tail h m t = rw (m, t) refl
strip_index-plain (c ∷ key) mark tail h m t =
    let ih = strip_index-plain key mark tail (ground arith) m t in ground (arith, ih)

holds_byte-append : (m : ℕ) (s t : Bytes) → holds_byte m (s ++ m ∷ t) ≡ true
holds_byte-append m [] t = ground arith
holds_byte-append m (c ∷ s) t = ground (arith, holds_byte-append m s t)

merged_key_marked :
    (c : ℕ) (key : Bytes) (mark : ℕ) (tail : Bytes)
    → is_plain (c ∷ key) ≡ true
    → (mark ≡ b'[') ⊎ (mark ≡ b'.')
    → index_tail 0 tail ≡ true
    → merged_key (c ∷ key ++ mark ∷ tail) ≡ c ∷ key
unfolding merged_key
merged_key_marked c key mark tail h (inl m) t =
    let inside : holds_byte b'[' (key ++ mark ∷ tail) ≡ true =
      rw m (holds_byte-append b'[' key tail) in
    let inner : (occurs_inside b'[' (c ∷ key ++ mark ∷ tail)
          || occurs_inside b'.' (c ∷ key ++ mark ∷ tail))
        ≡ true =
      ground (arith, inside, h) in
    rw inner (strip_index-plain (c ∷ key) mark tail h (rw m refl) t)
merged_key_marked c key mark tail h (inr m) t =
    let inside : holds_byte b'.' (key ++ mark ∷ tail) ≡ true =
      rw m (holds_byte-append b'.' key tail) in
    let inner : (occurs_inside b'[' (c ∷ key ++ mark ∷ tail)
          || occurs_inside b'.' (c ∷ key ++ mark ∷ tail))
        ≡ true =
      ground (arith, inside, h) in
    rw inner (strip_index-plain (c ∷ key) mark tail h (rw m refl) t)

-- An element's key is merged into the array's: a name without bracket and point, followed by an index
-- of one to nine digits, behind a point or in brackets, is merged into the name.
pub merged_key_indexed :
    (c : ℕ) (key ds : Bytes)
    → is_plain (c ∷ key) ≡ true
    → are_digits ds ≡ true
    → 0 < length ds
    → length ds ≤ 9
    → (merged_key (c ∷ key ++ b'.' ∷ ds) ≡ c ∷ key)
      × (merged_key (c ∷ key ++ b'[' ∷ (ds ++ b']' ∷ [])) ≡ c ∷ key)
merged_key_indexed c key ds h d p q =
    let dotted : index_tail 0 ds ≡ true =
      ap (index_tail 0) (sym (append-nil ds))
      ∙ index_tail-digits 0 ds [] d (omega arith) (omega arith) (inl refl) in
    (
      merged_key_marked c key b'.' ds h (inr refl) dotted,
      merged_key_marked c key b'[' (ds ++ b']' ∷ []) h (inl refl)
          (index_tail-digits 0 ds (codes "]") d (omega arith) (omega arith) (inr refl)),
    )

-- The keys of a form by their parts: a name, and a name with the digits of an index behind a point or in
-- brackets.
pub data FormKey : Type 0 where
  bare : Bytes → FormKey
  dotted bracketed : Bytes → Bytes → FormKey

abbrev pub form_name : FormKey → Bytes
form_name (bare name) = name
form_name (dotted name ds) = name
form_name (bracketed name ds) = name

abbrev pub key_text : FormKey → Bytes
key_text (bare name) = name
key_text (dotted name ds) = name ++ b'.' ∷ ds
key_text (bracketed name ds) = name ++ b'[' ∷ (ds ++ b']' ∷ [])

abbrev pub IsIndex : Bytes → Type 0
IsIndex ds = (are_digits ds ≡ true) × (0 < length ds) × (length ds ≤ 9)

-- The name is not empty and has neither bracket nor point, and the index has one to nine digits.
abbrev pub IsKey : FormKey → Type 0
IsKey (bare name) = is_plain name ≡ true
IsKey (dotted name ds) = (is_plain name ≡ true) × (0 < length name) × IsIndex ds
IsKey (bracketed name ds) = (is_plain name ≡ true) × (0 < length name) × IsIndex ds

abbrev pub AreKeys : List (FormKey × List Bytes) → Type 0
AreKeys [] = Unit
AreKeys ((k, vs) ∷ form) = IsKey k × AreKeys form

abbrev pub form_text : List (FormKey × List Bytes) → Form
form_text [] = []
form_text ((k, vs) ∷ form) = (key_text k, vs) ∷ form_text form

-- The values without the blanks around them, and without those that are only blanks.
abbrev pub filled_texts : List Bytes → List Bytes
filled_texts [] = []
filled_texts (v ∷ vs) = if v == [] then filled_texts vs else v ∷ filled_texts vs

abbrev pub trimmed : List Bytes → List Bytes
trimmed vs = filled_texts (map trim_space vs)

abbrev pub values_of : Bytes → List (FormKey × List Bytes) → List Bytes
values_of name [] = []
values_of name ((k, vs) ∷ form) =
    let rest = values_of name form in if form_name k == name then trimmed vs ++ rest else rest

merged_values-trimmed : (vs : List Bytes) → merged_values vs ≡ trimmed vs
unfolding merged_values
merged_values-trimmed [] = refl
merged_values-trimmed (v ∷ vs) = elim (Bool-cases (trim_space v == [])) [
  | inl t ↦ rw t (merged_values-trimmed vs)
  | inr f ↦ rw f (ap (λ ws. trim_space v ∷ ws) (merged_values-trimmed vs))
]

holds_byte-plain :
    (m : ℕ) (s : Bytes) → (m ≡ b'[') ⊎ (m ≡ b'.') → is_plain s ≡ true → holds_byte m s ≡ false
holds_byte-plain m [] e h = refl
holds_byte-plain m (c ∷ s) e h = ground (arith, holds_byte-plain m s e)

merged_key-bare : (name : Bytes) → is_plain name ≡ true → merged_key name ≡ name
unfolding merged_key
merged_key-bare [] h = refl
merged_key-bare (c ∷ name) h =
    ground (arith, holds_byte-plain b'[' name (inl refl), holds_byte-plain b'.' name (inr refl), h)

merged_key-key_text : (k : FormKey) → IsKey k → merged_key (key_text k) ≡ form_name k
merged_key-key_text (bare name) h = merged_key-bare name h
merged_key-key_text (dotted [] ds) (h, n, i) = absurd (omega arith)
merged_key-key_text (dotted (c ∷ key) ds) (h, n, (d, p, q)) =
    (merged_key_indexed c key ds h d p q).0
merged_key-key_text (bracketed [] ds) (h, n, i) = absurd (omega arith)
merged_key-key_text (bracketed (c ∷ key) ds) (h, n, (d, p, q)) =
    (merged_key_indexed c key ds h d p q).1

gathered_values-form_text :
    (name : Bytes) (form : List (FormKey × List Bytes))
    → AreKeys form
    → gathered_values name (form_text form) ≡ values_of name form
gathered_values-form_text name [] h = refl
gathered_values-form_text name ((k, vs) ∷ form) (h, hs) =
    rw (merged_key-key_text k h)
      (rw (merged_values-trimmed vs) (rw (gathered_values-form_text name form hs) refl))

pub lookup_or-merge_array_keys :
    (name : Bytes) (form : List (FormKey × List Bytes))
    → AreKeys form
    → lookup_or name [] (merge_array (form_text form)) ≡ values_of name form
lookup_or-merge_array_keys name form h =
    lookup_or-merge_array name (form_text form) ∙ gathered_values-form_text name form h
