-- ===== src/Data/Json/Structs/Keys.antt =====
-- data/json.go: the look-up of a field's name in a map, and the arrays of a gateway.
use landau.Common.{
  ◌≡◌, refl, sym, ap, ◌∙◌, subst, Bool, true, false, Bytes, some, is_some, ◌==◌, bytes_eq,
  if◌then◌else◌, to_lower, arith, Bool-cases, Option-cases, inl, inr,
}
use landau.Data.Json.{Runtime, JsonValue, Fields, end, member, Values, array, cons}
use landau.Data.Json.Structs.{
  find, find_key, get_case_insensitive_key, prepare_gw_array_parameter, matched_values,
  other_fields, put,
}

module _ (runtime : Runtime) where
  abbrev pub any_key : (Bytes → Bool) → Fields runtime → Bool
  any_key p end = false
  any_key p (member k v m) = if p k then true else any_key p m

  find_key_any :
      (lower : Bytes) (m : Fields runtime)
      → is_some (find_key runtime lower m) ≡ any_key (λ k. lower == to_lower k) m
  find_key_any lower end = refl
  find_key_any lower (member j v m) = elim (Bool-cases (lower == to_lower j)) [
    | inl t ↦ rw t refl
    | inr f ↦ rw f (find_key_any lower m)
  ]

  find_first :
      (k : Bytes) (v : JsonValue runtime) (m : Fields runtime)
      → is_some (find runtime k (member k v m)) ≡ true
  find_first k v m = rw ((bytes_eq.beq_iff k k).1 refl) refl

  find_behind :
      (k j : Bytes) (v : JsonValue runtime) (m : Fields runtime)
      → is_some (find runtime k m) ≡ true
      → is_some (find runtime k (member j v m)) ≡ true
  find_behind k j v m h = elim (Bool-cases (j == k)) [ inl t ↦ rw t refl | inr f ↦ rw f h ]

  find-find_key :
      (lower k : Bytes) (m : Fields runtime)
      → find_key runtime lower m ≡ some k
      → is_some (find runtime k m) ≡ true
  find-find_key lower k end h = absurd (cc h)
  find-find_key lower k (member j v m) h = elim (Bool-cases (lower == to_lower j)) [
    | inl t ↦
        let same : j ≡ k = cc (rw t at h) in
        subst (λ x. is_some (find runtime x (member j v m)) ≡ true) same (find_first j v m)
    | inr f ↦ find_behind k j v m (find-find_key lower k m (rw f at h))
  ]

  find_any :
      (name : Bytes) (p : Bytes → Bool) (m : Fields runtime)
      → p name ≡ true
      → any_key p m ≡ false
      → is_some (find runtime name m) ≡ false
  find_any name p end h k = refl
  find_any name p (member j v m) h k = elim (Bool-cases (j == name)) [
    | inl t ↦
        let same : j ≡ name = (bytes_eq.beq_iff j name).0 t in
        let holds : p j ≡ true = ap p same ∙ h in absurd (cc (rw holds at k))
    | inr f ↦ elim (Bool-cases (p j)) [
      | inl t ↦ absurd (cc (rw t at k))
      | inr g ↦ rw f (find_any name p m h (rw g at k))
    ]
  ]

  -- A field finds an input exactly when some key of the map is its name but for the case of letters,
  -- whatever the order of the keys.
  pub find-get_case_insensitive_key :
      (name : Bytes) (m : Fields runtime)
      → is_some (find runtime (get_case_insensitive_key runtime name m) m)
        ≡ any_key (λ k. to_lower name == to_lower k) m
  unfolding get_case_insensitive_key
  find-get_case_insensitive_key name m = elim (Option-cases (find_key runtime (to_lower name) m)) [
    | inl e ↦
        let no_key : any_key (λ k. to_lower name == to_lower k) m ≡ false =
          sym (find_key_any (to_lower name) m) ∙ ap is_some e in
        rw (e, no_key)
          (find_any name (λ k. to_lower name == to_lower k) m
            ((bytes_eq.beq_iff (to_lower name) (to_lower name)).1 refl) no_key)
    | inr (k, e) ↦
        let key : any_key (λ j. to_lower name == to_lower j) m ≡ true =
          sym (find_key_any (to_lower name) m) ∙ ap is_some e in
        rw (e, key) (find-find_key (to_lower name) k m e)
  ]

  find-put :
      (k : Bytes) (v : JsonValue runtime) (m : Fields runtime)
      → find runtime k (put runtime k v m) ≡ some v
  find-put k v end = rw ((bytes_eq.beq_iff k k).1 refl) refl
  find-put k v (member j w m) = elim (Bool-cases (j == k)) [
    | inl t ↦ rw (t, t) refl
    | inr f ↦ rw (f, f) (find-put k v m)
  ]

  find-put_other :
      (k j : Bytes) (v : JsonValue runtime) (m : Fields runtime)
      → (k == j) ≡ false
      → find runtime j (put runtime k v m) ≡ find runtime j m
  find-put_other k j v end h = rw h refl
  find-put_other k j v (member i w m) h = ground (
    arith,
    find-put_other k j v m h,
    bytes_eq.beq_iff i k,
    bytes_eq.beq_iff i j,
    bytes_eq.beq_iff k j,
  )

  find-other_fields :
      (matches : Bytes → Bool) (j : Bytes) (m : Fields runtime)
      → matches j ≡ false
      → find runtime j (other_fields runtime matches m) ≡ find runtime j m
  find-other_fields matches j end h = refl
  find-other_fields matches j (member i w m) h = elim (Bool-cases (matches i)) [
    | inl t ↦ elim (Bool-cases (i == j)) [
      | inl same ↦
          let not_matched : matches i ≡ false = ap matches ((bytes_eq.beq_iff i j).0 same) ∙ h in
          absurd (cc (rw not_matched at t))
      | inr other ↦ rw (t, other) (find-other_fields matches j m h)
    ]
    | inr f ↦ elim (Bool-cases (i == j)) [
      | inl same ↦ rw (f, same) refl
      | inr other ↦ rw (f, other) (find-other_fields matches j m h)
    ]
  ]

  -- Once a key matches the pattern of a gateway's array, the array of the values that match stands
  -- under the array's own name, and every other key that does not match keeps its value.
  pub find-prepare_gw_array_parameter :
      (gw_match : Bytes → Bytes → Bool) (name j : Bytes) (m : Fields runtime)
      (v : JsonValue runtime) (vs : Values runtime)
      → matched_values runtime (gw_match name) m ≡ cons v vs
      → gw_match name j ≡ false
      → (name == j) ≡ false
      → (find runtime name (prepare_gw_array_parameter runtime gw_match name m)
          ≡ some (array (cons v vs)))
        × (find runtime j (prepare_gw_array_parameter runtime gw_match name m) ≡ find runtime j m)
  unfolding prepare_gw_array_parameter
  find-prepare_gw_array_parameter gw_match name j m v vs e h other = (
    rw e (find-put name (array (cons v vs)) (other_fields runtime (gw_match name) m)),
    rw e (
        find-put_other name j (array (cons v vs)) (other_fields runtime (gw_match name) m) other
        ∙ find-other_fields (gw_match name) j m h),
  )
