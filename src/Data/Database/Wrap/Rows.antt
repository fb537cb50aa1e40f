-- ===== src/Data/Database/Wrap/Rows.antt =====
-- data/db_base.go: the elements that `Gets` of a transaction adds to a slice.
use landau.Common.{
  Bool-cases, inl, inr, ℕ, zero, suc, ◌+◌, ◌<◌, ◌≡◌, ◌≢◌, refl, sym, ap, ◌∙◌, true, false, List, [],
  ◌∷◌, ◌++◌, append_assoc, append-nil, length, ◌==◌, bytes_eq, Bytes, Option, none, some, pos,
  lookup, insert, lookup-insert, get_elem?, arith, ℤ, Fits, format_int, format_int_ne,
}
use landau.Data.Database.{Answer, DbError, failed, gives}
use landau.Data.Database.Wrap.{
  Floats, DbField, db_string, db_int, string_kind, int_kind, fill_fields, fill_model, column_index,
  tx_gets, append_rows,
}
use landau.Data.Database.Wrap.Filled.{atoi-format_int, same_integer}

-- The last of the columns with a name.
abbrev pub IsColumn : List Bytes → Bytes → ℕ → Type 0
IsColumn columns name i =
    (get_elem? columns i ≡ some name) × ((j : ℕ) → i < j → get_elem? columns j ≢ some name)

column_index_other :
    (name : Bytes) (k : ℕ) (columns : List Bytes) (m : List (Bytes × ℕ))
    → ((j : ℕ) → get_elem? columns j ≢ some name)
    → lookup name (column_index k columns m) ≡ lookup name m
column_index_other name k [] m h = refl
column_index_other name k (c ∷ columns) m h =
    let other : (c == name) ≡ false = ground (arith, h 0, bytes_eq.beq_iff c name) in
    column_index_other name (k + 1) columns (insert c k m) (λ j. h (suc j))
    ∙ rw (lookup-insert name c k m, other) refl

lookup-column_index :
    (name : Bytes) (k i : ℕ) (columns : List Bytes) (m : List (Bytes × ℕ))
    → IsColumn columns name i
    → lookup name (column_index k columns m) ≡ some (k + i)
lookup-column_index name k i [] m (e, h) = ground (arith, e)
lookup-column_index name k zero (c ∷ columns) m (e, h) =
    let same : (c == name) ≡ true = ground (arith, e, bytes_eq.beq_iff c name) in
    let first : lookup name (insert c k m) ≡ some k = rw (lookup-insert name c k m, same) refl in
    column_index_other name (k + 1) columns (insert c k m) (λ j. h (suc j) (omega arith))
    ∙ first
    ∙ ap some (omega arith)
lookup-column_index name k (suc i) (c ∷ columns) m (e, h) =
    lookup-column_index name (k + 1) i columns (insert c k m)
      (e, λ j lt. h (suc j) (omega (arith, lt)))
    ∙ ap some (omega arith)

column_found :
    (name : Bytes) (i : ℕ) (columns : List Bytes)
    → IsColumn columns name i
    → lookup name (column_index 0 columns []) ≡ some i
column_found name i columns h = lookup-column_index name 0 i columns [] h ∙ ap some (omega arith)

module _ (floats : Floats) where
  -- What a row makes of a field: the texts and the integers that stand in the field's column.
  pub record IsFilled (columns row : List Bytes) (f g : DbField floats) : Type 0 where
    pub of_text :
        (name s : Bytes) (i : ℕ)
        → f.can_set ≡ true
        → f.db_tag ≡ some name
        → (name == []) ≡ false
        → f.kind ≡ string_kind
        → IsColumn columns name i
        → get_elem? row i ≡ some s
        → (s == []) ≡ false
        → g ≡ record f { value = db_string s }
    pub of_integer :
        (name : Bytes) (i width : ℕ) (z : ℤ)
        → f.can_set ≡ true
        → f.db_tag ≡ some name
        → (name == []) ≡ false
        → f.kind ≡ int_kind width
        → IsColumn columns name i
        → get_elem? row i ≡ some (format_int z)
        → Fits width z
        → Fits 63 z
        → g ≡ record f { value = db_int z }
    pub untagged : f.db_tag ≡ none → g ≡ f

  -- The fields of an element, one for each of the type's.
  abbrev pub AreFilled : (columns row : List Bytes) → (fs gs : List (DbField floats)) → Type 0
  AreFilled columns row [] [] = Unit
  AreFilled columns row [] (g ∷ gs) = ⊥
  AreFilled columns row (f ∷ fs) [] = ⊥
  AreFilled columns row (f ∷ fs) (g ∷ gs) = IsFilled columns row f g × AreFilled columns row fs gs

  -- The elements, one for each row in their order.
  abbrev pub AreRows :
      List Bytes
      → List (DbField floats)
      → List (Answer (List Bytes))
      → List (Option (List (DbField floats)))
      → Type 0
  AreRows columns fs [] [] = Unit
  AreRows columns fs [] (g ∷ gs) = ⊥
  AreRows columns fs (row ∷ rows) [] = ⊥
  AreRows columns fs (failed e ∷ rows) (g ∷ gs) = ⊥
  AreRows columns fs (gives row ∷ rows) (none ∷ gs) = ⊥
  AreRows columns fs (gives row ∷ rows) (some g ∷ gs) =
      AreFilled columns row fs g × AreRows columns fs rows gs

  fill_fields-AreFilled :
      (columns row : List Bytes) (fs : List (DbField floats))
      → AreFilled columns row fs (fill_fields floats (column_index 0 columns []) row fs)
  fill_fields-AreFilled columns row [] = tt
  fill_fields-AreFilled columns row (f ∷ fs) = (
    record {
      of_text = λ name s i set tag named kind col text full.
          rw (set, tag, named, column_found name i columns col, text, full, kind) refl;
      of_integer = λ name i width z set tag named kind col text fits fits_int.
          rw
            (
              set,
              tag,
              named,
              column_found name i columns col,
              text,
              format_int_ne z,
              kind,
              atoi-format_int floats z fits_int,
              same_integer floats width z fits,
            )
            refl;
      untagged = λ no. elim (Bool-cases f.can_set) [ inl t ↦ rw (t, no) refl | inr n ↦ rw n refl ];
    },
    fill_fields-AreFilled columns row fs,
  )

  append_rows-AreRows :
      (columns : List Bytes) (fs : List (DbField floats)) (rows : List (Answer (List Bytes)))
      (n : ℕ) (direct : List (Option (List (DbField floats))))
      → (append_rows floats (column_index 0 columns []) (some fs) rows n direct).0.error ≡ none
      → (new : List (Option (List (DbField floats)))) × ((append_rows floats
            (column_index 0 columns [])
            (some fs)
            rows
            n
            direct).1
          ≡ direct ++ new)
        × AreRows columns fs rows new
        × ((append_rows floats (column_index 0 columns []) (some fs) rows n direct).0.count
            ≡ pos (n + length rows))
  unfolding append_rows
  append_rows-AreRows columns fs [] n direct h =
      ([], sym (append-nil direct), tt, ap pos (omega arith))
  append_rows-AreRows columns fs (failed e ∷ rows) n direct h = absurd (cc h)
  append_rows-AreRows columns fs (gives row ∷ rows) n direct h =
      let one = fill_model floats (column_index 0 columns []) row (some fs) in
      let (new, whole, filled, count) =
        append_rows-AreRows columns fs rows (n + 1) (direct ++ one ∷ []) h in
      (
        one ∷ new,
        whole ∙ append_assoc direct (one ∷ []) new,
        (fill_fields-AreFilled columns row fs, filled),
        count ∙ ap pos (omega arith),
      )

  pub tx_gets-AreRows :
      (fs : List (DbField floats)) (direct : List (Option (List (DbField floats))))
      (columns : List Bytes) (rows : List (Answer (List Bytes))) (ended : Option DbError)
      (sequence : ℕ)
      → (tx_gets floats
          (some fs)
          direct
          (gives (record { column_types = gives columns; rows = rows; rows_error = ended }))
          sequence).0.0.error
        ≡ none
      → (new : List (Option (List (DbField floats)))) × ((tx_gets floats
            (some fs)
            direct
            (gives (record { column_types = gives columns; rows = rows; rows_error = ended }))
            sequence).0.1
          ≡ direct ++ new)
        × AreRows columns fs rows new
        × ((tx_gets floats
              (some fs)
              direct
              (gives (record { column_types = gives columns; rows = rows; rows_error = ended }))
              sequence).0.0.count
            ≡ pos (length rows))
  unfolding tx_gets
  tx_gets-AreRows fs direct columns rows ended sequence e =
      let (new, whole, filled, count) = append_rows-AreRows columns fs rows 0 direct e in
      (new, whole, filled, count ∙ ap pos (omega arith))
