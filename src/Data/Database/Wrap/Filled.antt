-- ===== src/Data/Database/Wrap/Filled.antt =====
-- data/db_base.go: what a transaction's calls leave in the models, and the counts that they return.
use landau.Common.{
  ℕ, suc, ◌≡◌, refl, true, false, List, [], ◌∷◌, ◌==◌, bytes_eq, Bytes, Option, none, some, ℤ, pos,
  negsuc, lookup, get_elem?, format_int, Fits, atoi, parse_int-format_int_pos,
  parse_int-format_int_neg, wrap_signed, wrap_signed_pos, wrap_signed_neg, format_int_ne,
}
use landau.Data.Database.{Answer, gives}
use landau.Data.Database.Wrap.{
  Floats, count_of, pointer_to, DbField, db_int, int_kind, fill_fields, tx_get, got, got_columns,
  got_row,
}

module _ (floats : Floats) where
  -- A query without a row leaves the model as it is, and `Get` of a transaction counts one row all the
  -- same.
  pub tx_get_empty :
      (model : Option (List (DbField floats))) (columns : Answer (List Bytes)) (sequence : ℕ)
      → tx_get floats
          (pointer_to model)
          (gives (record { column_types = columns; rows = []; rows_error = none }))
          sequence
        ≡ ((count_of (pos 1), pointer_to model), suc sequence)
  unfolding tx_get got got_columns got_row
  tx_get_empty model columns sequence = refl

  pub atoi-format_int : (z : ℤ) → Fits 63 z → atoi (format_int z) ≡ some z
  unfolding atoi
  atoi-format_int (pos n) h = parse_int-format_int_pos 63 n h
  atoi-format_int (negsuc n) h = parse_int-format_int_neg 63 n h

  pub same_integer : (width : ℕ) (z : ℤ) → Fits width z → wrap_signed width z ≡ z
  same_integer width (pos n) h = wrap_signed_pos width n h
  same_integer width (negsuc n) h = wrap_signed_neg width n h

  -- A field with a tag takes the integer whose text stands in its column, if the integer fits both
  -- the field and an `int`; the other fields are filled on their own.
  pub fill_fields-int :
      (columns : List (Bytes × ℕ)) (row : List Bytes) (f : DbField floats)
      (fs : List (DbField floats)) (name : Bytes) (i width : ℕ) (z : ℤ)
      → f.can_set ≡ true
      → f.db_tag ≡ some name
      → (name == []) ≡ false
      → f.kind ≡ int_kind width
      → lookup name columns ≡ some i
      → get_elem? row i ≡ some (format_int z)
      → Fits width z
      → Fits 63 z
      → fill_fields floats columns row (f ∷ fs)
        ≡ record f { value = db_int z } ∷ fill_fields floats columns row fs
  fill_fields-int columns row f fs name i width z set tag named kind at_index text fits fits_int =
      rw
        (
          set,
          tag,
          named,
          at_index,
          text,
          format_int_ne z,
          kind,
          atoi-format_int z fits_int,
          same_integer width z fits,
        )
        refl
