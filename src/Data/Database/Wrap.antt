-- ===== src/Data/Database/Wrap.antt =====
-- data/db_base.go: the calls inside a transaction, `_TxWrap`, and how a row fills a struct.
-- What the driver answers is an argument. A model is a pointer to a struct, whose fields are listed with
-- their tags and values, or something else.
pub mod Filled
pub mod Rows
use landau.Common.{
  ℕ, suc, ◌+◌, ◌%◌, ◌^◌, Bool, true, false, ◌||◌, List, [], ◌∷◌, ◌++◌, ◌==◌, nat_eq, bytes_eq,
  Bytes, codes, Option, none, some, if◌then◌else◌, ℤ, pos, negsuc, lookup, insert, atoi,
  wrap_signed, wrap_unsigned, get_elem?, to_lower,
}
use landau.Data.Database.{DbError, Answer, failed, gives, ExecResult}

-- The kinds that a column can fill; integers with their width, that is, bits - 1.
pub data FieldKind : Type 0 where
  string_kind float_kind bool_kind other_kind : FieldKind
  int_kind uint_kind : ℕ → FieldKind

-- strconv's `ParseFloat` to 64 bits, and the conversion to a field's size.
pub record Floats : Type 1 where
  pub Float : Type 0
  pub parse_float : Bytes → Option Float

-- What a call gives: its numbers, or an error beside zeros.
pub record TxCount : Type 0 where
  pub count : ℤ
  pub insert_id : ℤ
  pub error : Option DbError

-- The rows of a query: the names of the columns, for each row that `Next` comes to the texts that `Scan`
-- gives, and the error that ended the rows, if one did; the calls do not ask for it.
pub record QueryRows : Type 0 where
  pub column_types : Answer (List Bytes)
  pub rows : List (Answer (List Bytes))
  pub rows_error : Option DbError

abbrev pub count_of : ℤ → TxCount
count_of n = record { count = n; insert_id = pos 0; error = none }

abbrev pub refused : DbError → TxCount
refused e = record { count = pos 0; insert_id = pos 0; error = some e }

abbrev number_or : Option ℤ → ℤ
number_or none = negsuc 0
number_or (some n) = n

exec_answer : Answer ExecResult → TxCount
exec_answer (failed e) = refused e
exec_answer (gives r) = record {
  count = number_or r.rows_affected;
  insert_id = number_or r.last_insert_id;
  error = none;
}

-- `Exec`, with the sequence number of the call.
unfoldable pub tx_exec : Answer ExecResult → ℕ → TxCount × ℕ
unfolding exec_answer
tx_exec answer sequence = (exec_answer answer, suc sequence)

scan_answer : Answer (Option DbError) → TxCount
scan_answer (failed e) = if e.is_no_rows then count_of (pos 0) else refused e
scan_answer (gives none) = count_of (pos 1)
scan_answer (gives (some e)) = refused e

-- `ScanGet`: the row's error, or what `Scan` answers.
unfoldable pub tx_scan_get : Answer (Option DbError) → ℕ → TxCount × ℕ
unfolding scan_answer
tx_scan_get answer sequence = (scan_answer answer, suc sequence)

-- The index of a column by its name; of two columns with a name, the last.
abbrev pub column_index : ℕ → List Bytes → List (Bytes × ℕ) → List (Bytes × ℕ)
column_index i [] m = m
column_index i (c ∷ columns) m = column_index (i + 1) columns (insert c i m)

module _ (floats : Floats) where
  open floats use {Float, parse_float}

  pub data DbValue : Type 0 where
    db_string : Bytes → DbValue
    db_int : ℤ → DbValue
    db_uint : ℕ → DbValue
    db_float : Float → DbValue
    db_bool : Bool → DbValue
    db_other : DbValue

  -- A field: its tag `db`, if it has one, and its kind and value.
  pub record DbField : Type 0 where
    pub db_tag : Option Bytes
    pub can_set : Bool
    pub kind : FieldKind
    pub value : DbValue

  -- What is passed for the result: `elem` is the struct behind the pointer, or none for another type.
  pub data Model : Type 0 where
    not_pointer nil_model : Model
    pointer_to : Option (List DbField) → Model

  abbrev set_if {ℓ} : {A : Type ℓ} → DbValue → (A → DbValue) → Option A → DbValue
  set_if old f none = old
  set_if old f (some a) = f a

  abbrev pub bool_text : Bytes → Bool
  bool_text s =
      if (s == codes "1") || (s == codes "true")
      then true
      else if (s == codes "0") || (s == codes "false")
      then false
      else true

  -- A text that is not empty, by the kind of the field; a text that does not parse changes nothing.
  abbrev pub fill_value : FieldKind → Bytes → DbValue → DbValue
  fill_value string_kind s old = db_string s
  fill_value (int_kind width) s old = set_if old (λ z. db_int (wrap_signed width z)) (atoi s)
  fill_value (uint_kind width) s old =
      set_if old (λ z. db_uint (wrap_unsigned 64 z % 2 ^ suc width)) (atoi s)
  fill_value float_kind s old = set_if old db_float (parse_float s)
  fill_value bool_kind s old = db_bool (bool_text (to_lower s))
  fill_value other_kind s old = old

  abbrev fill_text : DbField → Option Bytes → DbField
  fill_text f none = f
  fill_text f (some s) = if s == [] then f else record f { value = fill_value f.kind s f.value }

  abbrev fill_at : DbField → List Bytes → Option ℕ → DbField
  fill_at f row none = f
  fill_at f row (some i) = fill_text f (get_elem? row i)

  abbrev fill_tagged : DbField → List (Bytes × ℕ) → List Bytes → Option Bytes → DbField
  fill_tagged f columns row none = f
  fill_tagged f columns row (some name) =
      if name == [] then f else fill_at f row (lookup name columns)

  -- The loop over the fields of a struct.
  abbrev pub fill_fields : List (Bytes × ℕ) → List Bytes → List DbField → List DbField
  fill_fields columns row [] = []
  fill_fields columns row (f ∷ fs) =
      (if f.can_set then fill_tagged f columns row f.db_tag else f) ∷ fill_fields columns row fs

  abbrev pub fill_model :
      List (Bytes × ℕ) → List Bytes → Option (List DbField) → Option (List DbField)
  fill_model columns row none = none
  fill_model columns row (some fs) = some (fill_fields columns row fs)

  got_row :
      List Bytes
      → Option (List DbField)
      → List (Answer (List Bytes))
      → TxCount × Option (List DbField)
  got_row columns model [] = (count_of (pos 1), model)
  got_row columns model (failed e ∷ rows) = (refused e, model)
  got_row columns model (gives row ∷ rows) =
      (count_of (pos 1), fill_model (column_index 0 columns []) row model)

  got_columns :
      Option (List DbField)
      → List (Answer (List Bytes))
      → Answer (List Bytes)
      → TxCount × Option (List DbField)
  unfolding got_row
  got_columns model [] columns = got_row [] model []
  got_columns model (row ∷ rows) (failed e) = (refused e, model)
  got_columns model (row ∷ rows) (gives columns) = got_row columns model (row ∷ rows)

  got : Option (List DbField) → Answer QueryRows → TxCount × Option (List DbField)
  unfolding got_columns
  got model (failed e) = (if e.is_no_rows then count_of (pos 0) else refused e, model)
  got model (gives q) = got_columns model q.rows q.column_types

  abbrev pub pointer_error : Bytes → TxCount
  pointer_error text = refused (record { text = text; is_no_rows = false })

  -- `Get`, of the model, the answer and the sequence number.
  unfoldable pub tx_get : Model → Answer QueryRows → ℕ → (TxCount × Model) × ℕ
  unfolding got
  tx_get not_pointer answer sequence = (
    (
      pointer_error (codes "must pass a pointer, not a value, to StructScan destination"),
      not_pointer,
    ),
    sequence,
  )
  tx_get nil_model answer sequence =
      ((pointer_error (codes "nil pointer passed to StructScan destination"), nil_model), sequence)
  tx_get (pointer_to model) answer sequence =
      let (n, model') = got model answer in ((n, pointer_to model'), suc sequence)

  -- The loop over the rows in `Gets`: each fills a new element of the slice, and an error ends it.
  unfoldable pub append_rows :
      List (Bytes × ℕ)
      → Option (List DbField)
      → List (Answer (List Bytes))
      → ℕ
      → List (Option (List DbField))
      → TxCount × List (Option (List DbField))
  append_rows columns base [] n direct = (count_of (pos n), direct)
  append_rows columns base (failed e ∷ rows) n direct = (refused e, direct)
  append_rows columns base (gives row ∷ rows) n direct =
      append_rows columns base rows (n + 1) (direct ++ fill_model columns row base ∷ [])

  abbrev gets_columns :
      Option (List DbField)
      → QueryRows
      → List (Option (List DbField))
      → Answer (List Bytes)
      → TxCount × List (Option (List DbField))
  gets_columns base q direct (failed e) = (refused e, direct)
  gets_columns base q direct (gives columns) =
      append_rows (column_index 0 columns []) base q.rows 0 direct

  abbrev gets_rows :
      Option (List DbField)
      → List (Option (List DbField))
      → Answer QueryRows
      → TxCount × List (Option (List DbField))
  gets_rows base direct (failed e) = (if e.is_no_rows then count_of (pos 0) else refused e, direct)
  gets_rows base direct (gives q) = gets_columns base q direct q.column_types

  -- `Gets` into a slice: `base` is the zero value of its elements. Other destinations are refused
  -- before the call.
  unfoldable pub tx_gets :
      Option (List DbField)
      → List (Option (List DbField))
      → Answer QueryRows
      → ℕ
      → (TxCount × List (Option (List DbField))) × ℕ
  tx_gets base direct answer sequence = (gets_rows base direct answer, suc sequence)
