-- ===== src/Api/Binding.antt =====
-- api/binding.go: the parameters of a request, from the JSON of its body or from a form. Parameters: the
-- decoding into an object, which may fill a part of it before it fails, the parsing of a query, the
-- form mapping and the validator. The list of a map is the order in which a `range` loop meets it.
pub mod Merge
mod Tests
use landau.Common.{
  ℕ, zero, suc, ◌+◌, Bool, true, false, ◌&&◌, ◌||◌, not, List, [], ◌∷◌, ◌++◌, Bytes, codes, ◌==◌,
  bytes_eq, nat_beq, ltb, if◌then◌else◌, Option, none, some, lookup_or, insert, is_digit,
  trim_space,
}

-- `url.Values` and what `mergeArray` makes of it.
abbrev pub Form : Type 0
Form = List (Bytes × List Bytes)

abbrev all_closing : Bytes → Bool
all_closing [] = true
all_closing (c ∷ s) = nat_beq c b']' && all_closing s

-- The rest of the expression behind a bracket or a point: `count` digits, of nine at most, are read.
abbrev pub index_tail : ℕ → Bytes → Bool
index_tail count [] = ltb 0 count
index_tail count (c ∷ s) =
    let more = index_tail (count + 1) s in
    if is_digit c then ltb count 9 && more else nat_beq c b']' && ltb 0 count && all_closing s

-- `r.ReplaceAllString(k, "")`: the leftmost match goes to the end of the text.
abbrev pub strip_index : Bytes → Bytes
strip_index [] = []
strip_index (c ∷ s) =
    let rest = c ∷ strip_index s in
    if (nat_beq c b'[' || nat_beq c b'.') && index_tail 0 s then [] else rest

abbrev pub holds_byte : ℕ → Bytes → Bool
holds_byte c [] = false
holds_byte c (d ∷ s) = nat_beq d c || holds_byte c s

-- `strings.Index(k, c) > 0`: the first occurrence is not at the beginning.
abbrev pub occurs_inside : ℕ → Bytes → Bool
occurs_inside c [] = false
occurs_inside c (d ∷ s) = not (nat_beq d c) && holds_byte c s

unfoldable pub merged_key : Bytes → Bytes
merged_key k = if occurs_inside b'[' k || occurs_inside b'.' k then strip_index k else k

-- The values that are not blank.
unfoldable pub merged_values : List Bytes → List Bytes
merged_values [] = []
merged_values (v ∷ vs) =
    if trim_space v == [] then merged_values vs else trim_space v ∷ merged_values vs

abbrev pub append_values : Bytes → List Bytes → Form → Form
append_values key [] o = o
append_values key (v ∷ vs) o = insert key (lookup_or key [] o ++ v ∷ vs) o

unfoldable pub merge_rest : Form → Form → Form
unfolding merged_key merged_values
merge_rest [] o = o
merge_rest ((k, vs) ∷ u) o = merge_rest u (append_values (merged_key k) (merged_values vs) o)

unfoldable pub merge_array : Form → Form
unfolding merge_rest
merge_array u = merge_rest u []

-- What `io.ReadAll` of a body gives, and the raw parameters that the context keeps.
unfoldable pub prepare_request_param : Bool → Option Bytes → Option Bytes → Option Bytes
prepare_request_param false body raw = raw
prepare_request_param true none raw = raw
prepare_request_param true (some []) raw = some (codes "{}")
prepare_request_param true (some (c ∷ body)) raw = some (c ∷ body)

-- The object that is filled, and the error.
pub data Bound (O : Type 0) : Type 0 where
  filled : O → Bound O
  bind_failed : O → Bound O
  no_parameters : O → Bound O

pub record Binder (O : Type 0) : Type 0 where
  pub decode_json : Bytes → O → O × Bool
  pub bind_body : Bytes → O → O × Bool
  pub parse_query : Bytes → Option Form
  pub map_form : Form → O → O × Bool
  pub validate : O → Bool

module _ {O : Type 0} (b : Binder O) where
  abbrev validated : O → Bound O
  validated o = if b.validate o then filled o else bind_failed o

  -- `mapForm`, and then the validator.
  abbrev pub mapped : O × Bool → Bound O
  mapped (o, false) = bind_failed o
  mapped (o, true) = validated o

  -- `bindQuery`.
  unfoldable pub bind_query : Form → O → Bound O
  unfolding merge_array
  bind_query query o = mapped (b.map_form (merge_array query) o)

  abbrev pub bind_form : Option Form → O → Bound O
  bind_form none o = bind_failed o
  bind_form (some values) o = mapped (b.map_form (merge_array values) o)

  -- A body that is no JSON text is read as a form, over what the decoder has filled.
  abbrev pub or_form : Bytes → O × Bool → Bound O
  or_form body (o, true) = filled o
  or_form body (o, false) = bind_form (b.parse_query body) o

  -- `bindPost`, of the raw parameters of the context.
  unfoldable pub bind_post : Option Bytes → Bool → O → Bound O
  unfolding merge_array
  bind_post none complex o = no_parameters o
  bind_post (some body) complex o =
      or_form body (if complex then b.decode_json body o else b.bind_body body o)

  -- `bindParams` of serv_api.go.
  unfoldable pub bind_params : Option Bytes → Form → Bool → Bool → O → Bound O
  unfolding bind_query bind_post
  bind_params raw query is_post complex o =
      if is_post then bind_post raw complex o else bind_query query o
