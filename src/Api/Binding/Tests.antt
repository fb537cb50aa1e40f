-- ===== src/Api/Binding/Tests.antt =====
-- api/binding.go at concrete forms.
use landau.Common.{codes, [], ◌∷◌, ◌≡◌, refl, arith, List, Bytes}
use landau.Api.Binding.{merged_key, merge_array}
use landau.Api.Binding.Merge.{
  FormKey, bare, dotted, bracketed, form_text, lookup_or-merge_array_keys, merged_key_indexed,
}
use landau.Common.{lookup_or, bytes_eq}

abbrev hosts : List (FormKey × List Bytes)
hosts =
    (dotted (codes "Hosts") (codes "0"), codes " a " ∷ [])
    ∷ (bare (codes "Name"), codes "x" ∷ [])
    ∷ (bracketed (codes "Hosts") (codes "1"), codes "" ∷ codes "b" ∷ [])
    ∷ []

lookup_or-merge_array_keys_example :
    lookup_or (codes "Hosts") [] (merge_array (form_text hosts)) ≡ codes "a" ∷ codes "b" ∷ []
lookup_or-merge_array_keys_example = lookup_or-merge_array_keys (codes "Hosts") hosts (
  (refl, omega arith, (refl, omega arith, omega arith)),
  (refl, ((refl, omega arith, (refl, omega arith, omega arith)), tt)),
)

merged_key_indexed_example :
    (merged_key (codes "Hosts.12") ≡ codes "Hosts")
    × (merged_key (codes "Hosts[12]") ≡ codes "Hosts")
merged_key_indexed_example =
    merged_key_indexed b'H' (codes "osts") (codes "12") refl refl (omega arith) (omega arith)
