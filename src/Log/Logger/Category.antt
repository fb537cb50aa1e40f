-- ===== src/Log/Logger/Category.antt =====
-- log/log_category_control.go: which calls log their results.
use landau.Common.{
  ℕ, Bool, List, [], ◌∷◌, Bytes, ◌==◌, bytes_eq, nat_eq, codes, if◌then◌else◌, insert, lookup_or,
  ◌≡◌, arith, lookup_or-lookup, lookup-insert,
}

-- `_CategoryInfoLogLevel` at first.
abbrev pub category_info_log_level : List (Bytes × ℕ)
category_info_log_level = (codes "HTTP", 1) ∷ (codes "SQL", 1) ∷ (codes "ExecCMD", 1) ∷ []

unfoldable pub is_enable_category_info_log : Bytes → List (Bytes × ℕ) → Bool
is_enable_category_info_log category m = lookup_or category 0 m == 1

unfoldable pub set_category_info_log_option : Bytes → Bool → List (Bytes × ℕ) → List (Bytes × ℕ)
set_category_info_log_option category enable m = insert category (if enable then 1 else 0) m

-- The option that is set last holds for its category, and the others keep theirs.
pub is_enable_category_info_log-set_category_info_log_option :
    (j k : Bytes) (enable : Bool) (m : List (Bytes × ℕ))
    → is_enable_category_info_log j (set_category_info_log_option k enable m)
      ≡ (if k == j then enable else is_enable_category_info_log j m)
unfolding is_enable_category_info_log set_category_info_log_option
is_enable_category_info_log-set_category_info_log_option j k enable m = ground (
  arith,
  lookup_or-lookup j 0 m,
  lookup-insert j k (if enable then 1 else 0) m,
  lookup_or-lookup j 0 (insert k (if enable then 1 else 0) m),
)
