-- ===== src/Api/Restful/Search.antt =====
-- api/restful_api.go: what the search for an entry finds.
use landau.Common.{
  ℕ, ◌≡◌, refl, sym, ap, ◌∙◌, Bool, true, false, ◌||◌, List, [], ◌∷◌, ◌++◌, ◌==◌, bytes_eq, nat_eq,
  length, All, ◌⊎◌, subst, Bytes, Option, none, some, if◌then◌else◌, is_some, arith, Bool-cases,
  inl, inr, append_assoc, append-nil,
}
use landau.Api.{
  Request, Program, Api, set_http_check_acl, is_check_service_not_ready, is_post_binding_complex,
}
use landau.Api.Serve.Access.{send-set_http_check_acl}
use landau.Api.Restful.{
  restful_bind_error, Restful, RestfulApiEntry, Regexp, is_matched, is_exist_restful,
  search_entries, only_one, restful_handle_proxy, restful_found, restful_bound,
}

module _ (program : Program) where
  -- Of the entries that match, the first without a parameter, and all the others.
  abbrev pub candidates :
      (RestfulApiEntry program → Bool)
      → List (Bytes × RestfulApiEntry program)
      → List (RestfulApiEntry program)
  candidates matched [] = []
  candidates matched ((k, a) ∷ m) =
      let rest = candidates matched m in if matched a then a ∷ rest else rest

  abbrev pub select :
      List (RestfulApiEntry program)
      → List (RestfulApiEntry program)
      → Option (RestfulApiEntry program)
  select all [] = only_one program all
  select all (a ∷ c) = let rest = select all c in if a.id == [] then some a else rest

  search_entries-select :
      (matched : RestfulApiEntry program → Bool) (found : List (RestfulApiEntry program))
      (m : List (Bytes × RestfulApiEntry program))
      → search_entries program matched found m
        ≡ select (found ++ candidates matched m) (candidates matched m)
  search_entries-select matched found [] = rw (append-nil found) refl
  search_entries-select matched found ((k, a) ∷ m) = elim (Bool-cases (matched a)) [
    | inl t ↦
        rw
          (
            t,
            search_entries-select matched (found ++ a ∷ []) m,
            append_assoc found (a ∷ []) (candidates matched m),
          )
          refl
    | inr f ↦ rw f (search_entries-select matched found m)
  ]

  abbrev pub any_without_id : List (RestfulApiEntry program) → Bool
  any_without_id [] = false
  any_without_id (a ∷ c) = (a.id == []) || any_without_id c

  only_one_found :
      (c : List (RestfulApiEntry program)) → is_some (only_one program c) ≡ (length c == 1)
  only_one_found [] = refl
  only_one_found (a ∷ []) = refl
  only_one_found (a ∷ b ∷ c) = ground arith

  select_found :
      (all c : List (RestfulApiEntry program))
      → is_some (select all c) ≡ (any_without_id c || (length all == 1))
  select_found all [] = only_one_found all
  select_found all (a ∷ c) = elim (Bool-cases (a.id == [])) [
    | inl t ↦ rw t refl
    | inr f ↦ rw f (select_found all c)
  ]

  select_right :
      (matched : RestfulApiEntry program → Bool) (all c : List (RestfulApiEntry program))
      (a : RestfulApiEntry program)
      → All (λ b. matched b ≡ true) all
      → All (λ b. matched b ≡ true) c
      → select all c ≡ some a
      → (matched a ≡ true) × (((a.id == []) ≡ true) ⊎ (all ≡ a ∷ []))
  select_right matched [] [] a ha hc e = absurd (cc e)
  select_right matched (b ∷ []) [] a (hb, _) hc e =
      let same : b ≡ a = cc e in
      (subst (λ x. matched x ≡ true) same hb, inr (ap (λ x. x ∷ []) same))
  select_right matched (b ∷ b' ∷ all) [] a ha hc e = absurd (cc e)
  select_right matched all (b ∷ c) a ha (hb, hc) e = elim (Bool-cases (b.id == [])) [
    | inl t ↦
        let found : (if true then some b else select all c) ≡ some a =
          subst (λ x. (if x then some b else select all c) ≡ some a) t e in
        let same : b ≡ a = cc found in
        (subst (λ x. matched x ≡ true) same hb, inl (subst (λ x. (x.id == []) ≡ true) same t))
    | inr f ↦
        select_right matched all c a ha hc
          (subst (λ x. (if x then some b else select all c) ≡ some a) f e)
  ]

  candidates_matched :
      (matched : RestfulApiEntry program → Bool) (m : List (Bytes × RestfulApiEntry program))
      → All (λ b. matched b ≡ true) (candidates matched m)
  candidates_matched matched [] = tt
  candidates_matched matched ((k, a) ∷ m) = elim (Bool-cases (matched a)) [
    | inl t ↦ rw t (t, candidates_matched matched m)
    | inr f ↦ rw f (candidates_matched matched m)
  ]

  -- In whatever order the entries are met, the search finds an entry exactly when one without a
  -- parameter matches the request, or when a single entry matches.
  pub is_exist_restful_found :
      (regexp : Regexp) (url_path http_method : Bytes) (s : Restful program)
      → is_some (is_exist_restful program regexp url_path http_method s) ≡ (
          any_without_id
            (candidates (is_matched program regexp url_path http_method) s.restful_http_entry)
          || (length
                (candidates (is_matched program regexp url_path http_method) s.restful_http_entry)
              == 1))
  unfolding is_exist_restful
  is_exist_restful_found regexp url_path http_method s =
      let matched : RestfulApiEntry program → Bool =
        is_matched program regexp url_path http_method in
      let c : List (RestfulApiEntry program) = candidates matched s.restful_http_entry in
      ap is_some (search_entries-select matched [] s.restful_http_entry) ∙ select_found c c

  -- The entry that is found matches the request, and it has no parameter or is the only entry that
  -- matches.
  pub is_exist_restful_right :
      (regexp : Regexp) (url_path http_method : Bytes) (s : Restful program)
      (a : RestfulApiEntry program)
      → is_exist_restful program regexp url_path http_method s ≡ some a
      → (is_matched program regexp url_path http_method a ≡ true)
        × (((a.id == []) ≡ true)
            ⊎ (candidates (is_matched program regexp url_path http_method) s.restful_http_entry
                ≡ a ∷ []))
  unfolding is_exist_restful
  is_exist_restful_right regexp url_path http_method s a e =
      let matched : RestfulApiEntry program → Bool =
        is_matched program regexp url_path http_method in
      let c : List (RestfulApiEntry program) = candidates matched s.restful_http_entry in
      let all : All (λ b. matched b ≡ true) c = candidates_matched matched s.restful_http_entry in
      select_right matched c c a all all
        (sym (search_entries-select matched [] s.restful_http_entry) ∙ e)

  restful_bound_checked :
      (need : Bool) (check : Option (Bytes → Bytes → Request → ℕ)) (api : Api program)
      (s : Restful program) (a : RestfulApiEntry program) (r : Request)
      (b : program.Param × Option Bytes)
      → restful_bound program (set_http_check_acl program need check api) s a r b
        ≡ restful_bound program api s a r b
  unfolding restful_bound is_check_service_not_ready set_http_check_acl
  restful_bound_checked need check api s a r (p, none) =
      rw
        (send-set_http_check_acl program api r need check a.http_code_status true
          (a.http_handle r p))
        refl
  restful_bound_checked need check api s a r (p, some e) =
      rw
        (send-set_http_check_acl program api r need check a.http_code_status true
          (restful_bind_error program s e))
        refl

  restful_found_checked :
      (need : Bool) (check : Option (Bytes → Bytes → Request → ℕ)) (api : Api program)
      (s : Restful program) (r : Request) (found : Option (RestfulApiEntry program))
      → restful_found program (set_http_check_acl program need check api) s r found
        ≡ restful_found program api s r found
  unfolding restful_found is_post_binding_complex set_http_check_acl
  restful_found_checked need check api s r none = refl
  restful_found_checked need check api s r (some a) = restful_bound_checked need check api s a r _

  -- The access check has no say in RESTful requests: whatever check is set, the outcome is the same.
  pub restful_handle_proxy-set_http_check_acl :
      (regexp : Regexp) (need : Bool) (check : Option (Bytes → Bytes → Request → ℕ))
      (api : Api program) (s : Restful program) (r : Request)
      → restful_handle_proxy program regexp (set_http_check_acl program need check api) s r
        ≡ restful_handle_proxy program regexp api s r
  unfolding restful_handle_proxy
  restful_handle_proxy-set_http_check_acl regexp need check api s r =
      restful_found_checked need check api s r
        (is_exist_restful program regexp r.url_path r.http_method s)
