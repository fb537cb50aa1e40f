-- ===== src/Api/Serve/Access.antt =====
-- api/serv_api.go: which handlers of the program a request reaches, and which answer it gets.
use landau.Common.{
  ℕ, ◌≡◌, refl, Bool, not, ◌&&◌, true, false, Bytes, codes, Option, none, some, ◌⊎◌, inl, inr, ◌==◌,
  nat_eq, bytes_eq, All, List, [], if◌then◌else◌, Bool-cases, lookup,
}
use landau.Api.Values.{Response}
use landau.Api.{
  Request, Program, Api, HttpHandleEntry, UrlEntry, dispatch, handler, is_acl_deny,
  is_check_service_not_ready, set_http_check_acl,
}
use landau.Api.Serve.{
  Caller, by_url, by_action, un_registered, Outcome, Sent, http_handle_proxy, no_route, serve_entry,
  serve_root, serve_handler, serve_bound, dispatch_action, dispatch_found, run_action,
  run_un_registered, check_url, no_route_bound, bind_entry, unless_denied, unless_refused, send,
  jsonp_callback, allow_origin_header,
}

checked_url :
    {A : Type 0} (root not_ready : Bool) (acl : Option A)
    → (if root then none else acl) ≡ none
    → (not root && not_ready) ≡ false
    → (root ≡ true) ⊎ ((acl ≡ none) × (not_ready ≡ false))
checked_url true not_ready acl h k = inl refl
checked_url false not_ready acl h k = inr (h, k)

module _ (program : Program) (s : Api program) (r : Request) where
  -- The access check did not deny the call at the path, and the service answers it. The root entry is
  -- not checked itself, but the actions behind it are.
  abbrev pub Admitted : Bytes → Caller → Type 0
  Admitted path (by_url u) =
      (u == codes "/" ≡ true)
      ⊎ ((is_acl_deny program s u [] r ≡ none)
          × (is_check_service_not_ready program s [] u ≡ false))
  Admitted path (by_action a) =
      (is_acl_deny program s (codes "/") a r ≡ none)
      × (is_check_service_not_ready program s a [] ≡ false)
  Admitted path (un_registered a) =
      (is_acl_deny program s path a r ≡ none)
      × (is_check_service_not_ready program s a r.url_path ≡ false)

  run_action-Admitted :
      (a : HttpHandleEntry program) (action : Bytes) (b : program.Param × Option Bytes)
      → is_acl_deny program s (codes "/") action r ≡ none
      → All (Admitted (codes "/")) (run_action program s a action r b).1
  unfolding run_action
  run_action-Admitted a action (param, some e) h = tt
  run_action-Admitted a action (param, none) h =
      elim (Bool-cases (is_check_service_not_ready program s action [])) [
        | inl t ↦ rw t tt
        | inr f ↦ rw f ((h, f), tt)
      ]

  unless_denied-Admitted :
      (P : Caller → Type 0) (o : Option Response) (x : Response × List Caller)
      → (o ≡ none → All P x.1)
      → All P (unless_denied o x).1
  unfolding unless_denied
  unless_denied-Admitted P none x h = h refl
  unless_denied-Admitted P (some response) x h = tt

  unless_refused-Admitted :
      (P : Caller → Type 0) (o : Option Response) (f : Response → Sent) (x : Outcome)
      → (o ≡ none → All P x.called)
      → All P (unless_refused o f x).called
  unfolding unless_refused
  unless_refused-Admitted P none f x h = h refl
  unless_refused-Admitted P (some response) f x h = tt

  run_un_registered-Admitted :
      (action : Bytes) (u : Option (Request → Bytes → Response))
      → All (Admitted (codes "/")) (run_un_registered program s action r u).1
  unfolding run_un_registered
  run_un_registered-Admitted action none = tt
  run_un_registered-Admitted action (some handle) =
      unless_denied-Admitted (Admitted (codes "/")) (is_acl_deny program s (codes "/") action r) _
        λ e. elim (Bool-cases (is_check_service_not_ready program s action r.url_path)) [
          | inl t ↦ rw t tt
          | inr f ↦ rw f ((e, f), tt)
        ]

  dispatch_found-Admitted :
      (action : Bytes) (a : Option (HttpHandleEntry program))
      → All (Admitted (codes "/")) (dispatch_found program s action r a).1
  unfolding dispatch_found
  dispatch_found-Admitted action none = run_un_registered-Admitted action s.un_register_handle
  dispatch_found-Admitted action (some a) =
      unless_denied-Admitted (Admitted (codes "/")) _ _
        (run_action-Admitted a action (bind_entry program s a [] action r))

  serve_root-Admitted :
      (b : Bytes × Option Bytes) → All (Admitted (codes "/")) (serve_root program s r b).called
  unfolding serve_root dispatch_action
  serve_root-Admitted (action, some e) = tt
  serve_root-Admitted (action, none) =
      dispatch_found-Admitted action (lookup action s.http_action_entry)

  serve_bound-Admitted :
      (a : HttpHandleEntry program) (b : program.Param × Option Bytes)
      → check_url program s r ≡ none
      → All (Admitted (codes "/")) (serve_bound program s a r b).called
  unfolding serve_bound check_url
  serve_bound-Admitted a (param, some e) h = tt
  serve_bound-Admitted a (param, none) h =
      elim (Bool-cases
        (not (r.url_path == codes "/") && is_check_service_not_ready program s [] r.url_path)) [
          | inl t ↦ rw t tt
          | inr f ↦ rw f (checked_url (r.url_path == codes "/") _ _ h f, tt)
        ]

  serve_entry-Admitted :
      (u : Option (UrlEntry program))
      → All (Admitted (codes "/")) (serve_entry program s r u).called
  unfolding serve_entry serve_handler
  serve_entry-Admitted none = tt
  serve_entry-Admitted (some dispatch) = serve_root-Admitted _
  serve_entry-Admitted (some (handler a)) =
      unless_refused-Admitted (Admitted (codes "/")) _ _ _ (serve_bound-Admitted a _)

  no_route_bound-Admitted :
      (u : Option (Request → Bytes → Response)) (action : Bytes)
      → All (Admitted r.url_path) (no_route_bound program s r u action).called
  unfolding no_route_bound
  no_route_bound-Admitted none action = tt
  no_route_bound-Admitted (some handle) action =
      elim (Bool-cases (is_check_service_not_ready program s action r.url_path)) [
        | inl t ↦ rw t tt
        | inr f ↦ rw f (
            unless_refused-Admitted (Admitted r.url_path)
              (is_acl_deny program s r.url_path action r) _ _ λ e. ((e, f), tt))
      ]

  no_route-Admitted : All (Admitted r.url_path) (no_route program s r).called
  unfolding no_route
  no_route-Admitted = elim (Bool-cases (r.http_method == codes "OPTIONS")) [
    | inl t ↦ rw t tt
    | inr f ↦ rw f (no_route_bound-Admitted s.un_register_handle _)
  ]

  pub called-Admitted :
      All (Admitted (codes "/")) (http_handle_proxy program s r).called
      × All (Admitted r.url_path) (no_route program s r).called
  unfolding http_handle_proxy
  called-Admitted = (serve_entry-Admitted (lookup r.url_path s.http_entry), no_route-Admitted)

  pub send-set_http_check_acl :
      (need : Bool) (check : Option (Bytes → Bytes → Request → ℕ)) (field : Bytes)
      (escape_html : Bool) (response : Response)
      → send program (set_http_check_acl program need check s) r field escape_html response
        ≡ send program s r field escape_html response
  unfolding send jsonp_callback allow_origin_header set_http_check_acl
  send-set_http_check_acl need check field escape_html response = refl
