-- ===== src/Api/Serve/Trace.antt =====
-- api/serv_api.go: what handlers, access checks and callers' addresses that are set in one place do to
-- requests elsewhere.
use landau.Common.{
  ℕ, ◌≡◌, ◌≢◌, refl, Bool, true, false, not, Bytes, codes, none, some, ◌==◌, nat_eq, bytes_eq, List,
  [], ◌∷◌, if◌then◌else◌, lookup, ◌&&◌, Bool-cases, inl, inr, insert, lookup-insert_same,
  lookup_or-lookup, arith,
}
use landau.Api.{
  Request, Program, Api, HttpHandleEntry, handler, add_http_handle, is_acl_deny, set_http_check_acl,
  acl_result, denied, http_acl_deny, http_acl_no_right, is_check_service_not_ready, is_post_method,
  is_post_binding_complex,
}
use landau.Api.Serve.{
  by_url, by_action, http_handle_proxy, serve_entry, serve_handler, serve_bound, dispatch_action,
  dispatch_found, run_action, check_url, bind_entry, unless_denied, unless_refused,
  trace_last_service_address, http_handle_traced,
}
use landau.Data.Keepalive.{Keepalive}
use landau.Data.Keepalive.Select.{
  get_service_addr_by_name, with_scheme, get_received, choose_configured, choose_received,
}

module _ (program : Program) where
  -- An access check denies a call exactly when it answers 1 or 2: whatever else it answers, the call is
  -- let through.
  pub is_acl_deny-none :
      (check : Bytes → Bytes → Request → ℕ) (s : Api program) (url action : Bytes) (r : Request)
      → check url action r ≢ http_acl_deny
      → check url action r ≢ http_acl_no_right
      → is_acl_deny program (set_http_check_acl program true (some check) s) url action r ≡ none
  unfolding is_acl_deny set_http_check_acl acl_result denied
  is_acl_deny-none check s url action r h k = ground arith

  lookup-added :
      (url action : Bytes) (h : HttpHandleEntry program) (s : Api program)
      → url ≢ []
      → lookup url (add_http_handle program url action h s).http_entry ≡ some (handler h)
  unfolding add_http_handle
  lookup-added [] action h s ne = absurd (ne refl)
  lookup-added (c ∷ url) action h s ne = lookup-insert_same (c ∷ url) (handler h) s.http_entry

  lookup-added_action :
      (url action : Bytes) (h : HttpHandleEntry program) (s : Api program)
      → action ≢ []
      → lookup action (add_http_handle program url action h s).http_action_entry ≡ some h
  unfolding add_http_handle
  lookup-added_action url [] h s ne = absurd (ne refl)
  lookup-added_action url (c ∷ action) h s ne =
      lookup-insert_same (c ∷ action) h s.http_action_entry

  serve_handler_called :
      (h : HttpHandleEntry program) (s : Api program) (r : Request) (p : program.Param)
      → (r.url_path == codes "/") ≡ false
      → s.http_need_check_acl ≡ false
      → s.service_disabled ≡ false
      → ((post complex : Bool)
          → program.bind_param h.new_requester_parameter post complex r ≡ (p, none))
      → (serve_handler program s h r).called ≡ by_url r.url_path ∷ []
  unfolding serve_handler check_url serve_bound bind_entry unless_refused is_acl_deny
      is_check_service_not_ready is_post_binding_complex
  serve_handler_called h s r p other off ready b =
      rw
        (
          other,
          off,
          b (is_post_method r) (is_post_binding_complex program s r.url_path []),
          other,
          ready,
        )
        refl

  dispatch_found_called :
      (action : Bytes) (h : HttpHandleEntry program) (s : Api program) (r : Request)
      (p : program.Param)
      → s.http_need_check_acl ≡ false
      → s.service_disabled ≡ false
      → ((post complex : Bool)
          → program.bind_param h.new_requester_parameter post complex r ≡ (p, none))
      → dispatch_found program s action r (some h) ≡ (h.handle_func r p, by_action action ∷ [])
  unfolding dispatch_found run_action bind_entry unless_denied is_acl_deny
      is_check_service_not_ready is_post_binding_complex
  dispatch_found_called action h s r p off ready b =
      rw (off, b (is_post_method r) (is_post_binding_complex program s [] action), ready) refl

  -- A handler that was just added answers for its URL and for its action: with the access check off
  -- and the service ready, a request to the URL whose parameter binds calls the handler once, and so
  -- does the action, which is answered with what the handler returns.
  pub add_http_handle-called :
      (action : Bytes) (h : HttpHandleEntry program) (s : Api program) (r : Request)
      (p : program.Param)
      → r.url_path ≢ []
      → action ≢ []
      → (r.url_path == codes "/") ≡ false
      → s.http_need_check_acl ≡ false
      → s.service_disabled ≡ false
      → ((post complex : Bool)
          → program.bind_param h.new_requester_parameter post complex r ≡ (p, none))
      → ((http_handle_proxy program (add_http_handle program r.url_path action h s) r).called
          ≡ by_url r.url_path ∷ [])
        × (dispatch_action program (add_http_handle program r.url_path action h s) action r
            ≡ (h.handle_func r p, by_action action ∷ []))
  unfolding http_handle_proxy serve_entry dispatch_action add_http_handle
  add_http_handle-called action h s r p ne na other off ready b =
      let s' : Api program = add_http_handle program r.url_path action h s in
      (
        rw (lookup-added r.url_path action h s ne)
            (serve_handler_called h s' r p other off ready b),
        rw (lookup-added_action r.url_path action h s na)
            (dispatch_found_called action h s' r p off ready b),
      )

insert-again :
    (j : Bytes) (v : Bytes) (m : List (Bytes × Bytes)) → insert j v (insert j v m) ≡ insert j v m
insert-again j v [] = rw ((bytes_eq.beq_iff j j).1 refl) refl
insert-again j v ((i, w) ∷ m) = elim (Bool-cases (i == j)) [
  | inl t ↦ rw (t, t) refl
  | inr f ↦ rw (f, f) (rw (insert-again j v m))
]

noted_again :
    (b : Bool) (r : Request) (k : Keepalive)
    → let note : Keepalive → Keepalive = λ x.
      if b
      then record x {
        last_trace_service_address =
            insert r.service_name r.service_address x.last_trace_service_address;
      }
      else x in
      note (note k) ≡ note k
noted_again false r k = refl
noted_again true r k =
    rw (insert-again r.service_name r.service_address k.last_trace_service_address) refl

-- The second note of `dispatchAction`.
trace_last_service_address-again :
    (disabled : Bool) (r : Request) (k : Keepalive)
    → trace_last_service_address disabled r (trace_last_service_address disabled r k)
      ≡ trace_last_service_address disabled r k
unfolding trace_last_service_address
trace_last_service_address-again disabled r k =
    noted_again (not disabled && (not (r.service_name == []) && not (r.service_address == []))) r k

-- The address that a request's sender names is where the sender is called back: behind a request that
-- is served, `get_service_addr_by_name` answers with that address for a sender that is neither
-- configured nor announced, if tracing is on and the address is not empty.
pub http_handle_traced-get_service_addr_by_name :
    (program : Program) (s : Api program) (r : Request) (k : Keepalive) (t : ℕ)
    → s.disable_trace_service_address ≡ false
    → (r.service_name == []) ≡ false
    → (r.service_address == []) ≡ false
    → lookup r.service_name k.service_health_mesh ≡ none
    → lookup r.service_name k.receive_service_mesh ≡ none
    → (get_service_addr_by_name r.service_name t (http_handle_traced program s r k).1).0
      ≡ (with_scheme r.service_address, true)
unfolding http_handle_traced trace_last_service_address get_service_addr_by_name get_received
    choose_configured choose_received
http_handle_traced-get_service_addr_by_name program s r k t on n a h j =
    rw
      (
        on,
        n,
        a,
        h,
        j,
        lookup_or-lookup r.service_name []
            (insert r.service_name r.service_address k.last_trace_service_address),
        lookup-insert_same r.service_name r.service_address k.last_trace_service_address,
      )
      refl
