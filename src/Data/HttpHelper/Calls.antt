-- ===== src/Data/HttpHelper/Calls.antt =====
-- data/http_helper.go: calls by a service's name, and signed calls.
use landau.Common.{
  ℕ, ◌≡◌, refl, Bool, true, false, ◌||◌, ◌++◌, [], ◌==◌, bytes_eq, Bytes, codes, none, some, lookup,
  insert, lookup-insert_same, lookup_or-lookup, contains_bytes, Bool-cases, inl, inr,
}
use landau.Data.Database.{gives}
use landau.Data.Keepalive.{Keepalive}
use landau.Data.Keepalive.Select.{
  get_service_addr_by_name, with_scheme, get_received, choose_configured, choose_received,
}
use landau.Data.HttpHelper.{
  Params, HttpHelper, http_post, HttpResponse, Library, resolve_url, with_any_scheme, http_call,
  prepare_request, sign_request, sign_params, signed_by, get_sha1_sign, received,
}

module _ (library : Library) where
  abbrev pub has_scheme : Bytes → Bool
  has_scheme address =
      contains_bytes (codes "http://") address || contains_bytes (codes "https://") address

  with_any_scheme_has : (addr : Bytes) → has_scheme (with_any_scheme library addr) ≡ true
  with_any_scheme_has addr = elim (Bool-cases (contains_bytes (codes "http://") addr)) [
    | inl t ↦ rw (t, t) refl
    | inr f ↦ elim (Bool-cases (contains_bytes (codes "https://") addr)) [
      | inl t ↦ rw (f, t, f, t) refl
      | inr g ↦ rw (f, g) refl
    ]
  ]

  -- A call by a service's name always goes to an address that holds a scheme.
  pub resolve_url-contains_bytes :
      (c : HttpHelper) (t : ℕ) (k : Keepalive)
      → (c.url == []) ≡ true
      → (c.service_name == []) ≡ false
      → has_scheme (resolve_url library c t k).0.0 ≡ true
  unfolding resolve_url
  resolve_url-contains_bytes c t k h n =
      rw (h, n) (with_any_scheme_has (get_service_addr_by_name c.service_name t k).0.0)

  -- A helper that posts parameters to a URL.
  abbrev pub posts : Params → HttpHelper → HttpHelper
  posts params c = record c {
    method = http_post;
    post_body = [];
    request_raw_object = none;
    request_params = some params;
  }

  abbrev pub signature_of : Params → HttpHelper → Bytes
  signature_of params c =
      get_sha1_sign library (insert c.public_key_para_name c.public_key params) c.private_key

  -- A signed POST of parameters to a URL leaves its signature among them: the helper's next call signs
  -- it, too.
  pub prepare_request-get_sha1_sign :
      (c : HttpHelper) (params : Params) (t : ℕ) (k : Keepalive)
      → (c.url == []) ≡ false
      → (c.public_key == []) ≡ false
      → (c.private_key == []) ≡ false
      → (signature_of params c == []) ≡ false
      → (prepare_request library (posts params c) t k).0.1.request_params
        ≡ some (
            insert c.signature_para_name
              (signature_of params c)
              (insert c.public_key_para_name c.public_key params))
  unfolding prepare_request resolve_url sign_request sign_params signed_by
  prepare_request-get_sha1_sign c params t k u pub_key priv_key signature =
      rw (u, pub_key, priv_key, signature) refl

  received_found :
      (r : HttpResponse) (u : ℕ) (k : Keepalive)
      → (r.svr_name == []) ≡ false
      → (r.svr_addr == []) ≡ false
      → lookup r.svr_name k.service_health_mesh ≡ none
      → lookup r.svr_name k.receive_service_mesh ≡ none
      → contains_bytes (codes "http://") r.svr_addr ≡ false
      → (get_service_addr_by_name r.svr_name u (received library (gives r) k).1).0
        ≡ (codes "http://" ++ r.svr_addr, true)
  unfolding with_scheme get_service_addr_by_name get_received choose_configured choose_received
  received_found r u k name addr h j plain =
      rw
        (
          name,
          addr,
          h,
          j,
          lookup_or-lookup r.svr_name []
              (insert r.svr_name r.svr_addr k.last_trace_service_address),
          lookup-insert_same r.svr_name r.svr_addr k.last_trace_service_address,
          addr,
          plain,
        )
        refl

  -- A service that answers is where its name leads next: behind a call to a URL whose response names
  -- its sender, the sender, if it is neither configured nor announced, is looked for at `http://` and the
  -- address that it named, if that does not hold `http://` itself.
  pub http_call-get_service_addr_by_name :
      (r : HttpResponse) (own_name own_address : Bytes) (c : HttpHelper) (t u : ℕ) (k : Keepalive)
      → (c.url == []) ≡ false
      → (r.svr_name == []) ≡ false
      → (r.svr_addr == []) ≡ false
      → lookup r.svr_name k.service_health_mesh ≡ none
      → lookup r.svr_name k.receive_service_mesh ≡ none
      → contains_bytes (codes "http://") r.svr_addr ≡ false
      → (get_service_addr_by_name r.svr_name u
          (http_call library (λ q. gives r) own_name own_address c t k).1).0
        ≡ (codes "http://" ++ r.svr_addr, true)
  unfolding http_call prepare_request resolve_url
  http_call-get_service_addr_by_name r own_name own_address c t u k n name addr h j plain =
      rw n (received_found r u k name addr h j plain)
