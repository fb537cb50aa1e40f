-- ===== src/Data/Keepalive/Statics/Page.antt =====
-- data/service_keepalive.go: what the page of the services shows, and when it panics.
use landau.Common.{
  ◌≡◌, ◌≢◌, ◌∙◌, ◌⊎◌, refl, ap, subst, ℕ, pos, Bool, true, false, ◌&&◌, ◌||◌, ◌++◌, codes,
  format_int, has, lookup_or, bytes_ltb, ltb, Bool-cases, inl, inr, List, [], ◌∷◌, ◌==◌, nat_eq,
  bytes_eq, Bytes, Option, none, some, lookup, length, Sorts, IsOrdered, IsStrictOrder,
  bytes_ltb-IsStrictOrder, bytes_ltb_same,
}
use mathlib.Core.List.{Perm, Pairwise}
use mathlib.Core.List.Perm
use native.Mathlib.Omega.{arith}
use landau.Data.Keepalive.{ServiceHealthInfo, Keepalive}
use landau.Data.Keepalive.Statics.{
  RowShowInfo, TraceInfo, TraceHead, TraceModel, less_trace, service_row, service_rows,
  service_trace, service_traces, caller_rows, caller_trace, caller_traces, with_trace,
  output_service_address, sort_filled, trace_model, page_model, page_of, model_of,
  output_keepalive_statics,
}

-- Every service has an address.
abbrev pub HasAddresses : List (Bytes × ServiceHealthInfo) → Type 0
HasAddresses [] = Unit
HasAddresses ((name, d) ∷ mesh) = (d.address ≢ []) × HasAddresses mesh

-- The rows that the page shows for a service.
abbrev pub all_rows : TraceInfo → List RowShowInfo
all_rows v =
    record {
      row_address = v.first_address;
      row_health = v.first_health;
      row_call_count = v.first_call_count;
      row_receive_time = v.first_receive_time;
    }
    ∷ v.other_address

abbrev pub FormatsTime : Type 0
FormatsTime = ℕ → Bytes

-- A row shows an address of a configured service: the address, behind it in red the secondary address
-- that it has if it has one; the health, in red if it is 1 and was found on a secondary address; how
-- often it was called, and when it was last heard of.
abbrev pub ShowsService :
    FormatsTime → List (Bytes × Bytes) → ServiceHealthInfo → Bytes → RowShowInfo → Type 0
ShowsService format_time secondaries d a r =
    (lookup a secondaries ≡ none
      → (r.row_address ≡ a) × (r.row_health ≡ format_int (pos (lookup_or a 0 d.health))))
    × ((v : Bytes)
        → lookup a secondaries ≡ some v
        → r.row_address ≡ a ++ codes " <label style=\"color:red\">" ++ v ++ codes "</label>")
    × ((v : Bytes)
        → lookup a secondaries ≡ some v
        → has a d.health_on_secondary ≡ true
        → lookup_or a 0 d.health ≡ 1
        → r.row_health ≡ codes "<label style=\"color:red\">1</label>")
    × (r.row_call_count ≡ lookup_or a 0 d.call_count)
    × (r.row_receive_time ≡ format_time (lookup_or a 0 d.receive_time))

-- A row shows an address of a service that has announced itself.
abbrev pub ShowsCaller : FormatsTime → ServiceHealthInfo → Bytes → RowShowInfo → Type 0
ShowsCaller format_time d a r =
    (r.row_address ≡ a)
    × (r.row_health ≡ [])
    × (r.row_call_count ≡ lookup_or a 0 d.call_count)
    × (r.row_receive_time ≡ format_time (lookup_or a 0 d.receive_time))

-- One row for each address, in their order.
abbrev pub ShowRows : (Bytes → RowShowInfo → Type 0) → List Bytes → List RowShowInfo → Type 0
ShowRows shows [] [] = Unit
ShowRows shows [] (r ∷ rs) = ⊥
ShowRows shows (a ∷ address) [] = ⊥
ShowRows shows (a ∷ address) (r ∷ rs) = shows a r × ShowRows shows address rs

-- One of the page's entries shows a service: its name, the number of its addresses and their rows.
abbrev pub Shows : (Bytes → RowShowInfo → Type 0) → Bytes → List Bytes → TraceInfo → Type 0
Shows shows name address v =
    (v.trace_name ≡ name) × (v.address_num ≡ length address) × ShowRows shows address (all_rows v)

abbrev pub ShowAll :
    (ServiceHealthInfo → Bytes → RowShowInfo → Type 0)
    → List (Bytes × ServiceHealthInfo)
    → List TraceInfo
    → Type 0
ShowAll shows [] [] = Unit
ShowAll shows [] (v ∷ vs) = ⊥
ShowAll shows (s ∷ mesh) [] = ⊥
ShowAll shows ((name, d) ∷ mesh) (v ∷ vs) = Shows (shows d) name d.address v × ShowAll shows mesh vs

-- By the name, and of one name by the number of addresses.
abbrev pub stands_before : TraceInfo → TraceInfo → Bool
stands_before a b =
    bytes_ltb a.trace_name b.trace_name
    || ((a.trace_name == b.trace_name) && ltb a.address_num b.address_num)

-- The entries of a table: a service's own, in the order of the names.
abbrev pub IsTable :
    (ServiceHealthInfo → Bytes → RowShowInfo → Type 0)
    → List (Bytes × ServiceHealthInfo)
    → List TraceInfo
    → Type 0
IsTable shows mesh table =
    IsOrdered stands_before table × ((vs : List TraceInfo) × Perm table vs × ShowAll shows mesh vs)

module _ (format_time : ℕ → Bytes) where
  service_row_lem :
      (secondaries : List (Bytes × Bytes)) (d : ServiceHealthInfo) (a : Bytes)
      → ShowsService format_time secondaries d a (service_row format_time secondaries d a)
  unfolding output_service_address
  service_row_lem secondaries d a =
      (λ n. (rw n refl, rw n refl), λ v e. rw e refl, λ v e h one. rw (e, h, one) refl, refl, refl)

  service_rows-ShowRows :
      (secondaries : List (Bytes × Bytes)) (d : ServiceHealthInfo) (address : List Bytes)
      → ShowRows
          (ShowsService format_time secondaries d)
          address
          (service_rows format_time secondaries d address)
  service_rows-ShowRows secondaries d [] = tt
  service_rows-ShowRows secondaries d (a ∷ address) =
      (service_row_lem secondaries d a, service_rows-ShowRows secondaries d address)

  service_trace-Shows :
      (secondaries : List (Bytes × Bytes)) (name : Bytes) (d : ServiceHealthInfo)
      (address : List Bytes)
      → address ≢ []
      → (v : TraceInfo) × (service_trace format_time secondaries name d address ≡ some v)
        × Shows (ShowsService format_time secondaries d) name address v
  unfolding service_trace
  service_trace-Shows secondaries name d [] h = absurd (h refl)
  service_trace-Shows secondaries name d (a ∷ address) h =
      (_, refl, (refl, refl, service_rows-ShowRows secondaries d (a ∷ address)))

  service_traces-ShowAll :
      (secondaries : List (Bytes × Bytes)) (mesh : List (Bytes × ServiceHealthInfo))
      → HasAddresses mesh
      → (vs : List TraceInfo) × (service_traces format_time secondaries mesh ≡ some vs)
        × ShowAll (ShowsService format_time secondaries) mesh vs
  unfolding service_traces
  service_traces-ShowAll secondaries [] h = ([], refl, tt)
  service_traces-ShowAll secondaries ((name, d) ∷ mesh) (h, hs) =
      let (v, e, shown) = service_trace-Shows secondaries name d d.address h in
      let (vs, es, all_shown) = service_traces-ShowAll secondaries mesh hs in
      (v ∷ vs, rw e (rw es refl), (shown, all_shown))

  caller_rows-ShowRows :
      (d : ServiceHealthInfo) (address : List Bytes)
      → ShowRows (ShowsCaller format_time d) address (caller_rows format_time d address)
  caller_rows-ShowRows d [] = tt
  caller_rows-ShowRows d (a ∷ address) = ((refl, refl, refl, refl), caller_rows-ShowRows d address)

  caller_trace-Shows :
      (name : Bytes) (d : ServiceHealthInfo) (address : List Bytes)
      → address ≢ []
      → (v : TraceInfo) × (caller_trace format_time name d address ≡ some v)
        × Shows (ShowsCaller format_time d) name address v
  unfolding caller_trace
  caller_trace-Shows name d [] h = absurd (h refl)
  caller_trace-Shows name d (a ∷ address) h =
      (_, refl, (refl, refl, caller_rows-ShowRows d (a ∷ address)))

  caller_traces-ShowAll :
      (mesh : List (Bytes × ServiceHealthInfo))
      → HasAddresses mesh
      → (vs : List TraceInfo) × (caller_traces format_time mesh ≡ some vs)
        × ShowAll (ShowsCaller format_time) mesh vs
  unfolding caller_traces
  caller_traces-ShowAll [] h = ([], refl, tt)
  caller_traces-ShowAll ((name, d) ∷ mesh) (h, hs) =
      let (v, e, shown) = caller_trace-Shows name d d.address h in
      let (vs, es, all_shown) = caller_traces-ShowAll mesh hs in
      (v ∷ vs, rw e (rw es refl), (shown, all_shown))

with_trace-none : (v : Option TraceInfo) → with_trace v none ≡ none
with_trace-none none = refl
with_trace-none (some v) = refl

module _ (format_time : ℕ → Bytes) where
  service_trace_unaddressed :
      (secondaries : List (Bytes × Bytes)) (mesh : List (Bytes × ServiceHealthInfo)) (name : Bytes)
      (d : ServiceHealthInfo)
      → (lookup name mesh ≡ some d)
      → d.address ≡ []
      → service_traces format_time secondaries mesh ≡ none
  unfolding service_traces service_trace
  service_trace_unaddressed secondaries [] name d m e = ground arith
  service_trace_unaddressed secondaries ((k, c) ∷ mesh) name d m e = elim (Bool-cases (k == name)) [
    | inl t ↦
        let same : c ≡ d = ground (arith, m, t) in
        rw (ap (λ (i : ServiceHealthInfo). i.address) same ∙ e) refl
    | inr f ↦
        rw (service_trace_unaddressed secondaries mesh name d (ground (arith, m, f)) e)
          (with_trace-none (service_trace format_time secondaries k c c.address))
  ]

  caller_trace_unaddressed :
      (mesh : List (Bytes × ServiceHealthInfo)) (name : Bytes) (d : ServiceHealthInfo)
      → (lookup name mesh ≡ some d)
      → d.address ≡ []
      → caller_traces format_time mesh ≡ none
  unfolding caller_traces caller_trace
  caller_trace_unaddressed [] name d m e = ground arith
  caller_trace_unaddressed ((k, c) ∷ mesh) name d m e = elim (Bool-cases (k == name)) [
    | inl t ↦
        let same : c ≡ d = ground (arith, m, t) in
        rw (ap (λ (i : ServiceHealthInfo). i.address) same ∙ e) refl
    | inr f ↦
        rw (caller_trace_unaddressed mesh name d (ground (arith, m, f)) e)
          (with_trace-none (caller_trace format_time k c c.address))
  ]

less_trace_asym : (a b : TraceInfo) → less_trace a b ≡ true → less_trace b a ≡ false
less_trace_asym a b h = ground (
  arith,
  h,
  bytes_eq.beq_iff a.trace_name b.trace_name,
  bytes_eq.beq_iff b.trace_name a.trace_name,
  bytes_ltb-IsStrictOrder.asym a.trace_name b.trace_name,
)

less_trace_trans :
    (a b c : TraceInfo) → less_trace b a ≡ false → less_trace c b ≡ false → less_trace c a ≡ false
less_trace_trans a b c h k =
    let x : Bytes = a.trace_name in
    let y : Bytes = b.trace_name in
    let z : Bytes = c.trace_name in
    ground (
      arith,
      h,
      k,
      bytes_eq.beq_iff y x,
      bytes_eq.beq_iff z y,
      bytes_eq.beq_iff z x,
      bytes_ltb-IsStrictOrder.trans x y z,
      bytes_ltb_same y z,
      bytes_ltb_same x y,
    )

pub less_trace-IsStrictOrder : IsStrictOrder less_trace
less_trace-IsStrictOrder = record { asym = less_trace_asym; trans = less_trace_trans }

same_order : (a b : TraceInfo) → less_trace a b ≡ stands_before a b
same_order a b = ground (
  arith,
  bytes_eq.beq_iff a.trace_name b.trace_name,
  bytes_ltb-IsStrictOrder.asym a.trace_name b.trace_name,
)

less_trace-stands_before : less_trace ≡ stands_before
less_trace-stands_before = λ i a b. same_order a b i

module _ (format_time : ℕ → Bytes) (sort : List TraceInfo → List TraceInfo) where
  no_callers :
      (execute : TraceModel → Option Bytes) (h : TraceHead) (k : Keepalive)
      (nodes : Option (List TraceInfo))
      → page_of format_time sort execute (model_of format_time sort h k nodes none) ≡ none
  no_callers execute h k none = refl
  no_callers execute h k (some vs) = refl

  -- The page panics where a service, a configured one or one that has announced itself, has no address.
  pub output_keepalive_statics_unaddressed :
      (execute : TraceModel → Option Bytes) (h : TraceHead) (k : Keepalive) (name : Bytes)
      (d : ServiceHealthInfo)
      → (lookup name k.service_health_mesh ≡ some d) ⊎ (lookup name k.receive_service_mesh ≡ some d)
      → d.address ≡ []
      → output_keepalive_statics format_time sort execute h k ≡ none
  unfolding output_keepalive_statics
  output_keepalive_statics_unaddressed execute h k name d (inl m) e =
      rw
        (service_trace_unaddressed format_time k.primary_to_secondary k.service_health_mesh name d m
          e)
        refl
  output_keepalive_statics_unaddressed execute h k name d (inr m) e =
      rw (caller_trace_unaddressed format_time k.receive_service_mesh name d m e) (
        no_callers execute h k
          (service_traces format_time k.primary_to_secondary k.service_health_mesh))

module _ (format_time : ℕ → Bytes) (sort : List TraceInfo → List TraceInfo)
    (sorts : Sorts less_trace sort) where
  sort_filled_perm : (l : List TraceInfo) → Perm (sort_filled sort l) l
  sort_filled_perm [] = Perm.rfl
  sort_filled_perm (v ∷ vs) = sorts.perm (v ∷ vs)

  sort_filled-IsOrdered : (l : List TraceInfo) → IsOrdered stands_before (sort_filled sort l)
  sort_filled-IsOrdered [] = Pairwise.nil
  sort_filled-IsOrdered (v ∷ vs) =
      subst (λ less. IsOrdered less (sort (v ∷ vs))) less_trace-stands_before
        (sorts.ordered (v ∷ vs))

  pub trace_model-IsTable :
      (h : TraceHead) (k : Keepalive)
      → HasAddresses k.service_health_mesh
      → HasAddresses k.receive_service_mesh
      → (m : TraceModel) × (trace_model format_time sort h k ≡ some m)
        × IsTable (ShowsService format_time k.primary_to_secondary) k.service_health_mesh m.node
        × IsTable (ShowsCaller format_time) k.receive_service_mesh m.trace_caller_service
  unfolding trace_model
  trace_model-IsTable h k a b =
      let (vs, e, shown) =
        service_traces-ShowAll format_time k.primary_to_secondary k.service_health_mesh a in
      let (ws, f, called) = caller_traces-ShowAll format_time k.receive_service_mesh b in
      (
        page_model format_time sort h k vs ws,
        rw e (rw f refl),
        (sort_filled-IsOrdered vs, (vs, sort_filled_perm vs, shown)),
        (sort_filled-IsOrdered ws, (ws, sort_filled_perm ws, called)),
      )
