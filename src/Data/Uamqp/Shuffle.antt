-- ===== src/Data/Uamqp/Shuffle.antt =====
-- data/uamqp/exchange.go: the nodes in a random order, and which of them is connected.
use mathlib.Core.List.{Perm, foldr}
use mathlib.Core.List.Perm
use landau.Common.{
  ℕ, zero, suc, ◌+◌, ◌-◌, ◌<◌, Bool, true, false, List, [], ◌∷◌, if◌then◌else◌, Option, none, some,
  ltb, length, get_elem?, ◌≡◌, refl, arith, inl, inr, Bool-cases, sym, ◌∙◌, is_some, ap, subst,
  if_elim, lt→ltb,
}
use landau.Data.RabbitConsumer.{NodeOptions}
use landau.Data.Uamqp.{
  set, swap, swapped, shuffle_from, shuffle_nodes, Broker, Exchange, Connection, fine, dial_first,
  dialed, refresh_conn, close_conn,
}

set_perm :
    (xs : List NodeOptions) (i : ℕ) (a v : NodeOptions)
    → get_elem? xs i ≡ some a
    → Perm (a ∷ set xs i v) (v ∷ xs)
set_perm [] i a v h = cc
set_perm (x ∷ xs) zero a v h =
    let same : x ≡ a = cc in
    subst (λ y. Perm (a ∷ v ∷ xs) (v ∷ y ∷ xs)) (sym same) (Perm.swap v a xs)
set_perm (x ∷ xs) (suc i) a v h =
    Perm.trans (Perm.swap x a (set xs i v))
      (Perm.trans (Perm.cons x (set_perm xs i a v h)) (Perm.swap v x xs))

get_elem?-set :
    (xs : List NodeOptions) (i j : ℕ) (a b : NodeOptions)
    → get_elem? xs i ≡ some a
    → get_elem? xs j ≡ some b
    → get_elem? (set xs i b) j ≡ some b
get_elem?-set [] i j a b h k = cc
get_elem?-set (x ∷ xs) zero zero a b h k = refl
get_elem?-set (x ∷ xs) zero (suc j) a b h k = k
get_elem?-set (x ∷ xs) (suc i) zero a b h k = k
get_elem?-set (x ∷ xs) (suc i) (suc j) a b h k = get_elem?-set xs i j a b h k

swapped_perm :
    (i j : ℕ) (oa ob : Option NodeOptions) (xs : List NodeOptions)
    → get_elem? xs i ≡ oa
    → get_elem? xs j ≡ ob
    → Perm (swapped i j oa ob xs) xs
swapped_perm i j none ob xs h k = Perm.rfl
swapped_perm i j (some a) none xs h k = Perm.rfl
swapped_perm i j (some a) (some b) xs h k =
    Perm.cons_inv (
      Perm.trans (set_perm (set xs i b) j b a (get_elem?-set xs i j a b h k)) (set_perm xs i a b h))

swap_perm : (i j : ℕ) (xs : List NodeOptions) → Perm (swap i j xs) xs
swap_perm i j xs = swapped_perm i j (get_elem? xs i) (get_elem? xs j) xs refl refl

module _ (pick : ℕ → ℕ) where
  shuffle_from_perm : (i : ℕ) (xs : List NodeOptions) → Perm (shuffle_from pick i xs) xs
  unfolding shuffle_from
  shuffle_from_perm zero xs = Perm.rfl
  shuffle_from_perm (suc i) xs =
      Perm.trans (shuffle_from_perm i (swap (suc i) (pick (suc i)) xs))
        (swap_perm (suc i) (pick (suc i)) xs)

  shuffle_nodes_perm : (xs : List NodeOptions) → Perm (shuffle_nodes pick xs) xs
  unfolding shuffle_nodes
  shuffle_nodes_perm xs =
      if_elim (λ l. Perm l xs) (ltb 1 (length xs)) (shuffle_from pick (length xs - 1) xs) xs
        (λ _. shuffle_from_perm (length xs - 1) xs) (λ _. Perm.rfl)

abbrev pub is_live : Option Connection → Bool
is_live none = false
is_live (some c) = c.is_open

is_live-close_conn : (o : Option Connection) → is_live (close_conn o) ≡ false
is_live-close_conn none = refl
is_live-close_conn (some c) = refl

module _ (b : Broker) where
  -- How many of the nodes accept a connection.
  abbrev pub accepting : List NodeOptions → ℕ
  accepting = foldr (λ n k. (if b.dial n then 1 else 0) + k) 0

  accepting_perm : {l r : List NodeOptions} → Perm l r → accepting l ≡ accepting r
  accepting_perm p =
      Perm.foldr-eq (hlevel) (λ n k. (if b.dial n then 1 else 0) + k) (λ m n k. omega arith) p 0

  dial_first-accepting :
      (nodes : List NodeOptions) → is_some (dial_first b nodes) ≡ ltb 0 (accepting nodes)
  unfolding dial_first
  dial_first-accepting [] = refl
  dial_first-accepting (n ∷ nodes) = elim (Bool-cases (b.dial n)) [
    | inl t ↦ rw t (ground arith)
    | inr f ↦ rw f (dial_first-accepting nodes ∙ ground arith)
  ]

  is_live-dialed :
      (o : Option NodeOptions) (old : Option Connection) (nodes : List NodeOptions)
      → is_live (dialed b o (close_conn old) nodes).0.conn ≡ is_some o
  is_live-dialed none old nodes = is_live-close_conn old
  is_live-dialed (some n) old nodes = refl

  dialed_nodes :
      (o : Option NodeOptions) (old : Option Connection) (nodes : List NodeOptions)
      → (dialed b o old nodes).0.nodes ≡ nodes
  dialed_nodes none old nodes = refl
  dialed_nodes (some n) old nodes = refl

  refresh_conn_perm :
      (pick : ℕ → ℕ) (ex : Exchange) → Perm (refresh_conn b pick ex).0.nodes ex.nodes
  unfolding refresh_conn
  refresh_conn_perm pick ex =
      subst (λ l. Perm l ex.nodes)
        (sym (
          dialed_nodes (dial_first b (shuffle_nodes pick ex.nodes)) (close_conn ex.conn)
            (shuffle_nodes pick ex.nodes)))
        (shuffle_nodes_perm pick ex.nodes)

  pub is_live-refresh_conn :
      (pick : ℕ → ℕ) (ex : Exchange)
      → is_live (refresh_conn b pick ex).0.conn ≡ ltb 0 (accepting ex.nodes)
  unfolding refresh_conn
  is_live-refresh_conn pick ex =
      is_live-dialed (dial_first b (shuffle_nodes pick ex.nodes)) ex.conn
        (shuffle_nodes pick ex.nodes)
      ∙ dial_first-accepting (shuffle_nodes pick ex.nodes)
      ∙ ap (ltb 0) (accepting_perm (shuffle_nodes_perm pick ex.nodes))

  -- Whatever the random order, a new connection keeps the nodes that there are, and is open exactly if
  -- one of them accepts it.
  pub refresh_conn_connects :
      (pick : ℕ → ℕ) (ex : Exchange)
      → Perm (refresh_conn b pick ex).0.nodes ex.nodes
        × (is_live (refresh_conn b pick ex).0.conn ≡ ltb 0 (accepting ex.nodes))
  refresh_conn_connects pick ex = (refresh_conn_perm pick ex, is_live-refresh_conn pick ex)

  pub accepting-refresh_conn :
      (pick : ℕ → ℕ) (ex : Exchange)
      → accepting (refresh_conn b pick ex).0.nodes ≡ accepting ex.nodes
  accepting-refresh_conn pick ex = accepting_perm (refresh_conn_perm pick ex)

  dialed_fine :
      (o : Option NodeOptions) (old : Option Connection) (nodes : List NodeOptions)
      → is_some o ≡ true
      → (dialed b o old nodes).1 ≡ fine
  dialed_fine none old nodes h = cc
  dialed_fine (some n) old nodes h = refl

  pub refresh_conn_fine :
      (pick : ℕ → ℕ) (ex : Exchange) → 0 < accepting ex.nodes → (refresh_conn b pick ex).1 ≡ fine
  unfolding refresh_conn
  refresh_conn_fine pick ex h =
      dialed_fine (dial_first b (shuffle_nodes pick ex.nodes)) (close_conn ex.conn)
        (shuffle_nodes pick ex.nodes)
        (dial_first-accepting (shuffle_nodes pick ex.nodes)
          ∙ ap (ltb 0) (accepting_perm (shuffle_nodes_perm pick ex.nodes))
          ∙ lt→ltb 0 (accepting ex.nodes) h)
