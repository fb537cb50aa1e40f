-- ===== src/Data/Interpolate/Build.antt =====
-- The loop of `GetBuiltSQL` in data/mysql_interpolate.go: its results, on every path.
use landau.Common.{
  ◌+◌, ◌≤◌, ◌≡◌, ◌≢◌, refl, sym, ◌∙◌, ap, false, List, [], ◌∷◌, ◌++◌, nat_eq, Bytes, length,
  length-append, Option, none, some, arith, append_assoc, subst, count_byte, cut_byte, Option-cases,
  Bool-cases, inl, inr, All,
}
use landau.Data.Interpolate.{
  Runtime, MysqlInterpolate, unmatched, too_large, Built, built, failed, panicked, Value, proceed,
  build, too_long,
}
use landau.Data.Interpolate.Weave.{
  weave, arg_text, attach, append_arg_lem, cut_byte-some, cut_byte-none, weave_no_marks,
}

attach-some :
    (buf : Bytes) (r : Option (Option Bytes)) (out : Bytes)
    → attach buf r ≡ some (some out)
    → (t : Bytes) × (r ≡ some (some t)) × (out ≡ buf ++ t)
attach-some buf none out h = absurd (ground (arith, h))
attach-some buf (some none) out h = absurd (ground (arith, h))
attach-some buf (some (some t)) out h = (t, refl, cc)

module _ (rt : Runtime) where
  -- The texts of all arguments, if each has one.
  abbrev pub texts : MysqlInterpolate → List (Value rt) → Option (List Bytes)
  texts c [] = some []
  texts c (v ∷ vs) = elim (arg_text rt c v) [
    | none ↦ none
    | some none ↦ none
    | some (some t) ↦ elim (texts c vs) [ none ↦ none | some ts ↦ some (t ∷ ts) ]
  ]

  build_round :
      (c : MysqlInterpolate) (q : Bytes) (arg : Value rt) (args : List (Value rt))
      (buf before after : Bytes)
      → cut_byte b'?' q ≡ some (before, after)
      → build rt c q (arg ∷ args) buf
        ≡ proceed rt c arg (build rt c after args) (attach (buf ++ before) (arg_text rt c arg))
  build_round c q arg args buf before after e =
      unfold build in rw (e, build, append_arg_lem rt c (buf ++ before) arg)

  proceed_built :
      (c : MysqlInterpolate) (arg : Value rt) (next : Bytes → Built) (r : Option (Option Bytes))
      {s : Bytes}
      → proceed rt c arg next r ≡ built s
      → (out : Bytes) × (r ≡ some (some out))
        × (next out ≡ built s)
        × (too_long rt c arg out ≡ false)
  proceed_built c arg next none h = unfold proceed in absurd (ground (arith, h))
  proceed_built c arg next (some none) h = unfold proceed in absurd (ground (arith, h))
  proceed_built c arg next (some (some out)) {s} h = elim (Bool-cases (too_long rt c arg out)) [
    | inl e ↦
        let stops : failed too_large ≡ built s = unfold proceed in rw (e, proceed) at h in
        absurd (ground (arith, stops))
    | inr e ↦ (out, refl, unfold proceed in rw (e, proceed) at h, e)
  ]

  pub build_sound :
      (c : MysqlInterpolate) (q : Bytes) (args : List (Value rt)) (buf : Bytes) {s : Bytes}
      → build rt c q args buf ≡ built s
      → (ts : List Bytes) × (texts c args ≡ some ts) × (s ≡ buf ++ weave q ts)
  unfolding build
  build_sound c q [] buf {s} h = elim (Option-cases (cut_byte b'?' q)) [
    | inl e ↦
        let ends : built (buf ++ q) ≡ built s = rw (e, build) at h in
        ([], refl, rw (weave_no_marks q [] (cut_byte-none q e)) (cc))
    | inr (p, e) ↦
        let stops : panicked ≡ built s = rw (e, build) at h in absurd (ground (arith, stops))
  ]
  build_sound c q (arg ∷ args) buf {s} h = elim (Option-cases (cut_byte b'?' q)) [
    | inl e ↦
        let stops : failed unmatched ≡ built s = rw (e, build) at h in
        absurd (ground (arith, stops))
    | inr ((before, after), e) ↦
        let (out, appended, goes, _) =
          proceed_built c arg (build rt c after args) _
            (sym (build_round c q arg args buf before after e) ∙ h) in
        let (t, text, o) = attach-some (buf ++ before) (arg_text rt c arg) out appended in
        let (ts, all, whole) = build_sound c after args out goes in
        (
          t ∷ ts,
          rw (text, texts, all),
          rw (whole, o, (cut_byte-some q before after t ts e).1) (simp append_assoc),
        )
  ]

  texts_cons :
      (c : MysqlInterpolate) (v : Value rt) (vs : List (Value rt)) (ts : List Bytes)
      → texts c (v ∷ vs) ≡ some ts
      → (t : Bytes) × (us : List Bytes) × (arg_text rt c v ≡ some (some t))
        × (texts c vs ≡ some us)
        × (ts ≡ t ∷ us)
  texts_cons c v vs ts h = ground (arith, h)

  -- A buffer that fits the packet at the end fits it in every round.
  fits_now :
      (c : MysqlInterpolate) (arg : Value rt) (out rest : Bytes)
      → length (out ++ rest) + 4 ≤ c.max_allowed_packet
      → too_long rt c arg out ≡ false
  unfolding too_long
  fits_now c arg out rest h = ground (arith, length-append out rest)

  proceed_fits :
      (c : MysqlInterpolate) (arg : Value rt) (next : Bytes → Built) (out : Bytes)
      → too_long rt c arg out ≡ false
      → proceed rt c arg next (some (some out)) ≡ next out
  unfolding proceed
  proceed_fits c arg next out e = rw (e, proceed)

  pub build_complete :
      (c : MysqlInterpolate) (q : Bytes) (args : List (Value rt)) (buf : Bytes) (ts : List Bytes)
      → count_byte b'?' q ≡ length args
      → texts c args ≡ some ts
      → length (buf ++ weave q ts) + 4 ≤ c.max_allowed_packet
      → build rt c q args buf ≡ built (buf ++ weave q ts)
  unfolding build
  build_complete c q [] buf ts n h fits = elim (Option-cases (cut_byte b'?' q)) [
    | inl e ↦ rw (e, build) (rw (weave_no_marks q ts n) refl)
    | inr ((before, after), e) ↦ absurd (omega (arith, (cut_byte-some q before after [] [] e).0))
  ]
  build_complete c q (arg ∷ args) buf ts n h fits = elim (Option-cases (cut_byte b'?' q)) [
    | inl e ↦ absurd (omega (arith, cut_byte-none q e))
    | inr ((before, after), e) ↦
        let (t, us, text, all, cons) = texts_cons c arg args ts h in
        let (count, woven) = cut_byte-some q before after t us e in
        let out : Bytes = (buf ++ before) ++ t in
        let whole : buf ++ weave q ts ≡ out ++ weave after us =
          rw (cons, woven) (simp append_assoc) in
        let room : length (out ++ weave after us) + 4 ≤ c.max_allowed_packet =
          subst (λ x. length x + 4 ≤ c.max_allowed_packet) whole fits in
        build_round c q arg args buf before after e
        ∙ ap (λ r. proceed rt c arg (build rt c after args) (attach (buf ++ before) r)) text
        ∙ proceed_fits c arg (build rt c after args) out (fits_now c arg out (weave after us) room)
        ∙ build_complete c after args out us (omega arith) all room
        ∙ ap built (sym whole)
  ]

  -- With as many arguments as marks, `args[argPos]` and the last comparison never fail: a panic
  -- comes from a date.
  abbrev pub Checked : List (Value rt) → MysqlInterpolate → Built → Type 0
  Checked args c b =
      (b ≢ failed unmatched) × (All (λ v. arg_text rt c v ≢ none) args → b ≢ panicked)

  proceed-Checked :
      (c : MysqlInterpolate) (buf : Bytes) (next : Bytes → Built) (arg : Value rt)
      (args : List (Value rt)) (r : Option (Option Bytes))
      → arg_text rt c arg ≡ r
      → ((out : Bytes) → Checked args c (next out))
      → Checked (arg ∷ args) c (proceed rt c arg next (attach buf r))
  unfolding proceed
  proceed-Checked c buf next arg args none e k = (ground arith, λ h. absurd (h.0 e))
  proceed-Checked c buf next arg args (some none) e k = (ground arith, λ h. ground arith)
  proceed-Checked c buf next arg args (some (some t)) e k =
      elim (Bool-cases (too_long rt c arg (buf ++ t))) [
        | inl long ↦ rw (long, proceed) (ground arith, λ h. ground arith)
        | inr short ↦ rw (short, proceed) ((k (buf ++ t)).0, λ h. (k (buf ++ t)).1 h.1)
      ]

  pub build-Checked :
      (c : MysqlInterpolate) (q : Bytes) (args : List (Value rt)) (buf : Bytes)
      → count_byte b'?' q ≡ length args
      → Checked args c (build rt c q args buf)
  unfolding build
  build-Checked c q [] buf n = elim (Option-cases (cut_byte b'?' q)) [
    | inl e ↦ rw (e, build) (ground arith, λ h. ground arith)
    | inr ((before, after), e) ↦ absurd (omega (arith, (cut_byte-some q before after [] [] e).0))
  ]
  build-Checked c q (arg ∷ args) buf n = elim (Option-cases (cut_byte b'?' q)) [
    | inl e ↦ absurd (omega (arith, cut_byte-none q e))
    | inr ((before, after), e) ↦
        let (count, _) = cut_byte-some q before after [] [] e in
        rw (build_round c q arg args buf before after e) (
          proceed-Checked c (buf ++ before) (build rt c after args) arg args (arg_text rt c arg)
            refl (λ out. build-Checked c after args out (omega arith)))
  ]
