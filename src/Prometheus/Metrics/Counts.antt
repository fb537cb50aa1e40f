-- ===== src/Prometheus/Metrics/Counts.antt =====
-- prometheus/metrics.go: what the metrics of the requests have counted, from the settings of a program on.
use landau.Common.{
  ◌≡◌, refl, sym, ◌∙◌, ℕ, suc, zero, Bool, true, false, ◌||◌, ◌&&◌, List, [], ◌∷◌, Bytes, Option,
  none, some, if◌then◌else◌, length, length-append, arith,
}
use landau.Prometheus.Metrics.{
  DescTag, Vec, Metrics, initial_metrics, set_namespace, set_node_id, set_extra_label, overwrite,
  set_variable_labels, set_default_prometheus_collector, request_labels, add_collector,
  add_collectors, start_api_metric, observe, Served, label_values, update_api_metric,
}

-- The calls that come before the start.
pub data Setting : Type 0 where
  of_namespace of_node_id : Bytes → Setting
  of_extra_label : List Bytes → Option (Bytes → Bytes → List Bytes) → Setting
  of_variable_labels : List Bytes → Setting
  of_collector : List DescTag → Setting

abbrev pub apply_setting : Setting → Metrics → Metrics
apply_setting (of_namespace v) s = set_namespace v s
apply_setting (of_node_id v) s = set_node_id v s
apply_setting (of_extra_label labels f) s = set_extra_label labels f s
apply_setting (of_variable_labels labels) s = set_variable_labels labels s
apply_setting (of_collector tags) s = set_default_prometheus_collector tags s

abbrev pub apply_settings : List Setting → Metrics → Metrics
apply_settings [] s = s
apply_settings (t ∷ settings) s = apply_settings settings (apply_setting t s)

-- The metrics of a program that makes the settings and starts.
abbrev pub started : List Setting → Metrics
started settings = (start_api_metric (apply_settings settings initial_metrics)).0

-- The requests of a program that runs, and whether one of them panics.
abbrev pub served_all : (List Bytes → List Bytes → Bool) → List Served → Metrics → Metrics × Bool
served_all takes [] s = (s, false)
served_all takes (r ∷ rs) s =
    let (s', panicked) = update_api_metric takes r s in
    let (s'', more) = served_all takes rs s' in (s'', panicked || more)

-- A vector that was given one list of values more, if it is there.
abbrev pub note : List Bytes → Option Vec → Option Vec
note lvs none = none
note lvs (some v) = some (record v { seen = lvs ∷ v.seen })

-- One list of values for each request.
abbrev pub note_all : Metrics → List Served → Option Vec → Option Vec
note_all s [] o = o
note_all s (r ∷ rs) o = note_all s rs (note (label_values s r) o)

abbrev pub all_of : (Bytes → Bool) → List Bytes → Bool
all_of valid [] = true
all_of valid (v ∷ vs) = valid v && all_of valid vs

-- The client library takes as many values as there are labels if each of them is valid; the library
-- documents the panic otherwise.
abbrev pub TakesValid : (Bytes → Bool) → (List Bytes → List Bytes → Bool) → Type 0
TakesValid valid takes =
    (labels values : List Bytes)
    → length values ≡ length labels
    → all_of valid values ≡ true
    → takes labels values ≡ true

-- Each request has as many extra values as there are extra labels, and its values are valid.
abbrev pub HaveValues : (Bytes → Bool) → Metrics → List Served → Type 0
HaveValues valid s [] = Unit
HaveValues valid s (r ∷ rs) =
    (length r.extra_values ≡ length s.extra_labels)
    × (all_of valid (label_values s r) ≡ true)
    × HaveValues valid s rs

length-overwrite : {A : Type 0} (vs old : List A) → length (overwrite vs old) ≡ length old
length-overwrite [] old = refl
length-overwrite (v ∷ vs) [] = refl
length-overwrite (v ∷ vs) (w ∷ old) = omega (arith, length-overwrite vs old)

abbrev IsWide : ℕ → Option Vec → Type 0
IsWide n none = Unit
IsWide n (some v) = length v.label_names ≡ n

-- Both metrics of the requests have the labels of the settings, six of them built in.
abbrev IsServing : Metrics → Type 0
IsServing s =
    (length s.variable_labels ≡ 6)
    × IsWide (length (request_labels s)) s.req_count
    × IsWide (length (request_labels s)) s.req_duration

abbrev IsIdle : Metrics → Type 0
IsIdle s = (length s.variable_labels ≡ 6) × (s.req_count ≡ none) × (s.req_duration ≡ none)

apply_setting-IsIdle : (t : Setting) (s : Metrics) → IsIdle s → IsIdle (apply_setting t s)
unfolding set_namespace set_node_id set_extra_label set_variable_labels
    set_default_prometheus_collector
apply_setting-IsIdle (of_namespace v) s h = h
apply_setting-IsIdle (of_node_id v) s h = h
apply_setting-IsIdle (of_extra_label labels f) s h = h
apply_setting-IsIdle (of_variable_labels labels) s (h, c, d) =
    (length-overwrite labels s.variable_labels ∙ h, c, d)
apply_setting-IsIdle (of_collector tags) s h = h

apply_settings-IsIdle :
    (settings : List Setting) (s : Metrics) → IsIdle s → IsIdle (apply_settings settings s)
apply_settings-IsIdle [] s h = h
apply_settings-IsIdle (t ∷ settings) s h =
    apply_settings-IsIdle settings (apply_setting t s) (apply_setting-IsIdle t s h)

IsIdle-IsServing : (s : Metrics) → IsIdle s → IsServing s
IsIdle-IsServing s (h, c, d) = (h, rw c tt, rw d tt)

add_collector-IsServing :
    (index : ℕ) (dc : DescTag) (p : Metrics × List Vec)
    → IsServing p.0
    → IsServing (add_collector index dc p).0
add_collector-IsServing zero dc (s, pcs) h = h
add_collector-IsServing (suc zero) dc (s, pcs) (h, c, d) = (h, refl, d)
add_collector-IsServing (suc (suc zero)) dc (s, pcs) (h, c, d) = (h, c, refl)
add_collector-IsServing (suc (suc (suc index))) dc (s, pcs) h = h

chosen-IsServing :
    (enabled : Bool) (index : ℕ) (dc : DescTag) (p : Metrics × List Vec)
    → IsServing p.0
    → IsServing (if enabled then add_collector index dc p else p).0
chosen-IsServing true index dc p h = add_collector-IsServing index dc p h
chosen-IsServing false index dc p h = h

add_collectors-IsServing :
    (index : ℕ) (tags : List DescTag) (p : Metrics × List Vec)
    → IsServing p.0
    → IsServing (add_collectors index tags p).0
unfolding add_collectors
add_collectors-IsServing index [] p h = h
add_collectors-IsServing index (dc ∷ tags) p h =
    add_collectors-IsServing (suc index) tags (if dc.enable then add_collector index dc p else p)
      (chosen-IsServing dc.enable index dc p h)

abbrev noted_state : Served → Metrics → Metrics
noted_state r s = record s {
  req_count = note (label_values s r) s.req_count;
  req_duration = note (label_values s r) s.req_duration;
}

note-IsWide : (n : ℕ) (lvs : List Bytes) (o : Option Vec) → IsWide n o → IsWide n (note lvs o)
note-IsWide n lvs none h = h
note-IsWide n lvs (some v) h = h

note_all-noted_state :
    (q : Served) (s : Metrics) (rs : List Served) (o : Option Vec)
    → note_all (noted_state q s) rs o ≡ note_all s rs o
unfolding label_values
note_all-noted_state q s [] o = refl
note_all-noted_state q s (r ∷ rs) o = note_all-noted_state q s rs (note (label_values s r) o)

HaveValues-noted_state :
    (valid : Bytes → Bool) (q : Served) (s : Metrics) (rs : List Served)
    → HaveValues valid s rs
    → HaveValues valid (noted_state q s) rs
unfolding label_values
HaveValues-noted_state valid q s [] h = tt
HaveValues-noted_state valid q s (r ∷ rs) (e, ok, es) =
    (e, ok, HaveValues-noted_state valid q s rs es)

module _ (valid : Bytes → Bool) (takes : List Bytes → List Bytes → Bool)
    (valid_taken : TakesValid valid takes) where
  observe-note :
      (n : ℕ) (lvs : List Bytes) (o : Option Vec)
      → IsWide n o
      → length lvs ≡ n
      → all_of valid lvs ≡ true
      → observe takes lvs o ≡ some (note lvs o)
  observe-note n lvs none w e ok = refl
  observe-note n lvs (some v) w e ok = rw (valid_taken v.label_names lvs (e ∙ sym w) ok) refl

  update_noted :
      (r : Served) (s : Metrics)
      → IsServing s
      → length r.extra_values ≡ length s.extra_labels
      → all_of valid (label_values s r) ≡ true
      → update_api_metric takes r s ≡ (noted_state r s, false)
  unfolding update_api_metric label_values
  update_noted r s (h, c, d) e ok =
      let labels = length-append s.variable_labels s.extra_labels in
      let n = length (request_labels s) in
      let width : length (label_values s r) ≡ n = omega arith in
      rw (observe-note n (label_values s r) s.req_count c width ok)
        (rw (observe-note n (label_values s r) s.req_duration d width ok) refl)

  served_noted :
      (rs : List Served) (s : Metrics)
      → IsServing s
      → HaveValues valid s rs
      → served_all takes rs s ≡ (
        record s {
          req_count = note_all s rs s.req_count;
          req_duration = note_all s rs s.req_duration;
        },
        false,
      )
  served_noted [] s h e = refl
  served_noted (r ∷ rs) s (h, c, d) (e, ok, es) =
      let n = length (request_labels s) in
      let lvs = label_values s r in
      let rest =
        served_noted rs (noted_state r s)
          (h, note-IsWide n lvs s.req_count c, note-IsWide n lvs s.req_duration d)
          (HaveValues-noted_state valid r s rs es) in
      rw (update_noted r s (h, c, d) e ok) (
        rw rest (
          rw (note_all-noted_state r s rs (note lvs s.req_count))
            (rw (note_all-noted_state r s rs (note lvs s.req_duration)) refl)))

  pub served_all-start_api_metric :
      (settings : List Setting) (rs : List Served)
      → HaveValues valid (started settings) rs
      → served_all takes rs (started settings) ≡ (
        record (started settings) {
          req_count = note_all (started settings) rs (started settings).req_count;
          req_duration = note_all (started settings) rs (started settings).req_duration;
        },
        false,
      )
  unfolding start_api_metric
  served_all-start_api_metric settings rs e =
      let s = apply_settings settings initial_metrics in
      let idle = apply_settings-IsIdle settings initial_metrics (refl, refl, refl) in
      served_noted rs (started settings)
        (add_collectors-IsServing 0 s.default_collector (s, []) (IsIdle-IsServing s idle)) e
