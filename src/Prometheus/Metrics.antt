-- ===== src/Prometheus/Metrics.antt =====
-- prometheus/metrics.go: the names of the metrics and their labels, and the count of the requests. A
-- vector keeps the lists of values that it was given. Whether the client library takes a list of values
-- for the labels of a vector is a parameter: `WithLabelValues` panics on the lists that it does not
-- take. Durations and the server are left out.
mod Counts
mod Tests
use landau.Common.{
  ℕ, zero, suc, ◌+◌, Bool, true, false, List, [], ◌∷◌, ◌++◌, ◌==◌, bytes_eq, Bytes, codes, Option,
  none, some, if◌then◌else◌, ℤ, format_int,
}

pub record DescTag : Type 0 where
  pub name : Bytes
  pub help : Bytes
  pub enable : Bool

-- A vector of the client library: its name and labels, and the values that it was given.
pub record Vec : Type 0 where
  pub vec_namespace : Bytes
  pub vec_name : Bytes
  pub vec_help : Bytes
  pub label_names : List Bytes
  pub seen : List (List Bytes)

-- The package's variables.
pub record Metrics : Type 0 where
  pub namespace : Bytes
  pub node_id : Bytes
  pub variable_labels : List Bytes
  pub extra_labels : List Bytes
  pub default_collector : List DescTag
  pub get_extra_value : Option (Bytes → Bytes → List Bytes)
  pub uptime : Option Vec
  pub req_count : Option Vec
  pub req_duration : Option Vec

abbrev pub initial_metrics : Metrics
initial_metrics = record {
  namespace = [];
  node_id = [];
  variable_labels =
      codes "ret_code"
      ∷ codes "action"
      ∷ codes "method"
      ∷ codes "uri"
      ∷ codes "service"
      ∷ codes "node_id"
      ∷ [];
  extra_labels = [];
  default_collector =
      (record { name = codes "uptime"; help = codes "HTTP service uptime"; enable = true })
      ∷ (record {
        name = codes "http_request_count_total";
        help = codes "Total number of HTTP requests made";
        enable = true;
      })
      ∷ (record {
        name = codes "http_request_duration_seconds";
        help = codes "HTTP request latencies in seconds";
        enable = true;
      })
      ∷ [];
  get_extra_value = none;
  uptime = none;
  req_count = none;
  req_duration = none;
}

unfoldable pub set_namespace : Bytes → Metrics → Metrics
set_namespace v s = record s { namespace = v }

unfoldable pub set_node_id : Bytes → Metrics → Metrics
set_node_id v s = record s { node_id = v }

unfoldable pub set_extra_label :
    List Bytes → Option (Bytes → Bytes → List Bytes) → Metrics → Metrics
set_extra_label labels f s = record s { extra_labels = labels; get_extra_value = f }

-- The loop of `SetVariableLabels` and of `SetDefaultPrometheusCollector`: as many as both lists have.
abbrev pub overwrite {ℓ} : {A : Type ℓ} → List A → List A → List A
overwrite [] old = old
overwrite (v ∷ vs) [] = []
overwrite (v ∷ vs) (w ∷ old) = v ∷ overwrite vs old

unfoldable pub set_variable_labels : List Bytes → Metrics → Metrics
set_variable_labels labels s = record s { variable_labels = overwrite labels s.variable_labels }

unfoldable pub set_default_prometheus_collector : List DescTag → Metrics → Metrics
set_default_prometheus_collector pc s = record s {
  default_collector = overwrite pc s.default_collector;
}

abbrev pub new_vec : Metrics → DescTag → List Bytes → Vec
new_vec s dc labels = record {
  vec_namespace = s.namespace;
  vec_name = dc.name;
  vec_help = dc.help;
  label_names = labels;
  seen = [];
}

abbrev pub request_labels : Metrics → List Bytes
request_labels s = s.variable_labels ++ s.extra_labels

-- The `switch` of `StartApiMetric`, by the index, for a metric that is enabled.
abbrev pub add_collector : ℕ → DescTag → Metrics × List Vec → Metrics × List Vec
add_collector zero dc (s, pcs) =
    let v = new_vec s dc (codes "service" ∷ codes "node_id" ∷ []) in
    (record s { uptime = some v }, pcs ++ v ∷ [])
add_collector (suc zero) dc (s, pcs) =
    let v = new_vec s dc (request_labels s) in (record s { req_count = some v }, pcs ++ v ∷ [])
add_collector (suc (suc zero)) dc (s, pcs) =
    let v = new_vec s dc (request_labels s) in (record s { req_duration = some v }, pcs ++ v ∷ [])
add_collector (suc (suc (suc index))) dc (s, pcs) = (s, pcs)

-- The loop of `StartApiMetric`, which registers what it gives before it serves; the port is only
-- looked at for a message.
unfoldable pub add_collectors : ℕ → List DescTag → Metrics × List Vec → Metrics × List Vec
add_collectors index [] p = p
add_collectors index (dc ∷ tags) p =
    add_collectors (suc index) tags (if dc.enable then add_collector index dc p else p)

unfoldable pub start_api_metric : Metrics → Metrics × List Vec
unfolding add_collectors
start_api_metric s = add_collectors 0 s.default_collector (s, [])

-- `GetExtraLabelValue`.
unfoldable pub get_extra_label_value : Metrics → Bytes → Bytes → List Bytes
get_extra_label_value s action url = elim (s.get_extra_value) [ none ↦ [] | some f ↦ f action url ]

-- What is observed of a request.
pub record Served : Type 0 where
  pub code : ℤ
  pub action : Bytes
  pub method : Bytes
  pub url_path : Bytes
  pub uri : Bytes
  pub extra_values : List Bytes

unfoldable pub label_values : Metrics → Served → List Bytes
label_values s r =
    format_int r.code
    ∷ r.action
    ∷ r.method
    ∷ (if r.uri == [] then r.url_path else r.uri)
    ∷ s.namespace
    ∷ s.node_id
    ∷ r.extra_values

-- `takes` says of the names of the labels and a list of values whether `WithLabelValues` takes them.
module _ (takes : List Bytes → List Bytes → Bool) where
  -- `WithLabelValues(lvs...)` with `Inc` or `Observe`, if the vector is there; none is a panic.
  abbrev pub observe : List Bytes → Option Vec → Option (Option Vec)
  observe lvs none = some none
  observe lvs (some v) =
      if takes v.label_names lvs then some (some (record v { seen = lvs ∷ v.seen })) else none

  abbrev with_duration : Metrics → Option (Option Vec) → Metrics × Bool
  with_duration s none = (s, true)
  with_duration s (some v) = (record s { req_duration = v }, false)

  abbrev with_count : List Bytes → Metrics → Option (Option Vec) → Metrics × Bool
  with_count lvs s none = (s, true)
  with_count lvs s (some v) =
      with_duration (record s { req_count = v }) (observe lvs s.req_duration)

  -- `UpdateApiMetric`, and whether it panics.
  unfoldable pub update_api_metric : Served → Metrics → Metrics × Bool
  unfolding label_values
  update_api_metric r s = with_count (label_values s r) s (observe (label_values s r) s.req_count)
