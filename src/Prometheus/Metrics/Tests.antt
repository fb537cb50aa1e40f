-- ===== src/Prometheus/Metrics/Tests.antt =====
-- A witness of the metrics.
use landau.Common.{
  ◌≡◌, refl, Bool, true, false, ◌&&◌, List, [], ◌∷◌, ◌==◌, nat_eq, Bytes, codes, some, pos, length,
  leb, format_int,
}
use landau.Prometheus.Metrics.{
  Served, label_values, start_api_metric, set_namespace, set_variable_labels, set_extra_label,
}
use landau.Prometheus.Metrics.Counts.{
  Setting, of_namespace, of_extra_label, of_variable_labels, served_all,
  served_all-start_api_metric, started, note_all, all_of, TakesValid,
}

abbrev shop_settings : List Setting
shop_settings =
    of_namespace (codes "shop")
    ∷ of_variable_labels (codes "code" ∷ [])
    ∷ of_extra_label (codes "tenant" ∷ []) (some (λ action url. codes "t1" ∷ []))
    ∷ []

abbrev two_requests : List Served
two_requests =
    (record {
      code = pos 0;
      action = codes "list";
      method = codes "GET";
      url_path = codes "/";
      uri = [];
      extra_values = codes "t1" ∷ [];
    })
    ∷ (record {
      code = pos 500;
      action = codes "pay";
      method = codes "POST";
      url_path = codes "/";
      uri = codes "/pay";
      extra_values = codes "t2" ∷ [];
    })
    ∷ []

-- A library that takes plain ASCII values only, as many as there are labels.
abbrev plain_bytes : Bytes → Bool
plain_bytes [] = true
plain_bytes (c ∷ s) = leb c 127 && plain_bytes s

abbrev same_length : List Bytes → List Bytes → Bool
same_length labels values = (length values == length labels) && all_of plain_bytes values

same_length_taken : TakesValid plain_bytes same_length
same_length_taken labels values e ok =
    rw ((nat_eq.beq_iff (length values) (length labels)).1 e, ok) refl

served_all-start_api_metric_example :
    served_all same_length two_requests (started shop_settings) ≡ (
      record (started shop_settings) {
        req_count = note_all (started shop_settings) two_requests (started shop_settings).req_count;
        req_duration =
            note_all (started shop_settings) two_requests (started shop_settings).req_duration;
      },
      false,
    )
unfolding format_int label_values start_api_metric set_namespace set_variable_labels set_extra_label
served_all-start_api_metric_example =
    served_all-start_api_metric plain_bytes same_length same_length_taken shop_settings two_requests
      (refl, refl, (refl, refl, tt))
