-- ===== src/Prometheus.antt =====
-- Package prometheus: the metrics of the served requests.
pub mod Metrics
