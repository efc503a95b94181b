-- ===== src/Metrics.antt =====
-- internal/metrics/prometheus.go: the collector, over an interface of the Prometheus client. Counters
-- and gauges of the program hold whole numbers; a duration is observed in nanoseconds.
pub mod Client
pub mod Collector
pub mod Memory
