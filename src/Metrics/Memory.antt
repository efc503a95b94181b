-- ===== src/Metrics/Memory.antt =====
-- Metrics as functions of their labels: an instance of the interface of the Prometheus client.
use distributed_task_schedul.Metrics.Client.{Prometheus, labels_eq}
use distributed_task_schedul.Prelude.{List, String, ℕ, if◌then◌else◌, ◌+◌, ℤ, pos, [], ◌∷◌, refl}

abbrev pub plain_metrics : Prometheus
plain_metrics = record {
  Counter = List String → ℕ;
  new_counter = λ l. 0;
  count = λ l c. c l;
  add = λ k n c l. if labels_eq k l then c l + n else c l;
  Gauge = List String → ℤ;
  new_gauge = λ l. pos 0;
  value = λ l g. g l;
  set = λ k x g l. if labels_eq k l then x else g l;
  Histogram = List (List String × ℤ);
  new_histogram = [];
  observe = λ k x h. (k, x) ∷ h;
  count-new_counter = λ l. refl;
  count-add = λ k n c l. refl;
  value-set = λ k x g l. refl;
}
