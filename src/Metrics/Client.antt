-- ===== src/Metrics/Client.antt =====
-- What internal/metrics/prometheus.go uses of the Prometheus client: vectors of counters, gauges and
-- histograms. A metric without labels is a vector whose only key is the empty list.
use distributed_task_schedul.Prelude.{
  List, String, Bool, ℕ, ◌≡◌, ℤ, true, if◌then◌else◌, ◌∷◌, ◌+◌, arith, eq_iff, [], false, refl,
  str_eq, ◌&&◌,
}

unfoldable pub labels_eq : List String → List String → Bool
labels_eq [] [] = true
labels_eq [] (l ∷ ls) = false
labels_eq (k ∷ ks) [] = false
labels_eq (k ∷ ks) (l ∷ ls) = let rest = labels_eq ks ls in str_eq k l && rest

pub record Prometheus : Type 1 where
  pub Counter : Type 0
  pub new_counter : Counter
  pub count : List String → Counter → ℕ
  pub add : List String → ℕ → Counter → Counter
  pub Gauge : Type 0
  pub new_gauge : Gauge
  pub value : List String → Gauge → ℤ
  pub set : List String → ℤ → Gauge → Gauge
  pub Histogram : Type 0
  pub new_histogram : Histogram
  pub observe : List String → (duration : ℤ) → Histogram → Histogram
  pub count-new_counter : (l : List String) → count l new_counter ≡ 0
  pub count-add :
      (k : List String) (n : ℕ) (c : Counter) (l : List String)
      → count l (add k n c) ≡ (if labels_eq k l then count l c + n else count l c)
  pub value-set :
      (k : List String) (x : ℤ) (g : Gauge) (l : List String)
      → value l (set k x g) ≡ (if labels_eq k l then x else value l g)

pub labels_eq_refl : (l : List String) → labels_eq l l ≡ true
unfolding labels_eq
labels_eq_refl [] = refl
labels_eq_refl (x ∷ xs) = ground (arith, labels_eq_refl xs, eq_iff x x)
