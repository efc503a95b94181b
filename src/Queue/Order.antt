-- ===== src/Queue/Order.antt =====
-- The order in which jobs that wait are to be served: by priority, and in a priority the oldest first
-- (the loop of dequeueScript in internal/queue/redis.go).
use mathlib.Core.Option.{some-injective}
use distributed_task_schedul.Prelude.{
  List, ℕ, ◌∷◌, ℤ, ◌≡◌, ◌++◌, pos, none, some, eqb_ℤ, [], if◌then◌else◌, refl, ap, false,
  Option-cases, inl, arith, inr, ◌==◌, subst, Option,
}
use distributed_task_schedul.Queue.Redis.{get_last?, drop_last}
use distributed_task_schedul.Queue.Pool.{next}

-- A ready queue from the job that has waited longest to the latest.
unfoldable pub oldest_first : List ℕ → List ℕ
oldest_first [] = []
oldest_first (x ∷ xs) = oldest_first xs ++ (x ∷ [])

-- All ids that wait, priority by priority, and in a priority the oldest first.
unfoldable pub in_order : List ℕ → (ℤ → List ℕ) → List ℕ
in_order [] waiting = []
in_order (p ∷ ps) waiting = oldest_first (waiting (pos p)) ++ in_order ps waiting

get_last?-some : (x : ℕ) (xs : List ℕ) → (i : ℕ) × (get_last? (x ∷ xs) ≡ some i)
unfolding get_last?
get_last?-some x [] = (x, refl)
get_last?-some x (y ∷ xs) = get_last?-some y xs

oldest_first-none : (xs : List ℕ) → get_last? xs ≡ none → oldest_first xs ≡ []
unfolding oldest_first
oldest_first-none [] h = refl
oldest_first-none (x ∷ xs) h = let (i, e) = get_last?-some x xs in cc (e, h)

oldest_first-last :
    (xs : List ℕ) (i : ℕ)
    → get_last? xs ≡ some i
    → oldest_first xs ≡ i ∷ oldest_first (drop_last xs)
unfolding get_last? drop_last oldest_first
oldest_first-last [] i h = cc h
oldest_first-last (x ∷ []) i h = ap (λ k. k ∷ []) (some-injective x i h)
oldest_first-last (x ∷ y ∷ xs) i h = ap (λ ys. ys ++ (x ∷ [])) (oldest_first-last (y ∷ xs) i h)

-- A priority is not in a list of priorities.
abbrev pub Absent : ℕ → List ℕ → Type 0
Absent p [] = Unit
Absent p (q ∷ qs) = ((p == q) ≡ false) × Absent p qs

abbrev pub Different : List ℕ → Type 0
Different [] = Unit
Different (p ∷ ps) = Absent p ps × Different ps

-- What is left after the oldest job of a priority is taken.
unfoldable pub without : ℕ → (ℤ → List ℕ) → ℤ → List ℕ
without p waiting x = if eqb_ℤ (pos p) x then drop_last (waiting x) else waiting x

without-away :
    (p q : ℕ) (waiting : ℤ → List ℕ)
    → (p == q) ≡ false
    → without p waiting (pos q) ≡ waiting (pos q)
unfolding without
without-away p q waiting e = ground (arith, e)

without-same :
    (p : ℕ) (waiting : ℤ → List ℕ) → without p waiting (pos p) ≡ drop_last (waiting (pos p))
unfolding without
without-same p waiting = ground arith

in_order-without :
    (p : ℕ) (ps : List ℕ) (waiting : ℤ → List ℕ)
    → Absent p ps
    → in_order ps (without p waiting) ≡ in_order ps waiting
unfolding in_order
in_order-without p [] waiting a = refl
in_order-without p (q ∷ qs) waiting (e, a) =
    rw (without-away p q waiting e, in_order-without p qs waiting a) refl

pub in_order-none :
    (ps : List ℕ) (waiting : ℤ → List ℕ) → next ps waiting ≡ none → in_order ps waiting ≡ []
unfolding in_order next
in_order-none [] waiting h = refl
in_order-none (p ∷ ps) waiting h = elim (Option-cases (get_last? (waiting (pos p)))) [
  | inl e ↦
      rw (oldest_first-none (waiting (pos p)) e) (in_order-none ps waiting (ground (arith, h, e)))
  | inr (i, e) ↦ ground (arith, h, e)
]

next-Absent :
    (q : ℕ) (ps : List ℕ) (waiting : ℤ → List ℕ) (p i : ℕ)
    → Absent q ps
    → next ps waiting ≡ some (p, i)
    → (p == q) ≡ false
unfolding next
next-Absent q [] waiting p i a h = cc h
next-Absent q (x ∷ xs) waiting p i (e, a) h = elim (Option-cases (get_last? (waiting (pos x)))) [
  | inl n ↦ next-Absent q xs waiting p i a (ground (arith, h, n))
  | inr (k, n) ↦
      let found : ◌≡◌ {A = Option (ℕ × ℕ)} (some (x, k)) (some (p, i)) = ground (arith, h, n) in
      let same : x ≡ p = ap (λ (y : ℕ × ℕ). y.0) (some-injective (x, k) (p, i) found) in
      subst (λ y. (y == q) ≡ false) same (ground (arith, e))
]

pub in_order-next :
    (ps : List ℕ) (waiting : ℤ → List ℕ) (p i : ℕ)
    → Different ps
    → next ps waiting ≡ some (p, i)
    → in_order ps waiting ≡ i ∷ in_order ps (without p waiting)
unfolding in_order next
in_order-next [] waiting p i d h = cc h
in_order-next (q ∷ qs) waiting p i (a, d) h = elim (Option-cases (get_last? (waiting (pos q)))) [
  | inl n ↦
      let h' : next qs waiting ≡ some (p, i) = ground (arith, h, n) in
      let apart = next-Absent q qs waiting p i a h' in
      rw (without-away p q waiting apart, oldest_first-none (waiting (pos q)) n)
        (in_order-next qs waiting p i d h')
  | inr (k, n) ↦
      let found : ◌≡◌ {A = Option (ℕ × ℕ)} (some (q, k)) (some (p, i)) = ground (arith, h, n) in
      let same = some-injective (q, k) (p, i) found in
      subst (λ y. in_order (q ∷ qs) waiting ≡ y.1 ∷ in_order (q ∷ qs) (without y.0 waiting)) same
        (rw
          (
            without-same q waiting,
            oldest_first-last (waiting (pos q)) k n,
            in_order-without q qs waiting a,
          )
          refl)
]
