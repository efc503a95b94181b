-- ===== src/Cron/Next.antt =====
-- The time that ParseCron finds, and when it finds one (internal/scheduler/scheduler.go).
use distributed_task_schedul.Prelude.{
  ℕ, ◌≡◌, Option, Bool, ◌≤◌, some, arith, ◌<◌, false, suc, ◌+◌, Bool-cases, Option-cases, true,
  ◌==◌, inl, none, subst, inr, sym, zero, ==_iff, ◌/◌, refl, ◌*◌, ◌∙◌, ◌≢◌, ◌∷◌, [], ltb, leb, ap,
  leb→le, ltb→lt,
}
use distributed_task_schedul.Cron.Schedule.{
  Search, found, exhausted, panics, search, parse_cron, next_of, minute_ns, CronFields, five_fields,
  matches_at, max_iterations, at, at_time, crashes, match_cron_field, match_step, divides,
}
use distributed_task_schedul.Cron.Text.{
  Text, fields, asterisk, slash, atoi, digits, digits_from, positive_int,
}

-- What each end of the search says of the minutes that it has looked at.
abbrev Explains : (ℕ → Option Bool) → (rounds minute : ℕ) → Search → Type 0
Explains test n m (found k) =
    (m ≤ k) × (k < m + n) × (test k ≡ some true) × ((j : ℕ) → m ≤ j → j < k → test j ≡ some false)
Explains test n m exhausted = (j : ℕ) → m ≤ j → j < m + n → test j ≡ some false
Explains test n m panics =
    (k : ℕ) × (m ≤ k)
    × (k < m + n)
    × (test k ≡ none)
    × ((j : ℕ) → m ≤ j → j < k → test j ≡ some false)

-- A claim about the minutes from one on holds of that one and of those after it.
from_next :
    (test : ℕ → Option Bool) (m k : ℕ)
    → test m ≡ some false
    → ((j : ℕ) → suc m ≤ j → j < k → test j ≡ some false)
    → (j : ℕ) → m ≤ j
    → j < k
    → test j ≡ some false
from_next test m k h later j a b = elim (Bool-cases (j == m)) [
  | inl e ↦ subst (λ x. test x ≡ some false) (sym ((==_iff j m).0 e)) h
  | inr e ↦ later j (ground (arith, e)) b
]

shifted :
    (test : ℕ → Option Bool) (n m : ℕ) (r : Search)
    → test m ≡ some false
    → Explains test n (suc m) r
    → Explains test (suc n) m r
shifted test n m (found k) h (a, b, c, d) = (omega arith, omega arith, c, from_next test m k h d)
shifted test n m exhausted h e =
    λ j a b. from_next test m (m + suc n) h (λ i p q. e i p (omega arith)) j a b
shifted test n m panics h (k, a, b, c, d) = (k, omega arith, omega arith, c, from_next test m k h d)

search-Explains : (test : ℕ → Option Bool) (n m : ℕ) → Explains test n m (search test n m)
unfolding search
search-Explains test zero m = λ j a b. absurd (omega arith)
search-Explains test (suc n) m = elim (Option-cases (test m)) [
  | inl e ↦ rw (search, e) (m, omega arith, omega arith, e, λ j a b. absurd (omega arith))
  | inr (true, e) ↦ rw (search, e) (omega arith, omega arith, e, λ j a b. absurd (omega arith))
  | inr (false, e) ↦
      rw (search, e) (shifted test n m (search test n (suc m)) e (search-Explains test n (suc m)))
]

-- The minute from which ParseCron searches.
abbrev start_of : ℕ → ℕ
start_of from = from / minute_ns + 1

parse_cron-search :
    (expr : Text) (from : ℕ) (f : CronFields)
    → five_fields (fields expr) ≡ some f
    → parse_cron expr from ≡ next_of (search (matches_at f) max_iterations (start_of from))
unfolding parse_cron
parse_cron-search expr from f h = rw (parse_cron, h) refl

next_of-at :
    (f : CronFields) (from t : ℕ) (r : Search)
    → Explains (matches_at f) max_iterations (start_of from) r
    → next_of r ≡ at t
    → (k : ℕ) × (t ≡ k * minute_ns)
      × (from < t)
      × (t ≤ from + max_iterations * minute_ns)
      × (matches_at f k ≡ some true)
      × ((j : ℕ) → from < j * minute_ns → j < k → matches_at f j ≡ some false)
unfolding next_of
next_of-at f from t (found k) (a, b, c, d) e =
    let same = at_time e in
    (k, same, omega (arith, same), omega (arith, same), c, λ j p q. d j (omega arith) q)
next_of-at f from t exhausted x e = cc
next_of-at f from t panics x e = cc

-- A time that ParseCron returns is a whole minute after `from`, at most 366 days later, and the first one: the five fields match it, and no whole minute between the two.
pub parse_cron-next :
    (expr : Text) (from t : ℕ) (f : CronFields)
    → five_fields (fields expr) ≡ some f
    → parse_cron expr from ≡ at t
    → (k : ℕ) × (t ≡ k * minute_ns)
      × (from < t)
      × (t ≤ from + max_iterations * minute_ns)
      × (matches_at f k ≡ some true)
      × ((j : ℕ) → from < j * minute_ns → j < k → matches_at f j ≡ some false)
parse_cron-next expr from t f h e =
    let r = search (matches_at f) max_iterations (start_of from) in
    next_of-at f from t r (search-Explains (matches_at f) max_iterations (start_of from))
      (sym (parse_cron-search expr from f h) ∙ e)

le_antisymm : (i k : ℕ) → i ≤ k → ltb i k ≡ false → i ≡ k
le_antisymm i k h e = ground (arith, h, e)

-- The first minute that a search stops at is not after one that its test accepts.
first_le :
    (test : ℕ → Option Bool) (start i k : ℕ)
    → ((j : ℕ) → start ≤ j → j < i → test j ≡ some false)
    → start ≤ k
    → test k ≡ some true
    → i ≤ k
first_le test start i k d s m = elim (Bool-cases (leb i k)) [
  | inl e ↦ leb→le i k e
  | inr e ↦ cc (d k s (ground (arith, e)), m)
]

next_of-found :
    (f : CronFields) (from k : ℕ) (r : Search)
    → Explains (matches_at f) max_iterations (start_of from) r
    → matches_at f k ≡ some true
    → from < k * minute_ns
    → k < start_of from + max_iterations
    → ((j : ℕ) → j < k → matches_at f j ≢ none)
    → (t : ℕ) × (next_of r ≡ at t) × (t ≤ k * minute_ns)
unfolding next_of
next_of-found f from k (found i) (a, b, c, d) m late soon safe =
    let le = first_le (matches_at f) (start_of from) i k d (omega arith) m in
    (i * minute_ns, refl, omega (arith, le))
next_of-found f from k exhausted x m late soon safe = cc (x k (omega arith) soon, m)
next_of-found f from k panics (i, a, b, c, d) m late soon safe =
    let le = first_le (matches_at f) (start_of from) i k d (omega arith) m in
    elim (Bool-cases (ltb i k)) [
      | inl e ↦ absurd (safe i (ltb→lt i k e) c)
      | inr e ↦ cc (c, m, le_antisymm i k le e)
    ]

-- ParseCron finds a time for every expression whose fields match some whole minute of the 366 days after `from`, and none later than that minute, unless the test of an earlier minute divides by zero.
pub parse_cron_complete :
    (expr : Text) (from k : ℕ) (f : CronFields)
    → five_fields (fields expr) ≡ some f
    → matches_at f k ≡ some true
    → from < k * minute_ns
    → k < from / minute_ns + 1 + max_iterations
    → ((j : ℕ) → j < k → matches_at f j ≢ none)
    → (t : ℕ) × (parse_cron expr from ≡ at t) × (t ≤ k * minute_ns)
parse_cron_complete expr from k f h m late soon safe =
    let r = search (matches_at f) max_iterations (start_of from) in
    let (t, e, le) =
      next_of-found f from k r (search-Explains (matches_at f) max_iterations (start_of from)) m
        late soon safe in
    (t, parse_cron-search expr from f h ∙ e, le)

search-panics :
    (test : ℕ → Option Bool) (n m : ℕ) → 1 ≤ n → test m ≡ none → search test n m ≡ panics
unfolding search
search-panics test zero m h e = absurd (omega (arith, h))
search-panics test (suc n) m h e = rw (search, e) refl

matches_at-zero :
    (f : CronFields) (m : ℕ) → f.minute_field ≡ asterisk ∷ slash ∷ 48 ∷ [] → matches_at f m ≡ none
unfolding matches_at match_cron_field match_step atoi digits digits_from positive_int divides
matches_at-zero f m z = rw (matches_at, z) refl

-- A minute field */0 is accepted, and then ParseCron panics, whatever the other fields are.
pub parse_cron-crashes :
    (expr : Text) (from : ℕ) (f : CronFields)
    → five_fields (fields expr) ≡ some f
    → f.minute_field ≡ asterisk ∷ slash ∷ 48 ∷ []
    → parse_cron expr from ≡ crashes
unfolding next_of
parse_cron-crashes expr from f h z =
    let start = start_of from in
    parse_cron-search expr from f h
    ∙ ap next_of (
        search-panics (matches_at f) max_iterations start (omega arith) (matches_at-zero f start z))
