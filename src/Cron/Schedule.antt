-- ===== src/Cron/Schedule.antt =====
-- matchCronField and ParseCron (internal/scheduler/scheduler.go).
use distributed_task_schedul.Prelude.{
  ℕ, ℤ, List, Option, ◌*◌, Bool, pos, false, if◌then◌else◌, some, suc, none, ◌%◌, ◌∷◌, true, ◌/◌,
  ◌==◌, leb_ℤ, zero, ◌+◌, negsuc, eqb_ℤ, ◌&&◌, ◌||◌, [], ◌≡◌, arith, ◌⊎◌, inl, inr, refl,
}
use distributed_task_schedul.Cron.Text.{
  Text, fields, atoi, contains_char, trim_space, comma, minus, split, asterisk, slash,
}
use distributed_task_schedul.Errors.{Error, errorf}
use distributed_task_schedul.Cron.Calendar.{minute_of, hour_of, day_of, month_of, weekday_of}

-- value % step == 0; `none` is the panic of a division by zero.
unfoldable pub divides : ℤ → ℕ → Option Bool
divides (pos zero) value = none
divides (pos (suc n)) value = some (value % suc n == 0)
divides (negsuc n) value = some (value % suc n == 0)

-- The list: some part is the value.
unfoldable pub match_list : List Text → ℕ → Bool
match_list [] value = false
match_list (p ∷ ps) value = elim (atoi (trim_space p)) [
  | none ↦ match_list ps value
  | some v ↦ eqb_ℤ v (pos value) || match_list ps value
]

-- The range, where the field has the form of one.
unfoldable pub match_range : List Text → ℕ → Option Bool
match_range (a ∷ b ∷ []) value = elim (atoi a) [
  | none ↦ none
  | some start ↦ elim (atoi b) [
    | none ↦ none
    | some end ↦ some (leb_ℤ start (pos value) && leb_ℤ (pos value) end)
  ]
]
match_range _ value = none

-- The list and the single value, which are tried after the range.
unfoldable pub match_values : Text → ℕ → Bool
match_values field value =
    if contains_char field comma
    then match_list (split field comma) value
    else elim (atoi field) [ none ↦ false | some v ↦ eqb_ℤ v (pos value) ]

unfoldable pub match_rest : Text → ℕ → Bool
match_rest field value =
    if contains_char field minus
    then elim (match_range (split field minus) value) [
      | some b ↦ b
      | none ↦ match_values field value
    ]
    else match_values field value

-- The step, after `*/`; a step that is no number matches nothing.
unfoldable pub match_step : Text → ℕ → Option Bool
match_step rest value = elim (atoi rest) [ none ↦ some false | some step ↦ divides step value ]

unfoldable pub match_cron_field : Text → ℕ → Option Bool
match_cron_field [] value = some (match_rest [] value)
match_cron_field (c ∷ []) value =
    if c == asterisk then some true else some (match_rest (c ∷ []) value)
match_cron_field (c ∷ d ∷ cs) value =
    if (c == asterisk) && (d == slash)
    then match_step cs value
    else some (match_rest (c ∷ d ∷ cs) value)

-- The five fields of an expression.
pub record CronFields : Type 0 where
  pub minute_field : Text
  pub hour_field : Text
  pub dom_field : Text
  pub month_field : Text
  pub dow_field : Text

-- `&&`, which evaluates its right side only where the left one is true.
abbrev pub and_then : Option Bool → Option Bool → Option Bool
and_then none b = none
and_then (some false) b = some false
and_then (some true) b = b

unfoldable pub matches_at : CronFields → (minute : ℕ) → Option Bool
matches_at f m = and_then (match_cron_field f.minute_field (minute_of m)) (
    and_then (match_cron_field f.hour_field (hour_of m)) (
      and_then (match_cron_field f.dom_field (day_of m)) (
        and_then (match_cron_field f.month_field (month_of m))
          (match_cron_field f.dow_field (weekday_of m)))))

-- What the search of ParseCron comes to.
pub data Search : Type 0 where
  found : (minute : ℕ) → Search
  exhausted panics : Search

-- The loop, with the rounds that are left; `test` is its condition.
unfoldable pub search : (test : ℕ → Option Bool) → (rounds minute : ℕ) → Search
search test zero m = exhausted
search test (suc n) m = elim (test m) [
  | none ↦ panics
  | some b ↦ elim b [ true ↦ found m | false ↦ search test n (suc m) ]
]

abbrev pub max_iterations : ℕ
max_iterations = 366 * 24 * 60

abbrev pub minute_ns : ℕ
minute_ns = 60000000000

-- The result of ParseCron: a time in nanoseconds, an error, or a panic.
pub data Next : Type 0 where
  at : (time : ℕ) → Next
  fails : Error → Next
  crashes : Next

pub at_time : {a b : ℕ} → at a ≡ at b → b ≡ a
at_time h = ground (arith, h)

unfoldable pub next_of : Search → Next
next_of (found m) = at (m * minute_ns)
next_of exhausted = fails (errorf "could not find next run time for expression")
next_of panics = crashes

unfoldable pub five_fields : List Text → Option CronFields
five_fields (a ∷ b ∷ c ∷ d ∷ e ∷ []) =
    some
      (record { minute_field = a; hour_field = b; dom_field = c; month_field = d; dow_field = e })
five_fields _ = none

unfoldable pub parse_cron : Text → (from : ℕ) → Next
parse_cron expr from = elim (five_fields (fields expr)) [
  | none ↦ fails (errorf "invalid cron expression: expected 5 fields")
  | some f ↦ next_of (search (matches_at f) max_iterations (from / minute_ns + 1))
]

pub Next-cases :
    (n : Next) → ((t : ℕ) × (n ≡ at t)) ⊎ (((e : Error) × (n ≡ fails e)) ⊎ (n ≡ crashes))
Next-cases (at t) = inl (t, refl)
Next-cases (fails e) = inr (inl (e, refl))
Next-cases crashes = inr (inr refl)
