-- ===== src/Cron/Fields.antt =====
-- What the forms of a cron field mean to matchCronField (internal/scheduler/scheduler.go).
use distributed_task_schedul.Prelude.{
  ℕ, ◌≡◌, List, Option, ◌<◌, if◌then◌else◌, ◌∷◌, Bool, All, ◌++◌, [], false, some, ◌==◌, true,
  arith, ◌%◌, ◌||◌, none, pos, leb, ◌&&◌, refl, suc, zero, leb_ℤ, ap, ◌∙◌,
}
use distributed_task_schedul.Cron.Text.{Text, contains_char, split, asterisk, minus, comma, slash}
use distributed_task_schedul.Cron.Schedule.{
  match_cron_field, match_step, divides, match_rest, match_list, match_values, match_range,
}
use distributed_task_schedul.Cron.Numbers.{
  IsNumber, atoi-number, contains_char-append, eqb_pos, has_comma, has_minus, leb_pos, no_comma,
  no_minus, number, number-IsNumber, plain, plain-append, split-append, split-number, trim-number,
}

-- The forms of a field, with numbers below 100: *, */n, a-b, and a list of numbers.
pub data CronForm : Type 0 where
  any : CronForm
  every : ℕ → CronForm
  span : (low high : ℕ) → CronForm
  one_of : ℕ → List ℕ → CronForm

abbrev joined : ℕ → List ℕ → Text
joined n [] = number n
joined n (m ∷ ms) = number n ++ (comma ∷ joined m ms)

abbrev pub write_form : CronForm → Text
write_form any = asterisk ∷ []
write_form (every n) = asterisk ∷ slash ∷ number n
write_form (span low high) = number low ++ (minus ∷ number high)
write_form (one_of n ns) = joined n ns

abbrev member : ℕ → List ℕ → Bool
member v [] = false
member v (n ∷ ns) = (n == v) || member v ns

-- Whether a value is meant; `none` is a panic.
abbrev pub means : CronForm → ℕ → Option Bool
means any v = some true
means (every n) v = if n == 0 then none else some (v % n == 0)
means (span low high) v = some (leb low v && leb v high)
means (one_of n ns) v = some (member v (n ∷ ns))

abbrev IsSmall : CronForm → Type 0
IsSmall any = Unit
IsSmall (every n) = n < 100
IsSmall (span low high) = (low < 100) × (high < 100)
IsSmall (one_of n ns) = All (λ m. m < 100) (n ∷ ns)

match_step-number : {t : Text} {n : ℕ} (v : ℕ) → IsNumber t n → match_step t v ≡ divides (pos n) v
unfolding match_step
match_step-number v i = rw (match_step, atoi-number i) refl

divides-number : (n v : ℕ) → divides (pos n) v ≡ (if n == 0 then none else some (v % n == 0))
unfolding divides
divides-number zero v = refl
divides-number (suc n) v = ground arith

match_rest-number : {t : Text} {n : ℕ} (v : ℕ) → IsNumber t n → match_rest t v ≡ (n == v)
unfolding match_rest match_values
match_rest-number {n = n} v i =
    rw (match_rest, no_minus i, match_values, no_comma i, atoi-number i) (eqb_pos n v)

match_rest-span :
    {t u : Text} {low high : ℕ} (v : ℕ)
    → IsNumber t low
    → IsNumber u high
    → match_rest (t ++ (minus ∷ u)) v ≡ (leb low v && leb v high)
unfolding match_rest match_range contains_char
match_rest-span {t = t} {u = u} {low = low} {high = high} v i k =
    rw
      (
        match_rest,
        has_minus t u,
        split-append minus u (omega arith) i,
        split-number minus (omega arith) k,
        match_range,
        atoi-number i,
        atoi-number k,
      )
      (ap (λ x. x && leb_ℤ (pos v) (pos high)) (leb_pos low v)
        ∙ ap (λ x. leb low v && x) (leb_pos v high))

joined-no_minus :
    (n : ℕ) (ns : List ℕ) → All (λ m. m < 100) (n ∷ ns) → contains_char (joined n ns) minus ≡ false
unfolding contains_char
joined-no_minus n [] h = no_minus (number-IsNumber n h.0)
joined-no_minus n (m ∷ ms) h =
    rw
      (
        contains_char-append (number n) (comma ∷ joined m ms) minus,
        no_minus (number-IsNumber n h.0),
        contains_char,
      )
      (joined-no_minus m ms h.1)

match_list-joined :
    (n : ℕ) (ns : List ℕ) (v : ℕ)
    → All (λ m. m < 100) (n ∷ ns)
    → match_list (split (joined n ns) comma) v ≡ member v (n ∷ ns)
unfolding match_list
match_list-joined n [] v h =
    let i = number-IsNumber n h.0 in
    rw (split-number comma (omega arith) i, match_list, trim-number i, atoi-number i)
      (ap (λ x. x || false) (eqb_pos n v))
match_list-joined n (m ∷ ms) v h =
    let i = number-IsNumber n h.0 in
    rw
      (
        split-append comma (joined m ms) (omega arith) i,
        match_list,
        trim-number i,
        atoi-number i,
        match_list-joined m ms v h.1,
      )
      (ap (λ x. x || member v (m ∷ ms)) (eqb_pos n v))

or_false : (b : Bool) → b ≡ (b || false)
or_false true = refl
or_false false = refl

match_rest-joined :
    (n : ℕ) (ns : List ℕ) (v : ℕ)
    → All (λ m. m < 100) (n ∷ ns)
    → match_rest (joined n ns) v ≡ member v (n ∷ ns)
unfolding match_rest match_values
match_rest-joined n [] v h = match_rest-number v (number-IsNumber n h.0) ∙ or_false (n == v)
match_rest-joined n (m ∷ ms) v h =
    rw
      (
        match_rest,
        joined-no_minus n (m ∷ ms) h,
        match_values,
        has_comma (number n) (joined m ms),
        match_list-joined n (m ∷ ms) v h,
      )
      refl

plain-joined :
    (n : ℕ) (ns : List ℕ) (v : ℕ)
    → All (λ m. m < 100) (n ∷ ns)
    → match_cron_field (joined n ns) v ≡ some (match_rest (joined n ns) v)
plain-joined n [] v h = plain v (number-IsNumber n h.0)
plain-joined n (m ∷ ms) v h = plain-append (comma ∷ joined m ms) v (number-IsNumber n h.0)

-- matchCronField on the text of a wildcard, of a step, of a range or of a list of numbers below 100 tests what the form means: anything, the multiples of the step, the values from the low to the high end, the numbers listed; a step of 0 panics.
pub match_cron_field-means :
    (f : CronForm) (v : ℕ) → IsSmall f → match_cron_field (write_form f) v ≡ means f v
unfolding match_cron_field
match_cron_field-means any v h = refl
match_cron_field-means (every n) v h =
    match_step-number v (number-IsNumber n h) ∙ divides-number n v
match_cron_field-means (span low high) v h =
    let i = number-IsNumber low h.0 in
    plain-append (minus ∷ number high) v i
    ∙ ap (λ b. some b) (match_rest-span v i (number-IsNumber high h.1))
match_cron_field-means (one_of n ns) v h =
    plain-joined n ns v h ∙ ap (λ b. some b) (match_rest-joined n ns v h)
