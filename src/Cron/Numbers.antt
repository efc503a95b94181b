-- ===== src/Cron/Numbers.antt =====
-- Numbers of one or two digits as matchCronField reads them (internal/scheduler/scheduler.go).
use distributed_task_schedul.Prelude.{
  ℕ, ◌≡◌, List, ◌<◌, if◌then◌else◌, ◌∷◌, Bool, ◌+◌, Bool-cases, ltb, ◌++◌, [], false, some, ◌/◌,
  ◌==◌, true, ◌*◌, inl, arith, ◌%◌, ◌||◌, ltb→lt, pos, leb, inr, subst, refl, eqb_ℤ, leb_ℤ,
}
use distributed_task_schedul.Cron.Text.{
  Text, atoi, contains_char, trim_space, split, digits, minus, comma, trim_left, cut, digits_from,
  trim_right, positive_int, is_space,
}
use distributed_task_schedul.Cron.Schedule.{match_cron_field, match_rest}

abbrev pub number : ℕ → Text
number n = if ltb n 10 then (48 + n) ∷ [] else (48 + n / 10) ∷ (48 + n % 10) ∷ []

-- One or two digits with their value.
pub data IsNumber : Text → ℕ → Type 0 where
  one_digit : (x : ℕ) → x < 10 → IsNumber ((48 + x) ∷ []) x
  two_digits : (x y : ℕ) → x < 10 → y < 10 → IsNumber ((48 + x) ∷ (48 + y) ∷ []) (x * 10 + y)

pub number-IsNumber : (n : ℕ) → n < 100 → IsNumber (number n) n
number-IsNumber n h = elim (Bool-cases (ltb n 10)) [
  | inl e ↦ rw e (one_digit n (ltb→lt n 10 e))
  | inr e ↦ rw e (
      subst (IsNumber ((48 + n / 10) ∷ (48 + n % 10) ∷ [])) (omega arith)
        (two_digits (n / 10) (n % 10) (omega (arith, h)) (omega arith)))
]

pub atoi-number : {t : Text} {n : ℕ} → IsNumber t n → atoi t ≡ some (pos n)
unfolding atoi digits digits_from positive_int
atoi-number (one_digit x a) = ground arith
atoi-number (two_digits x y a b) = ground arith

pub no_minus : {t : Text} {n : ℕ} → IsNumber t n → contains_char t minus ≡ false
unfolding contains_char
no_minus (one_digit x a) = ground arith
no_minus (two_digits x y a b) = ground arith

pub no_comma : {t : Text} {n : ℕ} → IsNumber t n → contains_char t comma ≡ false
unfolding contains_char
no_comma (one_digit x a) = ground arith
no_comma (two_digits x y a b) = ground arith

pub trim-number : {t : Text} {n : ℕ} → IsNumber t n → trim_space t ≡ t
unfolding trim_space trim_left trim_right is_space
trim-number (one_digit x a) = ground arith
trim-number (two_digits x y a b) = ground arith

pub split-number : {t : Text} {n : ℕ} (sep : ℕ) → sep < 48 → IsNumber t n → split t sep ≡ t ∷ []
unfolding split cut
split-number sep h (one_digit x a) = ground arith
split-number sep h (two_digits x y a b) = ground arith

cut-cases : (test : ℕ → Bool) (s : Text) → (p : Text) × (ps : List Text) × (cut test s ≡ p ∷ ps)
unfolding cut
cut-cases test [] = ([], [], refl)
cut-cases test (c ∷ cs) =
    let (p, ps, e) = cut-cases test cs in
    elim (Bool-cases (test c)) [
      | inl h ↦ ([], p ∷ ps, rw (e, h) refl)
      | inr h ↦ (c ∷ p, ps, rw (e, h) refl)
    ]

pub split-append :
    {t : Text} {n : ℕ} (sep : ℕ) (rest : Text)
    → sep < 48
    → IsNumber t n
    → split (t ++ (sep ∷ rest)) sep ≡ t ∷ split rest sep
unfolding split cut
split-append sep rest h (one_digit x a) =
    let (p, ps, e) = cut-cases (λ c. c == sep) rest in ground (arith, e)
split-append sep rest h (two_digits x y a b) =
    let (p, ps, e) = cut-cases (λ c. c == sep) rest in ground (arith, e)

pub contains_char-append :
    (s t : Text) (d : ℕ) → contains_char (s ++ t) d ≡ (contains_char s d || contains_char t d)
unfolding contains_char
contains_char-append [] t d = refl
contains_char-append (c ∷ cs) t d = ground (arith, contains_char-append cs t d)

-- A text that begins with a digit is neither the wildcard nor a step.
pub plain-append :
    {t : Text} {n : ℕ} (rest : Text) (v : ℕ)
    → IsNumber t n
    → match_cron_field (t ++ rest) v ≡ some (match_rest (t ++ rest) v)
unfolding match_cron_field
plain-append [] v (one_digit x a) = ground arith
plain-append (c ∷ cs) v (one_digit x a) = ground arith
plain-append rest v (two_digits x y a b) = ground arith

pub plain : {t : Text} {n : ℕ} (v : ℕ) → IsNumber t n → match_cron_field t v ≡ some (match_rest t v)
unfolding match_cron_field
plain v (one_digit x a) = ground arith
plain v (two_digits x y a b) = ground arith

pub has_minus : (t u : Text) → contains_char (t ++ (minus ∷ u)) minus ≡ true
unfolding contains_char
has_minus [] u = ground arith
has_minus (c ∷ cs) u = ground (arith, has_minus cs u)

pub has_comma : (t u : Text) → contains_char (t ++ (comma ∷ u)) comma ≡ true
unfolding contains_char
has_comma [] u = ground arith
has_comma (c ∷ cs) u = ground (arith, has_comma cs u)

pub eqb_pos : (a b : ℕ) → eqb_ℤ (pos a) (pos b) ≡ (a == b)
eqb_pos a b = ground arith

pub leb_pos : (a b : ℕ) → leb_ℤ (pos a) (pos b) ≡ leb a b
leb_pos a b = ground arith
