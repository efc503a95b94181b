-- ===== src/Cron/Text.antt =====
-- What the cron parser uses of Go's packages strings and strconv.
use distributed_task_schedul.Prelude.{
  ℕ, List, Bool, ◌∷◌, Option, leb, [], ◌==◌, false, if◌then◌else◌, some, none, ℤ, ◌&&◌, ◌||◌, ◌*◌,
  ltb, pos, ◌+◌, int64_half, suc, ◌-◌, negsuc, zero,
}

abbrev pub Text : Type 0
Text = List ℕ

abbrev pub asterisk : ℕ
asterisk = 42

abbrev pub plus : ℕ
plus = 43

abbrev pub comma : ℕ
comma = 44

abbrev pub minus : ℕ
minus = 45

abbrev pub slash : ℕ
slash = 47

-- unicode.IsSpace
unfoldable pub is_space : ℕ → Bool
is_space c =
    (leb 9 c && leb c 13)
    || (c == 32)
    || (c == 133)
    || (c == 160)
    || (c == 5760)
    || (leb 8192 c && leb c 8202)
    || (c == 8232)
    || (c == 8233)
    || (c == 8239)
    || (c == 8287)
    || (c == 12288)

-- A text cut at each code point that meets the test; with n cuts it has n + 1 parts.
unfoldable pub cut : (ℕ → Bool) → Text → List Text
cut test [] = [] ∷ []
cut test (c ∷ cs) = elim (cut test cs) [
  | [] ↦ (c ∷ []) ∷ []
  | part ∷ parts ↦ if test c then [] ∷ part ∷ parts else (c ∷ part) ∷ parts
]

unfoldable pub non_empty : List Text → List Text
non_empty [] = []
non_empty ([] ∷ parts) = non_empty parts
non_empty ((c ∷ cs) ∷ parts) = (c ∷ cs) ∷ non_empty parts

-- strings.Fields
unfoldable pub fields : Text → List Text
fields s = non_empty (cut is_space s)

-- strings.Split, by one code point
unfoldable pub split : Text → ℕ → List Text
split s sep = cut (λ c. c == sep) s

-- strings.Contains, of one code point
unfoldable pub contains_char : Text → ℕ → Bool
contains_char [] d = false
contains_char (c ∷ cs) d = (c == d) || contains_char cs d

-- strings.TrimSpace
unfoldable pub trim_left : Text → Text
trim_left [] = []
trim_left (c ∷ cs) = let rest = trim_left cs in if is_space c then rest else c ∷ cs

unfoldable pub trim_right : Text → Text
trim_right [] = []
trim_right (c ∷ cs) = elim (trim_right cs) [
  | [] ↦ if is_space c then [] else c ∷ []
  | d ∷ ds ↦ c ∷ d ∷ ds
]

unfoldable pub trim_space : Text → Text
trim_space s = trim_right (trim_left s)

-- The value of a text of decimal digits, after those already read.
unfoldable pub digits_from : (read : ℕ) → Text → Option ℕ
digits_from read [] = some read
digits_from read (c ∷ cs) =
    let rest = digits_from (read * 10 + (c - 48)) cs in if leb 48 c && leb c 57 then rest else none

unfoldable pub digits : Text → Option ℕ
digits [] = none
digits (c ∷ cs) = digits_from 0 (c ∷ cs)

-- The number, if an int holds it.
unfoldable pub positive_int : Option ℕ → Option ℤ
positive_int none = none
positive_int (some n) = if ltb n int64_half then some (pos n) else none

unfoldable pub negative_int : Option ℕ → Option ℤ
negative_int none = none
negative_int (some zero) = some (pos 0)
negative_int (some (suc n)) = if ltb n int64_half then some (negsuc n) else none

-- strconv.Atoi; `none` is an error.
unfoldable pub atoi : Text → Option ℤ
atoi [] = none
atoi (c ∷ cs) =
    if c == minus
    then negative_int (digits cs)
    else if c == plus
    then positive_int (digits cs)
    else positive_int (digits (c ∷ cs))
