-- ===== src/Queue/Memory.antt =====
-- A database in memory that meets the laws of Redis, and a codec that meets those of encoding/json:
-- the parameters of the queue's theorems can be given.
use distributed_task_schedul.Prelude.{
  ℕ, ◌≡◌, refl, ◌↔◌, Bool, true, false, ◌&&◌, List, [], ◌∷◌, Option, none, some, arith, ◌==◌,
  if◌then◌else◌, ℤ, ◌≤ℤ◌, leb_ℤ, pos, take, negsuc, suc, length, ◌+◌, ◌-◌, drop, ltb, ◌*◌,
}
use distributed_task_schedul.Models.Job.{Job}
use distributed_task_schedul.Queue.Redis.{
  ListKey, ZsetKey, list_key_eq, zset_key_eq, drop_last, contains, Redis, Codec,
}

abbrev pub Scores : Type 0
Scores = List (ℕ × ℤ)

unfoldable pub score_in : ℕ → Scores → Option ℤ
score_in j [] = none
score_in j ((i, x) ∷ m) = if i == j then some x else score_in j m

unfoldable pub erase : ℕ → Scores → Scores
erase i [] = []
erase i ((j, x) ∷ m) = let rest = erase i m in if i == j then rest else (j, x) ∷ rest

unfoldable pub without : ℕ → List ℕ → List ℕ
without i [] = []
without i (j ∷ js) = let rest = without i js in if i == j then rest else j ∷ rest

unfoldable pub range_in : ℤ → ℤ → Scores → List ℕ
unfolding without
range_in lo hi [] = []
range_in lo hi ((i, x) ∷ m) =
    let rest = without i (range_in lo hi m) in if leb_ℤ lo x && leb_ℤ x hi then i ∷ rest else rest

score_in-erase :
    (i : ℕ) (m : Scores) (j : ℕ) → score_in j (erase i m) ≡ (if i == j then none else score_in j m)
unfolding score_in erase
score_in-erase i [] j = ground arith
score_in-erase i ((k, x) ∷ m) j = ground (arith, score_in-erase i m j)

contains-without :
    (i : ℕ) (js : List ℕ) (j : ℕ)
    → contains (without i js) j ≡ (if i == j then false else contains js j)
unfolding contains without
contains-without i [] j = ground arith
contains-without i (k ∷ js) j = ground (arith, contains-without i js j)

abbrev between : ℤ → ℤ → Option ℤ → Bool
between lo hi none = false
between lo hi (some x) = leb_ℤ lo x && leb_ℤ x hi

contains-range_in :
    (lo hi : ℤ) (m : Scores) (j : ℕ) → contains (range_in lo hi m) j ≡ between lo hi (score_in j m)
unfolding contains range_in score_in
contains-range_in lo hi [] j = refl
contains-range_in lo hi ((i, x) ∷ m) j =
    ground (arith, contains-range_in lo hi m j, contains-without i (range_in lo hi m) j)

between_iff :
    (lo hi : ℤ) (o : Option ℤ)
    → (between lo hi o ≡ true) ↔ ((x : ℤ) × (o ≡ some x) × (lo ≤ℤ x) × (x ≤ℤ hi))
between_iff lo hi none = (λ h. cc, λ h. cc (h.1))
between_iff lo hi (some x) =
    (λ h. (x, refl, ground arith, ground arith), λ (y, e, a, b). ground arith)

pub range_in_iff :
    (lo hi : ℤ) (m : Scores) (j : ℕ)
    → (contains (range_in lo hi m) j ≡ true)
      ↔ ((x : ℤ) × (score_in j m ≡ some x) × (lo ≤ℤ x) × (x ≤ℤ hi))
range_in_iff lo hi m j = rw (contains-range_in lo hi m j) (between_iff lo hi (score_in j m))

-- The first index of a range, and the number of elements up to its last one.
abbrev start_of : (len : ℕ) → ℤ → ℕ
start_of len (pos n) = n
start_of len (negsuc n) = len - suc n

abbrev count_to : (len : ℕ) → ℤ → ℕ
count_to len (pos n) = suc n
count_to len (negsuc n) = len - n

abbrev pub lrange_in : ℤ → ℤ → List ℕ → List ℕ
lrange_in start stop xs =
    take (count_to (length xs) stop - start_of (length xs) start)
      (drop (start_of (length xs) start) xs)

pub lrange_in-pos :
    (xs : List ℕ) (start n : ℕ)
    → lrange_in (pos start) (pos (start + n)) xs ≡ take (suc n) (drop start xs)
lrange_in-pos xs start n = let e : suc (start + n) - start ≡ suc n = omega arith in rw e

pub record Database (Blob : Type 0) : Type 0 where
  pub texts : ℕ → Option Blob
  pub lives : ℕ → ℕ
  pub lists : ListKey → List ℕ
  pub sets : ZsetKey → Scores

abbrev pub empty_database : {Blob : Type 0} → Database Blob
empty_database = record { texts = λ _. none; lives = λ _. 0; lists = λ _. []; sets = λ _. [] }

module _ (Blob : Type 0) where
  abbrev pub zadd_in : ZsetKey → ℤ → ℕ → Database Blob → Database Blob
  zadd_in k x i d = record d {
    sets = λ l. if zset_key_eq k l then (i, x) ∷ erase i (d.sets l) else d.sets l;
  }

  abbrev pub zrem_in : ZsetKey → ℕ → Database Blob → Database Blob
  zrem_in k i d = record d { sets = λ l. if zset_key_eq k l then erase i (d.sets l) else d.sets l }

  pub score-zadd_in :
      (k : ZsetKey) (x : ℤ) (i : ℕ) (d : Database Blob) (l : ZsetKey) (j : ℕ)
      → score_in j ((zadd_in k x i d).sets l)
        ≡ (if zset_key_eq k l && i == j then some x else score_in j (d.sets l))
  unfolding score_in
  score-zadd_in k x i d l j = ground (arith, score_in-erase i (d.sets l) j)

  pub score-zrem_in :
      (k : ZsetKey) (i : ℕ) (d : Database Blob) (l : ZsetKey) (j : ℕ)
      → score_in j ((zrem_in k i d).sets l)
        ≡ (if zset_key_eq k l && i == j then none else score_in j (d.sets l))
  score-zrem_in k i d l j = ground (arith, score_in-erase i (d.sets l) j)

  abbrev pub memory : Redis Blob
  memory = record {
    State = Database Blob;
    get = λ d. d.texts;
    items = λ d. d.lists;
    lrange = λ d k start stop. lrange_in start stop (d.lists k);
    score = λ d k i. score_in i (d.sets k);
    range = λ d k lo hi. range_in lo hi (d.sets k);
    ttl = λ d. d.lives;
    elapse = λ ms d. record d {
      texts = λ j. if ltb ms (d.lives j) then d.texts j else none;
      lives = λ j. d.lives j - ms;
    };
    set = λ i b t d. record d {
      texts = λ j. if i == j then some b else d.texts j;
      lives = λ j. if i == j then t * 1000 else d.lives j;
    };
    del = λ i d. record d {
      texts = λ j. if i == j then none else d.texts j;
      lives = λ j. if i == j then 0 else d.lives j;
    };
    lpush = λ k i d. record d { lists = λ l. if list_key_eq k l then i ∷ d.lists l else d.lists l };
    rpop = λ k d. record d {
      lists = λ l. if list_key_eq k l then drop_last (d.lists l) else d.lists l;
    };
    zadd = zadd_in;
    zrem = zrem_in;
    get-set = λ i b t s j. refl;
    get-del = λ i s j. refl;
    get-lpush = λ k i s j. refl;
    get-rpop = λ k s j. refl;
    get-zadd = λ k x i s j. refl;
    get-zrem = λ k i s j. refl;
    get-elapse = λ ms s j. refl;
    ttl-elapse = λ ms s j. refl;
    ttl-set = λ i b t s j. refl;
    ttl-del = λ i s j. refl;
    ttl-lpush = λ k i s j. refl;
    ttl-rpop = λ k s j. refl;
    ttl-zadd = λ k x i s j. refl;
    ttl-zrem = λ k i s j. refl;
    items-elapse = λ ms s l. refl;
    score-elapse = λ ms s l j. refl;
    items-lpush = λ k i s l. refl;
    items-rpop = λ k s l. refl;
    items-set = λ i b t s l. refl;
    items-del = λ i s l. refl;
    items-zadd = λ k x i s l. refl;
    items-zrem = λ k i s l. refl;
    lrange-items = λ s k start n. lrange_in-pos (s.lists k) start n;
    score-zadd = score-zadd_in;
    score-zrem = score-zrem_in;
    score-set = λ i b t s l j. refl;
    score-del = λ i s l j. refl;
    score-lpush = λ k i s l j. refl;
    score-rpop = λ k s l j. refl;
    range_iff = λ s k lo hi i. range_in_iff lo hi (s.sets k) i;
  }

pub plain_unmarshal :
    (j : Job) (b : Option Job)
    → some (some j) ≡ some b
    → (k : Job) × (b ≡ some k) × (record k { payload = j.payload } ≡ j)
plain_unmarshal j b e = (j, ground arith, refl)

-- Texts that are jobs; the empty text is `none`.
abbrev pub plain_codec : Codec
plain_codec = record {
  Blob = Option Job;
  empty = none;
  marshal = λ j. some (some j);
  unmarshal = λ b. b;
  unmarshal-empty = refl;
  unmarshal-marshal = plain_unmarshal;
}
