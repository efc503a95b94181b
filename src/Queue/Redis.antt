-- ===== src/Queue/Redis.antt =====
-- What internal/queue/redis.go uses of two packages that are not part of the repository: the Redis
-- server, through go-redis, and the JSON encoding of a job. Both are parameters.
use distributed_task_schedul.Prelude.{
  ℕ, String, ◌≡◌, ◌↔◌, Bool, true, false, ◌&&◌, ◌||◌, List, [], ◌∷◌, Option, none, some, str_eq,
  ◌==◌, if◌then◌else◌, ℤ, ◌≤ℤ◌, eqb_ℤ, arith, refl, eq_iff, pos, ◌+◌, take, suc, drop, ap,
  eq_of_parts, ltb, ◌-◌, ◌*◌,
}
use distributed_task_schedul.Models.Job.{Job}

-- The keys of the lists: scheduler:queue:ready:p<priority>, scheduler:queue:dlq.
pub data ListKey : Type 0 where
  ready : ℤ → ListKey
  dlq : ListKey

-- The keys of the sorted sets: scheduler:queue:delayed, scheduler:inflight:<worker>.
pub data ZsetKey : Type 0 where
  delayed : ZsetKey
  inflight : String → ZsetKey

unfoldable pub list_key_eq : ListKey → ListKey → Bool
list_key_eq (ready p) (ready q) = eqb_ℤ p q
list_key_eq dlq dlq = true
list_key_eq _ _ = false

unfoldable pub zset_key_eq : ZsetKey → ZsetKey → Bool
zset_key_eq delayed delayed = true
zset_key_eq (inflight a) (inflight b) = str_eq a b
zset_key_eq _ _ = false

pub list_key_eq_refl : (k : ListKey) → list_key_eq k k ≡ true
unfolding list_key_eq
list_key_eq_refl (ready p) = ground arith
list_key_eq_refl dlq = refl

pub zset_key_eq_refl : (k : ZsetKey) → zset_key_eq k k ≡ true
unfolding zset_key_eq
zset_key_eq_refl delayed = refl
zset_key_eq_refl (inflight a) = ground (arith, eq_iff a a)

pub list_key_eq_sound : (k l : ListKey) → list_key_eq k l ≡ true → k ≡ l
unfolding list_key_eq
list_key_eq_sound (ready p) (ready q) h = ap ready (eq_of_parts p q (ground (arith, h)))
list_key_eq_sound dlq dlq h = refl
list_key_eq_sound (ready p) dlq h = cc
list_key_eq_sound dlq (ready q) h = cc

-- The last element of a list, and the list without it.
unfoldable pub get_last? {ℓ} : {A : Type ℓ} → List A → Option A
get_last? [] = none
get_last? (x ∷ []) = some x
get_last? (x ∷ y ∷ xs) = get_last? (y ∷ xs)

unfoldable pub drop_last {ℓ} : {A : Type ℓ} → List A → List A
drop_last [] = []
drop_last (x ∷ []) = []
drop_last (x ∷ y ∷ xs) = x ∷ drop_last (y ∷ xs)

unfoldable pub contains : List ℕ → ℕ → Bool
contains [] n = false
contains (x ∷ xs) n = x == n || contains xs n

-- A Redis database, seen through its read commands. The members of the lists and sorted sets are
-- the keys scheduler:job:<uuid>, here the ids; `Blob` is the type of the texts stored under them.
pub record Redis (Blob : Type 0) : Type 1 where
  pub State : Type 0
  -- GET
  pub get : State → ℕ → Option Blob
  -- LRANGE key 0 -1
  pub items : State → ListKey → List ℕ
  -- LRANGE key start stop; negative indices count from the end
  pub lrange : State → ListKey → (start stop : ℤ) → List ℕ
  -- ZSCORE
  pub score : State → ZsetKey → ℕ → Option ℤ
  -- ZRANGEBYSCORE key min max
  pub range : State → ZsetKey → (min max : ℤ) → List ℕ
  -- for how many milliseconds the text of a key is kept still; 0 for a key that is not there
  pub ttl : State → ℕ → ℕ
  -- so many milliseconds pass
  pub elapse : ℕ → State → State
  -- SET, with a time to live in seconds; the program sets no text without one
  pub set : ℕ → Blob → (ttl : ℕ) → State → State
  -- DEL
  pub del : ℕ → State → State
  pub lpush : ListKey → ℕ → State → State
  pub rpop : ListKey → State → State
  pub zadd : ZsetKey → ℤ → ℕ → State → State
  pub zrem : ZsetKey → ℕ → State → State
  -- SET stores a text; DEL removes it; the other commands leave the texts alone.
  pub get-set :
      (i : ℕ) (b : Blob) (t : ℕ) (s : State) (j : ℕ)
      → get (set i b t s) j ≡ (if i == j then some b else get s j)
  pub get-del : (i : ℕ) (s : State) (j : ℕ) → get (del i s) j ≡ (if i == j then none else get s j)
  pub get-lpush : (k : ListKey) (i : ℕ) (s : State) (j : ℕ) → get (lpush k i s) j ≡ get s j
  pub get-rpop : (k : ListKey) (s : State) (j : ℕ) → get (rpop k s) j ≡ get s j
  pub get-zadd : (k : ZsetKey) (x : ℤ) (i : ℕ) (s : State) (j : ℕ) → get (zadd k x i s) j ≡ get s j
  pub get-zrem : (k : ZsetKey) (i : ℕ) (s : State) (j : ℕ) → get (zrem k i s) j ≡ get s j
  -- A text is gone when its time is over; SET gives it a new time, and nothing else does.
  pub get-elapse :
      (ms : ℕ) (s : State) (j : ℕ)
      → get (elapse ms s) j ≡ (if ltb ms (ttl s j) then get s j else none)
  pub ttl-elapse : (ms : ℕ) (s : State) (j : ℕ) → ttl (elapse ms s) j ≡ ttl s j - ms
  pub ttl-set :
      (i : ℕ) (b : Blob) (t : ℕ) (s : State) (j : ℕ)
      → ttl (set i b t s) j ≡ (if i == j then t * 1000 else ttl s j)
  pub ttl-del : (i : ℕ) (s : State) (j : ℕ) → ttl (del i s) j ≡ (if i == j then 0 else ttl s j)
  pub ttl-lpush : (k : ListKey) (i : ℕ) (s : State) (j : ℕ) → ttl (lpush k i s) j ≡ ttl s j
  pub ttl-rpop : (k : ListKey) (s : State) (j : ℕ) → ttl (rpop k s) j ≡ ttl s j
  pub ttl-zadd : (k : ZsetKey) (x : ℤ) (i : ℕ) (s : State) (j : ℕ) → ttl (zadd k x i s) j ≡ ttl s j
  pub ttl-zrem : (k : ZsetKey) (i : ℕ) (s : State) (j : ℕ) → ttl (zrem k i s) j ≡ ttl s j
  -- Lists and sorted sets are not given a time.
  pub items-elapse : (ms : ℕ) (s : State) (l : ListKey) → items (elapse ms s) l ≡ items s l
  pub score-elapse :
      (ms : ℕ) (s : State) (l : ZsetKey) (j : ℕ) → score (elapse ms s) l j ≡ score s l j
  -- LPUSH adds at the head and RPOP removes at the tail, of one list.
  pub items-lpush :
      (k : ListKey) (i : ℕ) (s : State) (l : ListKey)
      → items (lpush k i s) l ≡ (if list_key_eq k l then i ∷ items s l else items s l)
  pub items-rpop :
      (k : ListKey) (s : State) (l : ListKey)
      → items (rpop k s) l ≡ (if list_key_eq k l then drop_last (items s l) else items s l)
  pub items-set :
      (i : ℕ) (b : Blob) (t : ℕ) (s : State) (l : ListKey) → items (set i b t s) l ≡ items s l
  pub items-del : (i : ℕ) (s : State) (l : ListKey) → items (del i s) l ≡ items s l
  pub items-zadd :
      (k : ZsetKey) (x : ℤ) (i : ℕ) (s : State) (l : ListKey) → items (zadd k x i s) l ≡ items s l
  pub items-zrem :
      (k : ZsetKey) (i : ℕ) (s : State) (l : ListKey) → items (zrem k i s) l ≡ items s l
  -- LRANGE has both its ends in the range.
  pub lrange-items :
      (s : State) (k : ListKey) (start n : ℕ)
      → lrange s k (pos start) (pos (start + n)) ≡ take (suc n) (drop start (items s k))
  -- ZADD sets the score of one member of one sorted set, and ZREM removes one.
  pub score-zadd :
      (k : ZsetKey) (x : ℤ) (i : ℕ) (s : State) (l : ZsetKey) (j : ℕ)
      → score (zadd k x i s) l j ≡ (if zset_key_eq k l && i == j then some x else score s l j)
  pub score-zrem :
      (k : ZsetKey) (i : ℕ) (s : State) (l : ZsetKey) (j : ℕ)
      → score (zrem k i s) l j ≡ (if zset_key_eq k l && i == j then none else score s l j)
  pub score-set :
      (i : ℕ) (b : Blob) (t : ℕ) (s : State) (l : ZsetKey) (j : ℕ)
      → score (set i b t s) l j ≡ score s l j
  pub score-del : (i : ℕ) (s : State) (l : ZsetKey) (j : ℕ) → score (del i s) l j ≡ score s l j
  pub score-lpush :
      (k : ListKey) (i : ℕ) (s : State) (l : ZsetKey) (j : ℕ)
      → score (lpush k i s) l j ≡ score s l j
  pub score-rpop :
      (k : ListKey) (s : State) (l : ZsetKey) (j : ℕ) → score (rpop k s) l j ≡ score s l j
  -- ZRANGEBYSCORE lists the members whose scores lie in the range.
  pub range_iff :
      (s : State) (k : ZsetKey) (lo hi : ℤ) (i : ℕ)
      → (contains (range s k lo hi) i ≡ true)
        ↔ ((x : ℤ) × (score s k i ≡ some x) × (lo ≤ℤ x) × (x ≤ℤ hi))

-- encoding/json on a Job. json.Marshal fails on a payload that is no JSON; it writes the payload
-- without its insignificant spaces, and nothing else is lost. `empty` is the empty text.
pub record Codec : Type 1 where
  pub Blob : Type 0
  pub empty : Blob
  pub marshal : Job → Option Blob
  pub unmarshal : Blob → Option Job
  pub unmarshal-empty : unmarshal empty ≡ none
  pub unmarshal-marshal :
      (j : Job) (b : Blob)
      → marshal j ≡ some b
      → (k : Job) × (unmarshal b ≡ some k) × (record k { payload = j.payload } ≡ j)
