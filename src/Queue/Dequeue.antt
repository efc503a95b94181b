-- ===== src/Queue/Dequeue.antt =====
-- What Dequeue takes, and Acknowledge (internal/queue/redis.go).
use distributed_task_schedul.Prelude.{
  ℕ, zero, suc, ◌+◌, ◌/◌, ◌<◌, ◌≤◌, String, ◌≡◌, refl, false, List, [], ◌∷◌, ◌++◌, Option, none,
  some, arith, ℤ, pos, ◌+ℤ◌, ◌∙◌, ◌⊎◌, ◌==◌, ==_refl,
}
use distributed_task_schedul.Errors.{Error, ok}
use distributed_task_schedul.Models.Job.{Job}
use distributed_task_schedul.Queue.Redis.{
  ListKey, ready, ZsetKey, inflight, list_key_eq, get_last?, Redis, Codec, list_key_eq_refl,
  zset_key_eq_refl,
}
use distributed_task_schedul.Queue.Operations.{
  priorities, pop_first, decode_reply, dequeue, acknowledge,
}
use distributed_task_schedul.Queue.Delivery.{get_last?-snoc, drop_last-snoc}

-- `n` numbers from `a` on.
abbrev numbers : ℕ → ℕ → List ℕ
numbers a zero = []
numbers a (suc n) = a ∷ numbers (suc a) n

module _ (c : Codec) (r : Redis c.Blob) where
  open r use {State, get, items, score, set, del, lpush, rpop, zadd, zrem}

  -- The state after the script has taken a job from the queue of a priority.
  abbrev pub taken : ℕ → String → ℤ → ℕ → State → State
  taken p worker expiry id s = zadd (inflight worker) expiry id (rpop (ready (pos p)) s)

  pop_first-empty :
      (ps : List ℕ) (p : ℕ) (worker : String) (expiry : ℤ) (s : State)
      → items s (ready (pos p)) ≡ []
      → pop_first c r (p ∷ ps) worker expiry s ≡ pop_first c r ps worker expiry s
  unfolding pop_first get_last?
  pop_first-empty ps p worker expiry s e = rw (e, pop_first)

  pop_first-found :
      (ps : List ℕ) (p : ℕ) (worker : String) (expiry : ℤ) (s : State) (id : ℕ) (xs : List ℕ)
      → items s (ready (pos p)) ≡ xs ++ id ∷ []
      → pop_first c r (p ∷ ps) worker expiry s ≡ (taken p worker expiry id s, some (id, get s id))
  unfolding pop_first
  pop_first-found ps p worker expiry s id xs e =
      rw (e, get_last?-snoc xs id, pop_first) (simp (r.get-zadd, r.get-rpop))

  pop_numbers :
      (n a d p : ℕ) (worker : String) (expiry : ℤ) (s : State) (id : ℕ) (xs : List ℕ)
      → p ≡ a + d
      → d < n
      → ((q : ℕ) → q < p → items s (ready (pos q)) ≡ [])
      → items s (ready (pos p)) ≡ xs ++ id ∷ []
      → pop_first c r (numbers a n) worker expiry s
        ≡ (taken p worker expiry id s, some (id, get s id))
  pop_numbers zero a d p worker expiry s id xs at h empty e = absurd (omega arith)
  pop_numbers (suc n) a zero p worker expiry s id xs at h empty e =
      rw (let same : a ≡ p = omega arith in same)
        (pop_first-found (numbers (suc p) n) p worker expiry s id xs e)
  pop_numbers (suc n) a (suc d) p worker expiry s id xs at h empty e =
      pop_first-empty (numbers (suc a) n) a worker expiry s (empty a (omega arith))
      ∙ pop_numbers n (suc a) d p worker expiry s id xs (omega arith) (omega arith) empty e

  pop_none :
      (n a : ℕ) (worker : String) (expiry : ℤ) (s : State)
      → ((q : ℕ) → q < a + n → items s (ready (pos q)) ≡ [])
      → pop_first c r (numbers a n) worker expiry s ≡ (s, none)
  unfolding pop_first
  pop_none zero a worker expiry s empty = refl
  pop_none (suc n) a worker expiry s empty =
      pop_first-empty (numbers (suc a) n) a worker expiry s (empty a (omega arith))
      ∙ pop_none n (suc a) worker expiry s (λ q h. empty q (omega arith))

  -- Whether the script was cached, or the fallback ran it.
  abbrev pub Reached : (sha full : Option Error) → Type 0
  Reached sha full = (sha ≡ none) ⊎ (full ≡ none)

  dequeue-script :
      (sha full : Option Error) (clock_ms : ℤ) (worker : String) (timeout : ℕ) (s s' : State)
      (reply : Option (ℕ × Option c.Blob))
      → Reached sha full
      → pop_first c r priorities worker (clock_ms +ℤ pos (timeout / 1000000)) s ≡ (s', reply)
      → dequeue c r sha full clock_ms worker timeout s ≡ (s', decode_reply c r reply)
  unfolding dequeue
  dequeue-script none full clock_ms worker timeout s s' reply h e = rw e
  dequeue-script (some x) none clock_ms worker timeout s s' reply h e = rw e
  dequeue-script (some x) (some y) clock_ms worker timeout s s' reply h e = ground arith

  -- Dequeue takes the oldest job of the first priority that has one: if the queues before p are
  -- empty and the queue of p ends with id, then id leaves that queue and no other, becomes in-flight
  -- for the worker until the timeout given to Dequeue has passed, and its text, which is kept, is
  -- what the result is decoded from.
  pub dequeue-oldest :
      (sha full : Option Error) (clock_ms : ℤ) (worker : String) (timeout : ℕ) (s : State)
      (p id : ℕ) (xs : List ℕ)
      → Reached sha full
      → p ≤ 9
      → ((q : ℕ) → q < p → items s (ready (pos q)) ≡ [])
      → items s (ready (pos p)) ≡ xs ++ id ∷ []
      → let (s', res) = dequeue c r sha full clock_ms worker timeout s in
        (res ≡ decode_reply c r (some (id, get s id)))
        × (items s' (ready (pos p)) ≡ xs)
        × ((l : ListKey) → list_key_eq (ready (pos p)) l ≡ false → items s' l ≡ items s l)
        × (score s' (inflight worker) id ≡ some (clock_ms +ℤ pos (timeout / 1000000)))
        × ((i : ℕ) → get s' i ≡ get s i)
  dequeue-oldest sha full clock_ms worker timeout s p id xs reached h empty e =
      rw
        (dequeue-script sha full clock_ms worker timeout s
          (taken p worker (clock_ms +ℤ pos (timeout / 1000000)) id s) (some (id, get s id)) reached
          (pop_numbers 10 0 p p worker (clock_ms +ℤ pos (timeout / 1000000)) s id xs (omega arith)
            (omega arith) empty e))
        (
          refl,
          simp (r.items-zadd, r.items-rpop, list_key_eq_refl, e, drop_last-snoc),
          λ l other. simp (r.items-zadd, r.items-rpop, other),
          simp (r.score-zadd, zset_key_eq_refl, ==_refl),
          λ i. simp (r.get-zadd, r.get-rpop),
        )

  pub ready-lt :
      (x : ℤ) (p q : ℕ) → x ≡ pos p → q < p → list_key_eq (ready x) (ready (pos q)) ≡ false
  unfolding list_key_eq
  ready-lt x p q e h = rw e (ground arith)

  pub decode_text :
      (id : ℕ) (text : Option c.Blob) (b : c.Blob) (k : Job)
      → text ≡ some b
      → c.unmarshal b ≡ some k
      → decode_reply c r (some (id, text)) ≡ ok k
  unfolding decode_reply
  decode_text id text b k e d = rw (e, d, decode_reply)

  -- Acknowledge removes the text of the job and its in-flight entry of the worker, and nothing else.
  pub acknowledge-removes :
      (id : ℕ) (worker : String) (s : State)
      → let (s', e) = acknowledge c r none id worker s in
        (e ≡ none)
        × (get s' id ≡ none)
        × (score s' (inflight worker) id ≡ none)
        × ((l : ListKey) → items s' l ≡ items s l)
        × ((i : ℕ)
            → (id == i) ≡ false
            → (get s' i ≡ get s i) × ((k : ZsetKey) → score s' k i ≡ score s k i))
  unfolding acknowledge
  acknowledge-removes id worker s = (
    refl,
    simp (r.get-zrem, r.get-del, ==_refl),
    simp (r.score-zrem, zset_key_eq_refl, ==_refl),
    λ l. simp (r.items-zrem, r.items-del),
    λ i other. (
      simp (r.get-zrem, r.get-del, other),
      λ k. ground (arith, r.score-zrem (inflight worker) id (del id s) k i, r.score-del id s k i),
    ),
  )
