-- ===== src/Queue/Reclaim/One.antt =====
-- The body of the inner loop of ReclaimOrphaned, for one job (internal/queue/redis.go).
use mathlib.Core.Option.{some-injective}
use distributed_task_schedul.Prelude.{
  ℕ, ◌≡◌, ℤ, String, none, some, ◌⊎◌, ◌==◌, if◌then◌else◌, Option-cases, false, inl, true, inr,
  ==_refl, refl, sym, arith, ◌∙◌, Bool-cases, subst, ==_iff, ap,
}
use distributed_task_schedul.Queue.Redis.{
  Codec, Redis, inflight, contains, ListKey, ready, zset_key_eq_refl, list_key_eq_refl,
}
use distributed_task_schedul.Queue.Background.{reclaim_one, read_job}
use distributed_task_schedul.Models.Job.{Job}
use distributed_task_schedul.Queue.Operations.{reclaimed_job, job_ttl}
use distributed_task_schedul.Queue.Failure.{requeue-done}

module _ (c : Codec) (r : Redis c.Blob) (id_low : ℕ → ℕ) (now : ℤ) (worker : String) where
  open r use {State, get, items, score, range, set, lpush, zrem}

  abbrev pub one : ℕ → State → State
  one id s = (reclaim_one c r id_low (λ _. none) (λ _. none) (λ _. none) now worker id s).0

  -- The text under a job's key is that of the job.
  abbrev pub IsNamed : State → Type 0
  IsNamed s = (i : ℕ) (b : c.Blob) (j : Job) → get s i ≡ some b → c.unmarshal b ≡ some j → j.id ≡ i

  -- Every job that json.Unmarshal has made can be written again as ReclaimOrphaned changes it.
  abbrev pub CanMarshal : Type 0
  CanMarshal =
      (text : c.Blob) (j : Job)
      → c.unmarshal text ≡ some j
      → (b : c.Blob) × (c.marshal (reclaimed_job id_low now j) ≡ some b)

  read_job-unmarshal :
      (id : ℕ) (s : State) (j : Job)
      → read_job c r (λ _. none) s id ≡ some j
      → (text : c.Blob) × (c.unmarshal text ≡ some j)
  unfolding read_job
  read_job-unmarshal id s j h = elim (Option-cases (get s id)) [
    | inl n ↦ ground (arith, h, n)
    | inr (b, n) ↦ (b, ground (arith, h, n))
  ]

  -- The text of a job that was read, as ReclaimOrphaned changes it.
  rewrites :
      (can : CanMarshal) (id : ℕ) (s : State) (j : Job)
      → read_job c r (λ _. none) s id ≡ some j
      → (b : c.Blob) × (c.marshal (reclaimed_job id_low now j) ≡ some b)
  rewrites can id s j h = let (text, u) = read_job-unmarshal id s j h in can text j u

  one-missing :
      (id : ℕ) (s : State)
      → read_job c r (λ _. none) s id ≡ none
      → one id s ≡ zrem (inflight worker) id s
  unfolding reclaim_one
  one-missing id s h = rw (one, reclaim_one, h) refl

  one-read :
      (id : ℕ) (s : State) (j : Job) (b : c.Blob)
      → read_job c r (λ _. none) s id ≡ some j
      → c.marshal (reclaimed_job id_low now j) ≡ some b
      → let back = reclaimed_job id_low now j in
        one id s
        ≡ zrem (inflight worker) id (lpush (ready back.priority) back.id (set back.id b job_ttl s))
  unfolding reclaim_one
  one-read id s j b h m =
      let done = requeue-done c r (reclaimed_job id_low now j) b s m in
      rw (one, reclaim_one, h, done, done) refl

  one-cases :
      (can : CanMarshal) (id : ℕ) (s : State)
      → (one id s ≡ zrem (inflight worker) id s)
        ⊎ ((j : Job) × (b : c.Blob) × (read_job c r (λ _. none) s id ≡ some j)
            × (c.marshal (reclaimed_job id_low now j) ≡ some b)
            × (let back = reclaimed_job id_low now j in
                one id s
                ≡ zrem
                    (inflight worker)
                    id
                    (lpush (ready back.priority) back.id (set back.id b job_ttl s))))
  one-cases can id s = elim (Option-cases (read_job c r (λ _. none) s id)) [
    | inl h ↦ inl (one-missing id s h)
    | inr (j, h) ↦ let (b, m) = rewrites can id s j h in inr (j, b, h, m, one-read id s j b h m)
  ]

  read_job-missing : (id : ℕ) (s : State) → get s id ≡ none → read_job c r (λ _. none) s id ≡ none
  unfolding read_job
  read_job-missing id s h = rw (read_job, h) refl

  pub read_job-text :
      (id : ℕ) (s : State) (b : c.Blob)
      → get s id ≡ some b
      → read_job c r (λ _. none) s id ≡ c.unmarshal b
  unfolding read_job
  read_job-text id s b h = rw (read_job, h) refl

  pub read_job-get :
      (s t : State) (k : ℕ)
      → get s k ≡ get t k
      → read_job c r (λ _. none) s k ≡ read_job c r (λ _. none) t k
  unfolding read_job
  read_job-get s t k e = rw (read_job, e) refl

  read_job-named :
      (id : ℕ) (s : State) (j : Job)
      → IsNamed s
      → read_job c r (λ _. none) s id ≡ some j
      → j.id ≡ id
  read_job-named id s j named h = elim (Option-cases (get s id)) [
    | inl n ↦ cc (read_job-missing id s n, h)
    | inr (b, n) ↦ named id b j n (sym (read_job-text id s b n) ∙ h)
  ]

  pub one-get :
      (can : CanMarshal) (id : ℕ) (s : State) (k : ℕ)
      → IsNamed s
      → (id == k) ≡ false
      → get (one id s) k ≡ get s k
  unfolding reclaimed_job
  one-get can id s k named ne = elim (one-cases can id s) [
    | inl e ↦ rw e (r.get-zrem (inflight worker) id s k)
    | inr (j, text, h, _, e) ↦
        let same = read_job-named id s j named h in
        rw e (simp (r.get-zrem, r.get-lpush, r.get-set, same, ne))
  ]

  pub one-score :
      (can : CanMarshal) (id : ℕ) (s : State) (k : ℕ)
      → score (one id s) (inflight worker) k
        ≡ (if id == k then none else score s (inflight worker) k)
  one-score can id s k = elim (one-cases can id s) [
    | inl e ↦ rw e (simp (r.score-zrem, zset_key_eq_refl))
    | inr (j, text, h, _, e) ↦
        rw e (simp (r.score-zrem, r.score-lpush, r.score-set, zset_key_eq_refl))
  ]

  pub one-keeps :
      (can : CanMarshal) (id : ℕ) (s : State) (l : ListKey) (k : ℕ)
      → contains (items s l) k ≡ true
      → contains (items (one id s) l) k ≡ true
  unfolding contains
  one-keeps can id s l k h = elim (one-cases can id s) [
    | inl e ↦ rw (e, r.items-zrem (inflight worker) id s l) h
    | inr (j, text, _, _, e) ↦
        let back = reclaimed_job id_low now j in
        ground (
          arith,
          h,
          e,
          r.items-zrem (inflight worker) id
              (lpush (ready back.priority) back.id (set back.id text job_ttl s)) l,
          r.items-lpush (ready back.priority) back.id (set back.id text job_ttl s) l,
          r.items-set back.id text job_ttl s l,
        )
  ]

  pub one-pushes :
      (can : CanMarshal) (id : ℕ) (s : State) (j : Job)
      → IsNamed s
      → read_job c r (λ _. none) s id ≡ some j
      → contains (items (one id s) (ready j.priority)) id ≡ true
  unfolding reclaimed_job contains
  one-pushes can id s j named h =
      let back = reclaimed_job id_low now j in
      let same = read_job-named id s j named h in
      let (text, m) = rewrites can id s j h in
      rw (one-read id s j text h m)
        (simp (r.items-zrem, r.items-lpush, r.items-set, list_key_eq_refl, same, ==_refl))

  rewritten :
      (id i : ℕ) (s : State) (k : Job) (text : c.Blob)
      → (let back = reclaimed_job id_low now k in
          one id s
          ≡ zrem
              (inflight worker)
              id
              (lpush (ready back.priority) back.id (set back.id text job_ttl s)))
      → k.id ≡ id
      → (id == i) ≡ true
      → get (one id s) i ≡ some text
  unfolding reclaimed_job
  rewritten id i s k text e same eq = rw e (simp (r.get-zrem, r.get-lpush, r.get-set, same, eq))

  pub one-IsNamed : (can : CanMarshal) (id : ℕ) (s : State) → IsNamed s → IsNamed (one id s)
  unfolding reclaimed_job
  one-IsNamed can id s named i b j g u = elim (Bool-cases (id == i)) [
    | inr ne ↦ named i b j (sym (one-get can id s i named ne) ∙ g) u
    | inl eq ↦ elim (one-cases can id s) [
      | inl e ↦ named i b j (sym (rw e (r.get-zrem (inflight worker) id s i)) ∙ g) u
      | inr (k, text, h, written, e) ↦
          let back = reclaimed_job id_low now k in
          let same = read_job-named id s k named h in
          let stored = rewritten id i s k text e same eq in
          let (read, um, kept) = c.unmarshal-marshal back text written in
          let again =
            subst (λ x. c.unmarshal x ≡ some j) (sym (some-injective text b (sym stored ∙ g))) u in
          sym (ap (λ x. x.id) (some-injective read j (sym um ∙ again)))
          ∙ ap (λ x. x.id) kept
          ∙ same
          ∙ (==_iff id i).0 eq
    ]
  ]
