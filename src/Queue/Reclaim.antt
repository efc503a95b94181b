-- ===== src/Queue/Reclaim.antt =====
-- What ReclaimOrphaned does with the in-flight jobs of a worker (internal/queue/redis.go), where
-- Redis serves its calls.
pub mod One
use mathlib.Core.Option.{some-injective}
use distributed_task_schedul.Prelude.{
  ℕ, ◌≡◌, ℤ, String, List, none, some, ◌⊎◌, ◌==◌, if◌then◌else◌, Option-cases, false, inl, true,
  inr, ==_refl, refl, sym, arith, ◌∙◌, Bool-cases, ◌∷◌, [], subst, ==_iff, ◌<ℤ◌, pos, ◌≤ℤ◌, ◌-ℤ◌,
  ap,
}
use distributed_task_schedul.Queue.Redis.{
  Codec, Redis, inflight, contains, ListKey, ready, zset_key_eq_refl, list_key_eq_refl,
}
use distributed_task_schedul.Queue.Background.{reclaim_one, read_job, reclaim_jobs, reclaim_worker}
use distributed_task_schedul.Models.Job.{Job}
use distributed_task_schedul.Queue.Operations.{reclaimed_job, job_ttl, unix_milli}
use distributed_task_schedul.Queue.Failure.{requeue-done}
use distributed_task_schedul.Queue.Reclaim.One.{
  one, one-keeps, one-score, one-pushes, one-IsNamed, one-get, read_job-get, IsNamed, CanMarshal,
  read_job-text,
}

module _ (c : Codec) (r : Redis c.Blob) (id_low : ℕ → ℕ) (now : ℤ) (worker : String) where
  open r use {State, get, items, score, range, set, lpush, zrem}

  abbrev all_of : List ℕ → State → State
  all_of ids s = (reclaim_jobs c r id_low (λ _. none) (λ _. none) (λ _. none) now worker ids s).0

  all-keeps :
      (can : CanMarshal c r id_low now worker) (ids : List ℕ) (s : State) (l : ListKey) (k : ℕ)
      → contains (items s l) k ≡ true
      → contains (items (all_of ids s) l) k ≡ true
  unfolding reclaim_jobs
  all-keeps can [] s l k h = h
  all-keeps can (id ∷ ids) s l k h =
      all-keeps can ids (one c r id_low now worker id s) l k
        (one-keeps c r id_low now worker can id s l k h)

  all-score :
      (can : CanMarshal c r id_low now worker) (ids : List ℕ) (s : State) (k : ℕ)
      → score (all_of ids s) (inflight worker) k
        ≡ (if contains ids k then none else score s (inflight worker) k)
  unfolding reclaim_jobs contains
  all-score can [] s k = refl
  all-score can (id ∷ ids) s k = ground (
    arith,
    all-score can ids (one c r id_low now worker id s) k,
    one-score c r id_low now worker can id s k,
  )

  all-pushes :
      (can : CanMarshal c r id_low now worker) (ids : List ℕ) (s : State) (k : ℕ) (j : Job)
      → IsNamed c r id_low now worker s
      → contains ids k ≡ true
      → read_job c r (λ _. none) s k ≡ some j
      → contains (items (all_of ids s) (ready j.priority)) k ≡ true
  unfolding reclaim_jobs contains
  all-pushes can [] s k j named m h = cc (m)
  all-pushes can (id ∷ ids) s k j named m h = elim (Bool-cases (id == k)) [
    | inl eq ↦
        let q = (==_iff id k).0 eq in
        let pushed =
          one-pushes c r id_low now worker can id s j named
            (subst (λ x. read_job c r (λ _. none) s x ≡ some j) (sym q) h) in
        all-keeps can ids (one c r id_low now worker id s) (ready j.priority) k (
          subst (λ x. contains (items (one c r id_low now worker id s) (ready j.priority)) x ≡ true)
            q pushed)
    | inr ne ↦
        all-pushes can ids (one c r id_low now worker id s) k j
          (one-IsNamed c r id_low now worker can id s named) (ground (arith, m, ne))
          (read_job-get c r id_low now worker (one c r id_low now worker id s) s k
              (one-get c r id_low now worker can id s k named ne)
            ∙ h)
  ]

  not_due :
      (s : State) (k : ℕ) (x cutoff : ℤ)
      → score s (inflight worker) k ≡ some x
      → cutoff <ℤ x
      → contains (range s (inflight worker) (pos 0) cutoff) k ≡ false
  not_due s k x cutoff h late =
      elim (Bool-cases (contains (range s (inflight worker) (pos 0) cutoff) k)) [
        | inr e ↦ e
        | inl e ↦
            let (y, g, _, hi) = (r.range_iff s (inflight worker) (pos 0) cutoff k).0 e in
            absurd
              (omega (arith, late, subst (λ z. z ≤ℤ cutoff) (some-injective y x (sym g ∙ h)) hi))
      ]

  -- ReclaimOrphaned on the in-flight set of a worker, where no call of Redis fails, each text is kept under the id of its job, and every job that was read can be written again: every job in the set whose score is from 0 to the cutoff, and whose text decodes, is in its ready queue afterwards and no longer in flight; the jobs whose time has not run out keep their entries.
  pub reclaim_worker-requeues :
      (can : CanMarshal c r id_low now worker) (max_age : ℤ) (s : State)
      → IsNamed c r id_low now worker s
      → let cutoff = unix_milli (now -ℤ max_age) in
        let s' =
          (reclaim_worker c r id_low none
            (λ _. none)
            (λ _. none)
            (λ _. none)
            now
            max_age
            worker
            s).0 in
        ((k : ℕ) (j : Job) (b : c.Blob) (x : ℤ)
          → score s (inflight worker) k ≡ some x
          → pos 0 ≤ℤ x
          → x ≤ℤ cutoff
          → get s k ≡ some b
          → c.unmarshal b ≡ some j
          → (contains (items s' (ready j.priority)) k ≡ true)
            × (score s' (inflight worker) k ≡ none))
        × ((k : ℕ) (x : ℤ)
            → score s (inflight worker) k ≡ some x
            → cutoff <ℤ x
            → score s' (inflight worker) k ≡ some x)
  unfolding reclaim_worker
  reclaim_worker-requeues can max_age s named =
      let cutoff = unix_milli (now -ℤ max_age) in
      let due = range s (inflight worker) (pos 0) cutoff in
      (
        λ k j b x h lo hi g u.
            let read = read_job-text c r id_low now worker k s b g ∙ u in
            let m = (r.range_iff s (inflight worker) (pos 0) cutoff k).1 (x, h, lo, hi) in
            (all-pushes can due s k j named m read, all-score can due s k ∙ rw m refl),
        λ k x h late. let left = not_due s k x cutoff h late in all-score can due s k ∙ rw left h,
      )
