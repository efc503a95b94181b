-- ===== src/Worker/Heartbeat.antt =====
-- heartbeat and heartbeatLoop of internal/worker/pool.go: what a worker tells the store.
use distributed_task_schedul.Prelude.{
  Option, String, ℤ, List, ◌∷◌, pos, [], none, str_eq, ◌≡◌, some, false, true, Option-cases, ◌∙◌,
  inr, inl, refl, subst, sym,
}
use distributed_task_schedul.Store.Tables.{Postgres, Tables, WorkerHeartbeat}
use distributed_task_schedul.Errors.{Error}
use distributed_task_schedul.Store.Heartbeats.{
  record_heartbeat, find_worker, record_heartbeat-found,
}

-- One tick of the loop: the failure of the call to the store, and the two readings of the clock.
pub record Beat : Type 0 where
  pub failure : Option Error
  pub now : ℤ
  pub started : ℤ

module _ (d : Postgres) (worker : String) (concurrency : ℤ) where
  unfoldable pub heartbeat : Beat → Tables → Tables × Option Error
  heartbeat b t =
      record_heartbeat d b.failure
        record {
          worker_id = worker;
          hostname = worker;
          concurrency = concurrency;
          active_jobs = pos 0;
          last_heartbeat = b.now;
          started_at = b.started;
        }
        t

  -- The loop over its ticks, until the context is done; a failure is only logged.
  unfoldable pub heartbeat_loop : List Beat → Tables → Tables
  heartbeat_loop [] t = t
  heartbeat_loop (b ∷ bs) t = heartbeat_loop bs (heartbeat b t).0

  -- The time of the last heartbeat that the store took, from one at `at` on.
  unfoldable pub latest : (at : ℤ) → List Beat → ℤ
  latest at [] = at
  latest at (b ∷ bs) = elim b.failure [ none ↦ latest b.now bs | some e ↦ latest at bs ]

  latest-taken :
      (at : ℤ) (b : Beat) (bs : List Beat) → b.failure ≡ none → latest at (b ∷ bs) ≡ latest b.now bs
  unfolding latest
  latest-taken at b bs n = simp n

  latest-lost :
      (at : ℤ) (b : Beat) (bs : List Beat) (e : Error)
      → b.failure ≡ some e
      → latest at (b ∷ bs) ≡ latest at bs
  unfolding latest
  latest-lost at b bs e n = simp n

  -- The record of the worker says since when it runs and when it was last heard of.
  abbrev pub IsAlive : (started at : ℤ) → Tables → Type 0
  IsAlive started at t =
      (w : WorkerHeartbeat) × (find_worker worker t.heartbeats ≡ some w)
      × (w.started_at ≡ d.timestamp started)
      × (w.last_heartbeat ≡ d.timestamp at)

  -- The records of other workers.
  abbrev pub OthersKept : Tables → Tables → Type 0
  OthersKept t t' =
      (name : String)
      → str_eq worker name ≡ false
      → find_worker name t'.heartbeats ≡ find_worker name t.heartbeats

  abbrev pub Reports : (started at : ℤ) → (before after : Tables) → Type 0
  Reports started at t t' = IsAlive started at t' × OthersKept t t'

  heartbeat-lost : (b : Beat) (e : Error) (t : Tables) → b.failure ≡ some e → (heartbeat b t).0 ≡ t
  unfolding heartbeat record_heartbeat
  heartbeat-lost b e t h = rw h refl

  -- What record_heartbeat-found says of a heartbeat that the store takes.
  heartbeat-written :
      (b : Beat) (t : Tables)
      → d.fits 64 worker ≡ true
      → d.fits 256 worker ≡ true
      → b.failure ≡ none
      → let t' = (heartbeat b t).0 in
        ((w : WorkerHeartbeat) × (find_worker worker t'.heartbeats ≡ some w)
          × (w.last_heartbeat ≡ d.timestamp b.now)
          × (find_worker worker t.heartbeats ≡ none → w.started_at ≡ d.timestamp b.started)
          × ((old : WorkerHeartbeat)
              → find_worker worker t.heartbeats ≡ some old
              → w.started_at ≡ old.started_at))
        × OthersKept t t'
  unfolding heartbeat
  heartbeat-written b t f g n =
      let hb : WorkerHeartbeat = record {
        worker_id = worker;
        hostname = worker;
        concurrency = concurrency;
        active_jobs = pos 0;
        last_heartbeat = b.now;
        started_at = b.started;
      } in
      let (_, (w, found, last, _, first, start), others) = record_heartbeat-found d hb t f g in
      rw n ((w, found, last, first, start), others)

  loop-Reports :
      (bs : List Beat) (started at : ℤ) (t : Tables)
      → d.fits 64 worker ≡ true
      → d.fits 256 worker ≡ true
      → IsAlive started at t
      → Reports started (latest at bs) t (heartbeat_loop bs t)
  unfolding heartbeat_loop latest
  loop-Reports [] started at t f g alive = (alive, λ name ne. refl)
  loop-Reports (b ∷ bs) started at t f g (w, found, start, last) = elim (Option-cases b.failure) [
    | inr (e, n) ↦
        subst (λ x. Reports started x t (heartbeat_loop (b ∷ bs) t)) (sym (latest-lost at b bs e n))
          (subst (λ t'. Reports started (latest at bs) t (heartbeat_loop bs t'))
            (sym (heartbeat-lost b e t n))
            (loop-Reports bs started at t f g (w, found, start, last)))
    | inl n ↦
        let ((w', found', last', _, kept), others) = heartbeat-written b t f g n in
        let alive : IsAlive started b.now (heartbeat b t).0 =
          (w', found', kept w found ∙ start, last') in
        let (alive', others') = loop-Reports bs started b.now (heartbeat b t).0 f g alive in
        subst (λ x. Reports started x t (heartbeat_loop (b ∷ bs) t)) (sym (latest-taken at b bs n))
          (alive', λ name ne. others' name ne ∙ others name ne)
  ]

  -- The loop of a worker that the store does not know yet, whose first heartbeat is taken: whatever fails later, its record has the start time of that heartbeat and the time of the last one that was taken, and the records of workers with other ids do not change.
  pub heartbeat_loop-IsAlive :
      (b : Beat) (bs : List Beat) (t : Tables)
      → d.fits 64 worker ≡ true
      → d.fits 256 worker ≡ true
      → b.failure ≡ none
      → find_worker worker t.heartbeats ≡ none
      → Reports b.started (latest b.now bs) t (heartbeat_loop (b ∷ bs) t)
  unfolding heartbeat_loop
  heartbeat_loop-IsAlive b bs t f g n new =
      let ((w, found, last, first, _), others) = heartbeat-written b t f g n in
      let (alive, others') =
        loop-Reports bs b.started b.now (heartbeat b t).0 f g (w, found, first new, last) in
      (alive, λ name ne. others' name ne ∙ others name ne)
