-- ===== src/Store/Heartbeats.antt =====
-- RecordHeartbeat, GetActiveWorkers and PruneOldHeartbeats (internal/store/postgres.go), and
-- WorkerHeartbeat.IsStale (internal/models/job.go).
use mathlib.Core.Option.{some-injective}
use distributed_task_schedul.Prelude.{
  ℕ, ◌≡◌, ℤ, String, Bool, List, Option, ltb_ℤ, ◌∷◌, none, true, length, if◌then◌else◌, ◌-ℤ◌,
  str_eq, some, arith, ◌+◌, ◌≤ℤ◌, [], not, eq_iff, ◌&&◌, refl, int_laws, ap, false, Option-cases,
  inl, inr, sym, ◌∙◌,
}
use distributed_task_schedul.Store.Tables.{WorkerHeartbeat, Postgres, Tables}
use distributed_task_schedul.Store.Listing.{select}
use distributed_task_schedul.Errors.{Error, Result, wrap, err, ok}
use distributed_task_schedul.Store.Jobs.{refused}

unfoldable pub is_stale : (now threshold : ℤ) → WorkerHeartbeat → Bool
is_stale now threshold hb = ltb_ℤ threshold (now -ℤ hb.last_heartbeat)

-- INSERT … ON CONFLICT (worker_id) DO UPDATE, which keeps started_at.
unfoldable pub upsert : WorkerHeartbeat → List WorkerHeartbeat → List WorkerHeartbeat
upsert hb [] = hb ∷ []
upsert hb (w ∷ ws) =
    let rest = upsert hb ws in
    if str_eq w.worker_id hb.worker_id
    then record hb { started_at = w.started_at } ∷ ws
    else w ∷ rest

unfoldable pub record_heartbeat :
    Postgres → (failure : Option Error) → WorkerHeartbeat → Tables → Tables × Option Error
record_heartbeat d (some e) hb t = (t, some (wrap "record heartbeat" e))
record_heartbeat d none hb t =
    let stored = record hb {
      last_heartbeat = d.timestamp hb.last_heartbeat;
      started_at = d.timestamp hb.started_at;
    } in
    if d.fits 64 hb.worker_id && d.fits 256 hb.hostname
    then (record t { heartbeats = upsert stored t.heartbeats }, none)
    else (t, some (wrap "record heartbeat" refused))

-- WHERE last_heartbeat > $1; `order` is what ORDER BY does.
unfoldable pub get_active_workers :
    Postgres
    → (order : List WorkerHeartbeat → List WorkerHeartbeat) → (failure : Option Error)
    → (now since : ℤ) → Tables
    → Result (List WorkerHeartbeat)
get_active_workers d order (some e) now since t = err (wrap "get active workers" e)
get_active_workers d order none now since t =
    let cutoff = d.timestamp (now -ℤ since) in
    ok (order (select (λ w. ltb_ℤ cutoff w.last_heartbeat) t.heartbeats))

-- DELETE … WHERE last_heartbeat < $1
unfoldable pub prune_old_heartbeats :
    Postgres → (failure : Option Error) → (now max_age : ℤ) → Tables → Tables × Result ℕ
prune_old_heartbeats d (some e) now max_age t = (t, err (wrap "prune heartbeats" e))
prune_old_heartbeats d none now max_age t =
    let cutoff = d.timestamp (now -ℤ max_age) in
    let old = select (λ w. ltb_ℤ w.last_heartbeat cutoff) t.heartbeats in
    let kept = select (λ w. not (ltb_ℤ w.last_heartbeat cutoff)) t.heartbeats in
    (record t { heartbeats = kept }, ok (length old))

-- WHERE worker_id = …
unfoldable pub find_worker : String → List WorkerHeartbeat → Option WorkerHeartbeat
find_worker name [] = none
find_worker name (w ∷ ws) = if str_eq w.worker_id name then some w else find_worker name ws

select_twice {ℓ} :
    {A : Type ℓ} (p q : A → Bool) (xs : List A)
    → ((x : A) → p x ≡ true → q x ≡ true)
    → select p (select q xs) ≡ select p xs
unfolding select
select_twice p q [] h = refl
select_twice p q (x ∷ xs) h = ground (arith, h x, select_twice p q xs h)

length-select_split {ℓ} :
    {A : Type ℓ} (p : A → Bool) (xs : List A)
    → length (select p xs) + length (select (λ x. not (p x)) xs) ≡ length xs
unfolding select
length-select_split p [] = refl
length-select_split p (x ∷ xs) = ground (arith, length-select_split p xs)

-- PruneOldHeartbeats reports how many records it removes, and GetActiveWorkers, asked at the same time for a window no longer than the age of pruning, answers as before.
pub prune-active :
    (d : Postgres) (order : List WorkerHeartbeat → List WorkerHeartbeat) (now since max_age : ℤ)
    (t : Tables)
    → since ≤ℤ max_age
    → let t' = (prune_old_heartbeats d none now max_age t).0 in
      (get_active_workers d order none now since t' ≡ get_active_workers d order none now since t)
      × ((n : ℕ) × ((prune_old_heartbeats d none now max_age t).1 ≡ ok n)
          × (n + length t'.heartbeats ≡ length t.heartbeats))
unfolding prune_old_heartbeats get_active_workers
prune-active d order now since max_age t h =
    let earlier = d.timestamp_mono (now -ℤ max_age) (now -ℤ since) (omega (int_laws, h)) in
    let fresh = λ (w : WorkerHeartbeat). ltb_ℤ (d.timestamp (now -ℤ since)) w.last_heartbeat in
    let old = λ (w : WorkerHeartbeat). ltb_ℤ w.last_heartbeat (d.timestamp (now -ℤ max_age)) in
    (
      ap (λ ws. ok (order ws))
          (select_twice fresh (λ w. not (old w)) t.heartbeats (λ w f. ground (arith, earlier, f))),
      (length (select old t.heartbeats), refl, length-select_split old t.heartbeats),
    )

find_worker-upsert :
    (hb : WorkerHeartbeat) (ws : List WorkerHeartbeat) (name : String)
    → find_worker name (upsert hb ws) ≡ (
        if str_eq hb.worker_id name
        then some (elim (find_worker name ws) [
          | none ↦ hb
          | some w ↦ record hb { started_at = w.started_at }
        ])
        else find_worker name ws)
unfolding find_worker upsert
find_worker-upsert hb [] name = refl
find_worker-upsert hb (w ∷ ws) name = ground (
  arith,
  find_worker-upsert hb ws name,
  eq_iff w.worker_id hb.worker_id,
  eq_iff hb.worker_id name,
  eq_iff w.worker_id name,
)

-- A heartbeat that the server takes: the record of its worker has the new values, with the start time of the worker's record before, if there was one; the records of other workers do not change.
pub record_heartbeat-found :
    (d : Postgres) (hb : WorkerHeartbeat) (t : Tables)
    → d.fits 64 hb.worker_id ≡ true
    → d.fits 256 hb.hostname ≡ true
    → let (t', e) = record_heartbeat d none hb t in
      (e ≡ none)
      × ((w : WorkerHeartbeat) × (find_worker hb.worker_id t'.heartbeats ≡ some w)
          × (w.last_heartbeat ≡ d.timestamp hb.last_heartbeat)
          × (w.active_jobs ≡ hb.active_jobs)
          × (find_worker hb.worker_id t.heartbeats ≡ none
              → w.started_at ≡ d.timestamp hb.started_at)
          × ((old : WorkerHeartbeat)
              → find_worker hb.worker_id t.heartbeats ≡ some old
              → w.started_at ≡ old.started_at))
      × ((name : String)
          → str_eq hb.worker_id name ≡ false
          → find_worker name t'.heartbeats ≡ find_worker name t.heartbeats)
unfolding record_heartbeat
record_heartbeat-found d hb t f g =
    let stored = record hb {
      last_heartbeat = d.timestamp hb.last_heartbeat;
      started_at = d.timestamp hb.started_at;
    } in
    let same = (eq_iff hb.worker_id hb.worker_id).1 refl in
    let found = find_worker-upsert stored t.heartbeats in
    rw (f, g)
      (
        refl,
        elim (Option-cases (find_worker hb.worker_id t.heartbeats)) [
          | inl n ↦ (
            stored,
            rw (found hb.worker_id, same, n) refl,
            refl,
            refl,
            λ h. refl,
            λ old h. cc (n, h),
          )
          | inr (o, n) ↦ (
            record stored { started_at = o.started_at },
            rw (found hb.worker_id, same, n) refl,
            refl,
            refl,
            λ h. cc (n, h),
            λ old h. ap (λ x. x.started_at) (some-injective o old (sym n ∙ h)),
          )
        ],
        λ name ne. rw (found name, ne) refl,
      )
