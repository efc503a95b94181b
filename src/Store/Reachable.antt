-- ===== src/Store/Reachable.antt =====
-- The states that the writing operations of the store reach (internal/store/postgres.go).
use distributed_task_schedul.Prelude.{
  Option, List, ◌∷◌, ℤ, ℕ, ◌≡◌, some, true, Option-cases, Bool-cases, [], ◌++◌, inl, ◌&&◌, inr,
  none, arith, refl, subst, sym, All, ◌+◌,
}
use distributed_task_schedul.Store.Tables.{
  Postgres, Tables, columns_valid, Row, WorkerHeartbeat, find_row, is_known,
}
use distributed_task_schedul.Errors.{Error, ok}
use distributed_task_schedul.Store.Jobs.{
  accepts, create_job, log_change, updated_row, delete_job, update_job_status, UpdateOpt,
  UpdateOpts, update_rows, row_of, options_of,
}
use distributed_task_schedul.Store.Heartbeats.{record_heartbeat, prune_old_heartbeats}
use distributed_task_schedul.Models.Job.{Job}
use distributed_task_schedul.Store.Soundness.{
  IsSound, HistorySound, Keeps-update, RowsSound-append, RowsSound-delete, RowsSound-update,
  HistorySound-delete, HistorySound-Keeps, HistorySound-append, Keeps-append, RowsSound-known,
  RowsSound,
}
use distributed_task_schedul.Models.Status.{JobStatus, status_eq}
use distributed_task_schedul.Store.Lookup.{create_job-cases, accepts-absent, update_job_status-done}
use distributed_task_schedul.Store.Trail.{update_job_status-cases}
use distributed_task_schedul.Store.Rows.{find_row-id}
use distributed_task_schedul.Store.Listing.{QueueStats, get_queue_stats, get_queue_stats-total}

-- A call of the store that writes.
pub data Write : Type 0 where
  creates : (failure : Option Error) → Job → Write
  updates : (failure : Option Error) → (now : ℤ) → ℕ → JobStatus → List UpdateOpt → Write
  deletes : (failure : Option Error) → ℕ → Write
  beats : (failure : Option Error) → WorkerHeartbeat → Write
  prunes : (failure : Option Error) → (now max_age : ℤ) → Write

module _ (d : Postgres) where
  unfoldable pub store_call : Tables → Write → Tables
  store_call t (creates failure j) = (create_job d failure j t).0
  store_call t (updates failure now i status opts) =
      (update_job_status d failure now i status opts t).0
  store_call t (deletes failure i) = (delete_job failure i t).0
  store_call t (beats failure hb) = (record_heartbeat d failure hb t).0
  store_call t (prunes failure now max_age) = (prune_old_heartbeats d failure now max_age t).0

  unfoldable pub store_calls : Tables → List Write → Tables
  store_calls t [] = t
  store_calls t (w ∷ ws) = store_calls (store_call t w) ws

  inserted-IsSound :
      (row : Row) (t : Tables)
      → accepts d row t ≡ true
      → IsSound t
      → IsSound (record t { jobs = t.jobs ++ (row ∷ []) })
  unfolding accepts columns_valid
  inserted-IsSound row t a s =
      let absent = accepts-absent d row t a in
      record {
        rows_sound = RowsSound-append row t.jobs absent (ground (arith, a)) s.rows_sound;
        history_sound =
            HistorySound-Keeps t.jobs (t.jobs ++ (row ∷ [])) t.history
              (Keeps-append row t.jobs absent) s.history_sound;
      }

  create_job-IsSound :
      (failure : Option Error) (j : Job) (t : Tables)
      → IsSound t
      → IsSound (create_job d failure j t).0
  unfolding create_job
  create_job-IsSound (some e) j t s = s
  create_job-IsSound none j t s = elim (create_job-cases d j t) [
    | inl e ↦ rw e s
    | inr (payload, _, a, e) ↦ rw e (inserted-IsSound (row_of d j payload) t a s)
  ]

  log_change_sound :
      (rows : List Row) (now : ℤ) (old new stored : Row)
      → find_row new.id rows ≡ some stored
      → is_known old.status ≡ true
      → is_known new.status ≡ true
      → HistorySound rows (log_change now old new)
  unfolding log_change
  log_change_sound rows now old new stored h a b =
      elim (Bool-cases (status_eq old.status new.status)) [
        | inl e ↦ rw e tt
        | inr e ↦ rw e (((stored, h), a, b), tt)
      ]

  updated-IsSound :
      (now : ℤ) (i : ℕ) (status : JobStatus) (o : UpdateOpts) (t : Tables) (row : Row)
      → find_row i t.jobs ≡ some row
      → is_known status ≡ true
      → IsSound t
      → let change = updated_row d status o now in
        IsSound (record t {
          jobs = update_rows change i t.jobs;
          history = t.history ++ log_change now row (change row);
        })
  unfolding updated_row
  updated-IsSound now i status o t row h k s =
      let change = updated_row d status o now in
      let rows' = update_rows change i t.jobs in
      let keeps = Keeps-update change i t.jobs (λ x. refl) in
      let own = find_row-id i t.jobs row h in
      let (stored, found) =
        keeps row.id row (subst (λ k. find_row k t.jobs ≡ some row) (sym own) h) in
      record {
        rows_sound = RowsSound-update change i t.jobs (λ x. refl) (λ x. k) s.rows_sound;
        history_sound =
            HistorySound-append rows' t.history (log_change now row (change row))
              (HistorySound-Keeps t.jobs rows' t.history keeps s.history_sound)
              (log_change_sound rows' now row (change row) stored found
                (RowsSound-known i t.jobs row s.rows_sound h) k);
      }

  update_job_status-IsSound :
      (failure : Option Error) (now : ℤ) (i : ℕ) (status : JobStatus) (opts : List UpdateOpt)
      (t : Tables)
      → IsSound t
      → IsSound (update_job_status d failure now i status opts t).0
  update_job_status-IsSound failure now i status opts t s =
      elim (update_job_status-cases d failure now i status opts t) [
        | inl e ↦ rw e s
        | inr (row, h, k, sent, w) ↦
            rw (sent, update_job_status-done d now i status opts t row h k w)
              (updated-IsSound now i status (options_of opts) t row h k s)
      ]

  delete_job-IsSound :
      (failure : Option Error) (i : ℕ) (t : Tables) → IsSound t → IsSound (delete_job failure i t).0
  unfolding delete_job
  delete_job-IsSound (some e) i t s = s
  delete_job-IsSound none i t s = elim (Option-cases (find_row i t.jobs)) [
    | inl e ↦ rw (delete_job, e) s
    | inr (row, e) ↦
        rw (delete_job, e)
          record {
            rows_sound = RowsSound-delete i t.jobs s.rows_sound;
            history_sound = HistorySound-delete i t.jobs t.history s.history_sound;
          }
  ]

  -- The heartbeats are a table of their own.
  heartbeats-IsSound :
      (t : Tables) (ws : List WorkerHeartbeat) → IsSound t → IsSound (record t { heartbeats = ws })
  heartbeats-IsSound t ws s = record { rows_sound = s.rows_sound; history_sound = s.history_sound }

  record_heartbeat-IsSound :
      (failure : Option Error) (hb : WorkerHeartbeat) (t : Tables)
      → IsSound t
      → IsSound (record_heartbeat d failure hb t).0
  unfolding record_heartbeat
  record_heartbeat-IsSound (some e) hb t s = s
  record_heartbeat-IsSound none hb t s =
      elim (Bool-cases (d.fits 64 hb.worker_id && d.fits 256 hb.hostname)) [
        | inl e ↦ rw (record_heartbeat, e) (heartbeats-IsSound t _ s)
        | inr e ↦ rw (record_heartbeat, e) s
      ]

  prune_old_heartbeats-IsSound :
      (failure : Option Error) (now max_age : ℤ) (t : Tables)
      → IsSound t
      → IsSound (prune_old_heartbeats d failure now max_age t).0
  unfolding prune_old_heartbeats
  prune_old_heartbeats-IsSound (some e) now max_age t s = s
  prune_old_heartbeats-IsSound none now max_age t s = heartbeats-IsSound t _ s

  store_call-IsSound : (w : Write) (t : Tables) → IsSound t → IsSound (store_call t w)
  unfolding store_call
  store_call-IsSound (creates failure j) t s = create_job-IsSound failure j t s
  store_call-IsSound (updates failure now i status opts) t s =
      update_job_status-IsSound failure now i status opts t s
  store_call-IsSound (deletes failure i) t s = delete_job-IsSound failure i t s
  store_call-IsSound (beats failure hb) t s = record_heartbeat-IsSound failure hb t s
  store_call-IsSound (prunes failure now max_age) t s =
      prune_old_heartbeats-IsSound failure now max_age t s

  calls-IsSound : (ws : List Write) (t : Tables) → IsSound t → IsSound (store_calls t ws)
  unfolding store_calls
  calls-IsSound [] t s = s
  calls-IsSound (w ∷ ws) t s = calls-IsSound ws (store_call t w) (store_call-IsSound w t s)

  RowsSound-All : (rows : List Row) → RowsSound rows → All (λ row. is_known row.status ≡ true) rows
  RowsSound-All [] s = tt
  RowsSound-All (row ∷ rows) (a, b, s) = (b, RowsSound-All rows s)

  -- Whatever is written, failed calls included, the tables stay sound: ids are unique, statuses are those of the enum, the history only speaks of stored jobs; and the six counts of GetQueueStats add up to its total.
  pub store_calls-IsSound :
      (average : List ℤ → Option ℤ) (ws : List Write) (t : Tables)
      → IsSound t
      → IsSound (store_calls t ws)
        × ((stats : QueueStats)
            → get_queue_stats average none (store_calls t ws) ≡ ok stats
            → stats.pending_count + stats.running_count + stats.completed_count + stats.failed_count
                + stats.dead_letter_count + stats.cancelled_count
              ≡ stats.total)
  store_calls-IsSound average ws t s =
      let sound = calls-IsSound ws t s in
      let t' = store_calls t ws in
      (
        sound,
        λ stats. get_queue_stats-total average t' stats (RowsSound-All t'.jobs sound.rows_sound),
      )
