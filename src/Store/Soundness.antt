-- ===== src/Store/Soundness.antt =====
-- What holds of the tables in every state that the store's operations reach
-- (internal/store/postgres.go): ids are unique, statuses are those of the enum, and the history only
-- speaks of stored jobs.
use distributed_task_schedul.Prelude.{
  List, ◌∷◌, ◌≡◌, ℕ, none, some, [], Bool-cases, ◌++◌, true, ◌==◌, arith, inl, refl, inr, ==_iff,
}
use distributed_task_schedul.Store.Tables.{Tables, find_row, Row, Entry, is_known}
use distributed_task_schedul.Store.Jobs.{update_rows, delete_rows, delete_history}
use distributed_task_schedul.Store.Rows.{find_row-append, find_row-update, find_row-delete}

-- The rows have different ids, and statuses of the enum.
abbrev pub RowsSound : List Row → Type 0
RowsSound [] = Unit
RowsSound (row ∷ rows) =
    (find_row row.id rows ≡ none) × (is_known row.status ≡ true) × RowsSound rows

-- An entry is about a stored job, and its statuses are those of the enum.
abbrev pub EntrySound : List Row → Entry → Type 0
EntrySound rows e =
    ((row : Row) × (find_row e.job_id rows ≡ some row))
    × (is_known e.old_status ≡ true)
    × (is_known e.new_status ≡ true)

abbrev pub HistorySound : List Row → List Entry → Type 0
HistorySound rows [] = Unit
HistorySound rows (e ∷ es) = EntrySound rows e × HistorySound rows es

pub record IsSound (t : Tables) : Type 0 where
  pub rows_sound : RowsSound t.jobs
  pub history_sound : HistorySound t.jobs t.history

pub RowsSound-append :
    (row : Row) (rows : List Row)
    → find_row row.id rows ≡ none
    → is_known row.status ≡ true
    → RowsSound rows
    → RowsSound (rows ++ (row ∷ []))
unfolding find_row
RowsSound-append row [] n k s = (refl, k, tt)
RowsSound-append row (r ∷ rs) n k (a, b, s) =
    (ground (arith, find_row-append row rs r.id), b, RowsSound-append row rs (ground arith) k s)

pub RowsSound-update :
    (f : Row → Row) (i : ℕ) (rows : List Row)
    → ((r : Row) → (f r).id ≡ r.id)
    → ((r : Row) → is_known (f r).status ≡ true)
    → RowsSound rows
    → RowsSound (update_rows f i rows)
unfolding update_rows
RowsSound-update f i [] same known s = tt
RowsSound-update f i (r ∷ rs) same known (a, b, s) = elim (Bool-cases (r.id == i)) [
  | inl e ↦ rw e (
    rw (same r, find_row-update f i rs r.id same, a) (ground arith),
    known r,
    RowsSound-update f i rs same known s,
  )
  | inr e ↦ rw e (
    rw (find_row-update f i rs r.id same, a) (ground arith),
    b,
    RowsSound-update f i rs same known s,
  )
]

pub RowsSound-delete : (i : ℕ) (rows : List Row) → RowsSound rows → RowsSound (delete_rows i rows)
unfolding delete_rows
RowsSound-delete i [] s = tt
RowsSound-delete i (r ∷ rs) (a, b, s) = elim (Bool-cases (r.id == i)) [
  | inl e ↦ rw e (RowsSound-delete i rs s)
  | inr e ↦ rw e (rw (find_row-delete i rs r.id, a) (ground arith), b, RowsSound-delete i rs s)
]

pub RowsSound-known :
    (i : ℕ) (rows : List Row) (row : Row)
    → RowsSound rows
    → find_row i rows ≡ some row
    → is_known row.status ≡ true
unfolding find_row
RowsSound-known i [] row s h = cc
RowsSound-known i (r ∷ rs) row (a, b, s) h = ground (arith, RowsSound-known i rs row s)

-- Every job that is found before is found after.
abbrev pub Keeps : List Row → List Row → Type 0
Keeps rows rows' =
    (k : ℕ) (row : Row) → find_row k rows ≡ some row → (row' : Row) × (find_row k rows' ≡ some row')

pub HistorySound-Keeps :
    (rows rows' : List Row) (es : List Entry)
    → Keeps rows rows'
    → HistorySound rows es
    → HistorySound rows' es
HistorySound-Keeps rows rows' [] keeps h = tt
HistorySound-Keeps rows rows' (e ∷ es) keeps ((found, a, b), h) =
    ((keeps e.job_id found.0 found.1, a, b), HistorySound-Keeps rows rows' es keeps h)

pub HistorySound-append :
    (rows : List Row) (es fs : List Entry)
    → HistorySound rows es
    → HistorySound rows fs
    → HistorySound rows (es ++ fs)
HistorySound-append rows [] fs h g = g
HistorySound-append rows (e ∷ es) fs (a, h) g = (a, HistorySound-append rows es fs h g)

pub HistorySound-delete :
    (i : ℕ) (rows : List Row) (es : List Entry)
    → HistorySound rows es
    → HistorySound (delete_rows i rows) (delete_history i es)
unfolding delete_history
HistorySound-delete i rows [] h = tt
HistorySound-delete i rows (e ∷ es) ((found, a, b), h) = elim (Bool-cases (e.job_id == i)) [
  | inl eq ↦ rw eq (HistorySound-delete i rows es h)
  | inr ne ↦ rw ne (
    ((found.0, ground (arith, find_row-delete i rows e.job_id, found.1)), a, b),
    HistorySound-delete i rows es h,
  )
]

pub Keeps-append :
    (row : Row) (rows : List Row) → find_row row.id rows ≡ none → Keeps rows (rows ++ (row ∷ []))
Keeps-append row rows n k found h =
    (found, ground (arith, find_row-append row rows k n, n, h, ==_iff row.id k))

pub Keeps-update :
    (f : Row → Row) (i : ℕ) (rows : List Row)
    → ((r : Row) → (f r).id ≡ r.id)
    → Keeps rows (update_rows f i rows)
Keeps-update f i rows same k found h = elim (Bool-cases (i == k)) [
  | inl e ↦ (f found, rw (find_row-update f i rows k same, e, h) refl)
  | inr e ↦ (found, rw (find_row-update f i rows k same, e) h)
]
