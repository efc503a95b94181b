-- ===== src/Store/Rows.antt =====
-- What the changes of internal/store/postgres.go do to the rows that a query finds.
use mathlib.Core.Option
use distributed_task_schedul.Prelude.{
  ℕ, ◌≡◌, List, none, if◌then◌else◌, some, ◌++◌, ◌==◌, ◌∷◌, [], arith, refl,
}
use distributed_task_schedul.Store.Tables.{find_row, history_of, Row, Entry}
use distributed_task_schedul.Store.Jobs.{update_rows, delete_rows, delete_history}

pub find_row-append :
    (row : Row) (rows : List Row) (k : ℕ)
    → find_row row.id rows ≡ none
    → find_row k (rows ++ (row ∷ [])) ≡ (if row.id == k then some row else find_row k rows)
unfolding find_row
find_row-append row [] k h = refl
find_row-append row (r ∷ rs) k h = ground (arith, find_row-append row rs k)

pub find_row-update :
    (f : Row → Row) (i : ℕ) (rows : List Row) (k : ℕ)
    → ((r : Row) → (f r).id ≡ r.id)
    → find_row k (update_rows f i rows)
      ≡ (if i == k then Option.map f (find_row k rows) else find_row k rows)
unfolding find_row update_rows
find_row-update f i [] k h = ground arith
find_row-update f i (r ∷ rs) k h = ground (arith, h r, find_row-update f i rs k h)

pub find_row-delete :
    (i : ℕ) (rows : List Row) (k : ℕ)
    → find_row k (delete_rows i rows) ≡ (if i == k then none else find_row k rows)
unfolding find_row delete_rows
find_row-delete i [] k = ground arith
find_row-delete i (r ∷ rs) k = ground (arith, find_row-delete i rs k)

pub history_of-append :
    (i : ℕ) (xs ys : List Entry) → history_of i (xs ++ ys) ≡ history_of i xs ++ history_of i ys
unfolding history_of
history_of-append i [] ys = refl
history_of-append i (x ∷ xs) ys = ground (arith, history_of-append i xs ys)

pub history_of-delete :
    (i : ℕ) (xs : List Entry) (k : ℕ)
    → history_of k (delete_history i xs) ≡ (if i == k then [] else history_of k xs)
unfolding history_of delete_history
history_of-delete i [] k = ground arith
history_of-delete i (x ∷ xs) k = ground (arith, history_of-delete i xs k)

pub find_row-id : (i : ℕ) (rows : List Row) (row : Row) → find_row i rows ≡ some row → row.id ≡ i
unfolding find_row
find_row-id i [] row h = cc
find_row-id i (r ∷ rs) row h = ground (arith, find_row-id i rs row)
