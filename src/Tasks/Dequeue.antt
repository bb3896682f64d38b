-- ===== src/Tasks/Dequeue.antt =====
-- What `dequeue` takes from the pending tasks.
use reins_core.Prelude.{
  ℕ, ◌≡◌, refl, sym, subst, ap, ◌⊎◌, inl, inr, true, false, Option, none, some, [], ◌∷◌, ◌++◌,
  filter, arith, Bool-cases, All,
}
use reins_core.Prelude.Text.{Text, text_eq}
use reins_core.Prelude.Eq.{text_eq_iff}
use reins_core.Tasks.Store.{
  pending, Task, Rows, status_eq, get_task, has_status, has_updates, updated_task, newer, sort_rows,
  list_tasks,
}
use reins_core.Tasks.Store.Order.{
  newer_refl, IsSorted, All-sort_rows, All-of-sort_rows, sort_rows-IsSorted,
}
use reins_core.Tasks.Store.Rows.{HasDistinctIds, update_task-result}
use reins_core.Tasks.Queue.{starting, start, reverse, start_first, dequeue}

-- Of sorted rows the last one is the oldest; it is where the loop begins.
reverse-oldest :
    (P : Task → Type 0) (row : Task) (rows : Rows)
    → IsSorted (row ∷ rows)
    → All P (row ∷ rows)
    → (oldest : Task) × (rest : Rows) × (reverse (row ∷ rows) ≡ oldest ∷ rest)
      × P oldest
      × All (λ u. newer u oldest ≡ true) (row ∷ rows)
      × ((Q : Task → Type 0) → All Q (row ∷ rows) → Q oldest)
unfolding reverse
reverse-oldest P row [] s (p, ps) = (row, [], refl, p, (newer_refl row, tt), λ Q qs. qs.0)
reverse-oldest P row (row' ∷ rows) (below, s) (p, ps) =
    let (oldest, rest, e, q, all_newer, pick) = reverse-oldest P row' rows s ps in
    (
      oldest,
      rest ++ row ∷ [],
      ap (λ r. r ++ row ∷ []) e,
      q,
      (pick (λ u. newer row u ≡ true) below, all_newer),
      λ Q qs. pick Q qs.1,
    )

-- A task that waits: it is pending, and the table has it under its identity.
abbrev Waits : Rows → Task → Type 0
Waits table task = (get_task task.id table ≡ some task) × (status_eq task.status pending ≡ true)

pending-Waits :
    (table rows : Rows)
    → ((u : Task) → get_task u.id rows ≡ some u → get_task u.id table ≡ some u)
    → HasDistinctIds rows
    → All (Waits table) (filter (has_status (some pending)) rows)
unfolding get_task
pending-Waits table [] within d = tt
pending-Waits table (row ∷ rows) within (fresh, d) =
    let rest =
      pending-Waits table rows (λ u e. within u (ground (arith, text_eq_iff row.id u.id))) d in
    let here : get_task row.id table ≡ some row =
      within row (ground (arith, text_eq_iff row.id row.id)) in
    elim (Bool-cases (status_eq row.status pending)) [
      | inl hit ↦ rw hit ((here, hit), rest)
      | inr miss ↦ rw miss rest
    ]

-- What holds of all pending rows holds of each of them that the table has.
All-pending :
    (P : Task → Type 0) (id : Text) (rows : Rows) (task : Task)
    → All P (filter (has_status (some pending)) rows)
    → get_task id rows ≡ some task
    → status_eq task.status pending ≡ true
    → P task
unfolding get_task
All-pending P id [] task ps e h = cc
All-pending P id (row ∷ rows) task ps e h = elim (Bool-cases (text_eq row.id id)) [
  | inl hit ↦
      let same : row ≡ task = ground arith in
      let on : status_eq row.status pending ≡ true = rw same h in subst P same (rw (on) at ps).0
  | inr miss ↦ elim (Bool-cases (status_eq row.status pending)) [
    | inl on ↦ All-pending P id rows task (rw (on) at ps).1 (ground arith) h
    | inr off ↦ All-pending P id rows task (rw (off) at ps) (ground arith) h
  ]
]

sorted-cases : (rows : Rows) → (rows ≡ []) ⊎ ((row : Task) × (rest : Rows) × (rows ≡ row ∷ rest))
sorted-cases [] = inl refl
sorted-cases (row ∷ rest) = inr (row, rest, refl)

-- The table has no pending task, and `dequeue` gives none; or the task that it gives is the oldest
-- pending one, of equally old ones that of the least identity, started now by the worker.
abbrev pub Dequeued : Option Text → ℕ → Rows → Option Task → Type 0
Dequeued worker_id now rows none =
    (id : Text) (task : Task) → get_task id rows ≡ some task → status_eq task.status pending ≡ false
Dequeued worker_id now rows (some started) =
    (oldest : Task) × (started ≡ updated_task (starting worker_id now) oldest)
    × (get_task oldest.id rows ≡ some oldest)
    × (status_eq oldest.status pending ≡ true)
    × ((id : Text) (task : Task)
        → get_task id rows ≡ some task
        → status_eq task.status pending ≡ true
        → newer task oldest ≡ true)

start-Waits :
    (table : Rows) (worker_id : Option Text) (now : ℕ) (task : Task)
    → HasDistinctIds table
    → Waits table task
    → (start task.id worker_id now table).0 ≡ some (updated_task (starting worker_id now) task)
unfolding start has_updates
start-Waits table worker_id now task d (found, on) =
    let result = update_task-result task.id (starting worker_id now) (some pending) table refl d in
    ground arith

start_first-head :
    (task : Task) (tasks : Rows) (worker_id : Option Text) (now : ℕ) (rows : Rows) (started : Task)
    → (start task.id worker_id now rows).0 ≡ some started
    → (start_first (task ∷ tasks) worker_id now rows).0 ≡ some started
unfolding start_first
start_first-head task tasks worker_id now rows started e = ground arith

-- On a table with distinct identities `dequeue` gives no task only when none is pending, and otherwise
-- starts the pending task that was created first, the one of the least identity if several were.
pub dequeue-oldest :
    (worker_id : Option Text) (now : ℕ) (rows : Rows)
    → HasDistinctIds rows
    → Dequeued worker_id now rows (dequeue worker_id now rows).0
unfolding dequeue list_tasks reverse start_first
dequeue-oldest worker_id now rows d =
    let waiting = filter (has_status (some pending)) rows in
    elim (sorted-cases (sort_rows waiting)) [
      | inl empty ↦
          let result : (dequeue worker_id now rows).0 ≡ none = rw empty refl in
          let none_left : All (λ u. ⊥) waiting =
            All-of-sort_rows (λ u. ⊥) waiting (subst (All (λ u. ⊥)) (sym empty) tt) in
          subst (Dequeued worker_id now rows) (sym result) (λ id task e.
            elim (Bool-cases (status_eq task.status pending)) [
              | inl on ↦ absurd (All-pending (λ u. ⊥) id rows task none_left e on)
              | inr off ↦ off
            ])
      | inr (row, rest, e) ↦
          let waits : All (Waits rows) (row ∷ rest) =
            subst (All (Waits rows)) e
              (All-sort_rows (Waits rows) waiting (pending-Waits rows rows (λ u h. h) d)) in
          let (oldest, others, last, (found, on), newest, pick) =
            reverse-oldest (Waits rows) row rest (subst IsSorted e (sort_rows-IsSorted waiting))
              waits in
          let started = start-Waits rows worker_id now oldest d (found, on) in
          let result : (dequeue worker_id now rows).0
              ≡ some (updated_task (starting worker_id now) oldest) =
            rw (e, last)
              (start_first-head oldest others worker_id now rows
                (updated_task (starting worker_id now) oldest) started) in
          let all_newer : All (λ u. newer u oldest ≡ true) waiting =
            All-of-sort_rows (λ u. newer u oldest ≡ true) waiting
              (subst (All (λ u. newer u oldest ≡ true)) (sym e) newest) in
          subst (Dequeued worker_id now rows) (sym result) (
            oldest,
            refl,
            found,
            on,
            λ id task h pends.
                All-pending (λ u. newer u oldest ≡ true) id rows task all_newer h pends,
          )
    ]
