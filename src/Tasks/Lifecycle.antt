-- ===== src/Tasks/Lifecycle.antt =====
-- The life of a task under any sequence of the statements that the queue and the delivery issue.
pub mod Moves
use reins_core.Prelude.{
  ℕ, ◌≡◌, refl, ◌∙◌, subst, inl, inr, Bool, true, false, Option, none, some, arith, Bool-cases,
}
use reins_core.Prelude.Text.{Text}
use reins_core.Tasks.Store.{
  TaskStatus, pending, running, complete, failed, Task, Rows, TaskCreateInput, TaskUpdateInput,
  status_eq, get_task, new_task, create_task, updated_task, has_updates, is_selected, update_task,
  failed_task, fail_running_tasks,
}
use reins_core.Tasks.Store.Rows.{
  HasDistinctIds, found-cases, changed, map_found, get-update_rows, get-append_some,
  update_rows-HasDistinctIds, create_task-HasDistinctIds, update_task-result, get-update_task,
  update_task-HasDistinctIds,
}
use reins_core.Tasks.Queue.{
  starting, start, completing, complete_task, failing, fail, recover_from_restart,
}
use reins_core.Tasks.Delivery.{persisting, marking}
use reins_core.Tasks.Lifecycle.Moves.{
  IsLater, IsNext, IsLater-of_IsNext, IsNext-refl, IsLater-refl, IsLater-trans, Arrow-of_pending,
  Arrow-of_running, not_pending_after,
}

-- One statement: an insertion, the guarded updates of the queue, the update of a restart, and the
-- unguarded updates with which a result is stored and a task is marked.
pub data Step : Rows → Rows → Type 0 where
  creating :
      (id : Text) (input : TaskCreateInput) (now : ℕ) (rows : Rows)
      → Step rows (create_task id input now rows).1
  starting_one :
      (id : Text) (worker_id : Option Text) (now : ℕ) (rows : Rows)
      → Step rows (start id worker_id now rows).1
  completing_one :
      (id result : Text) (now : ℕ) (rows : Rows) → Step rows (complete_task id result now rows).1
  failing_one : (id error : Text) (now : ℕ) (rows : Rows) → Step rows (fail id error now rows).1
  recovering :
      (reason : Text) (now : ℕ) (rows : Rows) → Step rows (recover_from_restart reason now rows).1
  persisting_one :
      (id result : Text) (now : ℕ) (rows : Rows)
      → Step rows (update_task id (persisting result now) none rows).1
  marking_one :
      (id : Text) (delivered : Bool) (rows : Rows)
      → Step rows (update_task id (marking delivered) none rows).1

pub data Steps : Rows → Rows → Type 0 where
  nothing : (rows : Rows) → Steps rows rows
  next : (a b c : Rows) → Step a b → Steps b c → Steps a c

changed-IsNext :
    (selects : Task → Bool) (change : Task → Task)
    → ((task : Task) → selects task ≡ true → IsNext task (change task))
    → (task : Task) → IsNext task (changed selects change task)
changed-IsNext selects change later task = elim (Bool-cases (selects task)) [
  | inl hit ↦
      let same : change task ≡ changed selects change task = ground arith in
      subst (IsNext task) same (later task hit)
  | inr miss ↦
      let same : task ≡ changed selects change task = ground arith in
      subst (IsNext task) same (IsNext-refl task)
]

-- Every row goes on to the next state of itself.
Grows : Rows → Rows → Type 0
Grows a b =
    (id : Text) (task : Task)
    → get_task id a ≡ some task
    → (after : Task) × (get_task id b ≡ some after) × IsNext task after

update-Grows :
    (id : Text) (input : TaskUpdateInput) (expected : Option TaskStatus) (rows : Rows)
    → has_updates input ≡ true
    → ((task : Task) → is_selected id expected task ≡ true → IsNext task (updated_task input task))
    → Grows rows (update_task id input expected rows).1
unfolding Grows
update-Grows id input expected rows given later other task found =
    elim (get-update_task id input expected rows other given) [
      | inl same ↦ (task, same ∙ found, IsNext-refl task)
      | inr updated ↦
          let after = changed (is_selected id expected) (updated_task input) task in
          (
            after,
            subst
                (λ r.
                  get_task other (update_task id input expected rows).1
                  ≡ map_found (changed (is_selected id expected) (updated_task input)) r)
                found updated,
            changed-IsNext (is_selected id expected) (updated_task input) later task,
          )
    ]

create-Grows :
    (id : Text) (input : TaskCreateInput) (now : ℕ) (rows : Rows)
    → Grows rows (create_task id input now rows).1
unfolding Grows create_task
create-Grows id input now rows other task found = elim (found-cases (get_task id rows)) [
  | inl fresh ↦ (
    task,
    ground (arith, get-append_some other rows (new_task id input now) task found),
    IsNext-refl task,
  )
  | inr (_, taken) ↦ (task, ground arith, IsNext-refl task)
]

recover-Grows :
    (reason : Text) (now : ℕ) (rows : Rows) → Grows rows (recover_from_restart reason now rows).1
unfolding Grows recover_from_restart fail_running_tasks
recover-Grows reason now rows other task found =
    let selects : Task → Bool = λ t. status_eq t.status running in
    let change = failed_task reason now in
    (
      changed selects change task,
      subst
          (λ r.
            get_task other (recover_from_restart reason now rows).1
            ≡ map_found (changed selects change) r)
          found (get-update_rows selects change (λ t. refl) other rows),
      changed-IsNext selects change
          (λ t h. (refl, refl, refl, refl, Arrow-of_running t.status failed h refl)) task,
    )

Step-Grows : (a b : Rows) → Step a b → Grows a b
unfolding start complete_task fail has_updates
Step-Grows _ _ (creating id input now rows) = create-Grows id input now rows
Step-Grows _ _ (starting_one id worker_id now rows) =
    update-Grows id (starting worker_id now) (some pending) rows refl
      (λ t h. (refl, refl, refl, refl, Arrow-of_pending t.status (ground arith)))
Step-Grows _ _ (completing_one id result now rows) =
    update-Grows id (completing result now) (some running) rows refl
      (λ t h. (refl, refl, refl, refl, Arrow-of_running t.status complete (ground arith) refl))
Step-Grows _ _ (failing_one id error now rows) =
    update-Grows id (failing error now) (some running) rows refl
      (λ t h. (refl, refl, refl, refl, Arrow-of_running t.status failed (ground arith) refl))
Step-Grows _ _ (recovering reason now rows) = recover-Grows reason now rows
Step-Grows _ _ (persisting_one id result now rows) =
    update-Grows id (persisting result now) none rows refl (λ t h. IsNext-refl t)
Step-Grows _ _ (marking_one id delivered rows) =
    update-Grows id (marking delivered) none rows refl (λ t h. IsNext-refl t)

pub Steps-IsLater :
    (a b : Rows)
    → Steps a b
    → (id : Text) (task : Task) → get_task id a ≡ some task
    → (after : Task) × (get_task id b ≡ some after) × IsLater task after
unfolding Grows
Steps-IsLater _ _ (nothing rows) id task found = (task, found, IsLater-refl task)
Steps-IsLater _ _ (next a b c step steps) id task found =
    let (mid, found', is_next) = Step-Grows a b step id task found in
    let (after, found'', later) = Steps-IsLater b c steps id mid found' in
    (after, found'', IsLater-trans task mid after (IsLater-of_IsNext task mid is_next) later)

-- Whatever statements the queue and the delivery have issued, in any order and by any number of
-- callers, and whichever of them they issue next: each task of the first table is in the later ones
-- with its prompt, its conversation and its time of creation. The statement either leaves its status
-- or moves it from pending to running, or from running to complete or failed; and a status that was
-- left behind is not taken again.
pub task_moves_forwards :
    (a b c : Rows)
    → Steps a b
    → Step b c
    → (id : Text) (task : Task) → get_task id a ≡ some task
    → (before after : Task) × (get_task id b ≡ some before)
      × (get_task id c ≡ some after)
      × IsLater task before
      × IsNext before after
unfolding Grows
task_moves_forwards a b c steps step id task found =
    let (before, found', later) = Steps-IsLater a b steps id task found in
    let (after, found'', is_next) = Step-Grows b c step id before found' in
    (before, after, found', found'', later, is_next)

pub Step-HasDistinctIds : (a b : Rows) → Step a b → HasDistinctIds a → HasDistinctIds b
unfolding start complete_task fail recover_from_restart fail_running_tasks
Step-HasDistinctIds _ _ (creating id input now rows) d =
    create_task-HasDistinctIds id input now rows d
Step-HasDistinctIds _ _ (starting_one id worker_id now rows) d =
    update_task-HasDistinctIds id (starting worker_id now) (some pending) rows d
Step-HasDistinctIds _ _ (completing_one id result now rows) d =
    update_task-HasDistinctIds id (completing result now) (some running) rows d
Step-HasDistinctIds _ _ (failing_one id error now rows) d =
    update_task-HasDistinctIds id (failing error now) (some running) rows d
Step-HasDistinctIds _ _ (recovering reason now rows) d =
    update_rows-HasDistinctIds (λ t. status_eq t.status running) (failed_task reason now)
      (λ t. refl) rows d
Step-HasDistinctIds _ _ (persisting_one id result now rows) d =
    update_task-HasDistinctIds id (persisting result now) none rows d
Step-HasDistinctIds _ _ (marking_one id delivered rows) d =
    update_task-HasDistinctIds id (marking delivered) none rows d

Steps-HasDistinctIds : (a b : Rows) → Steps a b → HasDistinctIds a → HasDistinctIds b
Steps-HasDistinctIds _ _ (nothing rows) d = d
Steps-HasDistinctIds _ _ (next a b c step steps) d =
    Steps-HasDistinctIds b c steps (Step-HasDistinctIds a b step d)

pub started-cases :
    (id : Text) (worker_id : Option Text) (now : ℕ) (rows : Rows) (task : Task)
    → HasDistinctIds rows
    → (start id worker_id now rows).0 ≡ some task
    → (get_task id (start id worker_id now rows).1 ≡ some task)
      × (status_eq task.status running ≡ true)
unfolding start update_task has_updates
started-cases id worker_id now rows task d e =
    let result = update_task-result id (starting worker_id now) (some pending) rows refl d in
    let kept : get_task id (start id worker_id now rows).1 ≡ some task = ground arith in
    elim (found-cases (get_task id rows)) [
      | inl missing ↦ ground arith
      | inr (old, found) ↦ (kept, ground arith)
    ]

-- On a table with distinct identities a task is started at most once: after a start of it that
-- succeeded, whatever statements follow, a start of it by anyone gives no task.
pub started_once :
    (id : Text) (worker_id : Option Text) (now : ℕ) (rows : Rows) (task : Task)
    → HasDistinctIds rows
    → (start id worker_id now rows).0 ≡ some task
    → (later : Rows) → Steps (start id worker_id now rows).1 later
    → (worker_id' : Option Text) (now' : ℕ) → (start id worker_id' now' later).0 ≡ none
unfolding start update_task has_updates
started_once id worker_id now rows task d e later steps worker_id' now' =
    let (found, on) = started-cases id worker_id now rows task d e in
    let (after, found', (_, _, _, _, leads)) =
      Steps-IsLater (start id worker_id now rows).1 later steps id task found in
    let off = not_pending_after task.status after.status on leads in
    let d' =
      Steps-HasDistinctIds (start id worker_id now rows).1 later steps
        (update_task-HasDistinctIds id (starting worker_id now) (some pending) rows d) in
    let result = update_task-result id (starting worker_id' now') (some pending) later refl d' in
    ground arith
