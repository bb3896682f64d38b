-- ===== src/Tasks/Queue.antt =====
-- src/tasks/task-queue.ts: the queue over the table of tasks.
use reins_core.Prelude.{ℕ, false, Option, none, some, [], ◌∷◌, ◌++◌}
use reins_core.Prelude.Text.{Text}
use reins_core.Tasks.Store.{
  TaskStatus, pending, running, complete, failed, Task, Rows, TaskCreateInput, TaskUpdateInput,
  TaskListOptions, no_update, get_task, create_task, list_tasks, update_task, fail_running_tasks,
}

unfoldable pub enqueue : (id : Text) → TaskCreateInput → (now : ℕ) → Rows → Option Task × Rows
enqueue id input now rows = create_task id input now rows

abbrev pub starting : Option Text → ℕ → TaskUpdateInput
starting worker_id now = record no_update {
  status = some running;
  started_at = some now;
  worker_id = worker_id;
}

unfoldable pub start : Text → Option Text → (now : ℕ) → Rows → Option Task × Rows
start id worker_id now rows = update_task id (starting worker_id now) (some pending) rows

unfoldable pub reverse : Rows → Rows
reverse [] = []
reverse (task ∷ rows) = reverse rows ++ task ∷ []

-- The loop of `dequeue` over the listed tasks, which it goes through from the last one.
unfoldable pub start_first : Rows → Option Text → (now : ℕ) → Rows → Option Task × Rows
unfolding start
start_first [] worker_id now rows = (none, rows)
start_first (task ∷ tasks) worker_id now rows =
    let (started, rows') = start task.id worker_id now rows in
    let rest = start_first tasks worker_id now rows' in
    elim started [ some running_task ↦ (some running_task, rows') | none ↦ rest ]

abbrev pub pending_only : TaskListOptions
pending_only = record { status = some pending; limit = none; offset = none }

unfoldable pub dequeue : Option Text → (now : ℕ) → Rows → Option Task × Rows
unfolding reverse start_first
dequeue worker_id now rows = start_first (reverse (list_tasks pending_only rows)) worker_id now rows

abbrev pub completing : Text → ℕ → TaskUpdateInput
completing result now = record no_update {
  status = some complete;
  result = some result;
  completed_at = some now;
  delivered = some false;
}

-- The method `complete`.
unfoldable pub complete_task : Text → (result : Text) → (now : ℕ) → Rows → Option Task × Rows
complete_task id result now rows = update_task id (completing result now) (some running) rows

abbrev pub failing : Text → ℕ → TaskUpdateInput
failing error now = record no_update {
  status = some failed;
  error = some error;
  completed_at = some now;
}

unfoldable pub fail : Text → (error : Text) → (now : ℕ) → Rows → Option Task × Rows
fail id error now rows = update_task id (failing error now) (some running) rows

abbrev retried : (uuid : Text) → (now : ℕ) → Rows → Task → TaskStatus → Option Task × Rows
retried uuid now rows source failed =
    create_task uuid
      (record {
        prompt = source.prompt;
        conversation_id = source.conversation_id;
        created_at = none;
      })
      now rows
retried uuid now rows source _ = (none, rows)

unfoldable pub retry : Text → (uuid : Text) → (now : ℕ) → Rows → Option Task × Rows
retry id uuid now rows = elim (get_task id rows) [
  | none ↦ (none, rows)
  | some source ↦ retried uuid now rows source source.status
]

unfoldable pub recover_from_restart : (reason : Text) → (now : ℕ) → Rows → ℕ × Rows
recover_from_restart reason now rows = fail_running_tasks reason now rows
