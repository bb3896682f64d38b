-- ===== src/Tasks/Store.antt =====
-- src/tasks/types.ts and src/tasks/task-store.ts: the table of tasks and the statements on it. Each
-- statement is one atomic step, as SQLite runs it. A date is its number of milliseconds; the ISO texts
-- that are stored sort as the dates do. In the options a negative limit or offset is 0 already.
pub mod Rows
pub mod Order
use reins_core.Prelude.{
  ℕ, ◌+◌, Bool, true, false, ◌&&◌, ◌||◌, not, Option, none, some, List, [], ◌∷◌, ◌++◌, map, filter,
  any, count, leb, ◌==◌, if◌then◌else◌, or_else, take, drop,
}
use reins_core.Prelude.Text.{Text, text_eq}

pub data TaskStatus : Type 0 where
  pending running complete failed : TaskStatus

pub record Task : Type 0 where
  pub id : Text
  pub prompt : Text
  pub status : TaskStatus
  pub result : Option Text
  pub error : Option Text
  pub conversation_id : Option Text
  pub created_at : ℕ
  pub started_at : Option ℕ
  pub completed_at : Option ℕ
  pub worker_id : Option Text
  pub delivered : Bool

pub record TaskCreateInput : Type 0 where
  pub prompt : Text
  pub conversation_id : Option Text
  pub created_at : Option ℕ

pub record TaskUpdateInput : Type 0 where
  pub prompt : Option Text
  pub status : Option TaskStatus
  pub result : Option Text
  pub error : Option Text
  pub conversation_id : Option Text
  pub started_at : Option ℕ
  pub completed_at : Option ℕ
  pub worker_id : Option Text
  pub delivered : Option Bool

pub record TaskListOptions : Type 0 where
  pub status : Option TaskStatus
  pub limit : Option ℕ
  pub offset : Option ℕ

-- The rows of the table `tasks`, in the order of their insertion.
abbrev pub Rows : Type 0
Rows = List Task

abbrev pub status_eq : TaskStatus → TaskStatus → Bool
status_eq pending pending = true
status_eq running running = true
status_eq complete complete = true
status_eq failed failed = true
status_eq _ _ = false

-- An input that gives no column.
abbrev pub no_update : TaskUpdateInput
no_update = record {
  prompt = none;
  status = none;
  result = none;
  error = none;
  conversation_id = none;
  started_at = none;
  completed_at = none;
  worker_id = none;
  delivered = none;
}

unfoldable pub get_task : Text → Rows → Option Task
get_task id [] = none
get_task id (task ∷ rows) =
    let rest = get_task id rows in if text_eq task.id id then some task else rest

abbrev pub new_task : Text → TaskCreateInput → ℕ → Task
new_task id input now = record {
  id = id;
  prompt = input.prompt;
  status = pending;
  result = none;
  error = none;
  conversation_id = input.conversation_id;
  created_at = or_else input.created_at now;
  started_at = none;
  completed_at = none;
  worker_id = none;
  delivered = false;
}

-- `id` is the text that `randomUUID` gave. No result: the insertion throws, since the primary key is
-- taken, or the row is not read back.
unfoldable pub create_task : (id : Text) → TaskCreateInput → (now : ℕ) → Rows → Option Task × Rows
unfolding get_task
create_task id input now rows = elim (get_task id rows) [
  | some _ ↦ (none, rows)
  | none ↦ (get_task id (rows ++ new_task id input now ∷ []), rows ++ new_task id input now ∷ [])
]

-- `≤` on identities, unit by unit.
unfoldable pub text_leb : Text → Text → Bool
text_leb [] t = true
text_leb (c ∷ cs) [] = false
text_leb (c ∷ cs) (d ∷ ds) = let rest = text_leb cs ds in if c == d then rest else leb c d

-- Whether a row may come before another one under ORDER BY created_at DESC, id DESC.
unfoldable pub newer : Task → Task → Bool
unfolding text_leb
newer a b =
    if a.created_at == b.created_at then text_leb b.id a.id else leb b.created_at a.created_at

unfoldable pub insert_row : Task → Rows → Rows
unfolding newer
insert_row task [] = task ∷ []
insert_row task (row ∷ rows) =
    let rest = insert_row task rows in if newer task row then task ∷ row ∷ rows else row ∷ rest

unfoldable pub sort_rows : Rows → Rows
unfolding insert_row
sort_rows [] = []
sort_rows (task ∷ rows) = insert_row task (sort_rows rows)

abbrev pub has_status : Option TaskStatus → Task → Bool
has_status none task = true
has_status (some status) task = status_eq task.status status

unfoldable pub list_tasks : TaskListOptions → Rows → Rows
unfolding sort_rows
list_tasks options rows =
    let found =
      drop (or_else options.offset 0) (sort_rows (filter (has_status options.status) rows)) in
    elim options.limit [ none ↦ found | some limit ↦ take limit found ]

abbrev pub is_given {ℓ} : {A : Type ℓ} → Option A → Bool
is_given none = false
is_given (some a) = true

unfoldable pub has_updates : TaskUpdateInput → Bool
has_updates input =
    is_given input.prompt
    || is_given input.status
    || is_given input.result
    || is_given input.error
    || is_given input.conversation_id
    || is_given input.started_at
    || is_given input.completed_at
    || is_given input.worker_id
    || is_given input.delivered

abbrev pub keep_or {ℓ} : {A : Type ℓ} → Option A → Option A → Option A
keep_or none old = old
keep_or (some a) old = some a

abbrev pub updated_task : TaskUpdateInput → Task → Task
updated_task input task = record task {
  prompt = or_else input.prompt task.prompt;
  status = or_else input.status task.status;
  result = keep_or input.result task.result;
  error = keep_or input.error task.error;
  conversation_id = keep_or input.conversation_id task.conversation_id;
  started_at = keep_or input.started_at task.started_at;
  completed_at = keep_or input.completed_at task.completed_at;
  worker_id = keep_or input.worker_id task.worker_id;
  delivered = or_else input.delivered task.delivered;
}

-- Whether the statement's WHERE clause takes a row.
abbrev pub is_selected : Text → Option TaskStatus → Task → Bool
is_selected id expected task = text_eq task.id id && has_status expected task

abbrev pub update_rows : (Task → Bool) → (Task → Task) → Rows → Rows
update_rows selects change [] = []
update_rows selects change (task ∷ rows) =
    (if selects task then change task else task) ∷ update_rows selects change rows

unfoldable pub update_task : Text → TaskUpdateInput → Option TaskStatus → Rows → Option Task × Rows
unfolding get_task has_updates
update_task id input expected rows =
    if not (has_updates input)
    then (get_task id rows, rows)
    else if count (is_selected id expected) rows == 0
    then (none, rows)
    else (let rows' = update_rows (is_selected id expected) (updated_task input) rows in
        (get_task id rows', rows'))

unfoldable pub delete_task : Text → Rows → Bool × Rows
delete_task id rows =
    (any (λ task. text_eq task.id id) rows, filter (λ task. not (text_eq task.id id)) rows)

unfoldable pub count_undelivered_completed : Rows → ℕ
count_undelivered_completed rows =
    count (λ task. not task.delivered && status_eq task.status complete) rows

abbrev pub failed_task : Text → ℕ → Task → Task
failed_task reason now task = record task {
  status = failed;
  error = some reason;
  completed_at = some now;
}

unfoldable pub fail_running_tasks : Text → ℕ → Rows → ℕ × Rows
fail_running_tasks reason now rows = (
  count (λ task. status_eq task.status running) rows,
  update_rows (λ task. status_eq task.status running) (failed_task reason now) rows,
)
