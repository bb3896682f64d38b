-- ===== src/Tasks/Store/Rows.antt =====
-- What the statements on the table do to the row of one identity.
use reins_core.Prelude.{
  ℕ, ◌≡◌, refl, ◌∙◌, ◌⊎◌, inl, inr, Bool, true, false, Option, none, some, [], ◌∷◌, ◌++◌, count,
  arith, Bool-cases, if◌then◌else◌,
}
use reins_core.Prelude.Text.{Text, text_eq}
use reins_core.Prelude.Eq.{text_eq_iff}
use reins_core.Tasks.Store.{
  TaskStatus, Task, Rows, TaskCreateInput, TaskUpdateInput, get_task, new_task, create_task,
  has_status, has_updates, updated_task, is_selected, update_rows, update_task,
}

-- The primary key: no identity stands in two rows.
abbrev pub HasDistinctIds : Rows → Type 0
HasDistinctIds [] = Unit
HasDistinctIds (task ∷ rows) = (get_task task.id rows ≡ none) × HasDistinctIds rows

pub found-cases : (found : Option Task) → (found ≡ none) ⊎ ((task : Task) × (found ≡ some task))
found-cases none = inl refl
found-cases (some task) = inr (task, refl)

pub id-get_task :
    (id : Text) (rows : Rows) (task : Task) → get_task id rows ≡ some task → task.id ≡ id
unfolding get_task
id-get_task id [] task e = cc
id-get_task id (row ∷ rows) task e = ground (arith, text_eq_iff row.id id, id-get_task id rows task)

-- A row under a statement: changed where it is selected.
abbrev pub changed : (Task → Bool) → (Task → Task) → Task → Task
changed selects change task = if selects task then change task else task

abbrev pub map_found : (Task → Task) → Option Task → Option Task
map_found f none = none
map_found f (some task) = some (f task)

pub get-update_rows :
    (selects : Task → Bool) (change : Task → Task)
    → ((task : Task) → (change task).id ≡ task.id)
    → (id : Text) (rows : Rows)
    → get_task id (update_rows selects change rows)
      ≡ map_found (changed selects change) (get_task id rows)
unfolding get_task
get-update_rows selects change keeps id [] = refl
get-update_rows selects change keeps id (row ∷ rows) =
    ground (arith, keeps row, get-update_rows selects change keeps id rows)

pub update_rows-HasDistinctIds :
    (selects : Task → Bool) (change : Task → Task)
    → ((task : Task) → (change task).id ≡ task.id)
    → (rows : Rows) → HasDistinctIds rows
    → HasDistinctIds (update_rows selects change rows)
update_rows-HasDistinctIds selects change keeps [] d = tt
update_rows-HasDistinctIds selects change keeps (row ∷ rows) (fresh, d) =
    let same : (changed selects change row).id ≡ row.id = ground (arith, keeps row) in
    let gone : get_task row.id (update_rows selects change rows) ≡ none =
      ground (arith, get-update_rows selects change keeps row.id rows) in
    (rw same gone, update_rows-HasDistinctIds selects change keeps rows d)

pub get-append_none :
    (id : Text) (rows : Rows) (task : Task)
    → get_task id rows ≡ none
    → get_task id (rows ++ task ∷ []) ≡ get_task id (task ∷ [])
unfolding get_task
get-append_none id [] task e = refl
get-append_none id (row ∷ rows) task e = ground (arith, get-append_none id rows task)

pub get-append_some :
    (id : Text) (rows : Rows) (task found : Task)
    → get_task id rows ≡ some found
    → get_task id (rows ++ task ∷ []) ≡ some found
unfolding get_task
get-append_some id [] task found e = cc
get-append_some id (row ∷ rows) task found e = ground (arith, get-append_some id rows task found)

append-HasDistinctIds :
    (rows : Rows) (task : Task)
    → get_task task.id rows ≡ none
    → HasDistinctIds rows
    → HasDistinctIds (rows ++ task ∷ [])
unfolding get_task
append-HasDistinctIds [] task fresh d = (refl, tt)
append-HasDistinctIds (row ∷ rows) task fresh (f, d) =
    let apart : text_eq task.id row.id ≡ false =
      ground (arith, text_eq_iff row.id task.id, text_eq_iff task.id row.id) in
    let gone : get_task task.id rows ≡ none = ground arith in
    (get-append_none row.id rows task f ∙ ground arith, append-HasDistinctIds rows task gone d)

pub create_task-HasDistinctIds :
    (id : Text) (input : TaskCreateInput) (now : ℕ) (rows : Rows)
    → HasDistinctIds rows
    → HasDistinctIds (create_task id input now rows).1
unfolding create_task
create_task-HasDistinctIds id input now rows d = elim (found-cases (get_task id rows)) [
  | inl fresh ↦ ground (arith, append-HasDistinctIds rows (new_task id input now) fresh d)
  | inr (_, taken) ↦ ground (arith, taken, d)
]

-- How many rows a statement on one identity changes.
selected_count : Option TaskStatus → Option Task → ℕ
selected_count expected none = 0
selected_count expected (some task) = if has_status expected task then 1 else 0

count-is_selected :
    (id : Text) (expected : Option TaskStatus) (rows : Rows)
    → HasDistinctIds rows
    → count (is_selected id expected) rows ≡ selected_count expected (get_task id rows)
unfolding get_task selected_count
count-is_selected id expected [] d = refl
count-is_selected id expected (row ∷ rows) (fresh, d) =
    ground (arith, text_eq_iff row.id id, count-is_selected id expected rows d)

-- The statement of `updateTask`, with a column to set, on a table with distinct identities.
abbrev pub update_result : TaskUpdateInput → Option TaskStatus → Option Task → Option Task
update_result input expected none = none
update_result input expected (some task) =
    if has_status expected task then some (updated_task input task) else none

pub update_task-result :
    (id : Text) (input : TaskUpdateInput) (expected : Option TaskStatus) (rows : Rows)
    → has_updates input ≡ true
    → HasDistinctIds rows
    → (update_task id input expected rows).0 ≡ update_result input expected (get_task id rows)
unfolding update_task selected_count
update_task-result id input expected rows given d =
    let counted = count-is_selected id expected rows d in
    let after =
      get-update_rows (is_selected id expected) (updated_task input) (λ task. refl) id rows in
    elim (found-cases (get_task id rows)) [
      | inl missing ↦ ground (arith, counted, after)
      | inr (task, found) ↦
          let named : text_eq task.id id ≡ true =
            (text_eq_iff task.id id).1 (id-get_task id rows task found) in
          elim (Bool-cases (has_status expected task)) [
            | inl good ↦ ground (arith, counted, after, named)
            | inr bad ↦ ground (arith, counted, after, named)
          ]
    ]

-- Whatever the statement answers, each row of the table is changed where it is selected.
pub get-update_task :
    (id : Text) (input : TaskUpdateInput) (expected : Option TaskStatus) (rows : Rows)
    (other : Text)
    → has_updates input ≡ true
    → (get_task other (update_task id input expected rows).1 ≡ get_task other rows)
      ⊎ (get_task other (update_task id input expected rows).1
          ≡ map_found
              (changed (is_selected id expected) (updated_task input))
              (get_task other rows))
unfolding update_task
get-update_task id input expected rows other given = ground (
  arith,
  get-update_rows (is_selected id expected) (updated_task input) (λ task. refl) other rows,
)

pub update_task-HasDistinctIds :
    (id : Text) (input : TaskUpdateInput) (expected : Option TaskStatus) (rows : Rows)
    → HasDistinctIds rows
    → HasDistinctIds (update_task id input expected rows).1
unfolding update_task
update_task-HasDistinctIds id input expected rows d = ground (
  arith,
  update_rows-HasDistinctIds (is_selected id expected) (updated_task input) (λ task. refl) rows d,
)
