-- ===== src/Tasks/Outcome.antt =====
-- The delivery of a result, and the recovery after a restart.
use reins_core.Prelude.{
  ℕ, ◌+◌, ◌≤◌, ◌≡◌, ◌↔◌, refl, sym, subst, ◌⊎◌, inl, inr, Bool, true, false, Option, none, some, [],
  ◌∷◌, count, length, leb, arith, if◌then◌else◌, Bool-cases, or_else, count-le-length,
}
use reins_core.Prelude.Text.{Text}
use reins_core.Tasks.Store.{
  TaskStatus, pending, running, complete, failed, Task, Rows, TaskUpdateInput, status_eq, get_task,
  has_updates, updated_task, update_rows, update_task, failed_task, fail_running_tasks,
}
use reins_core.Tasks.Store.Rows.{
  HasDistinctIds, found-cases, get-update_rows, update_task-result, update_task-HasDistinctIds,
}
use reins_core.Tasks.Queue.{recover_from_restart}
use reins_core.Tasks.Delivery.{
  Transports, channel, badge, TaskDeliveryReport, persisting, marking, send_result, deliver,
}

-- After an update that found its row, the table has the row that the update gave.
update_task-get :
    (id : Text) (input : TaskUpdateInput) (expected : Option TaskStatus) (rows : Rows) (task : Task)
    → (update_task id input expected rows).0 ≡ some task
    → get_task id (update_task id input expected rows).1 ≡ some task
unfolding update_task
update_task-get id input expected rows task e = ground arith

-- An update without a guard of a row that the table has.
update_task-found :
    (id : Text) (input : TaskUpdateInput) (rows : Rows) (task : Task)
    → has_updates input ≡ true
    → HasDistinctIds rows
    → get_task id rows ≡ some task
    → ((update_task id input none rows).0 ≡ some (updated_task input task))
      × (get_task id (update_task id input none rows).1 ≡ some (updated_task input task))
update_task-found id input rows task given d found =
    let result : (update_task id input none rows).0 ≡ some (updated_task input task) =
      ground (arith, update_task-result id input none rows given d) in
    (result, update_task-get id input none rows (updated_task input task) result)

-- What the table says of a task whose delivery was reported.
abbrev pub Delivered : Text → Transports → TaskDeliveryReport → Task → Type 0
Delivered result t report after =
    (after.result ≡ some result)
    × (after.delivered ≡ report.delivered)
    × (after.status ≡ complete)
    × ((report.method ≡ badge) ↔ (report.delivered ≡ false))
    × (report.channel_success_count + report.channel_failure_count ≤ length t.channels)

socket-cases :
    (socket : Option Bool) → (socket ≡ none) ⊎ ((socket ≡ some true) ⊎ (socket ≡ some false))
socket-cases none = inl refl
socket-cases (some true) = inr (inl refl)
socket-cases (some false) = inr (inr refl)

badge_iff : (b : Bool) → ((if b then channel else badge) ≡ badge) ↔ (b ≡ false)
badge_iff true = (λ e. cc, λ e. cc)
badge_iff false = (λ e. refl, λ e. refl)

-- The last part of a delivery: the task is marked as the report says.
marked-Delivered :
    (id result : Text) (t : Transports) (rows : Rows) (task : Task) (report : TaskDeliveryReport)
    → HasDistinctIds rows
    → get_task id rows ≡ some task
    → task.result ≡ some result
    → task.status ≡ complete
    → ((report.method ≡ badge) ↔ (report.delivered ≡ false))
    → report.channel_success_count + report.channel_failure_count ≤ length t.channels
    → (after : Task) × (get_task id (update_task id (marking report.delivered) none rows).1
        ≡ some after)
      × Delivered result t report after
unfolding has_updates
marked-Delivered id result t rows task report d found kept ended method counts = (
  updated_task (marking report.delivered) task,
  (update_task-found id (marking report.delivered) rows task refl d found).1,
  (kept, refl, ended, method, counts),
)

send_result-Delivered :
    (id result : Text) (t : Transports) (rows : Rows) (task : Task) (report : TaskDeliveryReport)
    → HasDistinctIds rows
    → get_task id rows ≡ some task
    → task.result ≡ some result
    → task.status ≡ complete
    → (send_result id t rows).0 ≡ some report
    → (after : Task) × (get_task id (send_result id t rows).1 ≡ some after)
      × Delivered result t report after
unfolding send_result
send_result-Delivered id result t rows task report d found kept ended e =
    let wrote : (send_result id t rows).1
        ≡ (update_task id (marking report.delivered) none rows).1 =
      elim (socket-cases t.socket) [
        | inl gone ↦ ground arith
        | inr (inl up) ↦ ground arith
        | inr (inr broken) ↦ ground arith
      ] in
    let method : (report.method ≡ badge) ↔ (report.delivered ≡ false) =
      elim (socket-cases t.socket) [
        | inl gone ↦ ground (arith, badge_iff (leb 1 (count (λ sent. sent) t.channels)))
        | inr (inl up) ↦ (λ h. ground arith, λ h. ground arith)
        | inr (inr broken) ↦ ground arith
      ] in
    let counts : report.channel_success_count + report.channel_failure_count ≤ length t.channels =
      elim (socket-cases t.socket) [
        | inl gone ↦ ground (arith, count-le-length (λ sent. sent) t.channels)
        | inr (inl up) ↦ ground arith
        | inr (inr broken) ↦ ground arith
      ] in
    let (after, stored, rest) =
      marked-Delivered id result t rows task report d found kept ended method counts in
    (after, subst (λ r. get_task id r ≡ some after) (sym wrote) stored, rest)

complete_of : (status : TaskStatus) → status_eq status complete ≡ true → status ≡ complete
complete_of complete h = refl
complete_of pending h = cc
complete_of running h = cc
complete_of failed h = cc

deliver-cases :
    (id result : Text) (t : Transports) (now : ℕ) (rows : Rows) (report : TaskDeliveryReport)
    → (deliver id result t now rows).0 ≡ some report
    → (task : Task) × (get_task id rows ≡ some task)
      × (status_eq task.status complete ≡ true)
      × (deliver id result t now rows
          ≡ send_result id t
              (update_task id (persisting result (or_else task.completed_at now)) none rows).1)
unfolding deliver
deliver-cases id result t now rows report e = elim (found-cases (get_task id rows)) [
  | inl missing ↦ ground arith
  | inr (task, found) ↦ elim (Bool-cases (status_eq task.status complete)) [
    | inr early ↦ ground arith
    | inl ended ↦
        elim (found-cases
          (update_task id (persisting result (or_else task.completed_at now)) none rows).0) [
            | inl lost ↦ ground arith
            | inr (_, kept) ↦ (task, found, ended, ground arith)
          ]
  ]
]

-- On a table with distinct identities, a delivery that reports was one of a complete task, and leaves
-- in the table that task, still complete, with the result, and marked as delivered just when the report
-- says so; the report names the badge just when nothing was delivered, and counts no more channels
-- than there are.
pub deliver_lem :
    (id result : Text) (t : Transports) (now : ℕ) (rows : Rows) (report : TaskDeliveryReport)
    → HasDistinctIds rows
    → (deliver id result t now rows).0 ≡ some report
    → (task : Task) × (get_task id rows ≡ some task)
      × (task.status ≡ complete)
      × ((after : Task) × (get_task id (deliver id result t now rows).1 ≡ some after)
          × Delivered result t report after)
unfolding has_updates
deliver_lem id result t now rows report d e =
    let (task, found, ended, same) = deliver-cases id result t now rows report e in
    let input = persisting result (or_else task.completed_at now) in
    let stored = (update_task-found id input rows task refl d found).1 in
    let sent =
      send_result-Delivered id result t (update_task id input none rows).1 (updated_task input task)
        report (update_task-HasDistinctIds id input none rows d) stored refl
        (complete_of task.status ended) (subst (λ r. r.0 ≡ some report) same e) in
    (
      task,
      found,
      complete_of task.status ended,
      subst (λ r. (after : Task) × (get_task id r.1 ≡ some after) × Delivered result t report after)
          (sym same) sent,
    )

none_running :
    (reason : Text) (now : ℕ) (rows : Rows)
    → count
        (λ t. status_eq t.status running)
        (update_rows (λ t. status_eq t.status running) (failed_task reason now) rows)
      ≡ 0
none_running reason now [] = refl
none_running reason now (row ∷ rows) = ground (arith, none_running reason now rows)

-- What a restart makes of a task.
abbrev pub Recovered : Text → ℕ → Task → Task → Type 0
Recovered reason now task after =
    ((status_eq task.status running ≡ true) → after ≡ failed_task reason now task)
    × ((status_eq task.status running ≡ false) → after ≡ task)

-- After the recovery from a restart no task is running: each one that was has failed with the reason,
-- every other one is as it was, and the number given is that of the tasks that were running.
pub recover_from_restart_lem :
    (reason : Text) (now : ℕ) (rows : Rows)
    → ((recover_from_restart reason now rows).0 ≡ count (λ t. status_eq t.status running) rows)
      × (count (λ t. status_eq t.status running) (recover_from_restart reason now rows).1 ≡ 0)
      × ((id : Text) (task : Task)
          → get_task id rows ≡ some task
          → (after : Task) × (get_task id (recover_from_restart reason now rows).1 ≡ some after)
            × Recovered reason now task after)
unfolding recover_from_restart fail_running_tasks
recover_from_restart_lem reason now rows = (
  refl,
  none_running reason now rows,
  λ id task found.
      let all =
        get-update_rows (λ t. status_eq t.status running) (failed_task reason now) (λ t. refl) id
          rows in
      (
        if status_eq task.status running then failed_task reason now task else task,
        ground arith,
        (λ h. ground arith, λ h. ground arith),
      ),
)
