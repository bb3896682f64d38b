-- ===== src/Tasks/Delivery.antt =====
-- src/tasks/delivery-pipeline.ts: the delivery of a task's result. Whether the transport is connected
-- and what each enabled channel's `send` does (false where it throws) are given.
use reins_core.Prelude.{
  ℕ, ◌-◌, Bool, true, false, not, Option, none, some, List, count, length, leb, if◌then◌else◌,
  or_else,
}
use reins_core.Prelude.Text.{Text}
use reins_core.Tasks.Store.{
  complete, Rows, TaskUpdateInput, no_update, status_eq, get_task, update_task,
  count_undelivered_completed,
}

pub data TaskDeliveryMethod : Type 0 where
  tui channel badge : TaskDeliveryMethod

pub record TaskDeliveryReport : Type 0 where
  pub task_id : Text
  pub delivered : Bool
  pub method : TaskDeliveryMethod
  pub channel_success_count : ℕ
  pub channel_failure_count : ℕ

-- What the code around a delivery does: the socket, none where there is no transport or it is not
-- connected, says whether its send succeeds; so does each enabled channel.
pub record Transports : Type 0 where
  pub socket : Option Bool
  pub channels : List Bool

abbrev pub persisting : Text → ℕ → TaskUpdateInput
persisting result completed_at = record no_update {
  result = some result;
  delivered = some false;
  completed_at = some completed_at;
}

abbrev pub marking : Bool → TaskUpdateInput
marking delivered = record no_update { delivered = some delivered }

abbrev report : Text → Bool → TaskDeliveryMethod → ℕ → ℕ → TaskDeliveryReport
report task_id delivered method successes failures = record {
  task_id = task_id;
  delivered = delivered;
  method = method;
  channel_success_count = successes;
  channel_failure_count = failures;
}

-- The part after the result is stored.
unfoldable pub send_result : Text → Transports → Rows → Option TaskDeliveryReport × Rows
send_result task_id t rows = elim t.socket [
  | some true ↦
      (some (report task_id true tui 0 0), (update_task task_id (marking true) none rows).1)
  | some false ↦ (none, rows)
  | none ↦
      let successes = count (λ sent. sent) t.channels in
      let delivered = leb 1 successes in
      if leb 1 (length t.channels)
      then (
        some (
            report task_id delivered (if delivered then channel else badge) successes
              (length t.channels - successes)),
        (update_task task_id (marking delivered) none rows).1,
      )
      else (
        some (report task_id false badge 0 0),
        (update_task task_id (marking false) none rows).1,
      )
]

-- No report: the method throws.
unfoldable pub deliver :
    Text → (result : Text) → Transports → (now : ℕ) → Rows → Option TaskDeliveryReport × Rows
unfolding send_result
deliver task_id result t now rows = elim (get_task task_id rows) [
  | none ↦ (none, rows)
  | some task ↦
      if not (status_eq task.status complete)
      then (none, rows)
      else (let (persisted, rows') =
            update_task task_id (persisting result (or_else task.completed_at now)) none rows in
          elim persisted [ none ↦ (none, rows') | some _ ↦ send_result task_id t rows' ])
]

unfoldable pub get_badge_count : Rows → ℕ
get_badge_count rows = count_undelivered_completed rows
