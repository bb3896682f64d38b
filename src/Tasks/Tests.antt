-- ===== src/Tasks/Tests.antt =====
-- A table of two pending tasks and a complete one.
use reins_core.Prelude.{ℕ, ◌≡◌, refl, true, false, none, some, [], ◌∷◌, count}
use reins_core.Prelude.Text.{Text, units}
use reins_core.Tasks.Store.{
  TaskStatus, pending, running, complete, Task, Rows, get_task, update_task, has_updates,
  updated_task, status_eq,
}
use reins_core.Tasks.Store.Rows.{HasDistinctIds}
use reins_core.Tasks.Queue.{starting, start, complete_task, dequeue, recover_from_restart}
use reins_core.Tasks.Delivery.{Transports, TaskDeliveryReport, channel, send_result, deliver}
use reins_core.Tasks.Lifecycle.{
  Steps, nothing, next, starting_one, completing_one, task_moves_forwards, started_once,
}
use reins_core.Tasks.Lifecycle.Moves.{IsLater, IsNext}
use reins_core.Tasks.Dequeue.{Dequeued, dequeue-oldest}
use reins_core.Tasks.Outcome.{Delivered, deliver_lem, Recovered, recover_from_restart_lem}

abbrev asked : Text → ℕ → TaskStatus → Task
asked id created_at status = record {
  id = id;
  prompt = units "sum up";
  status = status;
  result = none;
  error = none;
  conversation_id = none;
  created_at = created_at;
  started_at = none;
  completed_at = none;
  worker_id = none;
  delivered = false;
}

abbrev table : Rows
table =
    asked (units "a") 20 pending ∷ asked (units "b") 10 pending ∷ asked (units "c") 5 complete ∷ []

table-HasDistinctIds : HasDistinctIds table
unfolding get_task
table-HasDistinctIds = (refl, (refl, (refl, tt)))

abbrev started : Task
started = updated_task (starting none 30) (asked (units "b") 10 pending)

abbrev after_start : Rows
after_start = (start (units "b") none 30 table).1

abbrev after_end : Rows
after_end = (complete_task (units "b") (units "42") 40 after_start).1

ended : Steps after_start after_end
ended =
    next after_start after_end after_end (completing_one (units "b") (units "42") 40 after_start)
      (nothing after_end)

started_first : Steps table after_start
started_first =
    next table after_start after_start (starting_one (units "b") none 30 table)
      (nothing after_start)

found_pending : get_task (units "b") table ≡ some (asked (units "b") 10 pending)
unfolding get_task
found_pending = refl

task_moves_forwards_example :
    (before after : Task) × (get_task (units "b") after_start ≡ some before)
    × (get_task (units "b") after_end ≡ some after)
    × IsLater (asked (units "b") 10 pending) before
    × IsNext before after
task_moves_forwards_example =
    task_moves_forwards table after_start after_end started_first
      (completing_one (units "b") (units "42") 40 after_start) (units "b")
      (asked (units "b") 10 pending) found_pending

start_ok : (start (units "b") none 30 table).0 ≡ some started
unfolding start update_task has_updates get_task
start_ok = refl

started_once_example : (start (units "b") (some (units "w")) 50 after_end).0 ≡ none
started_once_example =
    started_once (units "b") none 30 table started table-HasDistinctIds start_ok after_end ended
      (some (units "w")) 50

dequeue-oldest_example : Dequeued none 30 table (dequeue none 30 table).0
dequeue-oldest_example = dequeue-oldest none 30 table table-HasDistinctIds

abbrev two_channels : Transports
two_channels = record { socket = none; channels = false ∷ true ∷ [] }

abbrev reported : TaskDeliveryReport
reported = record {
  task_id = units "c";
  delivered = true;
  method = channel;
  channel_success_count = 1;
  channel_failure_count = 1;
}

report_ok : (deliver (units "c") (units "42") two_channels 50 table).0 ≡ some reported
unfolding deliver update_task has_updates get_task send_result
report_ok = refl

deliver_lem_example :
    (task : Task) × (get_task (units "c") table ≡ some task)
    × (task.status ≡ complete)
    × ((after : Task) × (get_task
            (units "c")
            (deliver (units "c") (units "42") two_channels 50 table).1
          ≡ some after)
        × Delivered (units "42") two_channels reported after)
deliver_lem_example =
    deliver_lem (units "c") (units "42") two_channels 50 table reported table-HasDistinctIds
      report_ok

recover_from_restart_lem_example :
    ((recover_from_restart (units "daemon restart") 60 after_start).0
      ≡ count (λ t. status_eq t.status running) after_start)
    × (count
          (λ t. status_eq t.status running)
          (recover_from_restart (units "daemon restart") 60 after_start).1
        ≡ 0)
    × ((id : Text) (task : Task)
        → get_task id after_start ≡ some task
        → (after : Task) × (get_task id
              (recover_from_restart (units "daemon restart") 60 after_start).1
            ≡ some after)
          × Recovered (units "daemon restart") 60 task after)
recover_from_restart_lem_example = recover_from_restart_lem (units "daemon restart") 60 after_start
