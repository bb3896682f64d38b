-- ===== src/Tasks/WorkerManager/Tests.antt =====
-- A limit of one worker and two pending tasks.
use reins_core.Prelude.{◌≤◌, ◌≡◌, refl, true, false, none, some, [], ◌∷◌, All, arith}
use reins_core.Prelude.Text.{Text, units}
use reins_core.Tasks.Store.{pending, Task, Rows, get_task, status_eq, update_task, has_updates}
use reins_core.Tasks.Queue.{start}
use reins_core.Tasks.Store.Rows.{HasDistinctIds}
use reins_core.Tasks.WorkerManager.{
  WorkerManager, new, holds, spawn_begin, spawn_push, drain_round, start_worker, begins, pushes,
  drains, starts, Run, idle, part,
}
use reins_core.Tasks.WorkerManager.OneWorker.{starts_of, one_worker}
use reins_core.Tasks.WorkerManager.Overrun.{AllWait, limit_overrun}

abbrev asked : Text → Task
asked id = record {
  id = id;
  prompt = units "sum up";
  status = pending;
  result = none;
  error = none;
  conversation_id = none;
  created_at = 10;
  started_at = none;
  completed_at = none;
  worker_id = none;
  delivered = false;
}

abbrev table : Rows
table = asked (units "a") ∷ asked (units "b") ∷ []

table-HasDistinctIds : HasDistinctIds table
unfolding get_task
table-HasDistinctIds = (refl, (refl, tt))

table-AllWait : AllWait table (units "a" ∷ units "b" ∷ [])
unfolding get_task
table-AllWait = ((asked (units "a"), refl, refl), ((asked (units "b"), refl, refl), tt))

limit_overrun_example :
    (m : WorkerManager) × Run (new 1 table) m
    × All (λ id. holds m.running_workers id ≡ true) (units "a" ∷ units "b" ∷ [])
limit_overrun_example =
    limit_overrun 1 table (units "a" ∷ units "b" ∷ []) (omega arith) table-HasDistinctIds
      (tt, (tt, tt)) ((refl, tt), (tt, tt)) table-AllWait

abbrev begun : WorkerManager
begun = (spawn_begin (units "a") (new 1 table)).1

abbrev pushed : WorkerManager
pushed = spawn_push (units "a") begun

abbrev drained : WorkerManager
drained = drain_round (units "w") 20 0 pushed.pending_task_ids pushed

abbrev working : WorkerManager
working = start_worker (units "a") true [] drained

started_a : Run (new 1 table) working
unfolding spawn_begin spawn_push drain_round start update_task has_updates get_task
started_a =
    part (new 1 table) drained working
      (part (new 1 table) pushed drained
        (part (new 1 table) begun pushed
          (part (new 1 table) (new 1 table) begun (idle (new 1 table))
            (begins (units "a") (new 1 table)))
          (pushes (units "a") begun refl))
        (drains (units "w") 20 0 pushed refl))
      (starts (units "a") true [] [] drained refl)

one_worker_example :
    (starts_of (units "a") working.started ≤ 1)
    × (1 ≤ starts_of (units "a") working.started
        → (task : Task) × (get_task (units "a") working.rows ≡ some task)
          × (status_eq task.status pending ≡ false))
one_worker_example = one_worker 1 table table-HasDistinctIds working started_a (units "a")
