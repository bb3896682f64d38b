-- ===== src/Tasks/WorkerManager.antt =====
-- src/tasks/worker-manager.ts: `WorkerManager` over the queue, as the atomic parts between its awaits.
-- A call on the queue updates the table at once, and its caller goes on in a later part. What a worker
-- runs, its signal and its timeout are outside: a worker ends in a result or an error at any time.
pub mod OneWorker
mod Overrun
mod Tests
use reins_core.Prelude.{
  ℕ, zero, suc, ◌≡◌, Bool, true, false, ◌||◌, Option, none, some, List, [], ◌∷◌, ◌++◌, any, length,
  ltb, if◌then◌else◌,
}
use reins_core.Prelude.Text.{Text, text_eq}
use reins_core.Tasks.Store.{TaskStatus, pending, Task, Rows, status_eq, get_task}
use reins_core.Tasks.Queue.{start, complete_task, fail}

-- `spawning` has the calls of `spawn` that wait for `getTask`, `heads` counts the calls of `drainQueue`
-- that are at the head of their loop, `starting` has those that wait for `queue.start` with its answer,
-- and `leaving` the workers whose result is stored. `started` is the history of the workers.
pub record WorkerManager : Type 0 where
  pub max_concurrent_workers : ℕ
  pub spawning : List Text
  pub pending_task_ids : List Text
  pub heads : ℕ
  pub starting : List (Text × Bool)
  pub running_workers : List Text
  pub leaving : List Text
  pub rows : Rows
  pub started : List Text

pub data SpawnStatus : Type 0 where
  already_tracked not_found not_pending : SpawnStatus

abbrev pub holds : List Text → Text → Bool
holds ids id = any (λ other. text_eq other id) ids

-- `Set.add`, and `Map.set` on the keys.
abbrev pub add : List Text → Text → List Text
add ids id = if holds ids id then ids else ids ++ id ∷ []

abbrev pub remove_one : List Text → Text → List Text
remove_one [] id = []
remove_one (other ∷ ids) id =
    let rest = remove_one ids id in if text_eq other id then ids else other ∷ rest

abbrev pub new : ℕ → Rows → WorkerManager
new max_concurrent_workers rows = record {
  max_concurrent_workers = max_concurrent_workers;
  spawning = [];
  pending_task_ids = [];
  heads = 0;
  starting = [];
  running_workers = [];
  leaving = [];
  rows = rows;
  started = [];
}

-- `spawn` up to the answer of `getTask`: its refusal, or a call that waits.
unfoldable pub spawn_begin : Text → WorkerManager → Option SpawnStatus × WorkerManager
spawn_begin id m =
    if holds m.running_workers id || holds m.pending_task_ids id
    then (some already_tracked, m)
    else elim (get_task id m.rows) [
      | none ↦ (some not_found, m)
      | some task ↦
          if status_eq task.status pending
          then (none, record m { spawning = id ∷ m.spawning })
          else (some not_pending, m)
    ]

-- The rest of `spawn`: the identity is pushed and the queue is drained.
unfoldable pub spawn_push : Text → WorkerManager → WorkerManager
spawn_push id m = record m {
  spawning = remove_one m.spawning id;
  pending_task_ids = m.pending_task_ids ++ id ∷ [];
  heads = suc m.heads;
}

abbrev pub is_started : Option Task → Bool
is_started none = false
is_started (some task) = true

-- One round of the loop of `drainQueue` for a call at its head, with a fresh identity of the worker:
-- the call ends, or it shifts an identity and asks the queue to start that task.
unfoldable pub drain_round : Text → (now : ℕ) → ℕ → List Text → WorkerManager → WorkerManager
drain_round worker_id now heads [] m = record m { heads = heads }
drain_round worker_id now heads ([] ∷ ids) m =
    if ltb (length m.running_workers) m.max_concurrent_workers
    then record m { heads = heads; pending_task_ids = ids }
    else record m { heads = heads }
drain_round worker_id now heads ((c ∷ cs) ∷ ids) m =
    if ltb (length m.running_workers) m.max_concurrent_workers
    then (let (task, rows) = start (c ∷ cs) (some worker_id) now m.rows in
        record m {
          heads = heads;
          pending_task_ids = ids;
          starting = (c ∷ cs, is_started task) ∷ m.starting;
          rows = rows;
        })
    else record m { heads = heads }

-- The end of `startWorker`, after which its caller is at the head of its loop again.
unfoldable pub start_worker : Text → Bool → List (Text × Bool) → WorkerManager → WorkerManager
start_worker id true rest m = record m {
  starting = rest;
  running_workers = add m.running_workers id;
  started = id ∷ m.started;
  heads = suc m.heads;
}
start_worker id false rest m = record m { starting = rest; heads = suc m.heads }

-- `executeWorker` when the worker gave a result, none if it threw or was aborted with the reason.
unfoldable pub settle_worker :
    Text → Option Text → (reason : Text) → (now : ℕ) → WorkerManager → WorkerManager
settle_worker id (some result) reason now m = record m {
  rows = (complete_task id result now m.rows).1;
  leaving = id ∷ m.leaving;
}
settle_worker id none reason now m = record m {
  rows = (fail id reason now m.rows).1;
  leaving = id ∷ m.leaving;
}

-- Its `finally`.
unfoldable pub leave_worker : Text → WorkerManager → WorkerManager
leave_worker id m = record m {
  leaving = remove_one m.leaving id;
  running_workers = remove_one m.running_workers id;
  heads = suc m.heads;
}

-- `shutdown`, apart from the signals to the workers.
unfoldable pub shutdown : WorkerManager → WorkerManager
shutdown m = record m { pending_task_ids = [] }

-- One atomic part; `start_worker` takes any call that waits, the one that the list shows first.
pub data Part : WorkerManager → WorkerManager → Type 0 where
  begins : (id : Text) (m : WorkerManager) → Part m (spawn_begin id m).1
  pushes : (id : Text) (m : WorkerManager) → holds m.spawning id ≡ true → Part m (spawn_push id m)
  drains :
      (worker_id : Text) (now heads : ℕ) (m : WorkerManager)
      → m.heads ≡ suc heads
      → Part m (drain_round worker_id now heads m.pending_task_ids m)
  starts :
      (id : Text) (answer : Bool) (before after : List (Text × Bool)) (m : WorkerManager)
      → m.starting ≡ before ++ (id, answer) ∷ after
      → Part m (start_worker id answer (before ++ after) m)
  settles :
      (id : Text) (result : Option Text) (reason : Text) (now : ℕ) (m : WorkerManager)
      → holds m.running_workers id ≡ true
      → holds m.leaving id ≡ false
      → Part m (settle_worker id result reason now m)
  leaves : (id : Text) (m : WorkerManager) → holds m.leaving id ≡ true → Part m (leave_worker id m)
  shuts_down : (m : WorkerManager) → Part m (shutdown m)

pub data Run : WorkerManager → WorkerManager → Type 0 where
  idle : (m : WorkerManager) → Run m m
  part : (a b c : WorkerManager) → Run a b → Part b c → Run a c
