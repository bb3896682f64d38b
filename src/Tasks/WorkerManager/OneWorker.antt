-- ===== src/Tasks/WorkerManager/OneWorker.antt =====
-- How often a task is given a worker.
use reins_core.Prelude.{
  ℕ, zero, suc, ◌+◌, ◌≤◌, ◌≡◌, refl, sym, subst, ◌⊎◌, inl, inr, Bool, true, false, ◌&&◌, Option,
  none, some, List, [], ◌∷◌, ◌++◌, count, length, ltb, arith, Bool-cases,
}
use reins_core.Prelude.Text.{Text, text_eq}
use reins_core.Prelude.Eq.{text_eq_iff}
use reins_core.Tasks.Store.{
  TaskStatus, pending, running, complete, failed, Task, Rows, status_eq, get_task, has_updates,
}
use reins_core.Tasks.Store.Rows.{HasDistinctIds, found-cases, update_task-result}
use reins_core.Tasks.Queue.{starting, start, complete_task, fail}
use reins_core.Tasks.Lifecycle.Moves.{Leads}
use reins_core.Tasks.Lifecycle.{
  Step, starting_one, completing_one, failing_one, nothing, next, Steps-IsLater, started-cases,
  Step-HasDistinctIds,
}
use reins_core.Tasks.WorkerManager.{
  WorkerManager, new, is_started, spawn_begin, spawn_push, drain_round, start_worker, settle_worker,
  leave_worker, shutdown, Part, begins, pushes, drains, starts, settles, leaves, shuts_down, Run,
  idle, part,
}

abbrev pub starts_of : Text → List Text → ℕ
starts_of id started = count (λ other. text_eq other id) started

abbrev answers : Text → List (Text × Bool) → ℕ
answers id waiting = count (λ e. text_eq e.0 id && e.1) waiting

answers-append :
    (id : Text) (before after : List (Text × Bool))
    → answers id (before ++ after) ≡ answers id before + answers id after
answers-append id [] after = omega arith
answers-append id (e ∷ before) after = omega (arith, answers-append id before after)

-- A task that does not wait any more.
abbrev IsTaken : Text → Rows → Type 0
IsTaken id rows =
    (task : Task) × (get_task id rows ≡ some task) × (status_eq task.status pending ≡ false)

-- A task is started or about to be at most once, and then it does not wait.
abbrev Once : Rows → List Text → List (Text × Bool) → Type 0
Once rows started waiting =
    (id : Text)
    → (starts_of id started + answers id waiting ≤ 1)
      × (1 ≤ starts_of id started + answers id waiting → IsTaken id rows)

abbrev IsSound : WorkerManager → Type 0
IsSound m = HasDistinctIds m.rows × Once m.rows m.started m.starting

stays_taken :
    (a b : TaskStatus) → status_eq a pending ≡ false → Leads a b → status_eq b pending ≡ false
stays_taken pending b h l = cc
stays_taken running pending h l = absurd l
stays_taken running running h l = refl
stays_taken running complete h l = refl
stays_taken running failed h l = refl
stays_taken complete complete h l = refl
stays_taken complete pending h l = absurd l
stays_taken complete running h l = refl
stays_taken complete failed h l = refl
stays_taken failed failed h l = refl
stays_taken failed pending h l = absurd l
stays_taken failed running h l = refl
stays_taken failed complete h l = refl

Step-IsTaken : (a b : Rows) → Step a b → (id : Text) → IsTaken id a → IsTaken id b
Step-IsTaken a b step id (task, found, off) =
    let (after, found', (_, _, _, _, leads)) =
      Steps-IsLater a b (next a b b step (nothing b)) id task found in
    (after, found', stays_taken task.status after.status off leads)

-- A statement keeps what is known of the workers.
Step-Once :
    (a b : Rows) (started : List Text) (waiting : List (Text × Bool))
    → Step a b
    → Once a started waiting
    → Once b started waiting
Step-Once a b started waiting step once id =
    ((once id).0, λ h. Step-IsTaken a b step id ((once id).1 h))

-- A start that succeeds is one of a task that waited.
start-waited :
    (id : Text) (worker_id : Option Text) (now : ℕ) (rows : Rows) (task : Task)
    → HasDistinctIds rows
    → (start id worker_id now rows).0 ≡ some task
    → (old : Task) × (get_task id rows ≡ some old) × (status_eq old.status pending ≡ true)
unfolding start has_updates
start-waited id worker_id now rows task d e =
    let result = update_task-result id (starting worker_id now) (some pending) rows refl d in
    elim (found-cases (get_task id rows)) [
      | inl missing ↦ ground arith
      | inr (old, found) ↦ elim (Bool-cases (status_eq old.status pending)) [
        | inl on ↦ (old, found, on)
        | inr off ↦ ground arith
      ]
    ]

none_of_empty : (n : ℕ) → (1 ≤ n → ⊥) → n ≡ 0
none_of_empty zero h = refl
none_of_empty (suc n) h = absurd (h (omega arith))

-- A task that waits was neither started nor is it about to be.
waiting-Once :
    (id : Text) (rows : Rows) (started : List Text) (waiting : List (Text × Bool)) (task : Task)
    → Once rows started waiting
    → get_task id rows ≡ some task
    → status_eq task.status pending ≡ true
    → starts_of id started + answers id waiting ≡ 0
waiting-Once id rows started waiting task once found on =
    none_of_empty (starts_of id started + answers id waiting) (λ h.
      let (task', found', off) = (once id).1 h in
      let same : task ≡ task' = cc in
      let clash : status_eq task.status pending ≡ false = rw same off in cc)

start-Once :
    (id : Text) (worker_id : Option Text) (now : ℕ) (rows : Rows) (started : List Text)
    (waiting : List (Text × Bool)) (task : Task)
    → HasDistinctIds rows
    → Once rows started waiting
    → (start id worker_id now rows).0 ≡ some task
    → Once (start id worker_id now rows).1 started ((id, true) ∷ waiting)
start-Once id worker_id now rows started waiting task d once e other =
    let (old, found, on) = start-waited id worker_id now rows task d e in
    let (found', run) = started-cases id worker_id now rows task d e in
    let (bound, taken) =
      Step-Once rows (start id worker_id now rows).1 started waiting
        (starting_one id worker_id now rows) once other in
    elim (Bool-cases (text_eq id other)) [
      | inr apart ↦ (ground (arith, bound), λ h. taken (ground arith))
      | inl same ↦
          let eq : id ≡ other = (text_eq_iff id other).0 same in
          let free : starts_of other started + answers other waiting ≡ 0 =
            waiting-Once other rows started waiting old once
              (subst (λ i. get_task i rows ≡ some old) eq found) on in
          (
            ground (arith, free),
            λ h.
                subst (λ i. IsTaken i (start id worker_id now rows).1) eq
                  (task, found', ground arith),
          )
    ]

-- An answer that waited leads to a worker, or was that there is none.
starts-Once :
    (id : Text) (answer : Bool) (before after : List (Text × Bool)) (m : WorkerManager)
    → Once m.rows m.started (before ++ (id, answer) ∷ after)
    → Once m.rows (start_worker id answer (before ++ after) m).started (before ++ after)
unfolding start_worker
starts-Once id true before after m once other =
    let (bound, taken) = once other in
    let split = answers-append other before after in
    let split' = answers-append other before ((id, true) ∷ after) in
    (ground (arith, bound, split, split'), λ h. taken (ground (arith, split, split')))
starts-Once id false before after m once other =
    let (bound, taken) = once other in
    let split = answers-append other before after in
    let split' = answers-append other before ((id, false) ∷ after) in
    (ground (arith, bound, split, split'), λ h. taken (ground (arith, split, split')))

start-cases :
    (id : Text) (worker_id : Option Text) (now : ℕ) (rows : Rows)
    → ((start id worker_id now rows).0 ≡ none)
      ⊎ ((task : Task) × ((start id worker_id now rows).0 ≡ some task))
start-cases id worker_id now rows = found-cases (start id worker_id now rows).0

skipped-Once :
    (id : Text) (rows : Rows) (started : List Text) (waiting : List (Text × Bool))
    → Once rows started waiting
    → Once rows started ((id, false) ∷ waiting)
skipped-Once id rows started waiting once other =
    let (bound, taken) = once other in (ground (arith, bound), λ h. taken (ground arith))

asked-Once :
    (id : Text) (worker_id : Option Text) (now : ℕ) (rows : Rows) (started : List Text)
    (waiting : List (Text × Bool))
    → HasDistinctIds rows
    → Once rows started waiting
    → Once
        (start id worker_id now rows).1
        started
        ((id, is_started (start id worker_id now rows).0) ∷ waiting)
asked-Once id worker_id now rows started waiting d once =
    let after = (start id worker_id now rows).1 in
    let Goal : Option Task → Type 0 = λ r. Once after started ((id, is_started r) ∷ waiting) in
    elim (start-cases id worker_id now rows) [
      | inl refused ↦ subst Goal (sym refused) (
          skipped-Once id after started waiting
            (Step-Once rows after started waiting (starting_one id worker_id now rows) once))
      | inr (task, e) ↦
          subst Goal (sym e) (start-Once id worker_id now rows started waiting task d once e)
    ]

drain-IsSound :
    (worker_id : Text) (now heads : ℕ) (ids : List Text) (m : WorkerManager)
    → IsSound m
    → IsSound (drain_round worker_id now heads ids m)
unfolding drain_round
drain-IsSound worker_id now heads [] m sound = sound
drain-IsSound worker_id now heads ([] ∷ ids) m sound =
    elim (Bool-cases (ltb (length m.running_workers) m.max_concurrent_workers)) [
      | inl room ↦ rw room sound
      | inr full ↦ rw full sound
    ]
drain-IsSound worker_id now heads ((c ∷ cs) ∷ ids) m (d, once) =
    elim (Bool-cases (ltb (length m.running_workers) m.max_concurrent_workers)) [
      | inr full ↦ rw full (d, once)
      | inl room ↦
          let id : Text = c ∷ cs in
          let step = starting_one id (some worker_id) now m.rows in
          let rows = (start id (some worker_id) now m.rows).1 in
          let d' = Step-HasDistinctIds m.rows rows step d in
          rw room (d', asked-Once id (some worker_id) now m.rows m.started m.starting d once)
    ]

begin-same :
    (id : Text) (m : WorkerManager)
    → ((spawn_begin id m).1.rows ≡ m.rows)
      × ((spawn_begin id m).1.started ≡ m.started)
      × ((spawn_begin id m).1.starting ≡ m.starting)
unfolding spawn_begin
begin-same id m = (ground arith, ground arith, ground arith)

Part-IsSound : (a b : WorkerManager) → Part a b → IsSound a → IsSound b
unfolding spawn_push settle_worker leave_worker shutdown start_worker
Part-IsSound _ _ (begins id m) sound =
    let (rows, started, waiting) = begin-same id m in rw (rows, started, waiting) sound
Part-IsSound _ _ (pushes id m h) sound = sound
Part-IsSound _ _ (drains worker_id now heads m h) sound =
    drain-IsSound worker_id now heads m.pending_task_ids m sound
Part-IsSound _ _ (starts id true before after m h) (d, once) =
    (d, starts-Once id true before after m (subst (Once m.rows m.started) h once))
Part-IsSound _ _ (starts id false before after m h) (d, once) =
    (d, starts-Once id false before after m (subst (Once m.rows m.started) h once))
Part-IsSound _ _ (settles id (some result) reason now m h k) (d, once) =
    let step = completing_one id result now m.rows in
    let rows = (complete_task id result now m.rows).1 in
    (Step-HasDistinctIds m.rows rows step d, Step-Once m.rows rows m.started m.starting step once)
Part-IsSound _ _ (settles id none reason now m h k) (d, once) =
    let step = failing_one id reason now m.rows in
    let rows = (fail id reason now m.rows).1 in
    (Step-HasDistinctIds m.rows rows step d, Step-Once m.rows rows m.started m.starting step once)
Part-IsSound _ _ (leaves id m h) sound = sound
Part-IsSound _ _ (shuts_down m) sound = sound

Run-IsSound : (a b : WorkerManager) → Run a b → IsSound a → IsSound b
Run-IsSound _ _ (idle m) sound = sound
Run-IsSound _ _ (part a b c run p) sound = Part-IsSound b c p (Run-IsSound a b run sound)

-- On a table with distinct identities, and however the calls of a new manager interleave, a task is
-- given a worker at most once, and a task that was given one does not wait any more.
pub one_worker :
    (max_concurrent_workers : ℕ) (rows : Rows)
    → HasDistinctIds rows
    → (m : WorkerManager) → Run (new max_concurrent_workers rows) m
    → (id : Text)
    → (starts_of id m.started ≤ 1)
      × (1 ≤ starts_of id m.started
          → (task : Task) × (get_task id m.rows ≡ some task)
            × (status_eq task.status pending ≡ false))
one_worker max_concurrent_workers rows d m run id =
    let first : IsSound (new max_concurrent_workers rows) =
      (d, λ i. (omega arith, λ h. absurd (omega arith))) in
    let (bound, taken) = (Run-IsSound (new max_concurrent_workers rows) m run first).1 id in
    (omega (arith, bound), λ h. taken (omega (arith, h)))
