-- ===== src/Tasks/WorkerManager/Overrun.antt =====
-- The limit on workers when spawns interleave: `drainQueue` reads the number of running workers before
-- its await, and a worker is counted after it.
use reins_core.Prelude.{
  ℕ, ◌<◌, ◌≡◌, refl, subst, Bool, true, false, Option, some, List, [], ◌∷◌, ◌++◌, map, arith,
  if◌then◌else◌, All,
}
use reins_core.Prelude.Text.{Text, text_eq}
use reins_core.Prelude.Eq.{text_eq_iff}
use reins_core.Tasks.Store.{pending, Task, Rows, status_eq, get_task, has_updates}
use reins_core.Tasks.Store.Rows.{
  HasDistinctIds, id-get_task, update_task-result, get-update_task, update_task-HasDistinctIds,
}
use reins_core.Tasks.Queue.{starting, start}
use reins_core.Tasks.WorkerManager.{
  WorkerManager, new, holds, add, is_started, spawn_begin, spawn_push, drain_round, start_worker,
  begins, pushes, drains, starts, Run, idle, part,
}

-- A manager without workers, whose started tasks wait for their answers.
abbrev calm : ℕ → List (Text × Bool) → Rows → WorkerManager
calm max waiting rows = record (new max rows) { starting = waiting }

abbrev Waits : Rows → Text → Type 0
Waits rows id =
    (task : Task) × (get_task id rows ≡ some task) × (status_eq task.status pending ≡ true)

-- A text with a first unit.
abbrev pub IsFilled : Text → Type 0
IsFilled [] = ⊥
IsFilled (c ∷ cs) = Unit

-- A start of a task leaves the others waiting.
start-Waits-other :
    (id : Text) (worker_id : Option Text) (now : ℕ) (rows : Rows) (other : Text)
    → text_eq id other ≡ false
    → Waits rows other
    → Waits (start id worker_id now rows).1 other
unfolding start has_updates
start-Waits-other id worker_id now rows other apart (task, found, on) =
    let named : task.id ≡ other = id-get_task other rows task found in
    let differs : text_eq task.id id ≡ false =
      ground (arith, text_eq_iff task.id id, text_eq_iff id other) in
    let kept : get_task other (start id worker_id now rows).1 ≡ some task =
      ground (arith, get-update_task id (starting worker_id now) (some pending) rows other refl) in
    (task, kept, on)

start-answers :
    (id : Text) (worker_id : Option Text) (now : ℕ) (rows : Rows)
    → HasDistinctIds rows
    → Waits rows id
    → is_started (start id worker_id now rows).0 ≡ true
unfolding start has_updates
start-answers id worker_id now rows d (task, found, on) =
    let result = update_task-result id (starting worker_id now) (some pending) rows refl d in
    ground arith

-- One spawn up to the await of `queue.start`.
launch :
    (a : WorkerManager) (max : ℕ) (waiting : List (Text × Bool)) (rows : Rows) (id worker_id : Text)
    (now : ℕ)
    → 0 < max
    → IsFilled id
    → HasDistinctIds rows
    → Waits rows id
    → Run a (calm max waiting rows)
    → Run a (calm max ((id, true) ∷ waiting) (start id (some worker_id) now rows).1)
unfolding spawn_begin spawn_push drain_round
launch a max waiting rows [] worker_id now pos filled d waits run = absurd filled
launch a max waiting rows (c ∷ cs) worker_id now pos filled d (task, found, on) run =
    let id : Text = c ∷ cs in
    let m0 = calm max waiting rows in
    let m1 : WorkerManager = record m0 { spawning = id ∷ [] } in
    let m2 : WorkerManager = record m0 { pending_task_ids = id ∷ []; heads = 1 } in
    let m3 = calm max ((id, true) ∷ waiting) (start id (some worker_id) now rows).1 in
    let self : text_eq id id ≡ true = (text_eq_iff id id).1 refl in
    let begun : (spawn_begin id m0).1 ≡ m1 = ground arith in
    let pushed : spawn_push id m1 ≡ m2 = ground (arith, self) in
    let drained : drain_round worker_id now 0 (id ∷ []) m2 ≡ m3 =
      ground (arith, start-answers id (some worker_id) now rows d (task, found, on)) in
    let run1 : Run a m1 =
      subst (Run a) begun (part a m0 (spawn_begin id m0).1 run (begins id m0)) in
    let run2 : Run a m2 =
      subst (Run a) pushed
        (part a m1 (spawn_push id m1) run1 (pushes id m1 (ground (arith, self)))) in
    subst (Run a) drained
      (part a m2 (drain_round worker_id now 0 (id ∷ []) m2) run2 (drains worker_id now 0 m2 refl))

abbrev answered : List Text → List (Text × Bool)
answered ids = map (λ id. (id, true)) ids

abbrev rev_onto : List Text → List Text → List Text
rev_onto [] acc = acc
rev_onto (id ∷ ids) acc = rev_onto ids (id ∷ acc)

All-of-rev_onto :
    (P : Text → Type 0) (ids acc : List Text) → All P (rev_onto ids acc) → All P ids × All P acc
All-of-rev_onto P [] acc ps = (tt, ps)
All-of-rev_onto P (id ∷ ids) acc ps =
    let (qs, (p, rs)) = All-of-rev_onto P ids (id ∷ acc) ps in ((p, qs), rs)

-- Texts no two of which are equal.
abbrev pub AreDistinct : List Text → Type 0
AreDistinct [] = Unit
AreDistinct (id ∷ ids) = All (λ other. text_eq id other ≡ false) ids × AreDistinct ids

abbrev pub AllWait : Rows → List Text → Type 0
AllWait rows ids =
    All
      (λ id.
        (task : Task) × (get_task id rows ≡ some task) × (status_eq task.status pending ≡ true))
      ids

start-AllWait :
    (id : Text) (worker_id : Option Text) (now : ℕ) (rows : Rows) (ids : List Text)
    → All (λ other. text_eq id other ≡ false) ids
    → AllWait rows ids
    → AllWait (start id worker_id now rows).1 ids
start-AllWait id worker_id now rows [] apart waits = tt
start-AllWait id worker_id now rows (other ∷ ids) (apart, rest) (wait, waits) = (
  start-Waits-other id worker_id now rows other apart wait,
  start-AllWait id worker_id now rows ids rest waits,
)

launch_all :
    (a : WorkerManager) (max : ℕ) (ids acc : List Text) (rows : Rows)
    → 0 < max
    → All IsFilled ids
    → AreDistinct ids
    → HasDistinctIds rows
    → AllWait rows ids
    → Run a (calm max (answered acc) rows)
    → (rows' : Rows) × Run a (calm max (answered (rev_onto ids acc)) rows')
unfolding start
launch_all a max [] acc rows pos filled apart d waits run = (rows, run)
launch_all a max (id ∷ ids) acc rows pos (f, filled) (away, apart) d (wait, waits) run =
    let rows' = (start id (some []) 0 rows).1 in
    launch_all a max ids (id ∷ acc) rows' pos filled apart
      (update_task-HasDistinctIds id (starting (some []) 0) (some pending) rows d)
      (start-AllWait id (some []) 0 rows ids away waits)
      (launch a max (answered acc) rows id [] 0 pos f d wait run)

holds-append :
    (ids : List Text) (id other : Text)
    → holds (ids ++ id ∷ []) other ≡ (if holds ids other then true else text_eq id other)
holds-append [] id other = ground arith
holds-append (i ∷ ids) id other = ground (arith, holds-append ids id other)

holds-add :
    (ids : List Text) (id other : Text) → holds ids other ≡ true → holds (add ids id) other ≡ true
holds-add ids id other h = ground (arith, holds-append ids id other)

holds-added : (ids : List Text) (id : Text) → holds (add ids id) id ≡ true
holds-added ids id = ground (arith, holds-append ids id id, text_eq_iff id id)

-- The answers that wait come in, and each of them makes a worker.
resume :
    (a m : WorkerManager) (ids : List Text)
    → m.starting ≡ answered ids
    → Run a m
    → (m' : WorkerManager) × Run a m'
      × ((id : Text) → holds m.running_workers id ≡ true → holds m'.running_workers id ≡ true)
      × All (λ id. holds m'.running_workers id ≡ true) ids
unfolding start_worker
resume a m [] e run = (m, run, λ id h. h, tt)
resume a m (id ∷ ids) e run =
    let m1 = start_worker id true (answered ids) m in
    let run1 : Run a m1 = part a m m1 run (starts id true [] (answered ids) m e) in
    let (m', run', stays, all) = resume a m1 ids refl run1 in
    (
      m',
      run',
      λ other h. stays other (holds-add m.running_workers id other h),
      (stays id (holds-added m.running_workers id), all),
    )

-- Whatever positive limit a new manager has over a table with distinct identities, and however many
-- different pending tasks are named by texts that are not empty, there is a run of the manager at whose
-- end all of them have a worker at once.
pub limit_overrun :
    (max_concurrent_workers : ℕ) (rows : Rows) (ids : List Text)
    → 0 < max_concurrent_workers
    → HasDistinctIds rows
    → All IsFilled ids
    → AreDistinct ids
    → AllWait rows ids
    → (m : WorkerManager) × Run (new max_concurrent_workers rows) m
      × All (λ id. holds m.running_workers id ≡ true) ids
limit_overrun max_concurrent_workers rows ids pos d filled apart waits =
    let first = new max_concurrent_workers rows in
    let (rows', run) =
      launch_all first max_concurrent_workers ids [] rows pos filled apart d waits (idle first) in
    let (m, run', _, all) =
      resume first (calm max_concurrent_workers (answered (rev_onto ids [])) rows')
        (rev_onto ids []) refl run in
    (m, run', (All-of-rev_onto (λ id. holds m.running_workers id ≡ true) ids [] all).0)
