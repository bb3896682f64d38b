-- ===== src/Tasks/Lifecycle/Moves.antt =====
-- How the status of a task moves under src/tasks/task-queue.ts and src/tasks/delivery-pipeline.ts, and
-- what of a task no statement of theirs changes.
use reins_core.Prelude.{◌≡◌, refl, ◌∙◌, true, false}
use reins_core.Tasks.Store.{TaskStatus, pending, running, complete, failed, Task, status_eq}

-- Where a status may lead: a pending task anywhere, a running one to its end, an ended one nowhere.
abbrev pub Leads : TaskStatus → TaskStatus → Type 0
Leads pending b = Unit
Leads running pending = ⊥
Leads running b = Unit
Leads complete complete = Unit
Leads failed failed = Unit
Leads _ _ = ⊥

-- A later state of a task: what it was asked stays, and its status has moved forwards.
abbrev pub IsLater : Task → Task → Type 0
IsLater a b =
    (b.id ≡ a.id)
    × (b.prompt ≡ a.prompt)
    × (b.created_at ≡ a.created_at)
    × (b.conversation_id ≡ a.conversation_id)
    × Leads a.status b.status

-- Where a single statement may move a status, if it moves it at all.
abbrev pub Arrow : TaskStatus → TaskStatus → Type 0
Arrow pending pending = Unit
Arrow pending running = Unit
Arrow running running = Unit
Arrow running complete = Unit
Arrow running failed = Unit
Arrow complete complete = Unit
Arrow failed failed = Unit
Arrow _ _ = ⊥

-- A task after one more statement.
abbrev pub IsNext : Task → Task → Type 0
IsNext a b =
    (b.id ≡ a.id)
    × (b.prompt ≡ a.prompt)
    × (b.created_at ≡ a.created_at)
    × (b.conversation_id ≡ a.conversation_id)
    × Arrow a.status b.status

pub Leads-of_Arrow : (a b : TaskStatus) → Arrow a b → Leads a b
Leads-of_Arrow pending b h = tt
Leads-of_Arrow running pending h = absurd h
Leads-of_Arrow running running h = tt
Leads-of_Arrow running complete h = tt
Leads-of_Arrow running failed h = tt
Leads-of_Arrow complete complete h = tt
Leads-of_Arrow complete pending h = absurd h
Leads-of_Arrow complete running h = absurd h
Leads-of_Arrow complete failed h = absurd h
Leads-of_Arrow failed failed h = tt
Leads-of_Arrow failed pending h = absurd h
Leads-of_Arrow failed running h = absurd h
Leads-of_Arrow failed complete h = absurd h

pub IsLater-of_IsNext : (a b : Task) → IsNext a b → IsLater a b
IsLater-of_IsNext a b (i, p, m, v, arrow) = (i, p, m, v, Leads-of_Arrow a.status b.status arrow)

pub Arrow-refl : (a : TaskStatus) → Arrow a a
Arrow-refl pending = tt
Arrow-refl running = tt
Arrow-refl complete = tt
Arrow-refl failed = tt

pub IsNext-refl : (a : Task) → IsNext a a
IsNext-refl a = (refl, refl, refl, refl, Arrow-refl a.status)

pub Leads-refl : (a : TaskStatus) → Leads a a
Leads-refl pending = tt
Leads-refl running = tt
Leads-refl complete = tt
Leads-refl failed = tt

pub Leads-trans : (a b c : TaskStatus) → Leads a b → Leads b c → Leads a c
Leads-trans pending b c h k = tt
Leads-trans running pending c h k = absurd h
Leads-trans running running c h k = k
Leads-trans running complete complete h k = tt
Leads-trans running complete pending h k = absurd k
Leads-trans running complete running h k = absurd k
Leads-trans running complete failed h k = absurd k
Leads-trans running failed failed h k = tt
Leads-trans running failed pending h k = absurd k
Leads-trans running failed running h k = absurd k
Leads-trans running failed complete h k = absurd k
Leads-trans complete complete c h k = k
Leads-trans complete pending c h k = absurd h
Leads-trans complete running c h k = absurd h
Leads-trans complete failed c h k = absurd h
Leads-trans failed failed c h k = k
Leads-trans failed pending c h k = absurd h
Leads-trans failed running c h k = absurd h
Leads-trans failed complete c h k = absurd h

pub IsLater-refl : (a : Task) → IsLater a a
IsLater-refl a = (refl, refl, refl, refl, Leads-refl a.status)

pub IsLater-trans : (a b c : Task) → IsLater a b → IsLater b c → IsLater a c
IsLater-trans a b c (i, p, m, v, l) (i', p', m', v', l') =
    (i' ∙ i, p' ∙ p, m' ∙ m, v' ∙ v, Leads-trans a.status b.status c.status l l')

pub Arrow-of_pending : (a : TaskStatus) → status_eq a pending ≡ true → Arrow a running
Arrow-of_pending pending h = tt
Arrow-of_pending running h = cc
Arrow-of_pending complete h = cc
Arrow-of_pending failed h = cc

pub Arrow-of_running :
    (a b : TaskStatus) → status_eq a running ≡ true → status_eq b pending ≡ false → Arrow a b
Arrow-of_running running pending h k = cc
Arrow-of_running running running h k = tt
Arrow-of_running running complete h k = tt
Arrow-of_running running failed h k = tt
Arrow-of_running pending b h k = cc
Arrow-of_running complete b h k = cc
Arrow-of_running failed b h k = cc

pub not_pending_after :
    (a b : TaskStatus) → status_eq a running ≡ true → Leads a b → status_eq b pending ≡ false
not_pending_after running pending h l = absurd l
not_pending_after running running h l = refl
not_pending_after running complete h l = refl
not_pending_after running failed h l = refl
not_pending_after pending b h l = cc
not_pending_after complete b h l = cc
not_pending_after failed b h l = cc
