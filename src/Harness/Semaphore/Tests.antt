-- ===== src/Harness/Semaphore/Tests.antt =====
-- Two callers and one permit.
use reins_core.Prelude.{◌+◌, ◌<◌, ◌≡◌, refl, [], ◌∷◌, ◌++◌, arith, none, some}
use reins_core.Prelude.Numbers.{finite}
use reins_core.Harness.Semaphore.{Semaphore, new, acquire, release, free, resolve_max_concurrent}
use reins_core.Harness.Semaphore.Fairness.{Run, begins, acquires, releases, semaphore_is_fair}

abbrev both : Semaphore
both = acquire 2 (acquire 1 (new 1))

first_holds : 0 < both.holding
unfolding acquire
first_holds = omega arith

passed_on : Run 1 (release both) (1 ∷ 2 ∷ [])
passed_on =
    releases both (1 ∷ 2 ∷ [])
      (acquires 2 (acquire 1 (new 1)) (1 ∷ []) (acquires 1 (new 1) [] begins)) first_holds

semaphore_is_fair_example :
    ((release both).permits + (release both).holding ≡ 1)
    × ((release both).granted ++ (release both).queue ≡ 1 ∷ 2 ∷ [])
    × (0 < (release both).permits → (release both).queue ≡ [])
semaphore_is_fair_example = semaphore_is_fair 1 (release both) (1 ∷ 2 ∷ []) passed_on

-- A limit of one half is raised to one, and no limit leaves that of the tier.
limits :
    (resolve_max_concurrent (some (finite 0)) (some free) ≡ 1)
    × (resolve_max_concurrent none (some free) ≡ 2)
unfolding resolve_max_concurrent
limits = (refl, refl)
