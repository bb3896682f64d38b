-- ===== src/Harness/Permissions/Tests.antt =====
-- A request under the standard profile that is granted, and then denied in vain.
use reins_core.Prelude.{◌≡◌, refl, true, false, some, List, [], ◌∷◌}
use reins_core.Prelude.Text.{units}
use reins_core.Prelude.Eq.{text_is_eq}
use reins_core.Prelude.JsMap.{get}
use reins_core.Harness.Permissions.{
  PermissionChecker, new, standard_profile, ask, check, waits, request_permission,
}
use reins_core.Harness.Permissions.Requests.{
  Event, requested, resolved, run, decisions, with_answer, request_permission_lem,
}

abbrev checker : PermissionChecker
checker = new standard_profile true

abbrev later : List Event
later =
    requested (units "p2") (units "exec")
    ∷ resolved (units "p1") true
    ∷ resolved (units "p1") false
    ∷ []

asks : (request_permission (units "p1") (units "bash") checker).0 ≡ waits
unfolding request_permission check get
asks = refl

request_permission_lem_example :
    (check checker (units "bash") ≡ ask)
    × (decisions
          (units "p1")
          (run later (request_permission (units "p1") (units "bash") checker).1).settled
        ≡ with_answer (some true) [])
request_permission_lem_example =
    request_permission_lem (units "p1") (units "bash") checker later tt asks (refl, (tt, (tt, tt)))
