-- ===== src/Harness/Permissions.antt =====
-- src/harness/permissions.ts: `PermissionChecker`. A tool is its name, and no name is one of those that
-- every JavaScript object inherits. A promise that waits is the request's identity; `settled` is the
-- history of the promises that were resolved, the last one first.
pub mod Requests
mod Tests
use reins_core.Prelude.{
  Bool, true, false, Option, none, some, List, [], ◌∷◌, or_else, if◌then◌else◌,
}
use reins_core.Prelude.Text.{Text, units, text_eq}
use reins_core.Prelude.Eq.{text_is_eq}
use reins_core.Prelude.JsMap.{JsMap, get, set, delete}

pub data PermissionAction : Type 0 where
  allow deny ask : PermissionAction

pub record PermissionProfile : Type 0 where
  pub name : Text
  pub default_action : PermissionAction
  pub rules : JsMap Text PermissionAction

abbrev pub minimal_profile : PermissionProfile
minimal_profile = record {
  name = units "minimal";
  default_action = deny;
  rules = (units "voice", allow) ∷ [];
}

abbrev pub standard_profile : PermissionProfile
standard_profile = record {
  name = units "standard";
  default_action = ask;
  rules =
      (units "notes", allow)
      ∷ (units "reminders", allow)
      ∷ (units "calendar", allow)
      ∷ (units "voice", allow)
      ∷ (units "schedule", deny)
      ∷ [];
}

abbrev pub full_profile : PermissionProfile
full_profile = record { name = units "full"; default_action = allow; rules = [] }

pub record PermissionChecker : Type 0 where
  pub profile : PermissionProfile
  pub has_event_bus : Bool
  pub pending_requests : JsMap Text Text
  pub settled : List (Text × Bool)

abbrev pub new : PermissionProfile → Bool → PermissionChecker
new profile has_event_bus = record {
  profile = profile;
  has_event_bus = has_event_bus;
  pending_requests = [];
  settled = [];
}

-- The action of the result.
unfoldable pub check : PermissionChecker → (tool : Text) → PermissionAction
check c tool = or_else (get c.profile.rules tool) c.profile.default_action

-- What `requestPermission` comes to: an answer, or a promise under the identity of the request.
pub data Answer : Type 0 where
  answered : Bool → Answer
  waits : Answer

unfoldable pub request_permission :
    (request_id tool : Text) → PermissionChecker → Answer × PermissionChecker
unfolding check
request_permission request_id tool c = elim (check c tool) [
  | allow ↦ (answered true, c)
  | deny ↦ (answered false, c)
  | ask ↦
      if c.has_event_bus
      then (waits, record c { pending_requests = set c.pending_requests request_id tool })
      else (answered false, c)
]

unfoldable pub resolve_permission :
    (request_id : Text) → (granted : Bool) → PermissionChecker → PermissionChecker
resolve_permission request_id granted c = elim (get c.pending_requests request_id) [
  | none ↦ c
  | some tool ↦ record c {
    pending_requests = delete c.pending_requests request_id;
    settled = (request_id, granted) ∷ c.settled;
  }
]
