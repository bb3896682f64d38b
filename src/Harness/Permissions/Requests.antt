-- ===== src/Harness/Permissions/Requests.antt =====
-- What becomes of a request, whatever else the checker is asked in the meantime.
use reins_core.Prelude.{
  ◌≡◌, refl, ap, ◌∙◌, ◌⊎◌, inl, inr, Bool, false, Option, none, some, List, [], ◌∷◌, arith, All,
  Bool-cases, if◌then◌else◌,
}
use reins_core.Prelude.Text.{Text, text_eq}
use reins_core.Prelude.Eq.{text_is_eq, text_eq_iff}
use reins_core.Prelude.JsMap.{
  get, HasDistinctKeys, get-set, get-delete, set-HasDistinctKeys, delete-HasDistinctKeys,
}
use reins_core.Harness.Permissions.{
  PermissionAction, allow, deny, ask, PermissionChecker, check, waits, request_permission,
  resolve_permission,
}

pub data Event : Type 0 where
  requested : (request_id tool : Text) → Event
  resolved : (request_id : Text) (granted : Bool) → Event

abbrev pub run : List Event → PermissionChecker → PermissionChecker
run [] c = c
run (requested request_id tool ∷ es) c = run es (request_permission request_id tool c).1
run (resolved request_id granted ∷ es) c = run es (resolve_permission request_id granted c)

-- Identities of requests are fresh: none of the events makes a request of this one.
abbrev pub MakesNo : Text → Event → Type 0
MakesNo id (requested request_id tool) = text_eq request_id id ≡ false
MakesNo id (resolved request_id granted) = Unit

-- The first answer that the events give to a request.
abbrev pub first_answer : Text → List Event → Option Bool
first_answer id [] = none
first_answer id (requested request_id tool ∷ es) = first_answer id es
first_answer id (resolved request_id granted ∷ es) =
    let rest = first_answer id es in if text_eq request_id id then some granted else rest

-- The decisions on a request in the history.
abbrev pub decisions : Text → List (Text × Bool) → List Bool
decisions id [] = []
decisions id ((request_id, granted) ∷ log) =
    let rest = decisions id log in if text_eq request_id id then granted ∷ rest else rest

abbrev pub with_answer : Option Bool → List Bool → List Bool
with_answer none log = log
with_answer (some granted) log = granted ∷ log

action-cases : (a : PermissionAction) → (a ≡ allow) ⊎ ((a ≡ deny) ⊎ (a ≡ ask))
action-cases allow = inl refl
action-cases deny = inr (inl refl)
action-cases ask = inr (inr refl)

found-cases : (found : Option Text) → (found ≡ none) ⊎ ((tool : Text) × (found ≡ some tool))
found-cases none = inl refl
found-cases (some tool) = inr (tool, refl)

-- A request of another identity.
request-other :
    (id request_id tool : Text) (c : PermissionChecker)
    → text_eq request_id id ≡ false
    → (get (request_permission request_id tool c).1.pending_requests id ≡ get c.pending_requests id)
      × ((request_permission request_id tool c).1.settled ≡ c.settled)
unfolding request_permission
request-other id request_id tool c h = elim (action-cases (check c tool)) [
  | inl a ↦ (ground arith, ground arith)
  | inr (inl d) ↦ (ground arith, ground arith)
  | inr (inr k) ↦ (ground (arith, get-set c.pending_requests request_id id tool), ground arith)
]

request-HasDistinctKeys :
    (request_id tool : Text) (c : PermissionChecker)
    → HasDistinctKeys c.pending_requests
    → HasDistinctKeys (request_permission request_id tool c).1.pending_requests
unfolding request_permission
request-HasDistinctKeys request_id tool c d = ground (
  arith,
  d,
  action-cases (check c tool),
  set-HasDistinctKeys c.pending_requests request_id tool d,
)

resolve-HasDistinctKeys :
    (request_id : Text) (granted : Bool) (c : PermissionChecker)
    → HasDistinctKeys c.pending_requests
    → HasDistinctKeys (resolve_permission request_id granted c).pending_requests
unfolding resolve_permission
resolve-HasDistinctKeys request_id granted c d =
    ground (arith, d, delete-HasDistinctKeys c.pending_requests request_id d)

-- What an answer does to a request that waits, or does not wait any more.
resolve-get :
    (id request_id : Text) (granted : Bool) (c : PermissionChecker)
    → HasDistinctKeys c.pending_requests
    → (get (resolve_permission request_id granted c).pending_requests id
        ≡ (if text_eq request_id id then none else get c.pending_requests id))
unfolding resolve_permission
resolve-get id request_id granted c d = elim (found-cases (get c.pending_requests request_id)) [
  | inl gone ↦ elim (Bool-cases (text_eq request_id id)) [
    | inl same ↦ ground (arith, text_eq_iff request_id id)
    | inr other ↦ ground arith
  ]
  | inr (tool, found) ↦ ground (arith, get-delete c.pending_requests request_id id d)
]

resolve-waiting :
    (id request_id tool : Text) (granted : Bool) (c : PermissionChecker)
    → get c.pending_requests id ≡ some tool
    → decisions id (resolve_permission request_id granted c).settled
      ≡ (if text_eq request_id id then granted ∷ decisions id c.settled else decisions id c.settled)
unfolding resolve_permission
resolve-waiting id request_id tool granted c e = elim (Bool-cases (text_eq request_id id)) [
  | inl same ↦
      ground (arith, text_eq_iff request_id id, found-cases (get c.pending_requests request_id))
  | inr other ↦ ground (arith, found-cases (get c.pending_requests request_id))
]

resolve-gone :
    (id request_id : Text) (granted : Bool) (c : PermissionChecker)
    → get c.pending_requests id ≡ none
    → decisions id (resolve_permission request_id granted c).settled ≡ decisions id c.settled
unfolding resolve_permission
resolve-gone id request_id granted c e = elim (Bool-cases (text_eq request_id id)) [
  | inl same ↦
      ground (arith, text_eq_iff request_id id, found-cases (get c.pending_requests request_id))
  | inr other ↦ ground (arith, found-cases (get c.pending_requests request_id))
]

run-gone :
    (id : Text) (es : List Event) (c : PermissionChecker)
    → HasDistinctKeys c.pending_requests
    → All (MakesNo id) es
    → get c.pending_requests id ≡ none
    → decisions id (run es c).settled ≡ decisions id c.settled
run-gone id [] c d fresh e = refl
run-gone id (requested request_id tool ∷ es) c d (away, fresh) e =
    let (same, log) = request-other id request_id tool c away in
    let c' = (request_permission request_id tool c).1 in
    run-gone id es c' (request-HasDistinctKeys request_id tool c d) fresh (same ∙ e)
    ∙ ap (decisions id) log
run-gone id (resolved request_id granted ∷ es) c d (_, fresh) e =
    let c' = resolve_permission request_id granted c in
    let gone : get c'.pending_requests id ≡ none =
      ground (arith, resolve-get id request_id granted c d) in
    run-gone id es c' (resolve-HasDistinctKeys request_id granted c d) fresh gone
    ∙ resolve-gone id request_id granted c e

run-waiting :
    (id tool : Text) (es : List Event) (c : PermissionChecker)
    → HasDistinctKeys c.pending_requests
    → All (MakesNo id) es
    → get c.pending_requests id ≡ some tool
    → decisions id (run es c).settled ≡ with_answer (first_answer id es) (decisions id c.settled)
run-waiting id tool [] c d fresh e = refl
run-waiting id tool (requested request_id other ∷ es) c d (away, fresh) e =
    let (same, log) = request-other id request_id other c away in
    let c' = (request_permission request_id other c).1 in
    run-waiting id tool es c' (request-HasDistinctKeys request_id other c d) fresh (same ∙ e)
    ∙ ap (λ l. with_answer (first_answer id es) (decisions id l)) log
run-waiting id tool (resolved request_id granted ∷ es) c d (_, fresh) e =
    let c' = resolve_permission request_id granted c in
    let d' = resolve-HasDistinctKeys request_id granted c d in
    let now_found = resolve-get id request_id granted c d in
    let now_said = resolve-waiting id request_id tool granted c e in
    elim (Bool-cases (text_eq request_id id)) [
      | inl same ↦
          let gone : get c'.pending_requests id ≡ none = ground (arith, now_found) in
          let later = run-gone id es c' d' fresh gone in ground (arith, later, now_said)
      | inr other ↦
          let kept : get c'.pending_requests id ≡ some tool = ground (arith, now_found) in
          let later = run-waiting id tool es c' d' fresh kept in ground (arith, later, now_said)
    ]

-- A request waits only if its tool is one to ask for; then it is decided by the first answer given to
-- it and by no other, whatever else is asked and answered, and not at all while there is none.
pub request_permission_lem :
    (id tool : Text) (c : PermissionChecker) (es : List Event)
    → HasDistinctKeys c.pending_requests
    → (request_permission id tool c).0 ≡ waits
    → All (MakesNo id) es
    → (check c tool ≡ ask)
      × (decisions id (run es (request_permission id tool c).1).settled
          ≡ with_answer (first_answer id es) (decisions id c.settled))
unfolding request_permission
request_permission_lem id tool c es d e fresh = elim (action-cases (check c tool)) [
  | inl a ↦ ground arith
  | inr (inl n) ↦ ground arith
  | inr (inr k) ↦
      let c' = (request_permission id tool c).1 in
      let found : get c'.pending_requests id ≡ some tool =
        ground (arith, get-set c.pending_requests id id tool, text_eq_iff id id) in
      let log : c'.settled ≡ c.settled = ground arith in
      (
        k,
        run-waiting id tool es c' (request-HasDistinctKeys id tool c d) fresh found
            ∙ ap (λ l. with_answer (first_answer id es) (decisions id l)) log,
      )
]
