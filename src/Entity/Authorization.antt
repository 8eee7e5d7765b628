-- ===== src/Entity/Authorization.antt =====
-- internal/entity/authorization.go: who may act on a request at its current step.
pub mod Rights
use numflex_sandbox.Prelude.{
  Bool, List, Option, [], false, if◌then◌else◌, none, not, some, true, ◌&&◌, ◌==◌, ◌||◌, ◌∷◌,
}
use numflex_sandbox.Entity.Fault.{
  Fault, invalid_step, lit, request_access_denied, status_piece, step_piece,
}
use numflex_sandbox.Entity.Request.{
  PortingRequest, Role, Step, Text, acceptance, confirmation, is_acceptance, is_in_progress,
  is_porting, role_all, role_artp, role_recipient, role_source,
}
use numflex_sandbox.Entity.Step.{step_endpoint, step_owner}

pub record Caller : Type 0 where
  pub user_id : Text
  pub username : Text
  pub operator_id : Text
  pub operator_name : Text
  pub roles : List Text

abbrev not_in_progress : PortingRequest → Fault
not_in_progress r =
    invalid_step
      (lit "Cette demande n'est plus en cours (statut : " ∷ status_piece r.status ∷ lit ")." ∷ [])

abbrev treated_via : Step → Fault
treated_via s =
    invalid_step
      (lit "L'étape " ∷ step_piece s ∷ lit " se traite via " ∷ lit (step_endpoint s) ∷ lit "." ∷ [])

-- The first `switch` of `CanProcess`: two steps are processed elsewhere.
elsewhere : Step → Option Fault
elsewhere acceptance = some (treated_via acceptance)
elsewhere confirmation = some (treated_via confirmation)
elsewhere _ = none

-- The second `switch`: the owner of the step must be the caller.
owned_by : Role → PortingRequest → Text → Option Fault
owned_by role_source r operator_id =
    if operator_id == r.source_operator_id
    then none
    else some (
        request_access_denied
          (lit "L'étape " ∷ step_piece r.current_step ∷ lit " incombe à l'opérateur source." ∷ []))
owned_by role_recipient r operator_id =
    if operator_id == r.recipient_operator_id
    then none
    else some (
        request_access_denied (
          lit "L'étape "
          ∷ step_piece r.current_step
          ∷ lit " incombe à l'opérateur destinataire."
          ∷ []))
owned_by role_all r operator_id = none
owned_by role_artp r operator_id = none

abbrev pub is_artp : Role → Bool
is_artp role_artp = true
is_artp _ = false

abbrev orelse : Option Fault → Option Fault → Option Fault
orelse none f = f
orelse (some e) f = some e

unfoldable pub can_process : PortingRequest → Text → Option Fault
unfolding step_owner elsewhere owned_by
can_process r operator_id =
    let owner = step_owner r.current_step r.request_type in
    if is_artp owner
    then some (
        request_access_denied (
          lit
            "La complétion (COMPLETION) d'une demande REVERSE est réservée à l'ARTP, une fois que tous les opérateurs ont confirmé."
          ∷ []))
    else if not (is_in_progress r.status)
    then some (not_in_progress r)
    else if r.pending_transition
    then some (
        invalid_step (
          lit "L'étape "
          ∷ step_piece r.current_step
          ∷ lit " a déjà été traitée pour cette demande."
          ∷ []))
    else orelse (elsewhere r.current_step) (owned_by owner r operator_id)

unfoldable pub expected_confirmers : PortingRequest → List Text → List Text
expected_confirmers r [] = []
expected_confirmers r (op ∷ ops) =
    let rest = expected_confirmers r ops in
    if is_porting r.request_type && op == r.recipient_operator_id then rest else op ∷ rest

unfoldable pub can_accept : PortingRequest → Text → Option Fault
can_accept r operator_id =
    if not (is_in_progress r.status)
    then some (not_in_progress r)
    else if not (is_acceptance r.current_step) || r.pending_transition
    then some (
        invalid_step (
          lit "Cette demande n'est plus à l'étape ACCEPTATION (étape actuelle : "
          ∷ step_piece r.current_step
          ∷ lit ")."
          ∷ []))
    else if operator_id == r.source_operator_id
    then none
    else some (
        request_access_denied
          (lit "Seul l'opérateur source peut accepter ou rejeter cette demande." ∷ []))

unfoldable pub can_cancel : PortingRequest → Text → Option Fault
can_cancel r operator_id =
    if not (operator_id == r.creator_operator_id)
    then some (
        request_access_denied (
          lit "Seul l'opérateur ayant créé la demande (opérateur destinataire) peut l'annuler."
          ∷ []))
    else if not (is_in_progress r.status) || not (is_acceptance r.current_step)
    then some (
        invalid_step (
          lit "Cette demande ne peut plus être annulée (étape actuelle : "
          ∷ step_piece r.current_step
          ∷ lit ")."
          ∷ []))
    else none
