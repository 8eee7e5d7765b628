-- ===== src/Usecase/Acceptance.antt =====
-- The acceptance interactors (internal/usecase/acceptance). The frozen-market test is the
-- controller's call, made before either interactor: `market_frozen`.
pub mod Rejected
pub mod Reread
use numflex_sandbox.Prelude.{Bool, List, String, [], false, if◌then◌else◌, true, ◌==◌, ◌∷◌}
use numflex_sandbox.Entity.Authorization.{Caller, can_accept}
use numflex_sandbox.Entity.Errors.{GoError}
use numflex_sandbox.Entity.Fault.{
  Fault, Message, internal_error, lit, rejection_reason_required, request_not_found, text_piece,
  validation_failed,
}
use numflex_sandbox.Entity.Request.{PortingRequest, Text, empty_text}
use numflex_sandbox.Gateway.Incidents.{read_market_frozen}
use numflex_sandbox.Gateway.Reference.{rejection_reason_exists}
use numflex_sandbox.Gateway.Requests.Reads.{
  RequestView, get_request, has_active_number, number_belongs, request_by_id,
}
use numflex_sandbox.Gateway.Requests.Writes.{reject_number, reject_request, set_comment}
use numflex_sandbox.Store.Session.{
  Env, M, check, now_written, or_fail, or_fault_from, or_internal, pool, pure, raise, require, tx,
  unit_of_work, ◌>>=◌, ◌>>◌,
}
use numflex_sandbox.Usecase.Engine.{Window, schedule_transition}

abbrev text : String → Message
text s = lit s ∷ []

module _ (env : Env) where
  -- `rejectionReasonValid`
  unfoldable pub rejection_reason_valid : Text → M Fault (Unit {0})
  rejection_reason_valid reason = if reason == empty_text then pure tt else (do
    exists ←
        or_internal (rejection_reason_exists env pool reason) (text "checking the rejection reason")
    if exists then pure tt else raise (validation_failed (text "Motif de rejet inconnu")))

  -- the re-read that ends every interactor on requests
  unfoldable pub read_back : Text → M Fault RequestView
  read_back id = do
    view ← or_internal (get_request env pool id) (text "re-reading the request")
    require view (internal_error (text "re-reading the request"))

  -- the transaction of a rejection, shared by both interactors
  unfoldable pub reject_in_transaction : Caller → Text → Text → Text → M Fault (Unit {0})
  reject_in_transaction caller id reason comment = or_fault_from (
      unit_of_work env (do
        now ← now_written env
        or_fail (reject_request env tx id caller.operator_id reason comment now)
            (internal_error (text "rejecting the request"))))

pub record AcceptRequestInput : Type 0 where
  pub request_id : Text
  pub accept : Bool
  pub rejection_reason_id : Text
  pub comment : Text

pub record RejectedNumberInput : Type 0 where
  pub msisdn : Text
  pub rejection_reason_id : Text

pub record AcceptFleetRequestInput : Type 0 where
  pub request_id : Text
  pub accept : Bool
  pub rejected_numbers : List RejectedNumberInput
  pub rejection_reason_id : Text
  pub comment : Text

module _ (env : Env) (window : Window) (caller : Caller) where
  -- what both interactors check first
  unfoldable pub authorize_acceptance : Text → Text → M Fault PortingRequest
  authorize_acceptance request_id reason = do
    found ← or_internal (request_by_id env pool request_id) (text "reading the request")
    dm ← require found request_not_found
    check (can_accept dm caller.operator_id)
    rejection_reason_valid env reason
    pure dm

  -- the acceptance branch of `AcceptRequestInteractor.Execute`
  unfoldable pub accept_in_transaction : Text → Text → M Fault (Unit {0})
  accept_in_transaction id comment = do
    or_fault_from (
        unit_of_work env
          (or_fail (set_comment env tx id comment) (internal_error (text "saving the comment"))))
    or_internal (schedule_transition env window id) (text "scheduling the transition")

  -- `AcceptRequestInteractor.Execute`
  unfoldable pub accept_request : AcceptRequestInput → M Fault RequestView
  accept_request i = do
    dm ← authorize_acceptance i.request_id i.rejection_reason_id
    if i.accept
        then accept_in_transaction dm.id i.comment
        else if i.rejection_reason_id == empty_text
        then raise rejection_reason_required
        else reject_in_transaction env caller dm.id i.rejection_reason_id i.comment
    read_back env dm.id

  -- the loop that validates `numerosRejetes` before anything is written
  unfoldable pub validate_rejections : Text → List RejectedNumberInput → M Fault (Unit {0})
  validate_rejections id [] = pure tt
  validate_rejections id (n ∷ ns) = do
    belongs ← or_internal (number_belongs env pool id n.msisdn) (text "checking the number")
    if belongs
        then pure tt
        else raise (
            validation_failed (
              lit "Le numéro "
              ∷ text_piece n.msisdn
              ∷ lit " ne fait pas partie de cette demande"
              ∷ []))
    rejection_reason_valid env n.rejection_reason_id
    validate_rejections id ns

  -- the loop that writes them
  unfoldable pub reject_numbers : Text → List RejectedNumberInput → M GoError (Unit {0})
  reject_numbers id [] = pure tt
  reject_numbers id (n ∷ ns) = do
    or_fail (reject_number env tx id n.msisdn n.rejection_reason_id)
        (internal_error (text "rejecting the number"))
    reject_numbers id ns

  -- the transaction of a fleet's acceptance; its result is `fleetExhausted`
  unfoldable pub fleet_transaction : Text → List RejectedNumberInput → Text → M GoError Bool
  fleet_transaction id rejections comment = do
    reject_numbers id rejections
    active ← or_fail (has_active_number env tx id) (internal_error (text "checking the fleet"))
    if active
        then (do
          or_fail (set_comment env tx id comment) (internal_error (text "saving the comment"))
          pure false)
        else (do
          now ← now_written env
          or_fail (reject_request env tx id caller.operator_id empty_text comment now)
              (internal_error (text "rejecting the request"))
          pure true)

  -- the acceptance branch of `AcceptFleetRequestInteractor.Execute`
  unfoldable pub accept_fleet : Text → List RejectedNumberInput → Text → M Fault (Unit {0})
  accept_fleet id rejections comment = do
    validate_rejections id rejections
    exhausted ← or_fault_from (unit_of_work env (fleet_transaction id rejections comment))
    if exhausted
        then pure tt
        else or_internal (schedule_transition env window id) (text "scheduling the transition")

  -- `AcceptFleetRequestInteractor.Execute`
  unfoldable pub accept_fleet_request : AcceptFleetRequestInput → M Fault RequestView
  accept_fleet_request i = do
    dm ← authorize_acceptance i.request_id i.rejection_reason_id
    if i.accept
        then accept_fleet dm.id i.rejected_numbers i.comment
        else if i.rejection_reason_id == empty_text
        then raise rejection_reason_required
        else reject_in_transaction env caller dm.id i.rejection_reason_id i.comment
    read_back env dm.id

  -- `MarketFrozen`
  unfoldable pub market_frozen : M Fault (Unit {0})
  market_frozen = do
    frozen ← or_internal (read_market_frozen env pool) (text "checking the market-wide freeze")
    if frozen
        then raise (
            internal_error
              (text "Le traitement des demandes est gelé par un incident interne en cours."))
        else pure tt
