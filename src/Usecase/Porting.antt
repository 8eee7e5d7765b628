-- ===== src/Usecase/Porting.antt =====
-- The porting interactors (internal/usecase/porting): cancel, process a step, confirm.
pub mod Withdrawn
pub mod Last
pub mod Processed
use numflex_sandbox.Prelude.{
  Option, String, [], contains, if◌then◌else◌, leb, length, map, none, not, some, ◌==◌, ◌||◌, ◌∷◌,
}
use numflex_sandbox.Entity.Authorization.{Caller, can_cancel, can_process, expected_confirmers}
use numflex_sandbox.Entity.Errors.{GoError, already_confirmed, cancel_step_changed, fault}
use numflex_sandbox.Entity.Fault.{
  Fault, Message, internal_error, invalid_step, lit, request_access_denied, request_not_found,
  step_piece,
}
use numflex_sandbox.Entity.Request.{
  PortingRequest, Text, empty_text, is_confirmation, is_in_progress,
}
use numflex_sandbox.Gateway.Confirmations.{confirm, count_confirmations}
use numflex_sandbox.Gateway.Reference.{read_operators}
use numflex_sandbox.Gateway.Requests.Reads.{RequestView, request_by_id}
use numflex_sandbox.Gateway.Requests.Writes.{cancel_request_at, set_comment}
use numflex_sandbox.Store.Session.{
  Env, M, check, clock_now, map_error, now_written, or_fail, or_fault_from, or_internal, pool, pure,
  raise, require, tx, unit_of_work, ◌>>=◌, ◌>>◌,
}
use numflex_sandbox.Usecase.Acceptance.{read_back}
use numflex_sandbox.Usecase.Engine.{Window, schedule_transition}

abbrev text : String → Message
text s = lit s ∷ []

-- the two tests of `ConfirmRequestInteractor.Execute` on the request
unfoldable pub can_confirm : PortingRequest → Option Fault
can_confirm dm =
    if not (is_in_progress dm.status) || not (is_confirmation dm.current_step)
    then some (
        invalid_step (
          lit "Cette demande n'est pas à l'étape CONFIRMATION (étape actuelle : "
          ∷ step_piece dm.current_step
          ∷ lit ")."
          ∷ []))
    else if dm.pending_transition
    then some (invalid_step (text "L'étape CONFIRMATION a déjà été soldée pour cette demande."))
    else none

module _ (env : Env) (caller : Caller) where
  -- the error of `Cancel` inside the transaction
  abbrev pub cancel_fault : GoError → GoError
  cancel_fault cancel_step_changed = GoError.fault (
      invalid_step (
        text "Cette demande ne peut plus être annulée : son étape a changé depuis l'autorisation."))
  cancel_fault e = GoError.fault (internal_error (text "cancelling the request"))

  -- the transaction of a cancellation
  unfoldable pub cancel_in_transaction : PortingRequest → M Fault (Unit {0})
  cancel_in_transaction dm = or_fault_from (
      unit_of_work env (do
        now ← now_written env
        map_error cancel_fault
            (cancel_request_at env tx dm.id caller.operator_id dm.current_step now)))

  -- `CancelRequestInteractor.Execute`
  unfoldable pub cancel_request : Text → M Fault RequestView
  cancel_request request_id = do
    found ← or_internal (request_by_id env pool request_id) (text "reading the request")
    dm ← require found request_not_found
    check (can_cancel dm caller.operator_id)
    cancel_in_transaction dm
    read_back env dm.id

  module _ (window : Window) where
    -- `ProcessStepInteractor.Execute`; the sleep before COMPLETION takes no part in the result
    unfoldable pub process_step : Text → Text → M Fault RequestView
    process_step request_id comment = do
      found ← or_internal (request_by_id env pool request_id) (text "reading the request")
      dm ← require found request_not_found
      check (can_process dm caller.operator_id)
      if comment == empty_text
          then pure tt
          else or_fault_from (
              unit_of_work env (
                or_fail (set_comment env tx dm.id comment)
                  (internal_error (text "saving the comment"))))
      or_internal (schedule_transition env window dm.id) (text "scheduling the transition")
      read_back env dm.id

    -- the error of `Confirm` inside the transaction
    abbrev confirm_fault : GoError → GoError
    confirm_fault already_confirmed =
        GoError.fault
          (request_access_denied (text "Votre opérateur a déjà confirmé cette demande."))
    confirm_fault e = GoError.fault (internal_error (text "saving the confirmation"))

    -- the transaction of a confirmation
    unfoldable pub confirm_in_transaction : Text → Text → M Fault (Unit {0})
    confirm_in_transaction id comment = or_fault_from (
        unit_of_work env (do
          now ← clock_now env
          map_error confirm_fault (confirm env tx id caller.operator_id comment now)))

    -- `ConfirmRequestInteractor.Execute`
    unfoldable pub confirm_request : Text → Text → M Fault RequestView
    confirm_request request_id comment = do
      found ← or_internal (request_by_id env pool request_id) (text "reading the request")
      dm ← require found request_not_found
      check (can_confirm dm)
      operators ← or_internal (read_operators env pool) (text "reading the operators")
      let expected = expected_confirmers dm (map (λ o. o.id) operators)
      if contains expected caller.operator_id
          then pure tt
          else raise
              (request_access_denied (text "Votre opérateur n'a pas à confirmer cette demande."))
      confirm_in_transaction dm.id comment
      count ← or_internal (count_confirmations env pool dm.id) (text "counting the confirmations")
      if leb (length expected) count
          then or_internal (schedule_transition env window dm.id) (text "scheduling the transition")
          else pure tt
      read_back env dm.id
