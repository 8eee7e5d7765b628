-- ===== src/Usecase/Creation/Restitution.antt =====
-- `CreateRestitutionRequestInteractor`
-- (internal/usecase/creation/create_restitution_request.go).
use numflex_sandbox.Prelude.{if◌then◌else◌, none, ◌==◌}
use numflex_sandbox.Entity.Authorization.{Caller}
use numflex_sandbox.Entity.Eligibility.{
  NumberState, check_restitution_eligibility, delay_before_restitution,
}
use numflex_sandbox.Entity.Errors.{GoError}
use numflex_sandbox.Entity.Fault.{Fault, incorrect_source_operator, request_access_denied}
use numflex_sandbox.Entity.Request.{Text, Time, individual, restitution}
use numflex_sandbox.Gateway.Numbers.{read_number_state}
use numflex_sandbox.Gateway.Requests.Reads.{RequestView}
use numflex_sandbox.Gateway.Requests.Writes.{add_number, create_request}
use numflex_sandbox.Store.Session.{
  Env, M, check, clock_now, new_id, now_written, or_fault_from, or_internal, pool, pure, raise,
  require, tx, unit_of_work, ◌>>=◌, ◌>>◌,
}
use numflex_sandbox.Usecase.Acceptance.{read_back}
use numflex_sandbox.Usecase.Creation.Inputs.{or_abort, text}

module _ (env : Env) (caller : Caller) where
  -- the checks that come before the transaction
  unfoldable pub authorize_restitution : Text → M Fault NumberState
  authorize_restitution msisdn = do
    found ← or_internal (read_number_state env pool msisdn) (text "reading the number")
    state ← require found incorrect_source_operator
    if state.origin_operator_id == caller.operator_id
        then pure tt
        else raise (
            request_access_denied
              (text "Seul l'opérateur d'origine du numéro peut demander sa restitution."))
    now ← clock_now env
    check (check_restitution_eligibility state delay_before_restitution now)
    pure state

  -- the body of the transaction
  unfoldable pub restitution_transaction : Text → NumberState → Text → Time → M GoError (Unit {0})
  restitution_transaction msisdn state id now = do
    or_abort
        (create_request env tx (record {
          id = id;
          msisdn = msisdn;
          subscriber_type = individual;
          request_type = restitution;
          source_operator_id = state.current_operator_id;
          recipient_operator_id = state.origin_operator_id;
          creator_operator_id = state.origin_operator_id;
          process = none;
          routing_info = none;
          request_date = now;
        }))
        "creating the request"
    or_abort (add_number env tx id msisdn none 0) "saving the number"

  -- `Execute`
  unfoldable pub create_restitution_request : Text → M Fault RequestView
  create_restitution_request msisdn = do
    state ← authorize_restitution msisdn
    id ← new_id env
    now ← now_written env
    or_fault_from (unit_of_work env (restitution_transaction msisdn state id now))
    read_back env id
