-- ===== src/Usecase/Creation/Individual.antt =====
-- `CreateIndividualRequestInteractor` (internal/usecase/creation/create_individual_request.go).
use numflex_sandbox.Prelude.{if◌then◌else◌, none, some, ℕ, ◌==◌}
use numflex_sandbox.Entity.Authorization.{Caller}
use numflex_sandbox.Entity.Eligibility.{check_porting_eligibility, delay_between_portings}
use numflex_sandbox.Entity.Errors.{GoError}
use numflex_sandbox.Entity.Fault.{
  Fault, incorrect_source_operator, request_access_denied, validation_failed,
}
use numflex_sandbox.Entity.Request.{Text, Time, individual, porting}
use numflex_sandbox.Gateway.Numbers.{read_number_state}
use numflex_sandbox.Gateway.Otps.{consume_otp}
use numflex_sandbox.Gateway.Requests.Reads.{RequestView, routing_prefix}
use numflex_sandbox.Gateway.Requests.Writes.{add_client, add_number, create_request}
use numflex_sandbox.Store.Session.{
  Env, M, check, clock_now, new_id, now_written, or_fail, or_fault_from, or_internal, pool, pure,
  raise, require, tx, unit_of_work, ◌>>=◌, ◌>>◌,
}
use numflex_sandbox.Usecase.Acceptance.{read_back}
use numflex_sandbox.Usecase.Creation.Inputs.{
  CreateIndividualRequestInput, client_row, or_abort, text,
}
use numflex_sandbox.Usecase.Otp.{verify_otp}

module _ (env : Env) (max_attempts : ℕ) (caller : Caller) where
  -- the checks that come before the transaction
  unfoldable pub authorize_individual : CreateIndividualRequestInput → M Fault (Unit {0})
  authorize_individual i = do
    if i.recipient_operator_id == caller.operator_id
        then pure tt
        else raise (
            request_access_denied
              (text "L'opérateur connecté doit être l'opérateur destinataire de la demande."))
    verify_otp env max_attempts i.msisdn i.otp_code
    found ← or_internal (read_number_state env pool i.msisdn) (text "reading the number")
    state ← require found incorrect_source_operator
    now ← clock_now env
    check (
        check_porting_eligibility state i.source_operator_id i.recipient_operator_id
          delay_between_portings now)

  -- the body of the transaction: four writes or none
  unfoldable pub individual_transaction :
      CreateIndividualRequestInput → Text → Time → M GoError (Unit {0})
  individual_transaction i id now = do
    prefix ←
        or_fail (routing_prefix env tx i.source_operator_id)
          (validation_failed (text "Opérateur source inconnu"))
    or_abort
        (create_request env tx (record {
          id = id;
          msisdn = i.msisdn;
          subscriber_type = individual;
          request_type = porting;
          source_operator_id = i.source_operator_id;
          recipient_operator_id = i.recipient_operator_id;
          creator_operator_id = i.recipient_operator_id;
          process = some i.process;
          routing_info = some prefix;
          request_date = now;
        }))
        "creating the request"
    or_abort (add_number env tx id i.msisdn (some prefix) 0) "saving the number"
    or_abort (add_client env tx (client_row id i.client none none)) "saving the customer"
    or_abort (consume_otp env tx i.msisdn) "consuming the OTP"

  -- `Execute`
  unfoldable pub create_individual_request : CreateIndividualRequestInput → M Fault RequestView
  create_individual_request i = do
    authorize_individual i
    id ← new_id env
    now ← now_written env
    or_fault_from (unit_of_work env (individual_transaction i id now))
    read_back env id
