-- ===== src/Usecase/Creation/Enterprise.antt =====
-- `CreateEnterpriseRequestInteractor`
-- (internal/usecase/creation/create_enterprise_request.go).
use numflex_sandbox.Prelude.{
  Bool, List, Option, [], contains, false, if◌then◌else◌, length, none, not, some, true, ℕ, ◌&&◌,
  ◌+◌, ◌-◌, ◌==◌, ◌∷◌,
}
use numflex_sandbox.Entity.Authorization.{Caller}
use numflex_sandbox.Entity.Eligibility.{
  NumberState, check_porting_eligibility, delay_between_portings,
}
use numflex_sandbox.Entity.Errors.{GoError}
use numflex_sandbox.Entity.Fault.{
  Fault, fleet_empty, fleet_mixed_operators, incorrect_source_operator, lit, no_eligible_number,
  request_access_denied, validation_failed,
}
use numflex_sandbox.Entity.Request.{Text, Time, enterprise, porting}
use numflex_sandbox.Gateway.Numbers.{read_number_state}
use numflex_sandbox.Gateway.Otps.{consume_otp}
use numflex_sandbox.Gateway.Requests.Reads.{RequestView, routing_prefix}
use numflex_sandbox.Gateway.Requests.Writes.{
  add_client, add_excluded_number, add_number, create_request,
}
use numflex_sandbox.Store.Schema.{nullif}
use numflex_sandbox.Store.Session.{
  Env, M, clock_now, new_id, now_written, or_fail, or_fault_from, or_internal, pool, pure, raise,
  require, seen, tx, unit_of_work, ◌>>=◌, ◌>>◌,
}
use numflex_sandbox.Usecase.Acceptance.{read_back}
use numflex_sandbox.Usecase.Creation.Inputs.{
  CreateEnterpriseRequestInput, ExcludedNumber, client_row, or_abort, text,
}
use numflex_sandbox.Usecase.Otp.{verify_otp}

-- The loop of `deduplicate`: `seen` holds what was kept so far.
unfoldable pub deduplicate_from : List Text → List Text → List Text
deduplicate_from seen [] = []
deduplicate_from seen (n ∷ ns) =
    let kept = deduplicate_from (n ∷ seen) ns in
    let skipped = deduplicate_from seen ns in if contains seen n then skipped else n ∷ kept

unfoldable pub deduplicate : List Text → List Text
unfolding deduplicate_from
deduplicate = deduplicate_from []

-- A number read with its state, in the order of the fleet.
abbrev pub Member : Type 0
Member = Text × NumberState

-- Whether every member has the holder of the first one.
abbrev pub same_holder : Text → List Member → Bool
same_holder holder [] = true
same_holder holder ((msisdn, s) ∷ ms) = s.current_operator_id == holder && same_holder holder ms

abbrev pub is_mixed : List Member → Bool
is_mixed [] = false
is_mixed ((msisdn, s) ∷ ms) = not (same_holder s.current_operator_id ms)

-- What a member's eligibility adds to the retained and the excluded numbers.
abbrev pub sort_member :
    Text → Option Fault → List Text × List ExcludedNumber → List Text × List ExcludedNumber
sort_member msisdn none (retained, excluded) = (msisdn ∷ retained, excluded)
sort_member msisdn (some f) (retained, excluded) = (
  retained,
  record { msisdn = msisdn; reason = f.message; error_code = lit f.code ∷ [] } ∷ excluded,
)

-- The loop that partitions a fleet. `time.Since` reads the clock for each member; here all read the
-- one instant of this part of the run.
unfoldable pub partition : Text → Text → Time → List Member → List Text × List ExcludedNumber
partition source recipient now [] = ([], [])
partition source recipient now ((msisdn, s) ∷ ms) =
    sort_member msisdn (check_porting_eligibility s source recipient delay_between_portings now)
      (partition source recipient now ms)

-- `CreateEnterpriseRequestOutput`
pub record CreateEnterpriseRequestOutput : Type 0 where
  pub view : RequestView
  pub retained_count : ℕ
  pub excluded : List ExcludedNumber

module _ (env : Env) (max_attempts : ℕ) (caller : Caller) where
  -- the loop that reads the states
  unfoldable pub read_members : List Text → M Fault (List Member)
  read_members [] = pure []
  read_members (n ∷ ns) = do
    found ← or_internal (read_number_state env pool n) (text "reading the number")
    state ← require found incorrect_source_operator
    rest ← read_members ns
    pure ((n, state) ∷ rest)

  -- the checks that come before the transaction
  unfoldable pub authorize_enterprise :
      CreateEnterpriseRequestInput → M Fault (List Text × List ExcludedNumber)
  authorize_enterprise i = do
    if length i.fleet_numbers == 0 then raise fleet_empty else pure tt
    if i.recipient_operator_id == caller.operator_id
        then pure tt
        else raise (
            request_access_denied
              (text "L'opérateur connecté doit être l'opérateur destinataire de la demande."))
    verify_otp env max_attempts i.fleet_msisdn i.otp_code
    members ← read_members (deduplicate i.fleet_numbers)
    if is_mixed members then raise fleet_mixed_operators else pure tt
    now ← clock_now env
    let parts = partition i.source_operator_id i.recipient_operator_id now members
    if length parts.0 == 0 then raise no_eligible_number else pure parts

  unfoldable pub add_numbers : Text → Option Text → ℕ → List Text → M GoError (Unit {0})
  add_numbers id prefix position [] = pure tt
  add_numbers id prefix position (n ∷ ns) = do
    or_abort (add_number env tx id n prefix position) "saving the number"
    add_numbers id prefix (position + 1) ns

  unfoldable pub add_excluded : Text → List ExcludedNumber → M GoError (Unit {0})
  add_excluded id [] = pure tt
  add_excluded id (x ∷ xs) = do
    or_abort (add_excluded_number env tx id x.msisdn x.reason x.error_code)
        "saving the excluded number"
    add_excluded id xs

  -- the body of the transaction
  unfoldable pub enterprise_transaction :
      CreateEnterpriseRequestInput
      → List Text
      → List ExcludedNumber
      → Text
      → Time
      → M GoError (Unit {0})
  enterprise_transaction i retained excluded id now = do
    prefix ←
        or_fail (routing_prefix env tx i.source_operator_id)
          (validation_failed (text "Opérateur source inconnu"))
    or_abort
        (create_request env tx (record {
          id = id;
          msisdn = i.fleet_msisdn;
          subscriber_type = enterprise;
          request_type = porting;
          source_operator_id = i.source_operator_id;
          recipient_operator_id = i.recipient_operator_id;
          creator_operator_id = i.recipient_operator_id;
          process = some i.process;
          routing_info = some prefix;
          request_date = now;
        }))
        "creating the request"
    add_numbers id (some prefix) 0 retained
    add_excluded id excluded
    or_abort
        (add_client env tx
          (client_row id i.client (nullif i.client.company_name) (nullif i.client.rc_number)))
        "saving the customer"
    or_abort (consume_otp env tx i.fleet_msisdn) "consuming the OTP"

  -- `Execute`; `-` is exact, since a fleet has no more excluded numbers than entries
  unfoldable pub create_enterprise_request :
      CreateEnterpriseRequestInput → M Fault CreateEnterpriseRequestOutput
  create_enterprise_request i = do
    parts ← authorize_enterprise i
    id ← new_id env
    now ← now_written env
    or_fault_from (unit_of_work env (enterprise_transaction i parts.0 parts.1 id now))
    view ← read_back env id
    pure (record {
      view = view;
      retained_count = length i.fleet_numbers - length parts.1;
      excluded = parts.1;
    })
