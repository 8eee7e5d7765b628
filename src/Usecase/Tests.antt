-- ===== src/Usecase/Tests.antt =====
-- Transitions and one-time passwords on a small database.
mod Incidents
mod Lists
mod Purge
mod Login
mod Http
mod Withdrawals
mod Lockout
mod Reversal
use numflex_sandbox.Prelude.{
  Bool, List, [], any, arith, contains, false, length, none, refl, some, true, ◌+◌, ◌↔◌, ◌∷◌, ◌≡◌,
}
use numflex_sandbox.Entity.Authorization.{Caller}
use numflex_sandbox.Entity.Eligibility.{NumberState}
use numflex_sandbox.Entity.Request.{
  Step, Text, acceptance, activation, enterprise, in_progress, porting, step_in_progress,
}
use numflex_sandbox.Framework.Identifier.{after}
use numflex_sandbox.Gateway.Requests.Reads.{routing_prefix}
use numflex_sandbox.Store.Keeps.{Keeps}
use numflex_sandbox.Store.Outcomes.{OnErr, OnErr-unit_of_work, OnOk}
use numflex_sandbox.Store.Runs.{IsOk}
use numflex_sandbox.Store.Schema.{
  Db, NumberRow, OneTimePassword, OperatorRow, RequestNumberRow, RequestRow, action, find_request,
}
use numflex_sandbox.Store.Session.{Env, World, alone, ok, unit_of_work}
use numflex_sandbox.Usecase.Creation.Enterprise.{Member, partition}
use numflex_sandbox.Usecase.Creation.Fleet.{is_retained}
use numflex_sandbox.Usecase.Creation.Individual.{individual_transaction}
use numflex_sandbox.Usecase.Creation.Inputs.{CreateIndividualRequestInput}
use numflex_sandbox.Usecase.Creation.Total.{create_individual-IsOk}
use numflex_sandbox.Usecase.Creation.Written.{AreConsumed, IsNew}
use numflex_sandbox.Usecase.Engine.{Window}
use numflex_sandbox.Usecase.Otp.{verify_otp}
use numflex_sandbox.Usecase.Otp.Verify.{Accepts, verify_otp-Accepts}
use numflex_sandbox.Usecase.Platform.{tick}
use numflex_sandbox.Usecase.Porting.{confirm_request}
use numflex_sandbox.Usecase.Transition.{apply_transition, apply_transition_locked}
use numflex_sandbox.Usecase.Transition.Frame.{apply_transition-others}
use numflex_sandbox.Usecase.Transition.Holders.{holder}
use numflex_sandbox.Usecase.Transition.Moves.{Moved}
use numflex_sandbox.Usecase.Transition.Registry.{apply_transition-holder}
use numflex_sandbox.Usecase.Transition.Steps.{Transitioned, apply_transition-Transitioned}
use numflex_sandbox.Usecase.Transition.Total.{apply_transition-moves}

-- The driver never fails, no other session commits, and all clocks show the number of the access.
abbrev pub quiet : Env
quiet = alone (λ n. false) (λ n. n) (λ n. n) (λ n. n + 100)

abbrev pub request : Step → RequestRow
request step = record {
  id = 1;
  msisdn = 77;
  subscriber_type = enterprise;
  request_type = porting;
  status = in_progress;
  current_step = step;
  current_step_status = step_in_progress;
  source_operator_id = 20;
  recipient_operator_id = 10;
  creator_operator_id = 10;
  process = none;
  routing_info = none;
  request_date = 0;
  step_start = 0;
  transition_due = none;
  completion_date = none;
  rejection_reason_id = none;
  comment = none;
}

abbrev member : Text → Bool → RequestNumberRow
member msisdn out = record {
  request_id = 1;
  msisdn = msisdn;
  is_rejected = out;
  rejection_reason_id = none;
  is_excluded = false;
  exclusion_reason = [];
  exclusion_code = [];
  routing_info = none;
  position = 0;
}

abbrev number : Text → NumberRow
number msisdn = record {
  msisdn = msisdn;
  current_operator_id = 20;
  origin_operator_id = 20;
  last_porting_date = none;
  already_restituted = false;
}

abbrev operator : Text → OperatorRow
operator id = record { id = id; name = id; routing_prefix = id + 1000 }

-- A request for 77 and 78, of which 78 is rejected, and another request.
abbrev pub db : Step → Db
db step = record {
  operators = operator 10 ∷ operator 20 ∷ operator 30 ∷ [];
  rejection_reasons = [];
  request_types = [];
  processes = [];
  incident_types = [];
  numbers = number 77 ∷ number 78 ∷ [];
  requests = request step ∷ record (request acceptance) { id = 2 } ∷ [];
  request_numbers = member 77 false ∷ member 78 true ∷ [];
  clients = [];
  history = [];
  confirmations = [];
  otps = [];
  reverses = [];
  incidents = [];
}

abbrev pub world : Step → World
world step = record { db = db step; calls = 0; written = [] }

apply_transition-Transitioned_example :
    OnOk
      (apply_transition quiet 1 action (world activation))
      (λ _ after. Transitioned 1 (some (request activation)) (db activation) after)
apply_transition-Transitioned_example =
    apply_transition-Transitioned quiet 1 action (world activation)

apply_transition-others_example :
    find_request 2 (apply_transition quiet 1 action (world activation)).1.db
    ≡ some (record (request acceptance) { id = 2 })
apply_transition-others_example =
    apply_transition-others quiet 1 2 action (λ e. ground arith) (world activation)

apply_transition-moves_example :
    IsOk (apply_transition quiet 1 action (world activation))
    × Moved
        (some (request activation))
        (find_request 1 (apply_transition quiet 1 action (world activation)).1.db)
apply_transition-moves_example =
    apply_transition-moves quiet 1 action (world activation) (request activation) (λ n. refl) refl
      refl (λ e. ground arith) ((operator 10, refl), (operator 20, refl))

apply_transition-holder_example :
    OnOk
      (apply_transition quiet 1 action (world activation))
      (λ _ after. holder 77 after.numbers ≡ some 10)
apply_transition-holder_example =
    apply_transition-holder quiet 1 action (request activation) (world activation) 77 refl

-- The rejected member stays with its operator.
rejected_stays :
    OnOk
      (apply_transition quiet 1 action (world activation))
      (λ _ after. holder 78 after.numbers ≡ some 20)
rejected_stays =
    apply_transition-holder quiet 1 action (request activation) (world activation) 78 refl

-- A challenge for 77, with the code 1234.
abbrev challenge : OneTimePassword
challenge = record { msisdn = 77; code = 1234; expires_at = 50; attempts = 0; consumed = false }

-- Before the creation of a request for 77.
abbrev fresh_world : World
fresh_world = record {
  db = record (db acceptance) { requests = []; request_numbers = []; otps = challenge ∷ [] };
  calls = 0;
  written = [];
}

abbrev input : CreateIndividualRequestInput
input = record {
  msisdn = 77;
  source_operator_id = 20;
  recipient_operator_id = 10;
  otp_code = 1234;
  process = 3;
  client = record {
    last_name = 4;
    first_name = 5;
    birth_date = 6;
    birth_place = 7;
    id_type = 8;
    id_number = 9;
    company_name = 0;
    rc_number = 0;
  };
}

abbrev pub requester : Caller
requester = record { user_id = 1; username = 2; operator_id = 10; operator_name = 3; roles = [] }

verify_otp-Accepts_example :
    ((verify_otp quiet 3 77 1234 fresh_world).0 ≡ ok tt)
    ↔ Accepts 3 1234 (quiet.clock 1) (some challenge)
verify_otp-Accepts_example = verify_otp-Accepts quiet 3 77 1234 fresh_world (λ n. refl)

create_individual-IsOk_example :
    let x = unit_of_work quiet (individual_transaction quiet 3 requester input 100 0) fresh_world in
    IsOk x
    × ((r : RequestRow) × (find_request 100 x.1.db ≡ some r) × IsNew input r)
    × AreConsumed 77 x.1.db.otps
create_individual-IsOk_example =
    create_individual-IsOk quiet 3 requester input 100 0 6 fresh_world (λ n. refl) refl
      (record {
        source = (operator 20, refl);
        source_known = refl;
        recipient_known = refl;
        request_free = refl;
        number_free = refl;
        client_free = refl;
      })

abbrev pub zero_window : Window
zero_window = record { convergence_min = 0; convergence_max = 0; draw = λ n. n }
