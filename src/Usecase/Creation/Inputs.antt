-- ===== src/Usecase/Creation/Inputs.antt =====
-- The inputs of the creation interactors (internal/usecase/creation/types.go and the heads of the
-- three interactors' files).
use numflex_sandbox.Prelude.{List, Option, String, [], ◌∷◌}
use numflex_sandbox.Entity.Errors.{GoError}
use numflex_sandbox.Entity.Fault.{Message, internal_error, lit}
use numflex_sandbox.Entity.Request.{Text}
use numflex_sandbox.Store.Schema.{ClientRow}
use numflex_sandbox.Store.Session.{M, or_fail}

pub record ClientInput : Type 0 where
  pub last_name : Text
  pub first_name : Text
  pub birth_date : Text
  pub birth_place : Text
  pub id_type : Text
  pub id_number : Text
  pub company_name : Text
  pub rc_number : Text

pub record CreateIndividualRequestInput : Type 0 where
  pub msisdn : Text
  pub otp_code : Text
  pub source_operator_id : Text
  pub recipient_operator_id : Text
  pub process : Text
  pub client : ClientInput

pub record CreateEnterpriseRequestInput : Type 0 where
  pub fleet_msisdn : Text
  pub otp_code : Text
  pub source_operator_id : Text
  pub recipient_operator_id : Text
  pub process : Text
  pub fleet_numbers : List Text
  pub client : ClientInput

pub record ExcludedNumber : Type 0 where
  pub msisdn : Text
  pub reason : Message
  pub error_code : Message

-- the row of demande_client that an interactor writes
abbrev pub client_row : Text → ClientInput → Option Text → Option Text → ClientRow
client_row id c company rc = record {
  request_id = id;
  last_name = c.last_name;
  first_name = c.first_name;
  birth_date = c.birth_date;
  birth_place = c.birth_place;
  id_type = c.id_type;
  id_number = c.id_number;
  company_name = company;
  rc_number = rc;
}

abbrev pub text : String → Message
text s = lit s ∷ []

-- `if err != nil { return entity.InternalError(text) }` inside a transaction
abbrev pub or_abort : {A : Type 0} → M GoError A → String → M GoError A
or_abort m s = or_fail m (internal_error (text s))
