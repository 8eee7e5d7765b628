-- ===== src/Presenter.antt =====
-- How an outcome is rendered (internal/adapter/presenter): the two fidelity modes.
pub mod Statuses
pub mod Modes
use numflex_sandbox.Prelude.{Bool, List, Option, String, [], false, none, some, true, ℕ, ◌∷◌}
use numflex_sandbox.Entity.Fault.{
  Fault, FaultKind, FieldFault, Message, fault_access, fault_internal, fault_not_found, fault_state,
  fault_validation, internal_error, lit,
}
use numflex_sandbox.Entity.Request.{Text}

-- `Envelope`; `Data` is `nil` or the value of the use case
pub record Envelope (D : Type 0) : Type 0 where
  pub success : Bool
  pub code : String
  pub message : Message
  pub data_field : Option D

-- `EnvelopeSansData`
pub record EnvelopeSansData : Type 0 where
  pub success : Bool
  pub code : String
  pub message : Message

-- `Problem`; `omitempty` leaves out an empty detail and an empty list of field errors
pub record Problem : Type 0 where
  pub problem_type : String
  pub title : String
  pub status : ℕ
  pub detail : Message
  pub path : Text
  pub message : String
  pub field_errors : List FieldFault

pub data Body (D : Type 0) : Type 0 where
  envelope : Envelope D → Body D
  envelope_sans_data : EnvelopeSansData → Body D
  problem : Problem → Body D

-- `ViewModel`
pub record ViewModel (D : Type 0) : Type 0 where
  pub status : ℕ
  pub body : Body D

-- `if f == nil { f = entity.InternalError("internal error") }`
abbrev pub fault_or_internal : Option Fault → Fault
fault_or_internal none = internal_error (lit "internal error" ∷ [])
fault_or_internal (some f) = f

-- `contractStatus`
unfoldable pub contract_status : FaultKind → ℕ
contract_status fault_validation = 400
contract_status fault_not_found = 404
contract_status fault_access = 403
contract_status fault_state = 409
contract_status fault_internal = 500

-- `detail := f.RealDetail; if detail == "" { detail = other }`
abbrev pub detail_or : Message → Message → Message
detail_or [] other = other
detail_or (piece ∷ pieces) other = piece ∷ pieces

abbrev pub constraint_violation : List FieldFault → Text → Problem
constraint_violation fields path = record {
  problem_type = "https://www.jhipster.tech/problem/constraint-violation";
  title = "Method argument not valid";
  status = 400;
  detail = [];
  path = path;
  message = "error.validation";
  field_errors = fields;
}

abbrev pub bad_request : Message → Text → Problem
bad_request detail path = record {
  problem_type = "https://www.jhipster.tech/problem/problem-with-message";
  title = "Bad Request";
  status = 400;
  detail = detail;
  path = path;
  message = "error.http.400";
  field_errors = [];
}

abbrev pub server_error : Message → Text → Problem
server_error detail path = record {
  problem_type = "https://www.jhipster.tech/problem/problem-with-message";
  title = "Internal Server Error";
  status = 500;
  detail = detail;
  path = path;
  message = "error.http.500";
  field_errors = [];
}

-- the three branches of `Real.Failure`
abbrev pub real_problem : FaultKind → List FieldFault → Fault → Text → Problem
real_problem fault_validation (field ∷ fields) f path = constraint_violation (field ∷ fields) path
real_problem fault_validation [] f path = bad_request (detail_or f.real_detail f.message) path
real_problem _ fields f path =
    server_error (detail_or f.real_detail (lit "RuntimeException: " ∷ f.message)) path

module _ {D : Type 0} where
  -- `Success`, the same in both modes
  unfoldable pub success_view : ℕ → Message → D → ViewModel D
  success_view status message d = record {
    status = status;
    body =
        envelope
          (record { success = true; code = "SUCCESS"; message = message; data_field = some d });
  }

  -- `Real.SuccessWithoutData`
  unfoldable pub real_without_data : ℕ → Message → ViewModel D
  real_without_data status message = record {
    status = status;
    body = envelope_sans_data (record { success = true; code = "SUCCESS"; message = message });
  }

  -- `Contract.SuccessWithoutData`
  unfoldable pub contract_without_data : ℕ → Message → ViewModel D
  contract_without_data status message = record {
    status = status;
    body =
        envelope
          (record { success = true; code = "SUCCESS"; message = message; data_field = none });
  }

  -- `Contract.Failure`
  unfoldable pub contract_failure : Option Fault → Text → ViewModel D
  contract_failure f path = record {
    status = contract_status (fault_or_internal f).kind;
    body = envelope (record {
      success = false;
      code = (fault_or_internal f).code;
      message = (fault_or_internal f).message;
      data_field = none;
    });
  }

  -- `Real.Failure`
  unfoldable pub real_failure : Option Fault → Text → ViewModel D
  real_failure f path =
      let p =
        real_problem (fault_or_internal f).kind (fault_or_internal f).fields (fault_or_internal f)
          path in
      record { status = p.status; body = problem p }
