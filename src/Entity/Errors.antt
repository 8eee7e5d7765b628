-- ===== src/Entity/Errors.antt =====
-- The values of Go's `error` that the program makes or receives, their text, and `FaultFrom`
-- (internal/entity/fault.go).
pub mod Chain
use numflex_sandbox.Prelude.{Option, [], none, some, ◌++◌, ◌∷◌}
use numflex_sandbox.Entity.Fault.{Fault, Message, foreign, internal_error, lit}

pub data GoError : Type 0 where
  -- a `*Fault`, and a nil `*Fault` inside a non-nil error
  fault : Fault → GoError
  nil_fault : GoError
  -- `fmt.Errorf("...%w", err)`
  wrapped : Message → GoError → GoError
  -- an error of the database driver, `fmt.Errorf` with no `%w`, and the driver's two own kinds
  plain : Message → GoError
  no_rows unique_violation : GoError
  -- `port.ErrCancelStepChanged`, `port.ErrAlreadyConfirmed`, `port.ErrIncidentAlreadyOpen`
  cancel_step_changed already_confirmed incident_already_open : GoError

abbrev pub driver_error : GoError
driver_error = GoError.plain (foreign ∷ [])

-- `(f *Fault) Error()`
abbrev pub fault_text : Fault → Message
fault_text f = lit f.code ∷ (lit " : " ∷ f.message)

-- `err.Error()`; a nil `*Fault` would panic, and `fault_from` never asks for its text.
error_text : GoError → Message
error_text (GoError.fault f) = fault_text f
error_text nil_fault = []
error_text (wrapped m e) = m ++ error_text e
error_text (plain m) = m
error_text no_rows = foreign ∷ []
error_text unique_violation = foreign ∷ []
error_text cancel_step_changed =
    lit "l'étape de la demande a changé depuis l'autorisation d'annuler" ∷ []
error_text already_confirmed = lit "l'opérateur a déjà confirmé cette demande" ∷ []
error_text incident_already_open = lit "un incident interne est déjà ouvert pour cet opérateur" ∷ []

-- `errors.As(err, &f)`: whether a `*Fault` stands in the chain, and which (`none` for a nil one).
pub as_fault : GoError → Option (Option Fault)
as_fault (GoError.fault f) = some (some f)
as_fault nil_fault = some none
as_fault (wrapped m e) = as_fault e
as_fault _ = none

pub normalize : Option (Option Fault) → Message → Fault
normalize (some (some f)) text = f
normalize (some none) text = internal_error (lit "internal error" ∷ [])
normalize none text = internal_error text

-- `FaultFrom`; `none` is the nil error.
unfoldable pub fault_from : Option GoError → Fault
unfolding as_fault normalize error_text
fault_from none = internal_error (lit "internal error" ∷ [])
fault_from (some e) = normalize (as_fault e) (error_text e)
