-- ===== src/Presenter/Modes.antt =====
-- The interface `Presenter` and its two implementations (internal/adapter/presenter).
use numflex_sandbox.Prelude.{Option, none, refl, some, ℕ, ◌≡◌}
use numflex_sandbox.Entity.Fault.{Fault, Message}
use numflex_sandbox.Entity.Request.{Text}
use numflex_sandbox.Presenter.{
  Body, ViewModel, contract_failure, contract_without_data, envelope, envelope_sans_data, problem,
  real_failure, real_without_data, success_view,
}

-- What a body carries under `data`.
abbrev pub body_data : {D : Type 0} → Body D → Option D
body_data (envelope e) = e.data_field
body_data (envelope_sans_data e) = none
body_data (problem p) = none

abbrev pub shown_data : {D : Type 0} → ViewModel D → Option D
shown_data vm = body_data vm.body

-- `Presenter`, with what a controller may rely on in either mode.
pub record Presenter : Type 1 where
  pub success : {D : Type 0} → ℕ → Message → D → ViewModel D
  pub success_without_data : {D : Type 0} → ℕ → Message → ViewModel D
  pub failure : {D : Type 0} → Option Fault → Text → ViewModel D
  pub success-data :
      {D : Type 0} (status : ℕ) (message : Message) (d : D)
      → shown_data (success status message d) ≡ some d
  pub success-status :
      {D : Type 0} (status : ℕ) (message : Message) (d : D)
      → (success status message d).status ≡ status
  pub failure-data :
      {D : Type 0} (f : Option Fault) (path : Text) → shown_data (failure {D = D} f path) ≡ none

pub success_view-data :
    {D : Type 0} (status : ℕ) (message : Message) (d : D)
    → shown_data (success_view status message d) ≡ some d
unfolding success_view
success_view-data status message d = refl

pub success_view-status :
    {D : Type 0} (status : ℕ) (message : Message) (d : D)
    → (success_view status message d).status ≡ status
unfolding success_view
success_view-status status message d = refl

pub real_failure-data :
    {D : Type 0} (f : Option Fault) (path : Text) → shown_data (real_failure {D = D} f path) ≡ none
unfolding real_failure
real_failure-data f path = refl

pub contract_failure-data :
    {D : Type 0} (f : Option Fault) (path : Text)
    → shown_data (contract_failure {D = D} f path) ≡ none
unfolding contract_failure
contract_failure-data f path = refl

-- `Real`
abbrev pub real_mode : Presenter
real_mode = record {
  success = success_view;
  success_without_data = real_without_data;
  failure = real_failure;
  success-data = success_view-data;
  success-status = success_view-status;
  failure-data = real_failure-data;
}

-- `Contract`
abbrev pub contract_mode : Presenter
contract_mode = record {
  success = success_view;
  success_without_data = contract_without_data;
  failure = contract_failure;
  success-data = success_view-data;
  success-status = success_view-status;
  failure-data = contract_failure-data;
}
