-- ===== src/Presenter/Statuses.antt =====
-- The statuses of the two fidelity modes (internal/adapter/presenter/real.go, contract.go).
use numflex_sandbox.Prelude.{List, [], arith, false, none, refl, some, ℕ, ◌↔◌, ◌∷◌, ◌≡◌, ◌≢◌}
use numflex_sandbox.Entity.Fault.{
  Fault, FaultKind, FieldFault, fault_access, fault_internal, fault_not_found, fault_state,
  fault_validation,
}
use numflex_sandbox.Entity.Request.{Text}
use numflex_sandbox.Presenter.{
  Body, contract_failure, contract_status, envelope, envelope_sans_data, problem, real_failure,
  real_problem,
}

-- What the body says of a failure.
abbrev pub IsRefusal : {D : Type 0} → Fault → ℕ → Body D → Type 0
IsRefusal f status (envelope e) = (e.success ≡ false) × (e.data_field ≡ none)
IsRefusal f status (envelope_sans_data e) = ⊥
IsRefusal f status (problem p) =
    (p.status ≡ status)
    × ((p.field_errors ≢ []) ↔ ((f.kind ≡ fault_validation) × (f.fields ≢ [])))
    × (p.field_errors ≢ [] → p.message ≡ "error.validation")

problem-IsRefusal :
    (kind : FaultKind) (fields : List FieldFault) (f : Fault) (path : Text)
    → let p = real_problem kind fields f path in
      ((p.status ≡ 400) ↔ (kind ≡ fault_validation))
      × ((p.status ≡ 500) ↔ (kind ≢ fault_validation))
      × ((p.field_errors ≢ []) ↔ ((kind ≡ fault_validation) × (fields ≢ [])))
      × (p.field_errors ≢ [] → p.message ≡ "error.validation")
problem-IsRefusal fault_validation [] f path =
    (ground arith, ground arith, ground arith, λ h. elim (h refl) [ ])
problem-IsRefusal fault_validation (x ∷ fields) f path =
    (ground arith, ground arith, ground arith, λ h. refl)
problem-IsRefusal fault_state fields f path =
    (ground arith, ground arith, ground arith, λ h. elim (h refl) [ ])
problem-IsRefusal fault_access fields f path =
    (ground arith, ground arith, ground arith, λ h. elim (h refl) [ ])
problem-IsRefusal fault_not_found fields f path =
    (ground arith, ground arith, ground arith, λ h. elim (h refl) [ ])
problem-IsRefusal fault_internal fields f path =
    (ground arith, ground arith, ground arith, λ h. elim (h refl) [ ])

-- The two modes agree on which faults are the client's: the status is 400 in one exactly when it is
-- 400 in the other, that is for a validation; the real mode answers 500 to all else, where the
-- contract mode answers 403 to exactly the faults of access. Neither body ever says that the act
-- succeeded; a problem repeats the status, and names fields exactly for a validation with fields.
pub real_failure-contract_failure :
    (D : Type 0) (f : Fault) (path : Text)
    → let real = real_failure {D = D} (some f) path in
      let contract = contract_failure {D = D} (some f) path in
      ((contract.status ≡ 400) ↔ (f.kind ≡ fault_validation))
      × ((real.status ≡ 400) ↔ (contract.status ≡ 400))
      × ((real.status ≡ 500) ↔ (contract.status ≢ 400))
      × ((contract.status ≡ 403) ↔ (f.kind ≡ fault_access))
      × IsRefusal f real.status real.body
      × IsRefusal f contract.status contract.body
unfolding real_failure contract_failure contract_status
real_failure-contract_failure D f path =
    let p = problem-IsRefusal f.kind f.fields f path in
    (
      ground arith,
      ground (arith, p.0),
      ground (arith, p.1),
      ground arith,
      (refl, p.2, p.3),
      (refl, refl),
    )
