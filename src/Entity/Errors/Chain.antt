-- ===== src/Entity/Errors/Chain.antt =====
-- `FaultFrom` on chains of wrapped errors (internal/entity/fault.go).
-- An error wrapped by `fmt.Errorf` with `%w`, the last wrapping first.
use numflex_sandbox.Prelude.{List, [], refl, some, ◌∷◌, ◌≡◌}
use numflex_sandbox.Entity.Errors.{
  GoError, already_confirmed, as_fault, cancel_step_changed, fault_from, normalize, wrapped,
}
use numflex_sandbox.Entity.Fault.{Fault, Message, fault_internal}

abbrev pub wraps : List Message → GoError → GoError
wraps [] e = e
wraps (m ∷ ms) e = wrapped m (wraps ms e)

as_fault-wraps : (ms : List Message) (e : GoError) → as_fault (wraps ms e) ≡ as_fault e
unfolding as_fault
as_fault-wraps [] e = refl
as_fault-wraps (m ∷ ms) e = as_fault-wraps ms e

-- However often a fault is wrapped, `FaultFrom` gives that fault back, and the sentinel errors of
-- the gateways become internal errors, also wrapped.
pub fault_from-wraps :
    (ms : List Message) (f : Fault)
    → (fault_from (some (wraps ms (GoError.fault f))) ≡ f)
      × ((fault_from (some (wraps ms cancel_step_changed))).kind ≡ fault_internal)
      × ((fault_from (some (wraps ms already_confirmed))).kind ≡ fault_internal)
unfolding fault_from normalize as_fault
fault_from-wraps ms f = (
  rw (as_fault-wraps ms (GoError.fault f)) refl,
  rw (as_fault-wraps ms cancel_step_changed) refl,
  rw (as_fault-wraps ms already_confirmed) refl,
)
