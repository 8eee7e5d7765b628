-- ===== src/Entity/Authorization/Rights.antt =====
-- Who may act (internal/entity/authorization.go), against a description that does not follow the
-- order of the tests: a table of the step, the type and the operators.
use numflex_sandbox.Prelude.{
  List, [], arith, contains, false, if◌then◌else◌, length, none, true, ℕ, ◌+◌, ◌==◌, ◌↔◌, ◌∷◌, ◌≡◌,
  ◌≢◌, ◌⊎◌,
}
use numflex_sandbox.Entity.Authorization.{can_accept, can_cancel, can_process, expected_confirmers}
use numflex_sandbox.Entity.Request.{
  PortingRequest, RequestType, Step, Text, acceptance, activation, completion, deactivation,
  in_progress, is_porting, porting, reverse,
}

-- The operator that a step is waiting for, if it is processed by `/demandes/traitement`.
abbrev pub Waits : Step → RequestType → Text → Text → Text → Type 0
Waits deactivation t source recipient op = op ≡ source
Waits activation t source recipient op = op ≡ recipient
Waits completion t source recipient op = (t ≢ reverse) × (op ≡ recipient)
Waits _ t source recipient op = ⊥

-- `CanProcess` lets an operator through exactly when the request is in progress with nothing
-- pending and its step waits for that operator: DESACTIVATION for the source, ACTIVATION for the
-- recipient, COMPLETION for the recipient unless the request is a REVERSE.
pub can_process_iff :
    (r : PortingRequest) (op : Text)
    → (can_process r op ≡ none) ↔ (
        (r.status ≡ in_progress)
        × (r.pending_transition ≡ false)
        × Waits r.current_step r.request_type r.source_operator_id r.recipient_operator_id op)
unfolding can_process
can_process_iff r op = ground arith

-- `CanAccept` lets an operator through exactly when the request is in progress at ACCEPTATION,
-- nothing is pending, and the operator is its source.
pub can_accept_iff :
    (r : PortingRequest) (op : Text)
    → (can_accept r op ≡ none) ↔ (
        (r.status ≡ in_progress)
        × (r.current_step ≡ acceptance)
        × (r.pending_transition ≡ false)
        × (op ≡ r.source_operator_id))
unfolding can_accept
can_accept_iff r op = ground arith

-- `CanCancel` lets an operator through exactly when it created the request, which is still in
-- progress at ACCEPTATION; a pending transition does not matter.
pub can_cancel_iff :
    (r : PortingRequest) (op : Text)
    → (can_cancel r op ≡ none)
      ↔ ((op ≡ r.creator_operator_id) × (r.status ≡ in_progress) × (r.current_step ≡ acceptance))
unfolding can_cancel
can_cancel_iff r op = ground arith

-- An operator is an expected confirmer exactly when it is on the market and is not the recipient
-- of a PORTAGE.
pub expected_confirmers_iff :
    (r : PortingRequest) (ops : List Text) (op : Text)
    → (contains (expected_confirmers r ops) op ≡ true)
      ↔ ((contains ops op ≡ true) × ((r.request_type ≢ porting) ⊎ (op ≢ r.recipient_operator_id)))
unfolding expected_confirmers
expected_confirmers_iff r [] op = ground arith
expected_confirmers_iff r (x ∷ ops) op = ground (arith, expected_confirmers_iff r ops op)

-- How often a number stands in a list.
abbrev pub count : Text → List Text → ℕ
count a [] = 0
count a (x ∷ xs) = (if x == a then 1 else 0) + count a xs

-- On a market of `n` entries a PORTAGE awaits `n` confirmations less the recipient's entries, and
-- any other request awaits `n`.
pub length-expected_confirmers :
    (r : PortingRequest) (ops : List Text)
    → length (expected_confirmers r ops)
        + (if is_porting r.request_type then count r.recipient_operator_id ops else 0)
      ≡ length ops
unfolding expected_confirmers
length-expected_confirmers r [] = ground arith
length-expected_confirmers r (x ∷ ops) = ground (arith, length-expected_confirmers r ops)
