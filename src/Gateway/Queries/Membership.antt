-- ===== src/Gateway/Queries/Membership.antt =====
-- Who sees a request in which queue, against the rules of the acts
-- (query_gateway.go, internal/entity/authorization.go, internal/entity/step.go).
use numflex_sandbox.Prelude.{List, [], arith, contains, false, none, refl, true, ◌↔◌, ◌∷◌, ◌≡◌}
use numflex_sandbox.Entity.Authorization.{can_accept, expected_confirmers}
use numflex_sandbox.Entity.Request.{Role, Text, role_recipient, role_source}
use numflex_sandbox.Gateway.Confirmations.{has_confirmed}
use numflex_sandbox.Gateway.Queries.{at_confirmation, awaits, confirmable, to_accept_filter}
use numflex_sandbox.Gateway.Requests.Reads.{porting_request}
use numflex_sandbox.Store.Schema.{Db, RequestRow}
use numflex_sandbox.Usecase.Porting.{can_confirm}

-- `/a-accepter` lists a request with nothing pending for an operator exactly when `CanAccept` lets
-- that operator through.
pub to_accept_filter-can_accept :
    (r : RequestRow) (op : Text)
    → r.transition_due ≡ none
    → (to_accept_filter op r ≡ true) ↔ (can_accept (porting_request r) op ≡ none)
unfolding can_accept
to_accept_filter-can_accept r op h = ground arith

-- The operator that a role makes responsible.
abbrev pub Responsible : Role → RequestRow → Text → Type 0
Responsible role_source r op = op ≡ r.source_operator_id
Responsible role_recipient r op = op ≡ r.recipient_operator_id
Responsible _ r op = ⊥

expected_confirmers-confirmable :
    (r : RequestRow) (operators : List Text)
    → expected_confirmers (confirmable r) operators
      ≡ expected_confirmers (porting_request r) operators
unfolding expected_confirmers
expected_confirmers-confirmable r [] = refl
expected_confirmers-confirmable r (x ∷ xs) = ground (arith, expected_confirmers-confirmable r xs)

-- `/a-confirmer` lists a request with nothing pending for an operator exactly when `ConfirmRequest`
-- would not refuse it: its tests on the request pass, the operator is an expected confirmer, and it
-- has not confirmed yet.
pub awaits-can_confirm :
    (r : RequestRow) (operators : List Text) (op : Text) (d : Db)
    → r.transition_due ≡ none
    → ((at_confirmation r ≡ true) × (awaits operators op d r ≡ true)) ↔ (
        (can_confirm (porting_request r) ≡ none)
        × (contains (expected_confirmers (porting_request r) operators) op ≡ true)
        × (has_confirmed r.id op d ≡ false))
unfolding can_confirm
awaits-can_confirm r operators op d h =
    rw (expected_confirmers-confirmable r operators) (ground arith)
