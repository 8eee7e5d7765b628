-- ===== src/Usecase/Tests/Lists.antt =====
-- The queues and the pages on a small database.
use numflex_sandbox.Prelude.{
  Bool, [], arith, contains, false, none, refl, some, true, ℕ, ◌↔◌, ◌∷◌, ◌≡◌,
}
use numflex_sandbox.Entity.Authorization.{expected_confirmers}
use numflex_sandbox.Entity.Eligibility.{NumberState}
use numflex_sandbox.Entity.Request.{Text, confirmation}
use numflex_sandbox.Gateway.Confirmations.{has_confirmed}
use numflex_sandbox.Gateway.Pages.Cover.{pages, pages-from}
use numflex_sandbox.Gateway.Queries.{at_confirmation, awaits}
use numflex_sandbox.Gateway.Queries.Membership.{awaits-can_confirm}
use numflex_sandbox.Gateway.Requests.Reads.{porting_request}
use numflex_sandbox.Usecase.Porting.{can_confirm}
use numflex_sandbox.Usecase.Tests.{db, request}
use numflex_sandbox.Usecase.Transition.Holders.{holder}

pages-from_example :
    pages {A = ℕ} 3 2 (1 ∷ 2 ∷ 3 ∷ 4 ∷ 5 ∷ 6 ∷ 7 ∷ []) ≡ some (1 ∷ 2 ∷ 3 ∷ 4 ∷ 5 ∷ 6 ∷ [])
pages-from_example = pages-from 3 2 6 (1 ∷ 2 ∷ 3 ∷ 4 ∷ 5 ∷ 6 ∷ 7 ∷ []) refl (omega arith)

awaits-can_confirm_example :
    ((at_confirmation (request confirmation) ≡ true)
      × (awaits (10 ∷ 20 ∷ 30 ∷ []) 30 (db confirmation) (request confirmation) ≡ true))
    ↔ ((can_confirm (porting_request (request confirmation)) ≡ none)
        × (contains
              (expected_confirmers (porting_request (request confirmation)) (10 ∷ 20 ∷ 30 ∷ []))
              30
            ≡ true)
        × (has_confirmed 1 30 (db confirmation) ≡ false))
awaits-can_confirm_example =
    awaits-can_confirm (request confirmation) (10 ∷ 20 ∷ 30 ∷ []) 30 (db confirmation) refl

-- A number with its operator, and one with another operator.
abbrev state : Text → Bool → NumberState
state holder busy = record {
  msisdn = 77;
  current_operator_id = holder;
  origin_operator_id = holder;
  last_porting_date = none;
  already_restituted = false;
  request_in_progress = busy;
}
