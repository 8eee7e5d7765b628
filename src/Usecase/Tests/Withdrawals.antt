-- ===== src/Usecase/Tests/Withdrawals.antt =====
-- A cancellation, a rejection, a confirmation, the processing of a step and the count of the ranges on a small database.
use numflex_sandbox.Prelude.{[], arith, false, none, order_by, refl, some, true, ◌∷◌, ◌≡◌}
use numflex_sandbox.Entity.Authorization.{Caller, can_process, expected_confirmers}
use numflex_sandbox.Entity.Request.{PortingRequest, acceptance, activation, confirmation}
use numflex_sandbox.Gateway.Requests.Reads.{porting_request}
use numflex_sandbox.Store.Schema.{RequestRow, find_request}
use numflex_sandbox.Store.Session.{World, ok}
use numflex_sandbox.Usecase.Acceptance.{reject_in_transaction}
use numflex_sandbox.Usecase.Acceptance.Rejected.{
  IsRejected, reject_in_transaction-IsRejected, rejection_row,
}
use numflex_sandbox.Usecase.Engine.{Window}
use numflex_sandbox.Usecase.Porting.{
  can_confirm, cancel_in_transaction, confirm_request, process_step,
}
use numflex_sandbox.Usecase.Porting.Last.{IsConfirmed, confirm_request-IsConfirmed}
use numflex_sandbox.Usecase.Porting.Processed.{IsProcessed, process_step-IsProcessed}
use numflex_sandbox.Usecase.Porting.Withdrawn.{CancelsAt, cancel_in_transaction-withdrawn}
use numflex_sandbox.Usecase.Ranges.{CountNumberRangesResult, count_number_ranges}
use numflex_sandbox.Usecase.Ranges.Counted.{Counts, count_number_ranges-Counts}
use numflex_sandbox.Usecase.Tests.{db, quiet, request, requester, world}

abbrev fetched : PortingRequest
fetched = porting_request (request acceptance)

-- The first request is still at its acceptance.
cancel_in_transaction-withdrawn_example :
    CancelsAt quiet
      (λ n. refl)
      requester
      fetched
      (world acceptance)
      (some (request acceptance))
      2
      (cancel_in_transaction quiet requester fetched (world acceptance))
cancel_in_transaction-withdrawn_example =
    cancel_in_transaction-withdrawn quiet (λ n. refl) requester fetched (world acceptance)
      (some (request acceptance)) 2 refl refl (λ e. ground arith)

-- It has gone to the next step.
cancel_late :
    CancelsAt quiet
      (λ n. refl)
      requester
      fetched
      (world activation)
      none
      2
      (cancel_in_transaction quiet requester fetched (world activation))
cancel_late =
    cancel_in_transaction-withdrawn quiet (λ n. refl) requester fetched (world activation) none 2
      refl refl (λ e. ground arith)

-- One reason of rejection is known.
abbrev with_reason : World
with_reason = record (world acceptance) {
  db = record (db acceptance) { rejection_reasons = record { id = 8; label = 9 } ∷ [] };
}

reject_in_transaction-IsRejected_example :
    ((reject_in_transaction quiet requester 1 8 5 with_reason).0 ≡ ok tt)
    × ((r' : RequestRow) × (find_request 1
            (reject_in_transaction quiet requester 1 8 5 with_reason).1.db
          ≡ some r')
        × IsRejected quiet (λ n. refl) requester 1 8 5 with_reason (request acceptance) r')
    × ((reject_in_transaction quiet requester 1 8 5 with_reason).1.db.history
        ≡ rejection_row quiet (λ n. refl) requester 1 8 5 with_reason (request acceptance) ∷ [])
    × (find_request 2 (reject_in_transaction quiet requester 1 8 5 with_reason).1.db
        ≡ find_request 2 (db acceptance))
reject_in_transaction-IsRejected_example =
    reject_in_transaction-IsRejected quiet (λ n. refl) requester 1 8 5 with_reason
      (request acceptance) 2 refl refl refl (λ e. ground arith)

-- The operator 20 holds both numbers.
count_number_ranges-Counts_example :
    (out : CountNumberRangesResult) × ((count_number_ranges
        (λ x. x)
        (λ x. x)
        (λ x. x)
        quiet
        20
        (world acceptance)).0
      ≡ ok out)
    × (out.operator_id ≡ 20)
    × Counts
        (λ x. x)
        out
        (count_number_ranges (λ x. x) (λ x. x) (λ x. x) quiet 20 (world acceptance)).1.db
unfolding order_by
count_number_ranges-Counts_example =
    count_number_ranges-Counts (λ x. x) (λ x. x) (λ x. x) quiet 20 (world acceptance)
      (record { id = 20; name = 20; routing_prefix = 1020 }) (λ n. refl) refl

-- The operator 30 confirms, of three operators.
abbrev confirmer : Caller
confirmer = record requester { operator_id = 30 }

abbrev some_window : Window
some_window = record { convergence_min = 5; convergence_max = 9; draw = λ n. 2 }

confirm_request-IsConfirmed_example :
    IsConfirmed quiet
      (λ n. refl)
      (λ n d. refl)
      confirmer
      some_window
      1
      0
      (request confirmation)
      (world confirmation)
      false
      2
      (confirm_request quiet confirmer some_window 1 0 (world confirmation)).1.db
unfolding order_by can_confirm expected_confirmers
confirm_request-IsConfirmed_example =
    confirm_request-IsConfirmed quiet (λ n. refl) (λ n d. refl) confirmer some_window 1 0
      (request confirmation) (world confirmation) 2 refl refl refl refl refl refl
      (λ e. ground arith)

-- It is the last of the two that are waited for.
abbrev one_confirmed : World
one_confirmed = record (world confirmation) {
  db = record (db confirmation) {
    confirmations =
        record { request_id = 1; operator_id = 20; comment = none; confirmed_at = 0 } ∷ [];
  };
}

confirm_last :
    IsConfirmed quiet
      (λ n. refl)
      (λ n d. refl)
      confirmer
      some_window
      1
      0
      (request confirmation)
      one_confirmed
      true
      2
      (confirm_request quiet confirmer some_window 1 0 one_confirmed).1.db
unfolding order_by can_confirm expected_confirmers
confirm_last =
    confirm_request-IsConfirmed quiet (λ n. refl) (λ n d. refl) confirmer some_window 1 0
      (request confirmation) one_confirmed 2 refl refl refl refl refl refl (λ e. ground arith)

-- The recipient processes the activation, with a comment.
process_step-IsProcessed_example :
    IsProcessed quiet
      (λ n. refl)
      (λ n d. refl)
      requester
      some_window
      1
      5
      (request activation)
      (world activation)
      false
      2
      (process_step quiet requester some_window 1 5 (world activation)).1.db
unfolding can_process
process_step-IsProcessed_example =
    process_step-IsProcessed quiet (λ n. refl) (λ n d. refl) requester some_window 1 5
      (request activation) (world activation) 2 refl refl refl (λ e. ground arith)
