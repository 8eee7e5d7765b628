-- ===== src/Usecase/Tests/Reversal.antt =====
-- A reverse request that is validated, on the database of the tests.
use numflex_sandbox.Prelude.{[], arith, false, find?, none, refl, some, ◌++◌, ◌∷◌, ◌≡◌}
use numflex_sandbox.Entity.Request.{acceptance}
use numflex_sandbox.Gateway.Reverses.{is_reverse_row}
use numflex_sandbox.Store.Schema.{validated, NumberRow, ReverseRow, pending}
use numflex_sandbox.Store.Session.{World, ok}
use numflex_sandbox.Usecase.Platform.{validate_reverse}
use numflex_sandbox.Usecase.Platform.Opening.{opened_number, opened_request}
use numflex_sandbox.Usecase.Platform.Validated.{validate_reverse-once}
use numflex_sandbox.Usecase.Tests.{db, quiet, world}

-- The operator 10 asks for the reverse of 77.
abbrev asked : ReverseRow
asked = record {
  id = 9;
  msisdn = 77;
  operator_id = 10;
  status = pending;
  request_date = 0;
  decided_at = none;
  request_id = none;
}

abbrev held_number : NumberRow
held_number = record {
  msisdn = 77;
  current_operator_id = 20;
  origin_operator_id = 20;
  last_porting_date = none;
  already_restituted = false;
}

abbrev asked_world : World
asked_world = record (world acceptance) { db = record (db acceptance) { reverses = asked ∷ [] } }

validate_reverse-once_example :
    ((validate_reverse quiet 9 asked_world).0 ≡ ok tt)
    × ((validate_reverse quiet 9 asked_world).1.db.requests
        ≡ asked_world.db.requests ++ (opened_request quiet 9 asked held_number asked_world ∷ []))
    × ((validate_reverse quiet 9 asked_world).1.db.request_numbers
        ≡ asked_world.db.request_numbers
          ++ (opened_number quiet 9 asked held_number asked_world ∷ []))
    × ((r' : ReverseRow) × (find?
            (is_reverse_row 9)
            (validate_reverse quiet 9 asked_world).1.db.reverses
          ≡ some r')
        × (r'.status ≡ validated)
        × (r'.request_id ≡ some 103))
    × (find? (is_reverse_row 8) (validate_reverse quiet 9 asked_world).1.db.reverses ≡ none)
    × ((validate_reverse quiet 9 (validate_reverse quiet 9 asked_world).1).0 ≡ ok tt)
    × ((validate_reverse quiet 9 (validate_reverse quiet 9 asked_world).1).1.db
        ≡ (validate_reverse quiet 9 asked_world).1.db)
validate_reverse-once_example =
    validate_reverse-once quiet (λ n. refl) (λ n d. refl) 9 asked held_number asked_world 8 refl
      refl refl
      (record { holder_known = refl; asker_known = refl; request_free = refl; number_free = refl })
      (λ e. ground arith)
