-- ===== src/Usecase/Tests/Purge.antt =====
-- A purge of a small database.
use numflex_sandbox.Prelude.{[], arith, false, find?, none, refl, some, true, ◌↔◌, ◌∷◌, ◌≡◌}
use numflex_sandbox.Entity.Eligibility.{check_porting_eligibility}
use numflex_sandbox.Entity.Request.{acceptance, confirmation}
use numflex_sandbox.Gateway.Numbers.{is_busy, is_number, number_state}
use numflex_sandbox.Store.Schema.{NumberRow, ReverseRow, validated}
use numflex_sandbox.Store.Session.{World, ok}
use numflex_sandbox.Usecase.Sandbox.{purge_test_data}
use numflex_sandbox.Usecase.Sandbox.Again.{nothing, purge_test_data-again}
use numflex_sandbox.Usecase.Sandbox.Purged.{counted, purge_test_data-purged, purged}
use numflex_sandbox.Usecase.Sandbox.Replay.{purge_test_data-replay}
use numflex_sandbox.Usecase.Tests.{db, quiet, request, requester}

-- 77 was ported from its origin 20 to 10.
abbrev moved : NumberRow
moved = record {
  msisdn = 77;
  current_operator_id = 10;
  origin_operator_id = 20;
  last_porting_date = some 1;
  already_restituted = true;
}

-- A reverse request of another operator that led to the request 1.
abbrev validated_reverse : ReverseRow
validated_reverse = record {
  id = 8;
  msisdn = 77;
  operator_id = 20;
  status = validated;
  request_date = 0;
  decided_at = some 1;
  request_id = some 1;
}

-- Operator 10 made the request 1, operator 30 made the request 2.
abbrev purge_world : World
purge_world = record {
  db = record (db confirmation) {
    requests =
        request confirmation
        ∷ record (request acceptance) { id = 2; msisdn = 79; creator_operator_id = 30 }
        ∷ [];
    numbers = moved ∷ [];
    reverses = validated_reverse ∷ [];
    confirmations =
        record { request_id = 1; operator_id = 30; comment = none; confirmed_at = 0 } ∷ [];
  };
  calls = 0;
  written = [];
}

purge_test_data-purged_example :
    ((purge_test_data quiet requester purge_world).0 ≡ ok (counted 10 purge_world.db))
    × ((purge_test_data quiet requester purge_world).1.db ≡ purged 10 purge_world.db)
purge_test_data-purged_example = purge_test_data-purged quiet (λ n. refl) requester purge_world

-- Row by row: one request, one number, no challenge and one reverse request.
purged_world :
    counted 10 purge_world.db
    ≡ record { requests_deleted = 1; numbers_restored = 1; otp_deleted = 0; reverse_deleted = 1 }
purged_world = refl

purge_test_data-again_example :
    let w' = (purge_test_data quiet requester purge_world).1 in
    let x = purge_test_data quiet requester w' in (x.0 ≡ ok nothing) × (x.1.db ≡ w'.db)
purge_test_data-again_example =
    purge_test_data-again quiet (λ n. refl) requester purge_world (λ n d. refl)

purge_test_data-replay_example :
    let after = (purge_test_data quiet requester purge_world).1.db in
    (n' : NumberRow) × (find? (is_number 77) after.numbers ≡ some n')
    × (n'.current_operator_id ≡ 20)
    × ((check_porting_eligibility (number_state n' (is_busy 77 after)) 20 30 1000 2 ≡ none)
        ↔ (is_busy 77 after ≡ false))
purge_test_data-replay_example =
    purge_test_data-replay quiet (λ n. refl) requester purge_world moved 30 1000 2 refl refl
      (λ e. ground arith)
