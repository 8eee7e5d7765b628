-- ===== src/Usecase/Platform/Opening.antt =====
-- The transaction that validates a reverse request, step by step
-- (internal/usecase/platform/auto_validate_reverses.go).
use numflex_sandbox.Prelude.{
  [], any, any-append, arith, false, find?, find?-update_same, none, refl, some, true, update_where,
  ◌++◌, ◌+◌, ◌∙◌, ◌∷◌, ◌≡◌,
}
use numflex_sandbox.Entity.Request.{
  Text, Time, confirmation, in_progress, individual, reverse, step_in_progress,
}
use numflex_sandbox.Gateway.Numbers.{is_number}
use numflex_sandbox.Gateway.Requests.Writes.{add_number, create_at_confirmation, is_number_of}
use numflex_sandbox.Gateway.Reverses.{
  current_operator_for, is_pending, is_reverse_row, lock_pending, mark_validated, validated_row,
}
use numflex_sandbox.Store.Calm.{Calm, statement-calm, unit_of_work-calm}
use numflex_sandbox.Store.Runs.{Reliable, bind-ok}
use numflex_sandbox.Store.Schema.{
  NumberRow, RequestNumberRow, RequestRow, ReverseRow, has_operator, is_request,
}
use numflex_sandbox.Store.Session.{Env, World, new_id, now_written, ok, tx}
use numflex_sandbox.Usecase.Platform.{validate_pending, validate_reverse}

module _ (env : Env) (reverse_id : Text) (r : ReverseRow) (n : NumberRow) (w : World) where
  -- The identifier that is drawn, and the instant of the validation.
  abbrev pub new_request_id : Text
  new_request_id = env.fresh (w.calls + 1 + 1 + 1)

  abbrev pub instant : Time
  instant = env.clock (w.calls + 1 + 1 + 1)

  -- The request that is opened: the holder of the number is its source, the operator that asked for
  -- the reverse is its recipient.
  abbrev pub opened_request : RequestRow
  opened_request = record {
    id = new_request_id;
    msisdn = r.msisdn;
    subscriber_type = individual;
    request_type = reverse;
    status = in_progress;
    current_step = confirmation;
    current_step_status = step_in_progress;
    source_operator_id = n.current_operator_id;
    recipient_operator_id = r.operator_id;
    creator_operator_id = r.operator_id;
    process = none;
    routing_info = none;
    request_date = instant;
    step_start = instant;
    transition_due = none;
    completion_date = none;
    rejection_reason_id = none;
    comment = none;
  }

  abbrev pub opened_number : RequestNumberRow
  opened_number = record {
    request_id = new_request_id;
    msisdn = r.msisdn;
    is_rejected = false;
    rejection_reason_id = none;
    is_excluded = false;
    exclusion_reason = [];
    exclusion_code = [];
    routing_info = none;
    position = 0;
  }

  -- The worlds in the transaction.
  abbrev pub locked_world : World
  locked_world = record w { calls = w.calls + 1 + 1 }

  abbrev pub dated : World
  dated = record w { calls = w.calls + 1 + 1 + 1; written = w.written ++ (instant ∷ []) }

  abbrev pub requested : World
  requested = record dated {
    db = record w.db { requests = w.db.requests ++ (opened_request ∷ []) };
    calls = dated.calls + 1;
  }

  abbrev pub numbered : World
  numbered = record requested {
    db = record requested.db { request_numbers = w.db.request_numbers ++ (opened_number ∷ []) };
    calls = requested.calls + 1;
  }

  abbrev pub marked : World
  marked = record numbered {
    db = record numbered.db {
      reverses =
          update_where (is_reverse_row reverse_id) (validated_row new_request_id instant)
            w.db.reverses;
    };
    calls = numbered.calls + 1;
  }

  -- What makes the request possible: both operators are known, and the identifier is new.
  pub record CanOpen : Type 0 where
    pub holder_known : has_operator n.current_operator_id w.db ≡ true
    pub asker_known : has_operator r.operator_id w.db ≡ true
    pub request_free : any (is_request new_request_id) w.db.requests ≡ false
    pub number_free : any (is_number_of new_request_id r.msisdn) w.db.request_numbers ≡ false

  module _ (reliable : Reliable env) (calm : Calm env) where
    request_there : any (is_request new_request_id) requested.db.requests ≡ true
    request_there =
        ground (arith, any-append (is_request new_request_id) w.db.requests opened_request)

    lock-eq :
        (v : World)
        → find? (is_reverse_row reverse_id) v.db.reverses ≡ some r
        → lock_pending env tx reverse_id v ≡ (ok r, record v { calls = v.calls + 1 })
    unfolding lock_pending
    lock-eq v e = statement-calm env reliable calm tx _ v r v.db (rw e refl)

    holder-eq :
        find? (is_number r.msisdn) w.db.numbers ≡ some n
        → current_operator_for env tx r.msisdn locked_world
          ≡ (ok n.current_operator_id, record locked_world { calls = w.calls + 1 + 1 + 1 })
    unfolding current_operator_for
    holder-eq e =
        statement-calm env reliable calm tx _ locked_world n.current_operator_id w.db (rw e refl)

    create-eq :
        CanOpen
        → create_at_confirmation env tx
            (record {
              id = new_request_id;
              msisdn = r.msisdn;
              subscriber_type = individual;
              request_type = reverse;
              source_operator_id = n.current_operator_id;
              recipient_operator_id = r.operator_id;
              creator_operator_id = r.operator_id;
              process = none;
              routing_info = none;
              request_date = instant;
            })
            dated
          ≡ (ok tt, requested)
    unfolding create_at_confirmation
    create-eq h =
        statement-calm env reliable calm tx _ dated tt requested.db
          (rw h.request_free (rw h.holder_known (rw h.asker_known refl)))

    number-eq :
        CanOpen → add_number env tx new_request_id r.msisdn none 0 requested ≡ (ok tt, numbered)
    unfolding add_number
    number-eq h =
        statement-calm env reliable calm tx _ requested tt numbered.db
          (rw h.number_free (rw request_there refl))

    mark-eq : mark_validated env tx reverse_id new_request_id instant numbered ≡ (ok tt, marked)
    unfolding mark_validated
    mark-eq = statement-calm env reliable calm tx _ numbered tt marked.db refl

    -- The world after the transaction.
    abbrev pub done : World
    done = record marked { calls = marked.calls + 1 }

    pending-eq :
        is_pending r.status ≡ true
        → find? (is_number r.msisdn) w.db.numbers ≡ some n
        → CanOpen
        → validate_pending env reverse_id r locked_world ≡ (ok tt, marked)
    unfolding validate_pending new_id now_written
    pending-eq p e h =
        let held = record locked_world { calls = w.calls + 1 + 1 + 1 } in
        rw p (
          bind-ok _ _ locked_world held n.current_operator_id (holder-eq e)
          ∙ bind-ok (new_id env) _ held held new_request_id refl
          ∙ bind-ok (now_written env) _ held dated instant refl
          ∙ bind-ok _ _ dated requested tt (create-eq h)
          ∙ bind-ok _ _ requested numbered tt (number-eq h)
          ∙ mark-eq)

    pub validate-eq :
        find? (is_reverse_row reverse_id) w.db.reverses ≡ some r
        → is_pending r.status ≡ true
        → find? (is_number r.msisdn) w.db.numbers ≡ some n
        → CanOpen
        → validate_reverse env reverse_id w ≡ (ok tt, done)
    unfolding validate_reverse
    validate-eq f p e h = unit_of_work-calm env reliable calm _ w marked tt (
        bind-ok _ _ (record w { calls = w.calls + 1 }) locked_world r
          (lock-eq (record w { calls = w.calls + 1 }) f)
        ∙ pending-eq p e h)

    pub marked_row :
        find? (is_reverse_row reverse_id) w.db.reverses ≡ some r
        → find? (is_reverse_row reverse_id) marked.db.reverses
          ≡ some (validated_row new_request_id instant r)
    marked_row f =
        find?-update_same (is_reverse_row reverse_id) (is_reverse_row reverse_id)
          (validated_row new_request_id instant) (λ x. refl) w.db.reverses
        ∙ rw f refl
