-- ===== src/Usecase/Porting/Withdrawn.antt =====
-- What a cancellation writes, and what its guard refuses
-- (internal/usecase/porting/cancel_request.go, internal/adapter/gateway/postgres/request_gateway.go).
use numflex_sandbox.Prelude.{
  Bool, List, Option, [], any, any-none, any-some, ap, arith, false, find?, find?-update_other,
  find?-update_same, none, not, refl, some, true, update_where, ◌++◌, ◌+◌, ◌||◌, ◌∙◌, ◌∷◌, ◌≡◌, ◌≢◌,
}
use numflex_sandbox.Entity.Authorization.{Caller}
use numflex_sandbox.Entity.Errors.{GoError, cancel_step_changed, fault_from}
use numflex_sandbox.Entity.Fault.{Fault, invalid_step, lit}
use numflex_sandbox.Entity.Request.{PortingRequest, Text, Time, cancelled, step_completed}
use numflex_sandbox.Framework.Identifier.{after}
use numflex_sandbox.Gateway.Requests.Writes.{
  cancel_request_at, cancelled_row, closed_by, is_request_at, unless_none_affected,
}
use numflex_sandbox.Store.Outcomes.{begun}
use numflex_sandbox.Store.Runs.{
  Reliable, bind-ok, map_error-err, map_error-ok, statement-eq, statement-ok, unit_of_work-err,
  unit_of_work-ok,
}
use numflex_sandbox.Store.Schema.{
  Db, HistoryRow, RequestRow, action, find_request, has_operator, is_request,
}
use numflex_sandbox.Store.Session.{
  Env, Outcome, World, err, map_error, now_written, ok, pure, raise, tx, ◌>>=◌,
}
use numflex_sandbox.Usecase.Porting.{cancel_fault, cancel_in_transaction}

module _ (env : Env) (reliable : Reliable env) (caller : Caller) (dm : PortingRequest)
    (w : World) where
  -- The database of the transaction's beginning.
  abbrev start : Db
  start = env.others w.calls w.db

  -- The row that both statements are guarded by.
  abbrev is_guarded_row : RequestRow → Bool
  is_guarded_row = is_request_at dm.id dm.current_step

  abbrev step_changed : Fault
  step_changed = invalid_step (
      lit "Cette demande ne peut plus être annulée : son étape a changé depuis l'autorisation."
      ∷ [])

  -- The instant that the cancellation records.
  abbrev instant : Time
  instant = env.clock (w.calls + 1)

  abbrev closing : List HistoryRow
  closing =
      closed_by (find? is_guarded_row start.requests) step_completed (some caller.operator_id)
        action none instant

  abbrev opened : World
  opened = record (begun env w) { written = w.written ++ (instant ∷ []) }

  abbrev noted : World
  noted = record opened {
    db = record start { history = start.history ++ closing };
    calls = opened.calls + 1;
  }

  abbrev withdrawn : World
  withdrawn = record noted {
    db = record noted.db {
      requests = update_where is_guarded_row (cancelled_row instant) start.requests;
    };
    calls = noted.calls + 1;
  }

  -- What the foreign key of the history lets pass.
  abbrev is_recorded : Bool
  is_recorded = not (any (λ _. true) closing) || has_operator caller.operator_id start

  cancel_at-eq :
      is_recorded ≡ true
      → cancel_request_at env tx dm.id caller.operator_id dm.current_step instant opened
        ≡ unless_none_affected env tx (any is_guarded_row start.requests) withdrawn
  unfolding cancel_request_at
  cancel_at-eq k =
      bind-ok _ _ opened noted tt (statement-ok env reliable tx _ opened tt noted.db (rw k refl))
      ∙ bind-ok _ _ noted withdrawn (any is_guarded_row start.requests)
          (statement-eq env tx _ noted reliable)

  body-ok :
      is_recorded ≡ true
      → any is_guarded_row start.requests ≡ true
      → (now_written env >>= λ now.
            map_error
              (cancel_fault env caller)
              (cancel_request_at env tx dm.id caller.operator_id dm.current_step now))
          (begun env w)
        ≡ (ok tt, withdrawn)
  unfolding now_written pure
  body-ok k h =
      bind-ok (now_written env) _ (begun env w) opened instant refl
      ∙ map_error-ok _ _ opened withdrawn tt
          (cancel_at-eq k ∙ ap (λ b. unless_none_affected env tx b withdrawn) h)

  cancel-eq :
      is_recorded ≡ true
      → any is_guarded_row start.requests ≡ true
      → cancel_in_transaction env caller dm w
        ≡ (ok tt, record withdrawn { calls = withdrawn.calls + 1 })
  unfolding cancel_in_transaction
  cancel-eq k h =
      map_error-ok _ _ w _ tt (unit_of_work-ok env reliable _ w withdrawn tt (body-ok k h))

  body-err :
      is_recorded ≡ true
      → any is_guarded_row start.requests ≡ false
      → (now_written env >>= λ now.
            map_error
              (cancel_fault env caller)
              (cancel_request_at env tx dm.id caller.operator_id dm.current_step now))
          (begun env w)
        ≡ (err (GoError.fault step_changed), withdrawn)
  unfolding now_written raise
  body-err k h =
      bind-ok (now_written env) _ (begun env w) opened instant refl
      ∙ map_error-err _ _ opened withdrawn cancel_step_changed
          (cancel_at-eq k ∙ ap (λ b. unless_none_affected env tx b withdrawn) h)

  cancel_stale-eq :
      is_recorded ≡ true
      → any is_guarded_row start.requests ≡ false
      → cancel_in_transaction env caller dm w ≡ (err step_changed, record withdrawn { db = start })
  unfolding cancel_in_transaction fault_from
  cancel_stale-eq k h =
      map_error-err _ _ w _ (GoError.fault step_changed)
        (unit_of_work-err env reliable _ w withdrawn (GoError.fault step_changed) (body-err k h))

  kept_row :
      (r : RequestRow)
      → find? is_guarded_row start.requests ≡ some r
      → find? is_guarded_row (update_where is_guarded_row (cancelled_row instant) start.requests)
        ≡ some (cancelled_row instant r)
  kept_row r e = ground (
    arith,
    e,
    find?-update_same is_guarded_row is_guarded_row (cancelled_row instant) (λ x. refl)
        start.requests,
  )

  other_rows :
      (j : Text)
      → dm.id ≢ j
      → find? (is_request j) (update_where is_guarded_row (cancelled_row instant) start.requests)
        ≡ find? (is_request j) start.requests
  other_rows j n =
      find?-update_other is_guarded_row (is_request j) (cancelled_row instant)
        (λ x k. ground (arith, n, k)) start.requests

  -- The row of a request after its cancellation.
  abbrev pub IsWithdrawn : RequestRow → RequestRow → Type 0
  IsWithdrawn r r' =
      (r'.status ≡ cancelled)
      × (r'.current_step_status ≡ step_completed)
      × (r'.completion_date ≡ some instant)
      × (r'.transition_due ≡ none)
      × (r'.rejection_reason_id ≡ r.rejection_reason_id)

  -- The row of the history: the step that the request was at, closed by the caller.
  abbrev pub cancellation_row : RequestRow → HistoryRow
  cancellation_row r = record {
    request_id = r.id;
    step = r.current_step;
    status = step_completed;
    operator_id = some caller.operator_id;
    origin = action;
    comment = none;
    started = r.step_start;
    ended = instant;
  }

  -- What the transaction makes of the row that it finds at the step; `j` is another request.
  abbrev pub CancelsAt : Option RequestRow → Text → Outcome Fault (Unit {0}) × World → Type 0
  CancelsAt none j after = (after.0 ≡ err step_changed) × (after.1.db ≡ start)
  CancelsAt (some r) j after =
      (after.0 ≡ ok tt)
      × ((r' : RequestRow) × (find? is_guarded_row after.1.db.requests ≡ some r')
          × IsWithdrawn r r')
      × (after.1.db.history ≡ start.history ++ (cancellation_row r ∷ []))
      × (find_request j after.1.db ≡ find_request j start)

  -- The cancellation that was authorized on a request by a known operator, where the driver does
  -- not fail. If the request
  -- is still at the step it was authorized at, it returns; the request is then withdrawn, no transition
  -- of it is scheduled any more, its history has one more row that closes this step for the caller,
  -- and any other request is as it was. If it has left that step meanwhile, the answer is the fault of
  -- the step, and nothing is written.
  pub cancel_in_transaction-withdrawn :
      (o : Option RequestRow) (j : Text)
      → find? is_guarded_row start.requests ≡ o
      → has_operator caller.operator_id start ≡ true
      → dm.id ≢ j
      → CancelsAt o j (cancel_in_transaction env caller dm w)
  cancel_in_transaction-withdrawn none j e k n =
      let run = cancel_stale-eq (ground (arith, k)) (any-none is_guarded_row start.requests e) in
      (ap (λ x. x.0) run, ap (λ x. x.1.db) run)
  cancel_in_transaction-withdrawn (some r) j e k n =
      let run = cancel-eq (ground (arith, k)) (any-some is_guarded_row start.requests r e) in
      (
        ap (λ x. x.0) run,
        (
          cancelled_row instant r,
          ap (λ x. find? is_guarded_row x.1.db.requests) run ∙ kept_row r e,
          (refl, refl, refl, refl, refl),
        ),
        ap (λ x. x.1.db.history) run
            ∙ ap
                (λ o.
                  start.history
                  ++ closed_by o step_completed (some caller.operator_id) action none instant)
                e,
        ap (λ x. find_request j x.1.db) run ∙ other_rows j n,
      )
