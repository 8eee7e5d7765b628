-- ===== src/Usecase/Acceptance/Rejected.antt =====
-- What a rejection writes (internal/usecase/acceptance,
-- internal/adapter/gateway/postgres/request_gateway.go).
use numflex_sandbox.Prelude.{
  Bool, List, Option, [], any, ap, arith, not, refl, some, true, ◌++◌, ◌+◌, ◌||◌, ◌∙◌, ◌∷◌, ◌≡◌,
  ◌≢◌,
}
use numflex_sandbox.Entity.Authorization.{Caller}
use numflex_sandbox.Entity.Fault.{internal_error, lit}
use numflex_sandbox.Entity.Request.{Text, Time, rejected, step_completed}
use numflex_sandbox.Gateway.Requests.Writes.{closed_by, known_reason, reject_request, rejected_row}
use numflex_sandbox.Store.Outcomes.{begun}
use numflex_sandbox.Store.Runs.{Reliable, bind-ok, map_error-ok, statement-ok, unit_of_work-ok}
use numflex_sandbox.Store.Schema.{
  Db, HistoryRow, RequestRow, action, find_request, has_operator, is_request, nullif,
  update_request,
}
use numflex_sandbox.Store.Session.{Env, World, now_written, ok, or_fail, tx, ◌>>=◌}
use numflex_sandbox.Store.Table.{find_request-update_ne, find_request-update_self}
use numflex_sandbox.Usecase.Acceptance.{reject_in_transaction}

module _ (env : Env) (reliable : Reliable env) (caller : Caller) (id reason comment : Text)
    (w : World) where
  -- The database of the transaction's beginning, and the instant that the rejection records.
  abbrev start : Db
  start = env.others w.calls w.db

  abbrev instant : Time
  instant = env.clock (w.calls + 1)

  abbrev closing : Option RequestRow → List HistoryRow
  closing o = closed_by o step_completed (some caller.operator_id) action (nullif comment) instant

  abbrev opened : World
  opened = record (begun env w) { written = w.written ++ (instant ∷ []) }

  abbrev noted : World
  noted = record opened {
    db = record start { history = start.history ++ closing (find_request id start) };
    calls = opened.calls + 1;
  }

  abbrev closed : World
  closed = record noted {
    db = update_request id (rejected_row instant reason comment) noted.db;
    calls = noted.calls + 1;
  }

  abbrev is_allowed : Bool
  is_allowed = known_reason reason start || not (any (is_request id) start.requests)

  reject_request-ok :
      (r : RequestRow)
      → find_request id start ≡ some r
      → has_operator caller.operator_id start ≡ true
      → is_allowed ≡ true
      → reject_request env tx id caller.operator_id reason comment instant opened ≡ (ok tt, closed)
  unfolding reject_request
  reject_request-ok r e k h =
      bind-ok _ _ opened noted tt
        (statement-ok env reliable tx _ opened tt noted.db (rw e (rw k refl)))
      ∙ statement-ok env reliable tx _ noted tt closed.db (rw h refl)

  body-ok :
      (r : RequestRow)
      → find_request id start ≡ some r
      → has_operator caller.operator_id start ≡ true
      → is_allowed ≡ true
      → (now_written env >>= λ now.
            or_fail
              (reject_request env tx id caller.operator_id reason comment now)
              (internal_error (lit "rejecting the request" ∷ [])))
          (begun env w)
        ≡ (ok tt, closed)
  unfolding now_written
  body-ok r e k h =
      bind-ok (now_written env) _ (begun env w) opened instant refl
      ∙ map_error-ok _ _ opened closed tt (reject_request-ok r e k h)

  reject-eq :
      (r : RequestRow)
      → find_request id start ≡ some r
      → has_operator caller.operator_id start ≡ true
      → is_allowed ≡ true
      → reject_in_transaction env caller id reason comment w
        ≡ (ok tt, record closed { calls = closed.calls + 1 })
  unfolding reject_in_transaction
  reject-eq r e k h =
      map_error-ok _ _ w _ tt (unit_of_work-ok env reliable _ w closed tt (body-ok r e k h))

  -- The row of a request after its rejection.
  abbrev pub IsRejected : RequestRow → RequestRow → Type 0
  IsRejected r r' =
      (r'.status ≡ rejected)
      × (r'.current_step_status ≡ step_completed)
      × (r'.completion_date ≡ some instant)
      × (r'.rejection_reason_id ≡ nullif reason)
      × (r'.comment ≡ nullif comment)
      × (r'.current_step ≡ r.current_step)

  -- The row of the history: the step that the request was at, closed by the caller.
  abbrev pub rejection_row : RequestRow → HistoryRow
  rejection_row r = record {
    request_id = r.id;
    step = r.current_step;
    status = step_completed;
    operator_id = some caller.operator_id;
    origin = action;
    comment = nullif comment;
    started = r.step_start;
    ended = instant;
  }

  -- A rejection by a known operator, for a reason that the catalogue has, where the driver does not
  -- fail: it returns; the request is then rejected and finished at the instant of the act, with the
  -- reason and the comment, at the step where it was; its history has one more row, which closes the
  -- step that it was at for the caller, with the comment; and any other request is as it was.
  pub reject_in_transaction-IsRejected :
      (r : RequestRow) (j : Text)
      → find_request id start ≡ some r
      → known_reason reason start ≡ true
      → has_operator caller.operator_id start ≡ true
      → id ≢ j
      → ((reject_in_transaction env caller id reason comment w).0 ≡ ok tt)
        × ((r' : RequestRow) × (find_request id
                (reject_in_transaction env caller id reason comment w).1.db
              ≡ some r')
            × IsRejected r r')
        × ((reject_in_transaction env caller id reason comment w).1.db.history
            ≡ start.history ++ (rejection_row r ∷ []))
        × (find_request j (reject_in_transaction env caller id reason comment w).1.db
            ≡ find_request j start)
  reject_in_transaction-IsRejected r j e known k n =
      let run = reject-eq r e k (ground (arith, known)) in
      (
        ap (λ x. x.0) run,
        (
          rejected_row instant reason comment r,
          ap (λ x. find_request id x.1.db) run
              ∙ find_request-update_self id (rejected_row instant reason comment) noted.db r
                  (λ x. refl) e,
          (refl, refl, refl, refl, refl, refl),
        ),
        ap (λ x. x.1.db.history) run ∙ ap (λ o. start.history ++ closing o) e,
        ap (λ x. find_request j x.1.db) run
            ∙ find_request-update_ne id j (rejected_row instant reason comment) noted.db (λ x. refl)
                n,
      )
