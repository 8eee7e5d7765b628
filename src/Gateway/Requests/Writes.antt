-- ===== src/Gateway/Requests/Writes.antt =====
-- The writes of postgres.RequestGateway that create, comment, reject and cancel a request
-- (internal/adapter/gateway/postgres/request_gateway.go).
use numflex_sandbox.Prelude.{
  Bool, List, Option, [], any, false, find?, if◌then◌else◌, none, not, some, true, update_where, ℕ,
  ◌&&◌, ◌++◌, ◌==◌, ◌||◌, ◌∷◌,
}
use numflex_sandbox.Entity.Errors.{GoError, cancel_step_changed, driver_error, unique_violation}
use numflex_sandbox.Entity.Fault.{Message}
use numflex_sandbox.Entity.Request.{
  RequestType, Step, StepStatus, SubscriberType, Text, Time, acceptance, cancelled, confirmation,
  empty_text, in_progress, rejected, step_completed, step_in_progress,
}
use numflex_sandbox.Entity.Step.{step_eq}
use numflex_sandbox.Store.Schema.{
  ClientRow, Db, HistoryRow, Origin, RequestNumberRow, RequestRow, action, find_request,
  has_operator, is_catalog_row, is_request, nullif, update_request,
}
use numflex_sandbox.Store.Session.{
  Env, M, Outcome, Querier, err, ok, pure, raise, statement, ◌>>=◌, ◌>>◌,
}

-- `CreateRequestInput` (internal/usecase/port/gateway.go)
pub record CreateRequestInput : Type 0 where
  pub id : Text
  pub msisdn : Text
  pub subscriber_type : SubscriberType
  pub request_type : RequestType
  pub source_operator_id : Text
  pub recipient_operator_id : Text
  pub creator_operator_id : Text
  pub process : Option Text
  pub routing_info : Option Text
  pub request_date : Time

-- The row of an INSERT at a first step.
abbrev pub new_row : Step → CreateRequestInput → RequestRow
new_row step c = record {
  id = c.id;
  msisdn = c.msisdn;
  subscriber_type = c.subscriber_type;
  request_type = c.request_type;
  status = in_progress;
  current_step = step;
  current_step_status = step_in_progress;
  source_operator_id = c.source_operator_id;
  recipient_operator_id = c.recipient_operator_id;
  creator_operator_id = c.creator_operator_id;
  process = c.process;
  routing_info = c.routing_info;
  request_date = c.request_date;
  step_start = c.request_date;
  transition_due = none;
  completion_date = none;
  rejection_reason_id = none;
  comment = none;
}

-- INSERT INTO demande, with its primary key and its three foreign keys.
abbrev pub insert_request : RequestRow → Db → Outcome GoError (Unit {0}) × Db
insert_request r d =
    if any (is_request r.id) d.requests
    then (err unique_violation, d)
    else if has_operator r.source_operator_id d
        && has_operator r.recipient_operator_id d
        && has_operator r.creator_operator_id d
    then (ok tt, record d { requests = d.requests ++ (r ∷ []) })
    else (err driver_error, d)

abbrev pub is_number_of : Text → Text → RequestNumberRow → Bool
is_number_of id msisdn n = n.request_id == id && n.msisdn == msisdn

-- INSERT INTO demande_numero, with its primary key and its foreign key.
abbrev pub insert_number : RequestNumberRow → Db → Outcome GoError (Unit {0}) × Db
insert_number n d =
    if any (is_number_of n.request_id n.msisdn) d.request_numbers
    then (err unique_violation, d)
    else if any (is_request n.request_id) d.requests
    then (ok tt, record d { request_numbers = d.request_numbers ++ (n ∷ []) })
    else (err driver_error, d)

-- INSERT INTO demande_client, with its primary key and its foreign key.
abbrev pub insert_client : ClientRow → Db → Outcome GoError (Unit {0}) × Db
insert_client c d =
    if any (λ x. x.request_id == c.request_id) d.clients
    then (err unique_violation, d)
    else if any (is_request c.request_id) d.requests
    then (ok tt, record d { clients = d.clients ++ (c ∷ []) })
    else (err driver_error, d)

-- The same for a birth date as PostgreSQL reads it: a text that is no date is refused.
abbrev pub insert_dated : ClientRow → Option Text → Db → Outcome GoError (Unit {0}) × Db
insert_dated c none d = (err driver_error, d)
insert_dated c (some date) d = insert_client (record c { birth_date = date }) d

-- INSERT INTO etape_historique ... SELECT ... FROM demande, for the row that the WHERE clause keeps.
abbrev pub closed_by :
    Option RequestRow → StepStatus → Option Text → Origin → Option Text → Time → List HistoryRow
closed_by none status operator_id origin comment now = []
closed_by (some r) status operator_id origin comment now =
    record {
      request_id = r.id;
      step = r.current_step;
      status = status;
      operator_id = operator_id;
      origin = origin;
      comment = comment;
      started = r.step_start;
      ended = now;
    }
    ∷ []

-- The INSERT with the foreign key on its operator, which is tested where there is a row to write.
abbrev pub add_history : Text → List HistoryRow → Db → Outcome GoError (Unit {0}) × Db
add_history operator_id rows d =
    if not (any (λ _. true) rows) || has_operator operator_id d
    then (ok tt, record d { history = d.history ++ rows })
    else (err driver_error, d)

-- The UPDATE of `Reject`.
abbrev pub rejected_row : Time → Text → Text → RequestRow → RequestRow
rejected_row now reason comment r = record r {
  status = rejected;
  current_step_status = step_completed;
  completion_date = some now;
  rejection_reason_id = nullif reason;
  comment = nullif comment;
}

-- The UPDATE of `Cancel`.
abbrev pub cancelled_row : Time → RequestRow → RequestRow
cancelled_row now r = record r {
  status = cancelled;
  current_step_status = step_completed;
  completion_date = some now;
  transition_due = none;
}

-- The foreign key on motif_rejet: NULL, or a known reason.
abbrev pub known_reason : Text → Db → Bool
known_reason reason d = reason == empty_text || any (is_catalog_row reason) d.rejection_reasons

-- `WHERE id = $1 AND etape_actuelle = $3`
abbrev pub is_request_at : Text → Step → RequestRow → Bool
is_request_at id step r = is_request id r && step_eq r.current_step step

module _ (env : Env) (q : Querier) where
  -- `Create`
  unfoldable pub create_request : CreateRequestInput → M GoError (Unit {0})
  create_request c = statement env q (λ now d. insert_request (new_row acceptance c) d)

  -- `CreateAtConfirmation`, whose INSERT names neither `processus` nor `routage_info`
  unfoldable pub create_at_confirmation : CreateRequestInput → M GoError (Unit {0})
  create_at_confirmation c = statement env q (λ now d.
      insert_request (new_row confirmation (record c { process = none; routing_info = none })) d)

  -- `AddNumber`
  unfoldable pub add_number : Text → Text → Option Text → ℕ → M GoError (Unit {0})
  add_number id msisdn routing position =
      let n : RequestNumberRow = record {
        request_id = id;
        msisdn = msisdn;
        is_rejected = false;
        rejection_reason_id = none;
        is_excluded = false;
        exclusion_reason = [];
        exclusion_code = [];
        routing_info = routing;
        position = position;
      } in
      statement env q (λ now d. insert_number n d)

  -- `AddExcludedNumber`
  unfoldable pub add_excluded_number : Text → Text → Message → Message → M GoError (Unit {0})
  add_excluded_number id msisdn reason code =
      let n : RequestNumberRow = record {
        request_id = id;
        msisdn = msisdn;
        is_rejected = true;
        rejection_reason_id = none;
        is_excluded = true;
        exclusion_reason = reason;
        exclusion_code = code;
        routing_info = none;
        position = 0;
      } in
      statement env q (λ now d. insert_number n d)

  -- `AddClient`
  unfoldable pub add_client : ClientRow → M GoError (Unit {0})
  add_client c = statement env q (λ now d. insert_dated c (env.date_of c.birth_date) d)

  -- `SetComment`
  unfoldable pub set_comment : Text → Text → M GoError (Unit {0})
  set_comment id comment =
      statement env q
        (λ now d. (ok tt, update_request id (λ r. record r { comment = nullif comment }) d))

  -- `RejectNumber`; the foreign key matters only where a row is written
  unfoldable pub reject_number : Text → Text → Text → M GoError (Unit {0})
  reject_number id msisdn reason = statement env q (λ now d.
      if known_reason reason d || not (any (is_number_of id msisdn) d.request_numbers)
      then (
        ok tt,
        record d {
          request_numbers =
              update_where (is_number_of id msisdn)
                (λ n. record n { is_rejected = true; rejection_reason_id = nullif reason })
                d.request_numbers;
        },
      )
      else (err driver_error, d))

  -- `Reject`: the history row, then the request
  unfoldable pub reject_request : Text → Text → Text → Text → Time → M GoError (Unit {0})
  reject_request id operator_id reason comment now = do
    statement env q (λ _ d.
        add_history operator_id
          (closed_by (find_request id d) step_completed (some operator_id) action (nullif comment)
            now)
          d)
    statement env q (λ _ d.
        if known_reason reason d || not (any (is_request id) d.requests)
        then (ok tt, update_request id (rejected_row now reason comment) d)
        else (err driver_error, d))

  -- `RowsAffected`
  abbrev pub unless_none_affected : Bool → M GoError (Unit {0})
  unless_none_affected true = pure tt
  unless_none_affected false = raise cancel_step_changed

  -- `Cancel`: both statements are guarded by the step that the caller was authorized at
  unfoldable pub cancel_request_at : Text → Text → Step → Time → M GoError (Unit {0})
  cancel_request_at id operator_id expected now = do
    statement env q (λ _ d.
        add_history operator_id
          (closed_by (find? (is_request_at id expected) d.requests) step_completed
            (some operator_id) action none now)
          d)
    affected ← statement env q (λ _ d. (
      ok (any (is_request_at id expected) d.requests),
      record d {
        requests = update_where (is_request_at id expected) (cancelled_row now) d.requests;
      },
    ))
    unless_none_affected affected
