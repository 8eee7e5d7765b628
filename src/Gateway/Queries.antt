-- ===== src/Gateway/Queries.antt =====
-- postgres.QueryGateway (internal/adapter/gateway/postgres/query_gateway.go): the work queues.
pub mod Membership
pub mod Lists
use numflex_sandbox.Prelude.{
  Bool, List, [], any, contains, false, if◌then◌else◌, keep, map, not, order_by, true, ◌&&◌, ◌++◌,
  ◌==◌, ◌||◌, ◌∷◌,
}
use numflex_sandbox.Entity.Authorization.{expected_confirmers}
use numflex_sandbox.Entity.Errors.{GoError, plain}
use numflex_sandbox.Entity.Fault.{lit, text_piece}
use numflex_sandbox.Entity.Request.{
  PortingRequest, RequestStatus, Step, StepStatus, SubscriberType, Text, completed, deactivation,
  empty_text, is_acceptance, is_activation, is_completion, is_confirmation, is_in_progress,
  is_porting, is_reverse,
}
use numflex_sandbox.Gateway.Confirmations.{has_confirmed}
use numflex_sandbox.Store.Schema.{ConfirmationRow, Db, RequestRow}
use numflex_sandbox.Store.Session.{Env, M, Querier, ok, pure, raise, statement, ◌>>=◌, ◌>>◌}

-- `port.Queue` (internal/usecase/port/gateway.go)
pub data Queue : Type 0 where
  queue_to_accept queue_to_process queue_to_confirm : Queue
  other : Text → Queue

-- The WHERE clause of `Own`.
abbrev pub is_own : Text → RequestRow → Bool
is_own op r = r.source_operator_id == op || r.recipient_operator_id == op

-- `toAcceptFilter`
abbrev pub to_accept_filter : Text → RequestRow → Bool
to_accept_filter op r =
    is_in_progress r.status && is_acceptance r.current_step && r.source_operator_id == op

abbrev is_deactivation : Step → Bool
is_deactivation deactivation = true
is_deactivation _ = false

-- `toProcessFilter`
abbrev pub to_process_filter : Text → RequestRow → Bool
to_process_filter op r =
    is_in_progress r.status
    && (((is_acceptance r.current_step || is_deactivation r.current_step)
          && r.source_operator_id == op)
        || ((is_activation r.current_step || is_completion r.current_step)
            && r.recipient_operator_id == op
            && not (is_completion r.current_step && is_reverse r.request_type)))

abbrev is_completed : RequestStatus → Bool
is_completed completed = true
is_completed _ = false

-- The WHERE clauses of `Incoming` and `Outgoing`.
abbrev pub is_incoming : Text → RequestRow → Bool
is_incoming op r =
    is_porting r.request_type && is_completed r.status && r.recipient_operator_id == op

abbrev pub is_outgoing : Text → RequestRow → Bool
is_outgoing op r = is_porting r.request_type && is_completed r.status && r.source_operator_id == op

-- `SELECT id FROM demande dm WHERE ... ORDER BY date_demande`; rows of one instant come in the order
-- of the table.
abbrev pub selected : (RequestRow → Bool) → Db → List RequestRow
selected filter d = order_by (λ r. r.request_date) (keep filter d.requests)

-- The join of `AlreadyConfirmed`: a row for each confirmation of the operator, less its own
-- requests where `excludeSource` is set.
abbrev pub confirmed_rows : Text → Bool → List ConfirmationRow → RequestRow → List RequestRow
confirmed_rows op exclude_source [] r = []
confirmed_rows op exclude_source (c ∷ cs) r =
    let rest = confirmed_rows op exclude_source cs r in
    if c.request_id == r.id
      && c.operator_id == op
      && not (exclude_source && c.operator_id == r.source_operator_id)
    then r ∷ rest
    else rest

abbrev pub all_confirmed : Text → Bool → List ConfirmationRow → List RequestRow → List RequestRow
all_confirmed op exclude_source cs [] = []
all_confirmed op exclude_source cs (r ∷ rs) =
    confirmed_rows op exclude_source cs r ++ all_confirmed op exclude_source cs rs

-- The WHERE clause of `idsToConfirm`.
abbrev pub at_confirmation : RequestRow → Bool
at_confirmation r = is_in_progress r.status && is_confirmation r.current_step

-- The request that `idsToConfirm` hands to `ExpectedConfirmers`: its other fields are zero.
abbrev pub confirmable : RequestRow → PortingRequest
confirmable r = record {
  id = empty_text;
  msisdn = empty_text;
  request_type = r.request_type;
  subscriber_type = SubscriberType.other empty_text;
  status = RequestStatus.other empty_text;
  current_step = Step.other empty_text;
  current_step_status = StepStatus.other empty_text;
  source_operator_id = empty_text;
  recipient_operator_id = r.recipient_operator_id;
  creator_operator_id = empty_text;
  pending_transition = false;
}

-- The body of the loop of `idsToConfirm`: whether the row is listed.
abbrev pub awaits : List Text → Text → Db → RequestRow → Bool
awaits operators op d r =
    not (has_confirmed r.id op d) && contains (expected_confirmers (confirmable r) operators) op

-- The loop.
abbrev pub awaiting : List Text → Text → Db → List RequestRow → List Text
awaiting operators op d [] = []
awaiting operators op d (r ∷ rs) =
    let rest = awaiting operators op d rs in if awaits operators op d r then r.id ∷ rest else rest

module _ (env : Env) (q : Querier) where
  -- `ids`
  unfoldable pub request_ids : (RequestRow → Bool) → M GoError (List Text)
  request_ids filter = statement env q (λ now d. (ok (map (λ r. r.id) (selected filter d)), d))

  -- `Own`, `ToAccept`, `ToProcess`, `Incoming`, `Outgoing`
  abbrev pub own_ids : Text → M GoError (List Text)
  own_ids op = request_ids (is_own op)

  abbrev pub to_accept_ids : Text → M GoError (List Text)
  to_accept_ids op = request_ids (to_accept_filter op)

  abbrev pub to_process_ids : Text → M GoError (List Text)
  to_process_ids op = request_ids (to_process_filter op)

  abbrev pub incoming_ids : Text → M GoError (List Text)
  incoming_ids op = request_ids (is_incoming op)

  abbrev pub outgoing_ids : Text → M GoError (List Text)
  outgoing_ids op = request_ids (is_outgoing op)

  -- `AlreadyConfirmed`
  unfoldable pub already_confirmed_ids : Text → Bool → M GoError (List Text)
  already_confirmed_ids op exclude_source = statement env q (λ now d. (
    ok (
        map (λ r. r.id)
          (order_by (λ r. r.request_date)
            (all_confirmed op exclude_source d.confirmations d.requests))),
    d,
  ))

  -- `allOperators`
  unfoldable pub all_operators : M GoError (List Text)
  all_operators =
      statement env q (λ now d. (ok (order_by (λ id. id) (map (λ o. o.id) d.operators)), d))

  -- `idsToConfirm`: two queries
  unfoldable pub ids_to_confirm : Text → M GoError (List Text)
  ids_to_confirm op = do
    operators ← all_operators
    statement env q (λ now d. (ok (awaiting operators op d (selected at_confirmation d)), d))

  -- `byFilter`
  unfoldable pub by_filter : (RequestRow → Bool) → Text → M GoError Bool
  by_filter filter id =
      statement env q (λ now d. (ok (any (λ r. r.id == id && filter r) d.requests), d))

  -- `byConfirmer`
  unfoldable pub by_confirmer : Text → Text → M GoError Bool
  by_confirmer id op = do ids ← ids_to_confirm op; pure (contains ids id)

  -- `ByID`: whether the request is in the queue; its callers read nothing else of the answer
  unfoldable pub queue_by_id : Queue → Text → Text → M GoError Bool
  queue_by_id queue_to_accept id op = by_filter (to_accept_filter op) id
  queue_by_id queue_to_process id op = by_filter (to_process_filter op) id
  queue_by_id queue_to_confirm id op = by_confirmer id op
  queue_by_id (Queue.other name) id op =
      raise (plain (lit "unknown read queue: " ∷ text_piece name ∷ []))
