-- ===== src/Gateway/Requests/Reads.antt =====
-- The reads of postgres.RequestGateway (internal/adapter/gateway/postgres/request_gateway.go).
use numflex_sandbox.Prelude.{
  Bool, List, Option, [], any, false, find?, if◌then◌else◌, keep, leb, ltb, map, none, not, some,
  true, ◌&&◌, ◌==◌, ◌||◌, ◌∷◌,
}
use numflex_sandbox.Entity.Errors.{GoError, no_rows}
use numflex_sandbox.Entity.Request.{
  PortingRequest, RequestStatus, RequestType, Step, StepStatus, SubscriberType, Text, Time,
  empty_text, is_enterprise,
}
use numflex_sandbox.Store.Schema.{
  ClientRow, Db, OperatorRow, RequestNumberRow, RequestRow, find_request,
}
use numflex_sandbox.Store.Session.{Env, M, Querier, err, ok, pure, statement, ◌>>=◌}

-- `ClientView` (internal/usecase/port/gateway.go); a NULL column is the empty text
pub record ClientView : Type 0 where
  pub last_name : Text
  pub first_name : Text
  pub birth_date : Text
  pub birth_place : Text
  pub id_type : Text
  pub id_number : Text
  pub company_name : Text
  pub rc_number : Text

-- `RequestView`
pub record RequestView : Type 0 where
  pub id : Text
  pub msisdn : Text
  pub numbers : List Text
  pub subscriber_type : SubscriberType
  pub request_type : RequestType
  pub status : RequestStatus
  pub current_step : Step
  pub current_step_status : StepStatus
  pub source_operator_id : Text
  pub source_operator_name : Text
  pub recipient_operator_id : Text
  pub recipient_operator_name : Text
  pub request_date : Time
  pub process : Option Text
  pub routing_info : Option Text
  pub completion_date : Option Time
  pub client : Option ClientView

abbrev pub or_empty : Option Text → Text
or_empty none = empty_text
or_empty (some x) = x

-- `dm.PendingTransition = transition != nil`
abbrev pub is_set : Option Time → Bool
is_set none = false
is_set (some _) = true

-- The columns that `ByID` reads, as the entity.
abbrev pub porting_request : RequestRow → PortingRequest
porting_request r = record {
  id = r.id;
  msisdn = r.msisdn;
  request_type = r.request_type;
  subscriber_type = r.subscriber_type;
  status = r.status;
  current_step = r.current_step;
  current_step_status = r.current_step_status;
  source_operator_id = r.source_operator_id;
  recipient_operator_id = r.recipient_operator_id;
  creator_operator_id = r.creator_operator_id;
  pending_transition = is_set r.transition_due;
}

abbrev pub is_row_of : Text → RequestNumberRow → Bool
is_row_of request_id n = n.request_id == request_id

-- `ORDER BY position, numero`
abbrev comes_before : RequestNumberRow → RequestNumberRow → Bool
comes_before a b = ltb a.position b.position || (a.position == b.position && leb a.msisdn b.msisdn)

insert_ordered : RequestNumberRow → List RequestNumberRow → List RequestNumberRow
insert_ordered x [] = x ∷ []
insert_ordered x (y ∷ ys) =
    let rest = insert_ordered x ys in if comes_before x y then x ∷ y ∷ ys else y ∷ rest

order_by_position : List RequestNumberRow → List RequestNumberRow
order_by_position [] = []
order_by_position (x ∷ xs) = insert_ordered x (order_by_position xs)

-- the SELECT of `fleetNumbers`
unfoldable pub fleet_rows : Text → Db → List RequestNumberRow
unfolding order_by_position insert_ordered
fleet_rows id d =
    order_by_position (keep (λ n. is_row_of id n && not n.is_excluded) d.request_numbers)

-- What `Get` makes of the row of `demande_client`: nothing unless one of three columns is set. The
-- statement that writes them writes no NULL there.
abbrev client_view : Option ClientRow → Option ClientView
client_view none = none
client_view (some c) = some (record {
  last_name = c.last_name;
  first_name = c.first_name;
  birth_date = c.birth_date;
  birth_place = c.birth_place;
  id_type = c.id_type;
  id_number = c.id_number;
  company_name = or_empty c.company_name;
  rc_number = or_empty c.rc_number;
})

abbrev view_of : RequestRow → OperatorRow → OperatorRow → Option ClientRow → RequestView
view_of r src dst client = record {
  id = r.id;
  msisdn = r.msisdn;
  numbers = [];
  subscriber_type = r.subscriber_type;
  request_type = r.request_type;
  status = r.status;
  current_step = r.current_step;
  current_step_status = r.current_step_status;
  source_operator_id = src.id;
  source_operator_name = src.name;
  recipient_operator_id = dst.id;
  recipient_operator_name = dst.name;
  request_date = r.request_date;
  process = r.process;
  routing_info = r.routing_info;
  completion_date = r.completion_date;
  client = client_view client;
}

abbrev pub find_operator : Text → Db → Option OperatorRow
find_operator id d = find? (λ o. o.id == id) d.operators

-- The two inner joins: a request whose operators are not both known has no row.
abbrev pub joined :
    RequestRow → Option OperatorRow → Option OperatorRow → Option ClientRow → Option RequestView
joined r (some src) (some dst) client = some (view_of r src dst client)
joined r none dst client = none
joined r (some _) none client = none

abbrev pub view_row : Text → Db → Option RequestRow → Option RequestView
view_row id d none = none
view_row id d (some r) =
    joined r (find_operator r.source_operator_id d) (find_operator r.recipient_operator_id d)
      (find? (λ c. c.request_id == id) d.clients)

-- the SELECT of `Get`
unfoldable pub select_view : Text → Db → Option RequestView
select_view id d = view_row id d (find_request id d)

module _ (env : Env) (q : Querier) where
  -- `RoutingPrefix`
  unfoldable pub routing_prefix : Text → M GoError Text
  routing_prefix operator_id = statement env q (λ now d. elim (find_operator operator_id d) [
    | none ↦ (err no_rows, d)
    | some o ↦ (ok o.routing_prefix, d)
  ])

  -- the tail of `Get`: a fleet also reads its numbers
  unfoldable pub with_numbers : Text → Option RequestView → M GoError (Option RequestView)
  with_numbers id none = pure none
  with_numbers id (some v) =
      if is_enterprise v.subscriber_type
      then (do
        rows ← statement env q (λ now d. (ok (fleet_rows id d), d))
        pure (some (record v { numbers = map (λ n. n.msisdn) rows })))
      else pure (some v)

  -- `Get`
  unfoldable pub get_request : Text → M GoError (Option RequestView)
  get_request id = do v ← statement env q (λ now d. (ok (select_view id d), d)); with_numbers id v

  -- `ByID`
  unfoldable pub request_by_id : Text → M GoError (Option PortingRequest)
  request_by_id id = statement env q (λ now d. elim (find_request id d) [
    | none ↦ (ok none, d)
    | some r ↦ (ok (some (porting_request r)), d)
  ])

  -- `NumberBelongs`
  unfoldable pub number_belongs : Text → Text → M GoError Bool
  number_belongs id msisdn =
      statement env q
        (λ now d. (ok (any (λ n. is_row_of id n && n.msisdn == msisdn) d.request_numbers), d))

  -- `HasActiveNumber`
  unfoldable pub has_active_number : Text → M GoError Bool
  has_active_number id =
      statement env q
        (λ now d. (ok (any (λ n. is_row_of id n && not n.is_rejected) d.request_numbers), d))
