-- ===== src/Gateway/Reverses.antt =====
-- postgres.ReverseGateway (internal/adapter/gateway/postgres/reverse_gateway.go).
use numflex_sandbox.Prelude.{
  Bool, List, Option, [], any, false, find?, if◌then◌else◌, keep, leb, map, none, order_by, some,
  true, update_where, ℕ, ◌&&◌, ◌++◌, ◌+◌, ◌==◌, ◌∷◌,
}
use numflex_sandbox.Entity.Errors.{GoError, driver_error, no_rows, unique_violation}
use numflex_sandbox.Entity.Request.{Text, Time}
use numflex_sandbox.Gateway.Numbers.{is_number}
use numflex_sandbox.Gateway.Pages.{page_of}
use numflex_sandbox.Store.Schema.{
  Db, OperatorRow, ReverseRow, ReverseStatus, has_operator, pending, refused, validated,
}
use numflex_sandbox.Store.Session.{Env, M, Outcome, Querier, err, ok, statement}

abbrev pub is_reverse_row : Text → ReverseRow → Bool
is_reverse_row id r = r.id == id

abbrev pub is_pending : ReverseStatus → Bool
is_pending pending = true
is_pending _ = false

-- INSERT INTO reverse_request, with its primary key and its foreign key.
abbrev pub insert_reverse : ReverseRow → Db → Outcome GoError (Unit {0}) × Db
insert_reverse r d =
    if any (is_reverse_row r.id) d.reverses
    then (err unique_violation, d)
    else if has_operator r.operator_id d
    then (ok tt, record d { reverses = d.reverses ++ (r ∷ []) })
    else (err driver_error, d)

-- The UPDATE of `MarkValidated`.
abbrev pub validated_row : Text → Time → ReverseRow → ReverseRow
validated_row request_id now r = record r {
  status = validated;
  decided_at = some now;
  request_id = some request_id;
}

-- The UPDATE of `Reject`.
abbrev pub refused_row : Time → ReverseRow → ReverseRow
refused_row now r = record r { status = refused; decided_at = some now }

-- The predicate of `OverdueForAutoValidation`.
abbrev pub is_overdue_reverse : Time → Time → ReverseRow → Bool
is_overdue_reverse delay now r = is_pending r.status && leb (r.request_date + delay) now

-- `ReverseView` (internal/usecase/port/gateway.go)
pub record ReverseView : Type 0 where
  pub id : Text
  pub msisdn : Text
  pub status : ReverseStatus
  pub request_date : Time
  pub operator_id : Text
  pub operator_name : Text

abbrev reverse_view : ReverseRow → Option OperatorRow → Option ReverseView
reverse_view r none = none
reverse_view r (some o) = some (record {
  id = r.id;
  msisdn = r.msisdn;
  status = r.status;
  request_date = r.request_date;
  operator_id = o.id;
  operator_name = o.name;
})

module _ (env : Env) (q : Querier) where
  -- `Create`
  unfoldable pub create_reverse : Text → Text → Text → Time → M GoError (Unit {0})
  create_reverse id msisdn operator_id now =
      let r : ReverseRow = record {
        id = id;
        msisdn = msisdn;
        operator_id = operator_id;
        status = pending;
        request_date = now;
        decided_at = none;
        request_id = none;
      } in
      statement env q (λ _ d. insert_reverse r d)

  -- `Get`
  unfoldable pub get_reverse : Text → M GoError (Option ReverseView)
  get_reverse id = statement env q (λ now d. elim (find? (is_reverse_row id) d.reverses) [
    | none ↦ (ok none, d)
    | some r ↦ (ok (reverse_view r (find? (λ o. o.id == r.operator_id) d.operators)), d)
  ])

  -- `Own`; rows of one instant come in the order of the table
  unfoldable pub own_reverses : Text → ℕ → ℕ → M GoError (List Text)
  own_reverses operator_id page size = statement env q (λ now d.
      elim (page_of page size
        (order_by (λ r. r.request_date) (keep (λ r. r.operator_id == operator_id) d.reverses))) [
          | none ↦ (err driver_error, d)
          | some rows ↦ (ok (map (λ r. r.id) rows), d)
        ])

  -- `LockPending`
  unfoldable pub lock_pending : Text → M GoError ReverseRow
  lock_pending id = statement env q (λ now d. elim (find? (is_reverse_row id) d.reverses) [
    | none ↦ (err no_rows, d)
    | some r ↦ (ok r, d)
  ])

  -- `MarkValidated`
  unfoldable pub mark_validated : Text → Text → Time → M GoError (Unit {0})
  mark_validated id request_id now = statement env q (λ _ d. (
    ok tt,
    record d {
      reverses = update_where (is_reverse_row id) (validated_row request_id now) d.reverses;
    },
  ))

  -- `Reject`
  unfoldable pub refuse_pending : Text → M GoError (Unit {0})
  refuse_pending id = statement env q (λ now d. (
    ok tt,
    record d {
      reverses =
          update_where (λ r. is_reverse_row id r && is_pending r.status) (refused_row now)
            d.reverses;
    },
  ))

  -- `CurrentOperatorFor`
  unfoldable pub current_operator_for : Text → M GoError Text
  current_operator_for msisdn = statement env q (λ now d.
      elim (find? (is_number msisdn) d.numbers) [
        | none ↦ (err no_rows, d)
        | some n ↦ (ok n.current_operator_id, d)
      ])

  -- `OverdueForAutoValidation`
  unfoldable pub overdue_for_auto_validation : Time → M GoError (List Text)
  overdue_for_auto_validation delay =
      statement env q
        (λ now d. (ok (map (λ r. r.id) (keep (is_overdue_reverse delay now) d.reverses)), d))
