-- ===== src/Gateway/Incidents.antt =====
-- postgres.IncidentGateway (internal/adapter/gateway/postgres/incident_gateway.go).
use numflex_sandbox.Prelude.{
  Bool, List, Option, [], any, false, find?, if◌then◌else◌, keep, map, none, order_by, some,
  update_where, ℕ, ◌&&◌, ◌++◌, ◌==◌, ◌∷◌,
}
use numflex_sandbox.Entity.Errors.{
  GoError, driver_error, incident_already_open, no_rows, unique_violation,
}
use numflex_sandbox.Entity.Incident.{Incident, same}
use numflex_sandbox.Entity.Request.{Text, Time}
use numflex_sandbox.Gateway.Pages.{page_of}
use numflex_sandbox.Store.Schema.{Db, IncidentRow, IncidentTypeRow, OperatorRow, has_operator}
use numflex_sandbox.Store.Session.{Env, M, Outcome, Querier, err, map_error, ok, statement}

-- A row of the partial unique index: open and freezing.
abbrev pub is_freezing : IncidentRow → Bool
is_freezing i = i.is_open && i.system_locked

abbrev pub is_incident : Text → IncidentRow → Bool
is_incident id i = i.id == id

-- The INSERT of `Create`: the primary key, the partial unique index of migrations/0001_init.up.sql
-- and the two foreign keys.
abbrev pub insert_incident : IncidentRow → Db → Outcome GoError (Unit {0}) × Db
insert_incident i d =
    if any (is_incident i.id) d.incidents
    then (err unique_violation, d)
    else if is_freezing i && any (λ x. x.operator_id == i.operator_id && is_freezing x) d.incidents
    then (err unique_violation, d)
    else if has_operator i.operator_id d && any (λ t. t.id == i.type_id) d.incident_types
    then (ok tt, record d { incidents = d.incidents ++ (i ∷ []) })
    else (err driver_error, d)

-- The error of `Create`: code 23505 becomes the sentinel.
abbrev pub create_error : GoError → GoError
create_error unique_violation = incident_already_open
create_error e = e

abbrev pub resolved : Text → Time → IncidentRow → IncidentRow
resolved comment now i = record i {
  is_open = false;
  resolved_at = some now;
  resolution = some comment;
}

-- `IncidentView` (internal/usecase/port/gateway.go)
pub record IncidentView : Type 0 where
  pub incident : IncidentRow
  pub type_label : Text
  pub operator_name : Text

abbrev joined_incident :
    IncidentRow → Option IncidentTypeRow → Option OperatorRow → Option IncidentView
joined_incident i (some t) (some o) =
    some (record { incident = i; type_label = t.label; operator_name = o.name })
joined_incident i none o = none
joined_incident i (some t) none = none

module _ (env : Env) (q : Querier) where
  -- `TypeIDFor`
  unfoldable pub type_id_for : Bool → M GoError Text
  type_id_for system_locked = statement env q (λ now d.
      elim (find? (λ t. same t.system_locked system_locked) d.incident_types) [
        | none ↦ (err no_rows, d)
        | some t ↦ (ok t.id, d)
      ])

  -- `HasOpen`
  unfoldable pub has_open : Text → M GoError Bool
  has_open operator_id =
      statement env q
        (λ now d. (ok (any (λ x. x.operator_id == operator_id && is_freezing x) d.incidents), d))

  -- `Create`
  unfoldable pub create_incident : IncidentRow → M GoError (Unit {0})
  create_incident i = map_error create_error (statement env q (λ now d. insert_incident i d))

  -- `ByID`
  unfoldable pub incident_by_id : Text → M GoError (Option Incident)
  incident_by_id id = statement env q (λ now d. elim (find? (is_incident id) d.incidents) [
    | none ↦ (ok none, d)
    | some i ↦ (
      ok (some (record { id = id; operator_id = i.operator_id; system_locked = i.system_locked })),
      d,
    )
  ])

  -- `Resolve`
  unfoldable pub resolve_row : Text → Text → Time → M GoError (Unit {0})
  resolve_row id comment now = statement env q (λ _ d. (
    ok tt,
    record d { incidents = update_where (is_incident id) (resolved comment now) d.incidents },
  ))

  -- `Get`
  unfoldable pub get_incident : Text → M GoError (Option IncidentView)
  get_incident id = statement env q (λ now d. elim (find? (is_incident id) d.incidents) [
    | none ↦ (ok none, d)
    | some i ↦ (
      ok (
          joined_incident i (find? (λ t. t.id == i.type_id) d.incident_types)
            (find? (λ o. o.id == i.operator_id) d.operators)),
      d,
    )
  ])

  -- `Own`; rows of one instant come in the order of the table
  unfoldable pub own_incidents : Text → Bool → ℕ → ℕ → M GoError (List Text)
  own_incidents operator_id system_locked page size = statement env q (λ now d.
      elim (page_of page size (
        order_by (λ i. i.opened_at)
          (keep (λ i. i.operator_id == operator_id && same i.system_locked system_locked)
            d.incidents))) [
              | none ↦ (err driver_error, d)
              | some rows ↦ (ok (map (λ i. i.id) rows), d)
            ])

  -- `MarketFrozen`
  unfoldable pub read_market_frozen : M GoError Bool
  read_market_frozen = statement env q (λ now d. (ok (any is_freezing d.incidents), d))
