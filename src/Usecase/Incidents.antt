-- ===== src/Usecase/Incidents.antt =====
-- The incident interactors (internal/usecase/incident).
pub mod Frozen
pub mod Second
use numflex_sandbox.Prelude.{Bool, List, [], if◌then◌else◌, none, true, ℕ, ◌∷◌}
use numflex_sandbox.Entity.Authorization.{Caller}
use numflex_sandbox.Entity.Errors.{GoError, fault, incident_already_open}
use numflex_sandbox.Entity.Fault.{
  Fault, Message, incident_not_found, internal_error, invalid_step, lit,
}
use numflex_sandbox.Entity.Incident.{can_resolve_incident}
use numflex_sandbox.Entity.Request.{Text, Time}
use numflex_sandbox.Gateway.Incidents.{
  IncidentView, create_incident, get_incident, has_open, incident_by_id, own_incidents, resolve_row,
  type_id_for,
}
use numflex_sandbox.Store.Schema.{IncidentRow}
use numflex_sandbox.Store.Session.{
  Env, M, check, clock_now, map_error, new_id, now_written, or_fail, or_fault_from, or_internal,
  pool, pure, raise, require, tx, unit_of_work, ◌>>=◌, ◌>>◌,
}
use numflex_sandbox.Usecase.Creation.Inputs.{text}

-- `DeclareIncidentInput`
pub record DeclareIncidentInput : Type 0 where
  pub system_locked : Bool
  pub comment : Text

-- `ResolveIncidentInput`
pub record ResolveIncidentInput : Type 0 where
  pub incident_id : Text
  pub system_locked : Bool
  pub comment : Text

abbrev pub already_open : Fault
already_open = invalid_step (lit "Un incident interne est déjà ouvert pour votre opérateur." ∷ [])

-- the error of `Create` inside the transaction
abbrev pub declare_fault : GoError → GoError
declare_fault incident_already_open = GoError.fault already_open
declare_fault e = GoError.fault (internal_error (lit "declaring the incident" ∷ []))

-- the row that `Create` writes
abbrev pub declared_row : Text → Text → Text → DeclareIncidentInput → Time → IncidentRow
declared_row id operator_id type_id i now = record {
  id = id;
  operator_id = operator_id;
  type_id = type_id;
  system_locked = i.system_locked;
  description = i.comment;
  is_open = true;
  opened_at = now;
  resolved_at = none;
  resolution = none;
}

module _ (env : Env) where
  -- the read that ends the writing interactors
  unfoldable pub read_incident : Text → Message → M Fault IncidentView
  read_incident id text = do
    view ← or_internal (get_incident env pool id) text
    require view (internal_error text)

  -- the check for an incident that is already open, on the internal segment alone
  unfoldable pub refuse_second : Text → Bool → M Fault (Unit {0})
  refuse_second operator_id system_locked =
      if system_locked
      then (do
        found ← or_internal (has_open env pool operator_id) (lit "checking the open incidents" ∷ [])
        if found then raise already_open else pure tt)
      else pure tt

  -- `DeclareIncidentInteractor.Execute`
  unfoldable pub declare_incident : Caller → DeclareIncidentInput → M Fault IncidentView
  declare_incident caller i = do
    type_id ←
        or_internal (type_id_for env pool i.system_locked) (lit "resolving the incident type" ∷ [])
    refuse_second caller.operator_id i.system_locked
    id ← new_id env
    now ← now_written env
    or_fault_from (
        unit_of_work env (
          map_error declare_fault
            (create_incident env tx (declared_row id caller.operator_id type_id i now))))
    read_incident id (lit "re-reading the incident" ∷ [])

  -- the transaction of a resolution
  unfoldable pub resolve_in_transaction : ResolveIncidentInput → M GoError (Unit {0})
  resolve_in_transaction i = unit_of_work env (do
    now ← clock_now env
    or_fail (resolve_row env tx i.incident_id i.comment now)
        (internal_error (lit "resolving the incident" ∷ [])))

  -- `ResolveIncidentInteractor.Execute`
  unfoldable pub resolve_incident : Caller → ResolveIncidentInput → M Fault IncidentView
  resolve_incident caller i = do
    found ← or_internal (incident_by_id env pool i.incident_id) (lit "reading the incident" ∷ [])
    incident ← require found incident_not_found
    check (can_resolve_incident incident i.system_locked caller.operator_id)
    or_fault_from (resolve_in_transaction i)
    read_incident i.incident_id (lit "re-reading the incident" ∷ [])

  -- the loop of `ListOwnIncidentsInteractor`
  unfoldable pub incident_views : List Text → M Fault (List IncidentView)
  incident_views [] = pure []
  incident_views (id ∷ ids) = do
    view ← read_incident id (lit "reading the incident" ∷ [])
    rest ← incident_views ids
    pure (view ∷ rest)

  -- `ListOwnIncidentsInteractor.Execute`
  unfoldable pub list_own_incidents : Text → Bool → ℕ → ℕ → M Fault (List IncidentView)
  list_own_incidents operator_id system_locked page size = do
    ids ←
        or_internal (own_incidents env pool operator_id system_locked page size)
          (lit "reading the incidents" ∷ [])
    incident_views ids
