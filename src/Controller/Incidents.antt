-- ===== src/Controller/Incidents.antt =====
-- IncidentController and ReverseController (internal/adapter/controller). The texts of a query are
-- lists of character codes.
use numflex_sandbox.Prelude.{Bool, List, map, some, ℕ}
use numflex_sandbox.Controller.Instant.{rendered_instant}
use numflex_sandbox.Controller.Pagination.{parse_query_int}
use numflex_sandbox.Controller.RequestView.{OperatorDto}
use numflex_sandbox.Controller.Respond.{Call, Handler, bound, respond}
use numflex_sandbox.Entity.Fault.{Fault}
use numflex_sandbox.Entity.Request.{Text, Time}
use numflex_sandbox.Gateway.Incidents.{IncidentView}
use numflex_sandbox.Gateway.Reverses.{ReverseView}
use numflex_sandbox.Presenter.Modes.{Presenter}
use numflex_sandbox.Store.Schema.{ReverseStatus}
use numflex_sandbox.Store.Session.{Env, M, ◌>>=◌}
use numflex_sandbox.Usecase.Incidents.{declare_incident, list_own_incidents, resolve_incident}
use numflex_sandbox.Usecase.Reverses.{list_own_reverse_requests}

-- `incidentBody`
pub record IncidentBody : Type 0 where
  pub comment : Text

-- What `incidentViewDTO` shows; `statut` is whether the incident is open.
pub record IncidentDto : Type 0 where
  pub id : Text
  pub type_incident_id : Text
  pub type_label : Text
  pub fige_systeme : Bool
  pub description : Text
  pub statut : Bool
  pub date_ouverture : Time
  pub operateur : OperatorDto

-- What `reverseViewDTO` shows.
pub record ReverseDto : Type 0 where
  pub id : Text
  pub numero : Text
  pub statut : ReverseStatus
  pub date_demande : Time
  pub operateur : OperatorDto

-- `incidentViewDTO`
unfoldable pub incident_view_dto : Time → List Time → IncidentView → IncidentDto
incident_view_dto skew written v = record {
  id = v.incident.id;
  type_incident_id = v.incident.type_id;
  type_label = v.type_label;
  fige_systeme = v.incident.system_locked;
  description = v.incident.description;
  statut = v.incident.is_open;
  date_ouverture = rendered_instant (some written) skew v.incident.opened_at;
  operateur = record { id = v.incident.operator_id; nom = v.operator_name };
}

-- `reverseViewDTO`
unfoldable pub reverse_view_dto : Time → List Time → ReverseView → ReverseDto
reverse_view_dto skew written v = record {
  id = v.id;
  numero = v.msisdn;
  statut = v.status;
  date_demande = rendered_instant (some written) skew v.request_date;
  operateur = record { id = v.operator_id; nom = v.operator_name };
}

module _ (env : Env) where
  -- `declareIncident` up to its response
  unfoldable pub declare_run : Bool → Call IncidentBody → M Fault IncidentView
  declare_run system_locked c = do
    req ← bound c
    declare_incident env c.caller (record { system_locked = system_locked; comment = req.comment })

  -- `resolveIncident` up to its response
  unfoldable pub resolve_run : Bool → Call IncidentBody → M Fault IncidentView
  resolve_run system_locked c = do
    req ← bound c
    resolve_incident env c.caller
        (record { incident_id = c.id; system_locked = system_locked; comment = req.comment })

  module _ (skew : Time) (p : Presenter) where
    -- `declareIncident`
    unfoldable pub post_declare : Bool → Call IncidentBody → Handler IncidentDto
    post_declare system_locked c w =
        respond p c.path 201 "Incident déclaré avec succès" (incident_view_dto skew)
          (declare_run system_locked c w)

    -- `resolveIncident`
    unfoldable pub post_resolve : Bool → Call IncidentBody → Handler IncidentDto
    post_resolve system_locked c w =
        respond p c.path 200 "Incident résolu avec succès" (incident_view_dto skew)
          (resolve_run system_locked c w)

    -- `own`, of the parameters `page` and `size`
    unfoldable pub get_own_incidents :
        Bool → List ℕ → List ℕ → Call (Unit {0}) → Handler (List IncidentDto)
    get_own_incidents system_locked page size c w =
        respond p c.path 200 "Incidents récupérés avec succès"
          (λ written views. map (incident_view_dto skew written) views)
          (list_own_incidents env c.caller.operator_id system_locked (parse_query_int page 0)
            (parse_query_int size 20) w)

    -- `ReverseController.Own`
    unfoldable pub get_own_reverses : List ℕ → List ℕ → Call (Unit {0}) → Handler (List ReverseDto)
    get_own_reverses page size c w =
        respond p c.path 200 "Demandes de reverse récupérées avec succès"
          (λ written views. map (reverse_view_dto skew written) views)
          (list_own_reverse_requests env c.caller.operator_id (parse_query_int page 0)
            (parse_query_int size 20) w)
