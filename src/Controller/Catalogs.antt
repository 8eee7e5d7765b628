-- ===== src/Controller/Catalogs.antt =====
-- ReferenceController, and SandboxController.Purge (internal/adapter/controller).
use numflex_sandbox.Prelude.{Bool, List, String, map, ℕ}
use numflex_sandbox.Controller.RequestView.{OperatorDto}
use numflex_sandbox.Controller.Respond.{Call, Handler, respond}
use numflex_sandbox.Entity.Fault.{Fault}
use numflex_sandbox.Entity.Request.{Text}
use numflex_sandbox.Presenter.Modes.{Presenter}
use numflex_sandbox.Store.Schema.{CatalogRow, IncidentTypeRow, OperatorRow}
use numflex_sandbox.Store.Session.{Env, M}
use numflex_sandbox.Usecase.Reference.{
  list_incident_types, list_operators, list_processes, list_rejection_reasons, list_request_types,
}
use numflex_sandbox.Usecase.Sandbox.{PurgeTestDataResult, purge_test_data}

-- `rejectionReasonDTO`, `requestTypeDTO` and `processusDTO`
pub record CatalogDto : Type 0 where
  pub id : Text
  pub label : Text

-- `typeIncidentDTO`
pub record TypeIncidentDto : Type 0 where
  pub id : Text
  pub libelle : Text
  pub fige_systeme : Bool

-- What `Purge` shows.
pub record PurgeDto : Type 0 where
  pub demandes_supprimees : ℕ
  pub numeros_restaures : ℕ
  pub otp_supprimes : ℕ
  pub reverse_supprimees : ℕ

abbrev pub operator_dto : OperatorRow → OperatorDto
operator_dto o = record { id = o.id; nom = o.name }

abbrev pub catalog_dto : CatalogRow → CatalogDto
catalog_dto r = record { id = r.id; label = r.label }

abbrev pub type_incident_dto : IncidentTypeRow → TypeIncidentDto
type_incident_dto t = record { id = t.id; libelle = t.label; fige_systeme = t.system_locked }

abbrev pub purge_dto : PurgeTestDataResult → PurgeDto
purge_dto r = record {
  demandes_supprimees = r.requests_deleted;
  numeros_restaures = r.numbers_restored;
  otp_supprimes = r.otp_deleted;
  reverse_supprimees = r.reverse_deleted;
}

module _ (env : Env) (p : Presenter) where
  -- a list of reference rows, each shown by `show`
  abbrev pub respond_rows :
      {A D : Type 0} → String → (A → D) → Text → M Fault (List A) → Handler (List D)
  respond_rows message show path execute w =
      respond p path 200 message (λ written rows. map show rows) (execute w)

  -- `Operators`
  unfoldable pub get_operators : Call (Unit {0}) → Handler (List OperatorDto)
  get_operators c =
      respond_rows "Opérateurs récupérés avec succès" operator_dto c.path (list_operators env)

  -- `RejectionReasons`
  unfoldable pub get_rejection_reasons : Call (Unit {0}) → Handler (List CatalogDto)
  get_rejection_reasons c =
      respond_rows "Motifs de rejet récupérés avec succès" catalog_dto c.path
        (list_rejection_reasons env)

  -- `RequestTypes`
  unfoldable pub get_request_types : Call (Unit {0}) → Handler (List CatalogDto)
  get_request_types c =
      respond_rows "Types de demande récupérés avec succès" catalog_dto c.path
        (list_request_types env)

  -- `Processes`
  unfoldable pub get_processes : Call (Unit {0}) → Handler (List CatalogDto)
  get_processes c =
      respond_rows "Processus récupérés avec succès" catalog_dto c.path (list_processes env)

  -- `IncidentTypes`
  unfoldable pub get_incident_types : Call (Unit {0}) → Handler (List TypeIncidentDto)
  get_incident_types c =
      respond_rows "Types d'incident récupérés avec succès" type_incident_dto c.path
        (list_incident_types env)

  -- `Purge`
  unfoldable pub delete_requests_of : Call (Unit {0}) → Handler PurgeDto
  delete_requests_of c w =
      respond p c.path 200 "Demandes purgées avec succès" (λ written r. purge_dto r)
        (purge_test_data env c.caller w)
