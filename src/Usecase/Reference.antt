-- ===== src/Usecase/Reference.antt =====
-- The lists of reference rows (internal/usecase/reference).
use numflex_sandbox.Prelude.{List, [], ◌∷◌}
use numflex_sandbox.Entity.Fault.{Fault, lit}
use numflex_sandbox.Gateway.Reference.{
  read_incident_types, read_operators, read_processes, read_rejection_reasons, read_request_types,
}
use numflex_sandbox.Store.Schema.{CatalogRow, IncidentTypeRow, OperatorRow}
use numflex_sandbox.Store.Session.{Env, M, or_internal, pool}

module _ (env : Env) where
  -- `ListOperatorsInteractor.Execute`
  unfoldable pub list_operators : M Fault (List OperatorRow)
  list_operators = or_internal (read_operators env pool) (lit "reading the operators" ∷ [])

  -- `ListIncidentTypesInteractor.Execute`
  unfoldable pub list_incident_types : M Fault (List IncidentTypeRow)
  list_incident_types =
      or_internal (read_incident_types env pool) (lit "reading the incident types" ∷ [])

  -- `ListRejectionReasonsInteractor.Execute`
  unfoldable pub list_rejection_reasons : M Fault (List CatalogRow)
  list_rejection_reasons =
      or_internal (read_rejection_reasons env pool) (lit "reading the rejection reasons" ∷ [])

  -- `ListRequestTypesInteractor.Execute`
  unfoldable pub list_request_types : M Fault (List CatalogRow)
  list_request_types =
      or_internal (read_request_types env pool) (lit "reading the request types" ∷ [])

  -- `ListProcessesInteractor.Execute`
  unfoldable pub list_processes : M Fault (List CatalogRow)
  list_processes = or_internal (read_processes env pool) (lit "reading the processes" ∷ [])
