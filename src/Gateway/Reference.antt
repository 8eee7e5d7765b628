-- ===== src/Gateway/Reference.antt =====
-- The reads of postgres.ReferenceGateway that the interactors use
-- (internal/adapter/gateway/postgres/reference_gateway.go).
use numflex_sandbox.Prelude.{Bool, List, any, order_by}
use numflex_sandbox.Entity.Errors.{GoError}
use numflex_sandbox.Entity.Request.{Text}
use numflex_sandbox.Store.Schema.{CatalogRow, IncidentTypeRow, OperatorRow, is_catalog_row}
use numflex_sandbox.Store.Session.{Env, M, Querier, ok, statement}

module _ (env : Env) (q : Querier) where
  -- `RejectionReasonExists`
  unfoldable pub rejection_reason_exists : Text → M GoError Bool
  rejection_reason_exists id =
      statement env q (λ now d. (ok (any (is_catalog_row id) d.rejection_reasons), d))

  -- `Operators`: the rows in the order of their names
  unfoldable pub read_operators : M GoError (List OperatorRow)
  read_operators = statement env q (λ now d. (ok (order_by (λ o. o.name) d.operators), d))

  -- `RejectionReasons`, `RequestTypes` and `Processes`: the rows in the order of their labels
  unfoldable pub read_rejection_reasons : M GoError (List CatalogRow)
  read_rejection_reasons =
      statement env q (λ now d. (ok (order_by (λ r. r.label) d.rejection_reasons), d))

  unfoldable pub read_request_types : M GoError (List CatalogRow)
  read_request_types = statement env q (λ now d. (ok (order_by (λ r. r.label) d.request_types), d))

  unfoldable pub read_processes : M GoError (List CatalogRow)
  read_processes = statement env q (λ now d. (ok (order_by (λ r. r.label) d.processes), d))

  -- `IncidentTypes`: the rows in the order of their labels
  unfoldable pub read_incident_types : M GoError (List IncidentTypeRow)
  read_incident_types =
      statement env q (λ now d. (ok (order_by (λ t. t.label) d.incident_types), d))
