-- ===== src/Entity/Incident/Rules.antt =====
-- Who may resolve an incident (internal/entity/incident.go).
use numflex_sandbox.Prelude.{Bool, arith, none, ◌↔◌, ◌≡◌}
use numflex_sandbox.Entity.Incident.{Incident, can_resolve_incident}
use numflex_sandbox.Entity.Request.{Text}

-- `CanResolveIncident` lets an operator through exactly when it declared the incident and calls the
-- endpoint of the incident's own segment.
pub can_resolve_incident_iff :
    (inc : Incident) (system_locked : Bool) (op : Text)
    → (can_resolve_incident inc system_locked op ≡ none)
      ↔ ((inc.system_locked ≡ system_locked) × (inc.operator_id ≡ op))
unfolding can_resolve_incident
can_resolve_incident_iff inc system_locked op = ground arith
