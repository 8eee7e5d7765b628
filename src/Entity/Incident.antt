-- ===== src/Entity/Incident.antt =====
-- internal/entity/incident.go: who may resolve an incident, and through which endpoint.
pub mod Rules
use numflex_sandbox.Prelude.{
  Bool, Option, String, [], false, if◌then◌else◌, none, some, true, ◌++◌, ◌==◌, ◌∷◌,
}
use numflex_sandbox.Entity.Fault.{Fault, Message, lit, request_access_denied, validation_failed}
use numflex_sandbox.Entity.Request.{Text}

pub record Incident : Type 0 where
  pub id : Text
  pub operator_id : Text
  pub system_locked : Bool

unfoldable pub incident_resolution_endpoint : String → Message
incident_resolution_endpoint segment =
    lit "/api/gateway/v1/incidents/" ∷ lit segment ∷ lit "/{id}/resoudre" ∷ []

abbrev pub segment_name : Bool → String
segment_name true = "interne"
segment_name false = "gateway"

abbrev pub same : Bool → Bool → Bool
same true b = b
same false true = false
same false false = true

unfoldable pub can_resolve_incident : Incident → Bool → Text → Option Fault
unfolding incident_resolution_endpoint
can_resolve_incident inc system_locked operator_id =
    if same inc.system_locked system_locked
    then (if inc.operator_id == operator_id
        then none
        else some (
            request_access_denied
              (lit "Seul l'opérateur ayant déclaré l'incident peut le résoudre." ∷ [])))
    else some (
        validation_failed (
          (lit "Cet incident se résout via POST "
            ∷ incident_resolution_endpoint (segment_name inc.system_locked))
          ++ (lit "." ∷ [])))
