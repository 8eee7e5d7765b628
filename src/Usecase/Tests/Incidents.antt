-- ===== src/Usecase/Tests/Incidents.antt =====
-- The incidents on a small database.
use numflex_sandbox.Prelude.{Bool, [], false, if◌then◌else◌, none, refl, true, ◌==◌, ◌∷◌, ◌≡◌}
use numflex_sandbox.Entity.Request.{Text, acceptance}
use numflex_sandbox.Store.Outcomes.{OnOk}
use numflex_sandbox.Store.Schema.{IncidentRow}
use numflex_sandbox.Store.Session.{Env, World, err}
use numflex_sandbox.Usecase.Incidents.{DeclareIncidentInput, already_open, declare_incident}
use numflex_sandbox.Usecase.Incidents.Frozen.{Frozen, declare_incident-Frozen}
use numflex_sandbox.Usecase.Incidents.Second.{declare_incident-refused, refused_world}
use numflex_sandbox.Usecase.Tests.{db, quiet, requester}

abbrev pub incident : Text → Text → Bool → IncidentRow
incident id op open_still = record {
  id = id;
  operator_id = op;
  type_id = 1;
  system_locked = true;
  description = 0;
  is_open = open_still;
  opened_at = 0;
  resolved_at = none;
  resolution = none;
}

-- Two operators have an open internal incident, the caller has a resolved one.
abbrev pub incident_world : World
incident_world = record {
  db = record (db acceptance) {
    incident_types = record { id = 1; label = 1; system_locked = true } ∷ [];
    incidents = incident 5 20 true ∷ incident 6 30 true ∷ incident 7 10 false ∷ [];
  };
  calls = 0;
  written = [];
}

abbrev declaration : DeclareIncidentInput
declaration = record { system_locked = true; comment = 4 }

declare_incident-Frozen_example :
    OnOk (declare_incident quiet requester declaration incident_world) (λ _. Frozen)
declare_incident-Frozen_example =
    declare_incident-Frozen quiet requester declaration incident_world (λ n d p. p) refl

-- Another session opens an incident for the operator 10 between the check and the transaction.
abbrev racing : Env
racing = record quiet {
  others = λ n d. if n == 2 then record d { incidents = incident 8 10 true ∷ d.incidents } else d;
}

declare_incident-refused_example : declare_incident racing requester declaration incident_world ≡ (
  err already_open,
  refused_world racing (λ n. refl) requester declaration incident_world false,
)
declare_incident-refused_example =
    declare_incident-refused racing (λ n. refl) requester declaration incident_world
      (record { id = 1; label = 1; system_locked = true }) refl refl refl

-- The operator 20 has one already.
declare_again :
    declare_incident quiet (record requester { operator_id = 20 }) declaration incident_world
    ≡ (err already_open, record incident_world { calls = 2 })
declare_again =
    declare_incident-refused quiet (λ n. refl) (record requester { operator_id = 20 }) declaration
      incident_world (record { id = 1; label = 1; system_locked = true }) refl refl refl
