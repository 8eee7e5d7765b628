-- ===== src/Web/Routes.antt =====
-- The route table of NewRouter (internal/framework/web/router.go). What matches a path with the table
-- is the gin package; here `accepts` says which paths a pattern stands for, as that package documents:
-- `:id` stands for one segment that is not empty.
pub mod Unique
pub mod Contract
use numflex_sandbox.Prelude.{
  Bool, List, String, [], false, if◌then◌else◌, map, not, true, ℕ, ◌&&◌, ◌++◌, ◌∷◌,
}
use numflex_sandbox.Framework.Text.{codes, same_text}
use numflex_sandbox.Web.Guard.Segments.{segments}

pub data Method : Type 0 where
  get post delete : Method

pub data Segment : Type 0 where
  word : List ℕ → Segment
  id_param : Segment

-- The handlers, by the names that the controllers give them.
pub data Endpoint : Type 0 where
  handle_post_authenticate handle_get_authenticate : Endpoint
  handle_operators handle_rejection_reasons handle_request_types handle_processes
        handle_incident_types :
      Endpoint
  handle_otp_send handle_otp_verify : Endpoint
  handle_create_individual handle_create_enterprise handle_create_restitution : Endpoint
  handle_own handle_to_accept handle_to_accept_detail handle_to_process handle_to_process_detail :
      Endpoint
  handle_to_confirm handle_to_confirm_detail handle_already_confirmed handle_incoming
        handle_outgoing :
      Endpoint
  handle_accept handle_accept_fleet : Endpoint
  handle_confirmation handle_process handle_cancel : Endpoint
  handle_declare_gateway handle_declare_internal handle_resolve_gateway handle_resolve_internal :
      Endpoint
  handle_own_gateway handle_own_internal : Endpoint
  handle_submit_reverse handle_own_reverses : Endpoint
  handle_ranges handle_purge : Endpoint
  handle_documentation : List ℕ → Endpoint

pub record Route : Type 0 where
  pub method : Method
  pub pattern : List Segment
  pub endpoint : Endpoint

abbrev pub seg : String → Segment
seg s = word (codes s)

abbrev on : Method → List Segment → Endpoint → Route
on method pattern endpoint = record { method = method; pattern = pattern; endpoint = endpoint }

-- `r.Group`
abbrev in_group : List Segment → Route → Route
in_group prefix r = record r { pattern = prefix ++ r.pattern }

abbrev authentication_routes : List Route
authentication_routes =
    on post (seg "api" ∷ seg "authenticate" ∷ []) handle_post_authenticate
    ∷ on get (seg "api" ∷ seg "authenticate" ∷ []) handle_get_authenticate
    ∷ []

-- the routes of the gateway's group, which are those of the contract
unfoldable pub contract_routes : List Route
contract_routes =
    on get (seg "operateurs" ∷ []) handle_operators
    ∷ on get (seg "motifs-rejet" ∷ []) handle_rejection_reasons
    ∷ on get (seg "types-demande" ∷ []) handle_request_types
    ∷ on get (seg "processus" ∷ []) handle_processes
    ∷ on get (seg "types-incident" ∷ []) handle_incident_types
    ∷ on post (seg "otp" ∷ seg "send" ∷ []) handle_otp_send
    ∷ on post (seg "otp" ∷ seg "verify" ∷ []) handle_otp_verify
    ∷ on post (seg "demandes" ∷ seg "particulier" ∷ []) handle_create_individual
    ∷ on post (seg "demandes" ∷ seg "entreprise" ∷ []) handle_create_enterprise
    ∷ on post (seg "demandes" ∷ seg "restitution" ∷ []) handle_create_restitution
    ∷ on get (seg "demandes" ∷ seg "mes-demandes" ∷ []) handle_own
    ∷ on get (seg "demandes" ∷ seg "a-accepter" ∷ []) handle_to_accept
    ∷ on get (seg "demandes" ∷ seg "a-accepter" ∷ id_param ∷ []) handle_to_accept_detail
    ∷ on get (seg "demandes" ∷ seg "a-traiter" ∷ []) handle_to_process
    ∷ on get (seg "demandes" ∷ seg "a-traiter" ∷ id_param ∷ []) handle_to_process_detail
    ∷ on get (seg "demandes" ∷ seg "a-confirmer" ∷ []) handle_to_confirm
    ∷ on get (seg "demandes" ∷ seg "a-confirmer" ∷ id_param ∷ []) handle_to_confirm_detail
    ∷ on get (seg "demandes" ∷ seg "deja-confirmees" ∷ []) handle_already_confirmed
    ∷ on get (seg "demandes" ∷ seg "in" ∷ []) handle_incoming
    ∷ on get (seg "demandes" ∷ seg "out" ∷ []) handle_outgoing
    ∷ on post (seg "demandes" ∷ seg "acceptation" ∷ []) handle_accept
    ∷ on post (seg "demandes" ∷ id_param ∷ seg "acceptation" ∷ []) handle_accept_fleet
    ∷ on post (seg "demandes" ∷ seg "a-confirmer" ∷ []) handle_confirmation
    ∷ on post (seg "demandes" ∷ seg "traitement" ∷ []) handle_process
    ∷ on post (seg "demandes" ∷ id_param ∷ seg "annuler" ∷ []) handle_cancel
    ∷ on post (seg "incidents" ∷ seg "gateway" ∷ []) handle_declare_gateway
    ∷ on post (seg "incidents" ∷ seg "interne" ∷ []) handle_declare_internal
    ∷ on post (seg "incidents" ∷ seg "gateway" ∷ id_param ∷ seg "resoudre" ∷ [])
        handle_resolve_gateway
    ∷ on post (seg "incidents" ∷ seg "interne" ∷ id_param ∷ seg "resoudre" ∷ [])
        handle_resolve_internal
    ∷ on get (seg "incidents" ∷ seg "gateway" ∷ seg "mes-incidents" ∷ []) handle_own_gateway
    ∷ on get (seg "incidents" ∷ seg "interne" ∷ seg "mes-incidents" ∷ []) handle_own_internal
    ∷ on post (seg "reverse-requests" ∷ []) handle_submit_reverse
    ∷ on get (seg "reverse-requests" ∷ seg "mes-demandes" ∷ []) handle_own_reverses
    ∷ []

abbrev sandbox_routes : List Route
sandbox_routes =
    on get (seg "numeros" ∷ seg "tranches" ∷ []) handle_ranges
    ∷ on delete (seg "demandes" ∷ []) handle_purge
    ∷ []

abbrev documentation_route : String → Route
documentation_route file = on get (seg file ∷ []) (handle_documentation (codes file))

abbrev documentation_routes : List Route
documentation_routes =
    documentation_route "swagger.html"
    ∷ documentation_route "openapi.yaml"
    ∷ documentation_route "openapi.json"
    ∷ []

-- `NewRouter`, where `docs` says that the documentation's folder is found and not forced off
unfoldable pub routes : Bool → List Route
unfolding contract_routes
routes docs =
    authentication_routes
    ++ map (in_group (seg "api" ∷ seg "gateway" ∷ seg "v1" ∷ [])) contract_routes
    ++ map (in_group (seg "api" ∷ seg "sandbox" ∷ seg "v1" ∷ [])) sandbox_routes
    ++ (if docs then documentation_routes else [])

abbrev pub same_method : Method → Method → Bool
same_method get get = true
same_method post post = true
same_method delete delete = true
same_method _ _ = false

abbrev pub matches : List Segment → List (List ℕ) → Bool
matches [] [] = true
matches [] (t ∷ ts) = false
matches (s ∷ p) [] = false
matches (word s ∷ p) (t ∷ ts) = same_text s t && matches p ts
matches (id_param ∷ p) (t ∷ ts) = not (same_text t []) && matches p ts

-- The paths that a route stands for.
abbrev pub accepts : Method → List ℕ → Route → Bool
accepts m path r =
    same_method m r.method
    && (same_text (segments path).0 [] && matches r.pattern (segments path).1)
