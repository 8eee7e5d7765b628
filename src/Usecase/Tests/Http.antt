-- ===== src/Usecase/Tests/Http.antt =====
-- Handlers, routes and middlewares on a small database.
use numflex_sandbox.Prelude.{
  List, Memᴰ, Option, [], false, inr, length, none, refl, some, true, ℕ, ◌∷◌, ◌≡◌,
}
use numflex_sandbox.Controller.Acts.{
  AcceptRequestDto, ActDto, post_accept, post_accept_fleet, post_confirmation, post_process,
}
use numflex_sandbox.Controller.Acts.Gate.{post_accept-frozen, after_gate}
use numflex_sandbox.Controller.Queues.{get_to_confirm, get_to_confirm_detail}
use numflex_sandbox.Controller.RequestView.Client.{
  All, IsWithoutClient, Shows, get_to_confirm-IsWithoutClient,
}
use numflex_sandbox.Controller.Respond.{Call}
use numflex_sandbox.Entity.Fault.{Fault}
use numflex_sandbox.Entity.Request.{
  acceptance, confirmation, enterprise, in_progress, porting, step_in_progress,
}
use numflex_sandbox.Framework.Text.{codes}
use numflex_sandbox.Gateway.Requests.Reads.{RequestView}
use numflex_sandbox.Presenter.Modes.{contract_mode, real_mode, shown_data}
use numflex_sandbox.Store.Session.{pure, World}
use numflex_sandbox.Usecase.Auth.{authenticate_request, authorize, Jwt}
use numflex_sandbox.Usecase.Tests.{quiet, requester, world, zero_window}
use numflex_sandbox.Web.Guard.{is_guarded}
use numflex_sandbox.Usecase.Tests.Incidents.{incident_world}
use numflex_sandbox.Web.Routes.{
  handle_operators, Endpoint, Route, accepts, contract_routes, get, post, routes, seg,
}
use numflex_sandbox.Web.Routes.Contract.{routes-is_guarded}
use numflex_sandbox.Web.Routes.Unique.{routes_unique}
use numflex_sandbox.Web.Serve.{
  Chain, HttpRequest, Response, Routing, Verb, empty_reply, routed_to, serve, unmatched,
}
use numflex_sandbox.Web.Serve.Refused.{WroteNothing, serve-refused}

abbrev call : {B : Type 0} → Option B → Call B
call body = record { path = 1; id = 1; caller = requester; body = body }

-- A body that does not bind, on a market that the operator 20 has frozen.
post_accept-frozen_example :
    (f : Fault) × (post_confirmation quiet zero_window 0 real_mode (call none) incident_world
      ≡ (real_mode.failure (some f) 1, after_gate quiet zero_window incident_world))
    × (post_process quiet zero_window 0 real_mode (call none) incident_world
        ≡ (real_mode.failure (some f) 1, after_gate quiet zero_window incident_world))
    × (post_accept quiet zero_window 0 real_mode (call none) incident_world
        ≡ (real_mode.failure (some f) 1, after_gate quiet zero_window incident_world))
    × (post_accept_fleet quiet zero_window 0 real_mode (call none) incident_world
        ≡ (real_mode.failure (some f) 1, after_gate quiet zero_window incident_world))
post_accept-frozen_example =
    post_accept-frozen quiet zero_window incident_world 0 real_mode (call none) (call none)
      (call none) (call none) (inr refl)

abbrev act : ActDto
act = record { request_id = 1; comment = 5 }

get_to_confirm-IsWithoutClient_example :
    Shows
      (All IsWithoutClient)
      (shown_data (get_to_confirm quiet 0 contract_mode (call none) (world confirmation)).0)
    × Shows IsWithoutClient (
        shown_data (get_to_confirm_detail quiet 0 contract_mode (call none) (world confirmation)).0)
    × Shows IsWithoutClient (
        shown_data
          (post_confirmation quiet zero_window 0 contract_mode
            (call (some act))
            (world confirmation)).0)
get_to_confirm-IsWithoutClient_example =
    get_to_confirm-IsWithoutClient quiet zero_window 0 contract_mode (call none) (call none)
      (call (some act)) (world confirmation)

abbrev fleet_view : RequestView
fleet_view = record {
  id = 1;
  msisdn = 77;
  numbers = 77 ∷ 78 ∷ [];
  subscriber_type = enterprise;
  request_type = porting;
  status = in_progress;
  current_step = acceptance;
  current_step_status = step_in_progress;
  source_operator_id = 10;
  source_operator_name = 10;
  recipient_operator_id = 20;
  recipient_operator_name = 20;
  request_date = 0;
  process = none;
  routing_info = none;
  completion_date = none;
  client = some (record {
    last_name = 1;
    first_name = 2;
    birth_date = 0;
    birth_place = 0;
    id_type = 3;
    id_number = 4;
    company_name = 5;
    rc_number = 6;
  });
}

abbrev decision : AcceptRequestDto
decision = record { request_id = 1; accepte = true; rejection_reason_id = 0; comment = 0 }

abbrev own_path : List ℕ
own_path = codes "/api/gateway/v1/demandes/mes-demandes"

neighbour_passes : is_guarded (codes "/api/gateway/v10/demandes") ≡ false
unfolding is_guarded
neighbour_passes = refl

abbrev list_route : Route
list_route = record {
  method = get;
  pattern = seg "api" ∷ seg "gateway" ∷ seg "v1" ∷ seg "operateurs" ∷ [];
  endpoint = handle_operators;
}

abbrev list_path : List ℕ
list_path = codes "/api/gateway/v1/operateurs"

list_route-routed : Memᴰ list_route (routes true)
unfolding routes contract_routes
list_route-routed = Memᴰ.tail (Memᴰ.tail (Memᴰ.head refl))

list_route-accepts : accepts get list_path list_route ≡ true
list_route-accepts = refl

routes_unique_example : list_route ≡ list_route
routes_unique_example =
    routes_unique true get list_path list_route list_route list_route-routed list_route-routed
      list_route-accepts list_route-accepts

routes-is_guarded_example : (is_guarded list_path ≡ true) × (length contract_routes ≡ 33)
routes-is_guarded_example =
    routes-is_guarded true get list_path list_route list_route-routed list_route-accepts

abbrev no_jwt : Jwt
no_jwt = record { sign = λ secret claims. none; parse = λ secret now token. none }

-- A request without a token, for a path that has no route.
abbrev anonymous : HttpRequest
anonymous = record {
  verb = Verb.routed post;
  path = codes "/api/gateway/v1/unknown";
  origin = codes "http://localhost";
  authorization = codes "Basic x";
}

abbrev nowhere : Verb → List ℕ → Routing
nowhere verb path = unmatched

abbrev to_list : Verb → List ℕ → Routing
to_list verb path = routed_to list_route

abbrev idle : Endpoint → Chain ℕ
idle endpoint caller w = (empty_reply 200, w)

abbrev served : (Verb → List ℕ → Routing) → Response ℕ × World
served route =
    serve quiet [] (λ hash password. true) no_jwt 9 3 real_mode (λ codes. 0) route idle anonymous
      (world acceptance)

serve-refused_example :
    (served nowhere ≡ served to_list)
    × WroteNothing quiet []
        (λ hash password. true)
        no_jwt
        9
        3
        (world acceptance)
        (served nowhere).1.db
unfolding is_guarded authenticate_request authorize pure
serve-refused_example =
    serve-refused quiet [] (λ hash password. true) no_jwt 9 3 real_mode (λ codes. 0) nowhere to_list
      idle idle anonymous (world acceptance) refl refl refl tt
