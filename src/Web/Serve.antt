-- ===== src/Web/Serve.antt =====
-- The chain of middlewares around a handler (internal/framework/web/router.go, and cors.go,
-- written_timestamps.go and authentication.go of middleware/). The route of a request, which the gin
-- package finds, and the handlers of the endpoints are parameters.
pub mod Refused
use numflex_sandbox.Prelude.{
  Bool, List, Option, [], false, if◌then◌else◌, none, not, some, true, ℕ, ◌&&◌,
}
use numflex_sandbox.Entity.Authorization.{Caller}
use numflex_sandbox.Entity.Fault.{Fault}
use numflex_sandbox.Entity.Request.{Text, Time}
use numflex_sandbox.Framework.Text.{same_text}
use numflex_sandbox.Gateway.Users.{UserRow}
use numflex_sandbox.Presenter.{Body, ViewModel, envelope, problem}
use numflex_sandbox.Presenter.Modes.{Presenter}
use numflex_sandbox.Store.Schema.{refused}
use numflex_sandbox.Store.Session.{Env, Outcome, World, err, ok}
use numflex_sandbox.Usecase.Auth.{
  Admission, Jwt, admitted, authenticate_request, unauthorized, unauthorized_empty,
}
use numflex_sandbox.Web.Guard.{guard_gateway_prefix}
use numflex_sandbox.Web.Routes.{
  Endpoint, Method, Route, handle_get_authenticate, handle_purge, handle_ranges,
}

pub data Verb : Type 0 where
  routed : Method → Verb
  options : Verb
  other_verb : Verb

-- A request as the middlewares read it; the texts are lists of character codes.
pub record HttpRequest : Type 0 where
  pub verb : Verb
  pub path : List ℕ
  pub origin : List ℕ
  pub authorization : List ℕ

-- What is answered. A problem of the middleware's own rendering has its content type set, which the
-- controllers' rendering leaves at the default of JSON.
pub data Reply (D : Type 0) : Type 0 where
  preflight : Reply D
  empty_reply : ℕ → Reply D
  json : ViewModel D → Reply D
  problem_json : ViewModel D → Reply D
  unrouted : Reply D
  -- `Location`, with the status of the redirection
  redirect : ℕ → Reply D

-- What the gin package finds for a request: a route, none, or a route that the path misses by its
-- last slash, which gin answers by itself, before any middleware (`RedirectTrailingSlash`, which is
-- on unless it is turned off).
pub data Routing : Type 0 where
  routed_to : Route → Routing
  unmatched : Routing
  redirected_by : ℕ → Routing

-- The answer and whether `Access-Control-Allow-Origin` is set.
pub record Response (D : Type 0) : Type 0 where
  pub allow_origin : Bool
  pub reply : Reply D

-- What a request becomes from here on, for the caller that is known.
abbrev pub Chain : Type 0 → Type 0
Chain D = Option Caller → World → Reply D × World

-- `render` of the middleware
abbrev pub middleware_render : {D : Type 0} → ℕ → Body D → Reply D
middleware_render status (problem b) = problem_json (record { status = status; body = problem b })
middleware_render status b = json (record { status = status; body = b })

-- the 401 of a missing token
abbrev pub unauthorized_view : {D : Type 0} → Fault → ViewModel D
unauthorized_view f = record {
  status = 401;
  body =
      envelope (record { success = false; code = f.code; message = f.message; data_field = none });
}

-- `TrackWrittenTimestamps`
unfoldable pub track_written_timestamps : {A : Type 0} → (World → A) → World → A
track_written_timestamps next world = next (record world { written = [] })

abbrev pub is_options : Verb → Bool
is_options options = true
is_options _ = false

abbrev pub is_preflight : HttpRequest → Bool
is_preflight req = is_options req.verb && not (same_text req.origin [])

-- `AllowCORS`
unfoldable pub allow_cors :
    {D : Type 0} → HttpRequest → (World → Reply D × World) → World → Response D × World
allow_cors req next world =
    if is_preflight req
    then (record { allow_origin = true; reply = preflight }, world)
    else let (reply, world') = next world in
      (record { allow_origin = not (same_text req.origin []); reply = reply }, world')

-- the routes that are declared with the authentication of their own
abbrev pub is_authenticated : Endpoint → Bool
is_authenticated handle_get_authenticate = true
is_authenticated handle_ranges = true
is_authenticated handle_purge = true
is_authenticated _ = false

module _ (env : Env) (users : List UserRow) (compare : Text → Text → Bool) (jwt : Jwt)
    (secret : Text) (ttl : Time) (p : Presenter) (text_of : List ℕ → Text) {D : Type 0} where
  -- how `Authenticate` goes on; it has no error of its own
  abbrev pub admit_reply : HttpRequest → Chain D → Outcome Fault Admission × World → Reply D × World
  admit_reply req next (ok (unauthorized f), world) = (json (unauthorized_view f), world)
  admit_reply req next (ok unauthorized_empty, world) = (empty_reply 401, world)
  admit_reply req next (ok (Admission.refused f), world) =
      let vm = p.failure (some f) (text_of req.path) in (middleware_render vm.status vm.body, world)
  admit_reply req next (ok (admitted c), world) = next (some c) world
  admit_reply req next (err f, world) = (json (p.failure (some f) (text_of req.path)), world)

  -- `Authenticate`
  unfoldable pub authenticated : HttpRequest → Chain D → Chain D
  authenticated req next caller world =
      admit_reply req next
        (authenticate_request env users compare jwt secret ttl req.authorization world)

  -- the handler of the route, with the authentication that the route declares
  unfoldable pub run_route : HttpRequest → (Endpoint → Chain D) → Routing → Chain D
  run_route req handle (routed_to r) caller world =
      if is_authenticated r.endpoint
      then authenticated req (handle r.endpoint) caller world
      else handle r.endpoint caller world
  run_route req handle unmatched caller world = (unrouted, world)
  run_route req handle (redirected_by status) caller world = (redirect status, world)

  -- the middlewares of `NewRouter`; the guard comes before the route, which may not exist
  unfoldable pub run_engine :
      (Endpoint → Chain D) → HttpRequest → Routing → World → Response D × World
  run_engine handle req route = allow_cors req (
      track_written_timestamps
        (guard_gateway_prefix (authenticated req) req.path (run_route req handle route) none))

  -- what `engine.ServeHTTP` does with the routing
  abbrev pub dispatch : (Endpoint → Chain D) → HttpRequest → Routing → World → Response D × World
  dispatch handle req (redirected_by status) world =
      (record { allow_origin = false; reply = redirect status }, world)
  dispatch handle req (routed_to r) world = run_engine handle req (routed_to r) world
  dispatch handle req unmatched world = run_engine handle req unmatched world

  -- the engine of `NewRouter`
  unfoldable pub serve :
      (Verb → List ℕ → Routing) → (Endpoint → Chain D) → HttpRequest → World → Response D × World
  serve route handle req = dispatch handle req (route req.verb req.path)
