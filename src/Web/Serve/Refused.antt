-- ===== src/Web/Serve/Refused.antt =====
-- What reaches a handler (internal/framework/web/router.go, middleware/authentication.go).
use numflex_sandbox.Prelude.{
  ==_iff, Bool, Bool-cases, List, Option, [], ap, arith, false, inl, inr, none, not, refl, some,
  subst, sym, true, ℕ, ◌==◌, ◌||◌, ◌∙◌, ◌≡◌, ◌⊎◌,
}
use numflex_sandbox.Entity.Fault.{Fault}
use numflex_sandbox.Entity.Request.{Text, Time}
use numflex_sandbox.Framework.Text.{same_text}
use numflex_sandbox.Gateway.Users.{UserRow, by_username}
use numflex_sandbox.Presenter.Modes.{Presenter}
use numflex_sandbox.Store.Schema.{Db}
use numflex_sandbox.Store.Session.{Env, Outcome, World, clock_now, err, ok, pure, statement, ◌>>=◌}
use numflex_sandbox.Usecase.Auth.{
  Admission, Jwt, admit, admitted, authenticate_request, authorize, unauthorized,
  unauthorized_empty, verify,
}
use numflex_sandbox.Web.Guard.{guard_gateway_prefix, is_guarded}
use numflex_sandbox.Web.Routes.{Endpoint}
use numflex_sandbox.Web.Serve.{
  Chain, HttpRequest, Reply, Response, Routing, Verb, admit_reply, allow_cors, authenticated,
  dispatch, is_preflight, redirect, redirected_by, routed_to, run_engine, run_route, serve,
  track_written_timestamps, unmatched,
}

-- Nobody is admitted.
abbrev pub IsRefused : Outcome Fault Admission → Type 0
IsRefused (ok (admitted c)) = ⊥
IsRefused (ok (unauthorized f)) = Unit
IsRefused (ok unauthorized_empty) = Unit
IsRefused (ok (Admission.refused f)) = Unit
IsRefused (err f) = Unit

-- Two routings that gin answers alike as far as it answers by itself.
abbrev pub are_alike : Routing → Routing → Bool
are_alike (redirected_by s) (redirected_by t) = s == t
are_alike (redirected_by s) (routed_to r) = false
are_alike (redirected_by s) unmatched = false
are_alike (routed_to r) (redirected_by s) = false
are_alike unmatched (redirected_by s) = false
are_alike (routed_to r) (routed_to r') = true
are_alike (routed_to r) unmatched = true
are_alike unmatched (routed_to r) = true
are_alike unmatched unmatched = true

module _ (env : Env) (users : List UserRow) (compare : Text → Text → Bool) (jwt : Jwt)
    (secret : Text) (ttl : Time) where
  -- How the token of a request is read.
  abbrev pub admitting : HttpRequest → World → Outcome Fault Admission × World
  admitting req w =
      authenticate_request env users compare jwt secret ttl req.authorization
        (record w { written = [] })

  -- The database is that of the request's beginning, or what other sessions make of it.
  abbrev pub WroteNothing : World → Db → Type 0
  WroteNothing w d = (d ≡ w.db) ⊎ (d ≡ env.others w.calls w.db)

  admit-db :
      (name : Option Text) (w : World)
      → WroteNothing w (admit env users compare jwt secret ttl name w).1.db
  unfolding admit by_username statement
  admit-db none w = inl refl
  admit-db (some name) w = elim (Bool-cases (env.fails w.calls)) [
    | inl h ↦ rw h (inr refl)
    | inr h ↦ rw h (inr refl)
  ]

  authorize-db :
      (prefixed : Bool) (token : List ℕ) (w : World)
      → WroteNothing w (authorize env users compare jwt secret ttl prefixed token w).1.db
  unfolding authorize pure clock_now ◌>>=◌
  authorize-db prefixed token w = elim (Bool-cases (not prefixed || same_text token [])) [
    | inl h ↦ rw h (inl refl)
    | inr h ↦ rw h (admit-db (verify env users compare jwt secret ttl (env.clock w.calls) token) w)
  ]

  authenticate_request-db :
      (header : List ℕ) (w : World)
      → WroteNothing w (authenticate_request env users compare jwt secret ttl header w).1.db
  unfolding authenticate_request
  authenticate_request-db header w = authorize-db _ _ w

  module _ (p : Presenter) (text_of : List ℕ → Text) {D : Type 0} where
    admit_reply-refused :
        (req : HttpRequest) (next other : Chain D) (x : Outcome Fault Admission × World)
        → IsRefused x.0
        → admit_reply env users compare jwt secret ttl p text_of req next x
          ≡ admit_reply env users compare jwt secret ttl p text_of req other x
    admit_reply-refused req next other (ok (admitted c), w) h = elim h [ ]
    admit_reply-refused req next other (ok (unauthorized f), w) h = refl
    admit_reply-refused req next other (ok unauthorized_empty, w) h = refl
    admit_reply-refused req next other (ok (Admission.refused f), w) h = refl
    admit_reply-refused req next other (err f, w) h = refl

    admit_reply-world :
        (req : HttpRequest) (next : Chain D) (x : Outcome Fault Admission × World)
        → IsRefused x.0
        → (admit_reply env users compare jwt secret ttl p text_of req next x).1 ≡ x.1
    admit_reply-world req next (ok (admitted c), w) h = elim h [ ]
    admit_reply-world req next (ok (unauthorized f), w) h = refl
    admit_reply-world req next (ok unauthorized_empty, w) h = refl
    admit_reply-world req next (ok (Admission.refused f), w) h = refl
    admit_reply-world req next (err f, w) h = refl

    abbrev answered : HttpRequest → Reply D × World → Response D × World
    answered req x = (record { allow_origin = not (same_text req.origin []); reply = x.0 }, x.1)

    engine-guarded :
        (handle : Endpoint → Chain D) (req : HttpRequest) (route : Routing) (w : World)
        → is_guarded req.path ≡ true
        → is_preflight req ≡ false
        → run_engine env users compare jwt secret ttl p text_of handle req route w
          ≡ answered req (
              admit_reply env users compare jwt secret ttl p text_of req
                (run_route env users compare jwt secret ttl p text_of req handle route)
                (admitting req w))
    unfolding run_engine allow_cors track_written_timestamps guard_gateway_prefix authenticated
    engine-guarded handle req route w guarded flight = rw flight (rw guarded refl)

    -- What is refused is answered the same.
    abbrev Same : Response D × World → Response D × World → World → Type 0
    Same x y w = (x ≡ y) × WroteNothing w x.1.db

    engine-refused :
        (route route' : Routing) (handle handle' : Endpoint → Chain D) (req : HttpRequest)
        (w : World)
        → is_guarded req.path ≡ true
        → is_preflight req ≡ false
        → IsRefused (admitting req w).0
        → Same
            (run_engine env users compare jwt secret ttl p text_of handle req route w)
            (run_engine env users compare jwt secret ttl p text_of handle' req route' w)
            w
    engine-refused route route' handle handle' req w guarded flight h =
        let run = run_route env users compare jwt secret ttl p text_of req handle route in
        let run' = run_route env users compare jwt secret ttl p text_of req handle' route' in
        (
          engine-guarded handle req route w guarded flight
              ∙ ap (answered req) (admit_reply-refused req run run' (admitting req w) h)
              ∙ sym (engine-guarded handle' req route' w guarded flight),
          subst (WroteNothing w)
              (sym (
                ap (λ x. x.1.db) (engine-guarded handle req route w guarded flight)
                ∙ ap (λ x. x.db) (admit_reply-world req run (admitting req w) h)))
              (authenticate_request-db req.authorization (record w { written = [] })),
        )

    dispatch-refused :
        (route route' : Routing) (handle handle' : Endpoint → Chain D) (req : HttpRequest)
        (w : World)
        → are_alike route route' ≡ true
        → is_guarded req.path ≡ true
        → is_preflight req ≡ false
        → IsRefused (admitting req w).0
        → Same
            (dispatch env users compare jwt secret ttl p text_of handle req route w)
            (dispatch env users compare jwt secret ttl p text_of handle' req route' w)
            w
    dispatch-refused (redirected_by s) (redirected_by t) handle handle' req w a guarded flight h = (
      ap (λ x. (record { allow_origin = false; reply = redirect x }, w)) ((==_iff s t).0 a),
      inl refl,
    )
    dispatch-refused (redirected_by s) (routed_to r) handle handle' req w a guarded flight h =
        ground (arith, a)
    dispatch-refused (redirected_by s) unmatched handle handle' req w a guarded flight h =
        ground (arith, a)
    dispatch-refused (routed_to r) (redirected_by s) handle handle' req w a guarded flight h =
        ground (arith, a)
    dispatch-refused unmatched (redirected_by s) handle handle' req w a guarded flight h =
        ground (arith, a)
    dispatch-refused (routed_to r) (routed_to r') handle handle' req w a guarded flight h =
        engine-refused _ _ handle handle' req w guarded flight h
    dispatch-refused (routed_to r) unmatched handle handle' req w a guarded flight h =
        engine-refused _ _ handle handle' req w guarded flight h
    dispatch-refused unmatched (routed_to r) handle handle' req w a guarded flight h =
        engine-refused _ _ handle handle' req w guarded flight h
    dispatch-refused unmatched unmatched handle handle' req w a guarded flight h =
        engine-refused _ _ handle handle' req w guarded flight h

    -- A request under the guard, other than a preflight, that nobody is admitted for is answered the
    -- same whatever the handlers do and whatever its route, a path without a route included, as long
    -- as the gin package does not redirect it for its last slash, or redirects it alike. No handler
    -- runs, and the database is as it was, or as other sessions have left it.
    pub serve-refused :
        (route route' : Verb → List ℕ → Routing) (handle handle' : Endpoint → Chain D)
        (req : HttpRequest) (w : World)
        → are_alike (route req.verb req.path) (route' req.verb req.path) ≡ true
        → is_guarded req.path ≡ true
        → is_preflight req ≡ false
        → IsRefused (admitting req w).0
        → (serve env users compare jwt secret ttl p text_of route handle req w
            ≡ serve env users compare jwt secret ttl p text_of route' handle' req w)
          × WroteNothing w
              (serve env users compare jwt secret ttl p text_of route handle req w).1.db
    unfolding serve
    serve-refused route route' handle handle' req w a guarded flight h =
        dispatch-refused (route req.verb req.path) (route' req.verb req.path) handle handle' req w a
          guarded flight h
