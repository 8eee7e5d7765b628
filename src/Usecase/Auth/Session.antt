-- ===== src/Usecase/Auth/Session.antt =====
-- A token that a login gives opens the session of its user (internal/usecase/auth,
-- internal/framework/web/middleware/authentication.go).
use numflex_sandbox.Prelude.{
  Bool, List, [], ap, arith, false, refl, some, true, ℕ, ◌++◌, ◌+◌, ◌<◌, ◌∙◌, ◌∷◌, ◌≡◌, ◌≢◌,
}
use numflex_sandbox.Entity.Fault.{internal_error, lit}
use numflex_sandbox.Entity.Request.{Text, Time, empty_text}
use numflex_sandbox.Framework.Text.{codes, same_text, trim_space}
use numflex_sandbox.Gateway.Requests.Reads.{find_operator}
use numflex_sandbox.Gateway.Users.{
  UserRow, by_credentials, by_username, checked, find_user, joined_caller, login_caller,
  resolved_caller, token_caller, with_password,
}
use numflex_sandbox.Store.Runs.{Reliable, bind-ok, map_error-ok, statement-ok}
use numflex_sandbox.Store.Schema.{OperatorRow, nullif}
use numflex_sandbox.Store.Session.{Env, World, clock_now, ok, pool, pure, require, seen}
use numflex_sandbox.Usecase.Auth.{
  Claims, Jwt, admit, admitted, authenticate, authenticate_request, authorize, caller_answer,
  claims_at, issue, subject_of, unix, verify,
}

-- What the jwt package documents: it signs, its tokens are texts without surrounding spaces, and it
-- reads back the claims that it signed until they expire.
abbrev pub Signs : Jwt → Text → Claims → List ℕ → Type 0
Signs jwt secret claims token =
    (jwt.sign secret claims ≡ some token)
    × (trim_space token ≡ token)
    × (same_text token [] ≡ false)
    × ((t : ℕ) → t < claims.expires_at → jwt.parse secret t token ≡ some claims)

-- The value of the header.
abbrev pub bearer : List ℕ → List ℕ
bearer token = codes "Bearer " ++ token

nullif-some : (x : Text) → x ≢ empty_text → nullif x ≡ some x
nullif-some x h = ground (arith, h)

module _ (env : Env) (reliable : Reliable env) (users : List UserRow) (compare : Text → Text → Bool)
    (jwt : Jwt) (secret : Text) (ttl : Time) where
  issue-ok :
      (username : Text) (roles : List Text) (w : World) (token : List ℕ)
      → jwt.sign secret (claims_at (env.clock w.calls) ttl username roles) ≡ some token
      → issue env users compare jwt secret ttl username roles w ≡ (ok token, w)
  unfolding issue clock_now pure
  issue-ok username roles w token e =
      bind-ok _ _ w w (env.clock w.calls) refl
      ∙ ap (λ o. require o (internal_error (lit "token issuance failed" ∷ [])) w) e

  admitted-ok :
      (u : UserRow) (o : OperatorRow) (w : World)
      → find_user users u.username ≡ some u
      → find_operator u.operator_id (seen env pool w) ≡ some o
      → (admit env users compare jwt secret ttl (some u.username) w).0
        ≡ ok (admitted (token_caller u o))
  unfolding admit by_username
  admitted-ok u o w known member =
      let d = seen env pool w in
      ap (λ x. ok (caller_answer x.0))
        (statement-ok env reliable pool _ w (some (token_caller u o)) d (
          ap (λ x. (ok (resolved_caller d x), d)) known
          ∙ ap (λ x. (ok (joined_caller u x), d)) member))

  login-ok :
      (u : UserRow) (password : Text) (token : List ℕ) (w : World)
      → find_user users u.username ≡ some u
      → compare u.password_hash password ≡ true
      → jwt.sign secret (claims_at (env.clock (w.calls + 1)) ttl u.username u.roles) ≡ some token
      → (authenticate env users compare jwt secret ttl u.username password w).0 ≡ ok token
  unfolding authenticate by_credentials pure
  login-ok u password token w known right signed =
      let d = seen env pool w in
      let w' = record w { db = d; calls = w.calls + 1 } in
      let c = login_caller u u.username in
      let found =
        statement-ok env reliable pool
          (λ now d. (ok (checked compare u.username password (find_user users u.username)), d)) w
          (some c) d
          (ap (λ x. (ok (checked compare u.username password x), d)) known
            ∙ ap (λ b. (ok (with_password b c), d)) right) in
      ap (λ x. x.0)
        (bind-ok _ _ w w' (some c) (map_error-ok _ _ w w' (some c) found)
          ∙ bind-ok _ _ w' w' c refl
          ∙ issue-ok u.username u.roles w' token signed)

  authorize-ok :
      (token : List ℕ) (name : Text) (w : World)
      → same_text token [] ≡ false
      → verify env users compare jwt secret ttl (env.clock w.calls) token ≡ some name
      → authorize env users compare jwt secret ttl true token w
        ≡ admit env users compare jwt secret ttl (some name) w
  unfolding authorize clock_now
  authorize-ok token name w some_text verified = rw some_text (
      bind-ok _ _ w w (env.clock w.calls) refl
      ∙ ap (λ x. admit env users compare jwt secret ttl x w) verified)

  -- Where the driver does not fail and the jwt package signs as it documents, a login with the
  -- password of a known user gives a token, and every later request that carries it before it
  -- expires is admitted as that user, of the operator that the database then has for it.
  pub authenticate-authenticate_request :
      (u : UserRow) (password : Text) (token : List ℕ) (w : World)
      → find_user users u.username ≡ some u
      → compare u.password_hash password ≡ true
      → u.username ≢ empty_text
      → Signs jwt secret (claims_at (env.clock (w.calls + 1)) ttl u.username u.roles) token
      → ((authenticate env users compare jwt secret ttl u.username password w).0 ≡ ok token)
        × ((o : OperatorRow) (later : World)
            → find_operator u.operator_id (seen env pool later) ≡ some o
            → unix (env.clock later.calls) < unix (env.clock (w.calls + 1) + ttl)
            → (authenticate_request env users compare jwt secret ttl (bearer token) later).0
              ≡ ok (admitted (token_caller u o)))
  unfolding authenticate_request verify
  authenticate-authenticate_request u password token w known right named signs = (
    login-ok u password token w known right signs.0,
    λ o later member fresh.
        let claims = claims_at (env.clock (w.calls + 1)) ttl u.username u.roles in
        let verified =
          ap subject_of (signs.3 (unix (env.clock later.calls)) fresh)
          ∙ nullif-some u.username named in
        ap (λ t. (authorize env users compare jwt secret ttl true t later).0) signs.1
        ∙ ap (λ x. x.0) (authorize-ok token u.username later signs.2 verified)
        ∙ admitted-ok u o later known member,
  )
