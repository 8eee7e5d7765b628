-- ===== src/Usecase/Auth.antt =====
-- Login, tokens and the authentication of a request (internal/usecase/auth,
-- internal/framework/token/jwt.go, internal/framework/web/middleware/authentication.go).
pub mod Session
use numflex_sandbox.Prelude.{
  Bool, List, Option, [], if◌then◌else◌, none, not, skip, some, ℕ, ◌+◌, ◌/◌, ◌||◌, ◌∷◌,
}
use numflex_sandbox.Entity.Authorization.{Caller}
use numflex_sandbox.Entity.Errors.{GoError}
use numflex_sandbox.Entity.Fault.{
  Fault, Message, access_forbidden, bad_credentials, internal_error, lit, operator_not_found,
  text_piece,
}
use numflex_sandbox.Entity.Request.{Text, Time}
use numflex_sandbox.Framework.Text.{codes, has_prefix, same_text, trim_space}
use numflex_sandbox.Gateway.Users.{UserRow, by_credentials, by_username}
use numflex_sandbox.Store.Schema.{nullif}
use numflex_sandbox.Store.Session.{
  Env, M, Outcome, clock_now, err, ok, or_internal, pool, pure, require, ◌>>=◌, ◌>>◌,
}

-- The claims of a token; instants in whole seconds.
pub record Claims : Type 0 where
  pub subject : Text
  pub auth : Message
  pub issued_at : ℕ
  pub expires_at : ℕ

-- What the jwt package does: signs claims under a secret, and parses a token at an instant in
-- seconds, with its signature, its method HS512 and its expiry checked.
pub record Jwt : Type 0 where
  pub sign : Text → Claims → Option (List ℕ)
  pub parse : Text → ℕ → List ℕ → Option Claims

-- `joinRoles`
abbrev pub join_roles : List Text → Message
join_roles [] = []
join_roles (r ∷ []) = text_piece r ∷ []
join_roles (r ∷ s ∷ roles) = text_piece r ∷ lit " " ∷ join_roles (s ∷ roles)

-- nanoseconds as `Unix()`
abbrev pub unix : Time → ℕ
unix t = t / 1000000000

-- the claims of `Issue`
abbrev pub claims_at : Time → Time → Text → List Text → Claims
claims_at now ttl username roles = record {
  subject = username;
  auth = join_roles roles;
  issued_at = unix now;
  expires_at = unix (now + ttl);
}

-- the claims that `Verify` reads: the subject, unless it is empty
abbrev pub subject_of : Option Claims → Option Text
subject_of none = none
subject_of (some c) = nullif c.subject

-- How the middleware answers a request.
pub data Admission : Type 0 where
  -- 401 with the envelope of this fault, and 401 with no body
  unauthorized : Fault → Admission
  unauthorized_empty : Admission
  refused : Fault → Admission
  admitted : Caller → Admission

abbrev pub admission : Option Caller → Admission
admission none = refused operator_not_found
admission (some c) = admitted c

abbrev pub caller_answer : Outcome GoError (Option Caller) → Admission
caller_answer (ok found) = admission found
caller_answer (err e) = refused operator_not_found

-- `DescribeCallerOutput`
pub record DescribeCallerOutput : Type 0 where
  pub user_id : Text
  pub username : Text
  pub operator_id : Text
  pub operator_name : Text

-- `DescribeCallerInteractor.Execute`
unfoldable pub describe_caller : Caller → DescribeCallerOutput
describe_caller c = record {
  user_id = c.user_id;
  username = c.username;
  operator_id = c.operator_id;
  operator_name = c.operator_name;
}

module _ (env : Env) (users : List UserRow) (compare : Text → Text → Bool) (jwt : Jwt)
    (secret : Text) (ttl : Time) where
  -- `Issue`
  unfoldable pub issue : Text → List Text → M Fault (List ℕ)
  issue username roles = do
    now ← clock_now env
    require (jwt.sign secret (claims_at now ttl username roles))
        (internal_error (lit "token issuance failed" ∷ []))

  -- `AuthenticateInteractor.Execute`
  unfoldable pub authenticate : Text → Text → M Fault (List ℕ)
  authenticate username password = do
    found ←
        or_internal (by_credentials env pool users compare username password)
          (lit "authentication failed" ∷ [])
    caller ← require found bad_credentials
    issue caller.username caller.roles

  -- `Verify`
  unfoldable pub verify : Time → List ℕ → Option Text
  verify now token = subject_of (jwt.parse secret (unix now) token)

  -- the middleware after the token: an error of `ByUsername` counts as an unknown caller
  unfoldable pub admit : Option Text → M Fault Admission
  admit none w = (ok unauthorized_empty, w)
  admit (some username) w =
      let (found, w') = by_username env pool users compare username w in
      (ok (caller_answer found), w')

  -- `Authenticate` of a header's prefix test and of what follows the prefix
  unfoldable pub authorize : Bool → List ℕ → M Fault Admission
  authorize prefixed token =
      if not prefixed || same_text token []
      then pure (unauthorized access_forbidden)
      else (do now ← clock_now env; admit (verify now token))

  -- `Authenticate`
  unfoldable pub authenticate_request : List ℕ → M Fault Admission
  authenticate_request header =
      authorize (has_prefix (codes "Bearer ") header) (trim_space (skip 7 header))
