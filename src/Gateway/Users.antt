-- ===== src/Gateway/Users.antt =====
-- postgres.UserGateway (internal/adapter/gateway/postgres/user_gateway.go). Only the seed writes the
-- table utilisateur, so that its rows are a parameter.
use numflex_sandbox.Prelude.{Bool, List, Option, [], false, find?, none, some, true, ◌==◌}
use numflex_sandbox.Entity.Authorization.{Caller}
use numflex_sandbox.Entity.Errors.{GoError}
use numflex_sandbox.Entity.Request.{Text, empty_text}
use numflex_sandbox.Gateway.Requests.Reads.{find_operator}
use numflex_sandbox.Store.Schema.{Db, OperatorRow}
use numflex_sandbox.Store.Session.{Env, M, Querier, ok, statement}

-- utilisateur
pub record UserRow : Type 0 where
  pub id : Text
  pub username : Text
  pub password_hash : Text
  pub operator_id : Text
  pub roles : List Text

-- the caller that a login resolves: its other fields are zero
abbrev pub login_caller : UserRow → Text → Caller
login_caller u username = record {
  user_id = empty_text;
  username = username;
  operator_id = empty_text;
  operator_name = empty_text;
  roles = u.roles;
}

-- the caller that a token resolves: its roles are not read
abbrev pub token_caller : UserRow → OperatorRow → Caller
token_caller u o = record {
  user_id = u.id;
  username = u.username;
  operator_id = o.id;
  operator_name = o.name;
  roles = [];
}

abbrev pub with_password : Bool → Caller → Option Caller
with_password true c = some c
with_password false c = none

abbrev pub joined_caller : UserRow → Option OperatorRow → Option Caller
joined_caller u none = none
joined_caller u (some o) = some (token_caller u o)

abbrev pub find_user : List UserRow → Text → Option UserRow
find_user users username = find? (λ u. u.username == username) users

abbrev pub resolved_caller : Db → Option UserRow → Option Caller
resolved_caller d none = none
resolved_caller d (some u) = joined_caller u (find_operator u.operator_id d)

-- `compare` is `bcrypt.CompareHashAndPassword` of a hash and a password: whether it gives no error
abbrev pub checked : (Text → Text → Bool) → Text → Text → Option UserRow → Option Caller
checked compare username password none = none
checked compare username password (some u) =
    with_password (compare u.password_hash password) (login_caller u username)

module _ (env : Env) (q : Querier) (users : List UserRow) (compare : Text → Text → Bool) where
  -- `ByCredentials`
  unfoldable pub by_credentials : Text → Text → M GoError (Option Caller)
  by_credentials username password =
      statement env q
        (λ now d. (ok (checked compare username password (find_user users username)), d))

  -- `ByUsername`
  unfoldable pub by_username : Text → M GoError (Option Caller)
  by_username username =
      statement env q (λ now d. (ok (resolved_caller d (find_user users username)), d))
