-- ===== src/Usecase/Tests/Login.antt =====
-- A login on a small database.
use numflex_sandbox.Prelude.{
  Bool, [], arith, if◌then◌else◌, ltb, none, refl, some, ◌<◌, ◌==◌, ◌∷◌, ◌≡◌,
}
use numflex_sandbox.Entity.Request.{Text, acceptance}
use numflex_sandbox.Framework.Text.{codes}
use numflex_sandbox.Gateway.Requests.Reads.{find_operator}
use numflex_sandbox.Gateway.Users.{UserRow, token_caller}
use numflex_sandbox.Store.Schema.{OperatorRow}
use numflex_sandbox.Store.Session.{World, ok, pool, seen}
use numflex_sandbox.Usecase.Auth.{
  Jwt, admitted, authenticate, authenticate_request, claims_at, unix,
}
use numflex_sandbox.Usecase.Auth.Session.{Signs, authenticate-authenticate_request, bearer}
use numflex_sandbox.Usecase.Tests.{quiet, world}

abbrev user : UserRow
user = record { id = 50; username = 51; password_hash = 52; operator_id = 10; roles = 53 ∷ [] }

-- A package that signs every claim with one token, and reads the user's claims from it.
abbrev toy : Jwt
toy = record {
  sign = λ secret claims. some (codes "t");
  parse =
      λ secret now token. if ltb now 3 then some (claims_at 1 3000000000 51 (53 ∷ [])) else none;
}

toy-Signs : Signs toy 9 (claims_at 1 3000000000 51 (53 ∷ [])) (codes "t")
toy-Signs = (refl, refl, refl, λ t h. ground (arith, h))

abbrev accepts : Text → Text → Bool
accepts hash password = hash == password

authenticate-authenticate_request_example :
    ((authenticate quiet (user ∷ []) accepts toy 9 3000000000 51 52 (world acceptance)).0
      ≡ ok (codes "t"))
    × ((o : OperatorRow) (later : World)
        → find_operator 10 (seen quiet pool later) ≡ some o
        → unix later.calls < 3
        → (authenticate_request quiet
            (user ∷ [])
            accepts
            toy
            9
            3000000000
            (bearer (codes "t"))
            later).0
          ≡ ok (admitted (token_caller user o)))
authenticate-authenticate_request_example =
    authenticate-authenticate_request quiet (λ n. refl) (user ∷ []) accepts toy 9 3000000000 user 52
      (codes "t") (world acceptance) refl refl (λ e. ground arith) toy-Signs
