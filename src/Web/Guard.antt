-- ===== src/Web/Guard.antt =====
-- The prefix guard (internal/framework/web/router.go); a path is a list of character codes.
pub mod Segments
use numflex_sandbox.Prelude.{Bool, List, [], if◌then◌else◌, ℕ, ◌++◌, ◌||◌, ◌∷◌}
use numflex_sandbox.Framework.Text.{codes, has_prefix, same_text}
use numflex_sandbox.Usecase.Auth.{authenticate}

-- `GatewayPrefix`
abbrev pub gateway_prefix : List ℕ
gateway_prefix = codes "/api/gateway/v1"

-- `SandboxPrefix`
abbrev pub sandbox_prefix : List ℕ
sandbox_prefix = codes "/api/sandbox/v1"

-- the test of `GuardGatewayPrefix` for a prefix
abbrev pub is_under : List ℕ → List ℕ → Bool
is_under prefix path = same_text path prefix || has_prefix (prefix ++ (47 ∷ [])) path

-- `path != GatewayPrefix && !strings.HasPrefix(path, GatewayPrefix+"/")`, negated
unfoldable pub is_guarded : List ℕ → Bool
is_guarded path = is_under gateway_prefix path

-- `GuardGatewayPrefix`: which of the two goes on with the request
unfoldable pub guard_gateway_prefix : {A : Type 0} → (A → A) → List ℕ → A → A
guard_gateway_prefix authenticate path next = if is_guarded path then authenticate next else next
