-- ===== src/Controller/Pagination.antt =====
-- The page and the size of a list (internal/adapter/controller/pagination.go); an absent parameter is
-- the empty text.
use numflex_sandbox.Prelude.{List, Option, [], none, some, ℕ, ◌∷◌}
use numflex_sandbox.Framework.Text.{atoi, negsuc, pos, ℤ}

abbrev pub or_fallback : ℕ → Option ℤ → ℕ
or_fallback fallback none = fallback
or_fallback fallback (some (pos n)) = n
or_fallback fallback (some (negsuc n)) = fallback

-- `parseQueryInt`
unfoldable pub parse_query_int : List ℕ → ℕ → ℕ
parse_query_int [] fallback = fallback
parse_query_int (c ∷ cs) fallback = or_fallback fallback (atoi (c ∷ cs))
