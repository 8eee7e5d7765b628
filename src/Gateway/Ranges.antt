-- ===== src/Gateway/Ranges.antt =====
-- postgres.NumberRangeGateway (internal/adapter/gateway/postgres/number_range_gateway.go).
use numflex_sandbox.Prelude.{Bool, List, [], if◌then◌else◌, keep, leb, ltb, ℕ, ◌+◌, ◌==◌, ◌∷◌}
use numflex_sandbox.Entity.Errors.{GoError}
use numflex_sandbox.Entity.Request.{Text}
use numflex_sandbox.Gateway.Requests.Reads.{is_set}
use numflex_sandbox.Store.Schema.{NumberRow}
use numflex_sandbox.Store.Session.{Env, M, Querier, ok, statement}

-- `NumberRange` (internal/usecase/port/gateway.go)
pub record NumberRange : Type 0 where
  pub prefix : Text
  pub total : ℕ
  pub first : Text
  pub last : Text
  pub ported : ℕ

abbrev pub is_ported_number : NumberRow → Bool
is_ported_number n = is_set n.last_porting_date

abbrev pub ported_one : NumberRow → ℕ
ported_one n = if is_ported_number n then 1 else 0

abbrev pub is_held : Text → NumberRow → Bool
is_held op n = n.current_operator_id == op

abbrev pub text_min : Text → Text → Text
text_min a b = if leb a b then a else b

abbrev pub text_max : Text → Text → Text
text_max a b = if leb a b then b else a

-- `prefix_of` is `left(msisdn, 3)`.
module _ (prefix_of : Text → Text) where
  abbrev pub opened_range : NumberRow → NumberRange
  opened_range n = record {
    prefix = prefix_of n.msisdn;
    total = 1;
    first = n.msisdn;
    last = n.msisdn;
    ported = ported_one n;
  }

  abbrev pub joined_range : NumberRow → NumberRange → NumberRange
  joined_range n r = record {
    prefix = r.prefix;
    total = r.total + 1;
    first = text_min n.msisdn r.first;
    last = text_max n.msisdn r.last;
    ported = r.ported + ported_one n;
  }

  -- one row under GROUP BY and ORDER BY its prefix
  unfoldable pub group_into : NumberRow → List NumberRange → List NumberRange
  group_into n [] = opened_range n ∷ []
  group_into n (r ∷ rs) =
      let rest = group_into n rs in
      if prefix_of n.msisdn == r.prefix
      then joined_range n r ∷ rs
      else if ltb (prefix_of n.msisdn) r.prefix
      then opened_range n ∷ r ∷ rs
      else r ∷ rest

  unfoldable pub grouped : List NumberRow → List NumberRange
  grouped [] = []
  grouped (n ∷ ns) = group_into n (grouped ns)

  module _ (env : Env) (q : Querier) where
    -- `RangesByOperator`
    unfoldable pub ranges_by_operator : Text → M GoError (List NumberRange)
    ranges_by_operator op =
        statement env q (λ now d. (ok (grouped (keep (is_held op) d.numbers)), d))
