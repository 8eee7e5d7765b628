-- ===== src/Usecase/Ranges.antt =====
-- The count of the ranges (internal/usecase/sandbox/count_number_ranges.go).
pub mod Counted
use numflex_sandbox.Prelude.{
  List, Option, [], if◌then◌else◌, ltb, map, none, some, ℕ, ◌+◌, ◌==◌, ◌∷◌,
}
use numflex_sandbox.Entity.Fault.{Fault, Message, lit, text_piece, validation}
use numflex_sandbox.Entity.Request.{Text, empty_text}
use numflex_sandbox.Gateway.Ranges.{NumberRange, ranges_by_operator}
use numflex_sandbox.Gateway.Reference.{read_operators}
use numflex_sandbox.Store.Schema.{OperatorRow}
use numflex_sandbox.Store.Session.{Env, M, or_internal, pool, pure, require, ◌>>=◌, ◌>>◌}

-- `NatureNeverPorted`, `NatureAlreadyPorted`
pub data Nature : Type 0 where
  never_ported already_ported : Nature

-- `RangeView`
pub record RangeView : Type 0 where
  pub prefix : Text
  pub first : Text
  pub last : Text
  pub total : ℕ
  pub nature : Nature

-- `CountNumberRangesResult`
pub record CountNumberRangesResult : Type 0 where
  pub operator_id : Text
  pub operator : Text
  pub ranges : List RangeView
  pub total : ℕ

-- `strings.Join(names, ", ")`
abbrev pub join_names : List OperatorRow → Message
join_names [] = []
join_names (o ∷ []) = text_piece o.name ∷ []
join_names (o ∷ p ∷ os) = text_piece o.name ∷ lit ", " ∷ join_names (p ∷ os)

-- the fault of an unknown name, which names the accepted ones
abbrev pub unknown_operator : List OperatorRow → Fault
unknown_operator operators = validation (
    record {
      object_name = "tranchesQuery";
      field = "operateur";
      message = lit "doit valoir l'un de : " ∷ join_names operators;
    }
    ∷ [])

abbrev pub range_view : NumberRange → RangeView
range_view r = record {
  prefix = r.prefix;
  first = r.first;
  last = r.last;
  total = r.total;
  nature = if ltb 0 r.ported then already_ported else never_ported;
}

-- `out.Total`
abbrev pub sum_totals : List RangeView → ℕ
sum_totals [] = 0
sum_totals (r ∷ rs) = r.total + sum_totals rs

-- the result: each range is shown, and the totals are added
abbrev pub ranges_result : OperatorRow → List NumberRange → CountNumberRangesResult
ranges_result matched rows = record {
  operator_id = matched.id;
  operator = matched.name;
  ranges = map range_view rows;
  total = sum_totals (map range_view rows);
}

-- `if matched.ID == ""`
abbrev pub with_id : Option OperatorRow → Option OperatorRow
with_id none = none
with_id (some o) = if o.id == empty_text then none else some o

-- `upper` is `strings.ToUpper` and `trim` is `strings.TrimSpace`.
module _ (upper : Text → Text) where
  -- the loop that matches the name: the last match stays
  abbrev pub match_operator : Text → Option OperatorRow → List OperatorRow → Option OperatorRow
  match_operator wanted matched [] = matched
  match_operator wanted matched (o ∷ os) =
      match_operator wanted (if upper o.name == wanted then some o else matched) os

  module _ (trim prefix_of : Text → Text) (env : Env) where
    -- `CountNumberRangesInteractor.Execute`
    unfoldable pub count_number_ranges : Text → M Fault CountNumberRangesResult
    count_number_ranges operator = do
      operators ← or_internal (read_operators env pool) (lit "reading the operators" ∷ [])
      matched ←
          require (with_id (match_operator (upper (trim operator)) none operators))
            (unknown_operator operators)
      rows ←
          or_internal (ranges_by_operator prefix_of env pool matched.id)
            (lit "counting the ranges" ∷ [])
      pure (ranges_result matched rows)
