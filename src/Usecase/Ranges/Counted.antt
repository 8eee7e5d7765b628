-- ===== src/Usecase/Ranges/Counted.antt =====
-- The ranges count the numbers that the operator holds
-- (internal/usecase/sandbox/count_number_ranges.go).
use numflex_sandbox.Prelude.{
  Bool, List, Option, [], any, ap, arith, false, if◌then◌else◌, keep, length, map, none, order_by,
  refl, some, subst, sym, true, ℕ, ◌&&◌, ◌+◌, ◌<◌, ◌==◌, ◌||◌, ◌∙◌, ◌∷◌, ◌≡◌,
}
use numflex_sandbox.Entity.Request.{Text}
use numflex_sandbox.Gateway.Ranges.{
  NumberRange, group_into, grouped, is_held, is_ported_number, ranges_by_operator,
}
use numflex_sandbox.Gateway.Reference.{read_operators}
use numflex_sandbox.Store.Runs.{Reliable, bind-ok, map_error-ok, statement-eq}
use numflex_sandbox.Store.Schema.{Db, NumberRow, OperatorRow}
use numflex_sandbox.Store.Session.{Env, World, ok, pool, pure, require, seen}
use numflex_sandbox.Usecase.Ranges.{
  CountNumberRangesResult, Nature, RangeView, already_ported, count_number_ranges, match_operator,
  never_ported, range_view, ranges_result, sum_totals, unknown_operator, with_id,
}

-- The total shown for a prefix, and whether it is shown as ported.
abbrev pub shown_total : Text → List RangeView → ℕ
shown_total k [] = 0
shown_total k (r ∷ rs) = (if r.prefix == k then r.total else 0) + shown_total k rs

abbrev pub is_already : Nature → Bool
is_already already_ported = true
is_already never_ported = false

abbrev pub is_shown_ported : Text → RangeView → Bool
is_shown_ported k r = r.prefix == k && is_already r.nature

-- The prefixes ascend, none of them twice.
abbrev pub IsOver : Text → List RangeView → Type 0
IsOver k [] = Unit
IsOver k (r ∷ rs) = k < r.prefix

abbrev pub IsAscending : List RangeView → Type 0
IsAscending [] = Unit
IsAscending (r ∷ rs) = IsOver r.prefix rs × IsAscending rs

module _ (prefix_of : Text → Text) where
  abbrev pub has_prefix_of : Text → NumberRow → Bool
  has_prefix_of k n = prefix_of n.msisdn == k

  abbrev views : List NumberRange → List RangeView
  views = map range_view

  total-group_into :
      (k : Text) (n : NumberRow) (rs : List NumberRange)
      → shown_total k (views (group_into prefix_of n rs))
        ≡ (if has_prefix_of k n then 1 else 0) + shown_total k (views rs)
  unfolding group_into
  total-group_into k n [] = ground arith
  total-group_into k n (r ∷ rs) = ground (arith, total-group_into k n rs)

  total-grouped :
      (k : Text) (ns : List NumberRow)
      → shown_total k (views (grouped prefix_of ns)) ≡ length (keep (has_prefix_of k) ns)
  unfolding grouped
  total-grouped k [] = refl
  total-grouped k (n ∷ ns) =
      ground (arith, total-group_into k n (grouped prefix_of ns), total-grouped k ns)

  sum-group_into :
      (n : NumberRow) (rs : List NumberRange)
      → sum_totals (views (group_into prefix_of n rs)) ≡ 1 + sum_totals (views rs)
  unfolding group_into
  sum-group_into n [] = refl
  sum-group_into n (r ∷ rs) = ground (arith, sum-group_into n rs)

  sum-grouped : (ns : List NumberRow) → sum_totals (views (grouped prefix_of ns)) ≡ length ns
  unfolding grouped
  sum-grouped [] = refl
  sum-grouped (n ∷ ns) = ground (arith, sum-group_into n (grouped prefix_of ns), sum-grouped ns)

  ported-group_into :
      (k : Text) (n : NumberRow) (rs : List NumberRange)
      → any (is_shown_ported k) (views (group_into prefix_of n rs))
        ≡ ((has_prefix_of k n && is_ported_number n) || any (is_shown_ported k) (views rs))
  unfolding group_into
  ported-group_into k n [] = ground arith
  ported-group_into k n (r ∷ rs) = ground (arith, ported-group_into k n rs)

  ported-grouped :
      (k : Text) (ns : List NumberRow)
      → any (is_shown_ported k) (views (grouped prefix_of ns))
        ≡ any (λ n. has_prefix_of k n && is_ported_number n) ns
  unfolding grouped
  ported-grouped k [] = refl
  ported-grouped k (n ∷ ns) =
      ground (arith, ported-group_into k n (grouped prefix_of ns), ported-grouped k ns)

  group_into-IsOver :
      (k : Text) (n : NumberRow) (rs : List NumberRange)
      → k < prefix_of n.msisdn
      → IsOver k (views rs)
      → IsOver k (views (group_into prefix_of n rs))
  unfolding group_into
  group_into-IsOver k n [] h a = h
  group_into-IsOver k n (r ∷ rs) h a = ground arith

  group_into-IsAscending :
      (n : NumberRow) (rs : List NumberRange)
      → IsAscending (views rs)
      → IsAscending (views (group_into prefix_of n rs))
  unfolding group_into
  group_into-IsAscending n [] h = (tt, tt)
  group_into-IsAscending n (r ∷ rs) h =
      ground (arith, group_into-IsAscending n rs, group_into-IsOver r.prefix n rs)

  grouped-IsAscending : (ns : List NumberRow) → IsAscending (views (grouped prefix_of ns))
  unfolding grouped
  grouped-IsAscending [] = tt
  grouped-IsAscending (n ∷ ns) =
      group_into-IsAscending n (grouped prefix_of ns) (grouped-IsAscending ns)

  -- What an answer shows of a database.
  abbrev pub Counts : CountNumberRangesResult → Db → Type 0
  Counts out d =
      let held = keep (is_held out.operator_id) d.numbers in
      (out.total ≡ length held)
      × IsAscending out.ranges
      × ((k : Text) → shown_total k out.ranges ≡ length (keep (has_prefix_of k) held))
      × ((k : Text)
          → any (is_shown_ported k) out.ranges
            ≡ any (λ n. has_prefix_of k n && is_ported_number n) held)

  result-Counts :
      (matched : OperatorRow) (rows : List NumberRange) (d : Db)
      → rows ≡ grouped prefix_of (keep (is_held matched.id) d.numbers)
      → Counts (ranges_result matched rows) d
  result-Counts matched rows d e =
      let held = keep (is_held matched.id) d.numbers in
      subst (λ rs. Counts (ranges_result matched rs) d) (sym e)
        (
          sum-grouped held,
          grouped-IsAscending held,
          λ k. total-grouped k held,
          λ k. ported-grouped k held,
        )

  module _ (upper trim : Text → Text) (env : Env) where
    -- The worlds after the two reads.
    abbrev after_read : World → World
    after_read w = record w { db = seen env pool w; calls = w.calls + 1 }

    abbrev counted : OperatorRow → World → List NumberRange
    counted o w = grouped prefix_of (keep (is_held o.id) (seen env pool w).numbers)

    abbrev named_operator : Text → World → Option OperatorRow
    named_operator operator w = with_id (
        match_operator upper (upper (trim operator)) none
          (order_by (λ o. o.name) (seen env pool w).operators))

    count_number_ranges-eq :
        (operator : Text) (w : World) (o : OperatorRow)
        → Reliable env
        → named_operator operator w ≡ some o
        → count_number_ranges upper trim prefix_of env operator w
          ≡ (ok (ranges_result o (counted o (after_read w))), after_read (after_read w))
    unfolding count_number_ranges read_operators ranges_by_operator pure
    count_number_ranges-eq operator w o reliable e =
        bind-ok _ _ w (after_read w) (order_by (λ o. o.name) (seen env pool w).operators) (
          map_error-ok _ (read_operators env pool) w (after_read w) _
            (statement-eq env pool _ w reliable))
        ∙ bind-ok _ _ (after_read w) (after_read w) o (
            ap
              (λ x.
                require x (unknown_operator (order_by (λ o. o.name) (seen env pool w).operators))
                  (after_read w))
              e)
        ∙ bind-ok _ _ (after_read w) (after_read (after_read w)) (counted o (after_read w)) (
            map_error-ok _ (ranges_by_operator prefix_of env pool o.id) (after_read w)
              (after_read (after_read w)) _ (statement-eq env pool _ (after_read w) reliable))

    -- Where the driver does not fail, the name of an operator is answered. The total is the number of
    -- the numbers that the operator holds; no prefix is listed twice, and they ascend; the total of
    -- each prefix is the number of the held numbers of that prefix, and a prefix is listed as ported
    -- exactly if one of these has a date of porting.
    pub count_number_ranges-Counts :
        (operator : Text) (w : World) (o : OperatorRow)
        → Reliable env
        → named_operator operator w ≡ some o
        → (out : CountNumberRangesResult) × ((count_number_ranges upper trim prefix_of env operator
              w).0
            ≡ ok out)
          × (out.operator_id ≡ o.id)
          × Counts out (count_number_ranges upper trim prefix_of env operator w).1.db
    count_number_ranges-Counts operator w o reliable e =
        let run = count_number_ranges-eq operator w o reliable e in
        let out = ranges_result o (counted o (after_read w)) in
        (
          out,
          ap (λ x. x.0) run,
          refl,
          subst (λ x. Counts out x.1.db) (sym run)
              (result-Counts o (counted o (after_read w)) (seen env pool (after_read w)) refl),
        )
