-- ===== src/Framework/Seed/Filled.antt =====
-- The seeding of the pool returns (internal/framework/seed/seed.go).
use numflex_sandbox.Prelude.{
  Bool, List, [], arith, false, length, ltb, refl, subst, suc, true, zero, ℕ, ◌*◌, ◌++◌, ◌+◌, ◌∷◌,
  ◌≡◌, ◌≤◌,
}
use numflex_sandbox.Entity.Request.{Text, Time}
use numflex_sandbox.Framework.Config.{Config, Variables, load, max_per_range}
use numflex_sandbox.Framework.Config.Bounds.{IsPool, IsValid, Loads, load-Loads}
use numflex_sandbox.Framework.Seed.{
  Situation, Volumes, eight, historical_ranges, insert_range, operator_expresso_id,
  operator_orange_id, operator_yas_id, ported_ranges, ported_scenarios, put_series, seed_historical,
  seed_numbers, seed_ported, seed_scenarios, seed_unported, unported_ranges, volumes_for,
}
use numflex_sandbox.Framework.Text.{pos}
use numflex_sandbox.Store.Keeps.{Stable}
use numflex_sandbox.Store.Runs.{
  Answers, IsOk, Reliable, Runs, Runs-bind, Runs-clock_now, Runs-if, Runs-map_error, Runs-pool,
  Runs-pure,
}
use numflex_sandbox.Store.Schema.{Db, has_operator}
use numflex_sandbox.Store.Session.{Env, World, ok}

module _ (env : Env) (days_before : ℕ → Time → Time) where
  -- The operators of the pool have their rows.
  abbrev pub Known : Db → Type 0
  Known d =
      (has_operator operator_orange_id d ≡ true)
      × (has_operator operator_yas_id d ≡ true)
      × (has_operator operator_expresso_id d ≡ true)

  abbrev AreKnown : Text → Text → Type 0
  AreKnown current origin =
      (d : Db) → Known d → (has_operator current d ≡ true) × (has_operator origin d ≡ true)

  -- The same of every operator of a list of ranges.
  abbrev AllKnown : List (ℕ × Text) → Type 0
  AllKnown [] = Unit
  AllKnown ((prefix, op) ∷ ranges) = AreKnown op op × AllKnown ranges

  abbrev BothKnown : List (ℕ × Text × Text) → Type 0
  BothKnown [] = Unit
  BothKnown ((prefix, current, origin) ∷ ranges) = AreKnown current origin × BothKnown ranges

  module _ (reliable : Reliable env) (stable : Stable env Known) where
    put_series-Answers :
        (s : Situation) (first size : ℕ) (d : Db)
        → AreKnown s.current s.origin
        → Known d
        → Answers (put_series s first size d) × Known (put_series s first size d).1
    put_series-Answers s first size d known p = rw (known d p).0 (rw (known d p).1 (tt, p))

    insert_range-Runs :
        (s : Situation) (first size : ℕ)
        → AreKnown s.current s.origin
        → first + size ≤ 1000000
        → Runs (Known) (insert_range env days_before s first size)
    unfolding insert_range
    insert_range-Runs s first zero known h = Runs-pure tt
    insert_range-Runs s first (suc size) known h =
        let fits : ltb max_per_range (first + suc size) ≡ false = ground (arith, h) in
        rw fits (
          Runs-bind _ _
            (Runs-map_error _ _ _ (Runs-pool env _ reliable stable (λ now d p. (tt, p))))
            (λ present. Runs-if present _ _ (Runs-pure tt) (
              Runs-map_error _ _ _ (
                Runs-pool env _ reliable stable
                  (λ now d p. put_series-Answers s first (suc size) d known p)))))

    unported-Runs :
        (v : Volumes) (ranges : List (ℕ × Text))
        → AllKnown ranges
        → v.orange_yas ≤ 1000000
        → v.expresso ≤ 1000000
        → Runs (Known) (seed_unported env days_before v ranges)
    unfolding seed_unported
    unported-Runs v [] known h k = Runs-pure tt
    unported-Runs v ((prefix, op) ∷ ranges) known h k =
        Runs-bind _ _ (insert_range-Runs _ 0 _ known.0 (ground (arith, h, k)))
          (λ _. unported-Runs v ranges known.1 h k)

    historical-Runs :
        (v : Volumes) (ranges : List (ℕ × Text))
        → AllKnown ranges
        → v.historical ≤ 1000000
        → Runs (Known) (seed_historical env days_before v ranges)
    unfolding seed_historical
    historical-Runs v [] known h = Runs-pure tt
    historical-Runs v ((prefix, op) ∷ ranges) known h =
        Runs-bind _ _ (insert_range-Runs _ 0 _ known.0 (omega (arith, h)))
          (λ _. historical-Runs v ranges known.1 h)

    scenarios-Runs :
        (v : Volumes) (prefix : ℕ) (current origin : Text) (n : ℕ) (scenarios : List (ℕ × Bool))
        → AreKnown current origin
        → v.ported_block ≡ 1000
        → n + length scenarios ≤ 1000
        → Runs (Known) (seed_scenarios env days_before v prefix current origin n scenarios)
    unfolding seed_scenarios
    scenarios-Runs v prefix current origin n [] known h k = Runs-pure tt
    scenarios-Runs v prefix current origin n ((days, returned) ∷ scenarios) known h k =
        Runs-bind _ _ (Runs-clock_now env) (λ now.
          Runs-bind _ _
            (insert_range-Runs _ (n * v.ported_block) v.ported_block known
              (rw h (omega (arith, k))))
            (λ _.
              scenarios-Runs v prefix current origin (suc n) scenarios known h (omega (arith, k))))

    ported-Runs :
        (v : Volumes) (ranges : List (ℕ × Text × Text))
        → BothKnown ranges
        → v.ported_block ≡ 1000
        → Runs (Known) (seed_ported env days_before v ranges)
    unfolding seed_ported
    ported-Runs v [] known h = Runs-pure tt
    ported-Runs v ((prefix, current, origin) ∷ ranges) known h =
        Runs-bind _ _
          (scenarios-Runs v prefix current origin 0 ported_scenarios known.0 h (omega arith))
          (λ _. ported-Runs v ranges known.1 h)

    at_home-Known :
        (p : ℕ) (op : Text) (rest : List (ℕ × Text))
        → AreKnown op op
        → AllKnown rest
        → AllKnown (eight p op ++ rest)
    at_home-Known p op rest h k = (h, (h, (h, (h, (h, (h, (h, (h, k))))))))

    unported_known : AllKnown unported_ranges
    unported_known =
        at_home-Known 770 operator_orange_id
          (eight 780 operator_yas_id ++ eight 710 operator_expresso_id) (λ d p. (p.0, p.0))
          (at_home-Known 780 operator_yas_id (eight 710 operator_expresso_id) (λ d p. (p.1, p.1))
            (at_home-Known 710 operator_expresso_id [] (λ d p. (p.2, p.2)) tt))

    historical_known : AllKnown historical_ranges
    historical_known = ((λ d p. (p.1, p.1)), ((λ d p. (p.2, p.2)), tt))

    ported_known : BothKnown ported_ranges
    ported_known = ((λ d p. (p.0, p.1)), ((λ d p. (p.1, p.0)), ((λ d p. (p.2, p.0)), tt)))

    numbers-Runs :
        (per_operator : ℕ)
        → per_operator ≤ 8 * 1000000
        → Runs (Known) (seed_numbers env days_before (volumes_for per_operator))
    unfolding seed_numbers volumes_for
    numbers-Runs per_operator h =
        Runs-bind _ _
          (unported-Runs _ unported_ranges unported_known (omega (arith, h)) (omega arith))
          (λ _.
            Runs-bind _ _ (historical-Runs _ historical_ranges historical_known (omega arith))
              (λ _. ported-Runs _ ported_ranges ported_known refl))

    -- Where the driver does not fail, and the three operators have their rows and keep them, the
    -- seeding returns with the pool of a configuration that
    -- loads: none of its ranges is refused for want of six digits.
    pub seed_numbers-IsOk :
        (variables : Variables) (c : Config) (per_operator : ℕ) (w : World)
        → load variables ≡ ok c
        → c.pool_per_operator ≡ pos per_operator
        → Known w.db
        → IsOk (seed_numbers env days_before (volumes_for per_operator) w)
    seed_numbers-IsOk variables c per_operator w loaded given known =
        let valid : IsValid c = subst Loads loaded (load-Loads variables) in
        let fits : IsPool (pos per_operator) = subst IsPool given valid.4 in
        ((numbers-Runs per_operator fits.1).at w known).0
