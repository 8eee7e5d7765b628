-- ===== src/Framework/Seed/Pool.antt =====
-- The pool that a start installs (internal/framework/seed/seed.go).
use numflex_sandbox.Prelude.{
  Bool, Bool-cases, List, [], any, arith, false, find?, find?-append, inl, inr, keep, length,
  length-keep_append, length-keep_none, ltb, refl, some, subst, suc, zero, ℕ, ◌&&◌, ◌++◌, ◌+◌, ◌==◌,
  ◌||◌, ◌∙◌, ◌∷◌, ◌≡◌, ◌≤◌,
}
use numflex_sandbox.Entity.Request.{Text, Time}
use numflex_sandbox.Framework.Config.{max_per_range}
use numflex_sandbox.Framework.Seed.{
  Situation, Volumes, historical_ranges, insert_new, insert_range, insert_series, ported_ranges,
  ported_scenarios, put_series, seed_historical, seed_numbers, seed_ported, seed_scenarios,
  seed_unported, seeded_row, too_large, unported_ranges,
}
use numflex_sandbox.Gateway.Numbers.{is_number}
use numflex_sandbox.Store.Keeps.{
  Keeps, Keeps-bind, Keeps-clock_now, Keeps-if, Keeps-map_error, Keeps-pool, Keeps-pure,
  Keeps-raise, Stable,
}
use numflex_sandbox.Store.Schema.{Db, NumberRow, has_operator}
use numflex_sandbox.Store.Session.{Env}

-- A number that had no row has one afterwards, and the others as many as before.
one-more :
    (ns : List NumberRow) (x : NumberRow) (m : Text)
    → any (is_number x.msisdn) ns ≡ false
    → length (keep (is_number m) ns) ≤ 1
    → length (keep (is_number m) (ns ++ (x ∷ []))) ≤ 1
one-more ns x m e h = elim (Bool-cases (x.msisdn == m)) [
  | inl s ↦
      let same : x.msisdn ≡ m = ground (arith, s) in
      let none_yet =
        length-keep_none (is_number m) ns (subst (λ k. any (is_number k) ns ≡ false) same e) in
      ground (arith, none_yet, length-keep_append (is_number m) ns x)
  | inr s ↦ ground (arith, s, h, length-keep_append (is_number m) ns x)
]

-- A number has one row at most, and this one has this row.
abbrev pub Holds : NumberRow → Db → Type 0
Holds n d =
    ((m : Text) → length (keep (is_number m) d.numbers) ≤ 1)
    × (find? (is_number n.msisdn) d.numbers ≡ some n)

new-Holds :
    (n x : NumberRow) (d : Db) → Holds n d → Holds n (record d { numbers = insert_new x d.numbers })
new-Holds n x d h = elim (Bool-cases (any (is_number x.msisdn) d.numbers)) [
  | inl e ↦ rw e h
  | inr e ↦ rw e (
    (λ m. one-more d.numbers x m e (h.0 m)),
    find?-append (is_number n.msisdn) d.numbers x ∙ rw h.1 refl,
  )
]

module _ (env : Env) (days_before : ℕ → Time → Time) where
  module _ (P : Db → Type 0) (stable : Stable env P)
      (new : (n : NumberRow) (d : Db)
        → P d
        → P (record d { numbers = insert_new n d.numbers })) where
    series-Keeps :
        (s : Situation) (first size : ℕ) (d : Db)
        → P d
        → P (record d { numbers = insert_series s first size d.numbers })
    series-Keeps s first zero d p = p
    series-Keeps s first (suc size) d p =
        series-Keeps s (suc first) size
          (record d { numbers = insert_new (seeded_row s first) d.numbers })
          (new (seeded_row s first) d p)

    put_series-keeps :
        (s : Situation) (first size : ℕ) (d : Db) → P d → P (put_series s first size d).1
    put_series-keeps s first size d p =
        elim (Bool-cases (
          (has_operator s.current d && has_operator s.origin d)
          || length (insert_series s first size d.numbers) == length d.numbers)) [
            | inl e ↦ rw e (series-Keeps s first size d p)
            | inr e ↦ rw e p
          ]

    insert_range-Keeps :
        (s : Situation) (first size : ℕ) → Keeps P (insert_range env days_before s first size)
    unfolding insert_range
    insert_range-Keeps s first zero = Keeps-pure tt
    insert_range-Keeps s first (suc size) =
        Keeps-if (ltb max_per_range (first + suc size)) _ _ (Keeps-raise too_large) (
          Keeps-bind _ _ (Keeps-map_error _ _ (Keeps-pool env _ stable (λ now d p. p))) (λ present.
            Keeps-if present _ _ (Keeps-pure tt) (
              Keeps-map_error _ _
                (Keeps-pool env _ stable (λ now d p. put_series-keeps s first (suc size) d p)))))

    unported-Keeps :
        (v : Volumes) (ranges : List (ℕ × Text)) → Keeps P (seed_unported env days_before v ranges)
    unfolding seed_unported
    unported-Keeps v [] = Keeps-pure tt
    unported-Keeps v ((prefix, op) ∷ ranges) =
        Keeps-bind _ _ (insert_range-Keeps _ _ _) (λ _. unported-Keeps v ranges)

    historical-Keeps :
        (v : Volumes) (ranges : List (ℕ × Text))
        → Keeps P (seed_historical env days_before v ranges)
    unfolding seed_historical
    historical-Keeps v [] = Keeps-pure tt
    historical-Keeps v ((prefix, op) ∷ ranges) =
        Keeps-bind _ _ (insert_range-Keeps _ _ _) (λ _. historical-Keeps v ranges)

    scenarios-Keeps :
        (v : Volumes) (prefix : ℕ) (current origin : Text) (n : ℕ) (scenarios : List (ℕ × Bool))
        → Keeps P (seed_scenarios env days_before v prefix current origin n scenarios)
    unfolding seed_scenarios
    scenarios-Keeps v prefix current origin n [] = Keeps-pure tt
    scenarios-Keeps v prefix current origin n ((days, returned) ∷ scenarios) =
        Keeps-bind _ _ (Keeps-clock_now env) (λ now.
          Keeps-bind _ _ (insert_range-Keeps _ _ _)
            (λ _. scenarios-Keeps v prefix current origin (suc n) scenarios))

    ported-Keeps :
        (v : Volumes) (ranges : List (ℕ × Text × Text))
        → Keeps P (seed_ported env days_before v ranges)
    unfolding seed_ported
    ported-Keeps v [] = Keeps-pure tt
    ported-Keeps v ((prefix, current, origin) ∷ ranges) =
        Keeps-bind _ _ (scenarios-Keeps v prefix current origin 0 ported_scenarios)
          (λ _. ported-Keeps v ranges)

    pub numbers-Keeps : (v : Volumes) → Keeps P (seed_numbers env days_before v)
    unfolding seed_numbers
    numbers-Keeps v = Keeps-bind _ _ (unported-Keeps v unported_ranges) (λ _.
        Keeps-bind _ _ (historical-Keeps v historical_ranges) (λ _. ported-Keeps v ported_ranges))

  -- Where the other sessions leave it so, a start on a database that has numbers leaves each of them
  -- the row that it had, and no number gets a second row, whether the seeding succeeds or fails.
  pub seed_numbers-Holds :
      (v : Volumes) (n : NumberRow)
      → Stable env (Holds n)
      → Keeps (Holds n) (seed_numbers env days_before v)
  seed_numbers-Holds v n stable = numbers-Keeps (Holds n) stable (new-Holds n) v
