-- ===== src/Framework/Seed.antt =====
-- The pool of numbers (internal/framework/seed/seed.go). A number of nine digits is the number that
-- it writes: a prefix of three digits and a tail of six, which `lpad` fills with zeros. An operator's
-- identifier is the number that its hexadecimal digits write.
pub mod Pool
pub mod Filled
pub mod Reference
use numflex_sandbox.Prelude.{
  Bool, List, Option, [], any, false, if◌then◌else◌, length, ltb, none, some, suc, true, zero, ℕ,
  ◌&&◌, ◌*◌, ◌++◌, ◌+◌, ◌/◌, ◌==◌, ◌||◌, ◌∷◌,
}
use numflex_sandbox.Entity.Errors.{GoError, driver_error, plain, wrapped}
use numflex_sandbox.Entity.Fault.{lit}
use numflex_sandbox.Entity.Request.{Text, Time}
use numflex_sandbox.Framework.Config.{max_per_range, unported_ranges_per_operator}
use numflex_sandbox.Gateway.Numbers.{is_number}
use numflex_sandbox.Store.Schema.{Db, NumberRow, has_operator}
use numflex_sandbox.Store.Session.{
  Env, M, Outcome, clock_now, err, map_error, ok, pool, pure, raise, statement, ◌>>=◌, ◌>>◌,
}

-- `OperatorOrangeID`, `OperatorYASID`, `OperatorExpressoID`
abbrev pub operator_orange_id : Text
operator_orange_id = 0x6a21745ce6c37b5b5b487ec1

abbrev pub operator_yas_id : Text
operator_yas_id = 0x6a2174c3e6c37b5b5b487ec4

abbrev pub operator_expresso_id : Text
operator_expresso_id = 0x6a217510e6c37b5b5b487ec7

-- `Volumes`
pub record Volumes : Type 0 where
  pub orange_yas : ℕ
  pub expresso : ℕ
  pub historical : ℕ
  pub ported_block : ℕ

-- `fixedRangeSize`
abbrev pub fixed_range_size : ℕ
fixed_range_size = 1000

-- `VolumesFor`
unfoldable pub volumes_for : ℕ → Volumes
volumes_for per_operator = record {
  orange_yas = per_operator / unported_ranges_per_operator;
  expresso = fixed_range_size;
  historical = fixed_range_size;
  ported_block = fixed_range_size;
}

-- What the numbers of a range share.
pub record Situation : Type 0 where
  pub prefix : ℕ
  pub current : Text
  pub origin : Text
  pub porting : Option Time
  pub returned : Bool

-- `$1 || lpad(g::text, 6, '0')`, of a tail below a million
abbrev pub in_range : ℕ → ℕ → Text
in_range prefix tail = prefix * 1000000 + tail

abbrev pub seeded_row : Situation → ℕ → NumberRow
seeded_row s tail = record {
  msisdn = in_range s.prefix tail;
  current_operator_id = s.current;
  origin_operator_id = s.origin;
  last_porting_date = s.porting;
  already_restituted = s.returned;
}

-- `ON CONFLICT (msisdn) DO NOTHING`
abbrev pub insert_new : NumberRow → List NumberRow → List NumberRow
insert_new n ns = if any (is_number n.msisdn) ns then ns else ns ++ (n ∷ [])

-- the INSERT over `generate_series(first, last)`
abbrev pub insert_series : Situation → ℕ → ℕ → List NumberRow → List NumberRow
insert_series s first zero ns = ns
insert_series s first (suc size) ns =
    insert_series s (suc first) size (insert_new (seeded_row s first) ns)

-- The INSERT with its two foreign keys, which PostgreSQL tests for the rows that it writes.
abbrev pub put_series : Situation → ℕ → ℕ → Db → Outcome GoError (Unit {0}) × Db
put_series s first size d =
    let ns = insert_series s first size d.numbers in
    if (has_operator s.current d && has_operator s.origin d) || length ns == length d.numbers
    then (ok tt, record d { numbers = ns })
    else (err driver_error, d)

abbrev pub too_large : GoError
too_large = plain (lit "tranche : numéros dépassent la capacité" ∷ [])

abbrev pub seed_failed : GoError → GoError
seed_failed e = wrapped (lit "seed tranche : " ∷ []) e

-- `unportedRanges`: the prefixes 771 to 778, 781 to 788 and 711 to 718
abbrev pub eight : ℕ → Text → List (ℕ × Text)
eight p op =
    (p + 1, op)
    ∷ (p + 2, op)
    ∷ (p + 3, op)
    ∷ (p + 4, op)
    ∷ (p + 5, op)
    ∷ (p + 6, op)
    ∷ (p + 7, op)
    ∷ (p + 8, op)
    ∷ []

abbrev pub unported_ranges : List (ℕ × Text)
unported_ranges =
    eight 770 operator_orange_id ++ (eight 780 operator_yas_id ++ eight 710 operator_expresso_id)

-- `historicalRanges`
abbrev pub historical_ranges : List (ℕ × Text)
historical_ranges = (761, operator_yas_id) ∷ (701, operator_expresso_id) ∷ []

-- `portedRanges`: the prefix, the holder and the origin
abbrev pub ported_ranges : List (ℕ × Text × Text)
ported_ranges =
    (779, operator_orange_id, operator_yas_id)
    ∷ (789, operator_yas_id, operator_orange_id)
    ∷ (719, operator_expresso_id, operator_orange_id)
    ∷ []

-- `portedScenarios`: the days since the porting, and whether the number was returned
abbrev pub ported_scenarios : List (ℕ × Bool)
ported_scenarios = (30, false) ∷ (240, false) ∷ (60, false) ∷ (240, true) ∷ []

abbrev pub at_home : ℕ → Text → Situation
at_home prefix op = record {
  prefix = prefix;
  current = op;
  origin = op;
  porting = none;
  returned = false;
}

-- `days_before` is `AddDate(0, 0, -days)` of an instant.
module _ (env : Env) (days_before : ℕ → Time → Time) where
  -- `insertRange`
  unfoldable pub insert_range : Situation → ℕ → ℕ → M GoError (Unit {0})
  insert_range s first zero = pure tt
  insert_range s first (suc size) =
      if ltb max_per_range (first + suc size) then raise too_large else (do
        present ← map_error seed_failed (
            statement env pool
              (λ now d. (ok (any (is_number (in_range s.prefix (first + size))) d.numbers), d)))
        if present
            then pure tt
            else map_error seed_failed
                (statement env pool (λ now d. put_series s first (suc size) d)))

  -- the first loop of `seedNumbers`
  unfoldable pub seed_unported : Volumes → List (ℕ × Text) → M GoError (Unit {0})
  seed_unported v [] = pure tt
  seed_unported v ((prefix, op) ∷ ranges) = do
    insert_range (at_home prefix op) 0
        (if op == operator_expresso_id then v.expresso else v.orange_yas)
    seed_unported v ranges

  -- the second loop
  unfoldable pub seed_historical : Volumes → List (ℕ × Text) → M GoError (Unit {0})
  seed_historical v [] = pure tt
  seed_historical v ((prefix, op) ∷ ranges) = do
    insert_range (at_home prefix op) 0 v.historical
    seed_historical v ranges

  -- the inner loop of the third, from the block `n`
  unfoldable pub seed_scenarios :
      Volumes → ℕ → Text → Text → ℕ → List (ℕ × Bool) → M GoError (Unit {0})
  seed_scenarios v prefix current origin n [] = pure tt
  seed_scenarios v prefix current origin n ((days, returned) ∷ scenarios) = do
    now ← clock_now env
    insert_range
        (record {
          prefix = prefix;
          current = current;
          origin = origin;
          porting = some (days_before days now);
          returned = returned;
        })
        (n * v.ported_block) v.ported_block
    seed_scenarios v prefix current origin (suc n) scenarios

  -- the third loop
  unfoldable pub seed_ported : Volumes → List (ℕ × Text × Text) → M GoError (Unit {0})
  seed_ported v [] = pure tt
  seed_ported v ((prefix, current, origin) ∷ ranges) = do
    seed_scenarios v prefix current origin 0 ported_scenarios
    seed_ported v ranges

  -- `seedNumbers`
  unfoldable pub seed_numbers : Volumes → M GoError (Unit {0})
  seed_numbers v = do
    seed_unported v unported_ranges
    seed_historical v historical_ranges
    seed_ported v ported_ranges
