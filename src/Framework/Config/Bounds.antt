-- ===== src/Framework/Config/Bounds.antt =====
-- What a configuration that loads promises (internal/framework/config/config.go).
use numflex_sandbox.Prelude.{
  List, String, [], ap, arith, false, refl, some, subst, suc, sym, true, zero, ℕ, ◌%◌, ◌*◌, ◌++◌,
  ◌+◌, ◌-◌, ◌/◌, ◌<◌, ◌^◌, ◌||◌, ◌∙◌, ◌∷◌, ◌≡◌, ◌≤◌,
}
use numflex_sandbox.Controller.Instant.{padded}
use numflex_sandbox.Framework.Config.{
  Config, ConfigError, Variables, dur, given_num, is_less, is_more, is_shorter, load, num,
  read_config, scaled, validate, validated,
}
use numflex_sandbox.Framework.Text.{atoi, codes, digits, is_digit, negsuc, pos, same_text, ℤ}
use numflex_sandbox.Store.Session.{Outcome, err, ok}

-- The pool fits in the eight ranges of an operator, at least one number in each.
abbrev pub IsPool : ℤ → Type 0
IsPool (pos n) = (8 ≤ n) × (n ≤ 8 * 1000000)
IsPool (negsuc n) = ⊥

-- What the rest of the program relies on.
abbrev pub IsValid : Config → Type 0
IsValid c =
    (same_text c.database_url [] ≡ false)
    × ((same_text c.fidelity (codes "real") || same_text c.fidelity (codes "contract")) ≡ true)
    × (is_shorter c.convergence_max c.convergence_min ≡ false)
    × ((0 < c.engine_tick % 2 ^ 64) × (c.engine_tick % 2 ^ 64 < 2 ^ 63))
    × IsPool c.pool_per_operator

tick-positive : (t : ℕ) → is_shorter 0 t ≡ true → (0 < t % 2 ^ 64) × (t % 2 ^ 64 < 2 ^ 63)
tick-positive t h = ground (arith, h)

IsPool-fits : (n : ℤ) → is_less n 8 ≡ false → is_more n 8000000 ≡ false → IsPool n
IsPool-fits (pos n) h k = ground (arith, h, k)
IsPool-fits (negsuc n) h k = ground (arith, h)

-- A validated configuration is returned as it is.
abbrev Validated : Config → Outcome ConfigError Config → Type 0
Validated c (ok c') = (c' ≡ c) × IsValid c
Validated c (err e) = Unit

validate-Validated : (c : Config) → Validated c (validate c)
unfolding validate
validate-Validated c = ground (arith, tick-positive c.engine_tick, IsPool-fits c.pool_per_operator)

abbrev pub Loads : Outcome ConfigError Config → Type 0
Loads (ok c) = IsValid c
Loads (err e) = Unit

-- A configuration that loads names a database and one of the two modes, its convergence window is
-- not reversed, its tick is a positive signed 64-bit number, and its pool lies between one number
-- and a full range for each of the eight ranges of an operator.
pub load-Loads : (env : Variables) → Loads (load env)
unfolding load
load-Loads env = go (read_config env)
  where
    loads : (c : Config) (x : Outcome ConfigError Config) → Validated c x → Loads x
    loads c (ok c') h = subst IsValid (sym h.0) h.1
    loads c (err e) h = tt

    go : (x : Outcome ConfigError Config) → Loads (validated x)
    go (ok c) = loads c (validate c) (validate-Validated c)
    go (err e) = tt

digits-snoc :
    (xs : List ℕ) (c acc k : ℕ)
    → is_digit c ≡ true
    → digits xs acc ≡ some k
    → digits (xs ++ (c ∷ [])) acc ≡ some (k * 10 + (c - 48))
digits-snoc [] c acc k h e = ground (arith, h, e)
digits-snoc (x ∷ xs) c acc k h e = ground (arith, e, digits-snoc xs c (acc * 10 + (x - 48)) k h)

digits-padded : (w n : ℕ) → n < 10 ^ w → digits (padded w n) 0 ≡ some n
digits-padded zero n h = let e : n ≡ 0 = omega (arith, h) in rw e refl
digits-padded (suc w) n h =
    digits-snoc (padded w (n / 10)) (48 + n % 10) 0 (n / 10) (ground arith)
      (digits-padded w (n / 10) (omega (arith, h)))
    ∙ ap some (omega arith)

given_num-snoc :
    (key : String) (xs : List ℕ) (c def k : ℕ)
    → digits (xs ++ (c ∷ [])) 0 ≡ some k
    → k < 2 ^ 63
    → given_num key (some (xs ++ (c ∷ []))) def ≡ ok (pos k)
unfolding atoi
given_num-snoc key [] c def k e h = ground (arith, e, h)
given_num-snoc key (x ∷ xs) c def k e h = ground (arith, e, h)

-- A setting in whole units, written in decimal digits with or without leading zeros, is read as that
-- many nanoseconds, as long as they fit in a signed 64-bit duration.
pub dur-padded :
    (env : Variables) (key : String) (def unit w n : ℕ)
    → n < 10 ^ suc w
    → 0 < unit
    → n * unit < 2 ^ 63
    → env key ≡ some (padded (suc w) n)
    → dur env key def unit ≡ ok (n * unit)
unfolding dur num
dur-padded env key def unit w n h u fits e =
    let small : n < 2 ^ 63 = grind (arith, u, fits) in
    ap (λ x. scaled key unit (given_num key x def)) e
    ∙ ap (scaled key unit) (
        given_num-snoc key (padded w (n / 10)) (48 + n % 10) def n (digits-padded (suc w) n h)
          small)
    ∙ ap ok (omega (arith, fits))
