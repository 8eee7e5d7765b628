-- ===== src/Framework/Config.antt =====
-- The configuration (internal/framework/config/config.go). A `time.Duration` is its 64-bit pattern.
pub mod Bounds
use numflex_sandbox.Prelude.{
  Bool, List, Option, String, [], false, if◌then◌else◌, ltb, none, not, some, true, ℕ, ◌%◌, ◌&&◌,
  ◌*◌, ◌+◌, ◌^◌, ◌∷◌,
}
use numflex_sandbox.Framework.Text.{atoi, codes, negsuc, parse_bool, pos, same_text, ℤ}
use numflex_sandbox.Store.Session.{Outcome, err, ok}

-- The errors of `Load`, each with the variable that it names.
pub data ConfigError : Type 0 where
  integer_expected boolean_expected is_negative_value : String → ConfigError
  database_url_required unknown_fidelity convergence_reversed pool_too_small pool_too_large :
      ConfigError
  tick_not_positive : ConfigError

-- `os.LookupEnv`
abbrev pub Variables : Type 0
Variables = String → Option (List ℕ)

-- `seed.UnportedRangesPerOperator`, `seed.MaxPerRange`
abbrev pub unported_ranges_per_operator : ℕ
unported_ranges_per_operator = 8

abbrev pub max_per_range : ℕ
max_per_range = 1000000

-- `DefaultPoolPerOperator`
abbrev pub default_pool_per_operator : ℕ
default_pool_per_operator = 800000

-- `Config`
pub record Config : Type 0 where
  pub port : List ℕ
  pub database_url : List ℕ
  pub jwt_secret : List ℕ
  pub jwt_ttl : ℕ
  pub fidelity : List ℕ
  pub step_timeout : ℕ
  pub engine_tick : ℕ
  pub convergence_min : ℕ
  pub convergence_max : ℕ
  pub completion_latency : ℕ
  pub clock_skew : ℕ
  pub otp_static_code : List ℕ
  pub otp_ttl : ℕ
  pub otp_max_attempts : ℤ
  pub reverse_auto_validation : ℕ
  pub docs : Bool
  pub docs_dir : List ℕ
  pub pool_per_operator : ℤ
  pub full_numbers : Bool

infixl 5 ◌>>=◌
abbrev ◌>>=◌ :
    {A B : Type 0} → Outcome ConfigError A → (A → Outcome ConfigError B) → Outcome ConfigError B
ok a >>= f = f a
err e >>= f = err e

abbrev or_default : Option (List ℕ) → List ℕ → List ℕ
or_default none def = def
or_default (some []) def = def
or_default (some (c ∷ v)) def = c ∷ v

abbrev integer : String → Option ℤ → Outcome ConfigError ℤ
integer key none = err (integer_expected key)
integer key (some n) = ok n

abbrev truth : String → Option Bool → Outcome ConfigError Bool
truth key none = err (boolean_expected key)
truth key (some b) = ok b

abbrev pub given_num : String → Option (List ℕ) → ℕ → Outcome ConfigError ℤ
given_num key none def = ok (pos def)
given_num key (some []) def = ok (pos def)
given_num key (some (c ∷ v)) def = integer key (atoi (c ∷ v))

abbrev given_boolean : String → Option (List ℕ) → Bool → Outcome ConfigError Bool
given_boolean key none def = ok def
given_boolean key (some []) def = ok def
given_boolean key (some (c ∷ v)) def = truth key (parse_bool (c ∷ v))

-- `time.Duration(n) * unit`, which wraps around
abbrev pub scaled : String → ℕ → Outcome ConfigError ℤ → Outcome ConfigError ℕ
scaled key unit (ok (pos n)) = ok (n * unit % 2 ^ 64)
scaled key unit (ok (negsuc n)) = err (is_negative_value key)
scaled key unit (err e) = err e

-- the order of durations
abbrev pub is_shorter : ℕ → ℕ → Bool
is_shorter a b = ltb ((a + 2 ^ 63) % 2 ^ 64) ((b + 2 ^ 63) % 2 ^ 64)

-- the order of `int`
abbrev pub is_less : ℤ → ℕ → Bool
is_less (pos n) m = ltb n m
is_less (negsuc n) m = true

abbrev pub is_more : ℤ → ℕ → Bool
is_more (pos n) m = ltb m n
is_more (negsuc n) m = false

-- the time units of `Load`, in nanoseconds
abbrev pub hours : ℕ
hours = 3600000000000

abbrev pub seconds : ℕ
seconds = 1000000000

abbrev pub milliseconds : ℕ
milliseconds = 1000000

-- the checks that end `Load`
unfoldable pub validate : Config → Outcome ConfigError Config
validate c =
    if same_text c.database_url []
    then err database_url_required
    else if not (same_text c.fidelity (codes "real"))
        && not (same_text c.fidelity (codes "contract"))
    then err unknown_fidelity
    else if is_shorter c.convergence_max c.convergence_min
    then err convergence_reversed
    else if is_less c.pool_per_operator unported_ranges_per_operator
    then err pool_too_small
    else if is_more c.pool_per_operator (unported_ranges_per_operator * max_per_range)
    then err pool_too_large
    else if not (is_shorter 0 c.engine_tick)
    then err tick_not_positive
    else ok c

abbrev pub validated : Outcome ConfigError Config → Outcome ConfigError Config
validated (ok c) = validate c
validated (err e) = err e

module _ (env : Variables) where
  -- `str`
  unfoldable pub str : String → String → List ℕ
  str key def = or_default (env key) (codes def)

  -- `num`
  unfoldable pub num : String → ℕ → Outcome ConfigError ℤ
  num key def = given_num key (env key) def

  -- `boolean`
  unfoldable pub boolean : String → Bool → Outcome ConfigError Bool
  boolean key def = given_boolean key (env key) def

  -- `dur`
  unfoldable pub dur : String → ℕ → ℕ → Outcome ConfigError ℕ
  dur key def unit = scaled key unit (num key def)

  -- the part of `Load` that reads the variables
  unfoldable pub read_config : Outcome ConfigError Config
  read_config = do
    jwt_ttl ← dur "JWT_TTL_HOURS" 24 hours
    step_timeout ← dur "STEP_TIMEOUT_SECONDS" 349 seconds
    engine_tick ← dur "ENGINE_TICK_SECONDS" 10 seconds
    convergence_min ← dur "CONVERGENCE_MIN_SECONDS" 0 seconds
    convergence_max ← dur "CONVERGENCE_MAX_SECONDS" 0 seconds
    completion_latency ← dur "COMPLETION_LATENCY_MS" 30500 milliseconds
    clock_skew ← dur "CLOCK_SKEW_SECONDS" 540 seconds
    otp_ttl ← dur "OTP_TTL_SECONDS" 300 seconds
    reverse_auto_validation ← dur "REVERSE_AUTO_VALIDATION_SECONDS" 0 seconds
    otp_max_attempts ← num "OTP_MAX_ATTEMPTS" 3
    full_numbers ← boolean "FULL_NUMBERS" false
    pool_per_operator ← num "POOL_NUMBERS_PER_OPERATOR" (
        if full_numbers
        then unported_ranges_per_operator * max_per_range
        else default_pool_per_operator)
    docs ← boolean "DOCS_ENABLED" true
    ok (record {
      port = str "PORT" "8080";
      database_url = str "DATABASE_URL" "";
      jwt_secret = str "JWT_SECRET" "numflex-sandbox-dev-secret";
      jwt_ttl = jwt_ttl;
      fidelity = str "FIDELITY" "real";
      step_timeout = step_timeout;
      engine_tick = engine_tick;
      convergence_min = convergence_min;
      convergence_max = convergence_max;
      completion_latency = completion_latency;
      clock_skew = clock_skew;
      otp_static_code = str "OTP_STATIC_CODE" "123456";
      otp_ttl = otp_ttl;
      otp_max_attempts = otp_max_attempts;
      reverse_auto_validation = reverse_auto_validation;
      docs = docs;
      docs_dir = str "DOCS_DIR" "docs";
      pool_per_operator = pool_per_operator;
      full_numbers = full_numbers;
    })

  -- `Load`
  unfoldable pub load : Outcome ConfigError Config
  load = validated read_config
