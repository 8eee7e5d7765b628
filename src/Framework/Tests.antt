-- ===== src/Framework/Tests.antt =====
-- Identifiers, the configuration and the seed at concrete values.
use numflex_sandbox.Prelude.{
  ==_iff, List, [], arith, false, if◌then◌else◌, length, map, none, refl, some, suc, true, zero, ℕ,
  ◌*◌, ◌+◌, ◌-◌, ◌==◌, ◌∷◌, ◌≡◌, ◌≢◌,
}
use numflex_sandbox.Entity.Request.{Text}
use numflex_sandbox.Framework.Config.{
  Config, Variables, boolean, dur, hours, is_shorter, load, milliseconds, num, read_config, seconds,
  str, validate,
}
use numflex_sandbox.Framework.Config.Bounds.{Loads, dur-padded, load-Loads}
use numflex_sandbox.Framework.EnvFile.{Environment, File, opened, parse_line, valid_key}
use numflex_sandbox.Framework.EnvFile.Quoted.{parse_line-quoted, quoted}
use numflex_sandbox.Framework.Folders.{FileSystem, migrations_dir, resolve_docs_dir}
use numflex_sandbox.Framework.Folders.Nearest.{resolve_docs_dir-nearest}
use numflex_sandbox.Framework.Identifier.{Process, after, object_id}
use numflex_sandbox.Framework.Identifier.Distinct.{AreBytes, object_id-distinct}
use numflex_sandbox.Framework.Seed.{
  operator_expresso_id, operator_orange_id, operator_yas_id, seed_numbers, volumes_for,
}
use numflex_sandbox.Framework.Seed.Filled.{seed_numbers-IsOk}
use numflex_sandbox.Framework.Seed.Pool.{Holds, seed_numbers-Holds}
use numflex_sandbox.Framework.Seed.Reference.{
  run_seed, seeded_incident_types, seeded_operators, seeded_processes, seeded_reasons,
  seeded_request_types,
}
use numflex_sandbox.Framework.Seed.Reference.Restart.{
  IsInstalled, SameReference, run_seed-SameReference,
}
use numflex_sandbox.Framework.Text.{atoi, codes, parse_bool, pos, same_text}
use numflex_sandbox.Store.Keeps.{Keeps}
use numflex_sandbox.Store.Runs.{IsOk}
use numflex_sandbox.Store.Schema.{Db, IncidentTypeRow, NumberRow, OperatorRow}
use numflex_sandbox.Store.Session.{Env, World, alone, ok}

abbrev process : Process
process = record { process_bytes = 1 ∷ 2 ∷ 3 ∷ 4 ∷ 255 ∷ []; counter = 4294967295 }

process-AreBytes : AreBytes process.process_bytes
process-AreBytes = (omega arith, (omega arith, (omega arith, (omega arith, (omega arith, tt)))))

object_id-distinct_example :
    (object_id 1758000000 process).0
    ≢ (object_id 1758000000
        (after (1758000000 ∷ 1758000000 ∷ []) (object_id 1758000000 process).1)).0
object_id-distinct_example =
    object_id-distinct 1758000000 1758000000 (1758000000 ∷ 1758000000 ∷ []) process process-AreBytes
      (omega arith) (omega arith)

-- Only the database is given, and a pool.
abbrev variables : Variables
variables key =
    if same_text (codes key) (codes "DATABASE_URL")
    then some (codes "postgres://db")
    else if same_text (codes key) (codes "POOL_NUMBERS_PER_OPERATOR")
    then some (codes "16")
    else if same_text (codes key) (codes "STEP_TIMEOUT_SECONDS")
    then some (codes "0042")
    else none

abbrev loaded : Config
loaded = record {
  port = codes "8080";
  database_url = codes "postgres://db";
  jwt_secret = codes "numflex-sandbox-dev-secret";
  jwt_ttl = 24 * hours;
  fidelity = codes "real";
  step_timeout = 42 * seconds;
  engine_tick = 10 * seconds;
  convergence_min = 0;
  convergence_max = 0;
  completion_latency = 30500 * milliseconds;
  clock_skew = 540 * seconds;
  otp_static_code = codes "123456";
  otp_ttl = 300 * seconds;
  otp_max_attempts = pos 3;
  reverse_auto_validation = 0;
  docs = true;
  docs_dir = codes "docs";
  pool_per_operator = pos 16;
  full_numbers = false;
}

load-variables : load variables ≡ ok loaded
unfolding load read_config validate str num dur boolean atoi parse_bool
load-variables = refl

load-Loads_example : Loads (load variables)
load-Loads_example = load-Loads variables

dur-padded_example : dur variables "STEP_TIMEOUT_SECONDS" 349 seconds ≡ ok (42 * seconds)
dur-padded_example =
    dur-padded variables "STEP_TIMEOUT_SECONDS" 349 seconds 3 42 (omega arith) (omega arith)
      (omega arith) refl

-- The product wraps around: a step time-out of 9223372037 seconds is a negative duration.
dur_wraps :
    dur (λ key. some (codes "9223372037")) "STEP_TIMEOUT_SECONDS" 349 seconds
    ≡ ok 9223372037000000000
unfolding dur num atoi
dur_wraps = refl

is_shorter_wraps : is_shorter 9223372037000000000 0 ≡ true
is_shorter_wraps = refl

-- The environment sets PORT.
abbrev port_given : Environment
port_given key = if same_text key (codes "PORT") then some (codes "9090") else none

abbrev files : List ℕ → File
files path = opened (codes "PORT=1" ∷ codes "DEBUG='#1'" ∷ codes "=" ∷ []) false

abbrev empty_world : World
empty_world = record {
  db = record {
    operators = [];
    rejection_reasons = [];
    request_types = [];
    processes = [];
    incident_types = [];
    numbers = [];
    requests = [];
    request_numbers = [];
    clients = [];
    history = [];
    confirmations = [];
    otps = [];
    reverses = [];
    incidents = [];
  };
  calls = 0;
  written = [];
}

abbrev steady : Env
steady = alone (λ n. false) (λ n. n) (λ n. n) (λ n. n)

abbrev named_row : Text → OperatorRow
named_row id = record { id = id; name = id; routing_prefix = 0 }

-- The three operators of the pool, and no number.
abbrev with_operators : World
with_operators = record empty_world {
  db = record empty_world.db {
    operators =
        named_row operator_orange_id
        ∷ named_row operator_yas_id
        ∷ named_row operator_expresso_id
        ∷ [];
  };
}

seed_numbers-IsOk_example :
    IsOk (seed_numbers steady (λ days now. now - days) (volumes_for 16) with_operators)
seed_numbers-IsOk_example =
    seed_numbers-IsOk steady (λ days now. now - days) (λ n. refl) (λ n d p. p) variables loaded 16
      with_operators load-variables refl (refl, refl, refl)

abbrev kept : NumberRow
kept = record {
  msisdn = 771000000;
  current_operator_id = operator_yas_id;
  origin_operator_id = operator_orange_id;
  last_porting_date = some 7;
  already_restituted = false;
}

seed_numbers-Holds_example :
    Keeps (Holds kept) (seed_numbers steady (λ days now. now - days) (volumes_for 16))
seed_numbers-Holds_example =
    seed_numbers-Holds steady (λ days now. now - days) (volumes_for 16) kept (λ n d p. p)

abbrev parent_of : ℕ → ℕ
parent_of zero = zero
parent_of (suc n) = n

-- Directories by their depth; the folder 100 stands in the directory 1.
abbrev depths : FileSystem
depths = record {
  FilePath = ℕ;
  working_directory = some 3;
  is_dir = λ p. p == 101;
  is_abs = λ p. false;
  is_empty = λ p. false;
  join = λ dir name. dir + name;
  parent = parent_of;
  same_path = ◌==◌;
  same_path_iff = ==_iff;
}

-- The folder of the parent directory's parent is found, and no folder 200.
resolve_docs_dir-nearest_example :
    (resolve_docs_dir depths 100 ≡ some 101) × (migrations_dir depths 200 ≡ none)
resolve_docs_dir-nearest_example = resolve_docs_dir-nearest depths 100 200 3 refl refl refl

abbrev number_of : List ℕ → Text
number_of cs = length cs

-- The rows that a first start installs, one of them renamed since.
abbrev installed_db : Db
installed_db = record empty_world.db {
  operators = seeded_operators number_of;
  rejection_reasons = seeded_reasons number_of;
  request_types = seeded_request_types number_of;
  processes = seeded_processes number_of;
  incident_types =
      map {A = IncidentTypeRow} (λ t. record t { label = 7 }) (seeded_incident_types number_of);
}

number_of-IsInstalled : IsInstalled number_of installed_db
unfolding seeded_operators seeded_reasons seeded_request_types seeded_processes
    seeded_incident_types
number_of-IsInstalled = (
  (refl, (refl, (refl, tt))),
  (refl, (refl, (refl, (refl, (refl, (refl, tt)))))),
  (refl, (refl, (refl, tt))),
  (refl, (refl, tt)),
  (refl, (refl, tt)),
)

run_seed-SameReference_example :
    Keeps (SameReference installed_db) (run_seed number_of steady (λ days t. t) (volumes_for 8))
run_seed-SameReference_example =
    run_seed-SameReference number_of steady installed_db (λ n d p. p) (λ days t. t) (volumes_for 8)
      number_of-IsInstalled

parse_line-quoted_example :
    parse_line (quoted (codes "PORT") (codes "a #b='c\\")) ≡ ok (codes "PORT", codes "a #b='c\\")
unfolding valid_key
parse_line-quoted_example = parse_line-quoted (codes "PORT") (codes "a #b='c\\") refl
