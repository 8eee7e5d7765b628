-- ===== src/Framework/EnvFile.antt =====
-- The .env file and the startup arguments (internal/framework/config/env.go), on character codes.
pub mod Precedence
pub mod Quoted
use numflex_sandbox.Prelude.{
  Bool, List, Option, [], false, if◌then◌else◌, leb, none, some, true, ℕ, ◌&&◌, ◌==◌, ◌||◌, ◌∷◌,
}
use numflex_sandbox.Framework.Text.{
  codes, cut, has_prefix, is_digit, same_text, trim_prefix, trim_space,
}
use numflex_sandbox.Store.Session.{Outcome, err, ok}

pub data EnvError : Type 0 where
  assignment_expected invalid_name unknown_argument path_expected file_unreadable scan_failed :
      EnvError

-- the characters of `validKey`
abbrev pub is_alpha : ℕ → Bool
is_alpha c = c == 95 || (leb 97 c && leb c 122) || (leb 65 c && leb c 90)

abbrev pub are_key_characters : List ℕ → Bool
are_key_characters [] = true
are_key_characters (c ∷ cs) = (is_alpha c || is_digit c) && are_key_characters cs

-- `validKey`
unfoldable pub valid_key : List ℕ → Bool
valid_key [] = false
valid_key (c ∷ cs) = is_alpha c && are_key_characters cs

-- the replacer of `unquote`
abbrev pub escaped : ℕ → Option ℕ
escaped c =
    if c == 110
    then some 10
    else if c == 114
    then some 13
    else if c == 116
    then some 9
    else if c == 34
    then some 34
    else if c == 92
    then some 92
    else none

abbrev pub replaced : ℕ → Option ℕ → List ℕ → List ℕ → List ℕ
replaced c none from_next after_next = c ∷ from_next
replaced c (some e) from_next after_next = if c == 92 then e ∷ after_next else c ∷ from_next

abbrev pub unescape : List ℕ → List ℕ
unescape [] = []
unescape (c ∷ []) = c ∷ []
unescape (c ∷ d ∷ cs) =
    let from_next = unescape (d ∷ cs) in
    let after_next = unescape cs in replaced c (escaped d) from_next after_next

-- the text without its last character, and that character
abbrev pub split_last : ℕ → List ℕ → List ℕ × ℕ
split_last c [] = ([], c)
split_last c (d ∷ ds) = let (before, last) = split_last d ds in (c ∷ before, last)

-- `unquote`
unfoldable pub unquote : List ℕ → List ℕ
unquote [] = []
unquote (c ∷ []) = c ∷ []
unquote (c ∷ d ∷ cs) =
    let (inner, last) = split_last d cs in
    if c == 39 && last == 39
    then inner
    else if c == 34 && last == 34
    then unescape inner
    else c ∷ d ∷ cs

abbrev pub assignment : Option (List ℕ × List ℕ) → Outcome EnvError (List ℕ × List ℕ)
assignment none = err assignment_expected
assignment (some (key, value)) =
    if valid_key (trim_space key)
    then ok (trim_space key, unquote (trim_space value))
    else err invalid_name

-- `parseAssignment`
unfoldable pub parse_assignment : List ℕ → Outcome EnvError (List ℕ × List ℕ)
parse_assignment s = assignment (cut s)

-- `parseLine` of a trimmed line; the empty key for blank lines and comments
abbrev pub parse_trimmed : List ℕ → Outcome EnvError (List ℕ × List ℕ)
parse_trimmed l =
    if same_text l [] || has_prefix (codes "#") l
    then ok ([], [])
    else parse_assignment (trim_prefix (codes "export ") l)

-- `parseLine`
unfoldable pub parse_line : List ℕ → Outcome EnvError (List ℕ × List ℕ)
parse_line line = parse_trimmed (trim_space line)

-- The environment of the process.
abbrev pub Environment : Type 0
Environment = List ℕ → Option (List ℕ)

-- `os.Setenv`
abbrev pub setenv : List ℕ → List ℕ → Environment → Environment
setenv key value env k = if same_text key k then some value else env k

-- `v, ok := os.LookupEnv(key); ok && v != ""`
abbrev pub is_given : Option (List ℕ) → Bool
is_given none = false
is_given (some []) = false
is_given (some (c ∷ v)) = true

-- what the loop of `LoadEnvFile` does with an assignment
abbrev pub assign : List ℕ × List ℕ → Environment → Environment
assign ([], value) env = env
assign (c ∷ key, value) env = if is_given (env (c ∷ key)) then env else setenv (c ∷ key) value env

-- The loop of `LoadEnvFile`: on an error, what the lines before it set stays set.
abbrev pub continue :
    Outcome EnvError (List ℕ × List ℕ)
    → Environment
    → (Environment → Outcome EnvError (Unit {0}) × Environment)
    → Outcome EnvError (Unit {0}) × Environment
continue (ok a) env k = k (assign a env)
continue (err e) env k = (err e, env)

abbrev pub load_lines : List (List ℕ) → Environment → Outcome EnvError (Unit {0}) × Environment
load_lines [] env = (ok tt, env)
load_lines (line ∷ lines) env = continue (parse_line line) env (load_lines lines)

abbrev or_empty_path : Option (List ℕ) → List ℕ
or_empty_path none = []
or_empty_path (some v) = v

-- `EnvFilePath`
unfoldable pub env_file_path : Environment → List ℕ × Bool
env_file_path env =
    if is_given (env (codes "ENV_FILE"))
    then (or_empty_path (env (codes "ENV_FILE")), true)
    else (codes ".env", false)

-- What the file system answers: the lines and whether the scanner then fails, or an error of
-- `os.Open`.
pub data File : Type 0 where
  opened : List (List ℕ) → Bool → File
  missing unreadable : File

-- `return sc.Err()`
abbrev pub scanned :
    Bool → Outcome EnvError (Unit {0}) × Environment → Outcome EnvError (Unit {0}) × Environment
scanned failed (err e, env) = (err e, env)
scanned failed (ok a, env) = (if failed then err scan_failed else ok a, env)

abbrev pub load_from : Bool → File → Environment → Outcome EnvError (Unit {0}) × Environment
load_from explicit (opened lines failed) env = scanned failed (load_lines lines env)
load_from explicit missing env = (if explicit then err file_unreadable else ok tt, env)
load_from explicit unreadable env = (err file_unreadable, env)

-- `LoadEnvFile`; `os.Setenv` is taken to accept what the lines set
unfoldable pub load_env_file :
    (List ℕ → File) → Environment → Outcome EnvError (Unit {0}) × Environment
load_env_file files env =
    let (path, explicit) = env_file_path env in load_from explicit (files path) env

-- an argument that is neither a flag nor in error
abbrev apply_assignment :
    Outcome EnvError (List ℕ × List ℕ)
    → Environment
    → (Environment → Outcome EnvError (Unit {0}) × Environment)
    → Outcome EnvError (Unit {0}) × Environment
apply_assignment (ok (key, value)) env next = next (setenv key value env)
apply_assignment (err e) env next = (err e, env)

-- an argument other than `--env-file`
abbrev apply_argument :
    List ℕ
    → Environment
    → (Environment → Outcome EnvError (Unit {0}) × Environment)
    → Outcome EnvError (Unit {0}) × Environment
apply_argument arg env next =
    if has_prefix (codes "--env-file=") arg
    then next (setenv (codes "ENV_FILE") (trim_prefix (codes "--env-file=") arg) env)
    else if has_prefix (codes "-") arg
    then (err unknown_argument, env)
    else apply_assignment (parse_assignment arg) env next

-- `ApplyArguments`
unfoldable pub apply_arguments :
    List (List ℕ) → Environment → Outcome EnvError (Unit {0}) × Environment
apply_arguments [] env = (ok tt, env)
apply_arguments (arg ∷ []) env =
    if same_text arg (codes "--env-file")
    then (err path_expected, env)
    else apply_argument arg env (λ env'. (ok tt, env'))
apply_arguments (arg ∷ x ∷ args) env =
    let skipped = apply_arguments args (setenv (codes "ENV_FILE") x env) in
    let others = apply_argument arg env (apply_arguments (x ∷ args)) in
    if same_text arg (codes "--env-file") then skipped else others
