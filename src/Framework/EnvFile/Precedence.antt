-- ===== src/Framework/EnvFile/Precedence.antt =====
-- The environment wins over the file (internal/framework/config/env.go).
use numflex_sandbox.Prelude.{
  Bool, Bool-cases, List, [], ap, arith, inl, inr, refl, true, ℕ, ◌∙◌, ◌∷◌, ◌≡◌,
}
use numflex_sandbox.Framework.EnvFile.{
  EnvError, Environment, File, assign, continue, env_file_path, is_given, load_env_file, load_from,
  load_lines, missing, opened, parse_line, scanned, unreadable,
}
use numflex_sandbox.Framework.Text.{same_text}
use numflex_sandbox.Store.Session.{Outcome, err, ok}

pub same_text-eq : (xs ys : List ℕ) → same_text xs ys ≡ true → xs ≡ ys
same_text-eq [] [] h = refl
same_text-eq [] (y ∷ ys) h = cc
same_text-eq (x ∷ xs) [] h = cc
same_text-eq (x ∷ xs) (y ∷ ys) h = ground (arith, h, same_text-eq xs ys)

assign-given :
    (a : List ℕ × List ℕ) (env : Environment) (k : List ℕ)
    → is_given (env k) ≡ true
    → assign a env k ≡ env k
assign-given ([], value) env k h = refl
assign-given (c ∷ key, value) env k h = elim (Bool-cases (is_given (env (c ∷ key)))) [
  | inl e ↦ rw e refl
  | inr e ↦ elim (Bool-cases (same_text (c ∷ key) k)) [
    | inl s ↦
        let same = ap (λ x. is_given (env x)) (same_text-eq (c ∷ key) k s) in
        let absurd : ⊥ = ground (arith, h, e, same) in elim absurd [ ]
    | inr s ↦ rw e (rw s refl)
  ]
]

continue-given :
    (x : Outcome EnvError (List ℕ × List ℕ)) (env : Environment) (k : List ℕ)
    (next : Environment → Outcome EnvError (Unit {0}) × Environment)
    → is_given (env k) ≡ true
    → ((env' : Environment) → is_given (env' k) ≡ true → (next env').1 k ≡ env' k)
    → (continue x env next).1 k ≡ env k
continue-given (ok a) env k next h step =
    let same = assign-given a env k h in step (assign a env) (ap is_given same ∙ h) ∙ same
continue-given (err e) env k next h step = refl

load_lines-given :
    (lines : List (List ℕ)) (env : Environment) (k : List ℕ)
    → is_given (env k) ≡ true
    → (load_lines lines env).1 k ≡ env k
load_lines-given [] env k h = refl
load_lines-given (line ∷ lines) env k h =
    continue-given (parse_line line) env k (load_lines lines) h
      (λ env' h'. load_lines-given lines env' k h')

load_from-given :
    (explicit : Bool) (file : File) (env : Environment) (k : List ℕ)
    → is_given (env k) ≡ true
    → (load_from explicit file env).1 k ≡ env k
load_from-given explicit (opened lines failed) env k h =
    go (load_lines lines env) (load_lines-given lines env k h)
  where
    go :
        (x : Outcome EnvError (Unit {0}) × Environment)
        → x.1 k ≡ env k
        → (scanned failed x).1 k ≡ env k
    go (ok a, env') e = e
    go (err x, env') e = e
load_from-given explicit missing env k h = refl
load_from-given explicit unreadable env k h = refl

-- Whatever files there are, a variable that the environment sets to something keeps its value when
-- the environment file is loaded, whether or not that succeeds.
pub load_env_file-given :
    (files : List ℕ → File) (env : Environment) (k : List ℕ)
    → is_given (env k) ≡ true
    → (load_env_file files env).1 k ≡ env k
unfolding load_env_file
load_env_file-given files env k h =
    load_from-given (env_file_path env).1 (files (env_file_path env).0) env k h
