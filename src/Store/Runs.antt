-- ===== src/Store/Runs.antt =====
-- Programs that return: where the driver does not fail, a program returns if each of its statements
-- answers, under a predicate of the database that every part keeps.
use numflex_sandbox.Prelude.{Bool, ap, false, if◌then◌else◌, refl, true, ℕ, ◌+◌, ◌∙◌, ◌≡◌}
use numflex_sandbox.Entity.Errors.{GoError}
use numflex_sandbox.Entity.Request.{Time}
use numflex_sandbox.Store.Outcomes.{OnOk, begun}
use numflex_sandbox.Store.Schema.{Db}
use numflex_sandbox.Store.Session.{
  Env, M, Outcome, Querier, Statement, World, clock_now, commit, err, map_error, now_written, ok,
  pool, pure, seen, statement, tx, unit_of_work, ◌>>=◌,
}

abbrev pub IsOk : {E A : Type 0} → Outcome E A × World → Type 0
IsOk (ok a, w) = Unit
IsOk (err e, w) = ⊥

-- A run that returns satisfies its postcondition.
pub OnOk-IsOk :
    {E A : Type 0} (x : Outcome E A × World) (P : Db → Type 0) → IsOk x → OnOk x (λ _. P) → P x.1.db
OnOk-IsOk (ok a, w) P h p = p
OnOk-IsOk (err e, w) P h p = elim h [ ]

-- The same of one statement.
abbrev pub Answers : {A : Type 0} → Outcome GoError A × Db → Type 0
Answers (ok a, d) = Unit
Answers (err e, d) = ⊥

-- The driver never fails.
abbrev pub Reliable : Env → Type 0
Reliable env = (n : ℕ) → env.fails n ≡ false

-- From a database that satisfies the predicate, the program returns, and keeps the predicate.
pub record Runs {E A : Type 0} (P : Db → Type 0) (m : M E A) : Type 0 where
  pub at : (w : World) → P w.db → IsOk (m w) × P (m w).1.db

module _ {E A B : Type 0} {P : Db → Type 0} where
  bind-Runs :
      (x : Outcome E A × World) (f : A → M E B)
      → IsOk x × P x.1.db
      → ((a : A) → Runs P (f a))
      → (let y = elim x.0 as (λ _. Outcome E B × World) [ ok a ↦ f a x.1 | err e ↦ (err e, x.1) ] in
          IsOk y × P y.1.db)
  bind-Runs (ok a, w) f h k = (k a).at w h.1
  bind-Runs (err e, w) f h k = elim h.0 [ ]

  pub Runs-bind :
      (m : M E A) (f : A → M E B) → Runs P m → ((a : A) → Runs P (f a)) → Runs P (m >>= f)
  unfolding ◌>>=◌
  Runs-bind m f h k = record { at = λ w p. bind-Runs (m w) f (h.at w p) k }

module _ {E A B : Type 0} where
  bound-IsOk :
      (x : Outcome E A × World) (f : A → M E B) (Q : A → Db → Type 0)
      → IsOk x
      → OnOk x Q
      → ((a : A) (w' : World) → Q a w'.db → IsOk (f a w'))
      → IsOk (elim x.0 as (λ _. Outcome E B × World) [ ok a ↦ f a x.1 | err e ↦ (err e, x.1) ])
  bound-IsOk (ok a, w) f Q h q k = k a w q
  bound-IsOk (err e, w) f Q h q k = elim h [ ]

  -- The rest of a block returns from what its first call establishes.
  pub bind-IsOk :
      (m : M E A) (f : A → M E B) (w : World) (Q : A → Db → Type 0)
      → IsOk (m w)
      → OnOk (m w) Q
      → ((a : A) (w' : World) → Q a w'.db → IsOk (f a w'))
      → IsOk ((m >>= f) w)
  unfolding ◌>>=◌
  bind-IsOk m f w Q h q k = bound-IsOk (m w) f Q h q k

module _ {E A : Type 0} {P : Db → Type 0} where
  pub Runs-pure : (a : A) → Runs {E = E} P (pure a)
  unfolding pure
  Runs-pure a = record { at = λ w p. (tt, p) }

  pub Runs-if : (b : Bool) (m n : M E A) → Runs P m → Runs P n → Runs P (if b then m else n)
  Runs-if true m n h k = h
  Runs-if false m n h k = k

module _ {A : Type 0} (P : Db → Type 0) where
  answered :
      (x : Outcome GoError A × Db) (n : ℕ) (w : World)
      → Answers x
      → P x.1
      → IsOk (x.0, record w { db = x.1; calls = n }) × P x.1
  answered (ok a, d) n w h p = (tt, p)
  answered (err e, d) n w h p = elim h [ ]

module _ (env : Env) {A : Type 0} where
  committed :
      (start : Db) (x : Outcome GoError A × World)
      → Reliable env
      → IsOk x
      → IsOk (commit env start x)
  committed start (ok a, w) reliable h = rw (reliable w.calls) tt
  committed start (err e, w) reliable h = h

module _ (env : Env) {A : Type 0} where
  pub Runs-tx :
      {P : Db → Type 0} (run : Statement A)
      → Reliable env
      → ((now : Time) (d : Db) → P d → Answers (run now d) × P (run now d).1)
      → Runs P (statement env tx run)
  unfolding statement
  Runs-tx {P = P} run reliable h = record {
    at = λ w p.
        let k = h (env.db_clock w.calls) w.db p in
        rw (reliable w.calls)
          (answered P (run (env.db_clock w.calls) w.db) (w.calls + 1) w k.0 k.1);
  }

  -- A transaction returns if its body does from the database of its beginning.
  pub unit_of_work-IsOk :
      (body : M GoError A) (w : World)
      → Reliable env
      → ((w' : World) → w'.db ≡ env.others w.calls w.db → IsOk (body w'))
      → IsOk (unit_of_work env body w)
  unfolding unit_of_work
  unit_of_work-IsOk body w reliable h =
      rw (reliable w.calls) (
        committed env (env.others w.calls w.db) (body (begun env w)) reliable
          (h (begun env w) refl))

module _ (env : Env) {E : Type 0} {P : Db → Type 0} where
  pub Runs-now_written : Runs P (now_written env {E = E})
  unfolding now_written
  Runs-now_written = record { at = λ w p. (tt, p) }

pub ruleset runs_rules = (Runs-bind, Runs-pure, Runs-if, Runs-now_written)

-- One step of a run that is known.
module _ {E A B : Type 0} where
  pub bind-ok :
      (m : M E A) (f : A → M E B) (w w' : World) (a : A) → m w ≡ (ok a, w') → (m >>= f) w ≡ f a w'
  unfolding ◌>>=◌
  bind-ok m f w w' a e =
      ap (λ x. elim x.0 as (λ _. Outcome E B × World) [ ok a ↦ f a x.1 | err e ↦ (err e, x.1) ]) e

  pub bind-err :
      (m : M E A) (f : A → M E B) (w w' : World) (e : E)
      → m w ≡ (err e, w')
      → (m >>= f) w ≡ (err e, w')
  unfolding ◌>>=◌
  bind-err m f w w' e p =
      ap (λ x. elim x.0 as (λ _. Outcome E B × World) [ ok a ↦ f a x.1 | err e ↦ (err e, x.1) ]) p

module _ {E F A : Type 0} where
  pub map_error-err :
      (f : E → F) (m : M E A) (w w' : World) (e : E)
      → m w ≡ (err e, w')
      → map_error f m w ≡ (err (f e), w')
  unfolding map_error
  map_error-err f m w w' e p =
      ap
        (λ x. elim x.0 as (λ _. Outcome F A × World) [
          | ok a ↦ (ok a, x.1)
          | err e ↦ (err (f e), x.1)
        ])
        p

  pub map_error-ok :
      (f : E → F) (m : M E A) (w w' : World) (a : A)
      → m w ≡ (ok a, w')
      → map_error f m w ≡ (ok a, w')
  unfolding map_error
  map_error-ok f m w w' a e =
      ap
        (λ x. elim x.0 as (λ _. Outcome F A × World) [
          | ok a ↦ (ok a, x.1)
          | err e ↦ (err (f e), x.1)
        ])
        e

-- A statement of a reliable driver.
pub statement-eq :
    (env : Env) {A : Type 0} (q : Querier) (run : Statement A) (w : World)
    → Reliable env
    → let x = run (env.db_clock w.calls) (seen env q w) in
      statement env q run w ≡ (x.0, record w { db = x.1; calls = w.calls + 1 })
unfolding statement
statement-eq env q run w reliable = rw (reliable w.calls) refl

module _ (env : Env) (reliable : Reliable env) {A : Type 0} where
  pub statement-ok :
      (q : Querier) (run : Statement A) (w : World) (a : A) (d : Db)
      → run (env.db_clock w.calls) (seen env q w) ≡ (ok a, d)
      → statement env q run w ≡ (ok a, record w { db = d; calls = w.calls + 1 })
  statement-ok q run w a d e =
      statement-eq env q run w reliable
      ∙ ap (λ x. (x.0, record w { db = x.1; calls = w.calls + 1 })) e

  pub unit_of_work-ok :
      (body : M GoError A) (w w' : World) (a : A)
      → body (begun env w) ≡ (ok a, w')
      → unit_of_work env body w ≡ (ok a, record w' { calls = w'.calls + 1 })
  unfolding unit_of_work
  unit_of_work-ok body w w' a e = rw (reliable w.calls) (rw e (rw (reliable w'.calls) refl))

  -- A transaction whose body fails leaves the database of its beginning.
  pub unit_of_work-err :
      (body : M GoError A) (w w' : World) (e : GoError)
      → body (begun env w) ≡ (err e, w')
      → unit_of_work env body w ≡ (err e, record w' { db = env.others w.calls w.db })
  unfolding unit_of_work
  unit_of_work-err body w w' e h = rw (reliable w.calls) (rw h refl)

-- A statement on the pool, where the other sessions keep the predicate too.
pub Runs-pool :
    (env : Env) {A : Type 0} {P : Db → Type 0} (run : Statement A)
    → Reliable env
    → ((n : ℕ) (d : Db) → P d → P (env.others n d))
    → ((now : Time) (d : Db) → P d → Answers (run now d) × P (run now d).1)
    → Runs P (statement env pool run)
unfolding statement
Runs-pool env {P = P} run reliable stable h = record {
  at = λ w p.
      let d = env.others w.calls w.db in
      let k = h (env.db_clock w.calls) d (stable w.calls w.db p) in
      rw (reliable w.calls) (answered P (run (env.db_clock w.calls) d) (w.calls + 1) w k.0 k.1);
}

-- A statement that always answers.
pub Runs-statement :
    (env : Env) {A : Type 0} (q : Querier) (run : Statement A)
    → Reliable env
    → ((now : Time) (d : Db) → Answers (run now d))
    → Runs (λ _. Unit {0}) (statement env q run)
unfolding statement
Runs-statement env q run reliable h = record {
  at = λ w p.
      let d = seen env q w in
      rw (reliable w.calls) (
        answered (λ _. Unit {0}) (run (env.db_clock w.calls) d) (w.calls + 1) w
          (h (env.db_clock w.calls) d) tt);
}

module _ {E F A : Type 0} (P : Db → Type 0) where
  mapped :
      (f : E → F) (x : Outcome E A × World)
      → IsOk x × P x.1.db
      → let y = (elim x.0 as (λ _. Outcome F A × World) [
        | ok a ↦ (ok a, x.1)
        | err e ↦ (err (f e), x.1)
      ]) in
        IsOk y × P y.1.db
  mapped f (ok a, w) h = h
  mapped f (err e, w) h = h

  pub Runs-map_error : (f : E → F) (m : M E A) → Runs P m → Runs P (map_error f m)
  unfolding map_error
  Runs-map_error f m h = record { at = λ w p. mapped f (m w) (h.at w p) }

pub Runs-clock_now : (env : Env) {E : Type 0} {P : Db → Type 0} → Runs P (clock_now env {E = E})
unfolding clock_now
Runs-clock_now env = record { at = λ w p. (tt, p) }
