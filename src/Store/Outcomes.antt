-- ===== src/Store/Outcomes.antt =====
-- Postconditions of programs against the database, one rule for each way to build a program.
-- `OnOk` speaks of the runs that return no error; that a run can return one is the driver's doing.
use numflex_sandbox.Prelude.{Bool, Bool-cases, false, if◌then◌else◌, inl, inr, refl, true, ◌+◌, ◌≡◌}
use numflex_sandbox.Entity.Errors.{GoError, driver_error}
use numflex_sandbox.Entity.Request.{Text, Time}
use numflex_sandbox.Store.Schema.{Db}
use numflex_sandbox.Store.Session.{
  Env, M, Outcome, Querier, Statement, World, clock_now, commit, err, map_error, new_id,
  now_written, ok, pure, raise, seen, statement, unit_of_work, ◌>>=◌,
}

abbrev pub OnOk : {E A : Type 0} → Outcome E A × World → (A → Db → Type 0) → Type 0
OnOk (ok a, w) P = P a w.db
OnOk (err e, w) P = Unit

-- Of a run that returns an error.
abbrev pub OnErr : {E A : Type 0} → Outcome E A × World → (Db → Type 0) → Type 0
OnErr (ok a, w) P = Unit
OnErr (err e, w) P = P w.db

module _ {E A B : Type 0} where
  bind_ok :
      (x : Outcome E A × World) (f : A → M E B) (Q : A → Db → Type 0) (P : B → Db → Type 0)
      → OnOk x Q
      → ((a : A) (w' : World) → Q a w'.db → OnOk (f a w') P)
      → OnOk (elim x.0 as (λ _. Outcome E B × World) [ ok a ↦ f a x.1 | err e ↦ (err e, x.1) ]) P
  bind_ok (ok a, w) f Q P h k = k a w h
  bind_ok (err e, w) f Q P h k = tt

  -- The rest of a block runs from what its first call establishes.
  pub OnOk-bind :
      (m : M E A) (f : A → M E B) (w : World) (Q : A → Db → Type 0) (P : B → Db → Type 0)
      → OnOk (m w) Q
      → ((a : A) (w' : World) → Q a w'.db → OnOk (f a w') P)
      → OnOk ((m >>= f) w) P
  unfolding ◌>>=◌
  OnOk-bind m f w Q P h k = bind_ok (m w) f Q P h k

module _ {E A : Type 0} where
  pub OnOk-mono :
      (x : Outcome E A × World) (P Q : A → Db → Type 0)
      → OnOk x P
      → ((a : A) (d : Db) → P a d → Q a d)
      → OnOk x Q
  OnOk-mono (ok a, w) P Q h k = k a w.db h
  OnOk-mono (err e, w) P Q h k = tt

module _ {E F A : Type 0} where
  map_ok :
      (f : E → F) (x : Outcome E A × World) (P : A → Db → Type 0)
      → OnOk x P
      → OnOk
          (elim x.0 as (λ _. Outcome F A × World) [ ok a ↦ (ok a, x.1) | err e ↦ (err (f e), x.1) ])
          P
  map_ok f (ok a, w) P h = h
  map_ok f (err e, w) P h = tt

  pub OnOk-map_error :
      (f : E → F) (m : M E A) (w : World) (P : A → Db → Type 0)
      → OnOk (m w) P
      → OnOk (map_error f m w) P
  unfolding map_error
  OnOk-map_error f m w P h = map_ok f (m w) P h

pub OnOk-pure :
    (E : Type 0) {A : Type 0} (a : A) (w : World) (P : A → Db → Type 0)
    → P a w.db
    → OnOk (pure {E = E} a w) P
unfolding pure
OnOk-pure E a w P h = h

module _ {E A : Type 0} where
  pub OnOk-raise : (e : E) (w : World) (P : A → Db → Type 0) → OnOk (raise {A = A} e w) P
  unfolding raise
  OnOk-raise e w P = tt

  pub OnOk-if :
      (b : Bool) (m n : M E A) (w : World) (P : A → Db → Type 0)
      → (b ≡ true → OnOk (m w) P)
      → (b ≡ false → OnOk (n w) P)
      → OnOk ((if b then m else n) w) P
  OnOk-if true m n w P h k = h refl
  OnOk-if false m n w P h k = k refl

-- The world in which the body of a transaction runs.
abbrev pub begun : Env → World → World
begun env w = record w { db = env.others w.calls w.db; calls = w.calls + 1 }

module _ (env : Env) {A : Type 0} where
  -- One statement: what it does to the database that the session sees.
  pub OnOk-statement :
      (q : Querier) (run : Statement A) (w : World) (P : A → Db → Type 0)
      → ((now : Time) (a : A) → (run now (seen env q w)).0 ≡ ok a → P a (run now (seen env q w)).1)
      → OnOk (statement env q run w) P
  unfolding statement
  OnOk-statement q run w P h =
      go (env.fails w.calls) (run (env.db_clock w.calls) (seen env q w)) (h (env.db_clock w.calls))
    where
      go :
          (failed : Bool) (x : Outcome GoError A × Db)
          → ((a : A) → x.0 ≡ ok a → P a x.1)
          → OnOk
              (if failed
                then (err driver_error, record w { db = seen env q w; calls = w.calls + 1 })
                else (x.0, record w { db = x.1; calls = w.calls + 1 }))
              P
      go true x k = tt
      go false (ok a, d) k = k a refl
      go false (err e, d) k = tt

  commit_ok :
      (start : Db) (x : Outcome GoError A × World) (P : A → Db → Type 0)
      → OnOk x P
      → OnOk (commit env start x) P
  commit_ok start (ok a, w) P h = elim (Bool-cases (env.fails w.calls)) [
    | inl e ↦ rw e tt
    | inr e ↦ rw e h
  ]
  commit_ok start (err e, w) P h = tt

  commit_err :
      (start : Db) (x : Outcome GoError A × World) → OnErr (commit env start x) (λ d. d ≡ start)
  commit_err start (ok a, w) = elim (Bool-cases (env.fails w.calls)) [
    | inl e ↦ rw e refl
    | inr e ↦ rw e tt
  ]
  commit_err start (err e, w) = refl

  -- A transaction that returns has done what its body did to the database of its beginning.
  pub OnOk-unit_of_work :
      (body : M GoError A) (w : World) (P : A → Db → Type 0)
      → ((w' : World) → w'.db ≡ env.others w.calls w.db → OnOk (body w') P)
      → OnOk (unit_of_work env body w) P
  unfolding unit_of_work
  OnOk-unit_of_work body w P h = elim (Bool-cases (env.fails w.calls)) [
    | inl e ↦ rw e tt
    | inr e ↦
        rw e (commit_ok (env.others w.calls w.db) (body (begun env w)) P (h (begun env w) refl))
  ]

  -- A transaction that fails, at any of its statements or at its end, has changed nothing.
  pub OnErr-unit_of_work :
      (body : M GoError A) (w : World)
      → OnErr (unit_of_work env body w) (λ d. d ≡ env.others w.calls w.db)
  unfolding unit_of_work
  OnErr-unit_of_work body w = elim (Bool-cases (env.fails w.calls)) [
    | inl e ↦ rw e refl
    | inr e ↦ rw e (commit_err (env.others w.calls w.db) (body (begun env w)))
  ]

module _ (env : Env) (E : Type 0) where
  -- The clock and the identifiers leave the database alone.
  pub OnOk-now_written :
      (w : World) (P : Time → Db → Type 0)
      → ((now : Time) → P now w.db)
      → OnOk (now_written env {E = E} w) P
  unfolding now_written
  OnOk-now_written w P h = h (env.clock w.calls)

  pub OnOk-new_id :
      (w : World) (P : Text → Db → Type 0)
      → ((id : Text) → P id w.db)
      → OnOk (new_id env {E = E} w) P
  unfolding new_id
  OnOk-new_id w P h = h (env.fresh w.calls)

  pub OnOk-clock_now :
      (w : World) (P : Time → Db → Type 0)
      → ((now : Time) → P now w.db)
      → OnOk (clock_now env {E = E} w) P
  unfolding clock_now
  OnOk-clock_now w P h = h (env.clock w.calls)

-- What holds of the database whether the run returns or fails.
pub OnOk-OnErr :
    {E A : Type 0} (x : Outcome E A × World) (P : Db → Type 0)
    → OnOk x (λ _. P)
    → OnErr x P
    → P x.1.db
OnOk-OnErr (ok a, w) P h k = h
OnOk-OnErr (err e, w) P h k = k

pub OnErr-mono :
    {E A : Type 0} (x : Outcome E A × World) (P Q : Db → Type 0)
    → OnErr x P
    → ((d : Db) → P d → Q d)
    → OnErr x Q
OnErr-mono (ok a, w) P Q h k = tt
OnErr-mono (err e, w) P Q h k = k w.db h

-- Nothing is asked of the run.
pub OnOk-any : {E A : Type 0} (x : Outcome E A × World) → OnOk x (λ _ _. Unit {0})
OnOk-any (ok a, w) = tt
OnOk-any (err e, w) = tt
