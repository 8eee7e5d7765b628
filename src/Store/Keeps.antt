-- ===== src/Store/Keeps.antt =====
-- What a program leaves alone: a predicate of the database that it keeps, whether it returns or
-- fails, one rule for each way to build a program.
use numflex_sandbox.Prelude.{
  Bool, Bool-cases, Option, false, if◌then◌else◌, inl, inr, none, some, true, ℕ,
}
use numflex_sandbox.Entity.Errors.{GoError}
use numflex_sandbox.Entity.Fault.{Fault}
use numflex_sandbox.Entity.Request.{Time}
use numflex_sandbox.Store.Outcomes.{OnOk, begun}
use numflex_sandbox.Store.Schema.{Db}
use numflex_sandbox.Store.Session.{
  Env, M, Outcome, Statement, World, check, clock_now, commit, err, map_error, new_id, now_written,
  ok, pool, pure, raise, require, statement, tx, unit_of_work, ◌>>=◌,
}

pub record Keeps {E A : Type 0} (P : Db → Type 0) (m : M E A) : Type 0 where
  pub at : (w : World) → P w.db → P (m w).1.db

-- The other sessions keep the predicate too.
abbrev pub Stable : Env → (Db → Type 0) → Type 0
Stable env P = (n : ℕ) (d : Db) → P d → P (env.others n d)

module _ {E A B : Type 0} {P : Db → Type 0} where
  bind_keeps :
      (x : Outcome E A × World) (f : A → M E B)
      → P x.1.db
      → ((a : A) → Keeps P (f a))
      → P (elim x.0 as (λ _. Outcome E B × World) [ ok a ↦ f a x.1 | err e ↦ (err e, x.1) ]).1.db
  bind_keeps (ok a, w) f h k = (k a).at w h
  bind_keeps (err e, w) f h k = h

  pub Keeps-bind :
      (m : M E A) (f : A → M E B) → Keeps P m → ((a : A) → Keeps P (f a)) → Keeps P (m >>= f)
  unfolding ◌>>=◌
  Keeps-bind m f h k = record { at = λ w p. bind_keeps (m w) f (h.at w p) k }

module _ {E A : Type 0} {P : Db → Type 0} where
  pub Keeps-pure : (a : A) → Keeps {E = E} P (pure a)
  unfolding pure
  Keeps-pure a = record { at = λ w p. p }

  pub Keeps-raise : (e : E) → Keeps {A = A} P (raise e)
  unfolding raise
  Keeps-raise e = record { at = λ w p. p }

  pub Keeps-if : (b : Bool) (m n : M E A) → Keeps P m → Keeps P n → Keeps P (if b then m else n)
  Keeps-if true m n h k = h
  Keeps-if false m n h k = k

module _ {E F A : Type 0} (P : Db → Type 0) where
  map_keeps :
      (f : E → F) (x : Outcome E A × World)
      → P x.1.db
      → P
          (elim x.0 as (λ _. Outcome F A × World) [
            | ok a ↦ (ok a, x.1)
            | err e ↦ (err (f e), x.1)
          ]).1.db
  map_keeps f (ok a, w) h = h
  map_keeps f (err e, w) h = h

module _ {E F A : Type 0} {P : Db → Type 0} where
  pub Keeps-map_error : (f : E → F) (m : M E A) → Keeps P m → Keeps P (map_error f m)
  unfolding map_error
  Keeps-map_error f m h = record { at = λ w p. map_keeps P f (m w) (h.at w p) }

module _ {A : Type 0} {P : Db → Type 0} where
  pub Keeps-require : (o : Option A) (f : Fault) → Keeps P (require o f)
  Keeps-require none f = Keeps-raise f
  Keeps-require (some a) f = Keeps-pure a

module _ {P : Db → Type 0} where
  pub Keeps-check : (o : Option Fault) → Keeps P (check o)
  Keeps-check none = Keeps-pure tt
  Keeps-check (some f) = Keeps-raise f

module _ (env : Env) {A : Type 0} (P : Db → Type 0) where
  commit_keeps :
      (start : Db) (x : Outcome GoError A × World)
      → P start
      → P x.1.db
      → P (commit env start x).1.db
  commit_keeps start (ok a, w) p q = elim (Bool-cases (env.fails w.calls)) [
    | inl e ↦ rw e p
    | inr e ↦ rw e q
  ]
  commit_keeps start (err e, w) p q = p

module _ (env : Env) {A : Type 0} {P : Db → Type 0} where
  -- A statement in a transaction.
  pub Keeps-tx :
      (run : Statement A)
      → ((now : Time) (d : Db) → P d → P (run now d).1)
      → Keeps P (statement env tx run)
  unfolding statement
  Keeps-tx run h = record {
    at = λ w p. elim (Bool-cases (env.fails w.calls)) [
      | inl e ↦ rw e p
      | inr e ↦ rw e (h (env.db_clock w.calls) w.db p)
    ];
  }

  -- A statement on the pool, after which the other sessions may have written.
  pub Keeps-pool :
      (run : Statement A)
      → Stable env P
      → ((now : Time) (d : Db) → P d → P (run now d).1)
      → Keeps P (statement env pool run)
  unfolding statement
  Keeps-pool run s h = record {
    at = λ w p. elim (Bool-cases (env.fails w.calls)) [
      | inl e ↦ rw e (s w.calls w.db p)
      | inr e ↦ rw e (h (env.db_clock w.calls) (env.others w.calls w.db) (s w.calls w.db p))
    ];
  }

  -- A transaction: its body keeps the predicate, and so does its rollback.
  pub Keeps-unit_of_work :
      (body : M GoError A) → Stable env P → Keeps P body → Keeps P (unit_of_work env body)
  unfolding unit_of_work
  Keeps-unit_of_work body s h = record {
    at = λ w p.
        let q = s w.calls w.db p in
        elim (Bool-cases (env.fails w.calls)) [
          | inl e ↦ rw e q
          | inr e ↦ rw e (
              commit_keeps env P (env.others w.calls w.db) (body (begun env w)) q
                (h.at (begun env w) q))
        ];
  }

module _ (env : Env) {E : Type 0} {P : Db → Type 0} where
  pub Keeps-now_written : Keeps P (now_written env {E = E})
  unfolding now_written
  Keeps-now_written = record { at = λ w p. p }

  pub Keeps-clock_now : Keeps P (clock_now env {E = E})
  unfolding clock_now
  Keeps-clock_now = record { at = λ w p. p }

  pub Keeps-new_id : Keeps P (new_id env {E = E})
  unfolding new_id
  Keeps-new_id = record { at = λ w p. p }

pub ruleset keeps_rules = (
  Keeps-bind, Keeps-pure, Keeps-raise, Keeps-if, Keeps-map_error, Keeps-require, Keeps-check,
  Keeps-unit_of_work, Keeps-now_written, Keeps-clock_now, Keeps-new_id,
)

-- What a program keeps holds where it returns.
module _ {E A : Type 0} (P : Db → Type 0) where
  weaken : (x : Outcome E A × World) → P x.1.db → OnOk x (λ _. P)
  weaken (ok a, w) q = q
  weaken (err e, w) q = tt

  pub OnOk-Keeps : (m : M E A) (w : World) → Keeps P m → P w.db → OnOk (m w) (λ _. P)
  OnOk-Keeps m w k p = weaken (m w) (k.at w p)
