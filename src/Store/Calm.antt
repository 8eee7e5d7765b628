-- ===== src/Store/Calm.antt =====
-- Runs with no other session at work: each statement acts on the database as the last one left it.
use numflex_sandbox.Prelude.{ap, refl, ℕ, ◌+◌, ◌∙◌, ◌≡◌}
use numflex_sandbox.Entity.Errors.{GoError}
use numflex_sandbox.Store.Runs.{Reliable, statement-ok, unit_of_work-ok}
use numflex_sandbox.Store.Schema.{Db}
use numflex_sandbox.Store.Session.{
  Env, M, Querier, Statement, World, ok, pool, seen, statement, tx, unit_of_work,
}

-- No other session commits anything.
abbrev pub Calm : Env → Type 0
Calm env = (n : ℕ) (d : Db) → env.others n d ≡ d

module _ (env : Env) (reliable : Reliable env) (calm : Calm env) where
  pub seen-calm : (q : Querier) (w : World) → seen env q w ≡ w.db
  seen-calm pool w = calm w.calls w.db
  seen-calm tx w = refl

  pub statement-calm :
      {A : Type 0} (q : Querier) (run : Statement A) (w : World) (a : A) (d : Db)
      → run (env.db_clock w.calls) w.db ≡ (ok a, d)
      → statement env q run w ≡ (ok a, record w { db = d; calls = w.calls + 1 })
  statement-calm q run w a d e =
      statement-ok env reliable q run w a d
        (ap (λ x. run (env.db_clock w.calls) x) (seen-calm q w) ∙ e)

  pub unit_of_work-calm :
      {A : Type 0} (body : M GoError A) (w w' : World) (a : A)
      → body (record w { calls = w.calls + 1 }) ≡ (ok a, w')
      → unit_of_work env body w ≡ (ok a, record w' { calls = w'.calls + 1 })
  unit_of_work-calm body w w' a e =
      unit_of_work-ok env reliable body w w' a
        (ap (λ x. body (record w { db = x; calls = w.calls + 1 })) (calm w.calls w.db) ∙ e)
