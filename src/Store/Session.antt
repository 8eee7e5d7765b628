-- ===== src/Store/Session.antt =====
-- How a use case runs: the database, the driver's failures, the clocks, the other transactions, and
-- `port.UnitOfWork` (internal/framework/persistence/unit_of_work.go).
-- Each access to the database has a number, `calls`, by which the environment is consulted: whether
-- the driver fails it, what the clocks show, and what other sessions commit just before it.
-- A transaction is taken to run isolated: other sessions commit before it begins or after it ends.
use numflex_sandbox.Prelude.{Bool, List, Option, [], if◌then◌else◌, none, some, ℕ, ◌++◌, ◌+◌, ◌∷◌}
use numflex_sandbox.Entity.Errors.{GoError, driver_error, fault_from, wrapped}
use numflex_sandbox.Entity.Fault.{Fault, Message, internal_error, lit}
use numflex_sandbox.Entity.Request.{Text, Time}
use numflex_sandbox.Store.Schema.{Db}

pub data Outcome (E A : Type 0) : Type 0 where
  ok : A → Outcome E A
  err : E → Outcome E A

-- What the program does not implement: PostgreSQL's failures and sessions, the clocks of both
-- machines, the parsing of dates, and the identifiers of `port.IDGenerator`.
pub record Env : Type 0 where
  pub fails : ℕ → Bool
  pub clock : ℕ → Time
  pub db_clock : ℕ → Time
  pub fresh : ℕ → Text
  pub others : ℕ → Db → Db
  -- how PostgreSQL reads a text as a DATE, shown in the ISO form; nothing where it is not one
  pub date_of : Text → Option Text

-- The database as this session sees it, the accesses so far, and the request's written timestamps.
pub record World : Type 0 where
  pub db : Db
  pub calls : ℕ
  pub written : List Time

abbrev pub M : Type 0 → Type 0 → Type 0
M E A = World → Outcome E A × World

module _ {E A : Type 0} where
  unfoldable pub pure : A → M E A
  pure a w = (ok a, w)

  unfoldable pub raise : E → M E A
  raise e w = (err e, w)

infixl 5 ◌>>=◌ ◌>>◌
unfoldable pub ◌>>=◌ : {E A B : Type 0} → M E A → (A → M E B) → M E B
◌>>=◌ m f w = let (r, w') = m w in elim r [ ok a ↦ f a w' | err e ↦ (err e, w') ]

abbrev pub ◌>>◌ : {E B : Type 0} → M E (Unit {0}) → M E B → M E B
m >> k = m >>= λ _. k

-- What becomes of an error.
unfoldable pub map_error : {E F A : Type 0} → (E → F) → M E A → M F A
map_error f m w = let (r, w') = m w in elim r [ ok a ↦ (ok a, w') | err e ↦ (err (f e), w') ]

-- `if f := check; f != nil { return f }`
abbrev pub check : Option Fault → M Fault (Unit {0})
check none = pure tt
check (some f) = raise f

-- `if !found { return f }`
abbrev pub require : {A : Type 0} → Option A → Fault → M Fault A
require none f = raise f
require (some a) f = pure a

-- `if err != nil { return entity.InternalError(text) }`, where the caller returns a `*Fault`
abbrev pub or_internal : {A : Type 0} → M GoError A → Message → M Fault A
or_internal m text = map_error (λ _. internal_error text) m

-- the same where the caller returns an `error`
abbrev pub or_fail : {A : Type 0} → M GoError A → Fault → M GoError A
or_fail m f = map_error (λ _. GoError.fault f) m

-- `if err != nil { return entity.FaultFrom(err) }`
abbrev pub or_fault_from : {A : Type 0} → M GoError A → M Fault A
or_fault_from m = map_error (λ e. fault_from (some e)) m

-- A gateway is bound to the pool or to a transaction (postgres.Querier).
pub data Querier : Type 0 where
  pool tx : Querier

abbrev pub Statement : Type 0 → Type 0
Statement A = Time → Db → Outcome GoError A × Db

module _ (env : Env) where
  -- What other sessions have committed when this access is made.
  abbrev pub seen : Querier → World → Db
  seen pool w = env.others w.calls w.db
  seen tx w = w.db

  -- One call of the driver: it fails, or the statement runs on what the session sees.
  unfoldable pub statement : {A : Type 0} → Querier → Statement A → M GoError A
  statement q run w =
      let d = seen q w in
      if env.fails w.calls
      then (err driver_error, record w { db = d; calls = w.calls + 1 })
      else let (r, d') = run (env.db_clock w.calls) d in
        (r, record w { db = d'; calls = w.calls + 1 })

  -- `COMMIT`, or the rollback to the database of `BEGIN`.
  abbrev pub commit : {A : Type 0} → Db → Outcome GoError A × World → Outcome GoError A × World
  commit start (err e, w) = (err e, record w { db = start })
  commit start (ok a, w) =
      if env.fails w.calls
      then (err driver_error, record w { db = start; calls = w.calls + 1 })
      else (ok a, record w { calls = w.calls + 1 })

  -- `unitOfWork.Do`
  unfoldable pub unit_of_work : {A : Type 0} → M GoError A → M GoError A
  unit_of_work body w =
      let start = env.others w.calls w.db in
      let w' = record w { db = start; calls = w.calls + 1 } in
      if env.fails w.calls
      then (err (wrapped (lit "opening the transaction: " ∷ []) driver_error), w')
      else commit start (body w')

  -- `i.clock.Now()`
  unfoldable pub clock_now : {E : Type 0} → M E Time
  clock_now w = (ok (env.clock w.calls), w)

  -- `port.NowWritten`
  unfoldable pub now_written : {E : Type 0} → M E Time
  now_written w =
      (ok (env.clock w.calls), record w { written = w.written ++ (env.clock w.calls ∷ []) })

  -- `i.ids.NewID()`
  unfoldable pub new_id : {E : Type 0} → M E Text
  new_id w = (ok (env.fresh w.calls), w)

-- No other session commits anything.
abbrev pub alone : (ℕ → Bool) → (ℕ → Time) → (ℕ → Time) → (ℕ → Text) → Env
alone fails clock db_clock fresh = record {
  fails = fails;
  clock = clock;
  db_clock = db_clock;
  fresh = fresh;
  others = λ n d. d;
  date_of = some;
}
