-- ===== src/Controller/Acts/Gate.antt =====
-- The frozen-market test comes first (internal/adapter/controller/porting_controller.go,
-- acceptance_controller.go).
use numflex_sandbox.Prelude.{
  Bool, Bool-cases, [], any, ap, arith, false, inl, inr, refl, some, true, ◌+◌, ◌∷◌, ◌≡◌, ◌⊎◌,
}
use numflex_sandbox.Controller.Acts.{
  AcceptFleetRequestDto, AcceptRequestDto, ActDto, accept_fleet_run, accept_run, confirmation_run,
  post_accept, post_accept_fleet, post_confirmation, post_process, process_run,
}
use numflex_sandbox.Controller.Respond.{Call, respond}
use numflex_sandbox.Entity.Authorization.{Caller}
use numflex_sandbox.Entity.Errors.{GoError, driver_error}
use numflex_sandbox.Entity.Fault.{Fault, internal_error, lit}
use numflex_sandbox.Entity.Request.{Time}
use numflex_sandbox.Gateway.Confirmations.{confirm}
use numflex_sandbox.Gateway.Incidents.{is_freezing, read_market_frozen}
use numflex_sandbox.Presenter.Modes.{Presenter}
use numflex_sandbox.Store.Runs.{bind-err, bind-ok, map_error-err, map_error-ok}
use numflex_sandbox.Store.Schema.{Db}
use numflex_sandbox.Store.Session.{Env, World, err, map_error, ok, pool, raise, statement}
use numflex_sandbox.Usecase.Acceptance.{market_frozen}
use numflex_sandbox.Usecase.Engine.{Window}

module _ (env : Env) (window : Window) (w : World) where
  abbrev pub market_seen : Db
  market_seen = env.others w.calls w.db

  -- The world after the test of the market.
  abbrev pub after_gate : World
  after_gate = record w { db = market_seen; calls = w.calls + 1 }

  -- The market is frozen, or the driver fails the read.
  abbrev pub IsBlocked : Type 0
  IsBlocked = (env.fails w.calls ≡ true) ⊎ (any is_freezing market_seen.incidents ≡ true)

  abbrev gate_fault : Bool → Fault
  gate_fault true = internal_error (lit "checking the market-wide freeze" ∷ [])
  gate_fault false =
      internal_error
        (lit "Le traitement des demandes est gelé par un incident interne en cours." ∷ [])

  read_failed :
      env.fails w.calls ≡ true → read_market_frozen env pool w ≡ (err driver_error, after_gate)
  unfolding read_market_frozen statement
  read_failed h = rw h refl

  read_frozen :
      env.fails w.calls ≡ false
      → any is_freezing market_seen.incidents ≡ true
      → read_market_frozen env pool w ≡ (ok true, after_gate)
  unfolding read_market_frozen statement
  read_frozen h k = rw h (rw k refl)

  frozen_of : env.fails w.calls ≡ false → IsBlocked → any is_freezing market_seen.incidents ≡ true
  frozen_of h (inl k) = ground arith
  frozen_of h (inr k) = k

  market_frozen-err :
      (caller : Caller)
      → IsBlocked
      → market_frozen env window caller w ≡ (err (gate_fault (env.fails w.calls)), after_gate)
  unfolding market_frozen map_error raise
  market_frozen-err caller blocked =
      let read = read_market_frozen env pool in
      let wrap = λ (_ : GoError). gate_fault true in
      elim (Bool-cases (env.fails w.calls)) [
        | inl h ↦ rw h (
            bind-err _ _ w after_gate _
              (map_error-err wrap read w after_gate driver_error (read_failed h)))
        | inr h ↦ rw h (
            bind-ok _ _ w after_gate true
              (map_error-ok wrap read w after_gate true (read_frozen h (frozen_of h blocked))))
      ]

  -- Where the market is frozen by an open internal incident, or the driver fails the read that would
  -- tell, the two acceptances, the processing and the confirmation all answer one failure, whatever
  -- their bodies: bodies that do not bind included. Nothing else of the database is read, and nothing
  -- is written.
  pub post_accept-frozen :
      (skew : Time) (p : Presenter) (confirm process : Call ActDto) (accept : Call AcceptRequestDto)
      (fleet : Call AcceptFleetRequestDto)
      → IsBlocked
      → (f : Fault) × (post_confirmation env window skew p confirm w
          ≡ (p.failure (some f) confirm.path, after_gate))
        × (post_process env window skew p process w ≡ (p.failure (some f) process.path, after_gate))
        × (post_accept env window skew p accept w ≡ (p.failure (some f) accept.path, after_gate))
        × (post_accept_fleet env window skew p fleet w
            ≡ (p.failure (some f) fleet.path, after_gate))
  unfolding post_confirmation post_process post_accept post_accept_fleet confirmation_run
      process_run accept_run accept_fleet_run
  post_accept-frozen skew p confirm process accept fleet blocked =
      let f = gate_fault (env.fails w.calls) in
      (
        f,
        ap (respond p confirm.path 200 _ _)
            (bind-err _ _ w after_gate f (market_frozen-err confirm.caller blocked)),
        ap (respond p process.path 200 _ _)
            (bind-err _ _ w after_gate f (market_frozen-err process.caller blocked)),
        ap (respond p accept.path 200 _ _)
            (bind-err _ _ w after_gate f (market_frozen-err accept.caller blocked)),
        ap (respond p fleet.path 200 _ _)
            (bind-err _ _ w after_gate f (market_frozen-err fleet.caller blocked)),
      )
