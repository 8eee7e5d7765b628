-- ===== src/Usecase/Engine.antt =====
-- The engine that every interactor calls (internal/framework/engine/engine.go): a transition is
-- applied at once, or scheduled in the convergence window.
use numflex_sandbox.Prelude.{if◌then◌else◌, ltb, ℕ, ◌%◌, ◌+◌, ◌-◌, ◌==◌}
use numflex_sandbox.Entity.Errors.{GoError}
use numflex_sandbox.Entity.Request.{Text, Time}
use numflex_sandbox.Gateway.Requests.Transitions.{schedule_transition_at}
use numflex_sandbox.Store.Schema.{action}
use numflex_sandbox.Store.Session.{Env, M, tx, unit_of_work}
use numflex_sandbox.Usecase.Transition.{apply_transition}

-- `rand.Int63n` is the argument `draw`, read at the number of the access.
pub record Window : Type 0 where
  pub convergence_min : Time
  pub convergence_max : Time
  pub draw : ℕ → Time

module _ (env : Env) (window : Window) where
  open window use {convergence_min, convergence_max, draw}

  -- `rand.Int63n(spread)` is below its argument; it is asked only where the spread is positive
  abbrev pub delay : ℕ → Time
  delay n =
      if ltb convergence_min convergence_max
      then convergence_min + draw n % (convergence_max - convergence_min)
      else convergence_min

  -- `ScheduleTransition`
  unfoldable pub schedule_transition : Text → M GoError (Unit {0})
  schedule_transition id w =
      if convergence_max == 0
      then apply_transition env id action w
      else unit_of_work env (schedule_transition_at env tx id (delay w.calls)) w
