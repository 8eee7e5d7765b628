-- ===== src/Usecase/Platform.antt =====
-- The engine's own interactors (internal/usecase/platform) and its tick
-- (internal/framework/engine/engine.go).
pub mod Tick
pub mod Opening
pub mod Validated
use numflex_sandbox.Prelude.{List, [], if◌then◌else◌, none, ◌==◌, ◌∷◌}
use numflex_sandbox.Entity.Errors.{GoError}
use numflex_sandbox.Entity.Request.{Step, Text, Time, individual, is_confirmation, reverse}
use numflex_sandbox.Gateway.Incidents.{read_market_frozen}
use numflex_sandbox.Gateway.Requests.Transitions.{
  due_convergences, overdue_steps, pending_reverse_completions,
}
use numflex_sandbox.Gateway.Requests.Writes.{add_number, create_at_confirmation}
use numflex_sandbox.Gateway.Reverses.{
  current_operator_for, is_pending, lock_pending, mark_validated, overdue_for_auto_validation,
  refuse_pending,
}
use numflex_sandbox.Store.Schema.{Origin, ReverseRow, action, expiration}
use numflex_sandbox.Store.Session.{
  Env, M, clock_now, new_id, now_written, pool, pure, tx, unit_of_work, ◌>>=◌, ◌>>◌,
}
use numflex_sandbox.Usecase.Transition.{apply_transition}

module _ (env : Env) where
  -- the loop over what is due
  unfoldable pub apply_all : List Text → Origin → M GoError (Unit {0})
  apply_all [] origin = pure tt
  apply_all (id ∷ ids) origin = do apply_transition env id origin; apply_all ids origin

  -- `ConvergePendingTransitionsInteractor.Execute`
  unfoldable pub converge : M GoError (Unit {0})
  converge = do ids ← due_convergences env pool; apply_all ids action

  -- `ExpireOverdueStepsInteractor.Execute`
  unfoldable pub expire : Time → Time → M GoError (Unit {0})
  expire timeout as_of =
      if timeout == 0
      then pure tt
      else (do ids ← overdue_steps env pool timeout as_of; apply_all ids expiration)

  -- the transaction of `ValidateReverse`, for the row that the lock found
  unfoldable pub validate_pending : Text → ReverseRow → M GoError (Unit {0})
  validate_pending reverse_id r =
      if is_pending r.status
      then (do
        holder ← current_operator_for env tx r.msisdn
        id ← new_id env
        now ← now_written env
        create_at_confirmation env tx (record {
          id = id;
          msisdn = r.msisdn;
          subscriber_type = individual;
          request_type = reverse;
          source_operator_id = holder;
          recipient_operator_id = r.operator_id;
          creator_operator_id = r.operator_id;
          process = none;
          routing_info = none;
          request_date = now;
        })
        add_number env tx id r.msisdn none 0
        mark_validated env tx reverse_id id now)
      else pure tt

  -- `ValidateReverse`
  unfoldable pub validate_reverse : Text → M GoError (Unit {0})
  validate_reverse reverse_id =
      unit_of_work env (do r ← lock_pending env tx reverse_id; validate_pending reverse_id r)

  -- `RejectReverse`
  unfoldable pub reject_reverse : Text → M GoError (Unit {0})
  reject_reverse reverse_id = unit_of_work env (refuse_pending env tx reverse_id)

  unfoldable pub validate_all : List Text → M GoError (Unit {0})
  validate_all [] = pure tt
  validate_all (id ∷ ids) = do validate_reverse id; validate_all ids

  -- `autoValidate`
  unfoldable pub auto_validate : Time → M GoError (Unit {0})
  auto_validate delay =
      if delay == 0
      then pure tt
      else (do ids ← overdue_for_auto_validation env pool delay; validate_all ids)

  -- the body of the loop of `autoComplete`
  unfoldable pub complete_reverse : Text × Step → M GoError (Unit {0})
  complete_reverse (id, step) = do
    if is_confirmation step then apply_transition env id action else pure tt
    apply_transition env id action

  unfoldable pub complete_all : List (Text × Step) → M GoError (Unit {0})
  complete_all [] = pure tt
  complete_all (c ∷ cs) = do complete_reverse c; complete_all cs

  -- `autoComplete`
  unfoldable pub auto_complete : M GoError (Unit {0})
  auto_complete = do candidates ← pending_reverse_completions env pool; complete_all candidates

  -- `AutoValidateReversesInteractor.Execute`
  unfoldable pub run_reverses : Time → M GoError (Unit {0})
  run_reverses delay = do auto_validate delay; auto_complete

  -- `Engine.Tick`, with the configured step timeout and delay of automatic validation
  unfoldable pub tick : Time → Time → M GoError (Unit {0})
  tick step_timeout auto_validation = do
    tick_start ← clock_now env
    frozen ← read_market_frozen env pool
    if frozen
        then pure tt
        else (do converge; expire step_timeout tick_start; run_reverses auto_validation)
