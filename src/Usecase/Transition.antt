-- ===== src/Usecase/Transition.antt =====
-- `ApplyTransition` (internal/usecase/platform/apply_transition.go): a step is closed and the
-- request moves to the next one.
pub mod Moves
pub mod Steps
pub mod Frame
pub mod Total
pub mod Holders
pub mod Handover
pub mod Registry
use numflex_sandbox.Prelude.{Option, [], if◌then◌else◌, none, some, ◌&&◌, ◌∷◌}
use numflex_sandbox.Entity.Errors.{GoError, plain}
use numflex_sandbox.Entity.Fault.{lit, step_piece, text_piece}
use numflex_sandbox.Entity.Request.{
  PortingRequest, Step, StepStatus, Text, Time, is_activation, is_completion, is_in_progress,
  is_porting, step_completed, step_expired,
}
use numflex_sandbox.Entity.Step.{next_step}
use numflex_sandbox.Gateway.Requests.Reads.{routing_prefix}
use numflex_sandbox.Gateway.Requests.Transitions.{
  advance_step, apply_end_of_restitution, apply_routing, close_current_step, complete_request,
  lock_for_transition, transfer_to_registry,
}
use numflex_sandbox.Store.Schema.{Origin, action, expiration}
use numflex_sandbox.Store.Session.{Env, M, now_written, pure, raise, tx, unit_of_work, ◌>>=◌, ◌>>◌}

abbrev pub closed_status : Origin → StepStatus
closed_status action = step_completed
closed_status expiration = step_expired

module _ (env : Env) where
  -- the end of the request, once COMPLETION is closed
  unfoldable pub finish : PortingRequest → StepStatus → Time → M GoError (Unit {0})
  finish dm closed now =
      if is_porting dm.request_type then complete_request env tx dm.id closed now else do
        prefix ← routing_prefix env tx dm.recipient_operator_id
        apply_end_of_restitution env tx dm.id dm.msisdn dm.recipient_operator_id prefix
        complete_request env tx dm.id closed now

  -- the effects of leaving ACTIVATION in a PORTAGE
  unfoldable pub leave_step : PortingRequest → M GoError (Unit {0})
  leave_step dm =
      if is_activation dm.current_step && is_porting dm.request_type
      then (do
        transfer_to_registry env tx dm.id dm.recipient_operator_id
        recipient_prefix ← routing_prefix env tx dm.recipient_operator_id
        source_prefix ← routing_prefix env tx dm.source_operator_id
        apply_routing env tx dm.id source_prefix recipient_prefix)
      else pure tt

  -- after the step is closed: what `NextStep` answers decides
  unfoldable pub move : PortingRequest → Option Step → StepStatus → Time → M GoError (Unit {0})
  move dm none closed now =
      if is_completion dm.current_step
      then finish dm closed now
      else raise (
          plain (
            lit "étape inconnue "
            ∷ step_piece dm.current_step
            ∷ lit " sur la demande "
            ∷ text_piece dm.id
            ∷ []))
  move dm (some next) closed now = do leave_step dm; advance_step env tx dm.id next now

  -- the request that the lock found
  unfoldable pub apply_to : Origin → Option PortingRequest → M GoError (Unit {0})
  apply_to origin none = pure tt
  apply_to origin (some dm) =
      if is_in_progress dm.status
      then (do
        now ← now_written env
        close_current_step env tx dm.id (closed_status origin) origin now
        move dm (next_step dm.current_step) (closed_status origin) now)
      else pure tt

  -- `applyTransitionLocked`
  unfoldable pub apply_transition_locked : Text → Origin → M GoError (Unit {0})
  apply_transition_locked id origin = do
    found ← lock_for_transition env tx id
    apply_to origin found

  -- `ApplyTransition`
  unfoldable pub apply_transition : Text → Origin → M GoError (Unit {0})
  apply_transition id origin = unit_of_work env (apply_transition_locked id origin)
