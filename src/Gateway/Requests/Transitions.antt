-- ===== src/Gateway/Requests/Transitions.antt =====
-- The writes of postgres.RequestGateway that move a request, and the lists of what is due
-- (internal/adapter/gateway/postgres/request_gateway.go).
use numflex_sandbox.Prelude.{
  Bool, List, Option, any, false, if◌then◌else◌, keep, leb, length, map, none, not, some, true,
  update_where, ◌&&◌, ◌++◌, ◌+◌, ◌==◌, ◌||◌,
}
use numflex_sandbox.Entity.Errors.{GoError}
use numflex_sandbox.Entity.Request.{
  PortingRequest, Step, StepStatus, SubscriberType, Text, Time, completed, empty_text,
  is_completion, is_confirmation, is_in_progress, is_reverse, step_in_progress,
}
use numflex_sandbox.Gateway.Confirmations.{confirmations_of}
use numflex_sandbox.Gateway.Numbers.{is_number}
use numflex_sandbox.Gateway.Requests.Reads.{is_row_of, is_set}
use numflex_sandbox.Gateway.Requests.Writes.{closed_by}
use numflex_sandbox.Store.Schema.{
  Db, NumberRow, Origin, RequestNumberRow, RequestRow, find_request, update_request,
}
use numflex_sandbox.Store.Session.{Env, M, Querier, ok, statement, ◌>>◌}

-- The UPDATE of `AdvanceStep`.
abbrev pub advanced_row : Step → Time → RequestRow → RequestRow
advanced_row next now r = record r {
  current_step = next;
  current_step_status = step_in_progress;
  step_start = now;
  transition_due = none;
}

-- The UPDATE of `CompleteRequest`.
abbrev pub completed_row : StepStatus → Time → RequestRow → RequestRow
completed_row status now r = record r {
  status = completed;
  current_step_status = status;
  completion_date = some now;
  transition_due = none;
}

-- `NOT exclu AND statut <> 'REJETE'`, for a row of this request and this number
abbrev pub is_ported : Text → Text → RequestNumberRow → Bool
is_ported id msisdn n =
    is_row_of id n && n.msisdn == msisdn && not n.is_excluded && not n.is_rejected

-- The number changes hands at the database's instant.
abbrev pub transferred : Text → Time → NumberRow → NumberRow
transferred operator_id now n = record n {
  current_operator_id = operator_id;
  last_porting_date = some now;
}

-- The UPDATE of `TransferToRegistry`.
abbrev pub transfer_numbers : Text → Text → Time → Db → Db
transfer_numbers id recipient now d = record d {
  numbers =
      update_where (λ n. any (is_ported id n.msisdn) d.request_numbers) (transferred recipient now)
        d.numbers;
}

-- `CASE WHEN statut = 'REJETE' OR exclu THEN $2 ELSE $3 END`
abbrev pub routed : Text → Text → RequestNumberRow → RequestNumberRow
routed source_prefix recipient_prefix n = record n {
  routing_info =
      if n.is_rejected || n.is_excluded then some source_prefix else some recipient_prefix;
}

-- What `LockForTransition` reads; the fields that its SELECT leaves out keep their zero values.
abbrev pub locked : RequestRow → PortingRequest
locked r = record {
  id = r.id;
  msisdn = r.msisdn;
  request_type = r.request_type;
  subscriber_type = SubscriberType.other empty_text;
  status = r.status;
  current_step = r.current_step;
  current_step_status = StepStatus.other empty_text;
  source_operator_id = r.source_operator_id;
  recipient_operator_id = r.recipient_operator_id;
  creator_operator_id = empty_text;
  pending_transition = false;
}

-- `transition_prevue_a IS NOT NULL AND transition_prevue_a <= now()`
abbrev pub is_due : Time → RequestRow → Bool
is_due now r = elim r.transition_due [
  | none ↦ false
  | some t ↦ is_in_progress r.status && leb t now
]

-- The predicate of `OverdueSteps`.
abbrev pub is_overdue : Time → Time → RequestRow → Bool
is_overdue timeout as_of r = elim r.transition_due [
  | none ↦ is_in_progress r.status && leb (r.step_start + timeout) as_of
  | some _ ↦ false
]

-- The predicate of `PendingReverseCompletions`.
abbrev pub awaits_artp : Db → RequestRow → Bool
awaits_artp d r =
    is_reverse r.request_type
    && is_in_progress r.status
    && not (is_set r.transition_due)
    && (is_completion r.current_step
        || (is_confirmation r.current_step && leb (length d.operators) (confirmations_of r.id d)))

module _ (env : Env) (q : Querier) where
  -- `LockForTransition`
  unfoldable pub lock_for_transition : Text → M GoError (Option PortingRequest)
  lock_for_transition id = statement env q (λ now d. elim (find_request id d) [
    | none ↦ (ok none, d)
    | some r ↦ (ok (some (locked r)), d)
  ])

  -- `CloseCurrentStep`
  unfoldable pub close_current_step : Text → StepStatus → Origin → Time → M GoError (Unit {0})
  close_current_step id status origin now = statement env q (λ _ d. (
    ok tt,
    record d { history = d.history ++ closed_by (find_request id d) status none origin none now },
  ))

  -- `CompleteRequest`
  unfoldable pub complete_request : Text → StepStatus → Time → M GoError (Unit {0})
  complete_request id status now =
      statement env q (λ _ d. (ok tt, update_request id (completed_row status now) d))

  -- `AdvanceStep`
  unfoldable pub advance_step : Text → Step → Time → M GoError (Unit {0})
  advance_step id next now =
      statement env q (λ _ d. (ok tt, update_request id (advanced_row next now) d))

  -- `TransferToRegistry`
  unfoldable pub transfer_to_registry : Text → Text → M GoError (Unit {0})
  transfer_to_registry id recipient =
      statement env q (λ now d. (ok tt, transfer_numbers id recipient now d))

  -- `ApplyRouting`
  unfoldable pub apply_routing : Text → Text → Text → M GoError (Unit {0})
  apply_routing id source_prefix recipient_prefix = do
    statement env q (λ _ d. (
      ok tt,
      record d {
        request_numbers =
            update_where (is_row_of id) (routed source_prefix recipient_prefix) d.request_numbers;
      },
    ))
    statement env q (λ _ d.
        (ok tt, update_request id (λ r. record r { routing_info = some recipient_prefix }) d))

  -- `ApplyEndOfRequestRestitution`
  unfoldable pub apply_end_of_restitution : Text → Text → Text → Text → M GoError (Unit {0})
  apply_end_of_restitution id msisdn recipient prefix = do
    statement env q (λ now d. (
      ok tt,
      record d {
        numbers =
            update_where (is_number msisdn)
              (λ n. record (transferred recipient now n) { already_restituted = true }) d.numbers;
      },
    ))
    statement env q
        (λ _ d. (ok tt, update_request id (λ r. record r { routing_info = some prefix }) d))

  -- `ScheduleTransitionAt`
  unfoldable pub schedule_transition_at : Text → Time → M GoError (Unit {0})
  schedule_transition_at id delay = statement env q (λ now d.
      (ok tt, update_request id (λ r. record r { transition_due = some (now + delay) }) d))

  -- `DueConvergences`
  unfoldable pub due_convergences : M GoError (List Text)
  due_convergences =
      statement env q (λ now d. (ok (map (λ r. r.id) (keep (is_due now) d.requests)), d))

  -- `OverdueSteps`
  unfoldable pub overdue_steps : Time → Time → M GoError (List Text)
  overdue_steps timeout as_of =
      statement env q
        (λ _ d. (ok (map (λ r. r.id) (keep (is_overdue timeout as_of) d.requests)), d))

  -- `PendingReverseCompletions`
  unfoldable pub pending_reverse_completions : M GoError (List (Text × Step))
  pending_reverse_completions =
      statement env q
        (λ _ d. (ok (map (λ r. (r.id, r.current_step)) (keep (awaits_artp d) d.requests)), d))
