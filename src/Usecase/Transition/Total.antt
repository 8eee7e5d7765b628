-- ===== src/Usecase/Transition/Total.antt =====
-- A transition returns where the driver does not fail
-- (internal/usecase/platform/apply_transition.go).
use numflex_sandbox.Prelude.{
  List, Option-cases, ap, arith, find?, inl, inr, some, true, ◌==◌, ◌∙◌, ◌≡◌, ◌≢◌,
}
use numflex_sandbox.Entity.Request.{
  PortingRequest, Step, StepStatus, Text, Time, in_progress, is_completion, is_in_progress,
}
use numflex_sandbox.Entity.Step.{next_step}
use numflex_sandbox.Entity.Step.Order.{next_step-rank, rank}
use numflex_sandbox.Gateway.Requests.Reads.{routing_prefix}
use numflex_sandbox.Gateway.Requests.Transitions.{
  advance_step, apply_end_of_restitution, apply_routing, close_current_step, complete_request,
  lock_for_transition, locked, transfer_to_registry,
}
use numflex_sandbox.Store.Outcomes.{OnOk, OnOk-mono}
use numflex_sandbox.Store.Runs.{
  IsOk, OnOk-IsOk, Reliable, Runs, Runs-bind, Runs-tx, bind-IsOk, runs_rules, unit_of_work-IsOk,
}
use numflex_sandbox.Store.Schema.{Db, OperatorRow, Origin, RequestRow, find_request}
use numflex_sandbox.Store.Session.{Env, World, tx}
use numflex_sandbox.Usecase.Transition.{
  apply_to, apply_transition, apply_transition_locked, finish, leave_step, move,
}
use numflex_sandbox.Usecase.Transition.Moves.{Moved}
use numflex_sandbox.Usecase.Transition.Steps.{
  Locked, Transitioned, apply_transition-Transitioned, lock-Locked,
}

-- The operator is in the table operateur.
abbrev IsListed : List OperatorRow → Text → Type 0
IsListed ops op = (o : OperatorRow) × (find? (λ x. x.id == op) ops ≡ some o)

-- Both operators of the request are.
abbrev pub AreListed : List OperatorRow → RequestRow → Type 0
AreListed ops r = IsListed ops r.recipient_operator_id × IsListed ops r.source_operator_id

module _ (env : Env) (reliable : Reliable env) (ops : List OperatorRow) where
  -- The table operateur.
  abbrev Operators : Db → Type 0
  Operators d = d.operators ≡ ops

  Runs-prefix : (op : Text) → IsListed ops op → Runs Operators (routing_prefix env tx op)
  unfolding routing_prefix
  Runs-prefix op (o, h) = Runs-tx env _ reliable (λ now d p. ground (arith, h))

  Runs-lock : (id : Text) → Runs Operators (lock_for_transition env tx id)
  unfolding lock_for_transition
  Runs-lock id = Runs-tx env _ reliable (λ now d p. elim (Option-cases (find_request id d)) [
    | inl e ↦ rw e (tt, p)
    | inr (o, e) ↦ rw e (tt, p)
  ])

  Runs-close :
      (id : Text) (s : StepStatus) (o : Origin) (now : Time)
      → Runs Operators (close_current_step env tx id s o now)
  unfolding close_current_step
  Runs-close id s o now = Runs-tx env _ reliable (λ _ d p. (tt, p))

  Runs-complete :
      (id : Text) (s : StepStatus) (now : Time) → Runs Operators (complete_request env tx id s now)
  unfolding complete_request
  Runs-complete id s now = Runs-tx env _ reliable (λ _ d p. (tt, p))

  Runs-advance : (id : Text) (s : Step) (now : Time) → Runs Operators (advance_step env tx id s now)
  unfolding advance_step
  Runs-advance id s now = Runs-tx env _ reliable (λ _ d p. (tt, p))

  Runs-transfer : (id op : Text) → Runs Operators (transfer_to_registry env tx id op)
  unfolding transfer_to_registry
  Runs-transfer id op = Runs-tx env _ reliable (λ _ d p. (tt, p))

  Runs-route : (id a b : Text) → Runs Operators (apply_routing env tx id a b)
  unfolding apply_routing
  Runs-route id a b =
      Runs-bind _ _ (Runs-tx env _ reliable (λ _ d p. (tt, p)))
        (λ _. Runs-tx env _ reliable (λ _ d p. (tt, p)))

  Runs-restitution : (id m op b : Text) → Runs Operators (apply_end_of_restitution env tx id m op b)
  unfolding apply_end_of_restitution
  Runs-restitution id m op b =
      Runs-bind _ _ (Runs-tx env _ reliable (λ _ d p. (tt, p)))
        (λ _. Runs-tx env _ reliable (λ _ d p. (tt, p)))

  ruleset total_rules = (
    runs_rules, Runs-prefix, Runs-lock, Runs-close, Runs-complete, Runs-advance, Runs-transfer,
    Runs-route, Runs-restitution,
  )

  Runs-finish :
      (dm : PortingRequest) (s : StepStatus) (now : Time)
      → IsListed ops dm.recipient_operator_id
      → Runs Operators (finish env dm s now)
  unfolding finish
  Runs-finish dm s now h = search total_rules

  Runs-leave :
      (dm : PortingRequest)
      → IsListed ops dm.recipient_operator_id
      → IsListed ops dm.source_operator_id
      → Runs Operators (leave_step env dm)
  unfolding leave_step
  Runs-leave dm h k = search total_rules

  Runs-move :
      (dm : PortingRequest) (s : StepStatus) (now : Time)
      → rank dm.current_step ≢ 0
      → IsListed ops dm.recipient_operator_id
      → IsListed ops dm.source_operator_id
      → Runs Operators (move env dm (next_step dm.current_step) s now)
  unfolding move
  Runs-move dm s now ne h k = elim (Option-cases (next_step dm.current_step)) [
    | inl e ↦
        let c : is_completion dm.current_step ≡ true =
          ground (arith, (next_step-rank dm.current_step).1) in
        rw e (rw c (Runs-finish dm s now h))
    | inr (next, e) ↦ rw e (Runs-bind _ _ (Runs-leave dm h k) (λ _. Runs-advance dm.id next now))
  ]

  Runs-apply_to :
      (origin : Origin) (dm : PortingRequest)
      → rank dm.current_step ≢ 0
      → IsListed ops dm.recipient_operator_id
      → IsListed ops dm.source_operator_id
      → Runs Operators (apply_to env origin (some dm))
  unfolding apply_to
  Runs-apply_to origin dm ne h k = search (total_rules, Runs-move)

  locked-IsOk :
      (id : Text) (origin : Origin) (w : World) (r : RequestRow)
      → Operators w.db
      → find_request id w.db ≡ some r
      → rank r.current_step ≢ 0
      → AreListed ops r
      → IsOk (apply_transition_locked env id origin w)
  unfolding apply_transition_locked
  locked-IsOk id origin w r o h ne listed =
      bind-IsOk _ _ w (Locked env id origin w.db) ((Runs-lock id).at w o).0
        (lock-Locked env id origin w)
        (λ found w1 k.
          let q : found ≡ some (locked r) = rw h at k.1 in
          rw q (((Runs-apply_to origin (locked r) ne listed.0 listed.1).at w1 (rw k.0 o)).0))

module _ (env : Env) (id : Text) (origin : Origin) (w : World) (r : RequestRow)
    (reliable : Reliable env) where
  abbrev start : Db
  start = env.others w.calls w.db

  apply_transition-IsOk :
      find_request id start ≡ some r
      → rank r.current_step ≢ 0
      → AreListed start.operators r
      → IsOk (apply_transition env id origin w)
  unfolding apply_transition
  apply_transition-IsOk h ne listed = unit_of_work-IsOk env _ w reliable (λ w' e.
      locked-IsOk env reliable start.operators id origin w' r (ap (λ d. d.operators) e)
        (ap (find_request id) e ∙ h) ne listed)

  moved :
      find_request id start ≡ some r
      → r.status ≡ in_progress
      → OnOk (apply_transition env id origin w) (λ _ d. Moved (some r) (find_request id d))
  moved h p =
      OnOk-mono _ (λ _ d. Transitioned id (find_request id start) start d) _
        (apply_transition-Transitioned env id origin w)
        (λ _ d t.
          let m : Transitioned id (some r) start d = rw h at t in
          let q : is_in_progress r.status ≡ true = ap is_in_progress p in rw q at m)

  -- Where the driver does not fail, a transition of a request that is in progress at a step of the
  -- life, and whose operators are in the table, returns, and has moved the request by exactly one
  -- step.
  pub apply_transition-moves :
      find_request id start ≡ some r
      → r.status ≡ in_progress
      → rank r.current_step ≢ 0
      → AreListed start.operators r
      → IsOk (apply_transition env id origin w)
        × Moved (some r) (find_request id (apply_transition env id origin w).1.db)
  apply_transition-moves h p ne listed =
      let returns = apply_transition-IsOk h ne listed in
      (returns, OnOk-IsOk _ (λ d. Moved (some r) (find_request id d)) returns (moved h p))
