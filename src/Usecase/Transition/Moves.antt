-- ===== src/Usecase/Transition/Moves.antt =====
-- What a transition writes in the row of its request, up to its last UPDATE: the row keeps its step
-- until then, and moves by one step of its life.
use numflex_sandbox.Prelude.{
  Option, Option-cases, ap, arith, inl, inr, none, refl, some, sym, true, ◌&&◌, ◌∙◌, ◌≡◌, ◌⊎◌,
}
use numflex_sandbox.Entity.Request.{
  PortingRequest, Step, StepStatus, Text, Time, completed, completion, in_progress, is_activation,
  is_completion, is_porting, step_in_progress,
}
use numflex_sandbox.Entity.Step.{next_step}
use numflex_sandbox.Gateway.Requests.Reads.{find_operator, routing_prefix}
use numflex_sandbox.Gateway.Requests.Transitions.{
  advance_step, advanced_row, apply_end_of_restitution, apply_routing, complete_request,
  completed_row, transfer_to_registry,
}
use numflex_sandbox.Store.Outcomes.{OnOk, OnOk-bind, OnOk-if, OnOk-pure, OnOk-raise, OnOk-statement}
use numflex_sandbox.Store.Schema.{Db, RequestRow, find_request, update_request}
use numflex_sandbox.Store.Session.{Env, World, tx}
use numflex_sandbox.Store.Table.{find_request-update}
use numflex_sandbox.Usecase.Transition.{finish, leave_step, move}

abbrev pub Advances : RequestRow → RequestRow → Type 0
Advances r r' =
    ((next_step r.current_step ≡ some r'.current_step)
      × (r'.status ≡ in_progress)
      × (r'.current_step_status ≡ step_in_progress))
    ⊎ ((r.current_step ≡ completion) × (r'.current_step ≡ completion) × (r'.status ≡ completed))

-- What no step of the life changes.
pub record SameRequest (r r' : RequestRow) : Type 0 where
  pub id : r'.id ≡ r.id
  pub msisdn : r'.msisdn ≡ r.msisdn
  pub request_type : r'.request_type ≡ r.request_type
  pub subscriber_type : r'.subscriber_type ≡ r.subscriber_type
  pub source : r'.source_operator_id ≡ r.source_operator_id
  pub recipient : r'.recipient_operator_id ≡ r.recipient_operator_id
  pub creator : r'.creator_operator_id ≡ r.creator_operator_id

abbrev pub Moved : Option RequestRow → Option RequestRow → Type 0
Moved (some r) (some r') = SameRequest r r' × Advances r r' × (r'.transition_due ≡ none)
Moved _ _ = ⊥

-- A row that has not moved yet: only its routing may differ.
abbrev pub Kept : RequestRow → Option RequestRow → Type 0
Kept r none = ⊥
Kept r (some r') = SameRequest r r' × (r'.current_step ≡ r.current_step) × (r'.status ≡ r.status)

pub Kept-self :
    (id : Text) (d : Db) (r : RequestRow) → find_request id d ≡ some r → Kept r (find_request id d)
Kept-self id d r h = ground arith

Kept-update :
    (id : Text) (b : Text) (d : Db) (r : RequestRow)
    → Kept r (find_request id d)
    → Kept r (find_request id (update_request id (λ y. record y { routing_info = some b }) d))
Kept-update id b d r h =
    ground
      (arith, find_request-update id id (λ y. record y { routing_info = some b }) d (λ y. refl))

Moved-complete :
    (id : Text) (status : StepStatus) (now : Time) (d : Db) (r : RequestRow)
    → r.current_step ≡ completion
    → Kept r (find_request id d)
    → Moved (some r) (find_request id (update_request id (completed_row status now) d))
Moved-complete id status now d r s h =
    ground (arith, find_request-update id id (completed_row status now) d (λ y. refl))

Moved-advance :
    (id : Text) (next : Step) (now : Time) (d : Db) (r : RequestRow)
    → next_step r.current_step ≡ some next
    → r.status ≡ in_progress
    → Kept r (find_request id d)
    → Moved (some r) (find_request id (update_request id (advanced_row next now) d))
Moved-advance id next now d r s p h =
    ground (arith, find_request-update id id (advanced_row next now) d (λ y. refl))

is_completion-eq : (s : Step) → is_completion s ≡ true → s ≡ completion
is_completion-eq s h = ground arith

module _ (env : Env) (id : Text) (r : RequestRow) where
  abbrev pub Before : {A : Type 0} → A → Db → Type 0
  Before _ d = Kept r (find_request id d)

  abbrev pub After : {A : Type 0} → A → Db → Type 0
  After _ d = Moved (some r) (find_request id d)

  prefix-Before :
      (op : Text) (w : World)
      → Kept r (find_request id w.db)
      → OnOk (routing_prefix env tx op w) Before
  unfolding routing_prefix
  prefix-Before op w h = OnOk-statement env tx _ w _ (λ now a e.
      elim (Option-cases (find_operator op w.db)) [ inl p ↦ rw p h | inr (o, p) ↦ rw p h ])

  route-Before :
      (a b : Text) (w : World)
      → Kept r (find_request id w.db)
      → OnOk (apply_routing env tx id a b w) Before
  unfolding apply_routing
  route-Before a b w h =
      OnOk-bind _ _ w Before _ (OnOk-statement env tx _ w _ (λ now a e. h))
        (λ _ w' k. OnOk-statement env tx _ w' _ (λ now x e. Kept-update id b w'.db r k))

  restitution-Before :
      (msisdn op b : Text) (w : World)
      → Kept r (find_request id w.db)
      → OnOk (apply_end_of_restitution env tx id msisdn op b w) Before
  unfolding apply_end_of_restitution
  restitution-Before msisdn op b w h =
      OnOk-bind _ _ w Before _ (OnOk-statement env tx _ w _ (λ now a e. h))
        (λ _ w' k. OnOk-statement env tx _ w' _ (λ now x e. Kept-update id b w'.db r k))

  complete-After :
      (status : StepStatus) (now : Time) (w : World)
      → r.current_step ≡ completion
      → Kept r (find_request id w.db)
      → OnOk (complete_request env tx id status now w) After
  unfolding complete_request
  complete-After status now w s h =
      OnOk-statement env tx _ w _ (λ _ a e. Moved-complete id status now w.db r s h)

  finish-After :
      (dm : PortingRequest) (status : StepStatus) (now : Time) (w : World)
      → dm.id ≡ id
      → r.current_step ≡ completion
      → Kept r (find_request id w.db)
      → OnOk (finish env dm status now w) After
  unfolding finish
  finish-After dm status now w e s h = rw e (
      OnOk-if (is_porting dm.request_type) _ _ w _ (λ _. complete-After status now w s h)
        (λ _. OnOk-bind _ _ w Before _ (prefix-Before dm.recipient_operator_id w h) (λ p w1 h1.
          OnOk-bind _ _ w1 Before _ (restitution-Before dm.msisdn dm.recipient_operator_id p w1 h1)
            (λ _ w2 h2. complete-After status now w2 s h2))))

  leave-Before :
      (dm : PortingRequest) (w : World)
      → dm.id ≡ id
      → Kept r (find_request id w.db)
      → OnOk (leave_step env dm w) Before
  unfolding leave_step transfer_to_registry
  leave-Before dm w e h = rw e (
      OnOk-if (is_activation dm.current_step && is_porting dm.request_type) _ _ w _
        (λ _. OnOk-bind _ _ w Before _ (OnOk-statement env tx _ w _ (λ now a k. h)) (λ _ w1 h1.
          OnOk-bind _ _ w1 Before _ (prefix-Before dm.recipient_operator_id w1 h1) (λ a w2 h2.
            OnOk-bind _ _ w2 Before _ (prefix-Before dm.source_operator_id w2 h2)
              (λ b w3 h3. route-Before b a w3 h3))))
        (λ _. OnOk-pure _ tt w _ h))

  pub move-After :
      (dm : PortingRequest) (status : StepStatus) (now : Time) (w : World)
      → dm.id ≡ id
      → dm.current_step ≡ r.current_step
      → r.status ≡ in_progress
      → Kept r (find_request id w.db)
      → OnOk (move env dm (next_step dm.current_step) status now w) After
  unfolding move advance_step
  move-After dm status now w e c p h = elim (Option-cases (next_step dm.current_step)) [
    | inl s ↦ rw s (
        OnOk-if (is_completion dm.current_step) _ _ w _
          (λ k. finish-After dm status now w e (sym c ∙ is_completion-eq dm.current_step k) h)
          (λ _. OnOk-raise _ w _))
    | inr (next, s) ↦ rw s (
        OnOk-bind _ _ w Before _ (leave-Before dm w e h) (λ _ w1 h1. rw e (
          OnOk-statement env tx _ w1 _
            (λ _ a k. Moved-advance id next now w1.db r (ap next_step (sym c) ∙ s) p h1))))
  ]
