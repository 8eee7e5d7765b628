-- ===== src/Usecase/Transition/Frame.antt =====
-- A transition of one request leaves every other request as it was
-- (internal/usecase/platform/apply_transition.go).
use numflex_sandbox.Prelude.{Option, Option-cases, ap, inl, inr, none, refl, some, ◌∙◌, ◌≡◌, ◌≢◌}
use numflex_sandbox.Entity.Request.{PortingRequest, Step, StepStatus, Text, Time}
use numflex_sandbox.Gateway.Requests.Reads.{find_operator, routing_prefix}
use numflex_sandbox.Gateway.Requests.Transitions.{
  advance_step, advanced_row, apply_end_of_restitution, apply_routing, close_current_step,
  complete_request, completed_row, lock_for_transition, locked, transfer_to_registry,
}
use numflex_sandbox.Store.Keeps.{Keeps, Keeps-bind, Keeps-tx, OnOk-Keeps, keeps_rules}
use numflex_sandbox.Store.Outcomes.{
  OnErr-mono, OnErr-unit_of_work, OnOk, OnOk-OnErr, OnOk-bind, OnOk-unit_of_work,
}
use numflex_sandbox.Store.Schema.{Db, Origin, RequestRow, find_request, update_request}
use numflex_sandbox.Store.Session.{Env, World, tx, unit_of_work}
use numflex_sandbox.Store.Table.{find_request-id, find_request-update_ne}
use numflex_sandbox.Usecase.Transition.{
  apply_to, apply_transition, apply_transition_locked, finish, leave_step, move,
}
use numflex_sandbox.Usecase.Transition.Steps.{Locked, lock-Locked}

module _ (j : Text) (x : Option RequestRow) where
  -- The row under `j` is `x`.
  abbrev pub Holds : Db → Type 0
  Holds d = find_request j d ≡ x

  Holds-update :
      (id : Text) (f : RequestRow → RequestRow) (d : Db)
      → ((r : RequestRow) → (f r).id ≡ r.id)
      → id ≢ j
      → Holds d
      → Holds (update_request id f d)
  Holds-update id f d h ne e = find_request-update_ne id j f d h ne ∙ e

  module _ (env : Env) where
    Holds-prefix : (op : Text) → Keeps Holds (routing_prefix env tx op)
    unfolding routing_prefix
    Holds-prefix op = Keeps-tx env _ (λ now d p. elim (Option-cases (find_operator op d)) [
      | inl e ↦ rw e p
      | inr (o, e) ↦ rw e p
    ])

    Holds-lock : (id : Text) → Keeps Holds (lock_for_transition env tx id)
    unfolding lock_for_transition
    Holds-lock id = Keeps-tx env _ (λ now d p. elim (Option-cases (find_request id d)) [
      | inl e ↦ rw e p
      | inr (o, e) ↦ rw e p
    ])

    Holds-close :
        (id : Text) (s : StepStatus) (o : Origin) (now : Time)
        → Keeps Holds (close_current_step env tx id s o now)
    unfolding close_current_step
    Holds-close id s o now = Keeps-tx env _ (λ _ d p. p)

    Holds-complete :
        (id : Text) (s : StepStatus) (now : Time)
        → id ≢ j
        → Keeps Holds (complete_request env tx id s now)
    unfolding complete_request
    Holds-complete id s now ne =
        Keeps-tx env _ (λ _ d p. Holds-update id (completed_row s now) d (λ r. refl) ne p)

    Holds-advance :
        (id : Text) (s : Step) (now : Time) → id ≢ j → Keeps Holds (advance_step env tx id s now)
    unfolding advance_step
    Holds-advance id s now ne =
        Keeps-tx env _ (λ _ d p. Holds-update id (advanced_row s now) d (λ r. refl) ne p)

    Holds-transfer : (id op : Text) → Keeps Holds (transfer_to_registry env tx id op)
    unfolding transfer_to_registry
    Holds-transfer id op = Keeps-tx env _ (λ _ d p. p)

    Holds-route : (id a b : Text) → id ≢ j → Keeps Holds (apply_routing env tx id a b)
    unfolding apply_routing
    Holds-route id a b ne = Keeps-bind _ _ (Keeps-tx env _ (λ _ d p. p)) (λ _.
        Keeps-tx env _
          (λ _ d p. Holds-update id (λ r. record r { routing_info = some b }) d (λ r. refl) ne p))

    Holds-restitution :
        (id m op b : Text) → id ≢ j → Keeps Holds (apply_end_of_restitution env tx id m op b)
    unfolding apply_end_of_restitution
    Holds-restitution id m op b ne = Keeps-bind _ _ (Keeps-tx env _ (λ _ d p. p)) (λ _.
        Keeps-tx env _
          (λ _ d p. Holds-update id (λ r. record r { routing_info = some b }) d (λ r. refl) ne p))

    ruleset frame_rules = (
      keeps_rules, Holds-prefix, Holds-lock, Holds-close, Holds-complete, Holds-advance,
      Holds-transfer, Holds-route, Holds-restitution,
    )

    Holds-finish :
        (dm : PortingRequest) (s : StepStatus) (now : Time)
        → dm.id ≢ j
        → Keeps Holds (finish env dm s now)
    unfolding finish
    Holds-finish dm s now ne = search frame_rules

    Holds-leave : (dm : PortingRequest) → dm.id ≢ j → Keeps Holds (leave_step env dm)
    unfolding leave_step
    Holds-leave dm ne = search frame_rules

    Holds-move :
        (dm : PortingRequest) (next : Option Step) (s : StepStatus) (now : Time)
        → dm.id ≢ j
        → Keeps Holds (move env dm next s now)
    unfolding move
    Holds-move dm none s now ne = search (frame_rules, Holds-finish)
    Holds-move dm (some next) s now ne = search (frame_rules, Holds-leave)

    Holds-apply_to :
        (origin : Origin) (dm : PortingRequest)
        → dm.id ≢ j
        → Keeps Holds (apply_to env origin (some dm))
    unfolding apply_to
    Holds-apply_to origin dm ne = search (frame_rules, Holds-move)

    Holds-none : (origin : Origin) → Keeps Holds (apply_to env origin none)
    unfolding apply_to
    Holds-none origin = search frame_rules

module _ (env : Env) (id j : Text) (origin : Origin) (ne : id ≢ j) where
  locked-Holds :
      (x : Option RequestRow) (w : World)
      → find_request j w.db ≡ x
      → OnOk (apply_transition_locked env id origin w) (λ _. Holds j x)
  unfolding apply_transition_locked
  locked-Holds x w h =
      OnOk-bind _ _ w (Locked env id origin w.db) _ (lock-Locked env id origin w) (λ found w1 k.
        elim (Option-cases (find_request id w.db)) [
          | inl p ↦
              let q : found ≡ none = rw p at k.1 in
              rw q (OnOk-Keeps (Holds j x) _ w1 (Holds-none j x env origin) (rw k.0 h))
          | inr (r, p) ↦
              let q : found ≡ some (locked r) = rw p at k.1 in
              rw q (
                OnOk-Keeps (Holds j x) _ w1
                  (Holds-apply_to j x env origin (locked r) (rw (find_request-id id w.db r p) ne))
                  (rw k.0 h))
        ])

  -- Whether it returns or fails, a transition of one request leaves the row of every other request
  -- as it found it.
  pub apply_transition-others :
      (w : World)
      → find_request j (apply_transition env id origin w).1.db
        ≡ find_request j (env.others w.calls w.db)
  unfolding apply_transition
  apply_transition-others w =
      OnOk-OnErr _ (Holds j (find_request j (env.others w.calls w.db)))
        (OnOk-unit_of_work env _ w _ (λ w' e. locked-Holds _ w' (ap (find_request j) e)))
        (OnErr-mono (unit_of_work env (apply_transition_locked env id origin) w)
          (λ d. d ≡ env.others w.calls w.db) (Holds j (find_request j (env.others w.calls w.db)))
          (OnErr-unit_of_work env _ w) (λ d e. ap (find_request j) e))
