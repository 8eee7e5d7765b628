-- ===== src/Usecase/Transition/Registry.antt =====
-- What a transition does to the registry, the table numero
-- (internal/usecase/platform/apply_transition.go).
use numflex_sandbox.Prelude.{
  Bool, Option-cases, any, ap, arith, false, inl, inr, not, refl, some, sym, true, ◌&&◌, ◌==◌, ◌||◌,
  ◌∙◌, ◌≡◌,
}
use numflex_sandbox.Entity.Errors.{GoError}
use numflex_sandbox.Entity.Request.{
  Step, StepStatus, Text, Time, is_activation, is_completion, is_in_progress, is_porting,
}
use numflex_sandbox.Entity.Step.{next_step}
use numflex_sandbox.Gateway.Requests.Transitions.{
  apply_end_of_restitution, close_current_step, is_ported, locked, transfer_to_registry,
}
use numflex_sandbox.Store.Keeps.{Keeps-bind, OnOk-Keeps}
use numflex_sandbox.Store.Outcomes.{
  OnOk, OnOk-bind, OnOk-if, OnOk-mono, OnOk-now_written, OnOk-pure, OnOk-raise, OnOk-statement,
  OnOk-unit_of_work,
}
use numflex_sandbox.Store.Schema.{Db, Origin, RequestRow, find_request}
use numflex_sandbox.Store.Session.{Env, Outcome, World, tx}
use numflex_sandbox.Usecase.Transition.{
  apply_to, apply_transition, apply_transition_locked, closed_status, finish, leave_step, move,
}
use numflex_sandbox.Usecase.Transition.Handover.{
  Handed, Handed-none, Handed-restitution, Handed-transfer, Same, advance-Handed, complete-Handed,
  prefix-Handed, prefix-Same, route-Handed,
}
use numflex_sandbox.Usecase.Transition.Holders.{handed, holder, is_handed}
use numflex_sandbox.Usecase.Transition.Steps.{Locked, lock-Locked}

module _ (env : Env) (r : RequestRow) (base : Db) where
  -- What leaving a step hands over, and what ending a request does.
  abbrev leaves : Text → Bool
  leaves m =
      (is_activation r.current_step && is_porting r.request_type)
      && any (is_ported r.id m) base.request_numbers

  abbrev ends : Text → Bool
  ends m = not (is_porting r.request_type) && m == r.msisdn

  Handed-ext :
      (b c : Text → Bool) (d : Db)
      → ((m : Text) → b m ≡ c m)
      → Handed env r base b d
      → Handed env r base c d
  Handed-ext b c d e h m = rw (sym (e m)) (h m)

  OnOk-Handed :
      {A : Type 0} (x : Outcome GoError A × World) (b c : Text → Bool)
      → ((m : Text) → b m ≡ c m)
      → OnOk x (λ _. Handed env r base b)
      → OnOk x (λ _. Handed env r base c)
  OnOk-Handed x b c e h = OnOk-mono x (λ _. Handed env r base b) _ h (λ _ d. Handed-ext b c d e)

  leave-Handed :
      (w : World)
      → Same env r base w.db
      → OnOk (leave_step env (locked r) w) (λ _. Handed env r base leaves)
  unfolding leave_step transfer_to_registry
  leave-Handed w h =
      OnOk-if (is_activation r.current_step && is_porting r.request_type) _ _ w _
        (λ e.
          OnOk-Handed _ (λ m. any (is_ported r.id m) base.request_numbers) _ (λ m. rw e refl)
            (OnOk-bind _ _ w
              (λ _. Handed env r base (λ m. any (is_ported r.id m) base.request_numbers)) _
              (OnOk-statement env tx _ w _ (λ now a k. Handed-transfer env r base now w.db h))
              (λ _ w1 h1.
                OnOk-Keeps _ _ w1
                  (Keeps-bind _ _ (prefix-Handed env r base _ r.recipient_operator_id) (λ a.
                    Keeps-bind _ _ (prefix-Handed env r base _ r.source_operator_id)
                      (λ b. route-Handed env r base _ b a)))
                  h1)))
        (λ e.
          OnOk-pure _ tt w _
            (Handed-ext (λ _. false) _ w.db (λ m. rw e refl) (Handed-none env r base w.db h)))

  finish-Handed :
      (s : StepStatus) (now : Time) (w : World)
      → Same env r base w.db
      → OnOk (finish env (locked r) s now w) (λ _. Handed env r base ends)
  unfolding finish apply_end_of_restitution
  finish-Handed s now w h =
      OnOk-if (is_porting r.request_type) _ _ w _
        (λ e.
          OnOk-Handed _ (λ _. false) _ (λ m. rw e refl)
            (OnOk-Keeps _ _ w (complete-Handed env r base (λ _. false) s now)
              (Handed-none env r base w.db h)))
        (λ e.
          OnOk-Handed _ (λ m. m == r.msisdn) _ (λ m. rw e refl)
            (OnOk-bind _ _ w (λ _. Same env r base) _
              (OnOk-Keeps (Same env r base) _ w (prefix-Same env r base r.recipient_operator_id) h)
              (λ p w1 h1.
                OnOk-bind _ _ w1 (λ _. Handed env r base (λ m. m == r.msisdn)) _
                  (OnOk-bind _ _ w1 (λ _. Handed env r base (λ m. m == r.msisdn)) _
                    (OnOk-statement env tx _ w1 _
                      (λ t a k. Handed-restitution env r base t w1.db h1))
                    (λ _ w2 h2. OnOk-statement env tx _ w2 _ (λ t a k. h2)))
                  (λ _ w3 h3. OnOk-Keeps _ _ w3 (complete-Handed env r base _ s now) h3))))

  step-tests :
      (step : Step)
      → (is_completion step ≡ true → is_activation step ≡ false)
        × ((next : Step) → next_step step ≡ some next → is_completion step ≡ false)
  unfolding next_step
  step-tests step = ground arith

  abbrev moves : Text → Bool
  moves m =
      (is_activation r.current_step
        && is_porting r.request_type
        && any (is_ported r.id m) base.request_numbers)
      || (is_completion r.current_step && not (is_porting r.request_type) && m == r.msisdn)

  move-Handed :
      (s : StepStatus) (now : Time) (w : World)
      → Same env r base w.db
      → OnOk (move env (locked r) (next_step r.current_step) s now w) (λ _. Handed env r base moves)
  unfolding move
  move-Handed s now w h = elim (Option-cases (next_step r.current_step)) [
    | inl e ↦ rw e (
        OnOk-if (is_completion r.current_step) _ _ w _
          (λ k.
            OnOk-Handed _ ends _ (λ m. let a = (step-tests r.current_step).0 k in rw a (rw k refl))
              (finish-Handed s now w h))
          (λ _. OnOk-raise _ w _))
    | inr (next, e) ↦ rw e (
        OnOk-Handed _ leaves _
          (λ m.
            let a = (step-tests r.current_step).1 next e in
            rw a (
              cases (is_activation r.current_step) (is_porting r.request_type)
                (any (is_ported r.id m) base.request_numbers)))
          (OnOk-bind _ _ w (λ _. Handed env r base leaves) _ (leave-Handed w h)
            (λ _ w1 h1. OnOk-Keeps _ _ w1 (advance-Handed env r base leaves next now) h1)))
  ]
    where
      cases : (a b c : Bool) → (a && b) && c ≡ (a && b && c) || false
      cases a b c = ground arith

  apply_to-Handed :
      (origin : Origin) (w : World)
      → Same env r base w.db
      → OnOk
          (apply_to env origin (some (locked r)) w)
          (λ _. Handed env r base (is_handed r base.request_numbers))
  unfolding apply_to close_current_step
  apply_to-Handed origin w h =
      OnOk-if (is_in_progress r.status) _ _ w _
        (λ p.
          OnOk-Handed _ moves _ (λ m. rw p refl)
            (OnOk-bind _ _ w (λ _. Same env r base) _ (OnOk-now_written env _ w _ (λ now. h))
              (λ now w1 h1.
                OnOk-bind _ _ w1 (λ _. Same env r base) _
                  (OnOk-statement env tx _ w1 _ (λ _ a e. h1))
                  (λ _ w2 h2. move-Handed (closed_status origin) now w2 h2))))
        (λ p.
          OnOk-pure _ tt w _
            (Handed-ext (λ _. false) _ w.db (λ m. rw p refl) (Handed-none env r base w.db h)))

module _ (env : Env) (id : Text) (origin : Origin) (r : RequestRow) where
  locked-Handed :
      (w : World)
      → find_request id w.db ≡ some r
      → OnOk
          (apply_transition_locked env id origin w)
          (λ _. Handed env r w.db (is_handed r w.db.request_numbers))
  unfolding apply_transition_locked
  locked-Handed w h =
      OnOk-bind _ _ w (Locked env id origin w.db) _ (lock-Locked env id origin w) (λ found w1 k.
        let q : found ≡ some (locked r) = rw h at k.1 in
        rw q (
          apply_to-Handed env r w.db origin w1
            (ap (λ d. d.numbers) (k.0), ap (λ d. d.request_numbers) (k.0))))

  begins :
      (before : Db) (w : World)
      → w.db ≡ before
      → find_request id before ≡ some r
      → OnOk
          (apply_transition_locked env id origin w)
          (λ _. Handed env r before (is_handed r before.request_numbers))
  begins before w e h = rw (sym e) (locked-Handed w (ap (find_request id) e ∙ h))

  -- A transition that returns hands a number of the registry to the request's recipient exactly
  -- where `is_handed` says so: the numbers of a PORTAGE in progress that are neither excluded nor
  -- rejected, when it leaves ACTIVATION, and the number of another request in progress, when it
  -- leaves COMPLETION. Every other number keeps its holder.
  pub apply_transition-holder :
      (w : World) (msisdn : Text)
      → let before = env.others w.calls w.db in
        find_request id before ≡ some r
        → OnOk (apply_transition env id origin w) (λ _ after.
          holder msisdn after.numbers
          ≡ handed
              (is_handed r before.request_numbers msisdn)
              r.recipient_operator_id
              (holder msisdn before.numbers))
  unfolding apply_transition
  apply_transition-holder w msisdn h =
      let before = env.others w.calls w.db in
      OnOk-mono _ (λ _. Handed env r before (is_handed r before.request_numbers)) _
        (OnOk-unit_of_work env _ w _ (λ w' e. begins before w' e h)) (λ _ d k. k msisdn)
