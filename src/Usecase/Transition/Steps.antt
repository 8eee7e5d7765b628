-- ===== src/Usecase/Transition/Steps.antt =====
-- What one transition does to the request that it locks
-- (internal/usecase/platform/apply_transition.go).
use numflex_sandbox.Prelude.{
  Option, Option-cases, ap, arith, false, if◌then◌else◌, inl, inr, none, refl, some, sym, true, ◌∙◌,
  ◌≡◌,
}
use numflex_sandbox.Entity.Request.{
  PortingRequest, RequestStatus, StepStatus, Text, Time, in_progress, is_in_progress,
}
use numflex_sandbox.Gateway.Requests.Transitions.{close_current_step, lock_for_transition, locked}
use numflex_sandbox.Store.Outcomes.{
  OnOk, OnOk-bind, OnOk-if, OnOk-mono, OnOk-now_written, OnOk-pure, OnOk-statement,
  OnOk-unit_of_work,
}
use numflex_sandbox.Store.Schema.{Db, Origin, RequestRow, find_request}
use numflex_sandbox.Store.Session.{Env, World, tx}
use numflex_sandbox.Store.Table.{find_request-id}
use numflex_sandbox.Usecase.Transition.{
  apply_to, apply_transition, apply_transition_locked, closed_status,
}
use numflex_sandbox.Usecase.Transition.Moves.{After, Before, Kept, Kept-self, Moved, move-After}

-- What a transition of `id` leaves of the request that it found in `before`.
abbrev pub Transitioned : Text → Option RequestRow → Db → Db → Type 0
Transitioned id none before after = after ≡ before
Transitioned id (some r) before after =
    if is_in_progress r.status then Moved (some r) (find_request id after) else after ≡ before

in_progress-eq : (s : RequestStatus) → is_in_progress s ≡ true → s ≡ in_progress
in_progress-eq s h = ground arith

module _ (env : Env) (id : Text) (origin : Origin) where
  close-Before :
      (status : StepStatus) (now : Time) (w : World) (r : RequestRow)
      → Kept r (find_request id w.db)
      → OnOk (close_current_step env tx id status origin now w) (Before env id r)
  unfolding close_current_step
  close-Before status now w r h = OnOk-statement env tx _ w _ (λ _ a e. h)

  Transitioned-Moved :
      (r : RequestRow) (before after : Db)
      → is_in_progress r.status ≡ true
      → Moved (some r) (find_request id after)
      → Transitioned id (some r) before after
  Transitioned-Moved r before after p h = rw p h

  Transitioned-closed :
      (r : RequestRow) (before : Db)
      → is_in_progress r.status ≡ false
      → Transitioned id (some r) before before
  Transitioned-closed r before p = rw p refl

  apply_to-Transitioned :
      (w : World) (r : RequestRow) (dm : PortingRequest)
      → find_request id w.db ≡ some r
      → dm.id ≡ id
      → dm.current_step ≡ r.current_step
      → dm.status ≡ r.status
      → OnOk (apply_to env origin (some dm) w) (λ _ d. Transitioned id (some r) w.db d)
  unfolding apply_to
  apply_to-Transitioned w r dm h e c s =
      OnOk-if (is_in_progress dm.status) _ _ w _
        (λ p.
          OnOk-mono _ (After env id r) _
            (OnOk-bind _ _ w (Before env id r) _
              (OnOk-now_written env _ w _ (λ now. Kept-self id w.db r h))
              (λ now w1 h1.
                OnOk-bind _ _ w1 (Before env id r) _
                  (rw e (close-Before (closed_status origin) now w1 r h1))
                  (λ _ w2 h2.
                    move-After env id r dm (closed_status origin) now w2 e c
                      (sym s ∙ in_progress-eq dm.status p) h2)))
            (λ _ d m. Transitioned-Moved r w.db d (ap is_in_progress (sym s) ∙ p) m))
        (λ p. OnOk-pure _ tt w _ (Transitioned-closed r w.db (ap is_in_progress (sym s) ∙ p)))

  -- What the lock reads.
  abbrev pub Locked : Db → Option PortingRequest → Db → Type 0
  Locked before found d =
      (d ≡ before)
      × (found ≡ elim (find_request id before) [ none ↦ none | some r ↦ some (locked r) ])

  pub lock-Locked : (w : World) → OnOk (lock_for_transition env tx id w) (Locked w.db)
  unfolding lock_for_transition
  lock-Locked w = OnOk-statement env tx _ w _ (λ now a e.
      elim (Option-cases (find_request id w.db)) [
        | inl p ↦ ground arith
        | inr (r, p) ↦ ground arith
      ])

  locked-Transitioned :
      (w : World)
      → OnOk
          (apply_transition_locked env id origin w)
          (λ _ d. Transitioned id (find_request id w.db) w.db d)
  unfolding apply_transition_locked apply_to
  locked-Transitioned w = OnOk-bind _ _ w (Locked w.db) _ (lock-Locked w) (λ found w1 h.
      elim (Option-cases (find_request id w.db)) [
        | inl p ↦ let q : found ≡ none = rw p at h.1 in rw q (rw p (OnOk-pure _ tt w1 _ h.0))
        | inr (r, p) ↦
            let q : found ≡ some (locked r) = rw p at h.1 in
            rw q (
              rw p (
                rw (sym h.0) (
                  apply_to-Transitioned w1 r (locked r) (rw h.0 p) (find_request-id id w.db r p)
                    refl refl)))
      ])

-- A transition that returns moves the request that it found by exactly one step of its life, if it
-- was in progress, and otherwise changes nothing in the database.
pub apply_transition-Transitioned :
    (env : Env) (id : Text) (origin : Origin) (w : World)
    → let before = env.others w.calls w.db in
      OnOk
        (apply_transition env id origin w)
        (λ _ after. Transitioned id (find_request id before) before after)
unfolding apply_transition
apply_transition-Transitioned env id origin w =
    OnOk-unit_of_work env _ w _ (λ w' e. rw (sym e) (locked-Transitioned env id origin w'))
