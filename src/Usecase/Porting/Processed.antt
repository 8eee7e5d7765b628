-- ===== src/Usecase/Porting/Processed.antt =====
-- What the processing of a step writes (internal/usecase/porting/process_step.go).
use numflex_sandbox.Prelude.{
  Bool, [], false, if◌then◌else◌, none, refl, some, subst, sym, true, ◌+◌, ◌==◌, ◌∙◌, ◌∷◌, ◌≡◌, ◌≢◌,
}
use numflex_sandbox.Entity.Authorization.{Caller, can_process}
use numflex_sandbox.Entity.Fault.{internal_error, lit}
use numflex_sandbox.Entity.Request.{Text, Time, empty_text}
use numflex_sandbox.Gateway.Requests.Reads.{porting_request, request_by_id}
use numflex_sandbox.Gateway.Requests.Transitions.{schedule_transition_at}
use numflex_sandbox.Gateway.Requests.Writes.{set_comment}
use numflex_sandbox.Store.Calm.{Calm, statement-calm, unit_of_work-calm}
use numflex_sandbox.Store.Runs.{Reliable, bind-ok, map_error-ok}
use numflex_sandbox.Store.Schema.{Db, RequestRow, find_request, nullif, update_request}
use numflex_sandbox.Store.Session.{
  Env, World, ok, or_fail, or_fault_from, pool, pure, tx, unit_of_work,
}
use numflex_sandbox.Store.Table.{find_request-id, find_request-update_ne, find_request-update_self}
use numflex_sandbox.Usecase.Acceptance.{read_back}
use numflex_sandbox.Usecase.Acceptance.Reread.{read_back-Keeps}
use numflex_sandbox.Usecase.Engine.{Window, delay, schedule_transition}
use numflex_sandbox.Usecase.Porting.{process_step}
use numflex_sandbox.Usecase.Porting.Last.{next}

module _ (env : Env) (reliable : Reliable env) (calm : Calm env) (caller : Caller) (window : Window)
    (id comment : Text) (r : RequestRow) (w : World) where
  abbrev is_commented : RequestRow → RequestRow
  is_commented x = record x { comment = nullif comment }

  -- The world after the comment, by whether the comment is empty.
  abbrev remarked : Bool → World
  remarked true = next w
  remarked false = record w {
    db = update_request r.id is_commented w.db;
    calls = w.calls + 1 + 1 + 1 + 1;
  }

  -- When the transition is due.
  abbrev pub due_at : Bool → Time
  due_at b = env.db_clock ((remarked b).calls + 1) + delay env window (remarked b).calls

  abbrev is_due_at : Bool → RequestRow → RequestRow
  is_due_at b x = record x { transition_due = some (due_at b) }

  abbrev scheduled_world : Bool → World
  scheduled_world b = record (remarked b) {
    db = update_request r.id (is_due_at b) (remarked b).db;
    calls = (remarked b).calls + 1 + 1 + 1;
  }

  by_id-eq :
      find_request id w.db ≡ some r
      → request_by_id env pool id w ≡ (ok (some (porting_request r)), next w)
  unfolding request_by_id
  by_id-eq e = statement-calm env reliable calm pool _ w _ w.db (rw e refl)

  comment-eq :
      (b : Bool)
      → (if b
            then pure tt
            else or_fault_from (
                unit_of_work env (
                  or_fail
                    (set_comment env tx r.id comment)
                    (internal_error (lit "saving the comment" ∷ [])))))
          (next w)
        ≡ (ok tt, remarked b)
  unfolding pure set_comment
  comment-eq true = refl
  comment-eq false =
      let w' = record (remarked false) { calls = w.calls + 1 + 1 + 1 } in
      map_error-ok _ _ (next w) (remarked false) tt (
        unit_of_work-calm env reliable calm _ (next w) w' tt (
          map_error-ok _ _ (next (next w)) w' tt
            (statement-calm env reliable calm tx _ (next (next w)) tt w'.db refl)))

  schedule-eq :
      (b : Bool)
      → (window.convergence_max == 0) ≡ false
      → schedule_transition env window r.id (remarked b) ≡ (ok tt, scheduled_world b)
  unfolding schedule_transition schedule_transition_at
  schedule-eq b h = rw h (
      unit_of_work-calm env reliable calm _ (remarked b)
        (record (scheduled_world b) { calls = (remarked b).calls + 1 + 1 }) tt
        (statement-calm env reliable calm tx _ (next (remarked b)) tt (scheduled_world b).db refl))

  run-eq :
      (b : Bool)
      → find_request id w.db ≡ some r
      → can_process (porting_request r) caller.operator_id ≡ none
      → (comment == empty_text) ≡ b
      → (window.convergence_max == 0) ≡ false
      → process_step env caller window id comment w ≡ read_back env r.id (scheduled_world b)
  unfolding process_step pure
  run-eq b e may said windowed =
      bind-ok _ _ w (next w) (some (porting_request r)) (map_error-ok _ _ w (next w) _ (by_id-eq e))
      ∙ bind-ok _ _ (next w) (next w) (porting_request r) refl
      ∙ bind-ok _ _ (next w) (next w) tt (rw may refl)
      ∙ bind-ok _ _ (next w) (remarked b) tt (rw said (comment-eq b))
      ∙ bind-ok _ _ (remarked b) (scheduled_world b) tt
          (map_error-ok _ _ (remarked b) (scheduled_world b) _ (schedule-eq b windowed))

  -- The request after the act: its step stays, and an empty comment leaves the one that it had.
  abbrev pub processed : Bool → RequestRow
  processed true = record r { transition_due = some (due_at true) }
  processed false = record r { comment = nullif comment; transition_due = some (due_at false) }

  -- The database after the act; `j` is another request.
  abbrev pub IsProcessed : Bool → Text → Db → Type 0
  IsProcessed b j outcome =
      (find_request id outcome ≡ some (processed b))
      × (find_request j outcome ≡ find_request j w.db)
      × (outcome.history ≡ w.db.history)
      × (outcome.confirmations ≡ w.db.confirmations)

  scheduled-IsProcessed :
      (b : Bool) (j : Text)
      → r.id ≡ id
      → find_request id w.db ≡ some r
      → id ≢ j
      → IsProcessed b j (scheduled_world b).db
  scheduled-IsProcessed true j p e n = (
    subst (λ k. find_request id (update_request k (is_due_at true) w.db) ≡ some (processed true))
        (sym p) (find_request-update_self id (is_due_at true) w.db r (λ x. refl) e),
    subst (λ k. find_request j (update_request k (is_due_at true) w.db) ≡ find_request j w.db)
        (sym p) (find_request-update_ne id j (is_due_at true) w.db (λ x. refl) n),
    refl,
    refl,
  )
  scheduled-IsProcessed false j p e n =
      let said = update_request id is_commented w.db in
      (
        subst
            (λ k.
              find_request id
                (update_request k (is_due_at false) (update_request k is_commented w.db))
              ≡ some (processed false))
            (sym p)
            (find_request-update_self id (is_due_at false) said (is_commented r) (λ x. refl)
              (find_request-update_self id is_commented w.db r (λ x. refl) e)),
        subst
            (λ k.
              find_request j
                (update_request k (is_due_at false) (update_request k is_commented w.db))
              ≡ find_request j w.db)
            (sym p)
            (find_request-update_ne id j (is_due_at false) said (λ x. refl) n
              ∙ find_request-update_ne id j is_commented w.db (λ x. refl) n),
        refl,
        refl,
      )

  -- An operator processes the step of a request that it may process; the driver does not fail, no
  -- other session writes, and there is a convergence window. Then the transition of the request is
  -- scheduled, after the delay that is drawn, and its step does not move yet; a comment that is not
  -- empty replaces the one that it had; no row of the history or of the confirmations is written, and
  -- any other request is as it was.
  pub process_step-IsProcessed :
      (j : Text)
      → find_request id w.db ≡ some r
      → can_process (porting_request r) caller.operator_id ≡ none
      → (window.convergence_max == 0) ≡ false
      → id ≢ j
      → IsProcessed (comment == empty_text) j (process_step env caller window id comment w).1.db
  process_step-IsProcessed j e may windowed n =
      let b = comment == empty_text in
      let p = find_request-id id w.db r e in
      subst (λ x. IsProcessed b j x.1.db) (sym (run-eq b e may refl windowed))
        ((read_back-Keeps env (λ k d. subst (IsProcessed b j) (sym (calm k d))) r.id).at
          (scheduled_world b) (scheduled-IsProcessed b j p e n))
