-- ===== src/Usecase/Porting/Last.antt =====
-- The last expected confirmation schedules the transition
-- (internal/usecase/porting/confirm_request.go).
use numflex_sandbox.Prelude.{
  Bool, List, [], any, any-some, ap, arith, contains, false, if◌then◌else◌, leb, length,
  length-keep_append, map, none, order_by, refl, some, subst, sym, true, ◌++◌, ◌+◌, ◌==◌, ◌∙◌, ◌∷◌,
  ◌≡◌, ◌≢◌,
}
use numflex_sandbox.Entity.Authorization.{Caller, expected_confirmers}
use numflex_sandbox.Entity.Fault.{lit}
use numflex_sandbox.Entity.Request.{Text, Time}
use numflex_sandbox.Framework.Identifier.{after}
use numflex_sandbox.Framework.Text.{positive}
use numflex_sandbox.Gateway.Confirmations.{
  confirm, confirmations_of, count_confirmations, has_confirmed,
}
use numflex_sandbox.Gateway.Reference.{read_operators}
use numflex_sandbox.Gateway.Requests.Reads.{porting_request, request_by_id}
use numflex_sandbox.Gateway.Requests.Transitions.{schedule_transition_at}
use numflex_sandbox.Store.Calm.{Calm, statement-calm, unit_of_work-calm}
use numflex_sandbox.Store.Runs.{Reliable, bind-ok, map_error-ok}
use numflex_sandbox.Store.Schema.{
  ConfirmationRow, Db, RequestRow, find_request, has_operator, is_request, nullif, update_request,
}
use numflex_sandbox.Store.Session.{Env, World, clock_now, ok, or_internal, pool, pure, tx}
use numflex_sandbox.Store.Table.{find_request-id, find_request-update_ne, find_request-update_self}
use numflex_sandbox.Usecase.Acceptance.{read_back}
use numflex_sandbox.Usecase.Acceptance.Reread.{read_back-Keeps}
use numflex_sandbox.Usecase.Engine.{Window, delay, schedule_transition}
use numflex_sandbox.Usecase.Porting.{can_confirm, confirm_in_transaction, confirm_request}

-- The world after one more access to the database.
abbrev pub next : World → World
next w = record w { calls = w.calls + 1 }

module _ (env : Env) (reliable : Reliable env) (calm : Calm env) (caller : Caller) (window : Window)
    (id comment : Text) (r : RequestRow) (w : World) where
  -- The operators whose confirmation is waited for.
  abbrev pub expected : List Text
  expected =
      expected_confirmers (porting_request r)
        (map (λ o. o.id) (order_by (λ o. o.name) w.db.operators))

  -- The worlds after the two reads, and at the beginning of the transaction.
  abbrev pub two_read : World
  two_read = next (next w)

  abbrev pub confirmation_row : ConfirmationRow
  confirmation_row = record {
    request_id = r.id;
    operator_id = caller.operator_id;
    comment = nullif comment;
    confirmed_at = env.clock (two_read.calls + 1);
  }

  abbrev noted : World
  noted = record two_read {
    db = record w.db { confirmations = w.db.confirmations ++ (confirmation_row ∷ []) };
    calls = two_read.calls + 1 + 1 + 1;
  }

  by_id-eq :
      find_request id w.db ≡ some r
      → request_by_id env pool id w ≡ (ok (some (porting_request r)), next w)
  unfolding request_by_id
  by_id-eq e = statement-calm env reliable calm pool _ w _ w.db (rw e refl)

  operators-eq :
      read_operators env pool (next w) ≡ (ok (order_by (λ o. o.name) w.db.operators), two_read)
  unfolding read_operators
  operators-eq = statement-calm env reliable calm pool _ (next w) _ w.db refl

  in_transaction-eq :
      has_confirmed r.id caller.operator_id w.db ≡ false
      → any (is_request r.id) w.db.requests ≡ true
      → has_operator caller.operator_id w.db ≡ true
      → confirm_in_transaction env caller window r.id comment two_read ≡ (ok tt, noted)
  unfolding confirm_in_transaction confirm clock_now
  in_transaction-eq h k o =
      let w' = record noted { calls = two_read.calls + 1 + 1 } in
      map_error-ok _ _ two_read noted tt (
        unit_of_work-calm env reliable calm _ two_read w' tt (
          bind-ok (clock_now env) _ (next two_read) (next two_read)
            (env.clock (next two_read).calls) refl
          ∙ map_error-ok _ _ (next two_read) w' tt (
              map_error-ok _ _ (next two_read) w' tt (
                statement-calm env reliable calm tx _ (next two_read) tt w'.db
                  (rw h (rw k (rw o refl)))))))

  count-eq :
      count_confirmations env pool r.id noted ≡ (ok (confirmations_of r.id w.db + 1), next noted)
  unfolding count_confirmations
  count-eq =
      statement-calm env reliable calm pool _ noted _ noted.db refl
      ∙ ap (λ n. (ok n, next noted))
          (length-keep_append (λ c. c.request_id == r.id) w.db.confirmations confirmation_row
            ∙ ground arith)

  -- When the transition is due, where it is scheduled.
  abbrev pub due : Time
  due =
      env.db_clock (two_read.calls + 1 + 1 + 1 + 1 + 1)
      + delay env window (two_read.calls + 1 + 1 + 1 + 1)

  abbrev is_scheduled : RequestRow → RequestRow
  is_scheduled x = record x { transition_due = some due }

  -- The world before the request is read again.
  abbrev settled : Bool → World
  settled true = record noted {
    db = update_request r.id is_scheduled noted.db;
    calls = noted.calls + 1 + 1 + 1 + 1;
  }
  settled false = next noted

  schedule-eq :
      (window.convergence_max == 0) ≡ false
      → schedule_transition env window r.id (next noted) ≡ (ok tt, settled true)
  unfolding schedule_transition schedule_transition_at
  schedule-eq h = rw h (
      unit_of_work-calm env reliable calm _ (next noted)
        (record noted { db = (settled true).db; calls = noted.calls + 1 + 1 + 1 }) tt
        (statement-calm env reliable calm tx _ (next (next noted)) tt (settled true).db refl))

  settle-eq :
      (b : Bool)
      → (window.convergence_max == 0) ≡ false
      → (if b
            then or_internal
                (schedule_transition env window r.id)
                (lit "scheduling the transition" ∷ [])
            else pure tt)
          (next noted)
        ≡ (ok tt, settled b)
  unfolding pure
  settle-eq true h = map_error-ok _ _ (next noted) (settled true) tt (schedule-eq h)
  settle-eq false h = refl

  run-eq :
      (b : Bool)
      → find_request id w.db ≡ some r
      → can_confirm (porting_request r) ≡ none
      → contains expected caller.operator_id ≡ true
      → has_confirmed r.id caller.operator_id w.db ≡ false
      → any (is_request r.id) w.db.requests ≡ true
      → has_operator caller.operator_id w.db ≡ true
      → (window.convergence_max == 0) ≡ false
      → leb (length expected) (confirmations_of r.id w.db + 1) ≡ b
      → confirm_request env caller window id comment w ≡ read_back env r.id (settled b)
  unfolding confirm_request pure
  run-eq b e can waited fresh known o positive last =
      bind-ok _ _ w (next w) (some (porting_request r)) (map_error-ok _ _ w (next w) _ (by_id-eq e))
      ∙ bind-ok _ _ (next w) (next w) (porting_request r) refl
      ∙ bind-ok _ _ (next w) (next w) tt (rw can refl)
      ∙ bind-ok _ _ (next w) two_read (order_by (λ o. o.name) w.db.operators)
          (map_error-ok _ _ (next w) two_read _ operators-eq)
      ∙ bind-ok _ _ two_read two_read tt (rw waited refl)
      ∙ bind-ok _ _ two_read noted tt (in_transaction-eq fresh known o)
      ∙ bind-ok _ _ noted (next noted) (confirmations_of r.id w.db + 1)
          (map_error-ok _ _ noted (next noted) _ count-eq)
      ∙ bind-ok _ _ (next noted) (settled b) tt (rw last (settle-eq b positive))

  -- The request after the confirmation, by whether it was the last one that was waited for.
  abbrev pub confirmed : Bool → RequestRow
  confirmed true = record r { transition_due = some due }
  confirmed false = r

  -- The database after the confirmation; `j` is another request.
  abbrev pub IsConfirmed : Bool → Text → Db → Type 0
  IsConfirmed b j after =
      (after.confirmations ≡ w.db.confirmations ++ (confirmation_row ∷ []))
      × (find_request id after ≡ some (confirmed b))
      × (find_request j after ≡ find_request j w.db)

  settled-IsConfirmed :
      (b : Bool) (j : Text)
      → find_request id w.db ≡ some r
      → id ≢ j
      → IsConfirmed b j (settled b).db
  settled-IsConfirmed false j e n = (refl, e, refl)
  settled-IsConfirmed true j e n =
      let p = find_request-id id w.db r e in
      (
        refl,
        subst
            (λ k. find_request id (update_request k is_scheduled noted.db) ≡ some (confirmed true))
            (sym p) (find_request-update_self id is_scheduled noted.db r (λ x. refl) e),
        subst (λ k. find_request j (update_request k is_scheduled noted.db) ≡ find_request j w.db)
            (sym p) (find_request-update_ne id j is_scheduled noted.db (λ x. refl) n),
      )

  -- A request waits for confirmations, and the caller is one of the operators that are waited for,
  -- has not confirmed yet, and is known. The driver does not fail, no other session writes, and there
  -- is a convergence window. Then the confirmation is recorded; the transition of the request is
  -- scheduled, after the delay that is drawn, exactly if there are now at least as many confirmations
  -- as there are operators waited for; and any other request is as it was.
  pub confirm_request-IsConfirmed :
      (j : Text)
      → find_request id w.db ≡ some r
      → can_confirm (porting_request r) ≡ none
      → contains expected caller.operator_id ≡ true
      → has_confirmed id caller.operator_id w.db ≡ false
      → has_operator caller.operator_id w.db ≡ true
      → (window.convergence_max == 0) ≡ false
      → id ≢ j
      → IsConfirmed
          (leb (length expected) (confirmations_of id w.db + 1))
          j
          (confirm_request env caller window id comment w).1.db
  confirm_request-IsConfirmed j e can waited fresh o positive n =
      let p = find_request-id id w.db r e in
      let b = leb (length expected) (confirmations_of id w.db + 1) in
      let run =
        run-eq b e can waited (rw p fresh) (rw p (any-some (is_request id) _ r e)) o positive
          (ap (λ k. leb (length expected) (confirmations_of k w.db + 1)) p) in
      subst (λ x. IsConfirmed b j x.1.db) (sym run)
        ((read_back-Keeps env (λ k d. subst (IsConfirmed b j) (sym (calm k d))) r.id).at (settled b)
          (settled-IsConfirmed b j e n))
