-- ===== src/Usecase/Sandbox/Purged.antt =====
-- What a purge leaves (internal/usecase/sandbox/purge_test_data.go, sandbox_gateway.go).
use numflex_sandbox.Prelude.{
  List, Option, String, [], any, ap, arith, contains, false, keep, length, map, none, not, refl,
  some, update_where, ℕ, ◌&&◌, ◌+◌, ◌∙◌, ◌∷◌, ◌≡◌,
}
use numflex_sandbox.Entity.Authorization.{Caller}
use numflex_sandbox.Entity.Request.{Text}
use numflex_sandbox.Gateway.Sandbox.{
  delete_otp, delete_requests, delete_reverse_requests, is_made_by, is_purged_reverse,
  numbers_to_restore, purged_numbers, refers_to, request_ids_to_purge, restore_numbers, restored,
}
use numflex_sandbox.Store.Outcomes.{begun}
use numflex_sandbox.Store.Runs.{Reliable, bind-ok, map_error-ok, statement-ok, unit_of_work-ok}
use numflex_sandbox.Store.Schema.{Db, RequestRow, ReverseRow}
use numflex_sandbox.Store.Session.{Env, Statement, World, ok, pure, statement, tx}
use numflex_sandbox.Usecase.Creation.Inputs.{or_abort}
use numflex_sandbox.Usecase.Sandbox.{PurgeTestDataResult, purge_in_transaction, purge_test_data}

-- The requests that the operator made, and the numbers that they are about.
abbrev pub made_ids : Text → Db → List Text
made_ids op d = map (λ r. r.id) (keep (is_made_by op) d.requests)

abbrev pub made_numbers : Text → Db → List Text
made_numbers op d = purged_numbers (made_ids op d) d

-- The database without the test data of the operator, table by table.
abbrev pub without : Text → List Text → List Text → Db → Db
without op ids numbers d = record d {
  requests = keep (λ r. not (contains ids r.id)) d.requests;
  request_numbers = keep (λ n. not (contains ids n.request_id)) d.request_numbers;
  clients = keep (λ c. not (contains ids c.request_id)) d.clients;
  history = keep (λ h. not (contains ids h.request_id)) d.history;
  confirmations = keep (λ c. not (contains ids c.request_id)) d.confirmations;
  reverses = keep (λ v. not (is_purged_reverse op ids v)) d.reverses;
  otps = keep (λ o. not (contains numbers o.msisdn)) d.otps;
  numbers = update_where (λ n. contains numbers n.msisdn) restored d.numbers;
}

abbrev pub purged : Text → Db → Db
purged op d = without op (made_ids op d) (made_numbers op d) d

-- How many rows of each table this concerns.
abbrev pub counts : Text → List Text → List Text → Db → PurgeTestDataResult
counts op ids numbers d = record {
  requests_deleted = length (keep (λ r. contains ids r.id) d.requests);
  numbers_restored = length (keep (λ n. contains numbers n.msisdn) d.numbers);
  otp_deleted = length (keep (λ o. contains numbers o.msisdn) d.otps);
  reverse_deleted = length (keep (is_purged_reverse op ids) d.reverses);
}

abbrev pub counted : Text → Db → PurgeTestDataResult
counted op d = counts op (made_ids op d) (made_numbers op d) d

refers_to-blocked :
    (ids : List Text) (o : Option Text) (rs : List RequestRow)
    → refers_to ids o ≡ false
    → any (λ r. contains ids r.id && refers_to (r.id ∷ []) o) rs ≡ false
refers_to-blocked ids o [] h = refl
refers_to-blocked ids none (r ∷ rs) h = ground (arith, refers_to-blocked ids none rs h)
refers_to-blocked ids (some x) (r ∷ rs) h = ground (arith, refers_to-blocked ids (some x) rs h)

-- No reverse request that is left refers to a purged request.
unblocked :
    (op : Text) (ids : List Text) (rs : List RequestRow) (vs : List ReverseRow)
    → any
        (λ v. any (λ r. contains ids r.id && refers_to (r.id ∷ []) v.request_id) rs)
        (keep (λ v. not (is_purged_reverse op ids v)) vs)
      ≡ false
unblocked op ids rs [] = refl
unblocked op ids rs (v ∷ vs) =
    ground (arith, unblocked op ids rs vs, refers_to-blocked ids v.request_id rs)

module _ (env : Env) (reliable : Reliable env) where
  abort-ok :
      {A : Type 0} (run : Statement A) (s : String) (w : World) (a : A) (d : Db)
      → run (env.db_clock w.calls) w.db ≡ (ok a, d)
      → or_abort (statement env tx run) s w ≡ (ok a, record w { db = d; calls = w.calls + 1 })
  abort-ok run s w a d e =
      map_error-ok _ (statement env tx run) w _ a (statement-ok env reliable tx run w a d e)

  purge_in_transaction-ok :
      (op : Text) (w : World)
      → (n : ℕ) × (purge_in_transaction env op w
          ≡ (ok (counted op w.db), record w { db = purged op w.db; calls = n }))
  unfolding purge_in_transaction request_ids_to_purge numbers_to_restore delete_reverse_requests
      delete_otp delete_requests restore_numbers pure
  purge_in_transaction-ok op w =
      let ids = made_ids op w.db in
      let numbers = made_numbers op w.db in
      (
        _,
        bind-ok _ _ w _ ids (abort-ok _ _ w _ _ refl)
            ∙ bind-ok _ _ _ _ numbers (abort-ok _ _ _ _ _ refl)
            ∙ bind-ok _ _ _ _ _ (abort-ok _ _ _ _ _ refl)
            ∙ bind-ok _ _ _ _ _ (abort-ok _ _ _ _ _ refl)
            ∙ bind-ok _ _ _ _ _
                (abort-ok _ _ _ _ _ (rw (unblocked op ids w.db.requests w.db.reverses) refl))
            ∙ bind-ok _ _ _ _ _ (abort-ok _ _ _ _ _ refl)
            ∙ refl,
      )

  -- Where the driver does not fail, a purge returns: no foreign key stops it. It deletes the
  -- requests that the operator made with all their rows, the reverse requests that it submitted or
  -- that led to one of them, and the challenges of the numbers; it brings the numbers back to their
  -- origin; it leaves every other row of every table as it was, and answers how many rows of each
  -- table it concerned.
  pub purge_test_data-purged :
      (caller : Caller) (w : World)
      → let d = env.others w.calls w.db in
        let x = purge_test_data env caller w in
        (x.0 ≡ ok (counted caller.operator_id d)) × (x.1.db ≡ purged caller.operator_id d)
  unfolding purge_test_data
  purge_test_data-purged caller w =
      let (n, e) = purge_in_transaction-ok caller.operator_id (begun env w) in
      let run = map_error-ok _ _ w _ _ (unit_of_work-ok env reliable _ w _ _ e) in
      (ap (λ x. x.0) run, ap (λ x. x.1.db) run)
