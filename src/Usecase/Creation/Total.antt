-- ===== src/Usecase/Creation/Total.antt =====
-- The transaction of an individual creation returns
-- (internal/usecase/creation/create_individual_request.go).
use numflex_sandbox.Prelude.{
  ==_iff, Bool, List, Option, [], any, ap, arith, false, none, refl, some, subst, sym, true, ℕ,
  ◌++◌, ◌+◌, ◌==◌, ◌∙◌, ◌∷◌, ◌≡◌,
}
use numflex_sandbox.Entity.Authorization.{Caller}
use numflex_sandbox.Entity.Errors.{GoError}
use numflex_sandbox.Entity.Request.{Text, Time, acceptance}
use numflex_sandbox.Gateway.Otps.{consume_otp}
use numflex_sandbox.Gateway.Requests.Reads.{find_operator, routing_prefix}
use numflex_sandbox.Gateway.Requests.Writes.{
  CreateRequestInput, add_client, add_number, create_request, is_number_of, new_row,
}
use numflex_sandbox.Store.Runs.{
  IsOk, OnOk-IsOk, Reliable, bind-ok, map_error-ok, statement-eq, unit_of_work-IsOk,
}
use numflex_sandbox.Store.Schema.{
  ClientRow, Db, OperatorRow, RequestNumberRow, RequestRow, find_request, has_operator, is_request,
}
use numflex_sandbox.Store.Session.{
  Env, Statement, World, map_error, ok, statement, tx, unit_of_work,
}
use numflex_sandbox.Usecase.Creation.Individual.{individual_transaction}
use numflex_sandbox.Usecase.Creation.Inputs.{CreateIndividualRequestInput}
use numflex_sandbox.Usecase.Creation.Written.{AreConsumed, IsNew, create_individual-Created}

any-append :
    (p : RequestRow → Bool) (rs : List RequestRow) (r : RequestRow)
    → p r ≡ true
    → any p (rs ++ (r ∷ [])) ≡ true
any-append p [] r h = ground (arith, h)
any-append p (x ∷ rs) r h = ground (arith, any-append p rs r h)

-- What makes room for a new request: both operators are known, and nothing has its identifier.
pub record HasRoom (i : CreateIndividualRequestInput) (id : Text) (d : Db) : Type 0 where
  pub source : (o : OperatorRow) × (find_operator i.source_operator_id d ≡ some o)
  pub source_known : has_operator i.source_operator_id d ≡ true
  pub recipient_known : has_operator i.recipient_operator_id d ≡ true
  pub request_free : any (is_request id) d.requests ≡ false
  pub number_free : any (is_number_of id i.msisdn) d.request_numbers ≡ false
  pub client_free : any (λ c. c.request_id == id) d.clients ≡ false

-- The row that `AddNumber` writes.
abbrev new_number : Text → Text → Option Text → RequestNumberRow
new_number id msisdn prefix = record {
  request_id = id;
  msisdn = msisdn;
  is_rejected = false;
  rejection_reason_id = none;
  is_excluded = false;
  exclusion_reason = [];
  exclusion_code = [];
  routing_info = prefix;
  position = 0;
}

module _ (env : Env) (reliable : Reliable env) where
  -- A statement that answers.
  statement-ok :
      {A : Type 0} (run : Statement A) (w : World) (a : A) (d : Db)
      → run (env.db_clock w.calls) w.db ≡ (ok a, d)
      → statement env tx run w ≡ (ok a, record w { db = d; calls = w.calls + 1 })
  statement-ok run w a d h =
      statement-eq env tx run w reliable
      ∙ ap (λ x. (x.0, record w { db = x.1; calls = w.calls + 1 })) h

  create-IsOk :
      (c : CreateRequestInput) (w : World)
      → any (is_request c.id) w.db.requests ≡ false
      → has_operator c.source_operator_id w.db ≡ true
      → has_operator c.recipient_operator_id w.db ≡ true
      → has_operator c.creator_operator_id w.db ≡ true
      → create_request env tx c w ≡ (
        ok tt,
        record w {
          db = record w.db { requests = w.db.requests ++ (new_row acceptance c ∷ []) };
          calls = w.calls + 1;
        },
      )
  unfolding create_request
  create-IsOk c w f s r k = statement-ok _ w tt _ (rw f (rw s (rw r (rw k refl))))

  number-IsOk :
      (id msisdn : Text) (prefix : Option Text) (w : World)
      → any (is_number_of id msisdn) w.db.request_numbers ≡ false
      → any (is_request id) w.db.requests ≡ true
      → add_number env tx id msisdn prefix 0 w ≡ (
        ok tt,
        record w {
          db = record w.db {
            request_numbers = w.db.request_numbers ++ (new_number id msisdn prefix ∷ []);
          };
          calls = w.calls + 1;
        },
      )
  unfolding add_number
  number-IsOk id msisdn prefix w f k = statement-ok _ w tt _ (rw f (rw k refl))

  client-IsOk :
      (c : ClientRow) (date : Text) (w : World)
      → env.date_of c.birth_date ≡ some date
      → any (λ x. x.request_id == c.request_id) w.db.clients ≡ false
      → any (is_request c.request_id) w.db.requests ≡ true
      → add_client env tx c w ≡ (
        ok tt,
        record w {
          db = record w.db { clients = w.db.clients ++ (record c { birth_date = date } ∷ []) };
          calls = w.calls + 1;
        },
      )
  unfolding add_client
  client-IsOk c date w b f k = statement-ok _ w tt _ (rw b (rw f (rw k refl)))

  prefix-IsOk :
      (op : Text) (w : World) (o : OperatorRow)
      → find_operator op w.db ≡ some o
      → routing_prefix env tx op w ≡ (ok o.routing_prefix, record w { calls = w.calls + 1 })
  unfolding routing_prefix
  prefix-IsOk op w o h = statement-ok _ w o.routing_prefix w.db (rw h refl)

  consume-IsOk :
      (f : GoError → GoError) (msisdn : Text) (w : World)
      → IsOk (map_error f (consume_otp env tx msisdn) w)
  unfolding consume_otp
  consume-IsOk f msisdn w =
      subst IsOk (sym (map_error-ok f _ w _ tt (statement-eq env tx _ w reliable))) tt

  individual_transaction-IsOk :
      (max_attempts : ℕ) (caller : Caller) (i : CreateIndividualRequestInput) (id : Text)
      (now : Time) (date : Text) (w : World)
      → env.date_of i.client.birth_date ≡ some date
      → HasRoom i id w.db
      → IsOk (individual_transaction env max_attempts caller i id now w)
  unfolding individual_transaction
  individual_transaction-IsOk max_attempts caller i id now date w born room =
      let (o, p) = room.source in
      let written = any-append (is_request id) w.db.requests _ ((==_iff id id).1 refl) in
      subst IsOk
        (sym (
          bind-ok _ _ w _ _ (map_error-ok _ _ w _ _ (prefix-IsOk i.source_operator_id w o p))
          ∙ bind-ok _ _ _ _ _ (
              map_error-ok _ _ _ _ _ (
                create-IsOk _ _ room.request_free room.source_known room.recipient_known
                  room.recipient_known))
          ∙ bind-ok _ _ _ _ _
              (map_error-ok _ _ _ _ _ (number-IsOk id i.msisdn _ _ room.number_free written))
          ∙ bind-ok _ _ _ _ _
              (map_error-ok _ _ _ _ _ (client-IsOk _ date _ born room.client_free written))))
        (consume-IsOk _ i.msisdn _)

-- Where the driver does not fail, the birth date of the client is a date for PostgreSQL, both
-- operators are known and nothing has the identifier yet, the transaction of an individual creation
-- returns, and leaves the new request and the consumed challenge.
pub create_individual-IsOk :
    (env : Env) (max_attempts : ℕ) (caller : Caller) (i : CreateIndividualRequestInput) (id : Text)
    (now : Time) (date : Text) (w : World)
    → Reliable env
    → env.date_of i.client.birth_date ≡ some date
    → HasRoom i id (env.others w.calls w.db)
    → let x = unit_of_work env (individual_transaction env max_attempts caller i id now) w in
      IsOk x
      × ((r : RequestRow) × (find_request id x.1.db ≡ some r) × IsNew i r)
      × AreConsumed i.msisdn x.1.db.otps
create_individual-IsOk env max_attempts caller i id now date w reliable born room =
    let body = individual_transaction env max_attempts caller i id now in
    let returns : IsOk (unit_of_work env body w) = unit_of_work-IsOk env body w reliable (λ w' e.
      individual_transaction-IsOk env reliable max_attempts caller i id now date w' born
        (subst (HasRoom i id) (sym e) room)) in
    let post =
      OnOk-IsOk (unit_of_work env body w)
        (λ d.
          (find_request id (env.others w.calls w.db) ≡ none)
          × ((r : RequestRow) × (find_request id d ≡ some r) × IsNew i r)
          × AreConsumed i.msisdn d.otps)
        returns (create_individual-Created env max_attempts caller i id now w) in
    (returns, post.1, post.2)
