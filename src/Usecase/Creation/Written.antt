-- ===== src/Usecase/Creation/Written.antt =====
-- What the transaction of an individual creation writes
-- (internal/usecase/creation/create_individual_request.go).
use numflex_sandbox.Prelude.{
  List, Option, Option-cases, [], any, any-find?, arith, false, find?-append, inl, inr, none, not,
  refl, some, true, update_where, ℕ, ◌&&◌, ◌∷◌, ◌≡◌,
}
use numflex_sandbox.Entity.Authorization.{Caller}
use numflex_sandbox.Entity.Request.{Text, Time, acceptance, in_progress, individual, porting}
use numflex_sandbox.Gateway.Otps.{consume_otp, is_otp}
use numflex_sandbox.Gateway.Requests.Reads.{find_operator, routing_prefix}
use numflex_sandbox.Gateway.Requests.Writes.{add_client, add_number, create_request, insert_request}
use numflex_sandbox.Store.Keeps.{Keeps, Keeps-map_error, Keeps-tx, OnOk-Keeps}
use numflex_sandbox.Store.Outcomes.{
  OnOk, OnOk-bind, OnOk-map_error, OnOk-mono, OnOk-statement, OnOk-unit_of_work,
}
use numflex_sandbox.Store.Schema.{
  ClientRow, Db, OneTimePassword, RequestRow, find_request, is_request,
}
use numflex_sandbox.Store.Session.{Env, World, ok, tx, unit_of_work}
use numflex_sandbox.Usecase.Creation.Individual.{individual_transaction}
use numflex_sandbox.Usecase.Creation.Inputs.{CreateIndividualRequestInput}

-- No challenge of the number can be used again.
abbrev pub AreConsumed : Text → List OneTimePassword → Type 0
AreConsumed msisdn otps = any (λ o. is_otp msisdn o && not o.consumed) otps ≡ false

AreConsumed-update :
    (msisdn : Text) (otps : List OneTimePassword)
    → AreConsumed msisdn (update_where (is_otp msisdn) (λ o. record o { consumed = true }) otps)
AreConsumed-update msisdn [] = refl
AreConsumed-update msisdn (o ∷ os) = ground (arith, AreConsumed-update msisdn os)

-- The request that an individual creation leaves.
abbrev pub IsNew : CreateIndividualRequestInput → RequestRow → Type 0
IsNew i r =
    (r.request_type ≡ porting)
    × (r.status ≡ in_progress)
    × (r.current_step ≡ acceptance)
    × (r.transition_due ≡ none)
    × (r.msisdn ≡ i.msisdn)
    × (r.source_operator_id ≡ i.source_operator_id)
    × (r.recipient_operator_id ≡ i.recipient_operator_id)
    × (r.creator_operator_id ≡ i.recipient_operator_id)

insert_request-find :
    (r : RequestRow) (d : Db)
    → (insert_request r d).0 ≡ ok tt
    → (find_request r.id d ≡ none) × (find_request r.id (insert_request r d).1 ≡ some r)
insert_request-find r d h =
    ground
      (arith, any-find? (is_request r.id) d.requests, find?-append (is_request r.id) d.requests r)

module _ (env : Env) (i : CreateIndividualRequestInput) (id : Text) (start : Db) where
  -- The identifier was free, and the new request stands under it.
  abbrev Created : Db → Type 0
  Created d =
      (find_request id start ≡ none) × ((r : RequestRow) × (find_request id d ≡ some r) × IsNew i r)

  prefix-Same :
      (w : World)
      → w.db ≡ start
      → OnOk (routing_prefix env tx i.source_operator_id w) (λ _ d. d ≡ start)
  unfolding routing_prefix
  prefix-Same w e = OnOk-statement env tx _ w _ (λ now a k.
      elim (Option-cases (find_operator i.source_operator_id w.db)) [
        | inl p ↦ rw p e
        | inr (o, p) ↦ rw p e
      ])

  create-Created :
      (prefix now : Text) (w : World)
      → w.db ≡ start
      → OnOk
          (create_request env tx
            (record {
              id = id;
              msisdn = i.msisdn;
              subscriber_type = individual;
              request_type = porting;
              source_operator_id = i.source_operator_id;
              recipient_operator_id = i.recipient_operator_id;
              creator_operator_id = i.recipient_operator_id;
              process = some i.process;
              routing_info = some prefix;
              request_date = now;
            })
            w)
          (λ _. Created)
  unfolding create_request
  create-Created prefix now w e = OnOk-statement env tx _ w _ (λ _ a k.
      let (f, s) = insert_request-find _ w.db k in
      (rw e at f, (_, s, (refl, refl, refl, refl, refl, refl, refl, refl))))

  add_number-Created :
      (msisdn : Text) (prefix : Option Text) → Keeps Created (add_number env tx id msisdn prefix 0)
  unfolding add_number
  add_number-Created msisdn prefix = Keeps-tx env _ (λ now d p. ground (arith, p))

  add_client-Created : (c : ClientRow) → Keeps Created (add_client env tx c)
  unfolding add_client
  add_client-Created c = Keeps-tx env _ (λ now d p. elim (Option-cases (env.date_of c.birth_date)) [
    | inl e ↦ rw e p
    | inr (date, e) ↦ rw e (ground (arith, p))
  ])

  consume-Created :
      (w : World)
      → Created w.db
      → OnOk (consume_otp env tx i.msisdn w) (λ _ d. Created d × AreConsumed i.msisdn d.otps)
  unfolding consume_otp
  consume-Created w h =
      OnOk-statement env tx _ w _ (λ now a k. (h, AreConsumed-update i.msisdn w.db.otps))

  individual_transaction-Created :
      (max_attempts : ℕ) (caller : Caller) (now : Time) (w : World)
      → w.db ≡ start
      → OnOk
          (individual_transaction env max_attempts caller i id now w)
          (λ _ d. Created d × AreConsumed i.msisdn d.otps)
  unfolding individual_transaction
  individual_transaction-Created max_attempts caller now w e =
      OnOk-bind _ _ w (λ _ d. d ≡ start) _ (OnOk-map_error _ _ w _ (prefix-Same w e))
        (λ prefix w1 h1.
          OnOk-bind _ _ w1 (λ _. Created) _
            (OnOk-map_error _ _ w1 _ (create-Created prefix now w1 h1))
            (λ _ w2 h2.
              OnOk-bind _ _ w2 (λ _. Created) _
                (OnOk-Keeps Created _ w2
                  (Keeps-map_error _ _ (add_number-Created i.msisdn (some prefix))) h2)
                (λ _ w3 h3.
                  OnOk-bind _ _ w3 (λ _. Created) _
                    (OnOk-Keeps Created _ w3 (Keeps-map_error _ _ (add_client-Created _)) h3)
                    (λ _ w4 h4. OnOk-map_error _ _ w4 _ (consume-Created w4 h4)))))

-- When the transaction of an individual creation returns, its identifier was free before, a PORTAGE
-- with the parties of the input now stands under it, in progress at ACCEPTATION with nothing
-- pending, and no challenge of the number can be used again.
pub create_individual-Created :
    (env : Env) (max_attempts : ℕ) (caller : Caller) (i : CreateIndividualRequestInput) (id : Text)
    (now : Time) (w : World)
    → let before = env.others w.calls w.db in
      OnOk
        (unit_of_work env (individual_transaction env max_attempts caller i id now) w)
        (λ _ after.
          (find_request id before ≡ none)
          × ((r : RequestRow) × (find_request id after ≡ some r) × IsNew i r)
          × AreConsumed i.msisdn after.otps)
create_individual-Created env max_attempts caller i id now w =
    OnOk-mono _ (λ _ d. Created env i id (env.others w.calls w.db) d × AreConsumed i.msisdn d.otps)
      _
      (OnOk-unit_of_work env _ w _ (λ w' e.
        individual_transaction-Created env i id (env.others w.calls w.db) max_attempts caller now w'
          e))
      (λ _ d h. (h.0.0, h.0.1, h.1))
