-- ===== src/Usecase/Sandbox/Replay.antt =====
-- What a purge does to the numbers of its requests and to the requests of others
-- (sandbox_gateway.go, internal/entity/eligibility.go).
use numflex_sandbox.Prelude.{
  Bool, List, [], ap, arith, contains, false, find?, keep, none, refl, some, true, update_where,
  ◌==◌, ◌↔◌, ◌∙◌, ◌∷◌, ◌≡◌, ◌≢◌,
}
use numflex_sandbox.Entity.Authorization.{Caller}
use numflex_sandbox.Entity.Eligibility.{check_porting_eligibility}
use numflex_sandbox.Entity.Request.{Text, Time}
use numflex_sandbox.Gateway.Numbers.{is_busy, is_number, number_state}
use numflex_sandbox.Gateway.Sandbox.{restored}
use numflex_sandbox.Store.Runs.{Reliable}
use numflex_sandbox.Store.Schema.{
  ClientRow, ConfirmationRow, Db, HistoryRow, NumberRow, RequestNumberRow,
}
use numflex_sandbox.Store.Session.{Env, World}
use numflex_sandbox.Usecase.Engine.{delay}
use numflex_sandbox.Usecase.Sandbox.{purge_test_data}
use numflex_sandbox.Usecase.Sandbox.Purged.{made_numbers, purge_test_data-purged}

find?-restored :
    (numbers : List Text) (msisdn : Text) (ns : List NumberRow)
    → contains numbers msisdn ≡ true
    → find? (is_number msisdn) (update_where (λ n. contains numbers n.msisdn) restored ns)
      ≡ (elim (find? (is_number msisdn) ns) [ none ↦ none | some n ↦ some (restored n) ])
find?-restored numbers msisdn [] h = refl
find?-restored numbers msisdn (n ∷ ns) h = ground (arith, find?-restored numbers msisdn ns h)

-- Neither the date nor the count of earlier portings speaks against a number that is back home.
eligible-home :
    (n : NumberRow) (busy : Bool) (recipient : Text) (delay now : Time)
    → n.origin_operator_id ≢ recipient
    → (check_porting_eligibility
          (number_state (restored n) busy)
          n.origin_operator_id
          recipient
          delay
          now
        ≡ none)
      ↔ (busy ≡ false)
unfolding check_porting_eligibility
eligible-home n busy recipient delay now h = ground arith

-- The rows of a request in the tables that cascade.
abbrev pub rows_of :
    Text → Db → List RequestNumberRow × List ClientRow × List HistoryRow × List ConfirmationRow
rows_of id d = (
  keep (λ n. n.request_id == id) d.request_numbers,
  keep (λ c. c.request_id == id) d.clients,
  keep (λ h. h.request_id == id) d.history,
  keep (λ c. c.request_id == id) d.confirmations,
)

module _ (env : Env) (reliable : Reliable env) where
  -- Where the driver does not fail, every number of a purged request is back at its origin after the
  -- purge, and `CheckPortingEligibility` lets it be ported from there to any other operator,
  -- whatever the delay, exactly when no open request holds it.
  pub purge_test_data-replay :
      (caller : Caller) (w : World) (n : NumberRow) (recipient : Text) (delay now : Time)
      → let before = env.others w.calls w.db in
        let after = (purge_test_data env caller w).1.db in
        contains (made_numbers caller.operator_id before) n.msisdn ≡ true
        → find? (is_number n.msisdn) before.numbers ≡ some n
        → n.origin_operator_id ≢ recipient
        → (n' : NumberRow) × (find? (is_number n.msisdn) after.numbers ≡ some n')
          × (n'.current_operator_id ≡ n.origin_operator_id)
          × ((check_porting_eligibility
                  (number_state n' (is_busy n.msisdn after))
                  n.origin_operator_id
                  recipient
                  delay
                  now
                ≡ none)
              ↔ (is_busy n.msisdn after ≡ false))
  purge_test_data-replay caller w n recipient delay now member found other =
      let before = env.others w.calls w.db in
      let numbers = made_numbers caller.operator_id before in
      let e =
        ap (λ d. find? (is_number n.msisdn) d.numbers)
          (purge_test_data-purged env reliable caller w).1 in
      (
        restored n,
        e ∙ find?-restored numbers n.msisdn before.numbers member ∙ rw found refl,
        refl,
        eligible-home n _ recipient delay now other,
      )
