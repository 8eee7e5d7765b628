-- ===== src/Gateway/Sandbox.antt =====
-- postgres.SandboxGateway (internal/adapter/gateway/postgres/sandbox_gateway.go): the statements of
-- a purge. The keys are those of migrations/0001_init.up.sql.
use numflex_sandbox.Prelude.{
  Bool, List, Option, [], any, contains, false, if◌then◌else◌, keep, length, map, none, not, some,
  update_where, ℕ, ◌&&◌, ◌==◌, ◌||◌, ◌∷◌,
}
use numflex_sandbox.Entity.Errors.{GoError, driver_error}
use numflex_sandbox.Entity.Request.{Text}
use numflex_sandbox.Store.Schema.{Db, NumberRow, RequestRow, ReverseRow}
use numflex_sandbox.Store.Session.{Env, M, Outcome, Querier, err, ok, statement}

-- whether `demande_id` is one of the requests; NULL is none of them
abbrev pub refers_to : List Text → Option Text → Bool
refers_to ids none = false
refers_to ids (some id) = contains ids id

-- a row of reverse_request that `DeleteReverseRequests` deletes
abbrev pub is_purged_reverse : Text → List Text → ReverseRow → Bool
is_purged_reverse op ids r = r.operator_id == op || refers_to ids r.request_id

abbrev pub is_made_by : Text → RequestRow → Bool
is_made_by op r = r.creator_operator_id == op

-- `UNION` keeps one of equal rows; the order is not used.
abbrev pub union : List Text → List Text → List Text
union [] ys = ys
union (x ∷ xs) ys = let rest = union xs ys in if contains rest x then rest else x ∷ rest

-- the SELECT of `NumbersToRestore`
abbrev pub purged_numbers : List Text → Db → List Text
purged_numbers ids d =
    union (map (λ r. r.msisdn) (keep (λ r. contains ids r.id) d.requests))
      (union (map (λ n. n.msisdn) (keep (λ n. contains ids n.request_id) d.request_numbers)) [])

-- the DELETE of `DeleteRequests` with its four cascades
abbrev pub without_requests : List Text → Db → Db
without_requests ids d = record d {
  requests = keep (λ r. not (contains ids r.id)) d.requests;
  request_numbers = keep (λ n. not (contains ids n.request_id)) d.request_numbers;
  clients = keep (λ c. not (contains ids c.request_id)) d.clients;
  history = keep (λ h. not (contains ids h.request_id)) d.history;
  confirmations = keep (λ c. not (contains ids c.request_id)) d.confirmations;
}

-- The key of reverse_request cascades to nothing: a reverse request blocks the DELETE of the request
-- that it refers to.
abbrev pub delete_request_rows : List Text → Db → Outcome GoError ℕ × Db
delete_request_rows ids d =
    if any (λ v. any (λ r. contains ids r.id && refers_to (r.id ∷ []) v.request_id) d.requests)
      d.reverses
    then (err driver_error, d)
    else (ok (length (keep (λ r. contains ids r.id) d.requests)), without_requests ids d)

-- the columns that `RestoreNumbers` sets
abbrev pub restored : NumberRow → NumberRow
restored n = record n {
  current_operator_id = n.origin_operator_id;
  last_porting_date = none;
  already_restituted = false;
}

module _ (env : Env) (q : Querier) where
  -- `RequestIDsToPurge`
  unfoldable pub request_ids_to_purge : Text → M GoError (List Text)
  request_ids_to_purge op =
      statement env q (λ now d. (ok (map (λ r. r.id) (keep (is_made_by op) d.requests)), d))

  -- `NumbersToRestore`
  unfoldable pub numbers_to_restore : List Text → M GoError (List Text)
  numbers_to_restore ids = statement env q (λ now d. (ok (purged_numbers ids d), d))

  -- `DeleteReverseRequests`
  unfoldable pub delete_reverse_requests : Text → List Text → M GoError ℕ
  delete_reverse_requests op ids = statement env q (λ now d. (
    ok (length (keep (is_purged_reverse op ids) d.reverses)),
    record d { reverses = keep (λ r. not (is_purged_reverse op ids r)) d.reverses },
  ))

  -- `DeleteOTP`
  unfoldable pub delete_otp : List Text → M GoError ℕ
  delete_otp numbers = statement env q (λ now d. (
    ok (length (keep (λ o. contains numbers o.msisdn) d.otps)),
    record d { otps = keep (λ o. not (contains numbers o.msisdn)) d.otps },
  ))

  -- `DeleteRequests`
  unfoldable pub delete_requests : List Text → M GoError ℕ
  delete_requests ids = statement env q (λ now d. delete_request_rows ids d)

  -- `RestoreNumbers`
  unfoldable pub restore_numbers : List Text → M GoError ℕ
  restore_numbers numbers = statement env q (λ now d. (
    ok (length (keep (λ n. contains numbers n.msisdn) d.numbers)),
    record d { numbers = update_where (λ n. contains numbers n.msisdn) restored d.numbers },
  ))
