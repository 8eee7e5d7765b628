-- ===== src/Gateway/Confirmations.antt =====
-- postgres.ConfirmationGateway (internal/adapter/gateway/postgres/confirmation_gateway.go).
use numflex_sandbox.Prelude.{Bool, [], any, if◌then◌else◌, keep, length, ℕ, ◌&&◌, ◌++◌, ◌==◌, ◌∷◌}
use numflex_sandbox.Entity.Errors.{GoError, already_confirmed, driver_error, unique_violation}
use numflex_sandbox.Entity.Request.{Text, Time}
use numflex_sandbox.Store.Schema.{ConfirmationRow, Db, has_operator, is_request, nullif}
use numflex_sandbox.Store.Session.{Env, M, Outcome, Querier, err, map_error, ok, statement}

-- The primary key of `confirmation`.
abbrev pub is_confirmation_of : Text → Text → ConfirmationRow → Bool
is_confirmation_of request_id operator_id c =
    c.request_id == request_id && c.operator_id == operator_id

abbrev pub has_confirmed : Text → Text → Db → Bool
has_confirmed request_id operator_id d =
    any (is_confirmation_of request_id operator_id) d.confirmations

abbrev pub confirmations_of : Text → Db → ℕ
confirmations_of request_id d = length (keep (λ c. c.request_id == request_id) d.confirmations)

-- The INSERT of `Confirm`, with the keys of the table: one row for a request and an operator, both
-- of which exist.
abbrev insert_confirmation : ConfirmationRow → Db → Outcome GoError (Unit {0}) × Db
insert_confirmation c d =
    if has_confirmed c.request_id c.operator_id d
    then (err unique_violation, d)
    else if any (is_request c.request_id) d.requests && has_operator c.operator_id d
    then (ok tt, record d { confirmations = d.confirmations ++ (c ∷ []) })
    else (err driver_error, d)

-- The error of `Confirm`: code 23505 becomes the sentinel.
abbrev confirm_error : GoError → GoError
confirm_error unique_violation = already_confirmed
confirm_error e = e

module _ (env : Env) (q : Querier) where
  -- `Confirm`
  unfoldable pub confirm : Text → Text → Text → Time → M GoError (Unit {0})
  confirm request_id operator_id comment now =
      let c : ConfirmationRow = record {
        request_id = request_id;
        operator_id = operator_id;
        comment = nullif comment;
        confirmed_at = now;
      } in
      map_error confirm_error (statement env q (λ _ d. insert_confirmation c d))

  -- `Count`
  unfoldable pub count_confirmations : Text → M GoError ℕ
  count_confirmations request_id =
      statement env q (λ now d. (ok (confirmations_of request_id d), d))
