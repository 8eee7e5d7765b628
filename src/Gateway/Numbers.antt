-- ===== src/Gateway/Numbers.antt =====
-- postgres.NumberGateway (internal/adapter/gateway/postgres/number_gateway.go).
use numflex_sandbox.Prelude.{Bool, Option, any, find?, none, not, some, ◌&&◌, ◌==◌}
use numflex_sandbox.Entity.Eligibility.{NumberState}
use numflex_sandbox.Entity.Errors.{GoError}
use numflex_sandbox.Entity.Request.{Text, is_in_progress}
use numflex_sandbox.Store.Schema.{Db, NumberRow}
use numflex_sandbox.Store.Session.{Env, M, Querier, ok, pure, statement, ◌>>=◌}

abbrev pub is_number : Text → NumberRow → Bool
is_number msisdn n = n.msisdn == msisdn

-- `dm.statut_demande = 'EN_COURS'` of the request that a row joins
abbrev pub is_open_request : Text → Db → Bool
is_open_request id d = any (λ r. r.id == id && is_in_progress r.status) d.requests

-- A row of an open request that neither excludes nor rejects the number.
abbrev pub is_busy : Text → Db → Bool
is_busy msisdn d =
    any
      (λ n.
        n.msisdn == msisdn
        && not n.is_excluded
        && not n.is_rejected
        && is_open_request n.request_id d)
      d.request_numbers

abbrev pub number_state : NumberRow → Bool → NumberState
number_state n busy = record {
  msisdn = n.msisdn;
  current_operator_id = n.current_operator_id;
  origin_operator_id = n.origin_operator_id;
  last_porting_date = n.last_porting_date;
  already_restituted = n.already_restituted;
  request_in_progress = busy;
}

module _ (env : Env) (q : Querier) where
  -- the second SELECT of `State`, for a number that the first one found
  unfoldable pub with_standing : Text → Option NumberRow → M GoError (Option NumberState)
  with_standing msisdn none = pure none
  with_standing msisdn (some n) = do
    busy ← statement env q (λ now d. (ok (is_busy msisdn d), d))
    pure (some (number_state n busy))

  -- `State`
  unfoldable pub read_number_state : Text → M GoError (Option NumberState)
  read_number_state msisdn = do
    row ← statement env q (λ now d. (ok (find? (is_number msisdn) d.numbers), d))
    with_standing msisdn row
