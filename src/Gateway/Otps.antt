-- ===== src/Gateway/Otps.antt =====
-- postgres.OTPGateway (internal/adapter/gateway/postgres/otp_gateway.go).
use numflex_sandbox.Prelude.{
  Bool, List, Option, [], false, find?, if◌then◌else◌, true, update_where, ◌+◌, ◌==◌, ◌∷◌,
}
use numflex_sandbox.Entity.Errors.{GoError}
use numflex_sandbox.Entity.Request.{Text, Time}
use numflex_sandbox.Framework.Clock.{microsecond, truncate}
use numflex_sandbox.Store.Schema.{OneTimePassword}
use numflex_sandbox.Store.Session.{Env, M, Querier, ok, statement}

abbrev pub is_otp : Text → OneTimePassword → Bool
is_otp msisdn o = o.msisdn == msisdn

abbrev pub find_otp : Text → List OneTimePassword → Option OneTimePassword
find_otp msisdn = find? (is_otp msisdn)

-- INSERT ... ON CONFLICT (numero) DO UPDATE
abbrev pub upserted : OneTimePassword → List OneTimePassword → List OneTimePassword
upserted o [] = o ∷ []
upserted o (x ∷ xs) = if is_otp o.msisdn x then o ∷ xs else x ∷ upserted o xs

module _ (env : Env) (q : Querier) where
  -- `Upsert`: the attempts and the consumption start again, whatever the row said. The column keeps
  -- the microseconds of the expiry.
  unfoldable pub upsert_otp : Text → Text → Time → M GoError (Unit {0})
  upsert_otp msisdn code expires_at =
      let o : OneTimePassword = record {
        msisdn = msisdn;
        code = code;
        expires_at = truncate microsecond expires_at;
        attempts = 0;
        consumed = false;
      } in
      statement env q (λ now d. (ok tt, record d { otps = upserted o d.otps }))

  -- `Find`
  unfoldable pub find_otp_row : Text → M GoError (Option OneTimePassword)
  find_otp_row msisdn = statement env q (λ now d. (ok (find_otp msisdn d.otps), d))

  -- `IncrementAttempts`
  unfoldable pub increment_attempts : Text → M GoError (Unit {0})
  increment_attempts msisdn = statement env q (λ now d. (
    ok tt,
    record d {
      otps = update_where (is_otp msisdn) (λ o. record o { attempts = o.attempts + 1 }) d.otps;
    },
  ))

  -- `Consume`
  unfoldable pub consume_otp : Text → M GoError (Unit {0})
  consume_otp msisdn = statement env q (λ now d. (
    ok tt,
    record d { otps = update_where (is_otp msisdn) (λ o. record o { consumed = true }) d.otps },
  ))
