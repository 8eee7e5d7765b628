-- ===== src/Usecase/Otp.antt =====
-- The OTP interactors (internal/usecase/otp).
pub mod Verify
pub mod Lockout
use numflex_sandbox.Prelude.{[], if◌then◌else◌, leb, ltb, ℕ, ◌+◌, ◌==◌, ◌∷◌}
use numflex_sandbox.Entity.Errors.{GoError}
use numflex_sandbox.Entity.Fault.{
  Fault, lit, otp_absent, otp_already_used, otp_expired, otp_invalid, otp_max_attempts,
}
use numflex_sandbox.Entity.Request.{Text, Time}
use numflex_sandbox.Gateway.Otps.{find_otp_row, increment_attempts, upsert_otp}
use numflex_sandbox.Store.Schema.{OneTimePassword}
use numflex_sandbox.Store.Session.{
  Env, M, clock_now, or_internal, pool, pure, raise, require, ◌>>=◌, ◌>>◌,
}

module _ (env : Env) where
  -- `SendOTPInteractor.Execute`, with the configured code and time to live
  unfoldable pub send_otp : Text → Time → Text → M GoError (Unit {0})
  send_otp code ttl msisdn = do now ← clock_now env; upsert_otp env pool msisdn code (now + ttl)

  -- what `Execute` decides once the challenge is read and the clock is consulted
  unfoldable pub judge : ℕ → Text → Text → OneTimePassword → Time → M Fault (Unit {0})
  judge max_attempts msisdn code o now =
      if o.consumed
      then raise otp_already_used
      else if leb max_attempts o.attempts
      then raise otp_max_attempts
      else if ltb o.expires_at now
      then raise otp_expired
      else if code == o.code
      then pure tt
      else do
        or_internal (increment_attempts env pool msisdn) (lit "incrementing the OTP attempts" ∷ [])
        raise otp_invalid

  -- `VerifyOTPInteractor.Execute`
  unfoldable pub verify_otp : ℕ → Text → Text → M Fault (Unit {0})
  verify_otp max_attempts msisdn code = do
    found ← or_internal (find_otp_row env pool msisdn) (lit "reading the OTP" ∷ [])
    o ← require found otp_absent
    now ← clock_now env
    judge max_attempts msisdn code o now
