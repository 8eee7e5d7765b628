-- ===== src/Usecase/Otp/Verify.antt =====
-- When a one-time password is accepted (internal/usecase/otp/verify_otp.go).
use numflex_sandbox.Prelude.{
  Bool, Option, [], arith, false, if◌then◌else◌, leb, ltb, none, refl, some, true, ℕ, ◌+◌, ◌<◌,
  ◌==◌, ◌↔◌, ◌∷◌, ◌≡◌, ◌≢◌, ◌≤◌,
}
use numflex_sandbox.Entity.Fault.{
  Fault, lit, otp_absent, otp_already_used, otp_expired, otp_invalid, otp_max_attempts,
}
use numflex_sandbox.Entity.Request.{Text, Time}
use numflex_sandbox.Gateway.Otps.{find_otp, find_otp_row, increment_attempts}
use numflex_sandbox.Store.Runs.{Reliable, bind-err, bind-ok, map_error-ok, statement-eq}
use numflex_sandbox.Store.Schema.{OneTimePassword}
use numflex_sandbox.Store.Session.{
  Env, M, Outcome, World, clock_now, err, ok, or_internal, pool, pure, raise, require, ◌>>=◌,
}
use numflex_sandbox.Usecase.Otp.{judge, verify_otp}

-- What makes a challenge acceptable, without the order of the tests.
abbrev pub Accepts : ℕ → Text → Time → Option OneTimePassword → Type 0
Accepts max_attempts code now none = ⊥
Accepts max_attempts code now (some o) =
    (o.consumed ≡ false) × (o.attempts < max_attempts) × (now ≤ o.expires_at) × (o.code ≡ code)

module _ {E A B : Type 0} where
  raised :
      (x : Outcome E A × World) (e : E) (b : B)
      → (elim x.0 as (λ _. Outcome E B × World) [
        | ok a ↦ raise {A = B} e x.1
        | err f ↦ (err f, x.1)
      ]).0
        ≢ ok b
  unfolding raise
  raised (ok a, w) e b h = ground arith
  raised (err f, w) e b h = ground arith

  bind-raise : (m : M E A) (e : E) (w : World) (b : B) → ((m >>= (λ _. raise e)) w).0 ≢ ok b
  unfolding ◌>>=◌
  bind-raise m e w b h = raised (m w) e b h

-- Four tests in the order of `judge`.
judged :
    (a b c d : Bool) (e f g : Fault) (m : M Fault (Unit {0})) (w : World)
    → (m w).0 ≢ ok tt
    → (((if a
            then raise e
            else if b
            then raise f
            else if c
            then raise g
            else if d
            then pure tt
            else m)
          w).0
        ≡ ok tt)
      ↔ ((a ≡ false) × (b ≡ false) × (c ≡ false) × (d ≡ true))
unfolding raise pure
judged true b c d e f g m w h = ground arith
judged false true c d e f g m w h = ground arith
judged false false true d e f g m w h = ground arith
judged false false false true e f g m w h = ground arith
judged false false false false e f g m w h = ground arith

module _ (env : Env) (max_attempts : ℕ) (msisdn code : Text) where
  judge-Accepts :
      (o : OneTimePassword) (now : Time) (w : World)
      → ((judge env max_attempts msisdn code o now w).0 ≡ ok tt)
        ↔ Accepts max_attempts code now (some o)
  unfolding judge
  judge-Accepts o now w =
      let k =
        judged o.consumed (leb max_attempts o.attempts) (ltb o.expires_at now) (code == o.code)
          otp_already_used otp_max_attempts otp_expired
          (or_internal (increment_attempts env pool msisdn)
              (lit "incrementing the OTP attempts" ∷ [])
            >>= λ _. raise otp_invalid)
          w (bind-raise _ _ w tt) in
      (λ h. ground (arith, k.0 h), λ h. k.1 (ground arith))

  -- The world after the challenge is read.
  abbrev pub read : World → World
  read w = record w { db = env.others w.calls w.db; calls = w.calls + 1 }

  -- What `Execute` does with what it has read.
  abbrev pub decide : Option OneTimePassword → M Fault (Unit {0})
  decide found = require found otp_absent >>= λ o.
      clock_now env >>= λ now. judge env max_attempts msisdn code o now

  decide-Accepts :
      (found : Option OneTimePassword) (w : World)
      → ((decide found w).0 ≡ ok tt) ↔ Accepts max_attempts code (env.clock w.calls) found
  unfolding raise pure clock_now
  decide-Accepts none w = rw (bind-err (raise otp_absent) _ w w otp_absent refl) (ground arith)
  decide-Accepts (some o) w = rw (bind-ok (pure o) _ w w o refl) (
      rw (bind-ok (clock_now env) _ w w (env.clock w.calls) refl)
        (judge-Accepts o (env.clock w.calls) w))

  pub verify_otp-eq :
      (w : World)
      → Reliable env
      → verify_otp env max_attempts msisdn code w
        ≡ decide (find_otp msisdn (env.others w.calls w.db).otps) (read w)
  unfolding verify_otp find_otp_row
  verify_otp-eq w reliable =
      bind-ok _ _ w (read w) _ (map_error-ok _ _ w (read w) _ (statement-eq env pool _ w reliable))

  -- Where the driver does not fail, `VerifyOTP` answers without a fault exactly when the number has
  -- a challenge that is not consumed, has attempts left, has not expired when the clock is read,
  -- and carries the code.
  pub verify_otp-Accepts :
      (w : World)
      → Reliable env
      → ((verify_otp env max_attempts msisdn code w).0 ≡ ok tt)
        ↔ Accepts max_attempts code
            (env.clock (w.calls + 1))
            (find_otp msisdn (env.others w.calls w.db).otps)
  verify_otp-Accepts w reliable = rw (verify_otp-eq w reliable) (decide-Accepts _ (read w))
