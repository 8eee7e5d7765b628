-- ===== src/Usecase/Otp/Lockout.antt =====
-- How many wrong tried a challenge bears (internal/usecase/otp/send_otp.go,
-- internal/usecase/otp/verify_otp.go, internal/adapter/gateway/postgres/otp_gateway.go).
use numflex_sandbox.Prelude.{
  Bool, List, [], any, ap, arith, false, find?-update_same, if◌then◌else◌, leb, length, ltb, refl,
  some, true, update_where, ℕ, ◌+◌, ◌==◌, ◌∙◌, ◌∷◌, ◌≡◌, ◌≤◌,
}
use numflex_sandbox.Entity.Fault.{Fault, otp_invalid, otp_max_attempts}
use numflex_sandbox.Entity.Request.{Text, Time}
use numflex_sandbox.Framework.Clock.{microsecond, truncate}
use numflex_sandbox.Gateway.Otps.{find_otp, increment_attempts, is_otp, upsert_otp, upserted}
use numflex_sandbox.Store.Runs.{Reliable, bind-ok, map_error-ok, statement-eq}
use numflex_sandbox.Store.Schema.{Db, OneTimePassword}
use numflex_sandbox.Store.Session.{Env, Outcome, World, clock_now, err, ok, pool, pure, raise}
use numflex_sandbox.Usecase.Otp.{judge, send_otp, verify_otp}
use numflex_sandbox.Usecase.Otp.Verify.{decide, read, verify_otp-eq}

-- The row of the number after an upsert.
find_otp-upserted :
    (o : OneTimePassword) (xs : List OneTimePassword) → find_otp o.msisdn (upserted o xs) ≡ some o
find_otp-upserted o [] = ground arith
find_otp-upserted o (x ∷ xs) = ground (arith, find_otp-upserted o xs)

module _ (env : Env) (reliable : Reliable env) (max_attempts : ℕ) (msisdn : Text) where
  -- The world after an attempt with each of the codes, whatever each of them answers.
  abbrev pub guessed : List Text → World → World
  guessed [] w = w
  guessed (c ∷ cs) w = guessed cs (verify_otp env max_attempts msisdn c w).1

  -- No other session writes the challenge of the number.
  abbrev pub IsUndisturbed : Type 0
  IsUndisturbed = (n : ℕ) (d : Db) → find_otp msisdn (env.others n d).otps ≡ find_otp msisdn d.otps

  -- The clock does not go past an instant.
  abbrev pub IsBefore : Time → Type 0
  IsBefore t = (n : ℕ) → env.clock n ≤ t

  abbrev with_attempt : OneTimePassword → OneTimePassword
  with_attempt o = record o { attempts = o.attempts + 1 }

  abbrev counted_up : Db → Db
  counted_up d = record d { otps = update_where (is_otp msisdn) with_attempt d.otps }

  -- The world after a wrong code is counted.
  abbrev missed : World → World
  missed w = record w { db = counted_up (env.others w.calls w.db); calls = w.calls + 1 }

  module _ (o : OneTimePassword) (fresh : o.consumed ≡ false) where
    judge-locked :
        (c : Text) (now : Time) (w : World)
        → leb max_attempts o.attempts ≡ true
        → judge env max_attempts msisdn c o now w ≡ (err otp_max_attempts, w)
    unfolding judge raise
    judge-locked c now w h = rw fresh (rw h refl)

    judge-right :
        (now : Time) (w : World)
        → leb max_attempts o.attempts ≡ false
        → now ≤ o.expires_at
        → judge env max_attempts msisdn o.code o now w ≡ (ok tt, w)
    unfolding judge pure
    judge-right now w h t = ground (arith, fresh, h, t)

    judge-wrong :
        (c : Text) (now : Time) (w : World)
        → leb max_attempts o.attempts ≡ false
        → ltb o.expires_at now ≡ false
        → (c == o.code) ≡ false
        → judge env max_attempts msisdn c o now w ≡ (err otp_invalid, missed w)
    unfolding judge raise increment_attempts
    judge-wrong c now w h t n = rw fresh (
        rw h (
          rw t (
            rw n (
              bind-ok _ _ w (missed w) tt
                (map_error-ok _ _ w (missed w) tt (statement-eq env pool _ w reliable))))))

  verify-judge :
      (c : Text) (o : OneTimePassword) (w : World)
      → IsUndisturbed
      → find_otp msisdn w.db.otps ≡ some o
      → verify_otp env max_attempts msisdn c w
        ≡ judge env max_attempts msisdn c o
            (env.clock (w.calls + 1))
            (read env max_attempts msisdn c w)
  unfolding pure clock_now
  verify-judge c o w calm e =
      let w' = read env max_attempts msisdn c w in
      verify_otp-eq env max_attempts msisdn c w reliable
      ∙ ap (λ x. decide env max_attempts msisdn c x w') (calm w.calls w.db ∙ e)
      ∙ bind-ok (pure o) _ w' w' o refl
      ∙ bind-ok (clock_now env) _ w' w' (env.clock w'.calls) refl

  -- The challenge after a wrong code.
  abbrev after_miss : OneTimePassword → OneTimePassword
  after_miss o = if leb max_attempts o.attempts then o else with_attempt o

  missed-found :
      (o : OneTimePassword) (w : World)
      → IsUndisturbed
      → find_otp msisdn w.db.otps ≡ some o
      → find_otp msisdn (missed w).db.otps ≡ some (with_attempt o)
  missed-found o w calm e =
      find?-update_same (is_otp msisdn) (is_otp msisdn) with_attempt (λ x. refl)
        (env.others w.calls w.db).otps
      ∙ rw (calm w.calls w.db ∙ e) refl

  wrong_code :
      (b : Bool) (c : Text) (o : OneTimePassword) (w : World)
      → IsUndisturbed
      → IsBefore o.expires_at
      → o.consumed ≡ false
      → leb max_attempts o.attempts ≡ b
      → (c == o.code) ≡ false
      → find_otp msisdn w.db.otps ≡ some o
      → find_otp msisdn (verify_otp env max_attempts msisdn c w).1.db.otps
        ≡ some (if b then o else with_attempt o)
  wrong_code true c o w calm early fresh h n e =
      let w' = read env max_attempts msisdn c w in
      ap (λ x. find_otp msisdn x.1.db.otps)
        (verify-judge c o w calm e ∙ judge-locked o fresh c (env.clock (w.calls + 1)) w' h)
      ∙ calm w.calls w.db
      ∙ e
  wrong_code false c o w calm early fresh h n e =
      let w' = read env max_attempts msisdn c w in
      ap (λ x. find_otp msisdn x.1.db.otps)
        (verify-judge c o w calm e
          ∙ judge-wrong o fresh c (env.clock (w.calls + 1)) w' h
              (ground (arith, early (w.calls + 1))) n)
      ∙ missed-found o w' calm (calm w.calls w.db ∙ e)

  right_code :
      (b : Bool) (o : OneTimePassword) (w : World)
      → IsUndisturbed
      → IsBefore o.expires_at
      → o.consumed ≡ false
      → leb max_attempts o.attempts ≡ b
      → find_otp msisdn w.db.otps ≡ some o
      → (verify_otp env max_attempts msisdn o.code w).0
        ≡ (if b then err otp_max_attempts else ok tt)
  right_code true o w calm early fresh h e =
      ap (λ x. x.0)
        (verify-judge o.code o w calm e
          ∙ judge-locked o fresh o.code (env.clock (w.calls + 1))
              (read env max_attempts msisdn o.code w) h)
  right_code false o w calm early fresh h e =
      ap (λ x. x.0)
        (verify-judge o.code o w calm e
          ∙ judge-right o fresh (env.clock (w.calls + 1)) (read env max_attempts msisdn o.code w) h
              (early (w.calls + 1)))

  -- What the right code is answered after some wrong ones.
  abbrev pub verdict : ℕ → Outcome Fault (Unit {0})
  verdict attempts = if ltb attempts max_attempts then ok tt else err otp_max_attempts

  guessed-verdict :
      (tried : List Text) (b : Bool) (o : OneTimePassword) (w : World)
      → IsUndisturbed
      → IsBefore o.expires_at
      → o.consumed ≡ false
      → leb max_attempts o.attempts ≡ b
      → any (λ c. c == o.code) tried ≡ false
      → find_otp msisdn w.db.otps ≡ some o
      → (verify_otp env max_attempts msisdn o.code (guessed tried w)).0
        ≡ verdict (o.attempts + length tried)
  guessed-verdict [] b o w calm early fresh h n e =
      right_code b o w calm early fresh h e ∙ ground (arith, h)
  guessed-verdict (c ∷ cs) true o w calm early fresh h n e =
      guessed-verdict cs true o (verify_otp env max_attempts msisdn c w).1 calm early fresh h
        (ground (arith, n)) (wrong_code true c o w calm early fresh h (ground (arith, n)) e)
      ∙ ground (arith, h)
  guessed-verdict (c ∷ cs) false o w calm early fresh h n e =
      guessed-verdict cs (leb max_attempts (o.attempts + 1)) (with_attempt o)
        (verify_otp env max_attempts msisdn c w).1 calm early fresh refl (ground (arith, n))
        (wrong_code false c o w calm early fresh h (ground (arith, n)) e)
      ∙ ap verdict (omega arith)

  -- The challenge that is sent.
  abbrev sent_row : Text → Time → World → OneTimePassword
  sent_row code ttl w = record {
    msisdn = msisdn;
    code = code;
    expires_at = truncate microsecond (env.clock w.calls + ttl);
    attempts = 0;
    consumed = false;
  }

  sent-found :
      (code : Text) (ttl : Time) (w : World)
      → find_otp msisdn (send_otp env code ttl msisdn w).1.db.otps ≡ some (sent_row code ttl w)
  unfolding send_otp upsert_otp clock_now
  sent-found code ttl w =
      ap (λ x. find_otp msisdn x.1.db.otps)
        (bind-ok (clock_now env) _ w w (env.clock w.calls) refl
          ∙ statement-eq env pool _ w reliable)
      ∙ find_otp-upserted (sent_row code ttl w) (env.others w.calls w.db).otps

  -- A code is sent to a number; then other codes are tried; the driver does not fail, no other session
  -- writes the challenge, and the clock does not go past the expiry, which is kept to the
  -- microsecond. Then the code that was sent is
  -- accepted if fewer codes were tried than attempts are allowed, and otherwise it is refused, with
  -- the fault of too many attempts.
  pub send_otp-verify_otp :
      (code : Text) (ttl : Time) (tried : List Text) (w : World)
      → IsUndisturbed
      → IsBefore (truncate microsecond (env.clock w.calls + ttl))
      → any (λ c. c == code) tried ≡ false
      → (verify_otp env max_attempts msisdn code
          (guessed tried (send_otp env code ttl msisdn w).1)).0
        ≡ verdict (length tried)
  send_otp-verify_otp code ttl tried w calm early n =
      let o = sent_row code ttl w in
      guessed-verdict tried (leb max_attempts 0) o (send_otp env code ttl msisdn w).1 calm early
        refl refl n (sent-found code ttl w)
      ∙ ap verdict (omega arith)
