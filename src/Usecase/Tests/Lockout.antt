-- ===== src/Usecase/Tests/Lockout.antt =====
-- A challenge and wrong codes, on the empty table.
use numflex_sandbox.Prelude.{[], arith, false, refl, ◌+◌, ◌∷◌, ◌≡◌}
use numflex_sandbox.Entity.Fault.{otp_max_attempts}
use numflex_sandbox.Entity.Request.{acceptance}
use numflex_sandbox.Store.Session.{Env, alone, err, ok}
use numflex_sandbox.Usecase.Otp.{send_otp, verify_otp}
use numflex_sandbox.Usecase.Otp.Lockout.{guessed, send_otp-verify_otp}
use numflex_sandbox.Usecase.Tests.{world}

-- A clock that stands still.
abbrev still : Env
still = alone (λ n. false) (λ n. 7) (λ n. n) (λ n. n + 100)

-- Two wrong codes leave the third attempt.
send_otp-verify_otp_example :
    (verify_otp still 3 77 1234 (
      guessed still
        (λ n. refl)
        3
        77
        (4321 ∷ 1111 ∷ [])
        (send_otp still 1234 300000 77 (world acceptance)).1)).0
    ≡ ok tt
send_otp-verify_otp_example =
    send_otp-verify_otp still (λ n. refl) 3 77 1234 300000 (4321 ∷ 1111 ∷ []) (world acceptance)
      (λ n d. refl) (λ n. omega arith) refl

-- Three do not.
locked_out :
    (verify_otp still 3 77 1234 (
      guessed still
        (λ n. refl)
        3
        77
        (4321 ∷ 1111 ∷ 2222 ∷ [])
        (send_otp still 1234 300000 77 (world acceptance)).1)).0
    ≡ err otp_max_attempts
locked_out =
    send_otp-verify_otp still (λ n. refl) 3 77 1234 300000 (4321 ∷ 1111 ∷ 2222 ∷ [])
      (world acceptance) (λ n d. refl) (λ n. omega arith) refl
