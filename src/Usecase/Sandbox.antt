-- ===== src/Usecase/Sandbox.antt =====
-- `PurgeTestDataInteractor` (internal/usecase/sandbox/purge_test_data.go).
pub mod Purged
pub mod Again
pub mod Replay
use numflex_sandbox.Prelude.{ℕ}
use numflex_sandbox.Entity.Authorization.{Caller}
use numflex_sandbox.Entity.Errors.{GoError}
use numflex_sandbox.Entity.Fault.{Fault}
use numflex_sandbox.Entity.Request.{Text}
use numflex_sandbox.Gateway.Sandbox.{
  delete_otp, delete_requests, delete_reverse_requests, numbers_to_restore, request_ids_to_purge,
  restore_numbers,
}
use numflex_sandbox.Store.Session.{Env, M, or_fault_from, pure, tx, unit_of_work, ◌>>=◌, ◌>>◌}
use numflex_sandbox.Usecase.Creation.Inputs.{or_abort}

-- `PurgeTestDataResult`
pub record PurgeTestDataResult : Type 0 where
  pub requests_deleted : ℕ
  pub numbers_restored : ℕ
  pub otp_deleted : ℕ
  pub reverse_deleted : ℕ

module _ (env : Env) where
  -- the body of the transaction
  unfoldable pub purge_in_transaction : Text → M GoError PurgeTestDataResult
  purge_in_transaction op = do
    ids ← or_abort (request_ids_to_purge env tx op) "reading the requests to purge"
    numbers ← or_abort (numbers_to_restore env tx ids) "reading the numbers to restore"
    reverse_count ← or_abort (delete_reverse_requests env tx op ids) "purging the reverse requests"
    otp_count ← or_abort (delete_otp env tx numbers) "purging the OTPs"
    request_count ← or_abort (delete_requests env tx ids) "purging the requests"
    number_count ← or_abort (restore_numbers env tx numbers) "restoring the registry"
    pure (record {
      requests_deleted = request_count;
      numbers_restored = number_count;
      otp_deleted = otp_count;
      reverse_deleted = reverse_count;
    })

  -- `Execute`
  unfoldable pub purge_test_data : Caller → M Fault PurgeTestDataResult
  purge_test_data caller =
      or_fault_from (unit_of_work env (purge_in_transaction caller.operator_id))
