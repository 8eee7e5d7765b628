-- ===== src/Usecase/Platform/Tick.antt =====
-- What a tick picks (internal/framework/engine/engine.go, internal/usecase/platform).
use numflex_sandbox.Prelude.{arith, false, true, ◌<◌, ◌≡◌, ◌≤◌}
use numflex_sandbox.Entity.Request.{Step, Time}
use numflex_sandbox.Gateway.Requests.Transitions.{advanced_row, is_due, is_overdue}
use numflex_sandbox.Store.Schema.{RequestRow}

-- A tick never both converges and expires a request in one state: what is due is not overdue. And
-- a request that moved at or after the instant of a tick is not overdue for that tick, where the
-- timeout is positive.
pub is_due-is_overdue :
    (r : RequestRow) (now timeout as_of : Time)
    → (is_due now r ≡ true → is_overdue timeout as_of r ≡ false)
      × ((next : Step) (moved : Time)
          → as_of ≤ moved
          → 0 < timeout
          → is_overdue timeout as_of (advanced_row next moved r) ≡ false)
is_due-is_overdue r now timeout as_of = (λ h. ground arith, λ next moved h k. ground arith)
