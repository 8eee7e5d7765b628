-- ===== src/Framework/Clock.antt =====
-- `clock.System` (internal/framework/clock/clock.go); an instant is a number of nanoseconds.
use numflex_sandbox.Prelude.{◌%◌, ◌+◌, ◌-◌}
use numflex_sandbox.Entity.Request.{Time}

-- `t.Truncate(d)`
abbrev pub truncate : Time → Time → Time
truncate d t = t - t % d

-- `time.Millisecond`, `time.Microsecond`
abbrev pub millisecond : Time
millisecond = 1000000

abbrev pub microsecond : Time
microsecond = 1000

-- `Rendered`
abbrev pub rendered : Time → Time → Time
rendered skew t = truncate millisecond (t + skew)
