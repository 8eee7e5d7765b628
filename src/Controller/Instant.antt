-- ===== src/Controller/Instant.antt =====
-- How an instant is rendered (internal/adapter/controller/instant.go,
-- internal/usecase/port/written_timestamps.go).
pub mod Precision
use numflex_sandbox.Prelude.{
  Bool, List, Option, [], find?, if◌then◌else◌, none, some, suc, zero, ℕ, ◌%◌, ◌++◌, ◌+◌, ◌-◌, ◌/◌,
  ◌==◌, ◌^◌, ◌∷◌,
}
use numflex_sandbox.Entity.Request.{Time}
use numflex_sandbox.Framework.Clock.{microsecond, millisecond, rendered, truncate}

-- the test of `WrittenAt`
abbrev pub is_same_microsecond : Time → Time → Bool
is_same_microsecond read t = truncate microsecond t == truncate microsecond read

-- `WrittenAt`; outside a request there is no registry
unfoldable pub written_at : Option (List Time) → Time → Option Time
written_at none read = none
written_at (some written) read = find? (is_same_microsecond read) written

-- the two branches of `renderedInstant`
abbrev pub rendered_as : Time → Time → Option Time → Time
rendered_as skew t none = rendered skew t
rendered_as skew t (some written) =
    truncate millisecond (rendered skew written) + (written - truncate millisecond written)

-- `renderedInstant`, less the conversion of its type
unfoldable pub rendered_instant : Option (List Time) → Time → Time → Time
rendered_instant registry skew t = rendered_as skew t (written_at registry t)

-- `%0wd` of a number that has at most `w` digits, as character codes
abbrev pub padded : ℕ → ℕ → List ℕ
padded zero n = []
padded (suc w) n = padded w (n / 10) ++ ((48 + n % 10) ∷ [])

-- the fraction of a second that `formatInstant` writes after the seconds, with its point
unfoldable pub format_fraction : ℕ → List ℕ
format_fraction ns =
    if ns == 0
    then []
    else if ns % 1000000 == 0
    then 46 ∷ padded 3 (ns / 1000000)
    else if ns % 1000 == 0
    then 46 ∷ padded 6 (ns / 1000)
    else 46 ∷ padded 9 ns

-- `formatInstant`, where `date_time` is `Format("2006-01-02T15:04:05")` of an instant in UTC
unfoldable pub format_instant : (Time → List ℕ) → Time → List ℕ
format_instant date_time t = date_time t ++ (format_fraction (t % 10 ^ 9) ++ (90 ∷ []))
