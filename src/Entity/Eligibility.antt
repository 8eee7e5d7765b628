-- ===== src/Entity/Eligibility.antt =====
-- internal/entity/eligibility.go: when a number may be ported or restituted.
-- The code reads the wall clock by `time.Since`; here the instant is the argument `now`.
-- `time.Since(t) < delay` is `now < t + delay`, which also holds where `t` is in the future.
pub mod Rules
use numflex_sandbox.Prelude.{
  Bool, Option, false, if◌then◌else◌, ltb, none, some, true, ◌*◌, ◌+◌, ◌==◌,
}
use numflex_sandbox.Entity.Fault.{
  Fault, incorrect_source_operator, number_already_at_recipient, number_already_restituted,
  number_not_ported, porting_delay_not_respected, request_already_in_progress_for_number,
  restitution_delay_not_respected,
}
use numflex_sandbox.Entity.Request.{Text, Time}

abbrev hour : Time
hour = 3600000000000

abbrev pub delay_between_portings : Time
delay_between_portings = 3 * 30 * 24 * hour

abbrev pub delay_before_restitution : Time
delay_before_restitution = 6 * 30 * 24 * hour

pub record NumberState : Type 0 where
  pub msisdn : Text
  pub current_operator_id : Text
  pub origin_operator_id : Text
  pub last_porting_date : Option Time
  pub already_restituted : Bool
  pub request_in_progress : Bool

-- `date != nil && time.Since(*date) < delay`
abbrev pub is_recent : Option Time → Time → Time → Bool
is_recent none delay now = false
is_recent (some t) delay now = ltb now (t + delay)

abbrev pub is_never : Option Time → Bool
is_never none = true
is_never (some _) = false

unfoldable pub check_porting_eligibility : NumberState → Text → Text → Time → Time → Option Fault
check_porting_eligibility n source_id recipient_id porting_delay now =
    if n.current_operator_id == recipient_id
    then some number_already_at_recipient
    else if n.current_operator_id == source_id
    then (if n.request_in_progress
        then some request_already_in_progress_for_number
        else if is_recent n.last_porting_date porting_delay now
        then some porting_delay_not_respected
        else none)
    else some incorrect_source_operator

-- The test on the date comes after the test that there is one.
unfoldable pub check_restitution_eligibility : NumberState → Time → Time → Option Fault
check_restitution_eligibility n restitution_delay now =
    if is_never n.last_porting_date
    then some number_not_ported
    else if n.current_operator_id == n.origin_operator_id
    then some number_not_ported
    else if n.already_restituted
    then some number_already_restituted
    else if is_recent n.last_porting_date restitution_delay now
    then some restitution_delay_not_respected
    else if n.request_in_progress
    then some request_already_in_progress_for_number
    else none
