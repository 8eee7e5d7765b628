-- ===== src/Entity/Eligibility/Rules.antt =====
-- What makes a number eligible (internal/entity/eligibility.go), stated without the order of tests.
use numflex_sandbox.Prelude.{Option, arith, false, none, some, ◌+◌, ◌↔◌, ◌≡◌, ◌≢◌, ◌≤◌}
use numflex_sandbox.Entity.Eligibility.{
  NumberState, check_porting_eligibility, check_restitution_eligibility, delay_before_restitution,
  delay_between_portings,
}
use numflex_sandbox.Entity.Request.{Text, Time}

-- The last porting, if there was one, is at least `delay` old.
abbrev pub IsSettled : Option Time → Time → Time → Type 0
IsSettled none delay now = Unit
IsSettled (some t) delay now = t + delay ≤ now

-- A number may be ported exactly when the declared source holds it, the recipient is another
-- operator, no request is in progress for it, and it was never ported or last ported at least the
-- delay ago.
pub check_porting_eligibility_iff :
    (n : NumberState) (source recipient : Text) (delay now : Time)
    → (check_porting_eligibility n source recipient delay now ≡ none) ↔ (
        (n.current_operator_id ≡ source)
        × (source ≢ recipient)
        × (n.request_in_progress ≡ false)
        × IsSettled n.last_porting_date delay now)
unfolding check_porting_eligibility
check_porting_eligibility_iff n source recipient delay now = ground arith

-- The last porting is known and at least `delay` old.
abbrev pub IsAged : Option Time → Time → Time → Type 0
IsAged none delay now = ⊥
IsAged (some t) delay now = t + delay ≤ now

-- A number may be restituted exactly when it has been ported, its holder is not its origin, it was
-- not restituted before, no request is in progress for it, and its last porting is at least the
-- delay ago.
pub check_restitution_eligibility_iff :
    (n : NumberState) (delay now : Time)
    → (check_restitution_eligibility n delay now ≡ none) ↔ (
        (n.current_operator_id ≢ n.origin_operator_id)
        × (n.already_restituted ≡ false)
        × (n.request_in_progress ≡ false)
        × IsAged n.last_porting_date delay now)
unfolding check_restitution_eligibility
check_restitution_eligibility_iff n delay now = ground arith

-- A number that its current holder may give back to its origin is one that could also be ported
-- from the holder to any third operator: the restitution rules are the stricter ones.
pub restitution_eligible-porting_eligible :
    (n : NumberState) (recipient : Text) (now : Time)
    → check_restitution_eligibility n delay_before_restitution now ≡ none
    → n.current_operator_id ≢ recipient
    → check_porting_eligibility n n.current_operator_id recipient delay_between_portings now ≡ none
unfolding check_restitution_eligibility check_porting_eligibility
restitution_eligible-porting_eligible n recipient now h k = ground arith
