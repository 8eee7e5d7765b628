-- ===== src/Entity/Step.antt =====
-- internal/entity/step.go: the order of the steps and who owns each.
pub mod Order
use numflex_sandbox.Prelude.{
  Bool, List, Option, String, [], false, if◌then◌else◌, none, some, true, ◌==◌, ◌∷◌,
}
use numflex_sandbox.Entity.Request.{
  RequestType, Role, Step, acceptance, activation, completion, confirmation, deactivation, reverse,
  role_all, role_artp, role_recipient, role_source,
}

pub step_sequence : List Step
step_sequence = acceptance ∷ deactivation ∷ activation ∷ confirmation ∷ completion ∷ []

-- `x == s` on the strings of two steps.
abbrev pub step_eq : Step → Step → Bool
step_eq acceptance acceptance = true
step_eq deactivation deactivation = true
step_eq activation activation = true
step_eq confirmation confirmation = true
step_eq completion completion = true
step_eq (Step.other a) (Step.other b) = a == b
step_eq _ _ = false

-- The loop of `NextStep` over what is left of the sequence.
next_in : List Step → Step → Option Step
next_in [] s = none
next_in (x ∷ []) s = none
next_in (x ∷ y ∷ rest) s = if step_eq x s then some y else next_in (y ∷ rest) s

unfoldable pub next_step : Step → Option Step
unfolding step_sequence next_in
next_step s = next_in step_sequence s

unfoldable pub step_owner : Step → RequestType → Role
step_owner acceptance rt = role_source
step_owner deactivation rt = role_source
step_owner activation rt = role_recipient
step_owner confirmation rt = role_all
step_owner completion reverse = role_artp
step_owner completion _ = role_recipient
step_owner (Step.other _) rt = role_artp

unfoldable pub step_endpoint : Step → String
step_endpoint acceptance = "POST /api/gateway/v1/demandes/acceptation"
step_endpoint confirmation = "POST /api/gateway/v1/demandes/a-confirmer"
step_endpoint _ = "POST /api/gateway/v1/demandes/traitement"
