-- ===== src/Usecase/Transition/Handover.antt =====
-- The statements of a transition against the registry
-- (internal/usecase/platform/apply_transition.go).
use numflex_sandbox.Prelude.{
  Bool, Option-cases, any, arith, false, inl, inr, refl, true, update_where, ◌==◌, ◌≡◌,
}
use numflex_sandbox.Entity.Request.{Step, StepStatus, Text, Time}
use numflex_sandbox.Gateway.Numbers.{is_number}
use numflex_sandbox.Gateway.Requests.Reads.{find_operator, routing_prefix}
use numflex_sandbox.Gateway.Requests.Transitions.{
  advance_step, apply_routing, complete_request, is_ported, transfer_numbers, transferred,
}
use numflex_sandbox.Store.Keeps.{Keeps, Keeps-bind, Keeps-tx}
use numflex_sandbox.Store.Schema.{Db, RequestRow}
use numflex_sandbox.Store.Session.{Env, tx}
use numflex_sandbox.Usecase.Transition.Holders.{handed, holder, holder-update}

module _ (env : Env) (r : RequestRow) (base : Db) where
  -- The registry and the fleets are those of `base`.
  abbrev pub Same : Db → Type 0
  Same d = (d.numbers ≡ base.numbers) × (d.request_numbers ≡ base.request_numbers)

  -- The numbers of a set have changed hands since `base`.
  abbrev pub Handed : (Text → Bool) → Db → Type 0
  Handed changes d =
      (m : Text)
      → holder m d.numbers ≡ handed (changes m) r.recipient_operator_id (holder m base.numbers)

  pub Handed-none : (d : Db) → Same d → Handed (λ _. false) d
  Handed-none d h m = ground (arith, h.0)

  pub Handed-transfer :
      (now : Time) (d : Db)
      → Same d
      → Handed
          (λ m. any (is_ported r.id m) base.request_numbers)
          (transfer_numbers r.id r.recipient_operator_id now d)
  Handed-transfer now d h m = rw (h.0) (
      rw (h.1) (
        holder-update (λ a. any (is_ported r.id a) base.request_numbers)
          (transferred r.recipient_operator_id now) r.recipient_operator_id m (λ n. (refl, refl))
          base.numbers))

  pub Handed-restitution :
      (now : Time) (d : Db)
      → Same d
      → (m : Text)
      → holder m (
          update_where
            (is_number r.msisdn)
            (λ n. record (transferred r.recipient_operator_id now n) { already_restituted = true })
            d.numbers)
        ≡ handed (m == r.msisdn) r.recipient_operator_id (holder m base.numbers)
  Handed-restitution now d h m = rw (h.0) (
      holder-update (λ a. a == r.msisdn)
        (λ n. record (transferred r.recipient_operator_id now n) { already_restituted = true })
        r.recipient_operator_id m (λ n. (refl, refl)) base.numbers)

  module _ (changes : Text → Bool) where
    pub prefix-Handed : (op : Text) → Keeps (Handed changes) (routing_prefix env tx op)
    unfolding routing_prefix
    prefix-Handed op = Keeps-tx env _ (λ now d p. elim (Option-cases (find_operator op d)) [
      | inl e ↦ rw e p
      | inr (o, e) ↦ rw e p
    ])

    pub route-Handed : (a b : Text) → Keeps (Handed changes) (apply_routing env tx r.id a b)
    unfolding apply_routing
    route-Handed a b =
        Keeps-bind _ _ (Keeps-tx env _ (λ _ d p. p)) (λ _. Keeps-tx env _ (λ _ d p. p))

    pub complete-Handed :
        (s : StepStatus) (now : Time) → Keeps (Handed changes) (complete_request env tx r.id s now)
    unfolding complete_request
    complete-Handed s now = Keeps-tx env _ (λ _ d p. p)

    pub advance-Handed :
        (s : Step) (now : Time) → Keeps (Handed changes) (advance_step env tx r.id s now)
    unfolding advance_step
    advance-Handed s now = Keeps-tx env _ (λ _ d p. p)

  pub prefix-Same : (op : Text) → Keeps Same (routing_prefix env tx op)
  unfolding routing_prefix
  prefix-Same op =
      Keeps-tx env _ (λ now d p. elim (Option-cases (find_operator op d)) [
        | inl e ↦ rw e p
        | inr (o, e) ↦ rw e p
      ])
