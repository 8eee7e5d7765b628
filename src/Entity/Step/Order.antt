-- ===== src/Entity/Step/Order.antt =====
-- The order of the steps (internal/entity/step.go): a rank that `NextStep` raises by one.
use numflex_sandbox.Prelude.{arith, none, refl, some, suc, zero, ℕ, ◌+◌, ◌↔◌, ◌≡◌, ◌⊎◌}
use numflex_sandbox.Entity.Request.{
  Step, acceptance, activation, completion, confirmation, deactivation,
}
use numflex_sandbox.Entity.Step.{next_step}

-- The position of a step in a request's life; 0 for a string that names no step.
abbrev pub rank : Step → ℕ
rank acceptance = 1
rank deactivation = 2
rank activation = 3
rank confirmation = 4
rank completion = 5
rank (Step.other _) = 0

-- `NextStep` answers a step exactly one rank above, and it answers one exactly for the four steps
-- before COMPLETION: neither COMPLETION nor a string that names no step has a next step.
pub next_step-rank :
    (s : Step)
    → ((t : Step) → next_step s ≡ some t → rank t ≡ rank s + 1)
      × ((next_step s ≡ none) ↔ ((s ≡ completion) ⊎ (rank s ≡ 0)))
unfolding next_step
next_step-rank acceptance = (λ t h. ground arith, ground arith)
next_step-rank deactivation = (λ t h. ground arith, ground arith)
next_step-rank activation = (λ t h. ground arith, ground arith)
next_step-rank confirmation = (λ t h. ground arith, ground arith)
next_step-rank completion = (λ t h. ground arith, ground arith)
next_step-rank (Step.other a) = (λ t h. ground arith, ground arith)

-- Whether `n` advances lead from one step to another.
abbrev pub Leads : ℕ → Step → Step → Type 0
Leads zero s t = s ≡ t
Leads (suc n) s t = (u : Step) × (next_step s ≡ some u) × Leads n u t

next_in-rank : (s t : Step) → next_step s ≡ some t → rank t ≡ rank s + 1
next_in-rank s t h = (next_step-rank s).0 t h

-- `n` advances raise the rank by exactly `n`: no chain of advances skips a step or comes back to
-- one.
pub Leads-rank : (n : ℕ) (s t : Step) → Leads n s t → rank t ≡ rank s + n
Leads-rank zero s t h = ground arith
Leads-rank (suc n) s t (u, h, k) = omega (arith, Leads-rank n u t k, next_in-rank s u h)

-- From ACCEPTATION, COMPLETION is reached by exactly four advances.
pub acceptance-completion : (n : ℕ) → Leads n acceptance completion ↔ (n ≡ 4)
unfolding next_step
acceptance-completion n = (
  λ h. omega (arith, Leads-rank n acceptance completion h),
  λ e.
      rw e (deactivation, refl, (activation, refl, (confirmation, refl, (completion, refl, refl)))),
)
