-- ===== src/Usecase/Transition/Holders.antt =====
-- The holders of the registry, the table numero, and the numbers that a transition hands over.
use numflex_sandbox.Prelude.{
  ==_iff, Bool, Bool-cases, List, Option, [], any, arith, find?, if◌then◌else◌, inl, inr, none, not,
  refl, some, update_where, ◌&&◌, ◌==◌, ◌||◌, ◌∷◌, ◌≡◌,
}
use numflex_sandbox.Entity.Request.{Text, is_activation, is_completion, is_in_progress, is_porting}
use numflex_sandbox.Gateway.Numbers.{is_number}
use numflex_sandbox.Store.Schema.{NumberRow, RequestNumberRow, RequestRow}

-- The operator that holds a number, if the number is in the registry.
abbrev pub holder : Text → List NumberRow → Option Text
holder msisdn rows = elim (find? (is_number msisdn) rows) [
  | none ↦ none
  | some n ↦ some n.current_operator_id
]

-- A holder that changes, if there was one.
abbrev pub handed : Bool → Text → Option Text → Option Text
handed changes op none = none
handed changes op (some h) = if changes then some op else some h

-- Whether the fleet of a request has the number on a row that is neither excluded nor rejected.
abbrev pub has_active_row : Text → Text → List RequestNumberRow → Bool
has_active_row id msisdn rows =
    any (λ n. n.request_id == id && n.msisdn == msisdn && not n.is_excluded && not n.is_rejected)
      rows

-- The numbers that the transition of a request hands to its recipient: when a PORTAGE leaves
-- ACTIVATION, those of its rows that are neither excluded nor rejected; when another request
-- leaves COMPLETION, its own number.
abbrev pub is_handed : RequestRow → List RequestNumberRow → Text → Bool
is_handed r rows msisdn =
    is_in_progress r.status
    && ((is_activation r.current_step
          && is_porting r.request_type
          && has_active_row r.id msisdn rows)
        || (is_completion r.current_step && not (is_porting r.request_type) && msisdn == r.msisdn))

pub holder-update :
    (p : Text → Bool) (f : NumberRow → NumberRow) (op msisdn : Text)
    → ((n : NumberRow) → ((f n).msisdn ≡ n.msisdn) × ((f n).current_operator_id ≡ op))
    → (rows : List NumberRow)
    → holder msisdn (update_where (λ n. p n.msisdn) f rows)
      ≡ handed (p msisdn) op (holder msisdn rows)
holder-update p f op msisdn h [] = refl
holder-update p f op msisdn h (n ∷ rows) = elim (Bool-cases (n.msisdn == msisdn)) [
  | inl e ↦ let q : n.msisdn ≡ msisdn = (==_iff n.msisdn msisdn).0 e in rw q (ground (arith, h n))
  | inr e ↦ ground (arith, h n, holder-update p f op msisdn h rows)
]
