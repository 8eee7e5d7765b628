-- ===== src/Usecase/Creation/Fleet.antt =====
-- How a fleet is cut down to the numbers of its request
-- (internal/usecase/creation/create_enterprise_request.go).
use numflex_sandbox.Prelude.{
  ==_iff, Bool, Bool-cases, List, [], arith, contains, if◌then◌else◌, inl, inr, is_none, ◌&&◌, ◌==◌,
  ◌∷◌, ◌≡◌,
}
use numflex_sandbox.Entity.Authorization.Rights.{count}
use numflex_sandbox.Entity.Eligibility.{check_porting_eligibility, delay_between_portings}
use numflex_sandbox.Entity.Request.{Text, Time}
use numflex_sandbox.Store.Session.{seen}
use numflex_sandbox.Usecase.Creation.Enterprise.{Member, deduplicate, deduplicate_from}

deduplicate_from-count :
    (seen xs : List Text) (a : Text)
    → count a (deduplicate_from seen xs)
      ≡ (if contains seen a then 0 else if contains xs a then 1 else 0)
unfolding deduplicate_from
deduplicate_from-count seen [] a = ground arith
deduplicate_from-count seen (n ∷ ns) a = elim (Bool-cases (n == a)) [
  | inl e ↦
      let p : n ≡ a = (==_iff n a).0 e in
      rw p
        (ground (arith, deduplicate_from-count (a ∷ seen) ns a, deduplicate_from-count seen ns a))
  | inr e ↦ ground (arith, deduplicate_from-count (n ∷ seen) ns a, deduplicate_from-count seen ns a)
]

-- The deduplicated fleet has each number of the fleet exactly once, and no other number.
pub deduplicate-count :
    (xs : List Text) (a : Text) → count a (deduplicate xs) ≡ (if contains xs a then 1 else 0)
unfolding deduplicate
deduplicate-count xs a = deduplicate_from-count [] xs a

-- Whether a member is the number `a` and may be ported.
abbrev pub is_retained : Text → Text → Time → Text → Member → Bool
is_retained source recipient now a (msisdn, s) =
    msisdn == a && is_none (check_porting_eligibility s source recipient delay_between_portings now)
