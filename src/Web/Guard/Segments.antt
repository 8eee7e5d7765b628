-- ===== src/Web/Guard/Segments.antt =====
-- The guard compares whole segments (internal/framework/web/router.go).
use numflex_sandbox.Prelude.{
  Bool, List, [], ap, arith, false, if◌then◌else◌, refl, subst, sym, true, ℕ, ◌&&◌, ◌==◌, ◌∙◌, ◌∷◌,
  ◌≡◌,
}
use numflex_sandbox.Framework.EnvFile.Precedence.{same_text-eq}
use numflex_sandbox.Framework.Text.{codes, same_text}
use numflex_sandbox.Web.Guard.{gateway_prefix, is_guarded, is_under, sandbox_prefix}

-- A path as what stands before its first '/' and the segments after it.
abbrev pub split_onto : ℕ → List ℕ × List (List ℕ) → List ℕ × List (List ℕ)
split_onto c (head, rest) = if c == 47 then ([], head ∷ rest) else (c ∷ head, rest)

abbrev pub segments : List ℕ → List ℕ × List (List ℕ)
segments [] = ([], [])
segments (c ∷ cs) = split_onto c (segments cs)

-- Whether a list of segments begins another.
abbrev pub begins : List (List ℕ) → List (List ℕ) → Bool
begins [] ts = true
begins (s ∷ ss) [] = false
begins (s ∷ ss) (t ∷ ts) = same_text s t && begins ss ts

abbrev pub path_begins : List ℕ × List (List ℕ) → List ℕ × List (List ℕ) → Bool
path_begins (s, ss) (t, ts) = same_text s t && begins ss ts

under_nil :
    (c : ℕ) (x : List ℕ × List (List ℕ)) → path_begins ([], []) (split_onto c x) ≡ (47 == c && true)
under_nil c (t, ts) = ground arith

nil_under : (c : ℕ) (x : List ℕ × List (List ℕ)) → path_begins (split_onto c x) ([], []) ≡ false
nil_under c (t, ts) = ground arith

cons_under :
    (a c : ℕ) (x y : List ℕ × List (List ℕ))
    → path_begins (split_onto a x) (split_onto c y) ≡ (a == c && path_begins x y)
cons_under a c (s, ss) (t, ts) = ground arith

under_cons : (a c : ℕ) (p cs : List ℕ) → is_under (a ∷ p) (c ∷ cs) ≡ (a == c && is_under p cs)
under_cons a c p cs = ground arith

is_under-segments : (p path : List ℕ) → is_under p path ≡ path_begins (segments p) (segments path)
is_under-segments [] [] = refl
is_under-segments [] (c ∷ cs) = sym (under_nil c (segments cs))
is_under-segments (a ∷ p) [] = sym (nil_under a (segments p))
is_under-segments (a ∷ p) (c ∷ cs) =
    under_cons a c p cs
    ∙ ap (λ b. a == c && b) (is_under-segments p cs)
    ∙ sym (cons_under a c (segments p) (segments cs))

abbrev pub gateway_segments : List (List ℕ)
gateway_segments = codes "api" ∷ codes "gateway" ∷ codes "v1" ∷ []

abbrev sandbox_segments : List (List ℕ)
sandbox_segments = codes "api" ∷ codes "sandbox" ∷ codes "v1" ∷ []

sandbox-gateway :
    (s : List ℕ) → same_text (codes "sandbox") s ≡ true → same_text (codes "gateway") s ≡ false
sandbox-gateway s h =
    subst (λ t. same_text (codes "gateway") t ≡ false) (same_text-eq (codes "sandbox") s h) refl

apart :
    (x : List ℕ × List (List ℕ))
    → path_begins ([], sandbox_segments) x ≡ true
    → path_begins ([], gateway_segments) x ≡ false
apart (s, []) h = ground arith
apart (s, t ∷ []) h = ground arith
apart (s, t ∷ u ∷ ts) h = ground (arith, h, sandbox-gateway u)

-- The guard catches a path exactly if its first segments are `api`, `gateway` and `v1`, whole: a
-- neighbour such as /api/gateway/v10 goes on without authentication, and so does every path under
-- the prefix of the sandbox's own routes.
pub is_guarded-segments :
    (path : List ℕ)
    → (is_guarded path ≡ path_begins ([], gateway_segments) (segments path))
      × (is_under sandbox_prefix path ≡ true → is_guarded path ≡ false)
unfolding is_guarded
is_guarded-segments path = (
  is_under-segments gateway_prefix path,
  λ h.
      is_under-segments gateway_prefix path
      ∙ apart (segments path) (sym (is_under-segments sandbox_prefix path) ∙ h),
)
