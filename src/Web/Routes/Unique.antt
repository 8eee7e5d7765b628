-- ===== src/Web/Routes/Unique.antt =====
-- No request fits two routes (internal/framework/web/router.go).
use numflex_sandbox.Prelude.{
  Bool, List, Memᴰ, [], any, ap, arith, false, not, refl, subst, sym, true, ℕ, ◌&&◌, ◌∙◌, ◌∷◌, ◌≡◌,
}
use numflex_sandbox.Framework.EnvFile.Precedence.{same_text-eq}
use numflex_sandbox.Framework.Text.{same_text}
use numflex_sandbox.Web.Guard.Segments.{segments}
use numflex_sandbox.Web.Routes.{
  Method, Route, Segment, accepts, contract_routes, id_param, matches, routes, same_method, word,
}

-- Whether some path fits both patterns.
abbrev overlaps : List Segment → List Segment → Bool
overlaps [] [] = true
overlaps [] (t ∷ q) = false
overlaps (s ∷ p) [] = false
overlaps (word s ∷ p) (word t ∷ q) = same_text s t && overlaps p q
overlaps (word s ∷ p) (id_param ∷ q) = overlaps p q
overlaps (id_param ∷ p) (t ∷ q) = overlaps p q

abbrev both : Route → Route → Bool
both r s = same_method r.method s.method && overlaps r.pattern s.pattern

abbrev pub is_apart : List Route → Bool
is_apart [] = true
is_apart (r ∷ rs) = not (any (both r) rs) && is_apart rs

same_word : (s t x : List ℕ) → same_text s x ≡ true → same_text t x ≡ true → same_text s t ≡ true
same_word s t x h k = subst (λ y. same_text s y ≡ true) (sym (same_text-eq t x k)) h

matches-overlaps :
    (p q : List Segment) (ts : List (List ℕ))
    → matches p ts ≡ true
    → matches q ts ≡ true
    → overlaps p q ≡ true
matches-overlaps [] [] ts h k = refl
matches-overlaps [] (t ∷ q) [] h k = k
matches-overlaps [] (t ∷ q) (x ∷ ts) h k = h
matches-overlaps (s ∷ p) [] [] h k = h
matches-overlaps (s ∷ p) [] (x ∷ ts) h k = k
matches-overlaps (s ∷ p) (t ∷ q) [] h k = ground (arith, h)
matches-overlaps (word s ∷ p) (word t ∷ q) (x ∷ ts) h k =
    ground (arith, h, k, same_word s t x, matches-overlaps p q ts)
matches-overlaps (word s ∷ p) (id_param ∷ q) (x ∷ ts) h k =
    ground (arith, h, k, matches-overlaps p q ts)
matches-overlaps (id_param ∷ p) (word t ∷ q) (x ∷ ts) h k =
    ground (arith, h, k, matches-overlaps p q ts)
matches-overlaps (id_param ∷ p) (id_param ∷ q) (x ∷ ts) h k =
    ground (arith, h, k, matches-overlaps p q ts)

accepts-both :
    (m : Method) (path : List ℕ) (r s : Route)
    → accepts m path r ≡ true
    → accepts m path s ≡ true
    → both r s ≡ true
accepts-both m path r s h k =
    ground (arith, h, k, matches-overlaps r.pattern s.pattern (segments path).1)

any-Mem :
    (p : Route → Bool) (s : Route) (rs : List Route) → Memᴰ s rs → p s ≡ true → any p rs ≡ true
any-Mem p s [] m h = elim m [ ]
any-Mem p s (r ∷ rs) (Memᴰ.head e) h = ground (arith, ap p e, h)
any-Mem p s (r ∷ rs) (Memᴰ.tail m) h = ground (arith, any-Mem p s rs m h)

not_both :
    (x s : Route) (rs : List Route) → is_apart (x ∷ rs) ≡ true → Memᴰ s rs → both x s ≡ true → ⊥
not_both x s rs a f h = ground (arith, a, any-Mem (both x) s rs f h)

is_apart_unique :
    (rs : List Route) (m : Method) (path : List ℕ) (r s : Route)
    → is_apart rs ≡ true
    → Memᴰ r rs
    → Memᴰ s rs
    → accepts m path r ≡ true
    → accepts m path s ≡ true
    → r ≡ s
is_apart_unique [] m path r s a e f h k = elim e [ ]
is_apart_unique (x ∷ rs) m path r s a (Memᴰ.head e) (Memᴰ.head f) h k = e ∙ sym f
is_apart_unique (x ∷ rs) m path r s a (Memᴰ.head e) (Memᴰ.tail f) h k =
    elim (not_both x s rs a f (subst (λ y. both y s ≡ true) e (accepts-both m path r s h k))) [ ]
is_apart_unique (x ∷ rs) m path r s a (Memᴰ.tail e) (Memᴰ.head f) h k =
    elim (not_both x r rs a e (subst (λ y. both y r ≡ true) f (accepts-both m path s r k h))) [ ]
is_apart_unique (x ∷ rs) m path r s a (Memᴰ.tail e) (Memᴰ.tail f) h k =
    is_apart_unique rs m path r s (ground (arith, a)) e f h k

routes-is_apart : (docs : Bool) → is_apart (routes docs) ≡ true
unfolding routes contract_routes
routes-is_apart true = refl
routes-is_apart false = refl

-- With the documentation or without it, no two routes of the table stand for a same request: the
-- handler of a request does not depend on the order in which the routes are tried.
pub routes_unique :
    (docs : Bool) (m : Method) (path : List ℕ) (r s : Route)
    → Memᴰ r (routes docs)
    → Memᴰ s (routes docs)
    → accepts m path r ≡ true
    → accepts m path s ≡ true
    → r ≡ s
routes_unique docs m path r s = is_apart_unique (routes docs) m path r s (routes-is_apart docs)
