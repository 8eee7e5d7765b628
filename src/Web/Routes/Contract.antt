-- ===== src/Web/Routes/Contract.antt =====
-- The routes under the guard are those of the contract (internal/framework/web/router.go).
use numflex_sandbox.Prelude.{
  Bool, Bool-cases, List, Memᴰ, [], ap, arith, false, if◌then◌else◌, inl, inr, length, not, refl,
  subst, sym, true, ℕ, ◌&&◌, ◌||◌, ◌∙◌, ◌∷◌, ◌≡◌,
}
use numflex_sandbox.Framework.EnvFile.Precedence.{same_text-eq}
use numflex_sandbox.Framework.Text.{same_text}
use numflex_sandbox.Web.Guard.{is_guarded}
use numflex_sandbox.Web.Guard.Segments.{begins, gateway_segments, is_guarded-segments, segments}
use numflex_sandbox.Web.Routes.{
  Endpoint, Method, Route, Segment, accepts, contract_routes, handle_documentation,
  handle_get_authenticate, handle_post_authenticate, handle_purge, handle_ranges, id_param, matches,
  routes, word,
}

-- What the program adds to the contract.
abbrev pub is_contract : Endpoint → Bool
is_contract handle_post_authenticate = false
is_contract handle_get_authenticate = false
is_contract handle_ranges = false
is_contract handle_purge = false
is_contract (handle_documentation file) = false
is_contract _ = true

-- Whether every path of a pattern begins with the segments, and whether none does.
abbrev must : List (List ℕ) → List Segment → Bool
must [] p = true
must (s ∷ ss) [] = false
must (s ∷ ss) (word t ∷ p) = same_text s t && must ss p
must (s ∷ ss) (id_param ∷ p) = false

abbrev cannot : List (List ℕ) → List Segment → Bool
cannot [] p = false
cannot (s ∷ ss) [] = true
cannot (s ∷ ss) (word t ∷ p) = not (same_text s t) || cannot ss p
cannot (s ∷ ss) (id_param ∷ p) = cannot ss p

same_via : (s t x : List ℕ) → same_text t x ≡ true → same_text s x ≡ same_text s t
same_via s t x k = ap (same_text s) (sym (same_text-eq t x k))

must-begins :
    (ss : List (List ℕ)) (p : List Segment) (ts : List (List ℕ))
    → must ss p ≡ true
    → matches p ts ≡ true
    → begins ss ts ≡ true
must-begins [] p ts h k = refl
must-begins (s ∷ ss) [] ts h k = ground (arith, h)
must-begins (s ∷ ss) (word t ∷ p) [] h k = ground (arith, k)
must-begins (s ∷ ss) (word t ∷ p) (x ∷ ts) h k =
    ground (arith, h, k, same_via s t x, must-begins ss p ts)
must-begins (s ∷ ss) (id_param ∷ p) ts h k = ground (arith, h)

cannot-begins :
    (ss : List (List ℕ)) (p : List Segment) (ts : List (List ℕ))
    → cannot ss p ≡ true
    → matches p ts ≡ true
    → begins ss ts ≡ false
cannot-begins [] p ts h k = ground (arith, h)
cannot-begins (s ∷ ss) p [] h k = refl
cannot-begins (s ∷ ss) [] (x ∷ ts) h k = ground (arith, k)
cannot-begins (s ∷ ss) (word t ∷ p) (x ∷ ts) h k =
    ground (arith, h, k, same_via s t x, cannot-begins ss p ts)
cannot-begins (s ∷ ss) (id_param ∷ p) (x ∷ ts) h k = ground (arith, h, k, cannot-begins ss p ts)

abbrev is_decided : Route → Bool
is_decided r =
    if is_contract r.endpoint
    then must gateway_segments r.pattern
    else cannot gateway_segments r.pattern

decided-begins :
    (r : Route) (ts : List (List ℕ))
    → is_decided r ≡ true
    → matches r.pattern ts ≡ true
    → begins gateway_segments ts ≡ is_contract r.endpoint
decided-begins r ts h k = elim (Bool-cases (is_contract r.endpoint)) [
  | inl c ↦ must-begins gateway_segments r.pattern ts (ground (arith, c, h)) k ∙ sym c
  | inr c ↦ cannot-begins gateway_segments r.pattern ts (ground (arith, c, h)) k ∙ sym c
]

are_decided : List Route → Bool
are_decided [] = true
are_decided (r ∷ rs) = is_decided r && are_decided rs

both_true : (a b : Bool) → (a && b) ≡ true → (a ≡ true) × (b ≡ true)
both_true a b h = (ground arith, ground arith)

decided-Mem :
    (r : Route) (rs : List Route) → Memᴰ r rs → are_decided rs ≡ true → is_decided r ≡ true
unfolding are_decided
decided-Mem r [] m h = elim m [ ]
decided-Mem r (x ∷ rs) (Memᴰ.head e) h =
    subst (λ y. is_decided y ≡ true) (sym e) (both_true _ _ h).0
decided-Mem r (x ∷ rs) (Memᴰ.tail m) h = decided-Mem r rs m (both_true _ _ h).1

routes-decided : (docs : Bool) → are_decided (routes docs) ≡ true
unfolding routes contract_routes are_decided
routes-decided true = refl
routes-decided false = refl

caught :
    (r : Route) (s : List ℕ) (ts : List (List ℕ))
    → is_decided r ≡ true
    → (same_text s [] && matches r.pattern ts) ≡ true
    → (same_text [] s && begins gateway_segments ts) ≡ is_contract r.endpoint
caught r [] ts h k = decided-begins r ts h k
caught r (c ∷ s) ts h k = ground (arith, k)

-- The gateway has 33 routes. With the documentation or without it, a path that a route stands for is
-- caught by the guard exactly if the route is one of the contract's, and the program's own routes,
-- login included, are outside the guard.
pub routes-is_guarded :
    (docs : Bool) (m : Method) (path : List ℕ) (r : Route)
    → Memᴰ r (routes docs)
    → accepts m path r ≡ true
    → (is_guarded path ≡ is_contract r.endpoint) × (length contract_routes ≡ 33)
unfolding contract_routes
routes-is_guarded docs m path r member h = (
  (is_guarded-segments path).0
      ∙ caught r (segments path).0 (segments path).1
          (decided-Mem r (routes docs) member (routes-decided docs)) (both_true _ _ h).1,
  refl,
)
