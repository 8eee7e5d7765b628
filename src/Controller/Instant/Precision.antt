-- ===== src/Controller/Instant/Precision.antt =====
-- What a rendered instant keeps of the written one (internal/adapter/controller/instant.go).
use numflex_sandbox.Prelude.{
  Bool, Bool-cases, List, [], any, ap, arith, contains, false, find?, inl, inr, length, none, refl,
  some, suc, true, zero, ℕ, ◌%◌, ◌*◌, ◌++◌, ◌+◌, ◌-◌, ◌/◌, ◌<◌, ◌==◌, ◌^◌, ◌↔◌, ◌∙◌, ◌∷◌, ◌≡◌, ◌≤◌,
}
use numflex_sandbox.Controller.Instant.{
  format_fraction, is_same_microsecond, padded, rendered_as, rendered_instant, written_at,
}
use numflex_sandbox.Entity.Incident.{same}
use numflex_sandbox.Entity.Request.{Time}
use numflex_sandbox.Framework.Clock.{microsecond, millisecond, rendered, truncate}

-- The number that decimal digits write.
abbrev pub number_of : List ℕ → ℕ → ℕ
number_of [] acc = acc
number_of (c ∷ cs) acc = number_of cs (acc * 10 + (c - 48))

number_of-append :
    (xs : List ℕ) (c acc : ℕ) → number_of (xs ++ (c ∷ [])) acc ≡ number_of xs acc * 10 + (c - 48)
number_of-append [] c acc = refl
number_of-append (x ∷ xs) c acc = number_of-append xs c (acc * 10 + (x - 48))

number_of-padded : (w n : ℕ) → n < 10 ^ w → number_of (padded w n) 0 ≡ n
number_of-padded zero n h = omega (arith, h)
number_of-padded (suc w) n h =
    rw (number_of-append (padded w (n / 10)) (48 + n % 10) 0)
      (rw (number_of-padded w (n / 10) (omega (arith, h))) (omega arith))

-- The fraction as a number of nanoseconds: its digits, as many as there are, are the first of nine.
abbrev pub nanoseconds : List ℕ → ℕ
nanoseconds [] = 0
nanoseconds (point ∷ digits) = number_of digits 0 * 10 ^ (9 - length digits)

-- The fraction is written with none, three, six or nine digits after its point, and it reads back as
-- the nanoseconds that it was made of; it has the fewest digits of these with which that is so.
pub format_fraction-nanoseconds :
    (ns : ℕ)
    → ns < 10 ^ 9
    → let text = format_fraction ns in
      (nanoseconds text ≡ ns)
      × ((length text ≡ 0) ↔ (ns ≡ 0))
      × ((length text ≤ 4) ↔ (ns % 1000000 ≡ 0))
      × ((length text ≤ 7) ↔ (ns % 1000 ≡ 0))
      × (length text ≤ 10)
unfolding format_fraction
format_fraction-nanoseconds ns h =
    let p9 = number_of-padded 9 ns h in
    let p6 = number_of-padded 6 (ns / 1000) (omega (arith, h)) in
    let p3 = number_of-padded 3 (ns / 1000000) (omega (arith, h)) in
    (ground (arith, h, p9, p6, p3), ground arith, ground arith, ground arith, ground arith)

-- What PostgreSQL keeps of an instant.
abbrev pub stored : Time → Time
stored t = truncate microsecond t

find?-none : (p : Time → Bool) (xs : List Time) → any p xs ≡ false → find? p xs ≡ none
find?-none p [] h = refl
find?-none p (x ∷ xs) h = ground (arith, find?-none p xs)

same-stored : (t u : Time) → is_same_microsecond (stored t) u ≡ true → stored u ≡ stored t
same-stored t u h = ground (arith, h)

same-written : (t : Time) → is_same_microsecond (stored t) t ≡ true
same-written t = ground arith

found-written :
    (t : Time) (written : List Time)
    → contains written t ≡ true
    → (u : Time) × (find? (is_same_microsecond (stored t)) written ≡ some u)
      × (stored u ≡ stored t)
      × (contains written u ≡ true)
found-written t [] h = let absurd : ⊥ = ground (arith, h) in elim absurd [ ]
found-written t (x ∷ written) h = elim (Bool-cases (is_same_microsecond (stored t) x)) [
  | inl e ↦ (x, rw e refl, same-stored t x e, ground arith)
  | inr e ↦
      let other : (x == t) ≡ false = ground (arith, e, same-written t) in
      let (u, found, same, member) = found-written t written (ground (arith, h, other)) in
      (u, rw e found, same, ground (arith, member))
]

-- With a skew of whole milliseconds, an instant that the request wrote comes back from the database
-- as an instant of its registry in the same microsecond, rendered with the skew and to the
-- nanosecond.
pub rendered_instant-written :
    (written : List Time) (skew t : Time)
    → skew % millisecond ≡ 0
    → contains written t ≡ true
    → (u : Time) × (stored u ≡ stored t)
      × (contains written u ≡ true)
      × (rendered_instant (some written) skew (stored t) ≡ u + skew)
unfolding rendered_instant written_at
rendered_instant-written written skew t whole h =
    let (u, found, same, member) = found-written t written h in
    (u, same, member, ap (rendered_as skew (stored t)) found ∙ omega (arith, whole))

-- An instant that the request did not write is rendered in whole milliseconds, less than one below
-- the stored instant with its skew.
pub rendered_instant-read :
    (written : List Time) (skew t : Time)
    → any (is_same_microsecond t) written ≡ false
    → let r = rendered_instant (some written) skew t in
      (r % millisecond ≡ 0) × (r ≤ t + skew) × (t + skew < r + millisecond)
unfolding rendered_instant written_at
rendered_instant-read written skew t h =
    let r = rendered_instant (some written) skew t in
    let e : r ≡ rendered skew t =
      ap (rendered_as skew t) (find?-none (is_same_microsecond t) written h) in
    (omega (arith, e), omega (arith, e), omega (arith, e))
