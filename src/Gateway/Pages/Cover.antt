-- ===== src/Gateway/Pages/Cover.antt =====
-- The pages of a list are bounded, and follow one another without a gap or an overlap.
use numflex_sandbox.Prelude.{
  List, Option, [], ap, arith, length, none, refl, skip, some, suc, sym, take, zero, ℕ, ◌*◌, ◌++◌,
  ◌+◌, ◌<◌, ◌^◌, ◌∙◌, ◌∷◌, ◌≡◌, ◌≤◌,
}
use numflex_sandbox.Gateway.Pages.{offset, page_of}

offset-eq : (page size k : ℕ) → page * size ≡ k → k < 2 ^ 63 → offset page size ≡ k
offset-eq page size k e h = rw e (omega arith)

module _ {ℓ} {A : Type ℓ} where
  length-take : (n : ℕ) (xs : List A) → length (take n xs) ≤ n
  length-take zero xs = ground arith
  length-take (suc n) [] = ground arith
  length-take (suc n) (x ∷ xs) = omega (arith, length-take n xs)

  take-nil : (n : ℕ) → take {A = A} n [] ≡ []
  take-nil zero = refl
  take-nil (suc n) = refl

  skip-nil : (n : ℕ) → skip {A = A} n [] ≡ []
  skip-nil zero = refl
  skip-nil (suc n) = refl

  take-append-skip :
      (n m k : ℕ) (xs : List A) → n + m ≡ k → take n xs ++ take m (skip n xs) ≡ take k xs
  take-append-skip zero m k xs e = let p : m ≡ k = omega (arith, e) in rw p refl
  take-append-skip (suc n) m k [] e = take-nil m ∙ sym (take-nil k)
  take-append-skip (suc n) m k (x ∷ xs) e =
      let p : suc (n + m) ≡ k = omega (arith, e) in
      rw (sym p) (ap (λ ys. x ∷ ys) (take-append-skip n m (n + m) xs refl))

  -- The pages before `n`, one after the other; none where one of them is refused.
  abbrev pub pages : ℕ → ℕ → List A → Option (List A)
  pages zero size rows = some []
  pages (suc n) size rows = elim (pages n size rows) [
    | none ↦ none
    | some before ↦ elim (page_of n size rows) [ none ↦ none | some page ↦ some (before ++ page) ]
  ]

  page_of-eq :
      (page size k : ℕ) (rows : List A)
      → page * size ≡ k
      → k < 2 ^ 63
      → page_of page size rows ≡ some (take size (skip k rows))
  page_of-eq page size k rows e h = rw (offset-eq page size k e h) (ground arith)

  -- A page has at most `size` rows.
  length-page_of :
      (page size : ℕ) (rows found : List A)
      → page_of page size rows ≡ some found
      → length found ≤ size
  length-page_of page size rows found h =
      ground (arith, length-take size (skip (offset page size) rows))

  -- The first pages of a list, `n` of them in a row, are together its first n*size rows, each once
  -- and in order, as long as n*size fits in a signed 64-bit integer.
  pub pages-from :
      (n size k : ℕ) (rows : List A)
      → n * size ≡ k
      → k < 2 ^ 63
      → pages n size rows ≡ some (take k rows)
  pages-from zero size k rows e h = let p : k ≡ 0 = grind (arith, e) in rw p refl
  pages-from (suc n) size k rows e h =
      let p : n * size + size ≡ k = grind (arith, e) in
      rw (pages-from n size (n * size) rows refl (omega (arith, p))) (
        rw (page_of-eq n size (n * size) rows refl (omega (arith, p)))
          (ap some (take-append-skip (n * size) size k rows p)))
