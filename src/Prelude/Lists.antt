-- ===== src/Prelude/Lists.antt =====
-- Lists as tables: rows are found, counted and rewritten by a Boolean test.
use Prim.Native.Nat.{ℕ, zero, suc, ◌+◌, ◌≤◌}
use mathlib.Core.Path.{◌≡◌, refl}
use mathlib.Core.Bool.{Bool, true, false, ◌||◌}
use mathlib.Core.List.{List, [], ◌∷◌, ◌++◌}
use mathlib.Core.Option.{Option, none, some}
use native.Mathlib.Omega.{arith}
use numflex_sandbox.Prelude.Tests.{if◌then◌else◌, ◌==◌, leb}

module _ {ℓ} {A : Type ℓ} where
  abbrev pub length : List A → ℕ
  length [] = 0
  length (x ∷ xs) = suc (length xs)

  -- The first row that passes the test.
  abbrev pub find? : (A → Bool) → List A → Option A
  find? p [] = none
  find? p (x ∷ xs) = if p x then some x else find? p xs

  -- Whether some row passes the test.
  abbrev pub any : (A → Bool) → List A → Bool
  any p [] = false
  any p (x ∷ xs) = p x || any p xs

  -- The rows that pass the test, in order.
  abbrev pub keep : (A → Bool) → List A → List A
  keep p [] = []
  keep p (x ∷ xs) = let rest = keep p xs in if p x then x ∷ rest else rest

  -- LIMIT and OFFSET.
  abbrev pub take : ℕ → List A → List A
  take zero xs = []
  take (suc n) [] = []
  take (suc n) (x ∷ xs) = x ∷ take n xs

  abbrev pub skip : ℕ → List A → List A
  skip zero xs = xs
  skip (suc n) [] = []
  skip (suc n) (x ∷ xs) = skip n xs

  -- The rows that pass the test are rewritten, the others stay.
  abbrev pub update_where : (A → Bool) → (A → A) → List A → List A
  update_where p f [] = []
  update_where p f (x ∷ xs) = (if p x then f x else x) ∷ update_where p f xs

-- ORDER BY a number, where equal ones keep the order of the table.
module _ {ℓ} {A : Type ℓ} (key : A → ℕ) where
  unfoldable pub insert_by : A → List A → List A
  insert_by x [] = x ∷ []
  insert_by x (y ∷ ys) =
      let rest = insert_by x ys in if leb (key x) (key y) then x ∷ y ∷ ys else y ∷ rest

  unfoldable pub order_by : List A → List A
  unfolding insert_by
  order_by [] = []
  order_by (x ∷ xs) = insert_by x (order_by xs)

-- Whether a number stands in a list.
abbrev pub contains : List ℕ → ℕ → Bool
contains [] a = false
contains (x ∷ xs) a = x == a || contains xs a

-- A key test that a rewriting keeps: the row found after a keyed update.
module _ {ℓ} {A : Type ℓ} (p q : A → Bool) (f : A → A) where
  -- The updated rows still answer to the same key.
  pub find?-update_same :
      ((x : A) → p (f x) ≡ p x)
      → (xs : List A)
      → find? p (update_where p f xs) ≡ (elim (find? p xs) [ none ↦ none | some x ↦ some (f x) ])
  find?-update_same h [] = refl
  find?-update_same h (x ∷ xs) = ground (arith, h x, find?-update_same h xs)

  -- A search for rows that the update leaves alone.
  pub find?-update_other :
      ((x : A) → p x ≡ true → (q (f x) ≡ false) × (q x ≡ false))
      → (xs : List A) → find? q (update_where p f xs) ≡ find? q xs
  find?-update_other h [] = refl
  find?-update_other h (x ∷ xs) = ground (arith, h x, find?-update_other h xs)

module _ {ℓ} {A : Type ℓ} (p : A → Bool) where
  pub find?-append :
      (xs : List A) (y : A)
      → find? p (xs ++ (y ∷ []))
        ≡ (elim (find? p xs) [ none ↦ (if p y then some y else none) | some x ↦ some x ])
  find?-append [] y = refl
  find?-append (x ∷ xs) y = ground (arith, find?-append xs y)

  pub find?-holds : (xs : List A) (y : A) → find? p xs ≡ some y → p y ≡ true
  find?-holds [] y h = cc
  find?-holds (x ∷ xs) y h = ground (arith, find?-holds xs y)

  pub any-find? : (xs : List A) → any p xs ≡ (elim (find? p xs) [ none ↦ false | some x ↦ true ])
  any-find? [] = refl
  any-find? (x ∷ xs) = ground (arith, any-find? xs)

  pub length-keep_append :
      (xs : List A) (y : A)
      → length (keep p (xs ++ (y ∷ []))) ≡ length (keep p xs) + (if p y then 1 else 0)
  length-keep_append [] y = ground arith
  length-keep_append (x ∷ xs) y = ground (arith, length-keep_append xs y)

  pub length-keep_none : (xs : List A) → any p xs ≡ false → length (keep p xs) ≡ 0
  length-keep_none [] h = refl
  length-keep_none (x ∷ xs) h = ground (arith, length-keep_none xs)

  pub any-append : (xs : List A) (y : A) → any p (xs ++ (y ∷ [])) ≡ (any p xs || p y)
  any-append [] y = ground arith
  any-append (x ∷ xs) y = ground (arith, any-append xs y)

  -- A rewriting that makes no row pass adds none to the count.
  pub length-keep_update :
      (q : A → Bool) (f : A → A)
      → ((x : A) → p (f x) ≡ true → p x ≡ true)
      → (xs : List A) → length (keep p (update_where q f xs)) ≤ length (keep p xs)
  length-keep_update q f h [] = ground arith
  length-keep_update q f h (x ∷ xs) = ground (arith, h x, length-keep_update q f h xs)

-- A row that is found is a row that there is.
module _ {ℓ} {A : Type ℓ} (p : A → Bool) where
  pub any-some : (xs : List A) (x : A) → find? p xs ≡ some x → any p xs ≡ true
  any-some [] x h = ground (arith, h)
  any-some (y ∷ ys) x h = ground (arith, h, any-some ys x)

  pub any-none : (xs : List A) → find? p xs ≡ none → any p xs ≡ false
  any-none [] h = refl
  any-none (y ∷ ys) h = ground (arith, h, any-none ys)
