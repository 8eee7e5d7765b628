-- ===== src/Prelude/Sorted.antt =====
-- What ORDER BY does to a list: its rows stay, and their keys ascend.
use Prim.Native.Nat.{ℕ, ◌≤◌, ◌+◌}
use mathlib.Core.Path.{◌≡◌, refl}
use mathlib.Core.Bool.{Bool, ◌||◌}
use mathlib.Core.List.{List, [], ◌∷◌}
use native.Mathlib.Omega.{arith}
use numflex_sandbox.Prelude.Tests.{if◌then◌else◌}
use numflex_sandbox.Prelude.Lists.{any, insert_by, keep, length, order_by}

module _ {ℓ} {A : Type ℓ} (key : A → ℕ) where
  -- Every row's key is at least `k`.
  abbrev pub IsAbove : ℕ → List A → Type 0
  IsAbove k [] = Unit
  IsAbove k (x ∷ xs) = k ≤ key x

  abbrev pub IsSorted : List A → Type 0
  IsSorted [] = Unit
  IsSorted (x ∷ xs) = IsAbove (key x) xs × IsSorted xs

  insert_by-IsAbove :
      (k : ℕ) (x : A) (xs : List A) → k ≤ key x → IsAbove k xs → IsAbove k (insert_by key x xs)
  unfolding insert_by
  insert_by-IsAbove k x [] h a = h
  insert_by-IsAbove k x (y ∷ ys) h a = ground arith

  insert_by-IsSorted : (x : A) (xs : List A) → IsSorted xs → IsSorted (insert_by key x xs)
  unfolding insert_by
  insert_by-IsSorted x [] h = (tt, tt)
  insert_by-IsSorted x (y ∷ ys) h =
      ground (arith, insert_by-IsSorted x ys, insert_by-IsAbove (key y) x ys)

  pub order_by-IsSorted : (xs : List A) → IsSorted (order_by key xs)
  unfolding order_by
  order_by-IsSorted [] = tt
  order_by-IsSorted (x ∷ xs) = insert_by-IsSorted x (order_by key xs) (order_by-IsSorted xs)

  module _ (p : A → Bool) where
    any-insert_by : (x : A) (xs : List A) → any p (insert_by key x xs) ≡ (p x || any p xs)
    unfolding insert_by
    any-insert_by x [] = refl
    any-insert_by x (y ∷ ys) = ground (arith, any-insert_by x ys)

    pub any-order_by : (xs : List A) → any p (order_by key xs) ≡ any p xs
    unfolding order_by
    any-order_by [] = refl
    any-order_by (x ∷ xs) = ground (arith, any-insert_by x (order_by key xs), any-order_by xs)

    length-keep_insert :
        (x : A) (xs : List A)
        → length (keep p (insert_by key x xs)) ≡ (if p x then 1 else 0) + length (keep p xs)
    unfolding insert_by
    length-keep_insert x [] = ground arith
    length-keep_insert x (y ∷ ys) = ground (arith, length-keep_insert x ys)

    -- As many rows pass a test as before.
    pub length-keep-order_by :
        (xs : List A) → length (keep p (order_by key xs)) ≡ length (keep p xs)
    unfolding order_by
    length-keep-order_by [] = refl
    length-keep-order_by (x ∷ xs) =
        ground (arith, length-keep_insert x (order_by key xs), length-keep-order_by xs)
