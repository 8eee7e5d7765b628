-- ===== src/Framework/EnvFile/Quoted.antt =====
-- Quoted values are read back (internal/framework/config/env.go).
use numflex_sandbox.Prelude.{
  List, [], ap, arith, contains, false, refl, some, sym, true, ℕ, ◌++◌, ◌==◌, ◌||◌, ◌∙◌, ◌∷◌, ◌≡◌,
}
use numflex_sandbox.Framework.EnvFile.{
  are_key_characters, assignment, is_alpha, parse_assignment, parse_line, parse_trimmed, split_last,
  unquote, valid_key,
}
use numflex_sandbox.Framework.Text.{
  codes, cut, has_prefix, is_digit, is_space, put_unless_space, trim_left, trim_right, trim_space,
}
use numflex_sandbox.Store.Session.{ok}

-- The line `key='value'`.
abbrev pub quoted : List ℕ → List ℕ → List ℕ
quoted key value = key ++ (61 ∷ 39 ∷ (value ++ (39 ∷ [])))

put-visible : (x : ℕ) (xs : List ℕ) → is_space x ≡ false → put_unless_space x xs ≡ x ∷ xs
put-visible x [] h = rw h refl
put-visible x (y ∷ ys) h = refl

put-snoc :
    (x : ℕ) (xs : List ℕ) (c : ℕ) → put_unless_space x (xs ++ (c ∷ [])) ≡ x ∷ (xs ++ (c ∷ []))
put-snoc x [] c = refl
put-snoc x (y ∷ ys) c = refl

trim_right-snoc :
    (xs : List ℕ) (c : ℕ) → is_space c ≡ false → trim_right (xs ++ (c ∷ [])) ≡ xs ++ (c ∷ [])
trim_right-snoc [] c h = put-visible c [] h
trim_right-snoc (x ∷ xs) c h = ap (put_unless_space x) (trim_right-snoc xs c h) ∙ put-snoc x xs c

visible : (c : ℕ) → (is_alpha c || is_digit c) ≡ true → is_space c ≡ false
visible c h = ground (arith, h)

trim_right-key : (xs : List ℕ) → are_key_characters xs ≡ true → trim_right xs ≡ xs
trim_right-key [] h = refl
trim_right-key (x ∷ xs) h =
    ap (put_unless_space x) (trim_right-key xs (ground (arith, h)))
    ∙ put-visible x xs (visible x (ground (arith, h)))

cut-key :
    (key rest : List ℕ)
    → are_key_characters key ≡ true
    → cut (key ++ (61 ∷ rest)) ≡ some (key, rest)
cut-key [] rest h = refl
cut-key (c ∷ key) rest h = let e = cut-key key rest (ground (arith, h)) in rw e (ground (arith, h))

split_last-snoc : (xs : List ℕ) (d : ℕ) → (c : ℕ) → split_last c (xs ++ (d ∷ [])) ≡ (c ∷ xs, d)
split_last-snoc [] d c = refl
split_last-snoc (x ∷ xs) d c = rw (split_last-snoc xs d x) refl

has_prefix-key :
    (p key rest : List ℕ)
    → contains p 61 ≡ false
    → contains p 32 ≡ true
    → are_key_characters key ≡ true
    → has_prefix p (key ++ (61 ∷ rest)) ≡ false
has_prefix-key [] key rest n h k = ground (arith, h)
has_prefix-key (x ∷ p) [] rest n h k = ground (arith, n)
has_prefix-key (x ∷ p) (c ∷ key) rest n h k = ground (arith, n, h, k, has_prefix-key p key rest)

unquote-quoted : (value : List ℕ) → unquote (39 ∷ (value ++ (39 ∷ []))) ≡ value
unfolding unquote
unquote-quoted [] = refl
unquote-quoted (v ∷ value) = rw (split_last-snoc value 39 v) refl

append_assoc : (xs ys zs : List ℕ) → xs ++ (ys ++ zs) ≡ (xs ++ ys) ++ zs
append_assoc [] ys zs = refl
append_assoc (x ∷ xs) ys zs = ap (λ l. x ∷ l) (append_assoc xs ys zs)

trim_left-visible : (c : ℕ) (l : List ℕ) → is_space c ≡ false → trim_left (c ∷ l) ≡ c ∷ l
trim_left-visible c l h = rw h refl

-- The line `key='value'` gives back the key and the value, where the key is a valid name and the
-- value is any text whatever: spaces, quotes, backslashes, number signs and equal signs included.
pub parse_line-quoted :
    (key value : List ℕ) → valid_key key ≡ true → parse_line (quoted key value) ≡ ok (key, value)
unfolding parse_line parse_assignment valid_key
parse_line-quoted [] value h = cc
parse_line-quoted (c ∷ cs) value h =
    let key = c ∷ cs in
    let line = quoted key value in
    let characters : are_key_characters key ≡ true = ground (arith, h) in
    let seen : is_space c ≡ false = visible c (ground (arith, h)) in
    let trimmed : trim_space line ≡ line =
      ap trim_right (trim_left-visible c (cs ++ (61 ∷ 39 ∷ (value ++ (39 ∷ [])))) seen)
      ∙ ap trim_right (append_assoc key (61 ∷ 39 ∷ value) (39 ∷ []))
      ∙ trim_right-snoc (key ++ (61 ∷ 39 ∷ value)) 39 refl
      ∙ sym (append_assoc key (61 ∷ 39 ∷ value) (39 ∷ [])) in
    let name : trim_space key ≡ key =
      ap trim_right (trim_left-visible c cs seen) ∙ trim_right-key key characters in
    let inside : trim_space (39 ∷ (value ++ (39 ∷ []))) ≡ 39 ∷ (value ++ (39 ∷ [])) =
      trim_right-snoc (39 ∷ value) 39 refl in
    let hash : (35 == c) ≡ false = ground (arith, h) in
    ap parse_trimmed trimmed
    ∙ rw hash (
        rw (has_prefix-key (codes "export ") key (39 ∷ (value ++ (39 ∷ []))) refl refl characters)
          refl)
    ∙ ap assignment (cut-key key (39 ∷ (value ++ (39 ∷ []))) characters)
    ∙ rw name (rw h (rw inside (rw (unquote-quoted value) refl)))
