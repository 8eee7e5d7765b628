-- ===== src/Framework/Text.antt =====
-- Go strings as lists of character codes, and what the configuration uses of `strings` and `strconv`.
use numflex_sandbox.Prelude.{
  Bool, List, Option, String, [], char_code, false, if◌then◌else◌, leb, length, ltb, none, skip,
  some, suc, true, zero, ℕ, ◌&&◌, ◌*◌, ◌+◌, ◌-◌, ◌==◌, ◌^◌, ◌||◌, ◌∷◌,
}

-- The codes of a literal.
abbrev pub codes : String → List ℕ
codes String.[] = []
codes (String.◌∷◌ c s) = char_code c ∷ codes s

abbrev pub same_text : List ℕ → List ℕ → Bool
same_text [] [] = true
same_text [] (y ∷ ys) = false
same_text (x ∷ xs) [] = false
same_text (x ∷ xs) (y ∷ ys) = x == y && same_text xs ys

-- An `int` or a `time.Duration`.
pub data ℤ : Type 0 where
  pos : ℕ → ℤ
  negsuc : ℕ → ℤ

abbrev pub is_digit : ℕ → Bool
is_digit c = leb 48 c && leb c 57

-- the value of decimal digits; none where a character is not one
abbrev pub digits : List ℕ → ℕ → Option ℕ
digits [] acc = some acc
digits (c ∷ cs) acc =
    let rest = digits cs (acc * 10 + (c - 48)) in if is_digit c then rest else none

-- at least one digit
abbrev pub unsigned : List ℕ → Option ℕ
unsigned [] = none
unsigned (c ∷ cs) = digits (c ∷ cs) 0

-- within the range of int64
abbrev pub positive : Option ℕ → Option ℤ
positive none = none
positive (some n) = if ltb n (2 ^ 63) then some (pos n) else none

abbrev pub negative : Option ℕ → Option ℤ
negative none = none
negative (some zero) = some (pos 0)
negative (some (suc n)) = if ltb n (2 ^ 63) then some (negsuc n) else none

-- `strconv.Atoi`
unfoldable pub atoi : List ℕ → Option ℤ
atoi [] = none
atoi (c ∷ cs) =
    if c == 45
    then negative (unsigned cs)
    else if c == 43
    then positive (unsigned cs)
    else positive (unsigned (c ∷ cs))

-- `strconv.ParseBool`
unfoldable pub parse_bool : List ℕ → Option Bool
parse_bool v =
    if same_text v (codes "1")
      || same_text v (codes "t")
      || same_text v (codes "T")
      || same_text v (codes "TRUE")
      || same_text v (codes "true")
      || same_text v (codes "True")
    then some true
    else if same_text v (codes "0")
        || same_text v (codes "f")
        || same_text v (codes "F")
        || same_text v (codes "FALSE")
        || same_text v (codes "false")
        || same_text v (codes "False")
    then some false
    else none

-- `unicode.IsSpace`
abbrev pub is_space : ℕ → Bool
is_space c =
    (leb 9 c && leb c 13)
    || c == 32
    || c == 133
    || c == 160
    || c == 5760
    || (leb 8192 c && leb c 8202)
    || c == 8232
    || c == 8233
    || c == 8239
    || c == 8287
    || c == 12288

abbrev pub trim_left : List ℕ → List ℕ
trim_left [] = []
trim_left (c ∷ cs) = let rest = trim_left cs in if is_space c then rest else c ∷ cs

abbrev pub put_unless_space : ℕ → List ℕ → List ℕ
put_unless_space c [] = if is_space c then [] else c ∷ []
put_unless_space c (d ∷ ds) = c ∷ d ∷ ds

abbrev pub trim_right : List ℕ → List ℕ
trim_right [] = []
trim_right (c ∷ cs) = put_unless_space c (trim_right cs)

-- `strings.TrimSpace`
abbrev pub trim_space : List ℕ → List ℕ
trim_space l = trim_right (trim_left l)

-- `strings.HasPrefix`
abbrev pub has_prefix : List ℕ → List ℕ → Bool
has_prefix [] l = true
has_prefix (p ∷ ps) [] = false
has_prefix (p ∷ ps) (c ∷ cs) = p == c && has_prefix ps cs

-- `strings.TrimPrefix`
abbrev pub trim_prefix : List ℕ → List ℕ → List ℕ
trim_prefix p l = if has_prefix p l then skip (length p) l else l

-- `strings.Cut(s, "=")`
abbrev pub put_before : ℕ → Option (List ℕ × List ℕ) → Option (List ℕ × List ℕ)
put_before c none = none
put_before c (some (key, value)) = some (c ∷ key, value)

abbrev pub cut : List ℕ → Option (List ℕ × List ℕ)
cut [] = none
cut (c ∷ cs) = let rest = put_before c (cut cs) in if c == 61 then some ([], cs) else rest
