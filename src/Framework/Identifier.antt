-- ===== src/Framework/Identifier.antt =====
-- The identifiers of internal/framework/identifier/identifier.go, as lists of character codes.
pub mod Distinct
use numflex_sandbox.Prelude.{List, [], if◌then◌else◌, ltb, ℕ, ◌%◌, ◌++◌, ◌+◌, ◌/◌, ◌^◌, ◌∷◌}

-- a digit of `hex.EncodeToString`
abbrev pub hex_char : ℕ → ℕ
hex_char n = if ltb n 10 then 48 + n else 87 + n

-- `hex.EncodeToString`
abbrev pub encode_to_string : List ℕ → List ℕ
encode_to_string [] = []
encode_to_string (b ∷ bs) = hex_char (b / 16) ∷ hex_char (b % 16) ∷ encode_to_string bs

-- `binary.BigEndian.PutUint32(b[0:4], uint32(seconds))`
abbrev pub time_bytes : ℕ → List ℕ
time_bytes seconds =
    let t = seconds % 2 ^ 32 in t / 2 ^ 24 % 256 ∷ t / 2 ^ 16 % 256 ∷ t / 2 ^ 8 % 256 ∷ t % 256 ∷ []

-- `byte(c >> 16)`, `byte(c >> 8)`, `byte(c)`
abbrev pub counter_bytes : ℕ → List ℕ
counter_bytes c = c / 2 ^ 16 % 256 ∷ c / 2 ^ 8 % 256 ∷ c % 256 ∷ []

-- The variables of the package.
pub record Process : Type 0 where
  pub process_bytes : List ℕ
  pub counter : ℕ

-- `atomic.AddUint32(&counter, 1)`
abbrev pub next_counter : Process → ℕ
next_counter p = (p.counter + 1) % 2 ^ 32

-- `New`, at this Unix time
unfoldable pub object_id : ℕ → Process → List ℕ × Process
object_id seconds p = (
  encode_to_string (time_bytes seconds ++ (p.process_bytes ++ counter_bytes (next_counter p))),
  record p { counter = next_counter p },
)

-- The process after one call of `New` at each of these times.
abbrev pub after : List ℕ → Process → Process
after [] p = p
after (seconds ∷ times) p = after times (object_id seconds p).1
