-- ===== src/Framework/Identifier/Distinct.antt =====
-- The identifiers of a process can be read back and do not repeat
-- (internal/framework/identifier/identifier.go).
use numflex_sandbox.Prelude.{
  List, [], ap, arith, if◌then◌else◌, length, ltb, refl, skip, subst, sym, ℕ, ◌%◌, ◌*◌, ◌++◌, ◌+◌,
  ◌-◌, ◌/◌, ◌<◌, ◌^◌, ◌∙◌, ◌∷◌, ◌≡◌, ◌≢◌,
}
use numflex_sandbox.Entity.Authorization.Rights.{count}
use numflex_sandbox.Entity.Incident.{same}
use numflex_sandbox.Framework.Identifier.{
  Process, after, counter_bytes, encode_to_string, hex_char, next_counter, object_id, time_bytes,
}

-- The value of a hexadecimal digit.
abbrev unhex : ℕ → ℕ
unhex c = if ltb c 58 then c - 48 else c - 87

-- The bytes of a text in hexadecimal digits.
abbrev pub decode : List ℕ → List ℕ
decode [] = []
decode (x ∷ []) = []
decode (x ∷ y ∷ cs) = (unhex x * 16 + unhex y) ∷ decode cs

abbrev pub AreBytes : List ℕ → Type 0
AreBytes [] = Unit
AreBytes (b ∷ bs) = (b < 256) × AreBytes bs

unhex-hex_char : (n : ℕ) → n < 16 → unhex (hex_char n) ≡ n
unhex-hex_char n h = ground arith

decode-encode_to_string : (bs : List ℕ) → AreBytes bs → decode (encode_to_string bs) ≡ bs
decode-encode_to_string [] h = refl
decode-encode_to_string (b ∷ bs) h = rw (unhex-hex_char (b / 16) (omega (arith, h.0))) (
    rw (unhex-hex_char (b % 16) (omega arith))
      (rw (decode-encode_to_string bs h.1) (ap (λ x. x ∷ bs) (omega arith))))

AreBytes-append : (xs ys : List ℕ) → AreBytes xs → AreBytes ys → AreBytes (xs ++ ys)
AreBytes-append [] ys h k = k
AreBytes-append (x ∷ xs) ys h k = (h.0, AreBytes-append xs ys h.1 k)

length-encode_to_string : (bs : List ℕ) → length (encode_to_string bs) ≡ 2 * length bs
length-encode_to_string [] = refl
length-encode_to_string (b ∷ bs) = omega (arith, length-encode_to_string bs)

length-append : (xs ys : List ℕ) → length (xs ++ ys) ≡ length xs + length ys
length-append [] ys = omega arith
length-append (x ∷ xs) ys = omega (arith, length-append xs ys)

skip-append : (xs ys : List ℕ) → skip (length xs) (xs ++ ys) ≡ ys
skip-append [] ys = refl
skip-append (x ∷ xs) ys = skip-append xs ys

AreBytes-object_id :
    (s c : ℕ) (process : List ℕ)
    → AreBytes process
    → AreBytes (time_bytes s ++ (process ++ counter_bytes c))
AreBytes-object_id s c process h =
    AreBytes-append (time_bytes s) _ (omega arith, (omega arith, (omega arith, (omega arith, tt))))
      (AreBytes-append process (counter_bytes c) h (omega arith, (omega arith, (omega arith, tt))))

-- An identifier is 24 characters long, and from them come back the Unix time modulo 2^32, the bytes
-- of the process and the counter modulo 2^24, each in its place.
pub object_id-decode :
    (seconds : ℕ) (p : Process)
    → AreBytes p.process_bytes
    → length p.process_bytes ≡ 5
    → let id = (object_id seconds p).0 in
      (length id ≡ 24)
      × (decode id ≡ time_bytes seconds ++ (p.process_bytes ++ counter_bytes (next_counter p)))
unfolding object_id
object_id-decode seconds p h five =
    let bytes = time_bytes seconds ++ (p.process_bytes ++ counter_bytes (next_counter p)) in
    (
      omega (
        arith,
        five,
        length-encode_to_string (p.process_bytes ++ counter_bytes (next_counter p)),
        length-append p.process_bytes (counter_bytes (next_counter p)),
      ),
      decode-encode_to_string bytes (AreBytes-object_id seconds (next_counter p) p.process_bytes h),
    )

-- The counter of an identifier, from its bytes.
abbrev value : List ℕ → ℕ
value [] = 0
value (b ∷ bs) = b * 256 ^ length bs + value bs

value-counter_bytes : (c : ℕ) → value (counter_bytes c) ≡ c % 2 ^ 24
value-counter_bytes c = omega arith

counter-after :
    (times : List ℕ) (p : Process)
    → p.counter < 2 ^ 32
    → ((after times p).process_bytes ≡ p.process_bytes)
      × ((after times p).counter ≡ (p.counter + length times) % 2 ^ 32)
unfolding object_id
counter-after [] p h = (refl, omega arith)
counter-after (s ∷ times) p h =
    let (same, count) = counter-after times (object_id s p).1 (omega arith) in
    (same, omega (arith, count))

counter-encoded :
    (s s' c c' : ℕ) (process : List ℕ)
    → AreBytes process
    → encode_to_string (time_bytes s ++ (process ++ counter_bytes c))
      ≡ encode_to_string (time_bytes s' ++ (process ++ counter_bytes c'))
    → c % 2 ^ 24 ≡ c' % 2 ^ 24
counter-encoded s s' c c' process h e =
    let bytes : (x n : ℕ) → List ℕ = λ x n. time_bytes x ++ (process ++ counter_bytes n) in
    let same : bytes s c ≡ bytes s' c' =
      sym (decode-encode_to_string (bytes s c) (AreBytes-object_id s c process h))
      ∙ ap decode e
      ∙ decode-encode_to_string (bytes s' c') (AreBytes-object_id s' c' process h) in
    let tails : counter_bytes c ≡ counter_bytes c' =
      sym (skip-append process (counter_bytes c))
      ∙ ap (λ xs. skip (length process) (skip 4 xs)) same
      ∙ skip-append process (counter_bytes c') in
    sym (value-counter_bytes c) ∙ ap value tails ∙ value-counter_bytes c'

-- The identifier that a process makes differs from each of the 2^24 - 1 that it makes next, whatever
-- the clock shows meanwhile, where its counter is a 32-bit number and its bytes are bytes.
pub object_id-distinct :
    (seconds seconds' : ℕ) (times : List ℕ) (p : Process)
    → AreBytes p.process_bytes
    → p.counter < 2 ^ 32
    → length times + 1 < 2 ^ 24
    → (object_id seconds p).0 ≢ (object_id seconds' (after times (object_id seconds p).1)).0
unfolding object_id
object_id-distinct seconds seconds' times p h small few e =
    let next = (object_id seconds p).1 in
    let (same, count) = counter-after times next (omega arith) in
    let counters =
      counter-encoded seconds seconds' (next_counter p) (next_counter (after times next))
        p.process_bytes h
        (subst
          (λ process.
            encode_to_string
              (time_bytes seconds ++ (p.process_bytes ++ counter_bytes (next_counter p)))
            ≡ encode_to_string (
                time_bytes seconds'
                ++ (process ++ counter_bytes (next_counter (after times next)))))
          same e) in
    omega (arith, count, counters, few)
