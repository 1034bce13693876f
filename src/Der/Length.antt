-- ===== src/Der/Length.antt =====
-- frida_der_append_length and frida_der_append_tlv of lib/base/p2p-glue.c, against the reader of
-- Der/Decode.
use frida_core.Base.{
  ℕ, zero, suc, ◌+◌, ◌*◌, ◌-◌, ◌/◌, ◌%◌, ◌^◌, ◌≡◌, ◌≤◌, ◌<◌, refl, sym, ap, ◌∙◌, true, false,
  Option, none, some, [], ◌∷◌, ◌++◌, length, ltb, ◌==◌, arith, Bool-cases, inl, inr, length-append,
  append_assoc, ==_iff, take_all,
}
use native.Mathlib.Nat.{mod-eq_of_lt, pow-suc, mul-le-mul_right}
use frida_core.Base.Bits.{each_from, each_from-at}
use Prim.Native.Nat.{bit_or}
use frida_core.Der.{Bytes, length_bytes, append_reversed, append_length, appended, append_tlv}
use frida_core.Der.Decode.{
  AllBytes, big_endian, read_length, read_tlv, read_number-big_endian, big_endian-snoc,
  read_tlv_of_length, read_number,
}

little : Bytes → ℕ
little [] = 0
little (b ∷ bs) = b + 256 * little bs

little-length_bytes : (r n : ℕ) → n < 256 ^ r → little (length_bytes r n) ≡ n
unfolding little length_bytes
little-length_bytes zero n h = omega arith
little-length_bytes (suc r) n h = ground (arith, little-length_bytes r (n / 256) (omega arith))

length-length_bytes : (r j n : ℕ) → n < 256 ^ j → length (length_bytes r n) ≤ j
unfolding length_bytes
length-length_bytes zero j n h = omega arith
length-length_bytes (suc r) zero n h = ground arith
length-length_bytes (suc r) (suc j) n h =
    ground (arith, length-length_bytes r j (n / 256) (omega arith))

append_reversed-append :
    (bs out xs : Bytes) → append_reversed bs (out ++ xs) ≡ out ++ append_reversed bs xs
unfolding append_reversed
append_reversed-append [] out xs = refl
append_reversed-append (b ∷ bs) out xs =
    ap (λ x. x ++ b ∷ []) (append_reversed-append bs out xs) ∙ append_assoc out _ (b ∷ [])

length-append_reversed : (bs : Bytes) → length (append_reversed bs []) ≡ length bs
unfolding append_reversed
length-append_reversed [] = refl
length-append_reversed (b ∷ bs) =
    omega (arith, length-append (append_reversed bs []) (b ∷ []), length-append_reversed bs)

big_endian-append_reversed : (bs : Bytes) → big_endian 0 (append_reversed bs []) ≡ little bs
unfolding append_reversed little big_endian
big_endian-append_reversed [] = refl
big_endian-append_reversed (b ∷ bs) =
    omega (arith, big_endian-snoc 0 (append_reversed bs []) b, big_endian-append_reversed bs)

header_table : each_from 0 128 (λ i. bit_or 0x80 i % 256 == 128 + i) ≡ true
unfolding each_from
header_table = refl

header_byte : (i : ℕ) → i < 128 → bit_or 0x80 i % 256 ≡ 128 + i
header_byte i h = (==_iff _ _).0 (each_from-at 0 128 _ i (omega arith) h header_table)

-- The array only grows: what was there stays in front.
pub append_length-append : (n : ℕ) (out : Bytes) → append_length n out ≡ out ++ append_length n []
unfolding append_length
append_length-append n out = elim (Bool-cases (ltb n 0x80)) [
  | inl short ↦ rw short
  | inr long ↦ rw long (append_reversed-append (length_bytes 9 n) out _)
]

-- The long form: the count of the bytes, then the bytes.
append_length_long :
    (n : ℕ)
    → 128 ≤ n
    → n < 2 ^ 64
    → append_length n [] ≡ (128 + length (length_bytes 9 n)) ∷ append_reversed (length_bytes 9 n) []
unfolding append_length
append_length_long n h fits =
    let long : ltb n 0x80 ≡ false = ground arith in
    let few : length (length_bytes 9 n) < 128 =
      omega (arith, length-length_bytes 9 8 n (omega arith)) in
    rw (long, header_byte _ few)
      (append_reversed-append (length_bytes 9 n) ((128 + length (length_bytes 9 n)) ∷ []) [])

-- A length below 2 ^ 64 is read back, and what follows it is left.
pub read_length-append_length :
    (n : ℕ) (rest : Bytes) → n < 2 ^ 64 → read_length (append_length n [] ++ rest) ≡ some (n, rest)
read_length-append_length n rest fits = elim (Bool-cases (ltb n 128)) [
  | inl short ↦ unfold append_length read_length in ground arith
  | inr long ↦ rw (append_length_long n (ground arith) fits) (long_form n rest fits)
]
  where
    long_form :
        (n : ℕ) (rest : Bytes)
        → n < 2 ^ 64
        → read_length
            ((128 + length (length_bytes 9 n)) ∷ (append_reversed (length_bytes 9 n) [] ++ rest))
          ≡ some (n, rest)
    long_form n rest fits =
        let bytes = append_reversed (length_bytes 9 n) [] in
        let count : 128 + length (length_bytes 9 n) - 128 ≡ length bytes =
          omega (arith, length-append_reversed (length_bytes 9 n)) in
        let value : big_endian 0 bytes ≡ n =
          big_endian-append_reversed (length_bytes 9 n) ∙ little-length_bytes 9 n (omega arith) in
        let high : ltb (128 + length (length_bytes 9 n)) 128 ≡ false = ground arith in
        unfold read_length in rw (high, count, read_number-big_endian bytes 0 rest, value)

length-append_length : (n j : ℕ) → n < 2 ^ 64 → n < 256 ^ j → length (append_length n []) ≤ 1 + j
length-append_length n j fits h = elim (Bool-cases (ltb n 128)) [
  | inl short ↦ unfold append_length in rw short (omega arith)
  | inr long ↦
      rw (append_length_long n (ground arith) fits)
        (omega (arith, length-append_reversed (length_bytes 9 n), length-length_bytes 9 j n h))
]

first_of : Option (ℕ × Bytes) → ℕ
first_of none = 0
first_of (some (n, bs)) = n

left_over : Option (ℕ × Bytes) → ℕ
left_over none = 0
left_over (some (n, bs)) = length bs

read_number-bound :
    (count acc n : ℕ) (bs : Bytes)
    → AllBytes bs
    → read_number count acc bs ≡ some (n, [])
    → (length bs ≡ count) × (n < (acc + 1) * 256 ^ count)
unfolding read_number first_of left_over
read_number-bound zero acc n [] all e =
    let same : Path ℕ acc n = ap first_of e in (refl, omega arith)
read_number-bound zero acc n (b ∷ bs) all e =
    let same : Path ℕ (suc (length bs)) 0 = ap left_over e in absurd (omega arith)
read_number-bound (suc count) acc n [] all e = ground arith
read_number-bound (suc count) acc n (b ∷ bs) (hb, all) e =
    let (size, small) = read_number-bound count (acc * 256 + b) n bs all e in
    (
      ap suc size,
      rw (pow-suc 256 count) (
          omega (
            arith,
            small,
            mul-le-mul_right {m = acc * 256 + b + 1} {n = (acc + 1) * 256} (256 ^ count)
                (omega arith),
          )),
    )

-- No sequence of bytes from which a reader takes exactly this length is shorter than the bytes that
-- frida_der_append_length writes, for any 64-bit length.
pub append_length-IsShortest :
    (n : ℕ) (other : Bytes)
    → n < 2 ^ 64
    → AllBytes other
    → read_length other ≡ some (n, [])
    → length (append_length n []) ≤ length other
unfolding read_length first_of
append_length-IsShortest n [] fits all e = ground arith
append_length-IsShortest n (b ∷ bs) fits (hb, all) e = elim (Bool-cases (ltb b 128)) [
  | inl short ↦
      let same : Path ℕ b n = ap first_of (rw short at e) in
      let low : ltb n 128 ≡ true = ground arith in unfold append_length in rw low (omega arith)
  | inr long ↦
      let (size, small) = read_number-bound (b - 128) 0 n bs all (rw long at e) in
      let short : n < 256 ^ (b - 128) = omega (arith, small) in
      omega (arith, length-append_length n (b - 128) fits short, size)
]

pub append_tlv-append :
    (tag : ℕ) (value out : Bytes) → append_tlv tag value out ≡ out ++ append_tlv tag value []
unfolding append_tlv
append_tlv-append tag value out = rw (append_length-append (length value) (out ++ tag ∷ [])) (
    rw (append_length-append (length value) (tag ∷ [])) (
      append_assoc (out ++ tag ∷ []) _ (appended value)
      ∙ append_assoc out (tag ∷ []) _
      ∙ ap (λ x. out ++ x) (sym (append_assoc (tag ∷ []) _ (appended value)))))

-- What a guint can count is appended whole.
pub appended_lem : (value : Bytes) → length value < 2 ^ 32 → appended value ≡ value
unfolding appended
appended_lem value fits = take_all _ value (omega (arith, mod-eq_of_lt fits))

-- An element whose value has fewer than 2 ^ 32 bytes is read back after it was appended, and what
-- follows it is left.
pub read_tlv-append_tlv :
    (tag : ℕ) (value rest : Bytes)
    → length value < 2 ^ 32
    → read_tlv (append_tlv tag value [] ++ rest) ≡ some (tag, value, rest)
read_tlv-append_tlv tag value rest fits =
    unfold append_tlv in
    rw
      (
        appended_lem value fits,
        append_length-append (length value) (tag ∷ []),
        append_assoc,
        append_assoc,
      )
      (read_tlv_of_length tag value rest _
        (read_length-append_length (length value) (value ++ rest) (omega arith)))

-- An element has its tag, at most five bytes of length, and the value.
pub length-append_tlv :
    (tag : ℕ) (value : Bytes)
    → length value < 2 ^ 32
    → length (append_tlv tag value []) ≤ 6 + length value
length-append_tlv tag value fits =
    unfold append_tlv in
    rw (appended_lem value fits) (
      omega (
        arith,
        length-append (append_length (length value) (tag ∷ [])) value,
        ap (length {A = ℕ}) (append_length-append (length value) (tag ∷ [])),
        length-append (tag ∷ []) (append_length (length value) []),
        length-append_length (length value) 4 (omega arith) (omega arith),
      ))
