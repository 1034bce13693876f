-- ===== src/Der/Integer.antt =====
-- frida_der_append_integer_uint of lib/base/p2p-glue.c, against the reader of Der/Decode.
use frida_core.Base.{
  ℕ, zero, suc, ◌+◌, ◌*◌, ◌/◌, ◌%◌, ◌^◌, ◌≡◌, ◌≤◌, ◌<◌, refl, ap, ◌∙◌, some, [], ◌∷◌, ◌++◌, length,
  ◌==◌, ◌&&◌, arith, Bool-cases, inl, inr,
}
use frida_core.Base.Bits.{top_bit}
use Prim.Native.Nat.{bit_and}
use frida_core.Der.{Bytes, value_bytes, strip, append_integer_uint}
use frida_core.Der.Decode.{AllBytes, big_endian, read_tlv}
use frida_core.Der.Length.{read_tlv-append_tlv}

-- Not negative, and the first nine bits are not all zero
abbrev pub IsMinimal : Bytes → Type 0
IsMinimal [] = ⊥
IsMinimal (b ∷ []) = b < 128
IsMinimal (b ∷ c ∷ bs) = (b < 128) × (b ≡ 0 → 128 ≤ c)

big_endian-value_bytes :
    (i v : ℕ) (buf : Bytes) → v < 256 ^ i → big_endian 0 (value_bytes i v buf) ≡ big_endian v buf
unfolding value_bytes
big_endian-value_bytes zero v buf h = let e : v ≡ 0 = omega arith in rw e
big_endian-value_bytes (suc i) v buf h =
    let e : v / 256 * 256 + v % 256 ≡ v = omega arith in
    big_endian-value_bytes i (v / 256) (v % 256 ∷ buf) (omega arith)
    ∙ unfold big_endian in ap (λ a. big_endian a buf) e

value_bytes-AllBytes : (i v : ℕ) (buf : Bytes) → AllBytes buf → AllBytes (value_bytes i v buf)
unfolding value_bytes
value_bytes-AllBytes zero v buf h = h
value_bytes-AllBytes (suc i) v buf h =
    value_bytes-AllBytes i (v / 256) (v % 256 ∷ buf) (omega arith, h)

length-value_bytes : (i v : ℕ) (buf : Bytes) → length (value_bytes i v buf) ≡ i + length buf
unfolding value_bytes
length-value_bytes zero v buf = omega arith
length-value_bytes (suc i) v buf = omega (arith, length-value_bytes i (v / 256) (v % 256 ∷ buf))

-- Taking off zero bytes changes no value, and leaves a minimal integer of no more bytes.
pub strip_lem :
    (b : ℕ) (bs : Bytes)
    → b < 128
    → AllBytes bs
    → (big_endian 0 (strip (b ∷ bs)) ≡ big_endian 0 (b ∷ bs))
      × IsMinimal (strip (b ∷ bs))
      × (length (strip (b ∷ bs)) ≤ length (b ∷ bs))
unfolding strip
strip_lem b [] h all = (refl, h, omega arith)
strip_lem b (c ∷ bs) h (hc, all) = elim (Bool-cases (b == 0 && bit_and c 0x80 == 0)) [
  | inl spare ↦ rw spare (
      let low : c < 128 = ground (arith, top_bit c hc) in
      let first : b ≡ 0 = ground arith in
      let (value, minimal, fewer) = strip_lem c bs low all in
      (value ∙ unfold big_endian in rw first, minimal, omega arith))
  | inr needed ↦ rw needed (refl, (h, λ e. ground (arith, top_bit c hc)), omega arith)
]

-- Read back, the integer has the value that was written, and it is minimal.
pub append_integer_uint_lem :
    (v : ℕ) (rest : Bytes)
    → v < 2 ^ 64
    → (content : Bytes) × (read_tlv (append_integer_uint v [] ++ rest) ≡ some (2, content, rest))
      × (big_endian 0 content ≡ v)
      × IsMinimal content
unfolding append_integer_uint
append_integer_uint_lem v rest h =
    let bytes = value_bytes 8 v [] in
    let (value, minimal, fewer) =
      strip_lem 0 bytes (omega arith) (value_bytes-AllBytes 8 v [] tt) in
    (
      strip (0 ∷ bytes),
      read_tlv-append_tlv 2 (strip (0 ∷ bytes)) rest (omega (arith, length-value_bytes 8 v [])),
      value ∙ unfold big_endian in big_endian-value_bytes 8 v [] (omega arith),
      minimal,
    )
