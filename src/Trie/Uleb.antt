-- ===== src/Trie/Uleb.antt =====
-- frida_read_uleb128 of src/fruity/helpers/symbol-resolver.c, with the ULEB128 encoding of a number.
use frida_core.Base.{
  ℕ, zero, suc, ◌+◌, ◌*◌, ◌/◌, ◌%◌, ◌^◌, ◌≡◌, ◌<◌, ap, ◌∙◌, true, false, some, [], ◌∷◌, ◌++◌, ltb,
  ◌==◌, if◌then◌else◌, arith, Bool-cases, inl, inr,
}
use native.Mathlib.Nat.{div-add-mod, mod-eq_of_lt}
use native.Mathlib.Numerals.{towards_suc}
use Prim.Native.Nat.{bit_and, bit_or}
use frida_core.Base.Bits.{bit_or_shifted, low_bits, top_bit}
use frida_core.Trie.{Bytes, uleb_loop, read_uleb128}

-- The encoding: groups of seven bits, the lowest first, the top bit set on all but the last.
unfoldable pub uleb : ℕ → ℕ → Bytes
uleb zero v = v ∷ []
uleb (suc groups) v =
    let rest = uleb groups (v / 128) in if ltb v 128 then v ∷ [] else (v % 128 + 128) ∷ rest

-- A group is added above the bits of the result, if the sum has 64 bits.
add_group :
    (result offset g b : ℕ)
    → result < 2 ^ offset
    → b < 256
    → b % 128 ≡ g
    → result + g * 2 ^ offset < 2 ^ 64
    → bit_or result (bit_and b 0x7f * 2 ^ offset % 2 ^ 64) ≡ result + g * 2 ^ offset
add_group result offset g b hr hb e fits =
    let in_range : g * 2 ^ offset < 2 ^ 64 = omega arith in
    rw (low_bits b hb, e, mod-eq_of_lt in_range) (bit_or_shifted offset result g hr)

last_byte :
    (result offset b : ℕ) (rest : Bytes)
    → b < 128
    → result < 2 ^ offset
    → result + b * 2 ^ offset < 2 ^ 64
    → uleb_loop (b ∷ rest) result offset ≡ some (result + b * 2 ^ offset, rest)
unfolding uleb_loop
last_byte result offset b rest h hr fits =
    let done : (bit_and b 0x80 == 0) ≡ true = ground (arith, top_bit b) in
    rw (done, add_group result offset b b hr (omega arith) (omega arith) fits)

inner_byte :
    (result offset g : ℕ) (rest : Bytes)
    → g < 128
    → result < 2 ^ offset
    → result + g * 2 ^ offset < 2 ^ 64
    → uleb_loop ((g + 128) ∷ rest) result offset
      ≡ uleb_loop rest (result + g * 2 ^ offset) (offset + 7)
unfolding uleb_loop
inner_byte result offset g rest h hr fits =
    let goes_on : (bit_and (g + 128) 0x80 == 0) ≡ false = ground (arith, top_bit (g + 128)) in
    rw (goes_on, add_group result offset g (g + 128) hr (omega arith) (omega arith) fits)

seven_more : (shift : ℕ) → 2 ^ (shift + 7) ≡ 2 ^ shift * 128
seven_more s = simp towards_suc (omega arith)

-- The lowest group of `v` and the rest, both shifted by `s`
split_group : (v s : ℕ) → v % 128 * 2 ^ s + v / 128 * 2 ^ (s + 7) ≡ v * 2 ^ s
split_group v s =
    let scaled = ap (λ (t : ℕ). 2 ^ s * t) (div-add-mod v 128) in
    omega (arith, scaled, ap (λ (t : ℕ). t * (v / 128)) (seven_more s))

below_next : (result g s : ℕ) → g < 128 → result < 2 ^ s → result + g * 2 ^ s < 2 ^ (s + 7)
below_next result g s hg hr = rw (seven_more s) (grind arith)

uleb_loop-uleb :
    (groups v result offset : ℕ) (rest : Bytes)
    → v < 128 ^ suc groups
    → result < 2 ^ offset
    → result + v * 2 ^ offset < 2 ^ 64
    → uleb_loop (uleb groups v ++ rest) result offset ≡ some (result + v * 2 ^ offset, rest)
unfolding uleb
uleb_loop-uleb zero v result offset rest h hr fits =
    last_byte result offset v rest (omega arith) hr fits
uleb_loop-uleb (suc groups) v result offset rest h hr fits = elim (Bool-cases (ltb v 128)) [
  | inl short ↦ rw short (last_byte result offset v rest (ground arith) hr fits)
  | inr long ↦ rw long (
      inner_byte result offset (v % 128) (uleb groups (v / 128) ++ rest) (omega arith) hr
        (omega (arith, split_group v offset))
      ∙ uleb_loop-uleb groups (v / 128) (result + v % 128 * 2 ^ offset) (offset + 7) rest
          (omega arith) (below_next result (v % 128) offset (omega arith) hr)
          (omega (arith, split_group v offset))
      ∙ ap (λ n. some (n, rest)) (omega (arith, split_group v offset)))
]

-- Ten groups hold every 64-bit number; what follows them is left.
pub read_uleb128-uleb :
    (v : ℕ) (rest : Bytes) → v < 2 ^ 64 → read_uleb128 (uleb 9 v ++ rest) ≡ some (v, rest)
unfolding read_uleb128
read_uleb128-uleb v rest h =
    uleb_loop-uleb 9 v 0 0 rest (omega arith) (omega arith) (omega arith)
    ∙ ap (λ n. some (n, rest)) (omega arith)
