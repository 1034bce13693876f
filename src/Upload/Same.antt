-- ===== src/Upload/Same.antt =====
-- The two ways to fix a slot in src/fruity/helpers/upload-receiver.c, the threaded items and the chained
-- fixups, and what their numbers mean.
use frida_core.Base.{
  ℕ, zero, suc, ◌+◌, ◌-◌, ◌*◌, ◌/◌, ◌%◌, ◌^◌, ◌<◌, ◌≡◌, refl, ap, ◌∙◌, true, false, ◌==◌, leb,
  if◌then◌else◌, Bool-cases, inl, inr, arith,
}
use Prim.Native.Nat.{bit_and}
use frida_core.Base.Bits.{bit_or_shifted, bit_or-zero, shifted-bit_or}
use frida_core.Base.Masks.{bit_and-ones, bit_and-shifted}
use frida_core.Upload.{quad}
use frida_core.Upload.Items.{
  Ptrauth, bit, sign_extend_int19, slide_of, unpacked, fix_generic64, ptr_64, ptr_64_offset,
  ptr_arm64e, next_threaded, next_arm64e, arm64e_ordinal, arm64e_rebase, arm64e_bind,
  arm64e_auth_rebase, arm64e_auth_bind, fix_arm64e, threaded_rebase_address, threaded_bound_value,
  fix_threaded,
}

mask11 : (x : ℕ) → bit_and x 0x7ff ≡ x % 2 ^ 11
mask11 x = bit_and-ones 11 x

mask2 : (x : ℕ) → bit_and x 3 ≡ x % 2 ^ 2
mask2 x = bit_and-ones 2 x

mask16 : (x : ℕ) → bit_and x 0xffff ≡ x % 2 ^ 16
mask16 x = bit_and-ones 16 x

mask32 : (x : ℕ) → bit_and x 0xffffffff ≡ x % 2 ^ 32
mask32 x = bit_and-ones 32 x

mask43 : (x : ℕ) → bit_and x 0x000007ffffffffff ≡ x % 2 ^ 43
mask43 x = bit_and-ones 43 x

mask_top : (x : ℕ) → bit_and x 0xff00000000000000 ≡ x / 2 ^ 56 % 2 ^ 8 * 2 ^ 56
mask_top x = bit_and-shifted 56 x 255 ∙ ap (λ (t : ℕ). t * 2 ^ 56) (bit_and-ones 8 (x / 2 ^ 56))

-- A low part below 56 bits is added.
pub unpacked_lem :
    (high8 target : ℕ) → target < 2 ^ 56 → unpacked high8 target ≡ high8 * 2 ^ 56 + target
unpacked_lem high8 target h = shifted-bit_or 56 target high8 h ∙ omega arith

-- The addend of a bind, a number of 19 bits, is read as a signed number: with its highest bit set it
-- stands for the number less 2 ^ 19, modulo 2 ^ 64.
pub sign_extend_int19_lem :
    (i19 : ℕ)
    → i19 < 2 ^ 19
    → sign_extend_int19 i19 ≡ (if leb (2 ^ 18) i19 then quad - 2 ^ 19 + i19 else i19)
unfolding sign_extend_int19
sign_extend_int19_lem i19 h = elim (Bool-cases (leb (2 ^ 18) i19)) [
  | inl negative ↦
      let high : (i19 / 2 ^ 18 == 0) ≡ false = ground arith in
      rw (negative, high) (bit_or_shifted 19 i19 0x1fffffffffff h ∙ omega arith)
  | inr natural ↦ let low : (i19 / 2 ^ 18 == 0) ≡ true = ground arith in rw (natural, low)
]

-- The kinds of item on which the two ways agree: a rebase whose sign bit is clear, a bind without an
-- addend, and all that are signed.
abbrev pub IsShared : ℕ → ℕ → Type 0
IsShared zero value = bit value 42 ≡ false
IsShared (suc zero) value = value / 2 ^ 32 % 2 ^ 19 ≡ 0
IsShared (suc (suc kind)) value = Unit {0}

module _ (pa : Ptrauth) (actual preferred : ℕ) (symbols : ℕ → ℕ) (slot value : ℕ) where
  threaded : ℕ
  threaded = fix_threaded pa preferred (slide_of actual preferred) symbols slot value

  chained : ℕ
  chained = fix_arm64e pa 1 actual preferred symbols slot value

  -- The address of a rebase without a signature, its sign bit clear
  plain_address :
      bit value 63 ≡ false
      → bit value 42 ≡ false
      → threaded_rebase_address value ≡ unpacked (value / 2 ^ 43 % 2 ^ 8) (value % 2 ^ 43)
  unfolding threaded_rebase_address
  plain_address unsigned natural =
      let top : value * 2 ^ 13 % quad / 2 ^ 56 % 2 ^ 8 ≡ value / 2 ^ 43 % 2 ^ 8 = omega arith in
      rw
        (
          unsigned,
          natural,
          bit_or-zero (bit_and (value * 2 ^ 13 % quad) 0xff00000000000000),
          mask_top (value * 2 ^ 13 % quad),
          mask43 value,
          top,
        )
        refl

  same-rebase : value / 2 ^ 62 ≡ 0 → bit value 42 ≡ false → threaded ≡ chained
  unfolding threaded chained fix_threaded threaded_bound_value fix_arm64e arm64e_rebase
  same-rebase kind natural =
      let unsigned : bit value 63 ≡ false = ground arith in
      let moved : bit value 62 ≡ false = ground arith in
      rw (unsigned, moved, plain_address unsigned natural, kind) refl

  same-bind :
      value / 2 ^ 62 ≡ 1
      → value / 2 ^ 32 % 2 ^ 19 ≡ 0
      → symbols (value % 2 ^ 16) < quad
      → threaded ≡ chained
  unfolding threaded chained fix_threaded threaded_bound_value fix_arm64e arm64e_bind arm64e_ordinal
      sign_extend_int19
  same-bind kind bare fits =
      let unsigned : bit value 63 ≡ false = ground arith in
      let bound : bit value 62 ≡ true = ground arith in
      rw (unsigned, bound, mask16 value, kind, bare) (omega arith)

  same-auth_rebase : value / 2 ^ 62 ≡ 2 → threaded ≡ chained
  unfolding threaded chained fix_threaded threaded_bound_value threaded_rebase_address fix_arm64e
      arm64e_auth_rebase
  same-auth_rebase kind =
      let signed : bit value 63 ≡ true = ground arith in
      let moved : bit value 62 ≡ false = ground arith in
      let sum : ((value % 2 ^ 32 + preferred) % quad + slide_of actual preferred) % quad
          ≡ (preferred + value % 2 ^ 32 + slide_of actual preferred) % quad =
        omega arith in
      rw (signed, moved, mask32 value, mask2 (value / 2 ^ 49), mask16 (value / 2 ^ 32), sum, kind)
        refl

  same-auth_bind : value / 2 ^ 62 ≡ 3 → threaded ≡ chained
  unfolding threaded chained fix_threaded threaded_bound_value fix_arm64e arm64e_auth_bind
      arm64e_ordinal
  same-auth_bind kind =
      let signed : bit value 63 ≡ true = ground arith in
      let bound : bit value 62 ≡ true = ground arith in
      rw (signed, bound, mask16 value, mask2 (value / 2 ^ 49), mask16 (value / 2 ^ 32), kind) refl

-- A threaded item and an arm64e chained fixup of format 1 with the same 64 bits give the same pointer
-- and the same distance to the next slot, if the slide is the one that the chained fixups compute, an
-- unsigned rebase has its sign bit clear and an unsigned bind has no addend.
pub fix_threaded-fix_arm64e :
    (pa : Ptrauth) (actual preferred : ℕ) (symbols : ℕ → ℕ) (slot value : ℕ)
    → value < quad
    → IsShared (value / 2 ^ 62) value
    → symbols (value % 2 ^ 16) < quad
    → (fix_threaded pa preferred (slide_of actual preferred) symbols slot value
        ≡ fix_arm64e pa ptr_arm64e actual preferred symbols slot value)
      × (next_threaded value ≡ next_arm64e value)
unfolding threaded chained next_threaded next_arm64e
fix_threaded-fix_arm64e pa actual preferred symbols slot value word shared fits =
    (kinds (value / 2 ^ 62) refl shared, mask11 (value / 2 ^ 51))
  where
    kinds :
        (kind : ℕ)
        → value / 2 ^ 62 ≡ kind
        → IsShared kind value
        → threaded pa actual preferred symbols slot value
          ≡ chained pa actual preferred symbols slot value
    kinds zero e natural = same-rebase pa actual preferred symbols slot value e natural
    kinds (suc zero) e bare = same-bind pa actual preferred symbols slot value e bare fits
    kinds (suc (suc zero)) e u = same-auth_rebase pa actual preferred symbols slot value e
    kinds (suc (suc (suc zero))) e u = same-auth_bind pa actual preferred symbols slot value e
    kinds (suc (suc (suc (suc k)))) e u = absurd (omega arith)

-- A rebase whose target is an address and one whose target is an offset from the image's base give the
-- same pointer, in the formats that say so, when the address is the preferred base and the offset.
pub fix_generic64-offset :
    (actual preferred value value' cursor : ℕ) (bound : ℕ → ℕ)
    → value < 2 ^ 63
    → value' < 2 ^ 63
    → value / 2 ^ 36 % 2 ^ 8 ≡ value' / 2 ^ 36 % 2 ^ 8
    → value % 2 ^ 36 ≡ preferred + value' % 2 ^ 36
    → fix_generic64 ptr_64 actual preferred bound cursor value
      ≡ fix_generic64 ptr_64_offset actual preferred bound cursor value'
unfolding fix_generic64
fix_generic64-offset actual preferred value value' cursor bound rebase rebase' high low =
    let first : (value / 2 ^ 63 == 0) ≡ true = ground arith in
    let second : (value' / 2 ^ 63 == 0) ≡ true = ground arith in
    let sum = unpacked_lem (value / 2 ^ 36 % 2 ^ 8) (value % 2 ^ 36) (omega arith) in
    let sum' = unpacked_lem (value' / 2 ^ 36 % 2 ^ 8) (value' % 2 ^ 36) (omega arith) in
    rw (first, second, sum, sum') (omega arith)
