-- ===== src/Upload/Threaded.antt =====
-- One slot of frida_apply_threaded_items of src/fruity/helpers/upload-receiver.c, by its bit fields.
use frida_core.Base.{
  ℕ, ◌+◌, ◌-◌, ◌*◌, ◌/◌, ◌%◌, ◌^◌, ◌<◌, ◌≡◌, refl, ap, ◌∙◌, Bool, true, false, ◌==◌, leb,
  if◌then◌else◌, Bool-cases, inl, inr, arith,
}
use Prim.Native.Nat.{bit_and, bit_or}
use frida_core.Base.Bits.{shifted-bit_or}
use frida_core.Base.Masks.{bit_and-ones, bit_and-shifted}
use frida_core.Upload.{quad}
use frida_core.Upload.Items.{
  Ptrauth, sign_pointer, threaded_rebase_address, threaded_bound_value, fix_threaded,
}

-- Bit `n`
abbrev pub is_set : ℕ → ℕ → Bool
is_set value n = value / 2 ^ n % 2 == 1

-- What a rebase without a signature holds: a top byte, and a number of 43 bits with a sign
abbrev pub plain_target : ℕ → ℕ
plain_target value =
    value / 2 ^ 43 % 2 ^ 8 * 2 ^ 56
    + (if is_set value 42 then 2 ^ 56 - 2 ^ 43 else 0)
    + value % 2 ^ 43

-- Where an item points: a bind (bit 62) to the symbol of its ordinal, a rebase with a signature (bit 63)
-- to an offset of 32 bits from the preferred base, any other rebase to its target, with the slide.
abbrev pub item_pointer : ℕ → ℕ → (ℕ → ℕ) → ℕ → ℕ
item_pointer preferred slide symbols value =
    if is_set value 62
    then symbols (value % 2 ^ 16)
    else (if is_set value 63
        then (value % 2 ^ 32 + preferred + slide) % 2 ^ 64
        else (plain_target value + slide) % 2 ^ 64)

-- The signature has a key of two bits and a diversity of 16 bits, blended with the address of the slot
-- if bit 48 is set.
abbrev pub item_value : Ptrauth → ℕ → ℕ → (ℕ → ℕ) → ℕ → ℕ → ℕ
item_value pa preferred slide symbols slot value =
    let pointer = item_pointer preferred slide symbols value in
    let diversity = value / 2 ^ 32 % 2 ^ 16 in
    if is_set value 63
    then pa.sign_unauthenticated pointer (value / 2 ^ 49 % 4)
        (if is_set value 48 then pa.blend_discriminator slot diversity else diversity)
    else pointer

-- A top byte, thirteen sign bits and 43 bits below them
fields :
    (top sign low : ℕ)
    → sign < 2 ^ 13
    → low < 2 ^ 43
    → bit_or (bit_or (top * 2 ^ 56) (sign * 2 ^ 43)) low ≡ top * 2 ^ 56 + sign * 2 ^ 43 + low
fields top sign low hs hl =
    let upper : bit_or (top * 2 ^ 56) (sign * 2 ^ 43) ≡ (top * 2 ^ 13 + sign) * 2 ^ 43 =
      shifted-bit_or 56 (sign * 2 ^ 43) top (omega arith) ∙ omega arith in
    rw upper (shifted-bit_or 43 low (top * 2 ^ 13 + sign) hl ∙ omega arith)

top_byte :
    (value : ℕ)
    → bit_and (value * 2 ^ 13 % quad) 0xff00000000000000 ≡ value / 2 ^ 43 % 2 ^ 8 * 2 ^ 56
top_byte value =
    bit_and-shifted 56 (value * 2 ^ 13 % quad) 255
    ∙ ap (λ (t : ℕ). t * 2 ^ 56) (bit_and-ones 8 (value * 2 ^ 13 % quad / 2 ^ 56) ∙ omega arith)

rebase_address_signed :
    (value : ℕ) → is_set value 63 ≡ true → threaded_rebase_address value ≡ value % 2 ^ 32
unfolding threaded_rebase_address
rebase_address_signed value signed = rw signed (bit_and-ones 32 value)

rebase_address_plain :
    (value : ℕ) → is_set value 63 ≡ false → threaded_rebase_address value ≡ plain_target value
unfolding threaded_rebase_address
rebase_address_plain value plain =
    let low : bit_and value 0x000007ffffffffff ≡ value % 2 ^ 43 = bit_and-ones 43 value in
    let top = value / 2 ^ 43 % 2 ^ 8 in
    elim (Bool-cases (is_set value 42)) [
      | inl negative ↦
          rw (plain, negative, top_byte value, low)
            (fields top 0x1fff (value % 2 ^ 43) (omega arith) (omega arith))
      | inr natural ↦
          rw (plain, natural, top_byte value, low)
            (fields top 0 (value % 2 ^ 43) (omega arith) (omega arith))
    ]

bound_value_lem :
    (preferred slide : ℕ) (symbols : ℕ → ℕ) (value : ℕ)
    → threaded_bound_value preferred slide symbols value
      ≡ item_pointer preferred slide symbols value
unfolding threaded_bound_value
bound_value_lem preferred slide symbols value =
    let ordinal : bit_and value 0xffff ≡ value % 2 ^ 16 = bit_and-ones 16 value in
    elim (Bool-cases (is_set value 62)) [
      | inl bound ↦ rw (bound, ordinal) refl
      | inr moved ↦ elim (Bool-cases (is_set value 63)) [
        | inl signed ↦ rw (moved, signed, rebase_address_signed value signed) (omega arith)
        | inr plain ↦ rw (moved, plain, rebase_address_plain value plain) refl
      ]
    ]

-- For every value of a slot frida_apply_threaded_items writes what the bit fields of the item say: the
-- pointer that it is bound or rebased to, signed with its key and diversity if bit 63 is set.
pub fix_threaded-item_value :
    (pa : Ptrauth) (preferred slide : ℕ) (symbols : ℕ → ℕ) (slot value : ℕ)
    → fix_threaded pa preferred slide symbols slot value
      ≡ item_value pa preferred slide symbols slot value
unfolding fix_threaded sign_pointer
fix_threaded-item_value pa preferred slide symbols slot value =
    let key : bit_and (value / 2 ^ 49) 3 ≡ value / 2 ^ 49 % 4 = bit_and-ones 2 (value / 2 ^ 49) in
    let diversity : bit_and (value / 2 ^ 32) 0xffff ≡ value / 2 ^ 32 % 2 ^ 16 =
      bit_and-ones 16 (value / 2 ^ 32) in
    let small : leb (value / 2 ^ 49 % 4) 3 ≡ true = ground arith in
    rw (bound_value_lem preferred slide symbols value, key, diversity, small) refl
