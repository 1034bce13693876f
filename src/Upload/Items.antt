-- ===== src/Upload/Items.antt =====
-- What the loops of src/fruity/helpers/upload-receiver.c make of one slot. The instructions that sign a
-- pointer are a parameter, and so is the table of the symbols that are bound.
use frida_core.Base.{ℕ, ◌+◌, ◌-◌, ◌*◌, ◌/◌, ◌%◌, ◌^◌, Bool, Option, leb, ◌==◌, if◌then◌else◌}
use Prim.Native.Nat.{bit_and, bit_or}
use frida_core.Upload.{quad, Mem, walk}

-- The intrinsics of ptrauth.h
pub record Ptrauth : Type 0 where
  pub sign_unauthenticated : ℕ → ℕ → ℕ → ℕ
  pub blend_discriminator : ℕ → ℕ → ℕ

-- `(value >> n) & 1`
abbrev pub bit : ℕ → ℕ → Bool
bit value n = value / 2 ^ n % 2 == 1

-- The keys are 0 to 3.
unfoldable pub sign_pointer : Ptrauth → ℕ → ℕ → ℕ → Bool → ℕ → ℕ
sign_pointer pa ptr key diversity use_address_diversity address_of_ptr =
    let d =
      if use_address_diversity
      then pa.blend_discriminator address_of_ptr diversity
      else diversity in
    if leb key 3 then pa.sign_unauthenticated ptr key d else ptr

-- A name is the address of its first byte.
unfoldable pub symbol_name_from_darwin : Mem → ℕ → ℕ
symbol_name_from_darwin m name = if m name % 256 == b'_' then name + 1 else name

unfoldable pub sign_extend_int19 : ℕ → ℕ
sign_extend_int19 i19 = if i19 / 2 ^ 18 == 0 then i19 else bit_or i19 0xfffffffffff80000

-- `slide`, an int64_t
abbrev pub slide_of : ℕ → ℕ → ℕ
slide_of actual preferred = (actual + (quad - preferred % quad)) % quad

-- `(uint64_t) item->high8 << (64 - 8) | item->target`
abbrev pub unpacked : ℕ → ℕ → ℕ
unpacked high8 target = bit_or (high8 * 2 ^ 56) target

-- Slots of struct _FridaChainedPtr64Rebase and struct _FridaChainedPtr64Bind
unfoldable pub next_generic64 : ℕ → ℕ
next_generic64 value = value / 2 ^ 51 % 2 ^ 12

abbrev pub ptr_64 : ℕ
ptr_64 = 2

abbrev pub ptr_64_offset : ℕ
ptr_64_offset = 6

unfoldable pub fix_generic64 : ℕ → ℕ → ℕ → (ℕ → ℕ) → ℕ → ℕ → ℕ
fix_generic64 format actual preferred bound cursor value =
    if value / 2 ^ 63 == 0
    then (let target = unpacked (value / 2 ^ 36 % 2 ^ 8) (value % 2 ^ 36) in
        if format == ptr_64_offset
        then (actual + target) % quad
        else (target + slide_of actual preferred) % quad)
    else (bound (value % 2 ^ 24) + value / 2 ^ 24 % 2 ^ 8) % quad

-- Slots of the structs _FridaChainedPtrArm64e*
unfoldable pub next_arm64e : ℕ → ℕ
next_arm64e value = value / 2 ^ 51 % 2 ^ 11

abbrev pub ptr_arm64e : ℕ
ptr_arm64e = 1

abbrev pub ptr_arm64e_userland24 : ℕ
ptr_arm64e_userland24 = 12

unfoldable pub arm64e_ordinal : ℕ → ℕ → ℕ
arm64e_ordinal format value =
    if format == ptr_arm64e_userland24 then value % 2 ^ 24 else value % 2 ^ 16

unfoldable pub arm64e_rebase : ℕ → ℕ → ℕ → ℕ → ℕ
arm64e_rebase format actual preferred value =
    let target = unpacked (value / 2 ^ 43 % 2 ^ 8) (value % 2 ^ 43) in
    if format == ptr_arm64e
    then (target + slide_of actual preferred) % quad
    else (actual + target) % quad

unfoldable pub arm64e_bind : ℕ → (ℕ → ℕ) → ℕ → ℕ
arm64e_bind format bound value =
    (bound (arm64e_ordinal format value) + sign_extend_int19 (value / 2 ^ 32 % 2 ^ 19)) % quad

unfoldable pub arm64e_auth_rebase : Ptrauth → ℕ → ℕ → ℕ → ℕ → ℕ
arm64e_auth_rebase pa actual preferred cursor value =
    sign_pointer pa ((preferred + value % 2 ^ 32 + slide_of actual preferred) % quad)
      (value / 2 ^ 49 % 2 ^ 2) (value / 2 ^ 32 % 2 ^ 16) (bit value 48) cursor

unfoldable pub arm64e_auth_bind : Ptrauth → ℕ → (ℕ → ℕ) → ℕ → ℕ → ℕ
arm64e_auth_bind pa format bound cursor value =
    sign_pointer pa (bound (arm64e_ordinal format value)) (value / 2 ^ 49 % 2 ^ 2)
      (value / 2 ^ 32 % 2 ^ 16) (bit value 48) cursor

unfoldable pub fix_arm64e : Ptrauth → ℕ → ℕ → ℕ → (ℕ → ℕ) → ℕ → ℕ → ℕ
fix_arm64e pa format actual preferred bound cursor value =
    let kind = value / 2 ^ 62 in
    if kind == 0
    then arm64e_rebase format actual preferred value
    else (if kind == 1
        then arm64e_bind format bound value
        else (if kind == 2
            then arm64e_auth_rebase pa actual preferred cursor value
            else arm64e_auth_bind pa format bound cursor value))

-- frida_apply_threaded_items: the shifts and masks of one slot
unfoldable pub next_threaded : ℕ → ℕ
next_threaded value = bit_and (value / 2 ^ 51) 0x7ff

unfoldable pub threaded_rebase_address : ℕ → ℕ
threaded_rebase_address value =
    if bit value 63
    then bit_and value 0xffffffff
    else bit_or
        (bit_or (bit_and (value * 2 ^ 13 % quad) 0xff00000000000000)
          (if bit value 42 then 0x00fff80000000000 else 0))
        (bit_and value 0x000007ffffffffff)

unfoldable pub threaded_bound_value : ℕ → ℕ → (ℕ → ℕ) → ℕ → ℕ
threaded_bound_value preferred slide symbols value =
    if bit value 62
    then symbols (bit_and value 0xffff)
    else (let rebase_address = threaded_rebase_address value in
        let moved = if bit value 63 then (rebase_address + preferred) % quad else rebase_address in
        (moved + slide) % quad)

unfoldable pub fix_threaded : Ptrauth → ℕ → ℕ → (ℕ → ℕ) → ℕ → ℕ → ℕ
fix_threaded pa preferred slide symbols slot value =
    let bound_value = threaded_bound_value preferred slide symbols value in
    if bit value 63
    then sign_pointer pa bound_value (bit_and (value / 2 ^ 49) 3) (bit_and (value / 2 ^ 32) 0xffff)
        (bit value 48) slot
    else bound_value

-- frida_process_chained_fixups_in_segment_*, while the table of the bound pointers stays as it is
unfoldable pub fixups_generic64 : ℕ → ℕ → ℕ → (ℕ → ℕ) → ℕ → ℕ → Mem → Option Mem
fixups_generic64 format actual preferred bound =
    walk next_generic64 4 (fix_generic64 format actual preferred bound)

unfoldable pub fixups_arm64e : Ptrauth → ℕ → ℕ → ℕ → (ℕ → ℕ) → ℕ → ℕ → Mem → Option Mem
fixups_arm64e pa format actual preferred bound =
    walk next_arm64e 8 (fix_arm64e pa format actual preferred bound)
