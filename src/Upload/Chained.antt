-- ===== src/Upload/Chained.antt =====
-- One slot of frida_process_chained_fixups_in_segment_generic64 and _arm64e of
-- src/fruity/helpers/upload-receiver.c, by its bit fields.
use frida_core.Base.{ℕ, ◌+◌, ◌-◌, ◌*◌, ◌/◌, ◌%◌, ◌^◌, ◌==◌, leb, if◌then◌else◌}
use frida_core.Upload.Items.{Ptrauth}
use frida_core.Upload.Threaded.{is_set}

-- An address that was meant for the preferred base, in the image at `actual`
abbrev pub moved : ℕ → ℕ → ℕ → ℕ
moved actual preferred address = (address + actual + (2 ^ 64 - preferred % 2 ^ 64)) % 2 ^ 64

-- The 64-bit formats: a bind (bit 63) to a symbol, with an addend of eight bits, or a rebase with a top
-- byte and a target of 36 bits, which in format 6 is an offset and in the other an address.
abbrev pub generic64_value : ℕ → ℕ → ℕ → (ℕ → ℕ) → ℕ → ℕ
generic64_value format actual preferred bound value =
    let target = value / 2 ^ 36 % 2 ^ 8 * 2 ^ 56 + value % 2 ^ 36 in
    if value / 2 ^ 63 == 0
    then (if format == 6 then (actual + target) % 2 ^ 64 else moved actual preferred target)
    else (bound (value % 2 ^ 24) + value / 2 ^ 24 % 2 ^ 8) % 2 ^ 64

-- A signature with the key and the diversity of the slot
abbrev pub signed_with : Ptrauth → ℕ → ℕ → ℕ → ℕ
signed_with pa slot value pointer =
    let diversity = value / 2 ^ 32 % 2 ^ 16 in
    pa.sign_unauthenticated pointer (value / 2 ^ 49 % 4)
      (if is_set value 48 then pa.blend_discriminator slot diversity else diversity)

-- The arm64e formats, by the upper two bits. 0 is a rebase with a top byte and a target of 43 bits, an
-- address in format 1 and an offset in the others; 1 a bind with a signed addend of 19 bits; 2 a signed
-- rebase to an offset of 32 bits; 3 a signed bind. An ordinal has 24 bits in format 12, and 16 in the
-- others.
abbrev pub arm64e_value : Ptrauth → ℕ → ℕ → ℕ → (ℕ → ℕ) → ℕ → ℕ → ℕ
arm64e_value pa format actual preferred bound slot value =
    let target = value / 2 ^ 43 % 2 ^ 8 * 2 ^ 56 + value % 2 ^ 43 in
    let symbol = bound (if format == 12 then value % 2 ^ 24 else value % 2 ^ 16) in
    let addend = value / 2 ^ 32 % 2 ^ 19 in
    if value / 2 ^ 62 == 0
    then (if format == 1 then moved actual preferred target else (actual + target) % 2 ^ 64)
    else (if value / 2 ^ 62 == 1
        then (if leb (2 ^ 18) addend
            then (symbol + addend + (2 ^ 64 - 2 ^ 19)) % 2 ^ 64
            else (symbol + addend) % 2 ^ 64)
        else (if value / 2 ^ 62 == 2
            then signed_with pa slot value ((value % 2 ^ 32 + actual) % 2 ^ 64)
            else signed_with pa slot value symbol))
