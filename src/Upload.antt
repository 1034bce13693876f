-- ===== src/Upload.antt =====
-- src/fruity/helpers/upload-receiver.c: the memory that its fixups change, the bit fields of a slot, and
-- the chains of slots.
pub mod Chain
pub mod Items
pub mod Same
pub mod Threaded
pub mod Chained
pub mod Walk
pub mod Transfer
pub mod Image
mod Tests
use frida_core.Base.{
  ℕ, zero, suc, ◌+◌, ◌-◌, ◌*◌, ◌/◌, ◌%◌, ◌^◌, Bool, true, false, ◌&&◌, Option, none, some, List, [],
  ◌∷◌, ltb, leb, ◌==◌, if◌then◌else◌,
}

abbrev pub quad : ℕ
quad = 2 ^ 64

-- The bytes of the address space
abbrev pub Mem : Type 0
Mem = ℕ → ℕ

abbrev pub byte_at : Mem → ℕ → ℕ → ℕ
byte_at m a i = m (a + i) % 256

-- A uint64_t at an address, the lowest byte first
unfoldable pub load : Mem → ℕ → ℕ
load m a =
    byte_at m a 0
    + 2 ^ 8 * byte_at m a 1
    + 2 ^ 16 * byte_at m a 2
    + 2 ^ 24 * byte_at m a 3
    + 2 ^ 32 * byte_at m a 4
    + 2 ^ 40 * byte_at m a 5
    + 2 ^ 48 * byte_at m a 6
    + 2 ^ 56 * byte_at m a 7

abbrev pub byte_of : ℕ → ℕ → ℕ
byte_of v zero = v % 256
byte_of v (suc i) = byte_of (v / 256) i

unfoldable pub store : Mem → ℕ → ℕ → Mem
store m a v b = if leb a b && ltb b (a + 8) then byte_of v (b - a) else m b

-- The loops over a chain, which all have this shape: a slot is read, its distance to the next one is
-- taken from it, and it is written. `none`: the fuel is used up.
unfoldable pub walk : (next : ℕ → ℕ) (stride : ℕ) (fix : ℕ → ℕ → ℕ) → ℕ → ℕ → Mem → Option Mem
walk next stride fix zero cursor m = none
walk next stride fix (suc fuel) cursor m =
    let value = load m cursor in
    let m' = store m cursor (fix cursor value) in
    let rest = walk next stride fix fuel (cursor + next value * stride) m' in
    if next value == 0 then some m' else rest
