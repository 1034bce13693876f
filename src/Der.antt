-- ===== src/Der.antt =====
-- The DER writer of lib/base/p2p-glue.c. A `GByteArray` is the list of its bytes, and a function that
-- appends to `out` returns the longer array.
pub mod Decode
pub mod Length
pub mod Integer
pub mod Certificate
pub mod Elements
mod Tests
use frida_core.Base.{
  ℕ, zero, suc, ◌+◌, ◌-◌, ◌/◌, ◌%◌, ◌^◌, Bool, ◌&&◌, List, [], ◌∷◌, ◌++◌, length, take, drop,
  get_or, ltb, ◌==◌, if◌then◌else◌, reverse,
}
use Prim.Native.Nat.{bit_and, bit_or}

abbrev pub Bytes : Type 0
Bytes = List ℕ

-- The loop `while (length > 0)`: buf[1..i], the lowest byte first. A gsize has eight bytes, so that
-- nine rounds end it.
unfoldable pub length_bytes : ℕ → ℕ → Bytes
length_bytes zero n = []
length_bytes (suc rounds) n =
    let rest = length_bytes rounds (n / 256) in if ltb 0 n then (n % 256) ∷ rest else []

-- The loop `while (i > 0)` over buf[1..i], from the end
unfoldable pub append_reversed : Bytes → Bytes → Bytes
append_reversed [] out = out
append_reversed (b ∷ bs) out = append_reversed bs out ++ (b ∷ [])

-- frida_der_append_length
unfoldable pub append_length : ℕ → Bytes → Bytes
append_length n out =
    if ltb n 0x80
    then out ++ (n % 256) ∷ []
    else (let buf = length_bytes 9 n in
        append_reversed buf (out ++ bit_or 0x80 (length buf) % 256 ∷ []))

-- `g_byte_array_append (out, value, length)`: the length parameter is a 32-bit guint, so that only
-- this many bytes are appended.
unfoldable pub appended : Bytes → Bytes
appended value = take (length value % 2 ^ 32) value

-- frida_der_append_tlv
unfoldable pub append_tlv : ℕ → Bytes → Bytes → Bytes
append_tlv tag value out = append_length (length value) (out ++ tag ∷ []) ++ appended value

-- The loop `for (i = 7; i >= 0; i--)`: the eight bytes of the value, the highest first. The loop
-- stores them from the end, so the later rounds go in front.
unfoldable pub value_bytes : ℕ → ℕ → Bytes → Bytes
value_bytes zero value buf = buf
value_bytes (suc i) value buf = value_bytes i (value / 256) (value % 256 ∷ buf)

-- `while (start < 8 && buf[start] == 0 && (buf[start + 1] & 0x80) == 0) start++`: what is left from
-- `start` on. `start < 8` says that a byte follows.
unfoldable pub strip : Bytes → Bytes
strip [] = []
strip (b ∷ []) = b ∷ []
strip (b ∷ c ∷ bs) =
    let rest = strip (c ∷ bs) in if b == 0 && bit_and c 0x80 == 0 then rest else b ∷ c ∷ bs

-- frida_der_append_integer_uint
unfoldable pub append_integer_uint : ℕ → Bytes → Bytes
append_integer_uint value out = append_tlv 0x02 (strip (0 ∷ value_bytes 8 value [])) out

-- frida_der_append_null and frida_der_append_oid
unfoldable pub append_null : Bytes → Bytes
append_null out = append_tlv 0x05 [] out

unfoldable pub append_oid : Bytes → Bytes → Bytes
append_oid oid out = append_tlv 0x06 oid out

-- frida_der_append_bit_string
unfoldable pub append_bit_string : Bytes → Bytes → Bytes
append_bit_string bytes out =
    append_length (length bytes + 1) (out ++ 0x03 ∷ []) ++ 0 ∷ [] ++ appended bytes
