-- ===== src/Trie.antt =====
-- The export trie of a Mach-O image, as src/fruity/helpers/symbol-resolver.c walks it. A pointer into
-- the trie is the list of the bytes from it on, a string the list of its characters without the
-- terminator, and `none` a read outside of the trie.
pub mod Uleb
pub mod Layout
pub mod Find
mod Tests
use frida_core.Base.{
  ℕ, zero, suc, ◌+◌, ◌*◌, ◌%◌, ◌^◌, Bool, true, false, Option, none, some, List, [], ◌∷◌, drop, ltb,
  ◌&&◌, ◌==◌, if◌then◌else◌, not,
}
use Prim.Native.Nat.{bit_and, bit_or}

abbrev pub Bytes : Type 0
Bytes = List ℕ

infixl 5 ◌>>=◌
unfoldable pub ◌>>=◌ : {A B : Type 0} → Option A → (A → Option B) → Option B
none >>= f = none
some a >>= f = f a

-- The loop of frida_read_uleb128; `result` has 64 bits.
unfoldable pub uleb_loop : Bytes → ℕ → ℕ → Option (ℕ × Bytes)
uleb_loop [] result offset = none
uleb_loop (b ∷ p) result offset =
    let chunk = bit_and b 0x7f in
    let result' = bit_or result (chunk * 2 ^ offset % 2 ^ 64) in
    let more = uleb_loop p result' (offset + 7) in
    if bit_and b 0x80 == 0 then some (result', p) else more

-- frida_read_uleb128: the number, and the pointer after it
unfoldable pub read_uleb128 : Bytes → Option (ℕ × Bytes)
read_uleb128 p = uleb_loop p 0 0

-- `*p == *symbol_cur`: a `uint8_t` against a `char`, which is signed on the platforms of the helper. A
-- character from 0x80 on is negative as an int, and a byte is not.
unfoldable pub same_char : ℕ → ℕ → Bool
same_char b c = ltb c 0x80 && b == c

-- `while (*p != '\0')`, then `p++`: whether the edge matches, and what is left of the symbol.
unfoldable pub match_edge : Bytes → Bool → Bytes → Option (Bool × Bytes × Bytes)
match_edge [] matching cur = none
match_edge (b ∷ p) false cur =
    let more = match_edge p false cur in if b == 0 then some (false, cur, p) else more
match_edge (b ∷ p) true [] =
    let more = match_edge p false [] in if b == 0 then some (true, [], p) else more
match_edge (b ∷ p) true (c ∷ cur) =
    let more = match_edge p (same_char b c) cur in if b == 0 then some (true, c ∷ cur, p) else more

-- The loop over the children: the offset of the child whose edge matches and the rest of the symbol,
-- or offset 0 and the symbol.
unfoldable pub find_child : ℕ → Bytes → Bytes → Option (ℕ × Bytes)
find_child zero p s = some (0, s)
find_child (suc n) p s = match_edge p true s >>= λ (matching, cur, q).
    (read_uleb128 q >>= λ (node_offset, q'). elim matching [
      | true ↦ some (node_offset, cur)
      | false ↦ find_child n q' s
    ])

unfoldable pub is_empty : Bytes → Bool
is_empty [] = true
is_empty (c ∷ s) = false

-- `child_count = *children++`
unfoldable pub read_byte : Bytes → Option (ℕ × Bytes)
read_byte [] = none
read_byte (b ∷ p) = some (b, p)

-- `while (p != NULL)`; 0 says that there is no such export. The fuel bounds the nodes passed.
unfoldable pub find_loop : ℕ → Bytes → Bytes → Bytes → Option ℕ
find_loop zero exports p s = none
find_loop (suc n) exports p s = read_uleb128 p >>= λ (terminal_size, q).
    elim (if terminal_size == 0 then false else is_empty s) [
      | true ↦
          read_uleb128 q >>= λ (flags, q'). (read_uleb128 q' >>= λ (address, q''). some address)
      | false ↦ read_byte (drop terminal_size q) >>= λ (child_count, children).
          (find_child child_count children s >>= λ (node_offset, s'). elim (node_offset == 0) [
            | true ↦ some 0
            | false ↦ find_loop n exports (drop node_offset exports) s'
          ])
    ]

-- frida_exports_trie_find; an image without a trie has `none`.
unfoldable pub exports_trie_find : ℕ → Option Bytes → Bytes → Option ℕ
exports_trie_find fuel none name = some 0
exports_trie_find fuel (some exports) name = find_loop fuel exports exports name
