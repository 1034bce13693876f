-- ===== src/Trie/Layout.antt =====
-- The prefix tree that an export trie stands for, and when its bytes lie at a pointer.
use frida_core.Base.{
  ℕ, suc, ◌≡◌, ◌≢◌, ◌<◌, Option, none, some, [], ◌∷◌, ◌++◌, drop, ◌==◌, if◌then◌else◌, max,
}
use frida_core.Trie.{Bytes, read_uleb128, read_byte}

-- A node has the address of an export, if its name ends there, and edges to its children.
mutual
  pub data Node : Type 0 where
    node : Option ℕ → Edges → Node

  pub data Edges : Type 0 where
    no_edge : Edges
    edge : Bytes → Node → Edges → Edges

-- What follows the label in `s`, if it begins with the label
unfoldable pub strip_prefix : Bytes → Bytes → Option Bytes
strip_prefix [] s = some s
strip_prefix (b ∷ label) [] = none
strip_prefix (b ∷ label) (c ∷ s) = if b == c then strip_prefix label s else none

-- The specification: the address at the name, 0 if there is none. The first edge that fits is taken.
unfoldable mutual
  pub lookup : Node → Bytes → ℕ
  lookup (node none es) [] = lookup_edges es []
  lookup (node (some address) es) [] = address
  lookup (node address es) (c ∷ s) = lookup_edges es (c ∷ s)

  pub lookup_edges : Edges → Bytes → ℕ
  lookup_edges no_edge s = 0
  lookup_edges (edge label t es) s = elim (strip_prefix label s) [
    | some s' ↦ lookup t s'
    | none ↦ lookup_edges es s
  ]

unfoldable mutual
  pub height : Node → ℕ
  height (node address es) = suc (edges_height es)

  pub edges_height : Edges → ℕ
  edges_height no_edge = 0
  edges_height (edge label t es) = max (height t) (edges_height es)

abbrev pub NonZero : Bytes → Type 0
NonZero [] = Unit
NonZero (b ∷ bs) = (b ≢ 0) × NonZero bs

-- All characters are below 0x80.
abbrev pub IsAscii : Bytes → Type 0
IsAscii [] = Unit
IsAscii (c ∷ s) = (c < 128) × IsAscii s

-- The terminal part of a node: its size is 0, or it holds flags and the address.
pub data Terminal : Option ℕ → ℕ → Bytes → Type 0 where
  plain : {size : ℕ} {q : Bytes} → size ≡ 0 → Terminal none size q
  export :
      {address size flags : ℕ} {q r r' : Bytes}
      → 0 < size
      → read_uleb128 q ≡ some (flags, r)
      → read_uleb128 r ≡ some (address, r')
      → Terminal (some address) size q

-- The bytes of a tree lie at `p`, in a trie that begins at `exports`.
abbrev mutual
  pub At : Bytes → Node → Bytes → Type 0
  At exports (node address es) p =
      (size : ℕ) × (q : Bytes) × (count : ℕ) × (r : Bytes) × (read_uleb128 p ≡ some (size, q))
      × Terminal address size q
      × (read_byte (drop size q) ≡ some (count, r))
      × EdgesAt exports es count r

  pub EdgesAt : Bytes → Edges → ℕ → Bytes → Type 0
  EdgesAt exports no_edge count p = count ≡ 0
  EdgesAt exports (edge label t es) count p =
      (n : ℕ) × (q : Bytes) × (offset : ℕ) × (r : Bytes) × (count ≡ suc n)
      × (p ≡ label ++ 0 ∷ q)
      × NonZero label
      × (read_uleb128 q ≡ some (offset, r))
      × (offset ≢ 0)
      × At exports t (drop offset exports)
      × EdgesAt exports es n r
