-- ===== src/Trie/Tests.antt =====
-- A small trie, and the theorems at it.
use frida_core.Base.{◌≡◌, refl, none, some, [], ◌∷◌, ◌++◌, drop, arith}
use frida_core.Trie.{
  Bytes, ◌>>=◌, uleb_loop, read_uleb128, same_char, match_edge, find_child, read_byte, is_empty,
  find_loop, exports_trie_find,
}
use frida_core.Trie.Uleb.{uleb, read_uleb128-uleb}
use frida_core.Trie.Layout.{Node, node, no_edge, edge, lookup, height, export, plain, At}
use frida_core.Trie.Find.{exports_trie_find-lookup}

-- The names "a", at 16, and "abc", at 300; the trie ends with its last node.
abbrev trie : Bytes
trie = 0 ∷ 1 ∷ 97 ∷ 0 ∷ 5 ∷ 2 ∷ 0 ∷ 16 ∷ 1 ∷ 98 ∷ 99 ∷ 0 ∷ 13 ∷ 3 ∷ 0 ∷ 172 ∷ 2 ∷ 0 ∷ []

abbrev tree : Node
tree = node none (
    edge (97 ∷ []) (node (some 16) (edge (98 ∷ 99 ∷ []) (node (some 300) no_edge) no_edge)) no_edge)

trie-At : At trie tree trie
unfolding read_uleb128 uleb_loop read_byte
trie-At = (
  0,
  drop 1 trie,
  1,
  drop 2 trie,
  refl,
  plain refl,
  refl,
  (
    0,
    drop 4 trie,
    5,
    drop 5 trie,
    refl,
    refl,
    (omega arith, tt),
    refl,
    omega arith,
    (
      2,
      drop 6 trie,
      1,
      drop 9 trie,
      refl,
      export (omega arith) refl refl,
      refl,
      (
        0,
        drop 12 trie,
        13,
        drop 13 trie,
        refl,
        refl,
        (omega arith, (omega arith, tt)),
        refl,
        omega arith,
        (3, drop 14 trie, 0, [], refl, export (omega arith) refl refl, refl, refl),
        refl,
      ),
    ),
    refl,
  ),
)

exports_trie_find-lookup_example :
    exports_trie_find 3 (some trie) (97 ∷ 98 ∷ 99 ∷ []) ≡ some (lookup tree (97 ∷ 98 ∷ 99 ∷ []))
unfolding height
exports_trie_find-lookup_example =
    exports_trie_find-lookup 3 trie tree (97 ∷ 98 ∷ 99 ∷ []) trie-At (omega arith)
      (omega arith, (omega arith, (omega arith, tt)))

read_uleb128-uleb_example : read_uleb128 (uleb 9 300 ++ 7 ∷ []) ≡ some (300, 7 ∷ [])
read_uleb128-uleb_example = read_uleb128-uleb 300 (7 ∷ []) (omega arith)

find_runs :
    (exports_trie_find 3 (some trie) (97 ∷ []) ≡ some 16)
    × (exports_trie_find 3 (some trie) (97 ∷ 98 ∷ []) ≡ some 0)
    × (exports_trie_find 3 (some trie) (97 ∷ 98 ∷ 99 ∷ []) ≡ some 300)
unfolding exports_trie_find find_loop read_uleb128 uleb_loop ◌>>=◌ read_byte is_empty find_child
    match_edge same_char
find_runs = (refl, refl, refl)
