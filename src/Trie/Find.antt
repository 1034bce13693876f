-- ===== src/Trie/Find.antt =====
-- frida_exports_trie_find of src/fruity/helpers/symbol-resolver.c against the lookup of Trie/Layout.
use frida_core.Base.{
  ℕ, zero, suc, ◌≡◌, ◌≢◌, ◌≤◌, ◌<◌, ◌⊎◌, refl, ap, ◌∙◌, true, false, Option, none, some, [], ◌∷◌,
  ◌++◌, drop, ◌==◌, if◌then◌else◌, arith, Bool-cases, Option-cases, subst, ltb, inl, inr,
}
use mathlib.Core.Option.{none-ne-some}
use frida_core.Trie.{
  Bytes, ◌>>=◌, same_char, match_edge, find_child, find_loop, exports_trie_find, read_uleb128,
  is_empty,
}
use frida_core.Trie.Layout.{
  Node, node, Edges, no_edge, edge, strip_prefix, lookup, lookup_edges, height, edges_height,
  NonZero, IsAscii, Terminal, plain, export, At, EdgesAt,
}

-- An edge that differs already is passed over.
match_edge-false :
    (label q cur : Bytes)
    → NonZero label
    → match_edge (label ++ 0 ∷ q) false cur ≡ some (false, cur, q)
unfolding match_edge
match_edge-false [] q cur h = refl
match_edge-false (b ∷ label) q cur (hb, h) = ground (arith, match_edge-false label q cur h)

-- Below 0x80 the characters are compared as they are.
same_char_lem : (b c : ℕ) → c < 128 → same_char b c ≡ (b == c)
unfolding same_char
same_char_lem b c h = let low : ltb c 0x80 ≡ true = ground arith in rw low refl

whole : Bytes → Option Bytes → Bytes
whole d none = d
whole d (some s) = s

strip_prefix-IsAscii :
    (label s s' : Bytes) → IsAscii s → strip_prefix label s ≡ some s' → IsAscii s'
unfolding strip_prefix whole
strip_prefix-IsAscii [] s s' h e = subst IsAscii (ap (whole s) e) h
strip_prefix-IsAscii (b ∷ label) [] s' h e = cc
strip_prefix-IsAscii (b ∷ label) (c ∷ s) s' (hc, h) e = elim (Bool-cases (b == c)) [
  | inl same ↦ strip_prefix-IsAscii label s s' h (rw same at e)
  | inr differ ↦ absurd (none-ne-some s' (rw differ at e))
]

match_edge_prefix :
    (label q s s' : Bytes)
    → NonZero label
    → IsAscii s
    → strip_prefix label s ≡ some s'
    → match_edge (label ++ 0 ∷ q) true s ≡ some (true, s', q)
unfolding match_edge strip_prefix
match_edge_prefix [] q [] s' h ascii e = cc
match_edge_prefix [] q (c ∷ s) s' h ascii e = cc
match_edge_prefix (b ∷ label) q [] s' h ascii e = cc
match_edge_prefix (b ∷ label) q (c ∷ s) s' (hb, h) (hc, ascii) e =
    ground (arith, same_char_lem b c hc, match_edge_prefix label q s s' h ascii)

match_edge_other :
    (label q s : Bytes)
    → NonZero label
    → IsAscii s
    → strip_prefix label s ≡ none
    → (cur : Bytes) × (match_edge (label ++ 0 ∷ q) true s ≡ some (false, cur, q))
unfolding match_edge strip_prefix
match_edge_other [] q s h ascii e = cc
match_edge_other (b ∷ label) q [] (hb, h) ascii e =
    ([], ground (arith, match_edge-false label q [] h))
match_edge_other (b ∷ label) q (c ∷ s) (hb, h) (hc, ascii) e = elim (Bool-cases (b == c)) [
  | inl same ↦
      let (cur, rest) = match_edge_other label q s h ascii (rw same at e) in
      (cur, rw (not_end, same_char_lem b c hc, same) rest)
  | inr differ ↦ (s, rw (not_end, same_char_lem b c hc, differ) (match_edge-false label q s h))
]
  where
    not_end : (b == 0) ≡ false
    not_end = ground arith

lookup_edge_found :
    (label s s' : Bytes) (t : Node) (es : Edges)
    → strip_prefix label s ≡ some s'
    → lookup_edges (edge label t es) s ≡ lookup t s'
unfolding lookup_edges
lookup_edge_found label s s' t es e = ground arith

lookup_edge_other :
    (label s : Bytes) (t : Node) (es : Edges)
    → strip_prefix label s ≡ none
    → lookup_edges (edge label t es) s ≡ lookup_edges es s
unfolding lookup_edges
lookup_edge_other label s t es e = ground arith

-- What the loop over the children finds: no child, or one that goes on with the lookup.
ChildFound : Bytes → Edges → Bytes → ℕ × Bytes → Type 0
ChildFound exports es s (offset, s') =
    ((offset ≡ 0) × (lookup_edges es s ≡ 0))
    ⊎ ((offset ≢ 0)
        × IsAscii s'
        × ((t : Node) × At exports t (drop offset exports)
            × (height t ≤ edges_height es)
            × (lookup_edges es s ≡ lookup t s')))

find_child-ChildFound :
    (exports : Bytes) (es : Edges) (count : ℕ) (p s : Bytes)
    → EdgesAt exports es count p
    → IsAscii s
    → (r : ℕ × Bytes) × (find_child count p s ≡ some r) × ChildFound exports es s r
unfolding find_child lookup_edges edges_height ◌>>=◌ ChildFound
find_child-ChildFound exports no_edge count p s e ascii = ((0, s), rw e, inl (refl, refl))
find_child-ChildFound exports (edge label t es) count p s
      (n, q, offset, r, ec, ep, nz, er, ne, at, rest) ascii =
    elim (Option-cases (strip_prefix label s)) [
      | inr (s', found) ↦ (
        (offset, s'),
        rw (ec, ep, match_edge_prefix label q s s' nz ascii found, er),
        inr (
          ne,
          strip_prefix-IsAscii label s s' ascii found,
          (t, at, omega arith, lookup_edge_found label s s' t es found),
        ),
      )
      | inl other ↦
          let (cur, passed) = match_edge_other label q s nz ascii other in
          let (x, found, what) = find_child-ChildFound exports es n r s rest ascii in
          let skip = lookup_edge_other label s t es other in
          (
            x,
            rw (ec, ep, passed, er) found,
            elim what [
              | inl (absent, missing) ↦ inl (absent, skip ∙ missing)
              | inr (present, still, (u, there, low, same)) ↦
                  inr (present, still, (u, there, omega arith, skip ∙ same))
            ],
          )
    ]

-- Where no export ends at a node, the lookup goes on with the edges.
lookup_plain : (es : Edges) (s : Bytes) → lookup (node none es) s ≡ lookup_edges es s
unfolding lookup
lookup_plain es [] = refl
lookup_plain es (c ∷ s) = refl

lookup_longer :
    (address : Option ℕ) (es : Edges) (s : Bytes)
    → is_empty s ≡ false
    → lookup (node address es) s ≡ lookup_edges es s
unfolding lookup is_empty
lookup_longer none es [] h = cc
lookup_longer (some a) es [] h = cc
lookup_longer none es (c ∷ s) h = refl
lookup_longer (some a) es (c ∷ s) h = refl

lookup_here : (a : ℕ) (es : Edges) (s : Bytes) → is_empty s ≡ true → lookup (node (some a) es) s ≡ a
unfolding lookup is_empty
lookup_here a es [] h = refl
lookup_here a es (c ∷ s) h = cc

-- Whether the walk stops at a node, and what it is to find if it does not.
Stops : Node → Bytes → ℕ → Bytes → Type 0
Stops (node address es) s size q =
    (((if size == 0 then false else is_empty s) ≡ true)
      × ((flags a : ℕ) × (r r' : Bytes) × (read_uleb128 q ≡ some (flags, r))
          × (read_uleb128 r ≡ some (a, r'))
          × (lookup (node address es) s ≡ a)))
    ⊎ (((if size == 0 then false else is_empty s) ≡ false)
        × (lookup (node address es) s ≡ lookup_edges es s))

Terminal-Stops :
    (address : Option ℕ) (es : Edges) (s : Bytes) (size : ℕ) (q : Bytes)
    → Terminal address size q
    → Stops (node address es) s size q
unfolding Stops
Terminal-Stops address es s size q (plain e) = inr (rw e, lookup_plain es s)
Terminal-Stops address es s size q (export {address = a} {flags = g} {r = r} {r' = r'} pos e e') =
    let sized : (size == 0) ≡ false = ground arith in
    rw sized (elim (Bool-cases (is_empty s)) [
      | inl here ↦ inl (here, (g, a, r, r', e, e', lookup_here a es s here))
      | inr longer ↦ inr (longer, lookup_longer (some a) es s longer)
    ])

bind_some : {A B : Type 0} (a : A) (f : A → Option B) → (some a >>= f) ≡ f a
unfolding ◌>>=◌
bind_some a f = refl

-- With fuel for the height of the tree the walk ends, inside of the trie, with what the tree has.
pub find_loop-lookup :
    (fuel : ℕ) (exports : Bytes) (t : Node) (p s : Bytes)
    → At exports t p
    → height t ≤ fuel
    → IsAscii s
    → find_loop fuel exports p s ≡ some (lookup t s)
unfolding find_loop height ChildFound Stops
find_loop-lookup zero exports (node address es) p s at h ascii = absurd (omega arith)
find_loop-lookup (suc fuel) exports (node address es) p s (size, q, count, r, ep, term, ec, edges) h
      ascii =
    elim (Terminal-Stops address es s size q term) [
      | inl (here, (g, a, u, u', e, e', same)) ↦
          rw (ep, bind_some, here, e, bind_some, e', bind_some, same)
      | inr (onward, same) ↦
          let ((offset, s'), found, what) =
            find_child-ChildFound exports es count r s edges ascii in
          elim what [
            | inl (absent, missing) ↦
                rw (ep, bind_some, onward, ec, bind_some, found, bind_some, absent, same, missing)
            | inr (present, still, (u, there, low, equal)) ↦
                let child : (offset == 0) ≡ false = ground arith in
                rw (ep, bind_some, onward, ec, bind_some, found, bind_some, child, same, equal)
                  (find_loop-lookup fuel exports u (drop offset exports) s' there (omega arith)
                    still)
          ]
    ]

-- With fuel for the height of the tree, frida_exports_trie_find of an ASCII name on the bytes of a
-- tree ends inside of the trie with the tree's lookup.
pub exports_trie_find-lookup :
    (fuel : ℕ) (exports : Bytes) (t : Node) (name : Bytes)
    → At exports t exports
    → height t ≤ fuel
    → IsAscii name
    → exports_trie_find fuel (some exports) name ≡ some (lookup t name)
unfolding exports_trie_find
exports_trie_find-lookup fuel exports t name at h ascii =
    find_loop-lookup fuel exports t exports name at h ascii
