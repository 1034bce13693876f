-- ===== src/Tracer/Path/Text.antt =====
-- The path that write_attach_dentry_path of src/linux/helpers/syscall-tracer.bpf.c attaches.
use frida_core.Base.{
  ℕ, ◌+◌, ◌*◌, ◌/◌, ◌≤◌, ◌<◌, ◌≡◌, refl, ap, subst, true, false, some, List, [], ◌∷◌, ◌++◌,
  append_assoc, append-nil, length, length-append, take, ◌==◌, arith,
}
use frida_core.Tracer.Path.{
  Dentries, BufBuilder, max_path_depth, bb_reset, bb_putc, collect, append_name, append_names,
  terminate, build_path, path_content,
}
use frida_core.Tracer.Path.Buffer.{Holds, bb_putc-Holds, bb_append_kstr-Holds, terminate-content}

-- The names of the dentries, none of them empty
abbrev pub AreNames : Dentries → List ℕ → List (List ℕ) → Type 0
AreNames ds [] [] = Unit {0}
AreNames ds [] (n ∷ ns) = ⊥
AreNames ds (d ∷ c) [] = ⊥
AreNames ds (d ∷ c) (n ∷ ns) = (ds.d_name d ≡ some n) × (1 ≤ length n) × AreNames ds c ns

-- Each name behind a slash
abbrev pub slashed : List (List ℕ) → List ℕ
slashed [] = []
slashed (n ∷ ns) = b'/' ∷ (n ++ slashed ns)

module _ (ds : Dentries) where
  -- A name behind a slash, or the first, whose slash stands already
  append_name-Holds :
      (b : BufBuilder) (d : ℕ) (text name : List ℕ)
      → Holds b text
      → 1 < length text
      → ds.d_name d ≡ some name
      → 1 ≤ length name
      → length text + length name < 1023
      → ((append_name ds b d).1 ≡ true) × Holds (append_name ds b d).0 (text ++ (b'/' ∷ name))
  unfolding append_name
  append_name-Holds b d text name h later found named fits =
      let apart : (b.pos == 1) ≡ false = ground (arith, h.ends) in
      let (ok, put) = bb_putc-Holds b text b'/' h (omega arith) in
      let len = length-append text (b'/' ∷ []) in
      let (n, app) =
        bb_append_kstr-Holds (bb_putc b b'/').0 (text ++ (b'/' ∷ [])) name put (omega (arith, len))
          named (omega (arith, len)) in
      rw (found, append_name, apart, ok, n)
        (ground arith, subst (Holds _) (append_assoc text (b'/' ∷ []) name) app)

  append_name-first :
      (b : BufBuilder) (d : ℕ) (name : List ℕ)
      → Holds b (b'/' ∷ [])
      → ds.d_name d ≡ some name
      → 1 ≤ length name
      → length name < 1023
      → ((append_name ds b d).1 ≡ true) × Holds (append_name ds b d).0 (b'/' ∷ name)
  unfolding append_name
  append_name-first b d name h found named fits =
      let begun : (b.pos == 1) ≡ true = ground (arith, h.ends) in
      let (n, app) = bb_append_kstr-Holds b (b'/' ∷ []) name h (omega arith) named (omega arith) in
      rw (found, append_name, begun, n) (ground arith, app)

  append_names-Holds :
      (chain : List ℕ) (names : List (List ℕ)) (b : BufBuilder) (text : List ℕ)
      → AreNames ds chain names
      → Holds b text
      → 1 < length text
      → length (text ++ slashed names) < 1024
      → Holds (append_names ds b chain) (text ++ slashed names)
  unfolding append_names
  append_names-Holds [] [] b text named h begun fits = rw (append-nil text) h
  append_names-Holds [] (name ∷ names) b text named h begun fits = elim named [ ]
  append_names-Holds (d ∷ c) [] b text named h begun fits = elim named [ ]
  append_names-Holds (d ∷ c) (name ∷ names) b text (found, some_bytes, named) h begun fits =
      let len = length-append text (slashed (name ∷ names)) in
      let len' = length-append name (slashed names) in
      let (ok, one) =
        append_name-Holds b d text name h begun found some_bytes (omega (arith, len, len')) in
      let e : (text ++ (b'/' ∷ name)) ++ slashed names ≡ text ++ slashed (name ∷ names) =
        append_assoc text (b'/' ∷ name) (slashed names) in
      let longer = length-append text (b'/' ∷ name) in
      rw ok (
        subst (Holds _) e (
          append_names-Holds c names (append_name ds b d).0 (text ++ (b'/' ∷ name)) named one
            (omega (arith, longer)) (rw e fits)))

  build_path-walk :
      (b : BufBuilder) (d mnt e : ℕ) (chain : List ℕ)
      → collect ds max_path_depth d mnt [] ≡ e ∷ chain
      → build_path ds b d mnt
        ≡ terminate ds (append_names ds (bb_putc (bb_reset b) b'/').0 (e ∷ chain))
  unfolding build_path
  build_path-walk b d mnt e chain walk =
      let b' = (bb_putc (bb_reset b) b'/').0 in
      ap
        (λ c. elim c as (λ _. BufBuilder) [
          | [] ↦ (bb_putc b' 0).0
          | d' ∷ rest ↦ terminate ds (append_names ds b' (d' ∷ rest))
        ])
        walk

  build_path-Holds :
      (b : BufBuilder) (d : ℕ) (chain : List ℕ) (name : List ℕ) (names : List (List ℕ))
      → length b.buf ≡ 2048
      → AreNames ds (d ∷ chain) (name ∷ names)
      → length (slashed (name ∷ names)) < 1023
      → Holds (append_names ds (bb_putc (bb_reset b) b'/').0 (d ∷ chain)) (slashed (name ∷ names))
  unfolding append_names
  build_path-Holds b d chain name names sized (found, some_bytes, named) fits =
      let len = length-append name (slashed names) in
      let empty : Holds (bb_reset b) [] = record {
        rest = b.buf;
        starts = refl;
        ends = refl;
        sized = omega (arith, sized);
      } in
      let (ok, put) = bb_putc-Holds (bb_reset b) [] b'/' empty (omega arith) in
      let (ok', one) =
        append_name-first (bb_putc (bb_reset b) b'/').0 d name put found some_bytes
          (omega (arith, len)) in
      rw ok' (append_names-Holds chain names _ (b'/' ∷ name) named one (omega arith) (omega arith))

  -- With a buffer of 2048 bytes, and for a file whose walk meets at least one dentry, all with names
  -- that are not empty and fit the attachment together, the attachment holds the names from the
  -- outermost on, each behind a slash, and a terminator. If the text has an odd length, its last
  -- character is lost.
  pub path_content-slashed :
      (b : BufBuilder) (d mnt dst_cap : ℕ) (e : ℕ) (chain : List ℕ) (name : List ℕ)
      (names : List (List ℕ))
      → length b.buf ≡ 2048
      → collect ds max_path_depth d mnt [] ≡ e ∷ chain
      → AreNames ds (e ∷ chain) (name ∷ names)
      → length (slashed (name ∷ names)) < dst_cap
      → dst_cap ≤ 1023
      → let text = slashed (name ∷ names) in
        path_content ds (some b) dst_cap (some d) (some mnt)
        ≡ take (length text / 2 * 2) text ++ (0 ∷ [])
  unfolding path_content
  path_content-slashed b d mnt dst_cap e chain name names sized walk named fits small =
      rw (build_path-walk b d mnt e chain walk) (
        terminate-content ds _ (slashed (name ∷ names)) dst_cap
          (build_path-Holds b e chain name names sized named (omega arith)) fits small)
