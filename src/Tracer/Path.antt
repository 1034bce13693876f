-- ===== src/Tracer/Path.antt =====
-- The path of a file as write_attach_dentry_path of src/linux/helpers/syscall-tracer.bpf.c builds it
-- in its BufBuilder. A pointer to a dentry or a mount is a number, `none` NULL; what stands behind one
-- is a parameter.
pub mod Buffer
pub mod Text
use frida_core.Base.{
  ℕ, zero, suc, ◌+◌, ◌-◌, ◌%◌, Bool, true, false, ◌||◌, not, Option, none, some, List, [], ◌∷◌,
  ◌++◌, length, take, set, splice, ltb, leb, ◌==◌, if◌then◌else◌,
}
use Prim.Native.Nat.{bit_and}
use frida_core.Tracer.{Attachment, text}

abbrev pub max_path_depth : ℕ
max_path_depth = 18

abbrev pub max_buf_builder_size : ℕ
max_buf_builder_size = 1024

-- The fields that the walk reads; `name` is a string of the kernel without its terminator.
pub record Dentries : Type 0 where
  pub d_parent : ℕ → Option ℕ
  pub d_name : ℕ → Option (List ℕ)
  pub mnt_parent : ℕ → Option ℕ
  pub mnt_mountpoint : ℕ → Option ℕ
  pub mnt_root : ℕ → Option ℕ

-- struct _BufBuilder; `buf` has 2048 bytes.
pub record BufBuilder : Type 0 where
  pub buf : List ℕ
  pub pos : ℕ

abbrev pub bb_reset : BufBuilder → BufBuilder
bb_reset b = record b { pos = 0 }

unfoldable pub bb_putc : BufBuilder → ℕ → BufBuilder × Bool
bb_putc b c =
    if leb (max_buf_builder_size - 1) b.pos
    then (b, false)
    else (record { buf = set b.buf b.pos c; pos = b.pos + 1 }, true)

-- bpf_probe_read_kernel_str with a room of `cap`: what it stores, terminator included
abbrev pub kstr_read : ℕ → List ℕ → List ℕ
kstr_read cap kstr = take (cap - 1) kstr ++ (0 ∷ [])

unfoldable pub bb_append_kstr : BufBuilder → List ℕ → BufBuilder × ℕ
bb_append_kstr b kstr =
    let cap = bit_and (max_buf_builder_size - b.pos) (max_buf_builder_size - 1) in
    let read = kstr_read cap kstr in
    if leb (max_buf_builder_size - 1) b.pos
      || ltb (max_buf_builder_size - b.pos) 2
      || ltb cap 2
      || leb (length read) 1
    then (b, 0)
    else (
      record { buf = splice b.pos read b.buf; pos = b.pos + (length read - 1) },
      length read - 1,
    )

module _ (ds : Dentries) where
  open ds use {d_parent, d_name, mnt_parent, mnt_mountpoint, mnt_root}

  -- `d == mnt_root`
  unfoldable pub is_mnt_root : ℕ → ℕ → Bool
  is_mnt_root d mnt = elim (mnt_root mnt) [ none ↦ false | some r ↦ d == r ]

  -- The place a mount is mounted on, with the mount that this is in
  unfoldable pub mounted_on : ℕ → Option (ℕ × ℕ)
  mounted_on mnt = elim (mnt_parent mnt) [
    | none ↦ none
    | some parent ↦
        if parent == mnt
        then none
        else (elim (mnt_mountpoint mnt) [ none ↦ none | some mp ↦ some (mp, parent) ])
  ]

  -- The first loop, with `n` rounds to go: the chain of dentries, the last first. The chain has fewer
  -- than max_path_depth entries before the round, so its own test of `count` ends it with the rounds.
  unfoldable pub collect : ℕ → ℕ → ℕ → List ℕ → List ℕ
  collect zero d mnt chain = chain
  collect (suc n) d mnt chain =
      if is_mnt_root d mnt
      then (elim (mounted_on mnt) [ none ↦ chain | some (mp, parent) ↦ collect n mp parent chain ])
      else (elim (d_parent d) [
        | none ↦ d ∷ chain
        | some p ↦ elim (p == d) [ true ↦ d ∷ chain | false ↦ collect n p mnt (d ∷ chain) ]
      ])

  -- One name, with a slash in front unless it is the first; `false` is a break.
  unfoldable pub append_name : BufBuilder → ℕ → BufBuilder × Bool
  append_name b d = elim (d_name d) [
    | none ↦ (b, false)
    | some name ↦
        let (b', ok) = if b.pos == 1 then (b, true) else bb_putc b b'/' in
        let (b'', n) = bb_append_kstr b' name in if ok then (b'', not (n == 0)) else (b', false)
  ]

  -- The second loop, from the outermost dentry inwards
  unfoldable pub append_names : BufBuilder → List ℕ → BufBuilder
  append_names b [] = b
  append_names b (d ∷ chain) =
      let (b', ok) = append_name b d in let rest = append_names b' chain in if ok then rest else b'

  -- The terminator behind the names. The mask clears the lowest bit of `pos`.
  unfoldable pub terminate : BufBuilder → BufBuilder
  terminate b =
      if leb (max_buf_builder_size - 1) b.pos
      then record b { buf = set b.buf (max_buf_builder_size - 1) 0 }
      else (let pos = bit_and b.pos (max_buf_builder_size - 2) in
          record { buf = set b.buf pos 0; pos = pos + 1 })

  -- The text in the buffer for a dentry and its mount
  unfoldable pub build_path : BufBuilder → ℕ → ℕ → BufBuilder
  build_path b d mnt =
      let chain = collect max_path_depth d mnt [] in
      let (b', ok) = bb_putc (bb_reset b) b'/' in
      elim chain [ [] ↦ (bb_putc b' 0).0 | d' ∷ rest ↦ terminate (append_names b' (d' ∷ rest)) ]

  -- The bytes at `flush`
  unfoldable pub path_content : Option BufBuilder → ℕ → Option ℕ → Option ℕ → List ℕ
  path_content none dst_cap dentry mnt = []
  path_content (some b) dst_cap none mnt = []
  path_content (some b) dst_cap (some d) none = []
  path_content (some b) dst_cap (some d) (some mnt) =
      let b' = build_path b d mnt in take (if ltb dst_cap b'.pos then dst_cap else b'.pos) b'.buf

  -- write_attach_dentry_path: without a buffer, a dentry or a mount its size is 0.
  unfoldable pub write_attach_dentry_path :
      Option BufBuilder → ℕ → ℕ → Option ℕ → Option ℕ → Attachment
  write_attach_dentry_path scratch arg_index dst_cap dentry mnt =
      let content = path_content scratch dst_cap dentry mnt in
      record {
        type = text;
        arg_index = arg_index;
        capacity = dst_cap;
        size = length content;
        content = content;
      }
