-- ===== src/Stdio/Input.antt =====
-- getc, ungetc, fread and fgets of lib/payload/libc-shim.c.
pub mod View
pub mod Reads
pub mod Getc
pub mod Fgets
pub mod Fread
use frida_core.Base.{
  ℕ, zero, suc, ◌+◌, ◌-◌, ◌*◌, ◌/◌, ◌%◌, Bool, true, false, ◌||◌, Option, none, some, List, [], ◌∷◌,
  ◌++◌, min, length, slice, set, get_or, ltb, ◌==◌, if◌then◌else◌,
}
use frida_core.Io.{M, pure, out_of_fuel, ◌>>=◌}
use frida_core.Posix.{Kernel, Reply, done, failed}
use frida_core.Stdio.File.{File, Status, success, failure, is_unbuffered, size_mod, ungot_size}
use frida_core.Stdio.Nointr.{read_nointr}
use frida_core.Stdio.Buffer.{fill_read}

-- `return f->ungot_buf[--f->ungot_len]`
abbrev pub take_ungot : File → File × Option ℕ
take_ungot f =
    (record f { ungot_len = f.ungot_len - 1 }, some (get_or f.ungot_buf (f.ungot_len - 1) 0))

-- `return f->rbuf[f->rpos++]`
abbrev pub take_buffered : File → File × Option ℕ
take_buffered f = (record f { rpos = f.rpos + 1 }, some (get_or f.rbuf f.rpos 0))

-- What an unbuffered stream makes of a read of one byte.
unfoldable pub take_direct : File → Reply (List ℕ) → File × Option ℕ
take_direct f (done []) = (record f { eof = true }, none)
take_direct f (done (b ∷ bs)) = (f, some b)
take_direct f (failed e) = (record f { err = e }, none)

-- After the buffer was filled: -1, nothing, or a first byte.
unfoldable pub take_filled : File → Status → File × Option ℕ
take_filled f failure = (f, none)
take_filled f success = if f.rlen == 0 then (f, none) else take_buffered f

module _ (k : Kernel) (fuel : ℕ) where
  open k use {World}

  -- getc_unlocked, and so getc and __srget; `none` is EOF.
  unfoldable pub getc : File → M World (File × Option ℕ)
  getc f =
      if ltb 0 f.ungot_len
      then pure (take_ungot f)
      else (if is_unbuffered f.buf_mode
          then (read_nointr k fuel f.fd 1 >>= λ r. pure (take_direct f r))
          else (if f.rpos == f.rlen
              then (fill_read k fuel f >>= λ (f', st). pure (take_filled f' st))
              else pure (take_buffered f)))

  -- The loop of fgets: `room` is `size - 1 - i`, and `s` what is stored.
  unfoldable pub fgets_loop : ℕ → File → List ℕ → M World (File × List ℕ)
  fgets_loop zero f s = pure (f, s)
  fgets_loop (suc room) f s = getc f >>= λ (f', c). elim c [
    | none ↦ pure (f', s)
    | some b ↦
        let rest = fgets_loop room f' (s ++ (b ∷ [])) in
        if b == 10 then pure (f', s ++ (b ∷ [])) else rest
  ]

  -- fgets: the string that it stores, without its terminator, or NULL.
  unfoldable pub fgets : ℕ → File → M World (File × Option (List ℕ))
  fgets size f =
      fgets_loop (size - 1) f [] >>= λ (f', s). pure (f', if length s == 0 then none else some s)

  -- One round of the loop of fread; the `true` says `break`. It adds to what was read.
  unfoldable pub fread_more : File → ℕ → M World (File × List ℕ × Bool)
  fread_more f left =
      if ltb 0 f.ungot_len
      then pure (
        record f { ungot_len = f.ungot_len - 1 },
        get_or f.ungot_buf (f.ungot_len - 1) 0 ∷ [],
        false,
      )
      else (if is_unbuffered f.buf_mode
          then (read_nointr k fuel f.fd left >>= λ r. elim r [
            | failed e ↦ pure (record f { err = e }, [], true)
            | done bs ↦
                pure
                  (if length bs == 0 then (record f { eof = true }, [], true) else (f, bs, false))
          ])
          else ((if f.rpos == f.rlen then fill_read k fuel f else pure (f, success)) >>= λ (f', st).
              elim st [
                | failure ↦ pure (f', [], true)
                | success ↦ pure (
                    if f'.rlen == 0 then (f', [], true) else (
                      record f' { rpos = f'.rpos + min left (f'.rlen - f'.rpos) },
                      slice f'.rpos (min left (f'.rlen - f'.rpos)) f'.rbuf,
                      false,
                    ))
              ]))

  -- `while (got != want)`; `out` is what was read.
  unfoldable pub fread_loop : ℕ → File → ℕ → List ℕ → M World (File × List ℕ)
  fread_loop zero f want out = out_of_fuel
  fread_loop (suc n) f want out =
      if length out == want
      then pure (f, out)
      else (fread_more f (want - length out) >>= λ (f', bs, stop). elim stop [
        | true ↦ pure (f', out ++ bs)
        | false ↦ fread_loop n f' want (out ++ bs)
      ])

  -- fread: the bytes stored at `ptr`, and the items that they make up.
  unfoldable pub fread : ℕ → ℕ → File → M World (File × List ℕ × ℕ)
  fread size nmemb f =
      if size == 0 || nmemb == 0
      then pure (f, [], 0)
      else (fread_loop fuel f (size * nmemb % size_mod) [] >>= λ (f', out).
          pure (f', out, length out / size))

-- ungetc; `none` as the character is EOF, and as the result a refusal.
unfoldable pub ungetc : Option ℕ → File → File × Option ℕ
ungetc none f = (f, none)
ungetc (some c) f = if f.ungot_len == ungot_size then (f, none) else (
  record f {
    ungot_buf = set f.ungot_buf f.ungot_len (c % 256);
    ungot_len = f.ungot_len + 1;
    eof = false;
  },
  some c,
)
