-- ===== src/Stdio/Output.antt =====
-- fwrite, fputc and fputs of lib/payload/libc-shim.c.
pub mod Written
pub mod Buffered
pub mod Direct
pub mod Fwrite
use frida_core.Base.{
  ℕ, ◌^◌, zero, suc, ◌+◌, ◌-◌, ◌*◌, ◌/◌, ◌%◌, Bool, true, false, ◌&&◌, ◌||◌, Option, none, some,
  List, [], ◌∷◌, take, drop, min, length, slice, splice, ◌==◌, if◌then◌else◌,
}
use frida_core.Io.{M, pure, out_of_fuel, ◌>>=◌}
use frida_core.Posix.{Kernel, Reply, done, failed}
use frida_core.Stdio.File.{File, Status, success, failure, is_unbuffered, is_line, size_mod}
use frida_core.Stdio.Nointr.{write_nointr}
use frida_core.Stdio.Buffer.{flush_write}

abbrev pub newline : ℕ
newline = 10

-- memchr (s, c, n) != NULL
unfoldable pub contains : ℕ → List ℕ → Bool
contains c [] = false
contains c (b ∷ bs) = b == c || contains c bs

-- The bytes that wait in the buffer.
abbrev pub waiting : File → List ℕ
waiting f = take f.wlen f.wbuf

-- memcpy (f->wbuf + f->wlen, chunk), then `f->wlen += take`
abbrev pub put_chunk : File → List ℕ → File
put_chunk f chunk = record f { wbuf = splice f.wlen chunk f.wbuf; wlen = f.wlen + length chunk }

-- MIN (total - off, space) bytes of the input. After a flush `wlen` is 0 and the space `wcap`.
abbrev pub next_chunk : File → List ℕ → ℕ → List ℕ
next_chunk f input off = slice off (min (length input - off) (f.wcap - f.wlen)) input

-- `return len` of a size_t as an int, of which these are the 32 bits; EOF is -1.
unfoldable pub int_or_eof : ℕ → Option ℕ
int_or_eof len = if len % 2 ^ 32 == 2 ^ 32 - 1 then none else some (len % 2 ^ 32)

module _ (k : Kernel) (fuel : ℕ) where
  open k use {World}

  -- `if (space == 0)` of the loop of fwrite
  unfoldable pub make_room : File → M World (File × Status)
  make_room f = if f.wcap - f.wlen == 0 then flush_write k fuel f else pure (f, success)

  -- `if (f->buf_mode == _IOLBF)` of the loop of fwrite
  unfoldable pub flush_line : File → List ℕ → M World (File × Status)
  flush_line f chunk =
      if is_line f.buf_mode && contains newline chunk
      then flush_write k fuel f
      else pure (f, success)

  -- The loop over the buffer; `input` is all the data, and `off` how much is taken.
  unfoldable pub buffered_loop : ℕ → File → List ℕ → ℕ → M World (File × ℕ)
  buffered_loop zero f input off = out_of_fuel
  buffered_loop (suc n) f input off =
      if off == length input
      then pure (f, off)
      else (make_room f >>= λ (f', st). elim st [
        | failure ↦ pure (f', off)
        | success ↦
            let chunk = next_chunk f' input off in
            flush_line (put_chunk f' chunk) chunk >>= λ (f'', st'). elim st' [
              | failure ↦ pure (f'', off + length chunk)
              | success ↦ buffered_loop n f'' input (off + length chunk)
            ]
      ])

  -- The loop of an unbuffered stream
  unfoldable pub direct_loop : ℕ → File → List ℕ → ℕ → M World (File × ℕ)
  direct_loop zero f input off = out_of_fuel
  direct_loop (suc n) f input off =
      if off == length input
      then pure (f, off)
      else (write_nointr k fuel f.fd (drop off input) >>= λ r. elim r [
        | done m ↦ direct_loop n f input (off + m)
        | failed e ↦ pure (record f { err = e }, off)
      ])

  -- Both loops, on the bytes at `ptr`; the result is `off`.
  unfoldable pub write_bytes : File → List ℕ → M World (File × ℕ)
  write_bytes f input =
      if is_unbuffered f.buf_mode then direct_loop fuel f input 0 else buffered_loop fuel f input 0

  -- fwrite (ptr, size, nmemb, stream); `size * nmemb` wraps.
  unfoldable pub fwrite : List ℕ → ℕ → ℕ → File → M World (File × ℕ)
  fwrite ptr size nmemb f =
      if size == 0 || nmemb == 0
      then pure (f, 0)
      else (write_bytes f (take (size * nmemb % size_mod) ptr) >>= λ (f', off).
          pure (f', off / size))

  -- fputc; `none` is EOF, and the character is an unsigned char.
  unfoldable pub fputc : ℕ → File → M World (File × Option ℕ)
  fputc c f =
      let ch = c % 256 in
      fwrite (ch ∷ []) 1 1 f >>= λ (f', n). pure (f', if n == 1 then some ch else none)

  -- fputs of a string without its terminator; `none` is EOF.
  unfoldable pub fputs : List ℕ → File → M World (File × Option ℕ)
  fputs s f = fwrite s 1 (length s) f >>= λ (f', n).
      pure (f', if n == length s then int_or_eof (length s) else none)
