-- ===== src/Stdio/Buffer.antt =====
-- frida_file_flush_write and frida_file_fill_read of lib/payload/libc-shim.c.
pub mod Flush
pub mod Fill
use frida_core.Base.{
  ℕ, zero, suc, ◌+◌, ◌-◌, true, List, [], ◌∷◌, ◌++◌, drop, length, slice, ◌==◌, if◌then◌else◌,
}
use frida_core.Io.{M, pure, out_of_fuel, ◌>>=◌}
use frida_core.Posix.{Kernel, Reply, done, failed}
use frida_core.Stdio.File.{File, Status, success, failure, is_unbuffered}
use frida_core.Stdio.Nointr.{read_nointr, write_nointr}

-- What `read` stored, over the start of the buffer.
unfoldable pub filled : File → Reply (List ℕ) → File × Status
filled f (done []) = (record f { rpos = 0; rlen = 0; eof = true }, success)
filled f (done (b ∷ bs)) = (
  record f { rpos = 0; rlen = length (b ∷ bs); rbuf = (b ∷ bs) ++ drop (length (b ∷ bs)) f.rbuf },
  success,
)
filled f (failed e) = (record f { rpos = 0; rlen = 0; err = e }, failure)

module _ (k : Kernel) (fuel : ℕ) where
  open k use {World}

  -- `while (off != f->wlen)`, then `f->wlen = 0`
  unfoldable pub flush_loop : ℕ → File → ℕ → M World (File × Status)
  flush_loop zero f off = out_of_fuel
  flush_loop (suc n) f off =
      if off == f.wlen
      then pure (record f { wlen = 0 }, success)
      else (write_nointr k fuel f.fd (slice off (f.wlen - off) f.wbuf) >>= λ r. elim r [
        | done m ↦ flush_loop n f (off + m)
        | failed e ↦ pure (record f { err = e }, failure)
      ])

  -- frida_file_flush_write
  unfoldable pub flush_write : File → M World (File × Status)
  flush_write f = flush_loop fuel f 0

  -- frida_file_fill_read; its result is used only for being -1 or not.
  unfoldable pub fill_read : File → M World (File × Status)
  fill_read f =
      if is_unbuffered f.buf_mode
      then pure (record f { rpos = 0; rlen = 0 }, success)
      else (read_nointr k fuel f.fd f.rcap >>= λ r. pure (filled f r))
