-- ===== src/Stdio/Close.antt =====
-- fclose of lib/payload/libc-shim.c.
use frida_core.Base.{ℕ, Bool, true, false, if◌then◌else◌}
use frida_core.Io.{M, pure, ◌>>=◌}
use frida_core.Posix.{Kernel, done, failed}
use frida_core.Stdio.File.{File, Status, success, failure}
use frida_core.Stdio.Nointr.{close_nointr}
use frida_core.Stdio.Buffer.{flush_write}

module _ (k : Kernel) (fuel : ℕ) where
  open k use {World}

  -- fclose: what it returns, and whether the stream was taken off the table and released, which it
  -- is not if the descriptor cannot be closed. The result of fflush is not used.
  unfoldable pub fclose : File → M World (Status × Bool)
  fclose f = flush_write k fuel f >>= λ (f', st).
      if f'.close_fd
      then (close_nointr k fuel f'.fd >>= λ r. elim r [
        | done n ↦ pure (success, true)
        | failed e ↦ pure (failure, false)
      ])
      else pure (success, true)
