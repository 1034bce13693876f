-- ===== src/Stdio/Buffer/Fill.antt =====
-- frida_file_fill_read of lib/payload/libc-shim.c on a buffered stream.
use frida_core.Base.{ℕ, ◌≡◌, ◌<◌, false, refl}
use frida_core.Io.{Returns, Returns-bind, Returns-pure}
use frida_core.Posix.{Kernel, Reply, Documented}
use frida_core.Base.{List}
use frida_core.Stdio.File.{File, Status, is_unbuffered}
use frida_core.Stdio.Nointr.{read_nointr, read_nointr-Returns, ReadPost}
use frida_core.Stdio.Buffer.{filled, fill_read}

module _ (k : Kernel) (doc : Documented k) where
  open k use {World}
  open doc use {signals}

  abbrev pub FillPost : File → World → File × Status → World → Type 0
  FillPost f w r w' = (x : Reply (List ℕ)) × ReadPost k doc f.fd f.rcap w x w' × (r ≡ filled f x)

  pub fill_read-FillPost :
      (fuel : ℕ) (f : File) (w : World)
      → is_unbuffered f.buf_mode ≡ false
      → signals w < fuel
      → Returns (fill_read k fuel f w) (FillPost f w)
  unfolding fill_read
  fill_read-FillPost fuel f w buffered hs = rw buffered (
      Returns-bind (ReadPost k doc f.fd f.rcap w) (FillPost f w) (read_nointr k fuel f.fd f.rcap) _
        w (read_nointr-Returns k doc fuel f.fd f.rcap w hs)
        (λ x w' p. Returns-pure (FillPost f w) (filled f x) w' (x, p, refl)))
