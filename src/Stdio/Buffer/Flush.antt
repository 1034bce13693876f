-- ===== src/Stdio/Buffer/Flush.antt =====
-- frida_file_flush_write of lib/payload/libc-shim.c.
use frida_core.Base.{
  ℕ, zero, suc, ◌+◌, ◌-◌, ◌≡◌, ◌≤◌, ◌<◌, refl, sym, ◌∙◌, List, ◌++◌, take, drop, length, slice,
  ◌==◌, Bool-cases, inl, inr, arith, ==_iff, take_add, take-take, length-take, length-drop,
  append_assoc, append-nil,
}
use frida_core.Io.{M, pure, Returns, Returns-bind, Returns-pure, Returns-weaken}
use frida_core.Posix.{Kernel, Reply, done, failed, Documented}
use frida_core.Stdio.File.{File, Status, success, failure}
use frida_core.Stdio.Nointr.{write_nointr, write_nointr-Returns, WritePost}
use frida_core.Stdio.Buffer.{flush_loop, flush_write}

module _ (k : Kernel) (doc : Documented k) where
  open k use {World}
  open doc use {sent, signals}

  -- `start` has been sent before the loop. A failure leaves the count in `wlen` alone.
  abbrev pub FlushPost : File → List ℕ → World → File × Status → World → Type 0
  FlushPost f start w (f', success) w' =
      (f' ≡ record f { wlen = 0 })
      × (sent f.fd w' ≡ start ++ take f.wlen f.wbuf)
      × (signals w' ≤ signals w)
  FlushPost f start w (f', failure) w' =
      (e m : ℕ) × (0 < e)
      × (f' ≡ record f { err = e })
      × (m < f.wlen)
      × (sent f.fd w' ≡ start ++ take m f.wbuf)
      × (signals w' ≤ signals w)

  -- One write takes the bytes from `off` to `off + m`.
  sent_step :
      (f : File) (start : List ℕ) (off m : ℕ) (v w : World)
      → m ≤ f.wlen - off
      → sent f.fd v ≡ start ++ take off f.wbuf
      → sent f.fd w ≡ sent f.fd v ++ take m (slice off (f.wlen - off) f.wbuf)
      → sent f.fd w ≡ start ++ take (off + m) f.wbuf
  sent_step f start off m v w h p q =
      q
      ∙ rw (p, take-take m (f.wlen - off) (drop off f.wbuf) h, take_add off m f.wbuf)
          (append_assoc start _ _)

  -- What happened since `v` happened since `w`, if no signals came in between.
  earlier :
      (f : File) (start : List ℕ) (w v u : World) (r : File × Status)
      → signals v ≤ signals w
      → FlushPost f start v r u
      → FlushPost f start w r u
  earlier f start w v u (f', success) h p = (p.0, p.1, omega arith)
  earlier f start w v u (f', failure) h p = (p.0, p.1, p.2, p.3, p.4, p.5, omega arith)

  flush_loop-Returns :
      (fuel n : ℕ) (f : File) (off : ℕ) (start : List ℕ) (w : World)
      → f.wlen ≤ length f.wbuf
      → off ≤ f.wlen
      → f.wlen < off + n
      → signals w < fuel
      → sent f.fd w ≡ start ++ take off f.wbuf
      → Returns (flush_loop k fuel n f off w) (FlushPost f start w)
  unfolding flush_loop
  flush_loop-Returns fuel zero f off start w hb ho hn hs e = absurd (omega arith)
  flush_loop-Returns fuel (suc n) f off start w hb ho hn hs e = elim (Bool-cases (off == f.wlen)) [
    | inl end ↦ rw end (
        let same : off ≡ f.wlen = (==_iff off f.wlen).0 end in
        Returns-pure (FlushPost f start w) _ w (refl, rw same at e, omega arith))
    | inr more ↦ rw more (
        Returns-bind (WritePost k doc f.fd (slice off (f.wlen - off) f.wbuf) w)
          (FlushPost f start w) (write_nointr k fuel f.fd (slice off (f.wlen - off) f.wbuf)) _ w
          (write_nointr-Returns k doc fuel f.fd _ w hs)
          (next (λ m v. flush_loop-Returns fuel n f (off + m) start v hb) (ground arith)))
  ]
    where
      size : length (slice off (f.wlen - off) f.wbuf) ≡ f.wlen - off
      size = omega (arith, length-take (f.wlen - off) (drop off f.wbuf), length-drop off f.wbuf)

      next :
          ((m : ℕ) (v : World)
            → off + m ≤ f.wlen
            → f.wlen < off + m + n
            → signals v < fuel
            → sent f.fd v ≡ start ++ take (off + m) f.wbuf
            → Returns (flush_loop k fuel n f (off + m) v) (FlushPost f start v))
          → off < f.wlen
          → (r : Reply ℕ) (v : World) → WritePost k doc f.fd (slice off (f.wlen - off) f.wbuf) w r v
          → Returns
              ((elim r as (λ _. M World (File × Status)) [
                | done m ↦ flush_loop k fuel n f (off + m)
                | failed x ↦ pure (record f { err = x }, failure)
              ])
                v)
              (FlushPost f start w)
      next ih lt (done m) v (le, some_sent, now, fewer) =
          Returns-weaken (FlushPost f start v) (FlushPost f start w) _
            (ih m v (omega (arith, size)) (omega (arith, size)) (omega arith)
              (sent_step f start off m w v (omega (arith, size)) e now))
            (λ r u p. earlier f start w v u r fewer p)
      next ih lt (failed x) v (pos, same, fewer, _) =
          Returns-pure (FlushPost f start w) _ v (x, off, pos, refl, lt, same ∙ e, fewer)

  -- frida_file_flush_write ends, given fuel for the bytes and the signals.
  pub flush_write-Returns :
      (fuel : ℕ) (f : File) (w : World)
      → f.wlen ≤ length f.wbuf
      → f.wlen < fuel
      → signals w < fuel
      → Returns (flush_write k fuel f w) (FlushPost f (sent f.fd w) w)
  unfolding flush_write
  flush_write-Returns fuel f w hb hf hs =
      flush_loop-Returns fuel fuel f 0 (sent f.fd w) w hb (omega arith) (omega arith) hs
        (sym (append-nil _))
