-- ===== src/Stdio/Setup.antt =====
-- setvbuf, setbuf, setbuffer and setlinebuf of lib/payload/libc-shim.c. A buffer of the caller is the
-- list of its bytes; `bufsiz` is the platform's BUFSIZ.
use frida_core.Base.{
  ℕ, ◌≡◌, ◌<◌, refl, true, false, Option, none, some, List, [], ◌++◌, take, length, ap, sym, subst,
  ◌==◌, if◌then◌else◌, arith,
}
use frida_core.Io.{M, pure, ◌>>=◌, Returns, Returns-bind, Returns-pure}
use frida_core.Posix.{Kernel, Documented}
use frida_core.Stdio.File.{
  File, IsFile, BufMode, unbuffered, fully, line, Status, success, failure, is_unbuffered,
}
use frida_core.Stdio.Buffer.{flush_write}
use frida_core.Stdio.Buffer.Flush.{FlushPost, flush_write-Returns}

module _ (k : Kernel) (bufsiz : ℕ) where
  open k use {World, realloc}

  -- `if (size == 0) size = BUFSIZ`
  abbrev pub size_or_default : ℕ → ℕ
  size_or_default size = if size == 0 then bufsiz else size

  -- The read buffer of a buffered stream; one of the caller is dropped.
  unfoldable pub with_rbuf : ℕ → File → File
  with_rbuf size f = record f {
    rbuf = realloc (if f.owns_rbuf then f.rbuf else []) size;
    owns_rbuf = true;
    rcap = size;
    rpos = 0;
    rlen = 0;
  }

  -- The write buffer: the caller's, or one that the stream owns
  unfoldable pub with_wbuf : Option (List ℕ) → ℕ → File → File
  with_wbuf (some buf) size f = record f { wbuf = buf; owns_wbuf = false; wcap = size; wlen = 0 }
  with_wbuf none size f = record f {
    wbuf = realloc (if f.owns_wbuf then f.wbuf else []) size;
    owns_wbuf = true;
    wcap = size;
    wlen = 0;
  }

  abbrev pub without_buffers : File → File
  without_buffers f = record f {
    buf_mode = unbuffered;
    rbuf = [];
    owns_rbuf = false;
    wbuf = [];
    owns_wbuf = false;
    rcap = 0;
    wcap = 0;
    rpos = 0;
    rlen = 0;
    wlen = 0;
  }

  -- setvbuf after the flush
  unfoldable pub configured : Option (List ℕ) → BufMode → ℕ → File → File
  configured buf mode size f =
      if is_unbuffered mode
      then without_buffers f
      else with_wbuf buf (size_or_default size)
          (with_rbuf (size_or_default size) (record f { buf_mode = mode }))

  unfoldable pub setvbuf : ℕ → Option (List ℕ) → BufMode → ℕ → File → M World (File × Status)
  setvbuf fuel buf mode size f = flush_write k fuel f >>= λ (f', st). elim st [
    | failure ↦ pure (f', failure)
    | success ↦ pure (configured buf mode size f', success)
  ]

  unfoldable pub setbuf : ℕ → Option (List ℕ) → File → M World (File × Status)
  setbuf fuel none f = setvbuf fuel none unbuffered 0 f
  setbuf fuel (some buf) f = setvbuf fuel (some buf) fully bufsiz f

  unfoldable pub setlinebuf : ℕ → File → M World (File × Status)
  setlinebuf fuel f = setvbuf fuel none line 0 f

  unfoldable pub setbuffer : ℕ → Option (List ℕ) → ℕ → File → M World (File × Status)
  setbuffer fuel none size f = setvbuf fuel none unbuffered size f
  setbuffer fuel (some buf) size f = setvbuf fuel (some buf) fully size f

module _ (k : Kernel) (doc : Documented k) (bufsiz : ℕ) where
  open k use {World}
  open doc use {sent, signals}

  -- A buffer of the caller has the size that it is said to have.
  abbrev pub Fits : Option (List ℕ) → ℕ → Type 0
  Fits none size = Unit {0}
  Fits (some buf) size = length buf ≡ size_or_default k bufsiz size

  -- What holds of a stream that has just been set up.
  abbrev pub Configured : BufMode → File → File → Type 0
  Configured mode f g = IsFile g × (g.buf_mode ≡ mode) × (g.wlen ≡ 0) × (g.rlen ≡ 0) × (g.fd ≡ f.fd)

  buffered-Configured :
      (buf : Option (List ℕ)) (mode : BufMode) (size : ℕ) (f : File)
      → IsFile f
      → is_unbuffered mode ≡ false
      → 0 < size_or_default k bufsiz size
      → Fits buf size
      → Configured mode f (
          with_wbuf k bufsiz buf
            (size_or_default k bufsiz size)
            (with_rbuf k bufsiz (size_or_default k bufsiz size) (record f { buf_mode = mode })))
  unfolding with_rbuf with_wbuf
  buffered-Configured none mode size f v buffered hs fits = (
    record {
      rbuf_size = doc.length-realloc _ _;
      rpos_in = omega arith;
      rlen_in = omega arith;
      wbuf_size = doc.length-realloc _ _;
      wlen_in = omega arith;
      ungot_buf_size = v.ungot_buf_size;
      ungot_in = v.ungot_in;
      rcap_pos = λ _. hs;
      unread_none = λ _. refl;
      unwritten_none = λ _. refl;
      wcap_pos = λ _. hs;
    },
    refl,
    refl,
    refl,
    refl,
  )
  buffered-Configured (some buf) mode size f v buffered hs fits = (
    record {
      rbuf_size = doc.length-realloc _ _;
      rpos_in = omega arith;
      rlen_in = omega arith;
      wbuf_size = fits;
      wlen_in = omega arith;
      ungot_buf_size = v.ungot_buf_size;
      ungot_in = v.ungot_in;
      rcap_pos = λ _. hs;
      unread_none = λ _. refl;
      unwritten_none = λ _. refl;
      wcap_pos = λ _. hs;
    },
    refl,
    refl,
    refl,
    refl,
  )

  configured-Configured :
      (buf : Option (List ℕ)) (mode : BufMode) (size : ℕ) (f : File)
      → IsFile f
      → 0 < bufsiz
      → Fits buf size
      → Configured mode f (configured k bufsiz buf mode size f)
  unfolding configured
  configured-Configured buf unbuffered size f v hb fits = (
    record {
      rbuf_size = refl;
      rpos_in = omega arith;
      rlen_in = omega arith;
      wbuf_size = refl;
      wlen_in = omega arith;
      ungot_buf_size = v.ungot_buf_size;
      ungot_in = v.ungot_in;
      rcap_pos = λ e. ground arith;
      unread_none = λ _. refl;
      unwritten_none = λ _. refl;
      wcap_pos = λ e. ground arith;
    },
    refl,
    refl,
    refl,
    refl,
  )
  configured-Configured buf fully size f v hb fits =
      buffered-Configured buf fully size f v refl (ground arith) fits
  configured-Configured buf line size f v hb fits =
      buffered-Configured buf line size f v refl (ground arith) fits

  -- What setvbuf promises.
  abbrev pub SetvbufPost : File → World → BufMode → File × Status → World → Type 0
  SetvbufPost f w mode (f', success) w' =
      Configured mode f f' × (sent f.fd w' ≡ sent f.fd w ++ take f.wlen f.wbuf)
  SetvbufPost f w mode (f', failure) w' =
      (f'.buf_mode ≡ f.buf_mode) × (f'.wlen ≡ f.wlen) × (f'.wbuf ≡ f.wbuf) × (0 < f'.err)

  -- On a sound stream, if a buffer of the caller has the size that it is said to have and the fuel
  -- exceeds the waiting bytes and the signals to come, setvbuf ends. It sends the waiting bytes and
  -- leaves a sound stream of the new mode with empty buffers, or keeps mode and waiting bytes and
  -- sets the error indicator.
  pub setvbuf-SetvbufPost :
      (fuel : ℕ) (buf : Option (List ℕ)) (mode : BufMode) (size : ℕ) (f : File) (w : World)
      → IsFile f
      → 0 < bufsiz
      → Fits buf size
      → f.wlen < fuel
      → signals w < fuel
      → Returns (setvbuf k bufsiz fuel buf mode size f w) (SetvbufPost f w mode)
  unfolding setvbuf
  setvbuf-SetvbufPost fuel buf mode size f w v hb fits hf hs =
      Returns-bind (FlushPost k doc f (sent f.fd w) w) (SetvbufPost f w mode) (flush_write k fuel f)
        _ w (flush_write-Returns k doc fuel f w (omega (arith, v.wbuf_size, v.wlen_in)) hf hs) go
    where
      flushed : IsFile (record f { wlen = 0 })
      flushed = record {
        rbuf_size = v.rbuf_size;
        rpos_in = v.rpos_in;
        rlen_in = v.rlen_in;
        wbuf_size = v.wbuf_size;
        wlen_in = omega arith;
        ungot_buf_size = v.ungot_buf_size;
        ungot_in = v.ungot_in;
        rcap_pos = v.rcap_pos;
        unread_none = v.unread_none;
        unwritten_none = λ _. refl;
        wcap_pos = v.wcap_pos;
      }

      go :
          (r : File × Status) (w' : World)
          → FlushPost k doc f (sent f.fd w) w r w'
          → Returns {A = File × Status}
              ((elim r.1 as (λ _. M World (File × Status)) [
                | failure ↦ pure (r.0, failure)
                | success ↦ pure (configured k bufsiz buf mode size r.0, success)
              ])
                w')
              (SetvbufPost f w mode)
      go (g, success) w' (e, all_sent, _) = rw e (
          Returns-pure (SetvbufPost f w mode)
            (configured k bufsiz buf mode size (record f { wlen = 0 }), success) w'
            (configured-Configured buf mode size (record f { wlen = 0 }) flushed hb fits, all_sent))
      go (g, failure) w' (err, m, pos, e, _, _, _) =
          Returns-pure (SetvbufPost f w mode) (g, failure) w'
            (
              ap (λ (x : File). x.buf_mode) e,
              ap (λ (x : File). x.wlen) e,
              ap (λ (x : File). x.wbuf) e,
              subst (λ (x : File). 0 < x.err) (sym e) pos,
            )
