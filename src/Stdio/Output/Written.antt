-- ===== src/Stdio/Output/Written.antt =====
-- What the parts of fwrite do to the bytes that are on their way: those sent, then those waiting.
use frida_core.Base.{
  ℕ, ◌+◌, ◌-◌, ◌≡◌, ◌≤◌, ◌<◌, refl, sym, ap, ◌∙◌, false, List, ◌++◌, take, drop, length, ◌==◌,
  Bool-cases, inl, inr, arith, splice, length-take, length-drop, append_assoc, append-nil,
  length-append, take-append, ◌&&◌,
}
use frida_core.Io.{Returns, Returns-pure, Returns-weaken}
use frida_core.Posix.{Kernel, Documented}
use frida_core.Stdio.File.{File, IsFile, Status, success, failure, is_unbuffered, is_line}
use frida_core.Stdio.Buffer.{flush_write}
use frida_core.Stdio.Buffer.Flush.{FlushPost, flush_write-Returns}
use frida_core.Stdio.Output.{waiting, put_chunk, make_room, flush_line, contains, newline}

module _ (k : Kernel) (doc : Documented k) where
  open k use {World}
  open doc use {sent, signals}

  -- The bytes on their way down a descriptor
  abbrev pub on_the_way : File → World → List ℕ
  on_the_way f w = sent f.fd w ++ waiting f

  -- The stream is the same one, and it is sound.
  pub record Stays (f : File) (w : World) (f' : File) (w' : World) : Type 0 where
    pub valid : IsFile f'
    pub same_fd : f'.fd ≡ f.fd
    pub same_mode : f'.buf_mode ≡ f.buf_mode
    pub same_wcap : f'.wcap ≡ f.wcap
    pub same_ungot : f'.ungot_len ≡ f.ungot_len
    pub fewer : signals w' ≤ signals w

  pub Stays-refl : (f : File) (w : World) → IsFile f → Stays f w f w
  Stays-refl f w v = record {
    valid = v;
    same_fd = refl;
    same_mode = refl;
    same_wcap = refl;
    same_ungot = refl;
    fewer = omega arith;
  }

  pub Stays-trans : (f g h : File) (u v w : World) → Stays f u g v → Stays g v h w → Stays f u h w
  Stays-trans f g h u v w s t = record {
    valid = t.valid;
    same_fd = t.same_fd ∙ s.same_fd;
    same_mode = t.same_mode ∙ s.same_mode;
    same_wcap = t.same_wcap ∙ s.same_wcap;
    same_ungot = t.same_ungot ∙ s.same_ungot;
    fewer = omega (arith, s.fewer, t.fewer);
  }

  -- On success the bytes on their way are `all`; a failure shows in `err`.
  abbrev pub Written : File → World → List ℕ → File × Status → World → Type 0
  Written f w all (f', success) w' = Stays f w f' w' × (f'.err ≡ f.err) × (on_the_way f' w' ≡ all)
  Written f w all (f', failure) w' = Stays f w f' w' × (0 < f'.err)

  flush-Stays :
      (f : File) (w w' : World)
      → IsFile f
      → signals w' ≤ signals w
      → Stays f w (record f { wlen = 0 }) w'
  flush-Stays f w w' v h = record {
    valid = ground arith;
    same_fd = refl;
    same_mode = refl;
    same_wcap = refl;
    same_ungot = refl;
    fewer = h;
  }

  pub err-Stays :
      (f : File) (e : ℕ) (w w' : World)
      → IsFile f
      → signals w' ≤ signals w
      → Stays f w (record f { err = e }) w'
  err-Stays f e w w' v h = record {
    valid = ground arith;
    same_fd = refl;
    same_mode = refl;
    same_wcap = refl;
    same_ungot = refl;
    fewer = h;
  }

  flush-Written :
      (f : File) (w : World) (r : File × Status) (w' : World)
      → IsFile f
      → FlushPost k doc f (sent f.fd w) w r w'
      → Written f w (on_the_way f w) r w'
  flush-Written f w (f', success) w' v (e, all, h) =
      rw e (flush-Stays f w w' v h, refl, append-nil _ ∙ all)
  flush-Written f w (f', failure) w' v (x, m, pos, e, _, _, h) = rw e (err-Stays f x w w' v h, pos)

  module _ (fuel : ℕ) (f : File) (w : World) (v : IsFile f) (enough : f.wcap < fuel)
      (patient : signals w < fuel) where
    pub flush_write-Written : Returns (flush_write k fuel f w) (Written f w (on_the_way f w))
    flush_write-Written =
        Returns-weaken (FlushPost k doc f (sent f.fd w) w) (Written f w (on_the_way f w)) _
          (flush_write-Returns k doc fuel f w (omega arith) (omega arith) patient)
          (λ r w'. flush-Written f w r w' v)

    -- After `make_room` there is room.
    pub make_room-Written :
        is_unbuffered f.buf_mode ≡ false
        → Returns
            (make_room k fuel f w)
            (λ r w'. Written f w (on_the_way f w) r w' × (r.1 ≡ success → r.0.wlen < r.0.wcap))
    unfolding make_room
    make_room-Written buffered = elim (Bool-cases (f.wcap - f.wlen == 0)) [
      | inl full ↦ rw full (
          Returns-weaken (FlushPost k doc f (sent f.fd w) w) _ _
            (flush_write-Returns k doc fuel f w (omega arith) (omega arith) patient)
            (λ r w' p. (flush-Written f w r w' v p, roomy r w' p)))
      | inr room ↦ rw room (
          Returns-pure
            (λ r w'. Written f w (on_the_way f w) r w' × (r.1 ≡ success → r.0.wlen < r.0.wcap))
            (f, success) w ((Stays-refl f w v, refl, refl), λ _. ground arith))
    ]
      where
        roomy :
            (r : File × Status) (w' : World)
            → FlushPost k doc f (sent f.fd w) w r w'
            → r.1 ≡ success
            → r.0.wlen < r.0.wcap
        roomy (f', success) w' (e, _, _) _ = rw e (v.wcap_pos buffered)
        roomy (f', failure) w' _ x = cc

    pub flush_line-Written :
        (chunk : List ℕ) → Returns (flush_line k fuel f chunk w) (Written f w (on_the_way f w))
    unfolding flush_line
    flush_line-Written chunk = elim (Bool-cases (is_line f.buf_mode && contains newline chunk)) [
      | inl ends ↦ rw ends flush_write-Written
      | inr goes_on ↦ rw goes_on (
          Returns-pure (Written f w (on_the_way f w)) (f, success) w (Stays-refl f w v, refl, refl))
    ]

  length-splice :
      (at : ℕ) (src dst : List ℕ)
      → at + length src ≤ length dst
      → length (splice at src dst) ≡ length dst
  length-splice at src dst h = omega (
    arith,
    length-append (take at dst) (src ++ drop (at + length src) dst),
    length-append src (drop (at + length src) dst),
    length-take at dst,
    length-drop (at + length src) dst,
  )

  -- A chunk that fits is appended to the bytes that wait.
  pub waiting-put_chunk :
      (f : File) (chunk : List ℕ)
      → IsFile f
      → f.wlen + length chunk ≤ f.wcap
      → waiting (put_chunk f chunk) ≡ waiting f ++ chunk
  waiting-put_chunk f chunk v h =
      ap (take (f.wlen + length chunk)) (sym (append_assoc (take f.wlen f.wbuf) chunk _))
      ∙ take-append (f.wlen + length chunk) (take f.wlen f.wbuf ++ chunk) _
          (omega (arith, length-append (take f.wlen f.wbuf) chunk, length-take f.wlen f.wbuf))

  pub put_chunk-Stays :
      (f : File) (chunk : List ℕ) (w : World)
      → IsFile f
      → is_unbuffered f.buf_mode ≡ false
      → f.wlen + length chunk ≤ f.wcap
      → Stays f w (put_chunk f chunk) w
  put_chunk-Stays f chunk w v buffered h = record {
    valid = ground (arith, length-splice f.wlen chunk f.wbuf);
    same_fd = refl;
    same_mode = refl;
    same_wcap = refl;
    same_ungot = refl;
    fewer = omega arith;
  }
