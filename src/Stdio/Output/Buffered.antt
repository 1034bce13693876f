-- ===== src/Stdio/Output/Buffered.antt =====
-- The loop of fwrite of lib/payload/libc-shim.c over the buffer.
use frida_core.Base.{
  ℕ, zero, suc, ◌+◌, ◌-◌, ◌≡◌, ◌≤◌, ◌<◌, ◌⊎◌, refl, sym, ap, ◌∙◌, false, List, ◌++◌, take, drop,
  length, ◌==◌, Bool-cases, inl, inr, arith, ==_iff, take_add, take_all, length-take, length-drop,
  append_assoc, min,
}
use frida_core.Io.{M, pure, ◌>>=◌, Returns, Returns-bind, Returns-pure, Returns-weaken}
use frida_core.Posix.{Kernel, Documented}
use frida_core.Stdio.File.{File, IsFile, Status, success, failure, is_unbuffered}
use frida_core.Stdio.Output.{waiting, put_chunk, next_chunk, make_room, flush_line, buffered_loop}
use frida_core.Stdio.Output.Written.{
  on_the_way, Stays, Stays-refl, Stays-trans, Written, make_room-Written, flush_line-Written,
  waiting-put_chunk, put_chunk-Stays,
}

module _ (k : Kernel) (doc : Documented k) where
  open k use {World}
  open doc use {sent, signals}

  -- Either all was taken and `all` is on its way, or the error indicator is set.
  pub record Wrote (f : File) (w : World) (all : List ℕ) (total : ℕ) (r : File × ℕ) (w' : World)
      : Type 0 where
    pub stays : Stays k doc f w r.0 w'
    pub taken : r.1 ≤ total
    pub outcome :
        ((r.0.err ≡ f.err) × (r.1 ≡ total) × (on_the_way k doc r.0 w' ≡ all)) ⊎ (0 < r.0.err)

  pub Wrote-after :
      (f g : File) (w v : World) (all : List ℕ) (total : ℕ) (r : File × ℕ) (u : World)
      → Stays k doc f w g v
      → g.err ≡ f.err
      → Wrote g v all total r u
      → Wrote f w all total r u
  Wrote-after f g w v all total r u s e p = record {
    stays = Stays-trans k doc f g r.0 w v u s p.stays;
    taken = p.taken;
    outcome = elim p.outcome [ inl (x, y, z) ↦ inl (x ∙ e, y, z) | inr h ↦ inr h ];
  }

  length-next_chunk :
      (f : File) (input : List ℕ) (off : ℕ)
      → length (next_chunk f input off) ≡ min (length input - off) (f.wcap - f.wlen)
  length-next_chunk f input off = omega (
    arith,
    length-take (min (length input - off) (f.wcap - f.wlen)) (drop off input),
    length-drop off input,
  )

  -- The chunk is what comes next in the input.
  take-next_chunk :
      (f : File) (input : List ℕ) (off : ℕ)
      → take (off + length (next_chunk f input off)) input
        ≡ take off input ++ next_chunk f input off
  take-next_chunk f input off =
      rw (length-next_chunk f input off)
        (take_add off (min (length input - off) (f.wcap - f.wlen)) input)

  module _ (fuel : ℕ) (input start : List ℕ) where
    -- A round whose room is made: the chunk is copied, and flushed if a line ends in it.
    chunk-Written :
        (f : File) (w : World) (off : ℕ)
        → IsFile f
        → is_unbuffered f.buf_mode ≡ false
        → f.wcap < fuel
        → signals w < fuel
        → f.wlen < f.wcap
        → off ≤ length input
        → on_the_way k doc f w ≡ start ++ take off input
        → let chunk = next_chunk f input off in
          Returns
            (flush_line k fuel (put_chunk f chunk) chunk w)
            (Written k doc f w (start ++ take (off + length chunk) input))
    chunk-Written f w off v buffered hf hs room ho e =
        Returns-weaken (Written k doc g w (on_the_way k doc g w)) _ _
          (flush_line-Written k doc fuel g w stays.valid hf hs chunk) widen
      where
        chunk : List ℕ
        chunk = next_chunk f input off

        g : File
        g = put_chunk f chunk

        fits : f.wlen + length chunk ≤ f.wcap
        fits = omega (arith, length-next_chunk f input off)

        stays : Stays k doc f w g w
        stays = put_chunk-Stays k doc f chunk w v buffered fits

        now : on_the_way k doc g w ≡ start ++ take (off + length chunk) input
        now =
            rw (waiting-put_chunk k doc f chunk v fits, take-next_chunk f input off)
              (sym (append_assoc (sent f.fd w) (waiting f) chunk)
                ∙ ap (λ x. x ++ chunk) e
                ∙ append_assoc start (take off input) chunk)

        widen :
            (r : File × Status) (w' : World)
            → Written k doc g w (on_the_way k doc g w) r w'
            → Written k doc f w (start ++ take (off + length chunk) input) r w'
        widen (f', success) w' (s, x, y) = (Stays-trans k doc f g f' w w w' stays s, x, y ∙ now)
        widen (f', failure) w' (s, x) = (Stays-trans k doc f g f' w w w' stays s, x)

    -- One round of the loop, given what the rest of it does.
    round :
        (n : ℕ) (f : File) (w : World) (off : ℕ)
        → IsFile f
        → is_unbuffered f.buf_mode ≡ false
        → f.wcap < fuel
        → signals w < fuel
        → off < length input
        → on_the_way k doc f w ≡ start ++ take off input
        → ((g : File) (v : World) (m : ℕ)
            → Stays k doc f w g v
            → 0 < m
            → off + m ≤ length input
            → on_the_way k doc g v ≡ start ++ take (off + m) input
            → Returns
                (buffered_loop k fuel n g input (off + m) v)
                (Wrote g v (start ++ input) (length input)))
        → (r : File × Status) (v : World)
        → Written k doc f w (on_the_way k doc f w) r v × (r.1 ≡ success → r.0.wlen < r.0.wcap)
        → Returns
            ((elim r.1 as (λ _. M World (File × ℕ)) [
              | success ↦
                  flush_line k fuel
                    (put_chunk r.0 (next_chunk r.0 input off))
                    (next_chunk r.0 input off)
                  >>= λ (f'', st'). elim st' [
                    | success ↦
                        buffered_loop k fuel n f'' input (off + length (next_chunk r.0 input off))
                    | failure ↦ pure (f'', off + length (next_chunk r.0 input off))
                  ]
              | failure ↦ pure (r.0, off)
            ])
              v)
            (Wrote f w (start ++ input) (length input))
    round n f w off v buffered hf hs ho e rest (f', failure) u ((s, x), _) =
        Returns-pure (Wrote f w (start ++ input) (length input)) (f', off) u
          (record { stays = s; taken = omega arith; outcome = inr x })
    round n f w off v buffered hf hs ho e rest (f', success) u ((s, same, x), roomy) =
        Returns-bind
          (Written k doc f' u (start ++ take (off + length (next_chunk f' input off)) input))
          (Wrote f w (start ++ input) (length input)) _ _ u
          (chunk-Written f' u off s.valid (ap is_unbuffered s.same_mode ∙ buffered)
            (omega (arith, s.same_wcap)) (omega (arith, s.fewer)) (roomy refl) (omega arith)
            (x ∙ e))
          chunk_done
      where
        m : ℕ
        m = length (next_chunk f' input off)

        progress : (0 < m) × (off + m ≤ length input)
        progress = omega (arith, length-next_chunk f' input off, roomy refl)

        chunk_done :
            (r : File × Status) (z : World)
            → Written k doc f' u (start ++ take (off + m) input) r z
            → Returns
                ((elim r.1 as (λ _. M World (File × ℕ)) [
                  | success ↦ buffered_loop k fuel n r.0 input (off + m)
                  | failure ↦ pure (r.0, off + m)
                ])
                  z)
                (Wrote f w (start ++ input) (length input))
        chunk_done (g, failure) z (t, bad) =
            Returns-pure (Wrote f w (start ++ input) (length input)) (g, off + m) z
              (record {
                stays = Stays-trans k doc f f' g w u z s t;
                taken = progress.1;
                outcome = inr bad;
              })
        chunk_done (g, success) z (t, same', y) =
            let s' = Stays-trans k doc f f' g w u z s t in
            Returns-weaken (Wrote g z (start ++ input) (length input)) _ _
              (rest g z m s' progress.0 progress.1 y)
              (λ r q. Wrote-after f g w z (start ++ input) (length input) r q s' (same' ∙ same))

    pub buffered_loop-Wrote :
        (n : ℕ) (f : File) (w : World) (off : ℕ)
        → IsFile f
        → is_unbuffered f.buf_mode ≡ false
        → f.wcap < fuel
        → signals w < fuel
        → off ≤ length input
        → length input < off + n
        → on_the_way k doc f w ≡ start ++ take off input
        → Returns (buffered_loop k fuel n f input off w) (Wrote f w (start ++ input) (length input))
    unfolding buffered_loop
    buffered_loop-Wrote zero f w off v buffered hf hs ho hn e = absurd (omega arith)
    buffered_loop-Wrote (suc n) f w off v buffered hf hs ho hn e =
        elim (Bool-cases (off == length input)) [
          | inl end ↦ rw end (
              Returns-pure (Wrote f w (start ++ input) (length input)) (f, off) w
                (record {
                  stays = Stays-refl k doc f w v;
                  taken = ho;
                  outcome = inl (
                    refl,
                    (==_iff _ _).0 end,
                    e ∙ ap (λ x. start ++ x) (take_all off input (ground arith)),
                  );
                }))
          | inr more ↦ rw more (
              Returns-bind
                (λ r w'.
                  Written k doc f w (on_the_way k doc f w) r w'
                  × (r.1 ≡ success → r.0.wlen < r.0.wcap))
                (Wrote f w (start ++ input) (length input)) (make_room k fuel f) _ w
                (make_room-Written k doc fuel f w v hf hs buffered)
                (round n f w off v buffered hf hs (ground arith) e (λ g u m s pos fits x.
                  buffered_loop-Wrote n g u (off + m) s.valid
                    (ap is_unbuffered s.same_mode ∙ buffered) (omega (arith, s.same_wcap))
                    (omega (arith, s.fewer)) fits (omega arith) x)))
        ]
