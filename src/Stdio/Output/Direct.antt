-- ===== src/Stdio/Output/Direct.antt =====
-- The loop of fwrite of lib/payload/libc-shim.c on an unbuffered stream.
use frida_core.Base.{
  ℕ, zero, suc, ◌+◌, ◌-◌, ◌≡◌, ◌≤◌, ◌<◌, refl, sym, ap, ◌∙◌, true, List, ◌++◌, take, drop, length,
  ◌==◌, Bool-cases, inl, inr, arith, ==_iff, take_add, take_all, length-drop, append_assoc,
  append-nil,
}
use frida_core.Io.{M, pure, Returns, Returns-bind, Returns-pure, Returns-weaken}
use frida_core.Posix.{Kernel, Reply, done, failed, Documented}
use frida_core.Stdio.File.{File, IsFile, is_unbuffered}
use frida_core.Stdio.Nointr.{write_nointr, write_nointr-Returns, WritePost}
use frida_core.Stdio.Output.{direct_loop}
use frida_core.Stdio.Output.Written.{on_the_way, Stays-refl, err-Stays}
use frida_core.Stdio.Output.Buffered.{Wrote, Wrote-after}

module _ (k : Kernel) (doc : Documented k) (fuel : ℕ) (input start : List ℕ) where
  open k use {World}
  open doc use {sent, signals}

  direct_loop-sends :
      (n : ℕ) (f : File) (w : World) (off : ℕ)
      → IsFile f
      → signals w < fuel
      → off ≤ length input
      → length input < off + n
      → sent f.fd w ≡ start ++ take off input
      → f.wlen ≡ 0
      → Returns
          (direct_loop k fuel n f input off w)
          (Wrote k doc f w (start ++ input) (length input))
  unfolding direct_loop
  direct_loop-sends zero f w off v hs ho hn e none_waits = absurd (omega arith)
  direct_loop-sends (suc n) f w off v hs ho hn e none_waits =
      elim (Bool-cases (off == length input)) [
        | inl end ↦ rw end (
            Returns-pure (Wrote k doc f w (start ++ input) (length input)) (f, off) w
              (record {
                stays = Stays-refl k doc f w v;
                taken = ho;
                outcome = inl (refl, (==_iff _ _).0 end, all_sent (ground arith));
              }))
        | inr more ↦ rw more (
            Returns-bind (WritePost k doc f.fd (drop off input) w)
              (Wrote k doc f w (start ++ input) (length input))
              (write_nointr k fuel f.fd (drop off input)) _ w
              (write_nointr-Returns k doc fuel f.fd _ w hs)
              (next (λ m u. direct_loop-sends n f u (off + m) v) (ground arith)))
      ]
    where
      all_sent : length input ≤ off → on_the_way k doc f w ≡ start ++ input
      all_sent h = rw (none_waits) (append-nil _) ∙ e ∙ ap (λ x. start ++ x) (take_all off input h)

      next :
          ((m : ℕ) (u : World)
            → signals u < fuel
            → off + m ≤ length input
            → length input < off + m + n
            → sent f.fd u ≡ start ++ take (off + m) input
            → f.wlen ≡ 0
            → Returns
                (direct_loop k fuel n f input (off + m) u)
                (Wrote k doc f u (start ++ input) (length input)))
          → off < length input
          → (r : Reply ℕ) (u : World) → WritePost k doc f.fd (drop off input) w r u
          → Returns
              ((elim r as (λ _. M World (File × ℕ)) [
                | done m ↦ direct_loop k fuel n f input (off + m)
                | failed x ↦ pure (record f { err = x }, off)
              ])
                u)
              (Wrote k doc f w (start ++ input) (length input))
      next ih lt (failed x) u (pos, _, fewer, _) =
          Returns-pure (Wrote k doc f w (start ++ input) (length input)) (record f { err = x }, off)
            u
            (record {
              stays = err-Stays k doc f x w u v fewer;
              taken = omega arith;
              outcome = inr pos;
            })
      next ih lt (done m) u (le, some_sent, now, fewer) =
          let size : length (drop off input) ≡ length input - off = length-drop off input in
          Returns-weaken (Wrote k doc f u (start ++ input) (length input)) _ _
            (ih m u (omega arith) (omega (arith, size)) (omega (arith, size))
              (now ∙ rw (e, take_add off m input) (append_assoc start (take off input) _))
              none_waits)
            (λ r z.
              Wrote-after k doc f f w u (start ++ input) (length input) r z
                (record {
                  valid = v;
                  same_fd = refl;
                  same_mode = refl;
                  same_wcap = refl;
                  same_ungot = refl;
                  fewer = fewer;
                })
                refl)

  pub direct_loop-Wrote :
      (f : File) (w : World)
      → IsFile f
      → is_unbuffered f.buf_mode ≡ true
      → signals w < fuel
      → length input < fuel
      → on_the_way k doc f w ≡ start
      → Returns
          (direct_loop k fuel fuel f input 0 w)
          (Wrote k doc f w (start ++ input) (length input))
  direct_loop-Wrote f w v direct hs hn e =
      direct_loop-sends fuel f w 0 v hs (omega arith) (omega arith)
        (rw (append-nil) (sym (append-nil _) ∙ rw (v.unwritten_none direct) at e))
        (v.unwritten_none direct)
