-- ===== src/Stdio/Output/Fwrite.antt =====
-- fwrite and fputs of lib/payload/libc-shim.c as a whole, on top of the loops of Output/Buffered and
-- Output/Direct.
use frida_core.Base.{
  ℕ, false, ◌-◌, ◌*◌, ◌/◌, ◌%◌, ◌^◌, ◌≡◌, ◌≤◌, ◌<◌, ◌⊎◌, refl, sym, ap, ◌∙◌, List, ◌++◌, take,
  length, ◌==◌, ◌||◌, Bool-cases, inl, inr, arith, some, Option, ==_iff, take_all, length-take,
  append-nil,
}
use native.Mathlib.Nat.{mod-eq_of_lt, mul-div_cancel_left, div-le_of_le-mul}
use frida_core.Io.{Returns, Returns-bind, Returns-pure}
use frida_core.Posix.{Kernel, Documented}
use frida_core.Stdio.File.{File, IsFile, is_unbuffered, size_mod}
use frida_core.Stdio.Output.{write_bytes, fwrite, int_or_eof, fputs}
use frida_core.Stdio.Output.Written.{on_the_way, Stays, Stays-refl}
use frida_core.Stdio.Output.Buffered.{Wrote, buffered_loop-Wrote}
use frida_core.Stdio.Output.Direct.{direct_loop-Wrote}

int_or_eof_lem : (len : ℕ) → len < 2 ^ 31 → int_or_eof len ≡ some len
unfolding int_or_eof
int_or_eof_lem len small =
    let e : len % 2 ^ 32 ≡ len = mod-eq_of_lt (omega arith) in
    let other : len == 2 ^ 32 - 1 ≡ false = ground arith in rw (e, other) refl

module _ (k : Kernel) (doc : Documented k) (fuel : ℕ) where
  open k use {World}
  open doc use {sent, signals}

  write_bytes-Wrote :
      (f : File) (input : List ℕ) (w : World)
      → IsFile f
      → f.wcap < fuel
      → length input < fuel
      → signals w < fuel
      → Returns
          (write_bytes k fuel f input w)
          (Wrote k doc f w (on_the_way k doc f w ++ input) (length input))
  unfolding write_bytes
  write_bytes-Wrote f input w v hf hl hs = elim (Bool-cases (is_unbuffered f.buf_mode)) [
    | inl direct ↦
        rw direct
          (direct_loop-Wrote k doc fuel input (on_the_way k doc f w) f w v direct hs hl refl)
    | inr buffered ↦ rw buffered (
        buffered_loop-Wrote k doc fuel input (on_the_way k doc f w) fuel f w 0 v buffered hf hs
          (omega arith) (omega arith) (sym (append-nil _)))
  ]

  -- What fwrite of `nmemb` items, `data`, promises.
  abbrev pub FwritePost : File → World → List ℕ → ℕ → File × ℕ → World → Type 0
  FwritePost f w bytes nmemb r w' =
      Stays k doc f w r.0 w'
      × (r.1 ≤ nmemb)
      × (((r.0.err ≡ f.err)
            × (r.1 ≡ nmemb)
            × (on_the_way k doc r.0 w' ≡ on_the_way k doc f w ++ bytes))
          ⊎ (0 < r.0.err))

  -- If `ptr` has the bytes of all items, their size does not wrap and the fuel exceeds the bytes asked
  -- for, the capacity and the signals to come, fwrite ends and keeps the stream sound. Then the bytes
  -- sent and waiting are those of before with the items behind them and it returns `nmemb`, or the
  -- error indicator is set.
  pub fwrite-FwritePost :
      (ptr : List ℕ) (size nmemb : ℕ) (f : File) (w : World)
      → IsFile f
      → 0 < size
      → size * nmemb ≤ length ptr
      → size * nmemb < size_mod
      → size * nmemb < fuel
      → f.wcap < fuel
      → signals w < fuel
      → Returns (fwrite k fuel ptr size nmemb f w) (FwritePost f w (take (size * nmemb) ptr) nmemb)
  unfolding fwrite
  fwrite-FwritePost ptr size nmemb f w v hp hl hm hn hf hs =
      elim (Bool-cases (size == 0 || nmemb == 0)) [
        | inl nothing ↦ rw nothing (
            let none_given : nmemb ≡ 0 = ground arith in
            Returns-pure (FwritePost f w (take (size * nmemb) ptr) nmemb) (f, 0) w
              (
                Stays-refl k doc f w v,
                omega arith,
                inl (refl, sym none_given, no_bytes none_given),
              ))
        | inr items ↦
            rw (items, mod-eq_of_lt hm)
              (Returns-bind (Wrote k doc f w (on_the_way k doc f w ++ bytes) (length bytes))
                (FwritePost f w bytes nmemb) (write_bytes k fuel f bytes) _ w
                (write_bytes-Wrote f bytes w v hf (omega (arith, size_is)) hs)
                (λ r w' p.
                  Returns-pure (FwritePost f w bytes nmemb) (r.0, r.1 / size) w' (counted r w' p)))
      ]
    where
      bytes : List ℕ
      bytes = take (size * nmemb) ptr

      size_is : length bytes ≡ size * nmemb
      size_is = omega (arith, length-take (size * nmemb) ptr)

      no_bytes : nmemb ≡ 0 → on_the_way k doc f w ≡ on_the_way k doc f w ++ bytes
      no_bytes h = let e : size * nmemb ≡ 0 = rw h (omega arith) in rw e (sym (append-nil _))

      counted :
          (r : File × ℕ) (w' : World)
          → Wrote k doc f w (on_the_way k doc f w ++ bytes) (length bytes) r w'
          → FwritePost f w bytes nmemb (r.0, r.1 / size) w'
      counted r w' p = (
        p.stays,
        div-le_of_le-mul size (omega (arith, p.taken, size_is)),
        elim p.outcome [
          | inl (x, y, z) ↦
              inl (x, ap (λ n. n / size) (y ∙ size_is) ∙ mul-div_cancel_left nmemb hp, z)
          | inr bad ↦ inr bad
        ],
      )

  -- What fputs promises: all of the string, or EOF with the error indicator set.
  abbrev pub FputsPost : File → World → List ℕ → File × Option ℕ → World → Type 0
  FputsPost f w s r w' =
      Stays k doc f w r.0 w'
      × (((r.0.err ≡ f.err)
            × (r.1 ≡ some (length s))
            × (on_the_way k doc r.0 w' ≡ on_the_way k doc f w ++ s))
          ⊎ (0 < r.0.err))

  -- If the length fits in an int and the fuel exceeds it, the capacity and the signals to come, fputs
  -- ends and keeps the stream sound. Then the string is behind the bytes sent and waiting and its
  -- length is returned, or the error indicator is set.
  pub fputs-FputsPost :
      (s : List ℕ) (f : File) (w : World)
      → IsFile f
      → length s < 2 ^ 31
      → length s < fuel
      → f.wcap < fuel
      → signals w < fuel
      → Returns (fputs k fuel s f w) (FputsPost f w s)
  unfolding fputs
  fputs-FputsPost s f w v hm hn hf hs =
      Returns-bind (FwritePost f w (take (1 * length s) s) (length s)) (FputsPost f w s)
        (fwrite k fuel s 1 (length s) f) _ w
        (fwrite-FwritePost s 1 (length s) f w v (omega arith) (omega arith) (omega arith)
          (omega arith) hf hs)
        (λ r w' p. Returns-pure (FputsPost f w s) _ w' (
          p.0,
          elim p.2 [
            | inl (x, y, z) ↦ inl (
              x,
              rw (y, (==_iff _ _).1 refl) (int_or_eof_lem (length s) hm),
              z ∙ ap (λ b. on_the_way k doc f w ++ b) (take_all _ s (omega arith)),
            )
            | inr bad ↦ inr bad
          ],
        ))
