-- ===== src/Stdio/Input/Fread.antt =====
-- fread of lib/payload/libc-shim.c on the view of a stream.
pub mod Filled
pub mod Chunk
use frida_core.Base.{
  ℕ, zero, suc, ◌+◌, ◌-◌, ◌*◌, ◌/◌, ◌%◌, ◌≡◌, ◌≤◌, ◌<◌, ◌⊎◌, refl, sym, ap, ◌∙◌, subst, List, [],
  ◌∷◌, ◌++◌, some, none, Option, length, arith, true, false, Bool, inl, inr, ◌==◌, Bool-cases,
  if◌then◌else◌, append-nil, append_assoc, length-append, ==_iff, ◌||◌,
}
use native.Mathlib.Nat.{mod-eq_of_lt}
use frida_core.Io.{M, pure, ◌>>=◌, Returns, Returns-bind, Returns-pure, Returns-weaken}
use frida_core.Posix.{Kernel, Documented}
use frida_core.Stdio.File.{File, IsFile, size_mod}
use frida_core.Stdio.Input.{fread_more, fread_loop, fread}
use frida_core.Stdio.Input.View.{view}
use frida_core.Stdio.Input.Reads.{Reads, Reads-refl, Reads-trans, Ended}
use frida_core.Stdio.Input.Fread.Filled.{MorePost}
use frida_core.Stdio.Input.Fread.Chunk.{fread_more-MorePost}

module _ (k : Kernel) (doc : Documented k) where
  open k use {World}
  open doc use {signals}

  -- `out` was read before, and `got` is what the loop adds.
  pub record Got (f : File) (w : World) (want : ℕ) (out : List ℕ) (r : File × List ℕ) (w' : World)
      : Type 0 where
    pub got : List ℕ
    pub stored : r.1 ≡ out ++ got
    pub reads : Reads k doc f w r.0 w'
    pub consumed : view k doc f w ≡ got ++ view k doc r.0 w'
    pub bounded : length r.1 ≤ want
    pub outcome :
        ((r.0.err ≡ f.err) × (length r.1 ≡ want))
        ⊎ ((r.0.err ≡ f.err) × (r.0.eof ≡ true) × (view k doc r.0 w' ≡ []))
        ⊎ (0 < r.0.err)

  -- A round, then what the rest of the loop does.
  Got-more :
      (f g : File) (w v : World) (want : ℕ) (out bs : List ℕ) (r : File × List ℕ) (u : World)
      → Reads k doc f w g v
      → g.err ≡ f.err
      → view k doc f w ≡ bs ++ view k doc g v
      → Got g v want (out ++ bs) r u
      → Got f w want out r u
  Got-more f g w v want out bs r u s kept e l = record {
    got = bs ++ l.got;
    stored = l.stored ∙ append_assoc out bs l.got;
    reads = Reads-trans k doc f g r.0 w v u s l.reads;
    consumed = e ∙ ap (λ x. bs ++ x) l.consumed ∙ sym (append_assoc bs l.got _);
    bounded = l.bounded;
    outcome = elim l.outcome [
      | inl (x, y) ↦ inl (x ∙ kept, y)
      | inr (inl (x, y, z)) ↦ inr (inl (x ∙ kept, y, z))
      | inr (inr bad) ↦ inr (inr bad)
    ];
  }

  fread_loop-Got :
      (fuel n : ℕ) (f : File) (want : ℕ) (out : List ℕ) (w : World)
      → IsFile f
      → signals w < fuel
      → length out ≤ want
      → want < length out + n
      → Returns (fread_loop k fuel n f want out w) (Got f w want out)
  unfolding fread_loop
  fread_loop-Got fuel zero f want out w v hs ho hn = absurd (omega arith)
  fread_loop-Got fuel (suc n) f want out w v hs ho hn = elim (Bool-cases (length out == want)) [
    | inl all ↦ rw all (
        Returns-pure (Got f w want out) (f, out) w
          (record {
            got = [];
            stored = sym (append-nil out);
            reads = Reads-refl k doc f w v;
            consumed = refl;
            bounded = ho;
            outcome = inl (refl, (==_iff _ _).0 all);
          }))
    | inr less ↦ rw less (
        Returns-bind (MorePost k doc f w (want - length out)) (Got f w want out)
          (fread_more k fuel f (want - length out)) _ w
          (fread_more-MorePost k doc fuel f w (want - length out) v (ground arith) hs)
          (go (λ g u bs. fread_loop-Got fuel n g want (out ++ bs) u)))
  ]
    where
      go :
          ((g : File) (u : World) (bs : List ℕ)
            → IsFile g
            → signals u < fuel
            → length (out ++ bs) ≤ want
            → want < length (out ++ bs) + n
            → Returns (fread_loop k fuel n g want (out ++ bs) u) (Got g u want (out ++ bs)))
          → (r : File × List ℕ × Bool) (u : World) → MorePost k doc f w (want - length out) r u
          → Returns
              ((elim r.2 as (λ _. M World (File × List ℕ)) [
                | true ↦ pure (r.0, out ++ r.1)
                | false ↦ fread_loop k fuel n r.0 want (out ++ r.1)
              ])
                u)
              (Got f w want out)
      go ih (g, bs, true) u (s, x, y, why) =
          Returns-pure (Got f w want out) (g, out ++ bs) u
            (record {
              got = [];
              stored = ap (λ b. out ++ b) x;
              reads = s;
              consumed = y;
              bounded = rw (x, append-nil) ho;
              outcome = inr why;
            })
      go ih (g, bs, false) u (s, kept, e, pos, le) =
          Returns-weaken (Got g u want (out ++ bs)) (Got f w want out) _
            (ih g u bs s.valid (omega (arith, s.fewer)) (omega (arith, length-append out bs))
              (omega (arith, length-append out bs)))
            (λ r z l. Got-more f g w u want out bs r z s kept e l)

  -- What fread promises of the bytes `r.1` and the count `r.2`.
  abbrev pub FreadPost : File → World → ℕ → ℕ → File × List ℕ × ℕ → World → Type 0
  FreadPost f w size nmemb r w' =
      Reads k doc f w r.0 w'
      × (view k doc f w ≡ r.1 ++ view k doc r.0 w')
      × (r.2 ≡ length r.1 / size)
      × (length r.1 ≤ size * nmemb)
      × (((r.0.err ≡ f.err) × (length r.1 ≡ size * nmemb))
          ⊎ ((r.0.err ≡ f.err) × (r.0.eof ≡ true) × (view k doc r.0 w' ≡ []))
          ⊎ (0 < r.0.err))

  -- If the bytes asked for do not wrap and the fuel exceeds them and the signals to come, fread ends
  -- and keeps the stream sound. It takes the bytes of the view in order, no more than asked for, and
  -- returns how many items they make up. It stops short only at the end of the view with the end of
  -- file set, or with the error indicator set.
  pub fread-FreadPost :
      (fuel size nmemb : ℕ) (f : File) (w : World)
      → IsFile f
      → 0 < size
      → 0 < nmemb
      → size * nmemb < size_mod
      → size * nmemb < fuel
      → signals w < fuel
      → Returns (fread k fuel size nmemb f w) (FreadPost f w size nmemb)
  unfolding fread
  fread-FreadPost fuel size nmemb f w v hp hq hm hn hs =
      let asked : (size == 0 || nmemb == 0) ≡ false = ground arith in
      rw (asked, mod-eq_of_lt hm)
        (Returns-bind (Got f w (size * nmemb) []) (FreadPost f w size nmemb)
          (fread_loop k fuel fuel f (size * nmemb) []) _ w
          (fread_loop-Got fuel fuel f (size * nmemb) [] w v hs (omega arith) (omega arith))
          (λ r w' l. Returns-pure (FreadPost f w size nmemb) _ w' (
            l.reads,
            l.consumed ∙ ap (λ x. x ++ view k doc r.0 w') (sym l.stored),
            refl,
            l.bounded,
            l.outcome,
          )))
