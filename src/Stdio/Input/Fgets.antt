-- ===== src/Stdio/Input/Fgets.antt =====
-- fgets of lib/payload/libc-shim.c on the view of a stream.
use frida_core.Base.{
  ℕ, zero, suc, ◌-◌, ◌≡◌, ◌<◌, ◌⊎◌, refl, sym, ap, ◌∙◌, List, [], ◌∷◌, ◌++◌, some, none, Option,
  length, arith, true, false, inl, inr, ◌==◌, Bool-cases, if◌then◌else◌, append-nil, append_assoc,
}
use frida_core.Io.{M, pure, Returns, Returns-bind, Returns-pure, Returns-weaken}
use frida_core.Posix.{Kernel, Documented}
use frida_core.Stdio.File.{File, IsFile}
use frida_core.Stdio.Input.{getc, fgets_loop, fgets}
use frida_core.Stdio.Input.View.{view}
use frida_core.Stdio.Input.Reads.{Reads, Reads-refl, Reads-trans, GetcPost}
use frida_core.Stdio.Input.Getc.{getc-GetcPost}

-- The specification: the bytes up to and with the first newline, but at most `n`.
unfoldable pub line_of : ℕ → List ℕ → List ℕ
line_of zero xs = []
line_of (suc n) [] = []
line_of (suc n) (x ∷ xs) = x ∷ (if x == 10 then [] else line_of n xs)

module _ (k : Kernel) (doc : Documented k) where
  open k use {World}
  open doc use {signals}

  -- `s` was stored before, and `t` is what the loop adds.
  pub record Line (f : File) (w : World) (room : ℕ) (s : List ℕ) (r : File × List ℕ) (w' : World)
      : Type 0 where
    pub added : List ℕ
    pub stored : r.1 ≡ s ++ added
    pub reads : Reads k doc f w r.0 w'
    pub consumed : view k doc f w ≡ added ++ view k doc r.0 w'
    pub outcome : ((r.0.err ≡ f.err) × (added ≡ line_of room (view k doc f w))) ⊎ (0 < r.0.err)

  -- One more byte in front of what the rest of the loop adds.
  Line-longer :
      (f g : File) (w v : World) (room b : ℕ) (s : List ℕ) (r : File × List ℕ) (u : World)
      → Reads k doc f w g v
      → g.err ≡ f.err
      → view k doc f w ≡ b ∷ view k doc g v
      → (b == 10) ≡ false
      → Line g v room (s ++ (b ∷ [])) r u
      → Line f w (suc room) s r u
  unfolding line_of
  Line-longer f g w v room b s r u reads kept e inside l = record {
    added = b ∷ l.added;
    stored = l.stored ∙ append_assoc s (b ∷ []) l.added;
    reads = Reads-trans k doc f g r.0 w v u reads l.reads;
    consumed = e ∙ ap (λ x. b ∷ x) l.consumed;
    outcome = elim l.outcome [
      | inl (x, y) ↦ inl (x ∙ kept, ap (λ x. b ∷ x) y ∙ rw (e, inside))
      | inr bad ↦ inr bad
    ];
  }

  Line-ended :
      (f g : File) (w v : World) (room b : ℕ) (s : List ℕ)
      → Reads k doc f w g v
      → g.err ≡ f.err
      → view k doc f w ≡ b ∷ view k doc g v
      → (b == 10) ≡ true
      → Line f w (suc room) s (g, s ++ (b ∷ [])) v
  unfolding line_of
  Line-ended f g w v room b s reads kept e ends = record {
    added = b ∷ [];
    stored = refl;
    reads = reads;
    consumed = e;
    outcome = inl (kept, rw (e, ends));
  }

  Line-stopped :
      (f g : File) (w v : World) (room : ℕ) (s : List ℕ)
      → GetcPost k doc f w (g, none) v
      → Line f w (suc room) s (g, s) v
  unfolding line_of
  Line-stopped f g w v room s (reads, (same, why)) = record {
    added = [];
    stored = sym (append-nil s);
    reads = reads;
    consumed = sym same;
    outcome = elim why [ inl (_, kept, at_end) ↦ inl (kept, rw at_end) | inr bad ↦ inr bad ];
  }

  fgets_loop-Line :
      (fuel room : ℕ) (f : File) (s : List ℕ) (w : World)
      → IsFile f
      → signals w < fuel
      → Returns (fgets_loop k fuel room f s w) (Line f w room s)
  unfolding fgets_loop line_of
  fgets_loop-Line fuel zero f s w v hs =
      Returns-pure (Line f w 0 s) (f, s) w
        (record {
          added = [];
          stored = sym (append-nil s);
          reads = Reads-refl k doc f w v;
          consumed = refl;
          outcome = inl (refl, refl);
        })
  fgets_loop-Line fuel (suc room) f s w v hs =
      Returns-bind (GetcPost k doc f w) (Line f w (suc room) s) (getc k fuel f) _ w
        (getc-GetcPost k doc fuel f w v hs)
        (go (λ g u b reads.
          fgets_loop-Line fuel room g (s ++ (b ∷ [])) u reads.valid (omega (arith, reads.fewer))))
    where
      go :
          ((g : File) (u : World) (b : ℕ)
            → Reads k doc f w g u
            → Returns (fgets_loop k fuel room g (s ++ (b ∷ [])) u) (Line g u room (s ++ (b ∷ []))))
          → (r : File × Option ℕ) (u : World) → GetcPost k doc f w r u
          → Returns
              ((elim r.1 as (λ _. M World (File × List ℕ)) [
                | none ↦ pure (r.0, s)
                | some b ↦
                    let rest = fgets_loop k fuel room r.0 (s ++ (b ∷ [])) in
                    if b == 10 then pure (r.0, s ++ (b ∷ [])) else rest
              ])
                u)
              (Line f w (suc room) s)
      go ih (g, none) u p =
          Returns-pure (Line f w (suc room) s) (g, s) u (Line-stopped f g w u room s p)
      go ih (g, some b) u (reads, kept, e) = elim (Bool-cases (b == 10)) [
        | inl ends ↦ rw ends (
            Returns-pure (Line f w (suc room) s) (g, s ++ (b ∷ [])) u
              (Line-ended f g w u room b s reads kept e ends))
        | inr inside ↦ rw inside (
            Returns-weaken (Line g u room (s ++ (b ∷ []))) (Line f w (suc room) s) _
              (ih g u b reads) (λ r z l. Line-longer f g w u room b s r z reads kept e inside l))
      ]

  -- What fgets promises: `none` is NULL.
  abbrev pub FgetsPost : File → World → ℕ → File × Option (List ℕ) → World → Type 0
  FgetsPost f w size r w' =
      (s : List ℕ) × (r.1 ≡ (if length s == 0 then none else some s))
      × Reads k doc f w r.0 w'
      × (view k doc f w ≡ s ++ view k doc r.0 w')
      × (((r.0.err ≡ f.err) × (s ≡ line_of (size - 1) (view k doc f w))) ⊎ (0 < r.0.err))

  -- If the fuel exceeds the signals to come, fgets ends and keeps the stream sound. What it stores is
  -- taken off the front of the view, and is NULL exactly if empty. Without an error it is the first
  -- line of the view, cut off at `size - 1` bytes.
  pub fgets-FgetsPost :
      (fuel size : ℕ) (f : File) (w : World)
      → IsFile f
      → signals w < fuel
      → Returns (fgets k fuel size f w) (FgetsPost f w size)
  unfolding fgets
  fgets-FgetsPost fuel size f w v hs =
      Returns-bind (Line f w (size - 1) []) (FgetsPost f w size) (fgets_loop k fuel (size - 1) f [])
        _ w (fgets_loop-Line fuel (size - 1) f [] w v hs)
        (λ r w' l. Returns-pure (FgetsPost f w size) _ w' (
          r.1,
          refl,
          l.reads,
          l.consumed ∙ ap (λ x. x ++ view k doc r.0 w') (sym l.stored),
          elim l.outcome [ inl (x, y) ↦ inl (x, l.stored ∙ y) | inr bad ↦ inr bad ],
        ))
