-- ===== src/Stdio/Input/Fread/Filled.antt =====
-- One round of the loop of fread of lib/payload/libc-shim.c on a buffered stream.
use frida_core.Base.{
  ℕ, ◌+◌, ◌-◌, ◌≡◌, ◌≤◌, ◌<◌, ◌⊎◌, refl, sym, ap, ◌∙◌, List, [], ◌∷◌, ◌++◌, length, arith, true,
  false, Bool, inl, inr, ◌==◌, if◌then◌else◌, append_assoc, take, drop, slice, min, take_add,
  drop-drop, length-take, length-drop,
}
use frida_core.Posix.{Kernel, Documented, Reply, done, failed}
use frida_core.Stdio.File.{File, IsFile, Status, success, failure, is_unbuffered}
use frida_core.Stdio.Nointr.{ReadPost}
use frida_core.Stdio.Buffer.{filled}
use frida_core.Stdio.Input.View.{view, read_ahead}
use frida_core.Stdio.Input.Reads.{Reads, Reads-trans, view_of_empty}
use frida_core.Stdio.Input.Getc.{filled-Reads, filled-view}

abbrev pub More : Type 0
More = File × List ℕ × Bool

-- `left` bytes are taken from the buffer, or all that it holds.
abbrev pub chunk_of : File → ℕ → More
chunk_of f left = (
  record f { rpos = f.rpos + min left (f.rlen - f.rpos) },
  slice f.rpos (min left (f.rlen - f.rpos)) f.rbuf,
  false,
)

read_ahead_split :
    (f : File) (m : ℕ)
    → m ≤ f.rlen - f.rpos
    → read_ahead f ≡ slice f.rpos m f.rbuf ++ read_ahead (record f { rpos = f.rpos + m })
read_ahead_split f m h =
    let e : f.rlen - f.rpos ≡ m + (f.rlen - (f.rpos + m)) = omega arith in
    ap (λ n. take n (drop f.rpos f.rbuf)) e
    ∙ take_add m (f.rlen - (f.rpos + m)) (drop f.rpos f.rbuf)
    ∙ rw (drop-drop m f.rpos f.rbuf)

module _ (k : Kernel) (doc : Documented k) where
  open k use {World}
  open doc use {signals, coming}

  -- What a round promises: bytes off the view, or the reason for a stop.
  abbrev pub MorePost : File → World → ℕ → More → World → Type 0
  MorePost f w left (f', bs, false) w' =
      Reads k doc f w f' w'
      × (f'.err ≡ f.err)
      × (view k doc f w ≡ bs ++ view k doc f' w')
      × (0 < length bs)
      × (length bs ≤ left)
  MorePost f w left (f', bs, true) w' =
      Reads k doc f w f' w'
      × (bs ≡ [])
      × (view k doc f w ≡ view k doc f' w')
      × (((f'.err ≡ f.err) × (f'.eof ≡ true) × (view k doc f' w' ≡ [])) ⊎ (0 < f'.err))

  pub chunk_of-MorePost :
      (f : File) (w : World) (left : ℕ)
      → IsFile f
      → f.ungot_len ≡ 0
      → 0 < left
      → f.rpos < f.rlen
      → MorePost f w left (chunk_of f left) w
  chunk_of-MorePost f w left v e pos h = (
    record { valid = ground arith; same_fd = refl; same_mode = refl; fewer = omega arith },
    refl,
    rw e (
        ap (λ b. b ++ coming f.fd w) (read_ahead_split f (min left (f.rlen - f.rpos)) (omega arith))
        ∙ append_assoc (slice f.rpos (min left (f.rlen - f.rpos)) f.rbuf) _ _),
    omega (arith, size),
    omega (arith, size),
  )
    where
      size : length (slice f.rpos (min left (f.rlen - f.rpos)) f.rbuf) ≡ min left (f.rlen - f.rpos)
      size = omega (
        arith,
        length-take (min left (f.rlen - f.rpos)) (drop f.rpos f.rbuf),
        length-drop f.rpos f.rbuf,
      )

  -- The end of the round on a buffered stream, after a fill where one was needed.
  abbrev pub after_fill : ℕ → File × Status → More
  after_fill left (f, failure) = (f, [], true)
  after_fill left (f, success) = if f.rlen == 0 then (f, [], true) else chunk_of f left

  pub MorePost-trans :
      (f g : File) (w v : World) (left : ℕ) (r : More) (u : World)
      → Reads k doc f w g v
      → g.err ≡ f.err
      → view k doc g v ≡ view k doc f w
      → MorePost g v left r u
      → MorePost f w left r u
  MorePost-trans f g w v left (h, bs, false) u s kept e (t, x, y, p, q) =
      (Reads-trans k doc f g h w v u s t, x ∙ kept, sym e ∙ y, p, q)
  MorePost-trans f g w v left (h, bs, true) u s kept e (t, x, y, why) = (
    Reads-trans k doc f g h w v u s t,
    x,
    sym e ∙ y,
    elim why [ inl (a, b, c) ↦ inl (a ∙ kept, b, c) | inr bad ↦ inr bad ],
  )

  pub filled-MorePost :
      (f : File) (w : World) (left : ℕ) (x : Reply (List ℕ)) (w' : World)
      → IsFile f
      → is_unbuffered f.buf_mode ≡ false
      → f.ungot_len ≡ 0
      → f.rpos ≡ f.rlen
      → 0 < left
      → ReadPost k doc f.fd f.rcap w x w'
      → MorePost f w left (after_fill left (filled f x)) w'
  unfolding filled
  filled-MorePost f w left x w' v buffered e h pos p =
      go x p (filled-Reads k doc f w x w' v buffered p) (filled-view k doc f w x w' e h p)
    where
      go :
          (x : Reply (List ℕ))
          → ReadPost k doc f.fd f.rcap w x w'
          → Reads k doc f w (filled f x).0 w'
          → view k doc (filled f x).0 w' ≡ view k doc f w
          → MorePost f w left (after_fill left (filled f x)) w'
      go (done []) (_, now, ended, _) s same = (
        s,
        refl,
        sym same,
        inl (
          refl,
          refl,
          same ∙ view_of_empty k doc f w e h ∙ now ∙ ended refl (v.rcap_pos buffered),
        ),
      )
      go (done (b ∷ bs)) _ s same =
          let g = (filled f (done (b ∷ bs))).0 in
          let not_empty : (length (b ∷ bs) == 0) ≡ false = ground arith in
          rw not_empty (
            MorePost-trans f g w w' left (chunk_of g left) w' s refl same
              (chunk_of-MorePost g w' left s.valid e pos (omega arith)))
      go (failed y) (bad, _, _, _) s same = (s, refl, sym same, inr bad)
