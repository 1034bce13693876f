-- ===== src/Stdio/Input/Reads.antt =====
-- What getc_unlocked of lib/payload/libc-shim.c promises, and its ways that do not fill the buffer.
use frida_core.Base.{
  ℕ, ◌≡◌, ◌≤◌, ◌<◌, ◌⊎◌, refl, sym, ap, ◌∙◌, List, [], ◌∷◌, ◌++◌, some, none, Option, arith, true,
  inl, inr,
}
use frida_core.Posix.{Kernel, Documented, Reply, done, failed}
use frida_core.Stdio.File.{File, IsFile, is_unbuffered}
use frida_core.Stdio.Nointr.{ReadPost}
use frida_core.Stdio.Input.{take_ungot, take_buffered, take_direct}
use frida_core.Stdio.Input.View.{
  newest_first_of_pos, read_ahead, read_ahead_of_lt, read_ahead_of_eq, view,
}

module _ (k : Kernel) (doc : Documented k) where
  open k use {World}
  open doc use {coming, signals}

  -- The stream is the same one, and it is sound.
  pub record Reads (f : File) (w : World) (f' : File) (w' : World) : Type 0 where
    pub valid : IsFile f'
    pub same_fd : f'.fd ≡ f.fd
    pub same_mode : f'.buf_mode ≡ f.buf_mode
    pub fewer : signals w' ≤ signals w

  pub Reads-refl : (f : File) (w : World) → IsFile f → Reads f w f w
  Reads-refl f w v = record { valid = v; same_fd = refl; same_mode = refl; fewer = omega arith }

  pub Reads-trans : (f g h : File) (u v w : World) → Reads f u g v → Reads g v h w → Reads f u h w
  Reads-trans f g h u v w s t = record {
    valid = t.valid;
    same_fd = t.same_fd ∙ s.same_fd;
    same_mode = t.same_mode ∙ s.same_mode;
    fewer = omega (arith, s.fewer, t.fewer);
  }

  -- Nothing was taken: the stream is at its end, or the error indicator is set.
  abbrev pub Ended : File → World → File → World → Type 0
  Ended f w f' w' =
      (view k doc f' w' ≡ view k doc f w)
      × (((f'.eof ≡ true) × (f'.err ≡ f.err) × (view k doc f w ≡ [])) ⊎ (0 < f'.err))

  -- What getc promises.
  abbrev pub GetcPost : File → World → File × Option ℕ → World → Type 0
  GetcPost f w (f', some b) w' =
      Reads f w f' w' × (f'.err ≡ f.err) × (view k doc f w ≡ b ∷ view k doc f' w')
  GetcPost f w (f', none) w' = Reads f w f' w' × Ended f w f' w'

  pub take_ungot-GetcPost :
      (f : File) (w : World) → IsFile f → 0 < f.ungot_len → GetcPost f w (take_ungot f) w
  take_ungot-GetcPost f w v h = (
    record { valid = ground arith; same_fd = refl; same_mode = refl; fewer = omega arith },
    refl,
    ap (λ b. b ++ (read_ahead f ++ coming f.fd w)) (newest_first_of_pos f.ungot_len f.ungot_buf h),
  )

  pub take_buffered-GetcPost :
      (f : File) (w : World)
      → IsFile f
      → f.ungot_len ≡ 0
      → f.rpos < f.rlen
      → GetcPost f w (take_buffered f) w
  take_buffered-GetcPost f w v none_back h = (
    record { valid = ground arith; same_fd = refl; same_mode = refl; fewer = omega arith },
    refl,
    rw none_back (ap (λ b. b ++ coming f.fd w) (read_ahead_of_lt f v h)),
  )

  -- With nothing pushed back and nothing read ahead, the view is what the descriptor gives.
  pub view_of_empty :
      (f : File) (w : World) → f.ungot_len ≡ 0 → f.rpos ≡ f.rlen → view k doc f w ≡ coming f.fd w
  view_of_empty f w e h = rw (e, read_ahead_of_eq f h)

  pub take_direct-GetcPost :
      (f : File) (w : World) (r : Reply (List ℕ)) (w' : World)
      → IsFile f
      → f.ungot_len ≡ 0
      → is_unbuffered f.buf_mode ≡ true
      → ReadPost k doc f.fd 1 w r w'
      → GetcPost f w (take_direct f r) w'
  unfolding take_direct
  take_direct-GetcPost f w (done []) w' v e direct (le, now, ended, fewer) = (
    record { valid = ground arith; same_fd = refl; same_mode = refl; fewer = fewer },
    (
      view_of_empty f w' e (omega (arith, v.unread_none direct))
          ∙ sym now
          ∙ sym (view_of_empty f w e (omega (arith, v.unread_none direct))),
      inl (
        refl,
        refl,
        view_of_empty f w e (omega (arith, v.unread_none direct)) ∙ now ∙ ended refl (omega arith),
      ),
    ),
  )
  take_direct-GetcPost f w (done (b ∷ [])) w' v e direct (le, now, ended, fewer) = (
    record { valid = v; same_fd = refl; same_mode = refl; fewer = fewer },
    refl,
    view_of_empty f w e (omega (arith, v.unread_none direct))
        ∙ now
        ∙ ap (λ x. b ∷ x) (sym (view_of_empty f w' e (omega (arith, v.unread_none direct)))),
  )
  take_direct-GetcPost f w (done (b ∷ c ∷ bs)) w' v e direct (le, now, ended, fewer) =
      absurd (omega arith)
  take_direct-GetcPost f w (failed x) w' v e direct (pos, same, fewer, _) = (
    record { valid = ground arith; same_fd = refl; same_mode = refl; fewer = fewer },
    (
      view_of_empty f w' e (omega (arith, v.unread_none direct))
          ∙ same
          ∙ sym (view_of_empty f w e (omega (arith, v.unread_none direct))),
      inr pos,
    ),
  )
