-- ===== src/Stdio/Input/Getc.antt =====
-- getc_unlocked and ungetc of lib/payload/libc-shim.c on the view of a stream.
use frida_core.Base.{
  ℕ, suc, ◌+◌, ◌-◌, ◌%◌, ◌≡◌, ◌<◌, refl, sym, ap, ◌∙◌, subst, List, [], ◌∷◌, ◌++◌, drop, some,
  length, arith, true, false, inl, inr, ltb, ◌==◌, Bool-cases, if◌then◌else◌, length-append,
  length-drop, take-append, length-set, ==_iff,
}
use frida_core.Io.{pure, ◌>>=◌, Returns, Returns-bind, Returns-pure}
use frida_core.Posix.{Kernel, Documented, Reply, done, failed}
use frida_core.Stdio.File.{File, IsFile, is_unbuffered, ungot_size}
use frida_core.Stdio.Nointr.{read_nointr, read_nointr-Returns, ReadPost}
use frida_core.Stdio.Buffer.{filled, fill_read}
use frida_core.Stdio.Buffer.Fill.{FillPost, fill_read-FillPost}
use frida_core.Stdio.Input.{take_ungot, take_buffered, take_direct, take_filled, getc, ungetc}
use frida_core.Stdio.Input.View.{newest_first, newest_first-set, get_or-set_self, read_ahead, view}
use frida_core.Stdio.Input.Reads.{
  Reads, Reads-trans, GetcPost, take_ungot-GetcPost, take_buffered-GetcPost, view_of_empty,
  take_direct-GetcPost,
}

module _ (k : Kernel) (doc : Documented k) where
  open k use {World}
  open doc use {coming, signals}

  -- What a fill leaves: the buffer is sound, and it holds what was read.
  pub filled-Reads :
      (f : File) (w : World) (x : Reply (List ℕ)) (w' : World)
      → IsFile f
      → is_unbuffered f.buf_mode ≡ false
      → ReadPost k doc f.fd f.rcap w x w'
      → Reads k doc f w (filled f x).0 w'
  unfolding filled
  filled-Reads f w (done []) w' v buffered (le, now, ended, fewer) = record {
    valid = ground arith;
    same_fd = refl;
    same_mode = refl;
    fewer = fewer;
  }
  filled-Reads f w (done (b ∷ bs)) w' v buffered (le, now, ended, fewer) = record {
    valid = ground (
      arith,
      length-append (b ∷ bs) (drop (length (b ∷ bs)) f.rbuf),
      length-drop (length (b ∷ bs)) f.rbuf,
    );
    same_fd = refl;
    same_mode = refl;
    fewer = fewer;
  }
  filled-Reads f w (failed e) w' v buffered (pos, same, fewer, _) = record {
    valid = ground arith;
    same_fd = refl;
    same_mode = refl;
    fewer = fewer;
  }

  pub filled-view :
      (f : File) (w : World) (x : Reply (List ℕ)) (w' : World)
      → f.ungot_len ≡ 0
      → f.rpos ≡ f.rlen
      → ReadPost k doc f.fd f.rcap w x w'
      → view k doc (filled f x).0 w' ≡ view k doc f w
  unfolding filled
  filled-view f w (done []) w' e h (le, now, ended, fewer) =
      view_of_empty k doc (record f { rpos = 0; rlen = 0; eof = true }) w' e refl
      ∙ sym now
      ∙ sym (view_of_empty k doc f w e h)
  filled-view f w (done (b ∷ bs)) w' e h (le, now, ended, fewer) =
      ap
        (λ n.
          newest_first n f.ungot_buf ++ (read_ahead (filled f (done (b ∷ bs))).0 ++ coming f.fd w'))
        e
      ∙ ap (λ x. x ++ coming f.fd w')
          (take-append (length (b ∷ bs) - 0) (b ∷ bs) (drop (length (b ∷ bs)) f.rbuf) (omega arith))
      ∙ sym now
      ∙ sym (view_of_empty k doc f w e h)
  filled-view f w (failed x) w' e h (pos, same, fewer, _) =
      view_of_empty k doc (record f { rpos = 0; rlen = 0; err = x }) w' e refl
      ∙ same
      ∙ sym (view_of_empty k doc f w e h)

  filled-GetcPost :
      (f : File) (w : World) (x : Reply (List ℕ)) (w' : World)
      → IsFile f
      → is_unbuffered f.buf_mode ≡ false
      → f.ungot_len ≡ 0
      → f.rpos ≡ f.rlen
      → ReadPost k doc f.fd f.rcap w x w'
      → GetcPost k doc f w (take_filled (filled f x).0 (filled f x).1) w'
  unfolding filled take_filled
  filled-GetcPost f w x w' v buffered e h p =
      go x p (filled-Reads f w x w' v buffered p) (filled-view f w x w' e h p)
    where
      go :
          (x : Reply (List ℕ))
          → ReadPost k doc f.fd f.rcap w x w'
          → Reads k doc f w (filled f x).0 w'
          → view k doc (filled f x).0 w' ≡ view k doc f w
          → GetcPost k doc f w (take_filled (filled f x).0 (filled f x).1) w'
      go (done []) (_, now, ended, _) s same = (
        s,
        (
          same,
          inl (refl, refl, view_of_empty k doc f w e h ∙ now ∙ ended refl (v.rcap_pos buffered)),
        ),
      )
      go (done (b ∷ bs)) _ s same =
          let g = (filled f (done (b ∷ bs))).0 in
          let (t, kept, first) = take_buffered-GetcPost k doc g w' s.valid e (omega arith) in
          let not_empty : (length (b ∷ bs) == 0) ≡ false = ground arith in
          rw not_empty
            (Reads-trans k doc f g (take_buffered g).0 w w' w' s t, kept, sym same ∙ first)
      go (failed y) (pos, _, _, _) s same = (s, (same, inr pos))

  -- If the fuel exceeds the signals to come, getc ends and keeps the stream sound. It takes the
  -- first byte of the view, or returns EOF and leaves the view, which then is empty with the end of
  -- file set, or the error indicator is set.
  pub getc-GetcPost :
      (fuel : ℕ) (f : File) (w : World)
      → IsFile f
      → signals w < fuel
      → Returns (getc k fuel f w) (GetcPost k doc f w)
  unfolding getc
  getc-GetcPost fuel f w v hs = elim (Bool-cases (ltb 0 f.ungot_len)) [
    | inl back ↦ rw back (
        Returns-pure (GetcPost k doc f w) (take_ungot f) w
          (take_ungot-GetcPost k doc f w v (ground arith)))
    | inr none_back ↦ rw none_back (without none_back (ground arith))
  ]
    where
      buffered_case :
          f.ungot_len ≡ 0
          → is_unbuffered f.buf_mode ≡ false
          → Returns
              ((if f.rpos == f.rlen
                  then (fill_read k fuel f >>= λ (f', st). pure (take_filled f' st))
                  else pure (take_buffered f))
                w)
              (GetcPost k doc f w)
      buffered_case e buffered = elim (Bool-cases (f.rpos == f.rlen)) [
        | inl used ↦ rw used (
            Returns-bind (FillPost k doc f w) (GetcPost k doc f w) (fill_read k fuel f) _ w
              (fill_read-FillPost k doc fuel f w buffered hs)
              (λ r w' p. Returns-pure (GetcPost k doc f w) (take_filled r.0 r.1) w' (
                subst (λ q. GetcPost k doc f w (take_filled q.0 q.1) w') (sym p.2)
                  (filled-GetcPost f w p.0 w' v buffered e ((==_iff _ _).0 used) p.1))))
        | inr left ↦ rw left (
            Returns-pure (GetcPost k doc f w) (take_buffered f) w
              (take_buffered-GetcPost k doc f w v e (ground arith)))
      ]

      without :
          ltb 0 f.ungot_len ≡ false
          → f.ungot_len ≡ 0
          → Returns
              ((if is_unbuffered f.buf_mode
                  then (read_nointr k fuel f.fd 1 >>= λ r. pure (take_direct f r))
                  else (if f.rpos == f.rlen
                      then (fill_read k fuel f >>= λ (f', st). pure (take_filled f' st))
                      else pure (take_buffered f)))
                w)
              (GetcPost k doc f w)
      without _ e = elim (Bool-cases (is_unbuffered f.buf_mode)) [
        | inl direct ↦ rw direct (
            Returns-bind (ReadPost k doc f.fd 1 w) (GetcPost k doc f w) (read_nointr k fuel f.fd 1)
              _ w (read_nointr-Returns k doc fuel f.fd 1 w hs)
              (λ r w' p.
                Returns-pure (GetcPost k doc f w) (take_direct f r) w'
                  (take_direct-GetcPost k doc f w r w' v e direct p)))
        | inr buffered ↦ rw buffered (buffered_case e buffered)
      ]

  -- ungetc puts the byte in front of the view, clears the end of file, and refuses only a ninth.
  pub ungetc-view :
      (c : ℕ) (f : File) (w : World)
      → IsFile f
      → c < 256
      → f.ungot_len < ungot_size
      → let (f', r) = ungetc (some c) f in
        (r ≡ some c) × IsFile f' × (f'.eof ≡ false) × (view k doc f' w ≡ c ∷ view k doc f w)
  unfolding ungetc
  ungetc-view c f w v hc room =
      let free : (f.ungot_len == ungot_size) ≡ false = ground arith in
      let byte : c % 256 ≡ c = omega arith in
      let more : f.ungot_len + 1 ≡ suc f.ungot_len = omega arith in
      rw (free, byte)
        (
          refl,
          ground (arith, length-set f.ungot_buf f.ungot_len c),
          refl,
          rw (
            more,
            get_or-set_self f.ungot_buf f.ungot_len c (omega arith),
            newest_first-set f.ungot_len f.ungot_buf f.ungot_len c (omega arith),
          ),
        )
