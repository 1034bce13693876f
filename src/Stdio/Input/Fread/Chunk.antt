-- ===== src/Stdio/Input/Fread/Chunk.antt =====
-- One round of the loop of fread of lib/payload/libc-shim.c.
use frida_core.Base.{
  ℕ, ◌≡◌, ◌<◌, refl, sym, ap, ◌∙◌, subst, List, [], ◌∷◌, ◌++◌, length, arith, true, false, inl, inr,
  ◌==◌, Bool-cases, if◌then◌else◌, ltb, ==_iff,
}
use frida_core.Io.{M, pure, ◌>>=◌, Returns, Returns-bind, Returns-pure, Returns-weaken}
use frida_core.Posix.{Kernel, Documented, Reply, done, failed}
use frida_core.Stdio.File.{File, IsFile, Status, success, failure, is_unbuffered}
use frida_core.Stdio.Nointr.{read_nointr, read_nointr-Returns, ReadPost}
use frida_core.Stdio.Buffer.{fill_read}
use frida_core.Stdio.Buffer.Fill.{FillPost, fill_read-FillPost}
use frida_core.Stdio.Input.{fread_more}
use frida_core.Stdio.Input.Reads.{take_ungot-GetcPost, view_of_empty}
use frida_core.Stdio.Input.Fread.Filled.{
  More, chunk_of, MorePost, chunk_of-MorePost, after_fill, filled-MorePost,
}

module _ (k : Kernel) (doc : Documented k) where
  open k use {World}
  open doc use {signals, coming}

  abbrev direct_more : File → List ℕ → More
  direct_more f bs = if length bs == 0 then (record f { eof = true }, [], true) else (f, bs, false)

  direct-MorePost :
      (f : File) (w : World) (left : ℕ) (bs : List ℕ) (w' : World)
      → IsFile f
      → is_unbuffered f.buf_mode ≡ true
      → f.ungot_len ≡ 0
      → 0 < left
      → ReadPost k doc f.fd left w (done bs) w'
      → MorePost k doc f w left (direct_more f bs) w'
  direct-MorePost f w left [] w' v direct e pos (le, now, ended, fewer) = (
    record { valid = ground arith; same_fd = refl; same_mode = refl; fewer = fewer },
    refl,
    view_of_empty k doc f w e none_ahead ∙ now ∙ sym (view_of_empty k doc f w' e none_ahead),
    inl (refl, refl, view_of_empty k doc f w' e none_ahead ∙ ended refl pos),
  )
    where
      none_ahead : f.rpos ≡ f.rlen
      none_ahead = omega (arith, v.unread_none direct)
  direct-MorePost f w left (b ∷ bs) w' v direct e pos (le, now, ended, fewer) =
      let not_empty : (length (b ∷ bs) == 0) ≡ false = ground arith in
      let none_ahead : f.rpos ≡ f.rlen = omega (arith, v.unread_none direct) in
      rw not_empty (
        record { valid = v; same_fd = refl; same_mode = refl; fewer = fewer },
        refl,
        view_of_empty k doc f w e none_ahead
            ∙ now
            ∙ ap (λ x. (b ∷ bs) ++ x) (sym (view_of_empty k doc f w' e none_ahead)),
        omega arith,
        le,
      )

  module _ (fuel : ℕ) (f : File) (w : World) (left : ℕ) (v : IsFile f) (pos : 0 < left)
      (hs : signals w < fuel) where
    direct_round :
        f.ungot_len ≡ 0
        → is_unbuffered f.buf_mode ≡ true
        → Returns
            ((read_nointr k fuel f.fd left >>= λ r. elim r as (λ _. M World More) [
              | failed e ↦ pure (record f { err = e }, [], true)
              | done bs ↦ pure (direct_more f bs)
            ])
              w)
            (MorePost k doc f w left)
    direct_round e direct =
        Returns-bind (ReadPost k doc f.fd left w) (MorePost k doc f w left)
          (read_nointr k fuel f.fd left) _ w (read_nointr-Returns k doc fuel f.fd left w hs) go
      where
        none_ahead : f.rpos ≡ f.rlen
        none_ahead = omega (arith, v.unread_none direct)

        go :
            (r : Reply (List ℕ)) (u : World)
            → ReadPost k doc f.fd left w r u
            → Returns
                ((elim r as (λ _. M World More) [
                  | failed e ↦ pure (record f { err = e }, [], true)
                  | done bs ↦ pure (direct_more f bs)
                ])
                  u)
                (MorePost k doc f w left)
        go (done bs) u p =
            Returns-pure (MorePost k doc f w left) (direct_more f bs) u
              (direct-MorePost f w left bs u v direct e pos p)
        go (failed y) u (bad, same, fewer, _) =
            Returns-pure (MorePost k doc f w left) (record f { err = y }, [], true) u
              (
                record { valid = ground arith; same_fd = refl; same_mode = refl; fewer = fewer },
                refl,
                view_of_empty k doc f w e none_ahead
                    ∙ sym same
                    ∙ sym (view_of_empty k doc f u e none_ahead),
                inr bad,
              )

    buffered_round :
        f.ungot_len ≡ 0
        → is_unbuffered f.buf_mode ≡ false
        → Returns
            (((if f.rpos == f.rlen then fill_read k fuel f else pure (f, success)) >>= λ r.
                elim r.1 as (λ _. M World More) [
                  | failure ↦ pure (r.0, [], true)
                  | success ↦ pure (if r.0.rlen == 0 then (r.0, [], true) else chunk_of r.0 left)
                ])
              w)
            (MorePost k doc f w left)
    buffered_round e buffered =
        Returns-bind (λ r u. MorePost k doc f w left (after_fill k doc left r) u)
          (MorePost k doc f w left) _ _ w filled_or_not go
      where
        filled_or_not :
            Returns
              ((if f.rpos == f.rlen then fill_read k fuel f else pure (f, success)) w)
              (λ r u. MorePost k doc f w left (after_fill k doc left r) u)
        filled_or_not = elim (Bool-cases (f.rpos == f.rlen)) [
          | inl used ↦ rw used (
              Returns-weaken (FillPost k doc f w)
                (λ r u. MorePost k doc f w left (after_fill k doc left r) u) _
                (fill_read-FillPost k doc fuel f w buffered hs)
                (λ r u p.
                  subst (λ q. MorePost k doc f w left (after_fill k doc left q) u) (sym p.2)
                    (filled-MorePost k doc f w left p.0 u v buffered e ((==_iff _ _).0 used) pos
                      p.1)))
          | inr some_left ↦ rw some_left (
              let full : (f.rlen == 0) ≡ false = ground arith in
              Returns-pure (λ r u. MorePost k doc f w left (after_fill k doc left r) u) (f, success)
                w (rw full (chunk_of-MorePost k doc f w left v e pos (ground arith))))
        ]

        go :
            (r : File × Status) (u : World)
            → MorePost k doc f w left (after_fill k doc left r) u
            → Returns
                ((elim r.1 as (λ _. M World More) [
                  | failure ↦ pure (r.0, [], true)
                  | success ↦ pure (if r.0.rlen == 0 then (r.0, [], true) else chunk_of r.0 left)
                ])
                  u)
                (MorePost k doc f w left)
        go (g, failure) u p = Returns-pure (MorePost k doc f w left) _ u p
        go (g, success) u p = Returns-pure (MorePost k doc f w left) _ u p

    pub fread_more-MorePost : Returns (fread_more k fuel f left w) (MorePost k doc f w left)
    unfolding fread_more
    fread_more-MorePost = elim (Bool-cases (ltb 0 f.ungot_len)) [
      | inl back ↦ rw back (
          let (s, x, y) = take_ungot-GetcPost k doc f w v (ground arith) in
          Returns-pure (MorePost k doc f w left) _ w (s, x, y, omega arith, omega arith))
      | inr none_back ↦ rw none_back (
          let e : f.ungot_len ≡ 0 = ground arith in
          elim (Bool-cases (is_unbuffered f.buf_mode)) [
            | inl direct ↦ rw direct (direct_round e direct)
            | inr buffered ↦ rw buffered (buffered_round e buffered)
          ])
    ]
