-- ===== src/Loader/Chunks.antt =====
-- The account of the descriptors over the transfers of src/linux/helpers/loader.c.
use frida_core.Base.{
  ℕ, zero, suc, ◌-◌, ◌%◌, ◌^◌, ◌≤◌, ◌<◌, ◌≡◌, refl, sym, ◌∙◌, Bool, true, false, Option, none, some,
  List, [], ◌∷◌, ◌++◌, drop, take, length, length-drop, length-take, ◌==◌, ==_iff, if◌then◌else◌,
  arith, Bool-cases, inl, inr,
}
use frida_core.Io.{M, pure, ◌>>=◌, Returns, Returns-pure, Returns-bind, Returns-weaken}
use frida_core.Loader.{
  Libc, call, send_loop, send_chunk, receive_loop, receive_fd, send_both, send_error,
}
use frida_core.Loader.Ledger.{Ledger, Documented, Balance, one_if, brought, received}

pub Returns-call :
    {W A : Type 0} (P : A → W → Type 0) (f : W → A × W) (w : W)
    → P (f w).0 (f w).1
    → Returns (call f w) P
unfolding call
Returns-call P f w h = record { result = (f w).0; after = (f w).1; computes = refl; holds = h }

module _ (c : Libc) (g : Ledger c) (doc : Documented c g) (d : ℕ) (fuel : ℕ) where
  open c use {World}

  -- Nothing gained and nothing given away since `w`
  abbrev pub Even : {A : Type 0} → World → A → World → Type 0
  Even w r w' = Balance g d w 0 w' 0

  -- A call that leaves the account even, and what comes behind it
  pub Even-then :
      {A B : Type 0} (m : M World A) (f : A → M World B) (w : World)
      → Returns (m w) (Even w)
      → ((a : A) (w' : World) → Returns (f a w') (Even w'))
      → Returns ((m >>= f) w) (Even w)
  Even-then m f w first rest =
      Returns-bind (Even w) (Even w) m f w first
        (λ a w' p. Returns-weaken (Even w') (Even w) (f a w') (rest a w') (λ b w'' q. omega arith))

  pub Even-pure : {A : Type 0} (a : A) (w : World) → Returns (pure a w) (Even w)
  Even-pure a w = Returns-pure (Even w) a w (omega arith)

  pub send_loop-Even :
      (n fd : ℕ) (bytes : List ℕ) (w : World)
      → length bytes < n
      → Returns (send_loop c fuel n fd bytes w) (Even w)
  unfolding send_loop
  send_loop-Even zero fd bytes w h = absurd (omega arith)
  send_loop-Even (suc n) fd bytes w h = elim (Bool-cases (length bytes == 0)) [
    | inl nothing ↦ rw nothing (Even-pure true w)
    | inr something ↦ rw something (
        Returns-bind (λ r w'. Even w r w' × (r ≡ (c.send fd bytes w).0)) (Even w)
          (call (c.send fd bytes)) _ w
          (Returns-call (λ r w'. Even w r w' × (r ≡ (c.send fd bytes w).0)) (c.send fd bytes) w
            (doc.send_balance d fd bytes w, refl))
          (λ r w' p.
            go r w' p.0 (λ sent e. doc.send_bound fd bytes w sent (sym p.1 ∙ e) (ground arith))
              (λ sent w'' less. send_loop-Even n fd (drop sent bytes) w'' less)))
  ]
    where
      go :
          (r : Option ℕ) (w' : World)
          → Balance g d w 0 w' 0
          → ((sent : ℕ) → r ≡ some sent → (0 < sent) × (sent ≤ length bytes))
          → ((sent : ℕ) (w'' : World)
              → length (drop sent bytes) < n
              → Returns (send_loop c fuel n fd (drop sent bytes) w'') (Even w''))
          → Returns
              ((elim r as (λ _. M World Bool) [
                | none ↦ pure false
                | some sent ↦ send_loop c fuel n fd (drop sent bytes)
              ])
                w')
              (Even w)
      go none w' p bound ih = Returns-pure (Even w) false w' p
      go (some sent) w' p bound ih =
          let b = bound sent refl in
          Returns-weaken (Even w') (Even w) _
            (ih sent w' (omega (arith, length-drop sent bytes, b.0, b.1))) (λ r w'' q. omega arith)

  pub send_both-Even :
      (fd : ℕ) (a b : List ℕ) (w : World)
      → length a < fuel
      → length b < fuel
      → Returns (send_both c fuel fd a b w) (Even w)
  unfolding send_both
  send_both-Even fd a b w ha hb =
      Even-then (send_chunk c fuel fd a) _ w (send_loop-Even fuel fd a w ha) (λ ok w'. go ok w')
    where
      go :
          (ok : Bool) (w' : World)
          → Returns ((if ok then send_chunk c fuel fd b else pure false) w') (Even w')
      go true w' = send_loop-Even fuel fd b w' hb
      go false w' = Even-pure false w'

  pub send_error-Even :
      (fd type : ℕ) (message : List ℕ) (w : World)
      → 2 ^ 16 < fuel
      → Returns (send_error c fuel fd type message w) (Even w)
  unfolding send_error
  send_error-Even fd type message w h =
      Even-then (send_both c fuel fd _ _) _ w
        (send_both-Even fd (type ∷ []) _ w (omega arith) (omega arith)) (λ ok w'. go ok w')
    where
      go :
          (ok : Bool) (w' : World)
          → Returns
              ((if ok
                  then send_chunk c fuel fd (take (length message % 2 ^ 16) message)
                  else pure false)
                w')
              (Even w')
      go true w' =
          send_loop-Even fuel fd _ w' (omega (arith, length-take (length message % 2 ^ 16) message))
      go false w' = Even-pure false w'

  pub receive_loop-Even :
      (n fd remaining : ℕ) (buffer : List ℕ) (w : World)
      → remaining < n
      → Returns (receive_loop c fuel n fd remaining buffer w) (Even w)
  unfolding receive_loop one_if
  receive_loop-Even zero fd remaining buffer w h = absurd (omega arith)
  receive_loop-Even (suc n) fd remaining buffer w h = elim (Bool-cases (remaining == 0)) [
    | inl nothing ↦ rw nothing (Even-pure (some buffer) w)
    | inr something ↦ rw something (
        Returns-bind (λ r w'. Even w r w') (Even w) (call (c.recvmsg fd remaining false)) _ w
          (Returns-call (λ r w'. Even w r w') (c.recvmsg fd remaining false) w
            (rw (doc.recvmsg_plain fd remaining w, one_if) at
              (doc.recvmsg_balance d fd remaining false w)))
          (λ r w' p.
            go r w' p (ground arith)
              (λ left more w'' less. receive_loop-Even n fd left more w'' less)))
  ]
    where
      go :
          (r : Option (List ℕ × Option ℕ)) (w' : World)
          → Balance g d w 0 w' 0
          → 0 < remaining
          → ((left : ℕ) (more : List ℕ) (w'' : World)
              → left < n
              → Returns (receive_loop c fuel n fd left more w'') (Even w''))
          → Returns
              ((elim r as (λ _. M World (Option (List ℕ))) [
                | none ↦ pure none
                | some (bs, control) ↦
                    if length bs == 0
                    then pure none
                    else receive_loop c fuel n fd (remaining - length bs) (buffer ++ bs)
              ])
                w')
              (Even w)
      go none w' p pos ih = Returns-pure (Even w) none w' p
      go (some (bs, control)) w' p pos ih = elim (Bool-cases (length bs == 0)) [
        | inl empty ↦ rw empty (Returns-pure (Even w) none w' p)
        | inr full ↦ rw full (
            Returns-weaken (Even w') (Even w) _
              (ih (remaining - length bs) (buffer ++ bs) w' (ground arith))
              (λ r w'' q. omega arith))
      ]

  pub receive_fd-gains :
      (fd : ℕ) (w : World)
      → Returns (receive_fd c fuel fd w) (λ r w'. Balance g d w 0 w' (one_if d r))
  unfolding receive_fd brought received
  receive_fd-gains fd w =
      Returns-bind (λ r w'. Got r w') (λ r w'. Balance g d w 0 w' (one_if d r))
        (call (c.recvmsg fd 1 true)) _ w
        (Returns-call (λ r w'. Got r w') (c.recvmsg fd 1 true) w
          (doc.recvmsg_balance d fd 1 true w, doc.recvmsg_data fd 1 true w))
        go
    where
      Got : Option (List ℕ × Option ℕ) → World → Type 0
      Got r w' = Balance g d w 0 w' (one_if d (brought r)) × (received r ≡ 0 → brought r ≡ none)

      go :
          (r : Option (List ℕ × Option ℕ)) (w' : World)
          → Got r w'
          → Returns
              ((elim r as (λ _. M World (Option ℕ)) [
                | none ↦ pure none
                | some (bs, control) ↦ pure (if length bs == 0 then none else control)
              ])
                w')
              (λ r w'. Balance g d w 0 w' (one_if d r))
      go none w' p = Returns-pure (λ r w'. Balance g d w 0 w' (one_if d r)) none w' p.0
      go (some (bs, control)) w' p = elim (Bool-cases (length bs == 0)) [
        | inl empty ↦ rw empty (
            Returns-pure (λ r w'. Balance g d w 0 w' (one_if d r)) none w'
              (rw (p.1 ((==_iff (length bs) 0).0 empty)) at p.0))
        | inr full ↦ rw full (Returns-pure (λ r w'. Balance g d w 0 w' (one_if d r)) control w' p.0)
      ]
