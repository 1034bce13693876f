-- ===== src/Stdio/Nointr.antt =====
-- The wrappers of lib/payload/libc-shim.c that repeat a system call while a signal interrupts it.
use frida_core.Base.{
  ℕ, zero, suc, ◌≡◌, ◌≢◌, ◌≤◌, ◌<◌, ◌⊎◌, refl, sym, ap, ◌∙◌, true, false, List, ◌==◌, Bool-cases,
  inl, inr, arith, some, none,
}
use frida_core.Io.{M, Returns}
use frida_core.Posix.{Kernel, Reply, done, failed, Documented, ReadOutcome, WriteOutcome}

-- `while (TRUE)`: a result is returned, EINTR goes round, any other error is returned.
module _ {W A : Type 0} (eintr : ℕ) (call : W → Reply A × W) where
  unfoldable pub retry : ℕ → M W (Reply A)
  retry zero w = none
  retry (suc n) w =
      let (r, w') = call w in
      elim r [
        | done a ↦ some (done a, w')
        | failed e ↦ elim (e == eintr) [ true ↦ retry n w' | false ↦ some (failed e, w') ]
      ]

  interrupted? : (r : Reply A) → (r ≡ failed eintr) ⊎ (r ≢ failed eintr)
  interrupted? (done a) = inr (λ e. cc)
  interrupted? (failed e) = elim (Bool-cases (e == eintr)) [
    | inl same ↦ inl (ground arith)
    | inr other ↦ inr (λ x. ground arith)
  ]

  retry_interrupted :
      (n : ℕ) (w : W) → (call w).0 ≡ failed eintr → retry (suc n) w ≡ retry n (call w).1
  unfolding retry
  retry_interrupted n w e = ground arith

  retry_final :
      (n : ℕ) (w : W) → (call w).0 ≢ failed eintr → retry (suc n) w ≡ some ((call w).0, (call w).1)
  unfolding retry
  retry_final n w h = ground arith

  -- Each interruption uses up one of the signals, so the loop ends, and with what `P` relates.
  pub retry-Returns :
      (signals : W → ℕ) (P : W → Reply A → W → Type 0)
      → ((w : W) → (call w).0 ≢ failed eintr → P w (call w).0 (call w).1)
      → ((w : W) → (call w).0 ≡ failed eintr → signals (call w).1 < signals w)
      → ((w : W)
          → (call w).0 ≡ failed eintr
          → (r : Reply A) (w' : W) → P (call w).1 r w'
          → P w r w')
      → (n : ℕ) (w : W) → signals w < n
      → Returns (retry n w) (P w)
  retry-Returns signals P last fewer again zero w h = absurd (omega arith)
  retry-Returns signals P last fewer again (suc n) w h = elim (interrupted? (call w).0) [
    | inl e ↦
        let rest =
          retry-Returns signals P last fewer again n (call w).1 (omega (arith, fewer w e)) in
        record {
          result = rest.result;
          after = rest.after;
          computes = retry_interrupted n w e ∙ rest.computes;
          holds = again w e rest.result rest.after rest.holds;
        }
    | inr ne ↦ record {
      result = (call w).0;
      after = (call w).1;
      computes = retry_final n w ne;
      holds = last w ne;
    }
  ]

module _ (k : Kernel) (fuel : ℕ) where
  open k use {World, eintr, read, write, close}

  -- frida_read_nointr, frida_write_nointr and frida_close_nointr
  unfoldable pub read_nointr : ℕ → ℕ → M World (Reply (List ℕ))
  read_nointr fd count = retry eintr (read fd count) fuel

  unfoldable pub write_nointr : ℕ → List ℕ → M World (Reply ℕ)
  write_nointr fd bs = retry eintr (write fd bs) fuel

  unfoldable pub close_nointr : ℕ → M World (Reply ℕ)
  close_nointr fd = retry eintr (close fd) fuel

module _ (k : Kernel) (doc : Documented k) where
  open k use {World, eintr, read, write}
  open doc use {sent, coming, signals, read_outcome, write_outcome}

  -- What is left after the signals: a read that was not interrupted.
  abbrev pub ReadPost : ℕ → ℕ → World → Reply (List ℕ) → World → Type 0
  ReadPost fd count w (done bs) w' = ReadOutcome k sent coming signals fd count w (done bs) w'
  ReadPost fd count w (failed e) w' =
      (0 < e) × (coming fd w' ≡ coming fd w) × (signals w' ≤ signals w) × (e ≢ eintr)

  abbrev pub WritePost : ℕ → List ℕ → World → Reply ℕ → World → Type 0
  WritePost fd bs w (done n) w' = WriteOutcome k sent coming signals fd bs w (done n) w'
  WritePost fd bs w (failed e) w' =
      (0 < e) × (sent fd w' ≡ sent fd w) × (signals w' ≤ signals w) × (e ≢ eintr)

  read_last :
      (fd count : ℕ) (w w' : World) (r : Reply (List ℕ))
      → ReadOutcome k sent coming signals fd count w r w'
      → r ≢ failed eintr
      → ReadPost fd count w r w'
  read_last fd count w w' (done bs) o h = o
  read_last fd count w w' (failed e) o h = (o.0, o.1, o.3, λ x. h (ap failed x))

  read_again :
      (fd count : ℕ) (w w' w'' : World) (r : Reply (List ℕ))
      → ReadOutcome k sent coming signals fd count w (failed eintr) w'
      → ReadPost fd count w' r w''
      → ReadPost fd count w r w''
  read_again fd count w w' w'' (done bs) o p = (p.0, sym o.1 ∙ p.1, p.2, omega arith)
  read_again fd count w w' w'' (failed e) o p = (p.0, p.1 ∙ o.1, omega arith, p.3)

  pub read_nointr-Returns :
      (fuel fd count : ℕ) (w : World)
      → signals w < fuel
      → Returns (read_nointr k fuel fd count w) (ReadPost fd count w)
  unfolding read_nointr
  read_nointr-Returns fuel fd count w h =
      retry-Returns eintr (read fd count) signals (ReadPost fd count)
        (λ v ne. read_last fd count v _ _ (read_outcome fd count v) ne)
        (λ v e. (rw e at (read_outcome fd count v)).2 refl)
        (λ v e r w'' p. read_again fd count v _ w'' r (rw e at (read_outcome fd count v)) p) fuel w
        h

  write_last :
      (fd : ℕ) (bs : List ℕ) (w w' : World) (r : Reply ℕ)
      → WriteOutcome k sent coming signals fd bs w r w'
      → r ≢ failed eintr
      → WritePost fd bs w r w'
  write_last fd bs w w' (done n) o h = o
  write_last fd bs w w' (failed e) o h = (o.0, o.1, o.3, λ x. h (ap failed x))

  write_again :
      (fd : ℕ) (bs : List ℕ) (w w' w'' : World) (r : Reply ℕ)
      → WriteOutcome k sent coming signals fd bs w (failed eintr) w'
      → WritePost fd bs w' r w''
      → WritePost fd bs w r w''
  write_again fd bs w w' w'' (done n) o p = (p.0, p.1, rw (← o.1) p.2, omega arith)
  write_again fd bs w w' w'' (failed e) o p = (p.0, p.1 ∙ o.1, omega arith, p.3)

  pub write_nointr-Returns :
      (fuel fd : ℕ) (bs : List ℕ) (w : World)
      → signals w < fuel
      → Returns (write_nointr k fuel fd bs w) (WritePost fd bs w)
  unfolding write_nointr
  write_nointr-Returns fuel fd bs w h =
      retry-Returns eintr (write fd bs) signals (WritePost fd bs)
        (λ v ne. write_last fd bs v _ _ (write_outcome fd bs v) ne)
        (λ v e. (rw e at (write_outcome fd bs v)).2 refl)
        (λ v e r w'' p. write_again fd bs v _ w'' r (rw e at (write_outcome fd bs v)) p) fuel w h
