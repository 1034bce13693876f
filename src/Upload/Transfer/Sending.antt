-- ===== src/Upload/Transfer/Sending.antt =====
-- frida_write_chunk of src/fruity/helpers/upload-receiver.c, and the stream that it writes.
use frida_core.Base.{
  ℕ, zero, suc, ◌<◌, ◌≡◌, refl, sym, ap, ◌∙◌, Bool, true, false, Option, none, some, List, [], ◌++◌,
  append_assoc, append-nil, length, length-append, length-drop, length-take, drop, take,
  take-append-drop, ◌==◌, ==_iff, if◌then◌else◌, arith, Bool-cases, inl, inr,
}
use frida_core.Io.{M, pure, Returns, Returns-pure, Returns-bind, Returns-weaken}
use frida_core.Upload.Transfer.{Answer, interrupted, failed, ok, Socket, retry, write_chunk}
use frida_core.Upload.Transfer.Stream.{
  Streams, Documented, WritePost, answer_of, IsLength-add, IsSent,
}

module _ (s : Socket) (g : Streams s) (doc : Documented s g) where
  open s use {World}

  after_interrupted :
      (bytes : List ℕ) (w w' w'' : World) (r : Option ℕ)
      → WritePost s g bytes w interrupted w'
      → WritePost s g bytes w' (answer_of r) w''
      → WritePost s g bytes w (answer_of r) w''
  after_interrupted bytes w w' w'' none (less, same, same') (i, a, b) =
      (omega arith, a ∙ same, b ∙ same')
  after_interrupted bytes w w' w'' (some sent) (less, same, same') (i, len, a, b) =
      (omega arith, len, a ∙ same, b ∙ ap (λ xs. xs ++ take sent bytes) same')

  retry-write :
      (n fd : ℕ) (bytes : List ℕ) (w : World)
      → g.interrupts w < n
      → Returns (retry n (s.write fd bytes) w) (λ r w'. WritePost s g bytes w (answer_of r) w')
  unfolding retry
  retry-write zero fd bytes w h = absurd (omega arith)
  retry-write (suc n) fd bytes w h =
      go (s.write fd bytes w).0 (s.write fd bytes w).1 (doc.write_post fd bytes w)
        (λ less. retry-write n fd bytes (s.write fd bytes w).1 less)
    where
      go :
          (a : Answer ℕ) (w' : World)
          → WritePost s g bytes w a w'
          → (g.interrupts w' < n
              → Returns
                  (retry n (s.write fd bytes) w')
                  (λ r w''. WritePost s g bytes w' (answer_of r) w''))
          → Returns
              (elim a as (λ _. Option (Option ℕ × World)) [
                | interrupted ↦ retry n (s.write fd bytes) w'
                | failed ↦ some (none, w')
                | ok sent ↦ some (some sent, w')
              ])
              (λ r w''. WritePost s g bytes w (answer_of r) w'')
      go interrupted w' p ih =
          Returns-weaken _ _ _ (ih (omega (arith, p.0)))
            (λ r w'' q. after_interrupted bytes w w' w'' r p q)
      go failed w' p ih = record { result = none; after = w'; computes = refl; holds = p }
      go (ok sent) w' p ih = record { result = some sent; after = w'; computes = refl; holds = p }

  more-IsSent :
      (bytes : List ℕ) (sent : ℕ) (w w' w'' : World) (r : Bool × List ℕ)
      → WritePost s g bytes w (ok sent) w'
      → IsSent s g (drop sent bytes) w' r w''
      → IsSent s g bytes w r w''
  more-IsSent bytes sent w w' w'' r (i, len, kept, put) h = record {
    sent = take sent bytes ++ h.sent;
    whole =
        sym (take-append-drop sent bytes)
        ∙ (ap (λ xs. take sent bytes ++ xs) h.whole
            ∙ sym (append_assoc (take sent bytes) h.sent r.1));
    put =
        h.put
        ∙ (ap (λ xs. xs ++ h.sent) put ∙ append_assoc (g.outgoing w) (take sent bytes) h.sent);
    kept = h.kept ∙ kept;
    enough =
        let whole_length : length (take sent bytes) ≡ sent =
          omega (arith, length-take sent bytes) in
        rw (length-append (take sent bytes) h.sent, whole_length)
          (IsLength-add s g doc r.0 sent (length h.sent) (length bytes) len
            (rw (sym (length-drop sent bytes)) h.enough));
  }

  -- With fuel for the interruptions and for each byte, frida_write_chunk ends. It succeeds exactly if all
  -- bytes were sent; what was sent is the front of the bytes in their order, however the writes were cut.
  pub write_chunk-IsSent :
      (n fuel fd : ℕ) (bytes : List ℕ) (w : World)
      → length bytes < n
      → g.interrupts w < fuel
      → Returns (write_chunk s fuel fd n bytes w) (IsSent s g bytes w)
  unfolding write_chunk
  write_chunk-IsSent zero fuel fd bytes w h waits = absurd (omega arith)
  write_chunk-IsSent (suc n) fuel fd bytes w h waits = elim (Bool-cases (length bytes == 0)) [
    | inl nothing ↦ rw nothing (
        Returns-pure (IsSent s g bytes w) (true, bytes) w
          (record {
            sent = [];
            whole = refl;
            put = sym (append-nil (g.outgoing w));
            kept = refl;
            enough = sym ((==_iff (length bytes) 0).0 nothing);
          }))
    | inr something ↦ rw something (
        Returns-bind (λ r w'. WritePost s g bytes w (answer_of r) w') (IsSent s g bytes w)
          (retry fuel (s.write fd bytes)) _ w (retry-write fuel fd bytes w waits)
          (λ r w' p.
            go something
              (λ sent w'' less still. write_chunk-IsSent n fuel fd (drop sent bytes) w'' less still)
              r w' p))
  ]
    where
      go :
          (length bytes == 0) ≡ false
          → ((sent : ℕ) (w' : World)
              → length (drop sent bytes) < n
              → g.interrupts w' < fuel
              → Returns
                  (write_chunk s fuel fd n (drop sent bytes) w')
                  (IsSent s g (drop sent bytes) w'))
          → (r : Option ℕ) (w' : World) → WritePost s g bytes w (answer_of r) w'
          → Returns
              ((elim r as (λ _. M World (Bool × List ℕ)) [
                | none ↦ pure (false, bytes)
                | some sent ↦
                    if sent == 0
                    then pure (false, bytes)
                    else write_chunk s fuel fd n (drop sent bytes)
              ])
                w')
              (IsSent s g bytes w)
      go something ih none w' (i, same, same') =
          Returns-pure (IsSent s g bytes w) (false, bytes) w'
            (record {
              sent = [];
              whole = refl;
              put = same' ∙ sym (append-nil (g.outgoing w));
              kept = same;
              enough = ground arith;
            })
      go something ih (some zero) w' (i, len, kept, put) =
          Returns-pure (IsSent s g bytes w) (false, bytes) w'
            (record { sent = []; whole = refl; put = put; kept = kept; enough = ground arith })
      go something ih (some (suc sent)) w' p =
          let more : (suc sent == 0) ≡ false = ground arith in
          let left : length (drop (suc sent) bytes) < n =
            omega (arith, length-drop (suc sent) bytes, p.1) in
          rw more (
            Returns-weaken _ (IsSent s g bytes w) _ (ih (suc sent) w' left (omega (arith, p.0)))
              (λ r w'' q. more-IsSent bytes (suc sent) w w' w'' r p q))
