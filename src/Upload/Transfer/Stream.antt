-- ===== src/Upload/Transfer/Stream.antt =====
-- The transfers of src/fruity/helpers/upload-receiver.c as parts of the two streams of bytes.
use frida_core.Base.{
  ℕ, zero, suc, ◌+◌, ◌-◌, ◌≤◌, ◌<◌, ◌≡◌, refl, sym, ap, ◌∙◌, Bool, true, false, Option, none, some,
  List, [], ◌∷◌, ◌++◌, append_assoc, append-nil, length, length-append, take, ◌==◌, ==_iff,
  if◌then◌else◌, arith, Bool-cases, inl, inr,
}
use frida_core.Io.{M, pure, Returns, Returns-pure, Returns-bind, Returns-weaken}
use frida_core.Upload.Transfer.{Answer, interrupted, failed, ok, Socket, retry, read_chunk}

-- The two streams of a descriptor, and the interruptions still to come
pub record Streams (s : Socket) : Type 0 where
  pub incoming : s.World → List ℕ
  pub outgoing : s.World → List ℕ
  pub interrupts : s.World → ℕ

-- What a read has done, by its answer: it takes what it returns, at most what was asked for, from the
-- front of the one stream.
abbrev pub ReadPost : (s : Socket) → Streams s → ℕ → s.World → Answer (List ℕ) → s.World → Type 0
ReadPost s g n w interrupted w' =
    (g.interrupts w' < g.interrupts w)
    × (g.incoming w' ≡ g.incoming w)
    × (g.outgoing w' ≡ g.outgoing w)
ReadPost s g n w failed w' =
    (g.interrupts w' ≤ g.interrupts w)
    × (g.incoming w' ≡ g.incoming w)
    × (g.outgoing w' ≡ g.outgoing w)
ReadPost s g n w (ok bs) w' =
    (g.interrupts w' ≤ g.interrupts w)
    × (length bs ≤ n)
    × (g.incoming w ≡ bs ++ g.incoming w')
    × (g.outgoing w' ≡ g.outgoing w)

-- A write puts the bytes that it took, at most all, at the end of the other.
abbrev pub WritePost : (s : Socket) → Streams s → List ℕ → s.World → Answer ℕ → s.World → Type 0
WritePost s g bytes w interrupted w' =
    (g.interrupts w' < g.interrupts w)
    × (g.incoming w' ≡ g.incoming w)
    × (g.outgoing w' ≡ g.outgoing w)
WritePost s g bytes w failed w' =
    (g.interrupts w' ≤ g.interrupts w)
    × (g.incoming w' ≡ g.incoming w)
    × (g.outgoing w' ≡ g.outgoing w)
WritePost s g bytes w (ok sent) w' =
    (g.interrupts w' ≤ g.interrupts w)
    × (sent ≤ length bytes)
    × (g.incoming w' ≡ g.incoming w)
    × (g.outgoing w' ≡ g.outgoing w ++ take sent bytes)

pub record Documented (s : Socket) (g : Streams s) : Type 0 where
  pub read_post : (fd n : ℕ) (w : s.World) → ReadPost s g n w (s.read fd n w).0 (s.read fd n w).1
  pub write_post :
      (fd : ℕ) (bytes : List ℕ) (w : s.World)
      → WritePost s g bytes w (s.write fd bytes w).0 (s.write fd bytes w).1

abbrev pub answer_of : {A : Type 0} → Option A → Answer A
answer_of none = failed
answer_of (some a) = ok a

-- As many bytes as asked for, or fewer
abbrev pub IsLength : Bool → ℕ → ℕ → Type 0
IsLength true got asked = got ≡ asked
IsLength false got asked = got < asked

-- What was got goes behind what was there, and comes from the front of the stream.
pub record IsReceived (s : Socket) (g : Streams s) (asked : ℕ) (buffer : List ℕ) (w : s.World)
    (r : Bool × List ℕ) (w' : s.World) : Type 0 where
  pub got : List ℕ
  pub stored : r.1 ≡ buffer ++ got
  pub taken : g.incoming w ≡ got ++ g.incoming w'
  pub kept : g.outgoing w' ≡ g.outgoing w
  pub enough : IsLength r.0 (length got) asked

-- What was sent comes from the front of the bytes, and goes behind the stream.
pub record IsSent (s : Socket) (g : Streams s) (bytes : List ℕ) (w : s.World) (r : Bool × List ℕ)
    (w' : s.World) : Type 0 where
  pub sent : List ℕ
  pub whole : bytes ≡ sent ++ r.1
  pub put : g.outgoing w' ≡ g.outgoing w ++ sent
  pub kept : g.incoming w' ≡ g.incoming w
  pub enough : IsLength r.0 (length sent) (length bytes)

module _ (s : Socket) (g : Streams s) (doc : Documented s g) where
  open s use {World}

  -- What a read does after an interruption counts from before it.
  after_interrupted :
      (k : ℕ) (w w' w'' : World) (r : Option (List ℕ))
      → ReadPost s g k w interrupted w'
      → ReadPost s g k w' (answer_of r) w''
      → ReadPost s g k w (answer_of r) w''
  after_interrupted k w w' w'' none (less, same, same') (i, a, b) =
      (omega arith, a ∙ same, b ∙ same')
  after_interrupted k w w' w'' (some bs) (less, same, same') (i, len, a, b) =
      (omega arith, len, sym same ∙ a, b ∙ same')

  retry-read :
      (n fd k : ℕ) (w : World)
      → g.interrupts w < n
      → Returns (retry n (s.read fd k) w) (λ r w'. ReadPost s g k w (answer_of r) w')
  unfolding retry
  retry-read zero fd k w h = absurd (omega arith)
  retry-read (suc n) fd k w h =
      go (s.read fd k w).0 (s.read fd k w).1 (doc.read_post fd k w)
        (λ less. retry-read n fd k (s.read fd k w).1 less)
    where
      go :
          (a : Answer (List ℕ)) (w' : World)
          → ReadPost s g k w a w'
          → (g.interrupts w' < n
              → Returns (retry n (s.read fd k) w') (λ r w''. ReadPost s g k w' (answer_of r) w''))
          → Returns
              (elim a as (λ _. Option (Option (List ℕ) × World)) [
                | interrupted ↦ retry n (s.read fd k) w'
                | failed ↦ some (none, w')
                | ok bs ↦ some (some bs, w')
              ])
              (λ r w''. ReadPost s g k w (answer_of r) w'')
      go interrupted w' p ih =
          Returns-weaken _ _ _ (ih (omega (arith, p.0)))
            (λ r w'' q. after_interrupted k w w' w'' r p q)
      go failed w' p ih = record { result = none; after = w'; computes = refl; holds = p }
      go (ok bs) w' p ih = record { result = some bs; after = w'; computes = refl; holds = p }

  -- Two transfers, one behind the other
  pub IsLength-add :
      (done : Bool) (a b asked : ℕ)
      → a ≤ asked
      → IsLength done b (asked - a)
      → IsLength done (a + b) asked
  IsLength-add true a b asked le h = omega arith
  IsLength-add false a b asked le h = omega arith

  more-IsReceived :
      (asked : ℕ) (buffer bs : List ℕ) (w w' w'' : World) (r : Bool × List ℕ)
      → ReadPost s g asked w (ok bs) w'
      → IsReceived s g (asked - length bs) (buffer ++ bs) w' r w''
      → IsReceived s g asked buffer w r w''
  more-IsReceived asked buffer bs w w' w'' r (i, len, taken, kept) h = record {
    got = bs ++ h.got;
    stored = h.stored ∙ append_assoc buffer bs h.got;
    taken = taken ∙ (ap (λ xs. bs ++ xs) h.taken ∙ sym (append_assoc bs h.got (g.incoming w'')));
    kept = h.kept ∙ kept;
    enough =
        rw (length-append bs h.got)
          (IsLength-add r.0 (length bs) (length h.got) asked len h.enough);
  }

  -- With fuel for the interruptions and for each byte, frida_read_chunk ends. It succeeds exactly if it
  -- has got all bytes that were asked for; what it got is the front of the stream in its order, however
  -- the reads were cut, and stands behind what the buffer had.
  pub read_chunk-IsReceived :
      (n fuel fd asked : ℕ) (buffer : List ℕ) (w : World)
      → asked < n
      → g.interrupts w < fuel
      → Returns (read_chunk s fuel fd n asked buffer w) (IsReceived s g asked buffer w)
  unfolding read_chunk
  read_chunk-IsReceived zero fuel fd asked buffer w h waits = absurd (omega arith)
  read_chunk-IsReceived (suc n) fuel fd asked buffer w h waits = elim (Bool-cases (asked == 0)) [
    | inl nothing ↦ rw nothing (
        Returns-pure (IsReceived s g asked buffer w) (true, buffer) w
          (record {
            got = [];
            stored = sym (append-nil buffer);
            taken = refl;
            kept = refl;
            enough = sym ((==_iff asked 0).0 nothing);
          }))
    | inr something ↦ rw something (
        Returns-bind (λ r w'. ReadPost s g asked w (answer_of r) w') (IsReceived s g asked buffer w)
          (retry fuel (s.read fd asked)) _ w (retry-read fuel fd asked w waits)
          (λ r w' p.
            go something
              (λ bs w'' less still.
                read_chunk-IsReceived n fuel fd (asked - length bs) (buffer ++ bs) w'' less still)
              r w' p))
  ]
    where
      go :
          (asked == 0) ≡ false
          → ((bs : List ℕ) (w' : World)
              → asked - length bs < n
              → g.interrupts w' < fuel
              → Returns
                  (read_chunk s fuel fd n (asked - length bs) (buffer ++ bs) w')
                  (IsReceived s g (asked - length bs) (buffer ++ bs) w'))
          → (r : Option (List ℕ)) (w' : World) → ReadPost s g asked w (answer_of r) w'
          → Returns
              ((elim r as (λ _. M World (Bool × List ℕ)) [
                | none ↦ pure (false, buffer)
                | some bs ↦
                    if length bs == 0
                    then pure (false, buffer)
                    else read_chunk s fuel fd n (asked - length bs) (buffer ++ bs)
              ])
                w')
              (IsReceived s g asked buffer w)
      go something ih none w' (i, same, same') =
          Returns-pure (IsReceived s g asked buffer w) (false, buffer) w'
            (record {
              got = [];
              stored = sym (append-nil buffer);
              taken = sym same;
              kept = same';
              enough = ground arith;
            })
      go something ih (some []) w' (i, len, taken, kept) =
          Returns-pure (IsReceived s g asked buffer w) (false, buffer) w'
            (record {
              got = [];
              stored = sym (append-nil buffer);
              taken = taken;
              kept = kept;
              enough = ground arith;
            })
      go something ih (some (b ∷ bs)) w' p =
          let more : (length (b ∷ bs) == 0) ≡ false = ground arith in
          rw more (
            Returns-weaken _ (IsReceived s g asked buffer w) _
              (ih (b ∷ bs) w' (omega (arith, p.1)) (omega (arith, p.0)))
              (λ r w'' q. more-IsReceived asked buffer (b ∷ bs) w w' w'' r p q))
