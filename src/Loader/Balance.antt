-- ===== src/Loader/Balance.antt =====
-- The account of the descriptors over frida_main of src/linux/helpers/loader.c.
use frida_core.Base.{
  ℕ, ◌+◌, ◌^◌, ◌<◌, ◌≡◌, refl, Bool, true, false, Option, none, some, List, ◌∷◌, if◌then◌else◌,
  arith,
}
use frida_core.Io.{M, pure, ◌>>=◌, Returns, Returns-pure, Returns-bind, Returns-weaken}
use frida_core.Loader.{Libc, Context, Locals, call, send_hello, send_error, connect_to, close_if}
use frida_core.Loader.Main.{fall_back, greet, report}
use frida_core.Loader.Ledger.{Ledger, Documented, Balance, one_if}
use frida_core.Loader.Chunks.{Returns-call, send_both-Even, send_error-Even}

-- How often the local variables hold descriptor `d`
abbrev pub own : ℕ → Locals → ℕ
own d l = one_if d l.ctrlfd + one_if d l.agent_codefd + one_if d l.agent_ctrlfd

module _ (c : Libc) (g : Ledger c) (doc : Documented c g) (d : ℕ) (fuel : ℕ) where
  open c use {World}

  -- From `a` held at `w` to what `f` says of the result
  abbrev pub Holds : {A : Type 0} → World → ℕ → (A → ℕ) → A → World → Type 0
  Holds w a f r w' = Balance g d w a w' (f r)

  pub follow :
      {A B : Type 0} (w : World) (a : ℕ) (f : A → ℕ) (h : B → ℕ) (m : M World A) (k : A → M World B)
      → Returns (m w) (Holds w a f)
      → ((r : A) (w' : World) → Returns (k r w') (Holds w' (f r) h))
      → Returns ((m >>= k) w) (Holds w a h)
  follow w a f h m k first rest = Returns-bind (Holds w a f) (Holds w a h) m k w first (λ r w' p.
      Returns-weaken (Holds w' (f r) h) (Holds w a h) (k r w') (rest r w') (λ s w'' q. omega arith))

  -- The account with `a` more on both sides
  aside :
      {A : Type 0} (w : World) (a b : ℕ) (f h : A → ℕ) (o : Option (A × World))
      → Returns o (Holds w a f)
      → ((r : A) → h r ≡ f r + b)
      → Returns o (Holds w (a + b) h)
  aside w a b f h o r e =
      Returns-weaken (Holds w a f) (Holds w (a + b) h) o r (λ s w' q. omega (arith, e s))

  connect_to-gains :
      (address : List ℕ) (w : World) → Returns (connect_to c fuel address w) (Holds w 0 (one_if d))
  unfolding connect_to one_if
  connect_to-gains address w =
      follow w 0 (one_if d) (one_if d) (call c.socket) _
        (Returns-call (Holds w 0 (one_if d)) c.socket w (doc.socket_balance d w)) go
    where
      refused :
          (fd : ℕ) (ok : Bool) (u : World)
          → Returns
              ((if ok then pure (some fd) else (call (c.close fd) >>= λ _. pure none)) u)
              (Holds u (one_if d (some fd)) (one_if d))
      refused fd true u =
          Returns-pure (Holds u (one_if d (some fd)) (one_if d)) (some fd) u (omega arith)
      refused fd false u =
          follow u (one_if d (some fd)) (λ _. 0) (one_if d) (call (c.close fd)) _
            (Returns-call (Holds u (one_if d (some fd)) (λ _. 0)) (c.close fd) u
              (doc.close_balance d fd u))
            (λ r v. Returns-pure (Holds v 0 (one_if d)) none v (omega arith))

      go :
          (s : Option ℕ) (w' : World)
          → Returns
              ((elim s as (λ _. M World (Option ℕ)) [
                | none ↦ pure none
                | some sockfd ↦ call (c.connect sockfd (0 ∷ address)) >>= λ ok.
                    if ok then pure (some sockfd) else (call (c.close sockfd) >>= λ _. pure none)
              ])
                w')
              (Holds w' (one_if d s) (one_if d))
      go none w' = Returns-pure (Holds w' 0 (one_if d)) none w' (omega arith)
      go (some fd) w' =
          follow w' (one_if d (some fd)) (λ _. one_if d (some fd)) (one_if d)
            (call (c.connect fd (0 ∷ address))) _
            (Returns-call (Holds w' (one_if d (some fd)) (λ _. one_if d (some fd)))
              (c.connect fd (0 ∷ address)) w'
              (omega (arith, doc.connect_balance d fd (0 ∷ address) w')))
            (refused fd)

  pub close_if-closes :
      (fd : Option ℕ) (w : World) → Returns (close_if c fuel fd w) (Holds w (one_if d fd) (λ _. 0))
  unfolding close_if one_if
  close_if-closes none w = Returns-pure (Holds w 0 (λ _. 0)) tt w (omega arith)
  close_if-closes (some fd) w =
      Returns-call (Holds w (one_if d (some fd)) (λ _. 0)) (c.close fd) w (doc.close_balance d fd w)

  pub send_hello-Even :
      (fd tid : ℕ) (w : World)
      → 4 < fuel
      → Returns (send_hello c fuel fd tid w) (Holds w 0 (λ _. 0))
  unfolding send_hello
  send_hello-Even fd tid w h = send_both-Even c g doc d fuel fd _ _ w (omega arith) (omega arith)

  pub one_if-none : one_if d none ≡ 0
  unfolding one_if
  one_if-none = refl

  pub close_some :
      (fd : ℕ) (w : World) → Returns (call (c.close fd) w) (Holds w (one_if d (some fd)) (λ _. 0))
  close_some fd w =
      Returns-call (Holds w (one_if d (some fd)) (λ _. 0)) (c.close fd) w (doc.close_balance d fd w)

  -- What the first part of frida_main leaves: the agent's descriptors are not there yet.
  unfoldable pub Met : World → ℕ → Locals × Bool → World → Type 0
  Met w a r w' =
      Balance g d w a w' (own d r.0)
      × (one_if d r.0.agent_codefd ≡ 0)
      × (one_if d r.0.agent_ctrlfd ≡ 0)

  fall_back-Met :
      (ctx : Context) (tid : ℕ) (l : Locals) (w : World)
      → 4 < fuel
      → one_if d l.agent_codefd ≡ 0
      → one_if d l.agent_ctrlfd ≡ 0
      → Returns (fall_back c fuel ctx tid l w) (Met w 0)
  unfolding fall_back Met
  fall_back-Met ctx tid l w h hc ha =
      Returns-bind (Holds w 0 (one_if d)) (Met w 0) (connect_to c fuel ctx.fallback_address) _ w
        (connect_to-gains ctx.fallback_address w) go
    where
      go :
          (s : Option ℕ) (w' : World)
          → Balance g d w 0 w' (one_if d s)
          → Returns
              ((elim s as (λ _. M World (Locals × Bool)) [
                | none ↦ pure (record l { ctrlfd = none }, false)
                | some fd ↦
                    send_hello c fuel fd tid >>= λ ok. pure (record l { ctrlfd = some fd }, ok)
              ])
                w')
              (Met w 0)
      go none w' p =
          Returns-pure (Met w 0) (record l { ctrlfd = none }, false) w' (omega arith, hc, ha)
      go (some fd) w' p =
          Returns-bind (Holds w' 0 (λ _. 0)) (Met w 0) (send_hello c fuel fd tid) _ w'
            (send_hello-Even fd tid w' h)
            (λ ok u q.
              Returns-pure (Met w 0) (record l { ctrlfd = some fd }, ok) u (omega arith, hc, ha))

  pub greet-Met :
      (ctx : Context) (tid : ℕ) (l : Locals) (fd : Option ℕ) (w : World)
      → 4 < fuel
      → one_if d l.agent_codefd ≡ 0
      → one_if d l.agent_ctrlfd ≡ 0
      → Returns (greet c fuel ctx tid l fd w) (Met w (one_if d fd))
  unfolding greet Met
  greet-Met ctx tid l none w h hc ha =
      Returns-weaken (Met w 0) (Met w (one_if d none)) _ (fall_back-Met ctx tid l w h hc ha)
        (λ r w' p. (omega (arith, one_if-none), p.1, p.2))
  greet-Met ctx tid l (some fd) w h hc ha =
      Returns-bind (Holds w 0 (λ _. 0)) (Met w (one_if d (some fd))) (send_hello c fuel fd tid) _ w
        (send_hello-Even fd tid w h) go
    where
      go :
          (ok : Bool) (w' : World)
          → Balance g d w 0 w' 0
          → Returns
              ((if ok
                  then pure (record l { ctrlfd = some fd }, true)
                  else (call (c.close fd) >>= λ _. fall_back c fuel ctx tid l))
                w')
              (Met w (one_if d (some fd)))
      go true w' p =
          Returns-pure (Met w (one_if d (some fd))) (record l { ctrlfd = some fd }, true) w'
            (omega arith, hc, ha)
      go false w' p =
          Returns-bind (Holds w' (one_if d (some fd)) (λ _. 0)) (Met w (one_if d (some fd)))
            (call (c.close fd)) _ w' (close_some fd w')
            (λ _ u q.
              Returns-weaken (Met u 0) (Met w (one_if d (some fd))) _
                (fall_back-Met ctx tid l u h hc ha) (λ r v t. (omega (arith, t.0), t.1, t.2)))

  pub report-Even :
      (fd type : ℕ) (message : List ℕ) (w : World)
      → 2 ^ 16 < fuel
      → Returns (report c fuel fd type message w) (Holds w 0 (λ _. 0))
  unfolding report
  report-Even fd type message w h = go c.dlerror refl
    where
      go :
          (e : Option (World → List ℕ × World))
          → c.dlerror ≡ e
          → Returns
              ((elim e as (λ _. M World Bool) [
                | none ↦ send_error c fuel fd type message
                | some dlerror ↦ call dlerror >>= λ text. send_error c fuel fd type text
              ])
                w)
              (Holds w 0 (λ _. 0))
      go none e = send_error-Even c g doc d fuel fd type message w h
      go (some dlerror) e =
          follow w 0 (λ _. 0) (λ _. 0) (call dlerror) _
            (Returns-call (Holds w 0 (λ _. 0)) dlerror w (doc.dlerror_balance d dlerror w e))
            (λ text u. send_error-Even c g doc d fuel fd type text u h)
