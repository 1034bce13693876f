-- ===== src/Loader/Session.antt =====
-- The account of the descriptors over the session and over all of frida_main of
-- src/linux/helpers/loader.c.
use frida_core.Base.{
  ℕ, ◌+◌, ◌^◌, ◌<◌, ◌≡◌, Bool, true, false, not, Option, none, some, List, if◌then◌else◌, arith,
}
use frida_core.Io.{M, pure, ◌>>=◌, Returns, Returns-pure, Returns-bind, Returns-weaken}
use frida_core.Loader.{Libc, Context, Locals, call, close_if}
use frida_core.Loader.Main.{
  initial, greet, load_agent, shake_hands, run, beach, session, frida_main,
}
use frida_core.Loader.Ledger.{Ledger, Documented, Balance, one_if}
use frida_core.Loader.Chunks.{Returns-call}
use frida_core.Loader.Balance.{own, Holds, close_if-closes, Met, greet-Met, one_if-none}
use frida_core.Loader.Descriptors.{Loaded, load_agent-Loaded}
use frida_core.Loader.Parts.{shake_hands-Holds, run-Holds, beach-Holds}

module _ (c : Libc) (g : Ledger c) (doc : Documented c g) (d : ℕ) (fuel : ℕ) where
  open c use {World}

  session-Holds :
      (ctx : Context) (a b : List ℕ) (l : Locals) (w : World)
      → 2 ^ 16 < fuel
      → one_if d l.agent_codefd ≡ 0
      → one_if d l.agent_ctrlfd ≡ 0
      → Returns (session c fuel ctx a b l w) (Holds c g doc d fuel w (own d l) (own d))
  unfolding session Loaded
  session-Holds ctx a b l w h hc ha = go l.ctrlfd
    where
      Q : Locals → World → Type 0
      Q = Holds c g doc d fuel w (own d l) (own d)

      acknowledged :
          (r : Locals × Bool) (u : World)
          → Balance g d w (own d l) u (own d r.0)
          → Returns ((if not r.1 then pure r.0 else run c fuel ctx r.0) u) Q
      acknowledged (m, true) u p =
          Returns-weaken (Holds c g doc d fuel u (own d m) (own d)) Q _
            (run-Holds c g doc d fuel ctx m u) (λ r v q. omega arith)
      acknowledged (m, false) u p = Returns-pure Q m u p

      loaded :
          (fd : ℕ) (r : Locals × Bool) (u : World)
          → Balance g d w (own d l) u (own d r.0)
          → one_if d r.0.agent_ctrlfd ≡ 0
          → Returns
              ((if not r.1
                  then pure r.0
                  else (shake_hands c fuel fd r.0 >>= λ (l'', ok).
                      if not ok then pure l'' else run c fuel ctx l''))
                u)
              Q
      loaded fd (m, false) u p z = Returns-pure Q m u p
      loaded fd (m, true) u p z =
          Returns-bind (Holds c g doc d fuel u (own d m) (λ r. own d r.0)) Q
            (shake_hands c fuel fd m) _ u (shake_hands-Holds c g doc d fuel fd m u (omega arith) z)
            (λ r v q. acknowledged r v (omega arith))

      go :
          (fd : Option ℕ)
          → Returns
              ((elim fd as (λ _. M World Locals) [
                | none ↦ pure l
                | some fd' ↦ load_agent c fuel ctx fd' a b l l.agent_handle >>= λ (l', ok).
                    if not ok
                    then pure l'
                    else (shake_hands c fuel fd' l' >>= λ (l'', ok').
                        if not ok' then pure l'' else run c fuel ctx l'')
              ])
                w)
              Q
      go none = Returns-pure Q l w (omega arith)
      go (some fd) =
          Returns-bind (Loaded c g doc d fuel w (own d l)) Q
            (load_agent c fuel ctx fd a b l l.agent_handle) _ w
            (load_agent-Loaded c g doc d fuel ctx fd a b l l.agent_handle w h hc ha)
            (λ r u p. (loaded fd r u p.0 p.1))

  -- If the fuel exceeds 2 ^ 16 and the agent closes, passes back or takes over the descriptors that it
  -- is passed, frida_main ends, and every descriptor was closed or taken over by the agent as often, in
  -- sum, as it was in the context or was handed out on the way: what the agent did not take over is
  -- closed once and no more. This holds whichever calls fail.
  pub frida_main-closes :
      (ctx : Context) (a b : List ℕ) (w : World)
      → 2 ^ 16 < fuel
      → Returns (frida_main c fuel ctx a b w) (λ _ w'.
        g.closed w' d + g.kept w' d + g.opened w d
        ≡ g.closed w d
          + g.kept w d
          + g.opened w' d
          + one_if d ctx.ctrlfd
          + one_if d ctx.ctrlfd_for_peer)
  unfolding frida_main Met
  frida_main-closes ctx a b w h =
      Returns-bind (Holds c g doc d fuel w 0 (λ _. 0)) Q (call c.gettid) _ w
        (Returns-call (Holds c g doc d fuel w 0 (λ _. 0)) c.gettid w (doc.gettid_balance d w))
        (λ tid w1 p1.
          Returns-bind (Holds c g doc d fuel w1 (one_if d ctx.ctrlfd_for_peer) (λ _. 0)) Q
            (close_if c fuel ctx.ctrlfd_for_peer) _ w1
            (close_if-closes c g doc d fuel ctx.ctrlfd_for_peer w1)
            (λ _ w2 p2.
              Returns-bind (Met c g doc d fuel w2 (one_if d ctx.ctrlfd)) Q
                (greet c fuel ctx tid (initial ctx) ctx.ctrlfd) _ w2
                (greet-Met c g doc d fuel ctx tid (initial ctx) ctx.ctrlfd w2 (omega arith)
                  (one_if-none c g doc d fuel) (one_if-none c g doc d fuel))
                (λ r w3 p3. met r w2 w3 (omega arith) p3)))
    where
      Q : Unit {0} → World → Type 0
      Q _ w' =
          g.closed w' d + g.kept w' d + g.opened w d
          ≡ g.closed w d
            + g.kept w d
            + g.opened w' d
            + one_if d ctx.ctrlfd
            + one_if d ctx.ctrlfd_for_peer

      went :
          (r : Locals × Bool) (u : World)
          → one_if d r.0.agent_codefd ≡ 0
          → one_if d r.0.agent_ctrlfd ≡ 0
          → Returns
              ((if r.1 then session c fuel ctx a b r.0 else pure r.0) u)
              (Holds c g doc d fuel u (own d r.0) (own d))
      went (l, true) u hc ha = session-Holds ctx a b l u h hc ha
      went (l, false) u hc ha =
          Returns-pure (Holds c g doc d fuel u (own d l) (own d)) l u (omega arith)

      met :
          (r : Locals × Bool) (w2 w3 : World)
          → Balance g d w (one_if d ctx.ctrlfd_for_peer) w2 0
          → Met c g doc d fuel w2 (one_if d ctx.ctrlfd) r w3
          → Returns
              (((if r.1 then session c fuel ctx a b r.0 else pure r.0) >>= λ l'. beach c fuel l')
                w3)
              Q
      met r w2 w3 p (even, hc, ha) =
          Returns-bind (Holds c g doc d fuel w3 (own d r.0) (own d)) Q _ _ w3 (went r w3 hc ha)
            (λ l u q.
              Returns-weaken (Holds c g doc d fuel u (own d l) (λ _. 0)) Q _
                (beach-Holds c g doc d fuel l u (omega arith)) (λ _ v x. omega arith))
