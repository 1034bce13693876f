-- ===== src/Loader/Parts.antt =====
-- The account of the descriptors over the last parts of the thread of src/linux/helpers/loader.c.
use frida_core.Base.{
  ℕ, ◌<◌, ◌≡◌, Bool, true, false, Option, none, some, [], ◌∷◌, ◌==◌, if◌then◌else◌, arith,
}
use frida_core.Io.{M, pure, ◌>>=◌, Returns, Returns-pure, Returns-bind, Returns-weaken}
use frida_core.Loader.{
  Libc, InjectorState, Context, Locals, call, receive_fd, send_ready, receive_ack, send_bye,
  close_if, enable_close_on_exec, policy_immediate, policy_deferred,
}
use frida_core.Loader.Main.{shake_hands, run, say_bye, unload, beach}
use frida_core.Loader.Ledger.{Ledger, Documented, Balance, one_if, held_by}
use frida_core.Loader.Chunks.{Returns-call, send_loop-Even, send_both-Even, receive_fd-gains}
use frida_core.Loader.Balance.{own, Holds, close_if-closes, one_if-none, close_some}
use frida_core.Loader.Descriptors.{enable_close_on_exec-Even, receive_ack-Even}

module _ (c : Libc) (g : Ledger c) (doc : Documented c g) (d : ℕ) (fuel : ℕ) where
  open c use {World}

  pub shake_hands-Holds :
      (fd : ℕ) (l : Locals) (w : World)
      → 4 < fuel
      → one_if d l.agent_ctrlfd ≡ 0
      → Returns (shake_hands c fuel fd l w) (Holds c g doc d fuel w (own d l) (λ r. own d r.0))
  unfolding shake_hands send_ready
  shake_hands-Holds fd l w h ha =
      Returns-bind (Holds c g doc d fuel w 0 (one_if d))
        (Holds c g doc d fuel w (own d l) (λ r. own d r.0)) (receive_fd c fuel fd) _ w
        (receive_fd-gains c g doc d fuel fd w)
        (λ a u p.
          Returns-bind (Holds c g doc d fuel u 0 (λ _. 0))
            (Holds c g doc d fuel w (own d l) (λ r. own d r.0)) (enable_close_on_exec c fuel a) _ u
            (enable_close_on_exec-Even c g doc d fuel a u)
            (λ _ v q.
              Returns-bind (Holds c g doc d fuel v 0 (λ _. 0))
                (Holds c g doc d fuel w (own d l) (λ r. own d r.0)) (send_ready c fuel fd) _ v
                (ready v) (λ ok x t. go a ok x (omega arith))))
    where
      ready : (v : World) → Returns (send_ready c fuel fd v) (Holds c g doc d fuel v 0 (λ _. 0))
      ready v = (send_loop-Even c g doc d fuel fuel fd (1 ∷ []) v (omega arith))

      go :
          (a : Option ℕ) (ok : Bool) (x : World)
          → Balance g d w 0 x (one_if d a)
          → Returns {A = Locals × Bool}
              ((if ok
                  then (receive_ack c fuel fd >>= λ ack. pure (record l { agent_ctrlfd = a }, ack))
                  else pure (record l { agent_ctrlfd = a }, false))
                x)
              (Holds c g doc d fuel w (own d l) (λ r. own d r.0))
      go a true x p =
          Returns-bind (Holds c g doc d fuel x 0 (λ _. 0))
            (Holds c g doc d fuel w (own d l) (λ r. own d r.0)) (receive_ack c fuel fd) _ x
            (receive_ack-Even c g doc d fuel fd x (omega arith))
            (λ ack y q.
              Returns-pure (Holds c g doc d fuel w (own d l) (λ r. own d r.0))
                (record l { agent_ctrlfd = a }, ack) y (omega arith))
      go a false x p =
          Returns-pure (Holds c g doc d fuel w (own d l) (λ r. own d r.0))
            (record l { agent_ctrlfd = a }, false) x (omega arith)

  pub run-Holds :
      (ctx : Context) (l : Locals) (w : World)
      → Returns (run c fuel ctx l w) (Holds c g doc d fuel w (own d l) (own d))
  unfolding run held_by
  run-Holds ctx l w =
      let st : InjectorState = record { frida_ctrlfd = l.ctrlfd; agent_ctrlfd = l.agent_ctrlfd } in
      Returns-bind (Holds c g doc d fuel w (held_by d st) (λ r. held_by d r.1))
        (Holds c g doc d fuel w (own d l) (own d))
        (call (c.run_agent l.agent_entrypoint_impl ctx.agent_data l.unload_policy st)) _ w
        (Returns-call (Holds c g doc d fuel w (held_by d st) (λ r. held_by d r.1))
          (c.run_agent l.agent_entrypoint_impl ctx.agent_data l.unload_policy st) w
          (doc.run_balance d l.agent_entrypoint_impl ctx.agent_data l.unload_policy st w))
        (λ r u p. Returns-pure (Holds c g doc d fuel w (own d l) (own d)) _ u (omega arith))

  pub say_bye-Holds :
      (fd : Option ℕ) (policy : ℕ) (w : World)
      → 4 < fuel
      → Returns (say_bye c fuel fd policy w) (Holds c g doc d fuel w (one_if d fd) (λ _. 0))
  unfolding say_bye send_bye
  say_bye-Holds none policy w h =
      Returns-pure (Holds c g doc d fuel w (one_if d none) (λ _. 0)) tt w
        (omega (arith, one_if-none c g doc d fuel))
  say_bye-Holds (some fd) policy w h =
      Returns-bind (Holds c g doc d fuel w 0 (λ _. 0))
        (Holds c g doc d fuel w (one_if d (some fd)) (λ _. 0)) (send_bye c fuel fd policy) _ w
        (send_both-Even c g doc d fuel fd _ _ w (omega arith) (omega arith))
        (λ _ u p.
          Returns-weaken (Holds c g doc d fuel u (one_if d (some fd)) (λ _. 0))
            (Holds c g doc d fuel w (one_if d (some fd)) (λ _. 0)) _
            (close_some c g doc d fuel fd u) (λ r v q. omega arith))

  pub unload-Even :
      (l : Locals) (w : World) → Returns (unload c fuel l w) (Holds c g doc d fuel w 0 (λ _. 0))
  unfolding unload
  unload-Even l w = go l.agent_handle (l.unload_policy == policy_immediate)
    where
      go :
          (h : Option ℕ) (now : Bool)
          → Returns
              ((elim h as (λ _. M World (Unit {0})) [
                | none ↦ pure tt
                | some handle ↦ if now then call (c.dlclose handle) else pure tt
              ])
                w)
              (Holds c g doc d fuel w 0 (λ _. 0))
      go none now = Returns-pure (Holds c g doc d fuel w 0 (λ _. 0)) tt w (omega arith)
      go (some handle) true =
          Returns-call (Holds c g doc d fuel w 0 (λ _. 0)) (c.dlclose handle) w
            (doc.dlclose_balance d handle w)
      go (some handle) false = Returns-pure (Holds c g doc d fuel w 0 (λ _. 0)) tt w (omega arith)

  pub detach-Even :
      (deferred : Bool) (w : World)
      → Returns
          ((if deferred then pure tt else call c.pthread_detach) w)
          (Holds c g doc d fuel w 0 (λ _. 0))
  detach-Even true w = Returns-pure (Holds c g doc d fuel w 0 (λ _. 0)) tt w (omega arith)
  detach-Even false w =
      Returns-call (Holds c g doc d fuel w 0 (λ _. 0)) c.pthread_detach w (doc.detach_balance d w)

  pub beach-Holds :
      (l : Locals) (w : World)
      → 4 < fuel
      → Returns (beach c fuel l w) (Holds c g doc d fuel w (own d l) (λ _. 0))
  unfolding beach
  beach-Holds l w h =
      Returns-bind (Holds c g doc d fuel w 0 (λ _. 0)) Q (unload c fuel l) _ w (unload-Even l w)
        (λ _ w1 p1.
          Returns-bind (Holds c g doc d fuel w1 0 (λ _. 0)) Q _ _ w1
            (detach-Even (l.unload_policy == policy_deferred) w1)
            (λ _ w2 p2.
              Returns-bind (Holds c g doc d fuel w2 (one_if d l.agent_ctrlfd) (λ _. 0)) Q
                (close_if c fuel l.agent_ctrlfd) _ w2
                (close_if-closes c g doc d fuel l.agent_ctrlfd w2)
                (λ _ w3 p3.
                  Returns-bind (Holds c g doc d fuel w3 (one_if d l.agent_codefd) (λ _. 0)) Q
                    (close_if c fuel l.agent_codefd) _ w3
                    (close_if-closes c g doc d fuel l.agent_codefd w3)
                    (λ _ w4 p4.
                      Returns-weaken (Holds c g doc d fuel w4 (one_if d l.ctrlfd) (λ _. 0)) Q _
                        (say_bye-Holds l.ctrlfd l.unload_policy w4 h) (λ r w5 p5. omega arith)))))
    where
      Q : Unit {0} → World → Type 0
      Q = Holds c g doc d fuel w (own d l) (λ _. 0)
