-- ===== src/Loader/Descriptors.antt =====
-- The account of the descriptors while src/linux/helpers/loader.c opens the agent.
use frida_core.Base.{
  ℕ, ◌^◌, ◌<◌, ◌≡◌, Bool, true, false, Option, none, some, List, [], ◌∷◌, ◌==◌, arith,
}
use frida_core.Io.{M, pure, ◌>>=◌, Returns, Returns-pure, Returns-bind, Returns-weaken}
use frida_core.Loader.{
  Libc, Context, Locals, call, receive_fd, receive_ack, receive_loop, enable_close_on_exec,
}
use frida_core.Loader.Main.{report, find_entrypoint, load_agent}
use frida_core.Loader.Ledger.{Ledger, Documented, Balance, one_if}
use frida_core.Loader.Chunks.{Returns-call, receive_loop-Even, receive_fd-gains}
use frida_core.Loader.Balance.{own, Holds, follow, report-Even, one_if-none, close_some}

module _ (c : Libc) (g : Ledger c) (doc : Documented c g) (d : ℕ) (fuel : ℕ) where
  open c use {World}

  -- What load_agent leaves: the agent has no control descriptor yet.
  unfoldable pub Loaded : World → ℕ → Locals × Bool → World → Type 0
  Loaded w a r w' = Balance g d w a w' (own d r.0) × (one_if d r.0.agent_ctrlfd ≡ 0)

  find_entrypoint-Loaded :
      (ctx : Context) (fd : ℕ) (text : List ℕ) (l : Locals) (handle : ℕ) (w : World)
      → 2 ^ 16 < fuel
      → one_if d l.agent_ctrlfd ≡ 0
      → Returns (find_entrypoint c fuel ctx fd text l handle w) (Loaded w (own d l))
  unfolding find_entrypoint Loaded
  find_entrypoint-Loaded ctx fd text l handle w h ha =
      Returns-bind (Holds c g doc d fuel w 0 (λ _. 0)) (Loaded w (own d l))
        (call (c.dlsym handle ctx.agent_entrypoint)) _ w
        (Returns-call (Holds c g doc d fuel w 0 (λ _. 0)) (c.dlsym handle ctx.agent_entrypoint) w
          (doc.dlsym_balance d handle ctx.agent_entrypoint w))
        go
    where
      go :
          (p : Option ℕ) (u : World)
          → Balance g d w 0 u 0
          → Returns
              ((elim p as (λ _. M World (Locals × Bool)) [
                | none ↦ report c fuel fd 5 text >>= λ _. pure (l, false)
                | some impl ↦ pure (record l { agent_entrypoint_impl = impl }, true)
              ])
                u)
              (Loaded w (own d l))
      go none u q =
          Returns-bind (Holds c g doc d fuel u 0 (λ _. 0)) (Loaded w (own d l))
            (report c fuel fd 5 text) _ u (report-Even c g doc d fuel fd 5 text u h)
            (λ _ v t. Returns-pure (Loaded w (own d l)) (l, false) v (omega arith, ha))
      go (some impl) u q =
          Returns-pure (Loaded w (own d l)) (record l { agent_entrypoint_impl = impl }, true) u
            (omega arith, ha)

  pub load_agent-Loaded :
      (ctx : Context) (fd : ℕ) (a b : List ℕ) (l : Locals) (handle : Option ℕ) (w : World)
      → 2 ^ 16 < fuel
      → one_if d l.agent_codefd ≡ 0
      → one_if d l.agent_ctrlfd ≡ 0
      → Returns (load_agent c fuel ctx fd a b l handle w) (Loaded w (own d l))
  unfolding load_agent Loaded
  load_agent-Loaded ctx fd a b l (some handle) w h hc ha =
      Returns-pure (Loaded w (own d l)) (l, true) w (omega arith, ha)
  load_agent-Loaded ctx fd a b l none w h hc ha =
      Returns-bind (Holds c g doc d fuel w 0 (one_if d)) (Loaded w (own d l)) (receive_fd c fuel fd)
        _ w (receive_fd-gains c g doc d fuel fd w) got
    where
      opened :
          (code : ℕ) (h' : Option ℕ) (u : World)
          → Balance g d w 0 u (one_if d (some code))
          → Returns
              ((elim h' as (λ _. M World (Locals × Bool)) [
                | none ↦ report c fuel fd 4 a >>= λ _.
                    pure (record l { agent_codefd = some code }, false)
                | some handle ↦ call (c.close code) >>= λ _.
                    find_entrypoint c fuel ctx fd b (record l { agent_handle = some handle }) handle
              ])
                u)
              (Loaded w (own d l))
      opened code none u q =
          Returns-bind (Holds c g doc d fuel u 0 (λ _. 0)) (Loaded w (own d l))
            (report c fuel fd 4 a) _ u (report-Even c g doc d fuel fd 4 a u h)
            (λ _ v t.
              Returns-pure (Loaded w (own d l)) (record l { agent_codefd = some code }, false) v
                (omega arith, ha))
      opened code (some handle) u q =
          Returns-bind (Holds c g doc d fuel u (one_if d (some code)) (λ _. 0)) (Loaded w (own d l))
            (call (c.close code)) _ u (close_some c g doc d fuel code u)
            (λ _ v t.
              Returns-weaken (Loaded v (own d l)) (Loaded w (own d l)) _
                (find_entrypoint-Loaded ctx fd b (record l { agent_handle = some handle }) handle v
                  h ha)
                (λ r x y. (omega (arith, y.0), y.1)))

      got :
          (r : Option ℕ) (u : World)
          → Balance g d w 0 u (one_if d r)
          → Returns
              ((elim r as (λ _. M World (Locals × Bool)) [
                | none ↦ pure (l, false)
                | some code ↦ call (c.dlopen code) >>= λ h'. elim h' [
                  | none ↦ report c fuel fd 4 a >>= λ _.
                      pure (record l { agent_codefd = some code }, false)
                  | some handle ↦ call (c.close code) >>= λ _.
                      find_entrypoint c fuel ctx fd b
                        (record l { agent_handle = some handle })
                        handle
                ]
              ])
                u)
              (Loaded w (own d l))
      got none u q =
          Returns-pure (Loaded w (own d l)) (l, false) u
            (omega (arith, one_if-none c g doc d fuel), ha)
      got (some code) u q =
          Returns-bind (Holds c g doc d fuel u 0 (λ _. 0)) (Loaded w (own d l))
            (call (c.dlopen code)) _ u
            (Returns-call (Holds c g doc d fuel u 0 (λ _. 0)) (c.dlopen code) u
              (doc.dlopen_balance d code u))
            (λ h' v t. opened code h' v (omega arith))

  pub enable_close_on_exec-Even :
      (fd : Option ℕ) (w : World)
      → Returns (enable_close_on_exec c fuel fd w) (Holds c g doc d fuel w 0 (λ _. 0))
  unfolding enable_close_on_exec
  enable_close_on_exec-Even none w =
      Returns-pure (Holds c g doc d fuel w 0 (λ _. 0)) tt w (omega arith)
  enable_close_on_exec-Even (some fd) w =
      follow c g doc d fuel w 0 (λ _. 0) (λ _. 0) (call (c.fcntl_getfd fd)) _
        (Returns-call (Holds c g doc d fuel w 0 (λ _. 0)) (c.fcntl_getfd fd) w
          (doc.getfd_balance d fd w))
        (λ flags u.
          Returns-call (Holds c g doc d fuel u 0 (λ _. 0))
            (c.fcntl_setfd fd (c.or_close_on_exec flags)) u
            (doc.setfd_balance d fd (c.or_close_on_exec flags) u))

  pub receive_ack-Even :
      (fd : ℕ) (w : World)
      → 1 < fuel
      → Returns (receive_ack c fuel fd w) (Holds c g doc d fuel w 0 (λ _. 0))
  unfolding receive_ack
  receive_ack-Even fd w h =
      follow c g doc d fuel w 0 (λ _. 0) (λ _. 0) (receive_loop c fuel fuel fd 1 []) _
        (receive_loop-Even c g doc d fuel fuel fd 1 [] w (omega arith)) go
    where
      go :
          (r : Option (List ℕ)) (u : World)
          → Returns
              ((elim r as (λ _. M World Bool) [
                | none ↦ pure false
                | some [] ↦ pure false
                | some (b ∷ bs) ↦ pure (b == 2)
              ])
                u)
              (Holds c g doc d fuel u 0 (λ _. 0))
      go none u = Returns-pure (Holds c g doc d fuel u 0 (λ _. 0)) false u (omega arith)
      go (some []) u = Returns-pure (Holds c g doc d fuel u 0 (λ _. 0)) false u (omega arith)
      go (some (b ∷ bs)) u =
          Returns-pure (Holds c g doc d fuel u 0 (λ _. 0)) (b == 2) u (omega arith)
