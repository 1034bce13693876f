-- ===== src/Loader/Main.antt =====
-- frida_main of src/linux/helpers/loader.c. Each part between two places where the code jumps to
-- `beach` is a function; its `false` is that jump.
use frida_core.Base.{ℕ, Bool, true, false, not, Option, none, some, List, ◌==◌, if◌then◌else◌}
use frida_core.Io.{M, pure, ◌>>=◌}
use frida_core.Loader.{
  Libc, Context, Locals, policy_immediate, policy_deferred, call, receive_fd, send_hello,
  send_ready, receive_ack, send_bye, send_error, connect_to, close_if, enable_close_on_exec,
}

abbrev pub initial : Context → Locals
initial ctx = record {
  unload_policy = policy_immediate;
  ctrlfd = ctx.ctrlfd;
  agent_codefd = none;
  agent_ctrlfd = none;
  agent_handle = ctx.agent_handle;
  agent_entrypoint_impl = ctx.agent_entrypoint_impl;
}

module _ (c : Libc) (fuel : ℕ) where
  open c use {World}

  -- `if (ctrlfd == -1)`: the connection to the fallback address
  unfoldable pub fall_back : Context → ℕ → Locals → M World (Locals × Bool)
  fall_back ctx tid l = connect_to c fuel ctx.fallback_address >>= λ s. elim s [
    | none ↦ pure (record l { ctrlfd = none }, false)
    | some fd ↦ send_hello c fuel fd tid >>= λ ok. pure (record l { ctrlfd = some fd }, ok)
  ]

  -- The hello on the control descriptor, or else on the fallback
  unfoldable pub greet : Context → ℕ → Locals → Option ℕ → M World (Locals × Bool)
  greet ctx tid l none = fall_back ctx tid l
  greet ctx tid l (some fd) = send_hello c fuel fd tid >>= λ ok.
      if ok
      then pure (record l { ctrlfd = some fd }, true)
      else (call (c.close fd) >>= λ _. fall_back ctx tid l)

  -- dlopen_failed and dlsym_failed: the message that goes with the type
  unfoldable pub report : ℕ → ℕ → List ℕ → M World Bool
  report fd type message = elim c.dlerror [
    | none ↦ send_error c fuel fd type message
    | some dlerror ↦ call dlerror >>= λ text. send_error c fuel fd type text
  ]

  -- The entrypoint of an agent that was opened
  unfoldable pub find_entrypoint : Context → ℕ → List ℕ → Locals → ℕ → M World (Locals × Bool)
  find_entrypoint ctx fd no_symbol l handle = call (c.dlsym handle ctx.agent_entrypoint) >>= λ p.
      elim p [
        | none ↦ report fd 5 no_symbol >>= λ _. pure (l, false)
        | some impl ↦ pure (record l { agent_entrypoint_impl = impl }, true)
      ]

  -- `if (ctx->agent_handle == NULL)`; `fd` is the control descriptor.
  unfoldable pub load_agent :
      Context → ℕ → List ℕ → List ℕ → Locals → Option ℕ → M World (Locals × Bool)
  load_agent ctx fd no_library no_symbol l (some handle) = pure (l, true)
  load_agent ctx fd no_library no_symbol l none = receive_fd c fuel fd >>= λ r. elim r [
    | none ↦ pure (l, false)
    | some code ↦ call (c.dlopen code) >>= λ h. elim h [
      | none ↦ report fd 4 no_library >>= λ _. pure (record l { agent_codefd = some code }, false)
      | some handle ↦ call (c.close code) >>= λ _.
          find_entrypoint ctx fd no_symbol (record l { agent_handle = some handle }) handle
    ]
  ]

  -- The agent's descriptor, the ready message and the answer to it
  unfoldable pub shake_hands : ℕ → Locals → M World (Locals × Bool)
  shake_hands fd l = receive_fd c fuel fd >>= λ a. enable_close_on_exec c fuel a >>= λ _.
      send_ready c fuel fd >>= λ ok.
      if ok
      then (receive_ack c fuel fd >>= λ ack. pure (record l { agent_ctrlfd = a }, ack))
      else pure (record l { agent_ctrlfd = a }, false)

  -- The call of the entrypoint, which may replace the descriptors and set the policy
  unfoldable pub run : Context → Locals → M World Locals
  run ctx l =
      call (
        c.run_agent l.agent_entrypoint_impl ctx.agent_data l.unload_policy
          (record { frida_ctrlfd = l.ctrlfd; agent_ctrlfd = l.agent_ctrlfd }))
      >>= λ (policy, st). pure (record l {
        unload_policy = policy;
        ctrlfd = st.frida_ctrlfd;
        agent_ctrlfd = st.agent_ctrlfd;
      })

  -- `if (ctrlfd != -1)` of beach
  unfoldable pub say_bye : Option ℕ → ℕ → M World (Unit {0})
  say_bye none policy = pure tt
  say_bye (some fd) policy = send_bye c fuel fd policy >>= λ _. call (c.close fd)

  unfoldable pub unload : Locals → M World (Unit {0})
  unload l = elim l.agent_handle [
    | none ↦ pure tt
    | some handle ↦ if l.unload_policy == policy_immediate then call (c.dlclose handle) else pure tt
  ]

  -- beach
  unfoldable pub beach : Locals → M World (Unit {0})
  beach l = unload l >>= λ _.
      (if l.unload_policy == policy_deferred then pure tt else call c.pthread_detach) >>= λ _.
      close_if c fuel l.agent_ctrlfd >>= λ _.
      close_if c fuel l.agent_codefd >>= λ _. say_bye l.ctrlfd l.unload_policy

  -- From the hello on
  unfoldable pub session : Context → List ℕ → List ℕ → Locals → M World Locals
  session ctx no_library no_symbol l = elim l.ctrlfd [
    | none ↦ pure l
    | some fd ↦ load_agent ctx fd no_library no_symbol l l.agent_handle >>= λ (l', loaded).
        if not loaded
        then pure l'
        else (shake_hands fd l' >>= λ (l'', acknowledged).
            if not acknowledged then pure l'' else run ctx l'')
  ]

  -- frida_main, with its texts "Unable to load library" and "Unable to find entrypoint"
  unfoldable pub frida_main : Context → List ℕ → List ℕ → M World (Unit {0})
  frida_main ctx no_library no_symbol = call c.gettid >>= λ tid.
      close_if c fuel ctx.ctrlfd_for_peer >>= λ _.
      greet ctx tid (initial ctx) ctx.ctrlfd >>= λ (l, greeted).
      (if greeted then session ctx no_library no_symbol l else pure l) >>= λ l'. beach l'
