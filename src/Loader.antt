-- ===== src/Loader.antt =====
-- src/linux/helpers/loader.c: the thread that loads the agent and talks to the injector. A file
-- descriptor is `none` where the code has -1, a pointer where it has NULL.
pub mod Main
pub mod Chunks
pub mod Ledger
pub mod Balance
pub mod Descriptors
pub mod Parts
pub mod Session
mod Tests
use frida_core.Base.{
  ℕ, zero, suc, ◌+◌, ◌-◌, ◌/◌, ◌%◌, ◌^◌, Bool, true, false, ◌&&◌, not, Option, none, some, List, [],
  ◌∷◌, ◌++◌, drop, take, length, ◌==◌, if◌then◌else◌,
}
use frida_core.Io.{M, pure, out_of_fuel, ◌>>=◌}

-- struct _FridaLinuxInjectorState
pub record InjectorState : Type 0 where
  pub frida_ctrlfd : Option ℕ
  pub agent_ctrlfd : Option ℕ

-- struct _FridaLibcApi, with the kernel and the loaded agent behind it. `dlopen` takes the descriptor
-- whose /proc/self/fd path it is given; recvmsg also gives the descriptor of the control data, which
-- it is asked for by the Boolean.
pub record Libc : Type 1 where
  pub World : Type 0
  pub close : ℕ → World → Unit {0} × World
  pub socket : World → Option ℕ × World
  pub connect : ℕ → List ℕ → World → Bool × World
  pub send : ℕ → List ℕ → World → Option ℕ × World
  pub recvmsg : ℕ → ℕ → Bool → World → Option (List ℕ × Option ℕ) × World
  pub fcntl_getfd : ℕ → World → ℕ × World
  pub fcntl_setfd : ℕ → ℕ → World → Unit {0} × World
  pub gettid : World → ℕ × World
  pub pthread_detach : World → Unit {0} × World
  pub dlopen : ℕ → World → Option ℕ × World
  pub dlsym : ℕ → List ℕ → World → Option ℕ × World
  pub dlclose : ℕ → World → Unit {0} × World
  pub dlerror : Option (World → List ℕ × World)
  pub run_agent : ℕ → List ℕ → ℕ → InjectorState → World → (ℕ × InjectorState) × World
  pub or_close_on_exec : ℕ → ℕ

-- struct _FridaLoaderContext; a NULL agent_entrypoint_impl is 0.
pub record Context : Type 0 where
  pub ctrlfd_for_peer : Option ℕ
  pub ctrlfd : Option ℕ
  pub agent_entrypoint : List ℕ
  pub agent_data : List ℕ
  pub fallback_address : List ℕ
  pub agent_handle : Option ℕ
  pub agent_entrypoint_impl : ℕ

-- The local variables of frida_main, with the two fields of the context that it sets
pub record Locals : Type 0 where
  pub unload_policy : ℕ
  pub ctrlfd : Option ℕ
  pub agent_codefd : Option ℕ
  pub agent_ctrlfd : Option ℕ
  pub agent_handle : Option ℕ
  pub agent_entrypoint_impl : ℕ

-- FRIDA_UNLOAD_POLICY_IMMEDIATE and FRIDA_UNLOAD_POLICY_DEFERRED
abbrev pub policy_immediate : ℕ
policy_immediate = 0

abbrev pub policy_deferred : ℕ
policy_deferred = 2

-- The bytes of an int, the lowest first
abbrev pub int_bytes : ℕ → List ℕ
int_bytes v = v % 256 ∷ v / 2 ^ 8 % 256 ∷ v / 2 ^ 16 % 256 ∷ v / 2 ^ 24 % 256 ∷ []

-- A call as a step of the monad
unfoldable pub call : {W A : Type 0} → (W → A × W) → M W A
call f w = some (f w)

module _ (c : Libc) (fuel : ℕ) where
  open c use {World}

  -- The loop of frida_send_chunk; `rest` is what remains.
  unfoldable pub send_loop : ℕ → ℕ → List ℕ → M World Bool
  send_loop zero fd rest = out_of_fuel
  send_loop (suc n) fd rest =
      if length rest == 0
      then pure true
      else (call (c.send fd rest) >>= λ r. elim r [
        | none ↦ pure false
        | some sent ↦ send_loop n fd (drop sent rest)
      ])

  abbrev pub send_chunk : ℕ → List ℕ → M World Bool
  send_chunk fd rest = send_loop fuel fd rest

  -- The loop of frida_receive_chunk; `buffer` is what was stored.
  unfoldable pub receive_loop : ℕ → ℕ → ℕ → List ℕ → M World (Option (List ℕ))
  receive_loop zero fd remaining buffer = out_of_fuel
  receive_loop (suc n) fd remaining buffer =
      if remaining == 0
      then pure (some buffer)
      else (call (c.recvmsg fd remaining false) >>= λ r. elim r [
        | none ↦ pure none
        | some (bs, control) ↦
            if length bs == 0
            then pure none
            else receive_loop n fd (remaining - length bs) (buffer ++ bs)
      ])

  abbrev pub receive_chunk : ℕ → ℕ → M World (Option (List ℕ))
  receive_chunk fd size = receive_loop fuel fd size []

  -- frida_receive_fd
  unfoldable pub receive_fd : ℕ → M World (Option ℕ)
  receive_fd fd = call (c.recvmsg fd 1 true) >>= λ r. elim r [
    | none ↦ pure none
    | some (bs, control) ↦ pure (if length bs == 0 then none else control)
  ]

  -- A chunk behind another one
  unfoldable pub send_both : ℕ → List ℕ → List ℕ → M World Bool
  send_both fd a b = send_chunk fd a >>= λ ok. if ok then send_chunk fd b else pure false

  unfoldable pub send_hello : ℕ → ℕ → M World Bool
  send_hello fd thread_id = send_both fd (0 ∷ []) (int_bytes thread_id)

  unfoldable pub send_ready : ℕ → M World Bool
  send_ready fd = send_chunk fd (1 ∷ [])

  unfoldable pub receive_ack : ℕ → M World Bool
  receive_ack fd = receive_chunk fd 1 >>= λ r. elim r [
    | none ↦ pure false
    | some [] ↦ pure false
    | some (b ∷ bs) ↦ pure (b == 2)
  ]

  unfoldable pub send_bye : ℕ → ℕ → M World Bool
  send_bye fd unload_policy = send_both fd (3 ∷ []) (int_bytes unload_policy)

  -- frida_send_error: the length is a uint16_t, and only so many bytes are sent.
  unfoldable pub send_error : ℕ → ℕ → List ℕ → M World Bool
  send_error fd type message =
      let size = length message % 2 ^ 16 in
      send_both fd (type ∷ []) (size % 256 ∷ size / 256 ∷ []) >>= λ ok.
      if ok then send_chunk fd (take size message) else pure false

  -- frida_connect, to the abstract address
  unfoldable pub connect_to : List ℕ → M World (Option ℕ)
  connect_to address = call c.socket >>= λ s. elim s [
    | none ↦ pure none
    | some sockfd ↦ call (c.connect sockfd (0 ∷ address)) >>= λ ok.
        if ok then pure (some sockfd) else (call (c.close sockfd) >>= λ _. pure none)
  ]

  -- `if (fd != -1) close (fd)`
  unfoldable pub close_if : Option ℕ → M World (Unit {0})
  close_if none = pure tt
  close_if (some fd) = call (c.close fd)

  -- frida_enable_close_on_exec
  unfoldable pub enable_close_on_exec : Option ℕ → M World (Unit {0})
  enable_close_on_exec none = pure tt
  enable_close_on_exec (some fd) =
      call (c.fcntl_getfd fd) >>= λ flags. call (c.fcntl_setfd fd (c.or_close_on_exec flags))
