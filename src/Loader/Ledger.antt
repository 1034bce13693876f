-- ===== src/Loader/Ledger.antt =====
-- What the calls of src/linux/helpers/loader.c do to file descriptors, and the bounds of send and
-- recvmsg: the documented behaviour of the C library and of the agent's entrypoint.
use frida_core.Base.{
  ℕ, ◌+◌, ◌≤◌, ◌<◌, ◌≡◌, Bool, false, Option, none, some, List, length, ◌==◌, if◌then◌else◌,
}
use frida_core.Loader.{Libc, InjectorState}

-- How often descriptor `d` is held through a variable
unfoldable pub one_if : ℕ → Option ℕ → ℕ
one_if d none = 0
one_if d (some fd) = if fd == d then 1 else 0

-- The descriptor that a message brought
unfoldable pub brought : Option (List ℕ × Option ℕ) → Option ℕ
brought none = none
brought (some (bs, control)) = control

-- How many bytes it brought
unfoldable pub received : Option (List ℕ × Option ℕ) → ℕ
received none = 0
received (some (bs, control)) = length bs

-- How often the entrypoint's descriptors are `d`
unfoldable pub held_by : ℕ → InjectorState → ℕ
held_by d st = one_if d st.frida_ctrlfd + one_if d st.agent_ctrlfd

-- `opened w d`, `closed w d` and `kept w d` count how often descriptor `d` was handed to the thread,
-- closed for good, and taken over by the agent's entrypoint, which holds on to it after its return:
-- src/lib/agent/agent.vala takes over `agent_ctrlfd` and sets it to -1, and on a fork returns the
-- policy DEFERRED with its connection still open. Each law is for one call; `Balance w a w' b` says
-- that what was held (`a`) or handed out between `w` and `w'` was closed or taken over between them or
-- is held afterwards (`b`).
pub record Ledger (c : Libc) : Type 0 where
  pub opened : c.World → ℕ → ℕ
  pub closed : c.World → ℕ → ℕ
  pub kept : c.World → ℕ → ℕ

abbrev pub Balance : {c : Libc} → Ledger c → ℕ → c.World → ℕ → c.World → ℕ → Type 0
Balance g d w a w' b =
    g.closed w' d + g.kept w' d + b + g.opened w d ≡ g.closed w d + g.kept w d + g.opened w' d + a

pub record Documented (c : Libc) (g : Ledger c) : Type 0 where
  pub close_balance :
      (d fd : ℕ) (w : c.World) → Balance g d w (one_if d (some fd)) (c.close fd w).1 0
  pub socket_balance :
      (d : ℕ) (w : c.World) → Balance g d w 0 (c.socket w).1 (one_if d (c.socket w).0)
  pub connect_balance :
      (d fd : ℕ) (address : List ℕ) (w : c.World) → Balance g d w 0 (c.connect fd address w).1 0
  pub send_balance :
      (d fd : ℕ) (bytes : List ℕ) (w : c.World) → Balance g d w 0 (c.send fd bytes w).1 0
  pub recvmsg_balance :
      (d fd n : ℕ) (control : Bool) (w : c.World)
      → Balance g d w 0
          (c.recvmsg fd n control w).1
          (one_if d (brought (c.recvmsg fd n control w).0))
  pub getfd_balance : (d fd : ℕ) (w : c.World) → Balance g d w 0 (c.fcntl_getfd fd w).1 0
  pub setfd_balance :
      (d fd flags : ℕ) (w : c.World) → Balance g d w 0 (c.fcntl_setfd fd flags w).1 0
  pub gettid_balance : (d : ℕ) (w : c.World) → Balance g d w 0 (c.gettid w).1 0
  pub detach_balance : (d : ℕ) (w : c.World) → Balance g d w 0 (c.pthread_detach w).1 0
  pub dlopen_balance : (d fd : ℕ) (w : c.World) → Balance g d w 0 (c.dlopen fd w).1 0
  pub dlsym_balance :
      (d h : ℕ) (symbol : List ℕ) (w : c.World) → Balance g d w 0 (c.dlsym h symbol w).1 0
  pub dlclose_balance : (d h : ℕ) (w : c.World) → Balance g d w 0 (c.dlclose h w).1 0
  pub dlerror_balance :
      (d : ℕ) (e : c.World → List ℕ × c.World) (w : c.World)
      → c.dlerror ≡ some e
      → Balance g d w 0 (e w).1 0
  -- The agent may close the descriptors that it is passed, keep them, and pass others back.
  pub run_balance :
      (d p : ℕ) (text : List ℕ) (policy : ℕ) (st : InjectorState) (w : c.World)
      → Balance g d w
          (held_by d st)
          (c.run_agent p text policy st w).1
          (held_by d (c.run_agent p text policy st w).0.1)
  -- A descriptor comes with at least one byte, and only if there is room for control data.
  pub recvmsg_plain : (fd n : ℕ) (w : c.World) → brought (c.recvmsg fd n false w).0 ≡ none
  pub recvmsg_data :
      (fd n : ℕ) (control : Bool) (w : c.World)
      → received (c.recvmsg fd n control w).0 ≡ 0
      → brought (c.recvmsg fd n control w).0 ≡ none
  pub recvmsg_bound :
      (fd n : ℕ) (control : Bool) (w : c.World) → received (c.recvmsg fd n control w).0 ≤ n
  -- What send takes of bytes that are not empty
  pub send_bound :
      (fd : ℕ) (bytes : List ℕ) (w : c.World) (sent : ℕ)
      → (c.send fd bytes w).0 ≡ some sent
      → 0 < length bytes
      → (0 < sent) × (sent ≤ length bytes)
