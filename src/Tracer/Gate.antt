-- ===== src/Tracer/Gate.antt =====
-- What every program of src/linux/helpers/syscall-tracer.bpf.c does first: whether to trace, the
-- record of the process, the reservation in a ring buffer and its statistics.
use frida_core.Base.{
  ℕ, ◌+◌, ◌*◌, ◌/◌, ◌%◌, ◌^◌, Bool, true, false, ◌||◌, Option, none, some, ◌∷◌, ◌==◌, if◌then◌else◌,
}
use Prim.Native.Nat.{bit_or}
use frida_core.Tracer.{
  word, quad, EventType, need_snapshot, Event, SyscallEvent, Abi, native, compat32, ProcessState,
  Stats, State, Env, MapRecord, snapshot, update,
}

-- `pid_tgid >> 32` and `(__u32) pid_tgid`
abbrev pub tgid_of : Env → ℕ
tgid_of env = env.pid_tgid / word

abbrev pub tid_of : Env → ℕ
tid_of env = env.pid_tgid % word

unfoldable pub should_trace_current : Env → Bool
should_trace_current env = env.target_tgids (tgid_of env) || env.target_uids (env.uid_gid % word)

unfoldable pub get_current_abi : Env → Abi
get_current_abi env = elim env.tif_compat32 [
  | none ↦ native
  | some bit ↦ if env.flags / 2 ^ bit % 2 == 1 then compat32 else native
]

-- ABI_NATIVE is 1 and ABI_COMPAT32 is 2.
abbrev pub abi_code : Abi → ℕ
abi_code native = 1
abi_code compat32 = 2

unfoldable pub make_excluded_key : Abi → ℕ → ℕ
make_excluded_key abi nr = bit_or (abi_code abi * word) nr

unfoldable pub syscall_is_excluded : Env → Abi → ℕ → Bool
syscall_is_excluded env abi nr = env.excluded_syscalls (make_excluded_key abi nr)

unfoldable pub note_emit : ℕ → Option Stats → Option Stats
note_emit size none = none
note_emit size (some s) = some (record s {
  emitted_events = (s.emitted_events + 1) % quad;
  emitted_bytes = (s.emitted_bytes + size) % quad;
})

unfoldable pub note_drop : ℕ → Option Stats → Option Stats
note_drop size none = none
note_drop size (some s) = some (record s {
  dropped_events = (s.dropped_events + 1) % quad;
  dropped_bytes = (s.dropped_bytes + size) % quad;
})

-- A reservation with its statistics: reserve_syscall_event and reserve_map_event
unfoldable pub reserved : Bool → ℕ → State → Bool × State
reserved true size s = (true, record s { stats = note_emit size s.stats })
reserved false size s = (false, record s { stats = note_drop size s.stats })

abbrev pub reserve_syscall_event : Env → ℕ → State → Bool × State
reserve_syscall_event env size s = reserved (env.syscall_events_room s size) size s

abbrev pub reserve_map_event : Env → ℕ → State → Bool × State
reserve_map_event env size s = reserved (env.map_events_room s size) size s

-- The fields of an event without attachments
abbrev pub fill_event : Env → EventType → State → Event
fill_event env type s = record {
  time_ns = env.ktime_ns s;
  tgid = tgid_of env;
  tid = tid_of env;
  type = type;
  attachment_count = 0;
}

abbrev pub fill_syscall_event : Env → EventType → ℕ → ℕ → State → SyscallEvent
fill_syscall_event env type nr map_gen s = record {
  parent = fill_event env type s;
  syscall_nr = nr;
  stack_id = env.stack_id s;
  map_gen = map_gen;
}

-- bpf_ringbuf_submit on `map_events`
abbrev pub submit_map : MapRecord → State → State
submit_map r s = record s { map_events = r ∷ s.map_events }

-- What follows a reservation: nothing if it failed.
unfoldable pub if_reserved : (State → State) → Bool × State → State
if_reserved rest (true, s) = rest s
if_reserved rest (false, s) = s

unfoldable pub emit_need_snapshot : Env → State → Bool × State
emit_need_snapshot env s =
    let r = reserve_map_event env 24 s in
    (r.0, if_reserved (λ s'. submit_map (snapshot (fill_event env need_snapshot s')) s') r)

abbrev pub set_process : ℕ → Option ProcessState → State → State
set_process tgid p s = record s { process_states = update s.process_states tgid p }

-- After emit_need_snapshot: the process is stopped, or its entry goes again and `none` is `false`.
unfoldable pub settle : Env → Bool × State → Option ℕ × State
settle env (true, s) = (some 0, record s { stopped = tgid_of env ∷ s.stopped })
settle env (false, s) = (none, set_process (tgid_of env) none s)

-- ensure_process_state for a process that has no entry
unfoldable pub first_seen : Env → Abi → State → Option ℕ × State
first_seen env abi s =
    let init : ProcessState = record { abi = abi; map_gen = 0 } in
    if env.process_states_room s (tgid_of env)
    then settle env (emit_need_snapshot env (set_process (tgid_of env) (some init) s))
    else (none, s)

-- ensure_process_state: the generation of the process's mappings
unfoldable pub ensure_process_state : Env → Abi → State → Option ℕ × State
ensure_process_state env abi s = elim (s.process_states (tgid_of env)) [
  | none ↦ first_seen env abi s
  | some st ↦ (some st.map_gen, s)
]

-- bump_map_gen for an entry; 0 says that there is none, or no snapshot yet.
unfoldable pub bump_map_gen : Env → State → ℕ × State
bump_map_gen env s = elim (s.process_states (tgid_of env)) [
  | none ↦ (0, s)
  | some st ↦
      let gen = (st.map_gen + 1) % word in
      if st.map_gen == 0
      then (0, s)
      else (gen, set_process (tgid_of env) (some (record st { map_gen = gen })) s)
]
