-- ===== src/Tracer/Announce/Refused.antt =====
-- A new process for whose snapshot the ring buffer has no room, in
-- src/linux/helpers/syscall-tracer.bpf.c.
use frida_core.Base.{
  ℕ, ◌≡◌, refl, sym, ◌∙◌, ap, true, false, Option, none, some, ◌==◌, ==_iff, Bool-cases, inl, inr,
}
use frida_core.Tracer.{State, Env, ProcessState, Abi, update}
use frida_core.Tracer.Gate.{
  tgid_of, should_trace_current, get_current_abi, syscall_is_excluded, set_process, note_drop,
  ensure_process_state, first_seen, settle, emit_need_snapshot, if_reserved, reserved,
}
use frida_core.Tracer.Attach.{Numbers, SysEnter}
use frida_core.Tracer.Enter.{nr_of, admitted, enter_branch, on_sys_enter}
use frida_core.Tracer.Frame.{update_hit, update_miss}

-- Everything is as it was, but for the drop in the statistics.
pub record IsRefused (s t : State) : Type 0 where
  pub records : t.syscall_events ≡ s.syscall_events
  pub maps : t.map_events ≡ s.map_events
  pub processes : (tgid : ℕ) → t.process_states tgid ≡ s.process_states tgid
  pub waiting : t.inflight ≡ s.inflight
  pub counted : t.stats ≡ note_drop 24 s.stats
  pub running : t.stopped ≡ s.stopped

-- An entry that is made where there was none, and taken away again
restored :
    {A : Type 0} (f : ℕ → Option A) (key : ℕ) (v : Option A)
    → f key ≡ none
    → (i : ℕ) → update (update f key v) key none i ≡ f i
restored f key v unknown i = elim (Bool-cases (key == i)) [
  | inl same ↦
      update_hit (update f key v) key none i same ∙ (sym unknown ∙ ap f ((==_iff key i).0 same))
  | inr apart ↦ update_miss (update f key v) key none i apart ∙ update_miss f key v i apart
]

first_seen-IsRefused :
    (env : Env) (abi : Abi) (s : State)
    → s.process_states (tgid_of env) ≡ none
    → ((t : State) → env.process_states_room t (tgid_of env) ≡ true)
    → ((t : State) → env.map_events_room t 24 ≡ false)
    → ((first_seen env abi s).0 ≡ none) × IsRefused s (first_seen env abi s).1
unfolding first_seen settle emit_need_snapshot if_reserved reserved
first_seen-IsRefused env abi s unknown entry full =
    let init : ProcessState = record { abi = abi; map_gen = 0 } in
    rw (entry s, full (set_process (tgid_of env) (some init) s))
      (
        refl,
        record {
          records = refl;
          maps = refl;
          processes = restored s.process_states (tgid_of env) (some init) unknown;
          waiting = refl;
          counted = refl;
          running = refl;
        },
      )

ensure_process_state-IsRefused :
    (env : Env) (abi : Abi) (s : State)
    → s.process_states (tgid_of env) ≡ none
    → ((t : State) → env.process_states_room t (tgid_of env) ≡ true)
    → ((t : State) → env.map_events_room t 24 ≡ false)
    → let r = ensure_process_state env abi s in (r.0 ≡ none) × IsRefused s r.1
unfolding ensure_process_state
ensure_process_state-IsRefused env abi s unknown entry full =
    rw (unknown, ensure_process_state) (first_seen-IsRefused env abi s unknown entry full)

-- When a traced process without an entry enters a syscall that is not excluded, and the ring buffer of
-- the map events has no room for the request of its snapshot, nothing is recorded, the process is not
-- stopped and has no entry afterwards, so its next syscall asks again; only the drop is counted.
pub on_sys_enter-IsRefused :
    (n : Numbers) (env : Env) (ctx : SysEnter) (s : State)
    → should_trace_current env ≡ true
    → syscall_is_excluded env (get_current_abi env) (nr_of ctx) ≡ false
    → s.process_states (tgid_of env) ≡ none
    → ((t : State) → env.process_states_room t (tgid_of env) ≡ true)
    → ((t : State) → env.map_events_room t 24 ≡ false)
    → IsRefused s (on_sys_enter n env ctx s)
unfolding on_sys_enter admitted
on_sys_enter-IsRefused n env ctx s traced included unknown entry full =
    rw (traced, included)
      (ended _ (ensure_process_state-IsRefused env (get_current_abi env) s unknown entry full))
  where
    ended :
        (r : Option ℕ × State)
        → (r.0 ≡ none) × IsRefused s r.1
        → IsRefused s (elim r.0 as (λ _. State) [
          | none ↦ r.1
          | some gen ↦ enter_branch n env ctx (nr_of ctx) gen r.1
        ])
    ended (o, t) (e, h) = rw e h
