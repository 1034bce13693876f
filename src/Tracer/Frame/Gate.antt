-- ===== src/Tracer/Frame/Gate.antt =====
-- on_sys_enter and on_sys_exit of src/linux/helpers/syscall-tracer.bpf.c as a whole, for a
-- process that is known already.
use frida_core.Base.{ℕ, ◌≡◌, ap, true, false, none, some}
use frida_core.Tracer.{State, Env, ProcessState, Abi}
use frida_core.Tracer.Gate.{
  tgid_of, should_trace_current, get_current_abi, syscall_is_excluded, ensure_process_state,
}
use frida_core.Tracer.Enter.{admitted}

ensure_process_state-known :
    (env : Env) (abi : Abi) (s : State) (st : ProcessState)
    → s.process_states (tgid_of env) ≡ some st
    → ensure_process_state env abi s ≡ (some st.map_gen, s)
unfolding ensure_process_state
ensure_process_state-known env abi s st found = rw (found, ensure_process_state)

pub admitted-known :
    (env : Env) (nr : ℕ) (go : ℕ → State → State) (s : State) (st : ProcessState)
    → should_trace_current env ≡ true
    → syscall_is_excluded env (get_current_abi env) nr ≡ false
    → s.process_states (tgid_of env) ≡ some st
    → admitted env nr go (ensure_process_state env (get_current_abi env)) s ≡ go st.map_gen s
unfolding admitted
admitted-known env nr go s st traced included found =
    rw (traced, included)
      (ap (λ r. elim r.0 as (λ _. State) [ none ↦ r.1 | some gen ↦ go gen r.1 ])
        (ensure_process_state-known env (get_current_abi env) s st found))
