-- ===== src/Tracer/Frame/Others.antt =====
-- The entries of `inflight` that belong to other threads, in src/linux/helpers/syscall-tracer.bpf.c.
use frida_core.Base.{
  ℕ, ◌+◌, ◌%◌, ◌≡◌, refl, ◌∙◌, ap, Bool, true, false, not, Option, none, some, ◌==◌, if◌then◌else◌,
  Bool-cases, inl, inr, both_branches,
}
use frida_core.Tracer.{
  EventType, syscall_enter, syscall_exit, word, State, Env, ProcessState, MapRecord, snapshot,
  need_snapshot, Abi,
}
use frida_core.Tracer.Gate.{
  tgid_of, tid_of, should_trace_current, get_current_abi, syscall_is_excluded, set_process,
  submit_map, if_reserved, reserved, bump_map_gen, first_seen, settle, emit_need_snapshot,
  ensure_process_state, fill_event,
}
use frida_core.Tracer.Attach.{Numbers}
use frida_core.Tracer.Enter.{nr_of, admitted, on_sys_enter}
use frida_core.Tracer.Exit.{on_sys_exit}
use frida_core.Tracer.Mappings.{emit_create, emit_destroy}
use frida_core.Tracer.Run.{
  Step, entered, exited, mapped, unmapped, known, evicted, Runs, done, then_step,
}
use frida_core.Tracer.Frame.{LeavesOthers, IsRecorded}
use frida_core.Tracer.Frame.Enter.{enter_branch-IsRecorded}
use frida_core.Tracer.Frame.Exit.{exit_found-IsRecorded}
use frida_core.Tracer.Frame.Uprobe.{on_uprobe_mmap-keeps, on_uprobe_munmap-keeps}

module _ (env : Env) where
  first_seen-inflight : (abi : Abi) (s : State) → (first_seen env abi s).1.inflight ≡ s.inflight
  unfolding first_seen settle emit_need_snapshot if_reserved reserved
  first_seen-inflight abi s = elim (Bool-cases (env.process_states_room s (tgid_of env))) [
    | inr full ↦ rw full
    | inl room ↦ rw room (go (env.map_events_room t 24))
  ]
    where
      t : State
      t = set_process (tgid_of env) (some (record { abi = abi; map_gen = 0 })) s

      go :
          (got : Bool)
          → (settle env (
            (reserved got 24 t).0,
            if_reserved
                (λ s'. submit_map (snapshot (fill_event env need_snapshot s')) s')
                (reserved got 24 t),
          )).1.inflight
            ≡ s.inflight
      go true = refl
      go false = refl

  ensure_process_state-inflight :
      (abi : Abi) (s : State) → (ensure_process_state env abi s).1.inflight ≡ s.inflight
  unfolding ensure_process_state
  ensure_process_state-inflight abi s = go (s.process_states (tgid_of env))
    where
      go :
          (found : Option ProcessState)
          → (elim found as (λ _. Option ℕ × State) [
            | none ↦ first_seen env abi s
            | some st ↦ (some st.map_gen, s)
          ]).1.inflight
            ≡ s.inflight
      go none = first_seen-inflight abi s
      go (some st) = refl

  recorded-LeavesOthers :
      (kind : EventType) (nr gen : ℕ) (s t : State)
      → IsRecorded env kind nr gen s t
      → LeavesOthers env s t
  recorded-LeavesOthers kind nr gen s t (size, inl e) = e.others
  recorded-LeavesOthers kind nr gen s t (size, inr e) = e.others

  admitted-LeavesOthers :
      (kind : EventType) (nr : ℕ) (go : ℕ → State → State) (s : State)
      → ((gen : ℕ) (t : State) → IsRecorded env kind nr gen t (go gen t))
      → LeavesOthers env s (admitted env nr go (ensure_process_state env (get_current_abi env)) s)
  unfolding admitted
  admitted-LeavesOthers kind nr go s records =
      both_branches (LeavesOthers env s) (not (should_trace_current env)) (λ tid other. refl)
        (both_branches (LeavesOthers env s) (syscall_is_excluded env (get_current_abi env) nr)
          (λ tid other. refl) (ended _ (ensure_process_state-inflight (get_current_abi env) s)))
    where
      ended :
          (r : Option ℕ × State)
          → r.1.inflight ≡ s.inflight
          → LeavesOthers env s (elim r.0 as (λ _. State) [ none ↦ r.1 | some gen ↦ go gen r.1 ])
      ended (none, t) e tid other = ap (λ f. f tid) e
      ended (some gen, t) e tid other =
          recorded-LeavesOthers kind nr gen t _ (records gen t) tid other ∙ ap (λ f. f tid) e

  bump_map_gen-inflight :
      (s t : State) → t.inflight ≡ s.inflight → (bump_map_gen env t).1.inflight ≡ s.inflight
  unfolding bump_map_gen
  bump_map_gen-inflight s t e = go (t.process_states (tgid_of env))
    where
      go :
          (found : Option ProcessState)
          → (elim found as (λ _. ℕ × State) [
            | none ↦ (0, t)
            | some st ↦
                let gen = (st.map_gen + 1) % word in
                if st.map_gen == 0
                then (0, t)
                else (gen, set_process (tgid_of env) (some (record st { map_gen = gen })) t)
          ]).1.inflight
            ≡ s.inflight
      go none = e
      go (some st) = elim (Bool-cases (st.map_gen == 0)) [
        | inl unknown ↦ rw unknown e
        | inr counted ↦ rw counted e
      ]

  map_event-inflight :
      (got : Bool) (size : ℕ) (r : State → MapRecord) (s t : State)
      → t.inflight ≡ s.inflight
      → (if_reserved (λ s'. submit_map (r s') s') (reserved got size t)).inflight ≡ s.inflight
  unfolding if_reserved reserved
  map_event-inflight true size r s t e = e
  map_event-inflight false size r s t e = e

Step-inflight :
    (n : Numbers) (tid : ℕ) (s t : State)
    → Step n (λ env. ¬ (tid_of env ≡ tid)) s t
    → t.inflight tid ≡ s.inflight tid
unfolding on_sys_enter on_sys_exit emit_create emit_destroy
Step-inflight n tid s t (entered env ctx other) =
    admitted-LeavesOthers env syscall_enter _ _ s
      (λ gen t'. enter_branch-IsRecorded n env ctx (nr_of ctx) gen t') tid other
Step-inflight n tid s t (exited env ctx other) =
    admitted-LeavesOthers env syscall_exit _ _ s
      (λ gen t'. exit_found-IsRecorded n env ctx (ctx.id % word) gen (t'.inflight (tid_of env)) t')
      tid other
Step-inflight n tid s t (mapped env ds scratch vma other) =
    ap (λ f. f tid)
      (on_uprobe_mmap-keeps env (λ t'. t'.inflight ≡ s.inflight) (bump_map_gen-inflight env s) ds
        scratch vma s (λ file inode gen t' e. map_event-inflight env _ 344 _ s t' e) refl)
Step-inflight n tid s t (unmapped env vma start end other) =
    ap (λ f. f tid)
      (on_uprobe_munmap-keeps env (λ t'. t'.inflight ≡ s.inflight) (bump_map_gen-inflight env s) vma
        start end s (λ gen t' e. map_event-inflight env _ 48 _ s t' e) refl)
Step-inflight n tid s t (known tgid st gen e) = refl
Step-inflight n tid s t (evicted tgid) = refl

-- The runs of other threads do not touch what waits for a thread.
pub Runs-inflight :
    (n : Numbers) (tid : ℕ) (s t : State)
    → Runs n (λ env. ¬ (tid_of env ≡ tid)) s t
    → t.inflight tid ≡ s.inflight tid
Runs-inflight n tid s t done = refl
Runs-inflight n tid s t (then_step {t = u} runs step) =
    Step-inflight n tid u t step ∙ Runs-inflight n tid s u runs
