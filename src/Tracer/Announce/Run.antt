-- ===== src/Tracer/Announce/Run.antt =====
-- The requests for a snapshot and the records, over any runs of the programs of
-- src/linux/helpers/syscall-tracer.bpf.c.
use frida_core.Base.{
  ℕ, ◌+◌, ◌%◌, ◌≡◌, refl, Bool, true, false, Option, none, some, ◌==◌, if◌then◌else◌, Bool-cases,
  inl, inr,
}
use frida_core.Tracer.{syscall_enter, syscall_exit, word, State, Env, ProcessState, MapRecord}
use frida_core.Tracer.Gate.{
  tgid_of, tid_of, set_process, submit_map, if_reserved, reserved, bump_map_gen,
}
use frida_core.Tracer.Attach.{Numbers}
use frida_core.Tracer.Enter.{nr_of, on_sys_enter}
use frida_core.Tracer.Exit.{on_sys_exit}
use frida_core.Tracer.Mappings.{emit_create, emit_destroy}
use frida_core.Tracer.Run.{
  initial, Step, entered, exited, mapped, unmapped, known, evicted, Runs, done, then_step,
}
use frida_core.Tracer.Frame.Enter.{enter_branch-IsRecorded}
use frida_core.Tracer.Frame.Exit.{exit_found-IsRecorded}
use frida_core.Tracer.Frame.Uprobe.{on_uprobe_mmap-keeps, on_uprobe_munmap-keeps}
use frida_core.Tracer.Announce.{
  IsAnnounced, submit_map-IsAnnounced, set_process-IsAnnounced, admitted-IsAnnounced, none-some,
}

module _ (env : Env) where
  -- A map event of any kind, or none
  map_event-IsAnnounced :
      (got : Bool) (size : ℕ) (r : State → MapRecord) (s : State)
      → IsAnnounced s
      → IsAnnounced (if_reserved (λ s'. submit_map (r s') s') (reserved got size s))
  unfolding if_reserved reserved
  map_event-IsAnnounced true size r s h =
      let s' = (reserved true size s).1 in
      let g = submit_map-IsAnnounced (r s') s h in
      record { processes = g.processes; records = g.records }
  map_event-IsAnnounced false size r s h = record { processes = h.processes; records = h.records }

  bump_map_gen-IsAnnounced : (s : State) → IsAnnounced s → IsAnnounced (bump_map_gen env s).1
  unfolding bump_map_gen
  bump_map_gen-IsAnnounced s h = go (s.process_states (tgid_of env)) refl
    where
      go :
          (found : Option ProcessState)
          → s.process_states (tgid_of env) ≡ found
          → IsAnnounced
              (elim found as (λ _. ℕ × State) [
                | none ↦ (0, s)
                | some st ↦
                    let gen = (st.map_gen + 1) % word in
                    if st.map_gen == 0
                    then (0, s)
                    else (gen, set_process (tgid_of env) (some (record st { map_gen = gen })) s)
              ]).1
      go none e = h
      go (some st) e = elim (Bool-cases (st.map_gen == 0)) [
        | inl unknown ↦ rw unknown h
        | inr counted ↦
            rw counted (
              set_process-IsAnnounced (tgid_of env) _ s (λ st' e'. h.processes (tgid_of env) st e)
                h)
      ]

Step-IsAnnounced :
    {Allowed : Env → Type 0} (n : Numbers) (s t : State)
    → Step n Allowed s t
    → IsAnnounced s
    → IsAnnounced t
unfolding on_sys_enter on_sys_exit emit_create emit_destroy
Step-IsAnnounced n s t (entered env ctx ok) h =
    admitted-IsAnnounced env syscall_enter _ _ s
      (λ gen t'. enter_branch-IsRecorded n env ctx (nr_of ctx) gen t') h
Step-IsAnnounced n s t (exited env ctx ok) h =
    admitted-IsAnnounced env syscall_exit _ _ s
      (λ gen t'. exit_found-IsRecorded n env ctx (ctx.id % word) gen (t'.inflight (tid_of env)) t')
      h
Step-IsAnnounced n s t (mapped env ds scratch vma ok) h =
    on_uprobe_mmap-keeps env IsAnnounced (bump_map_gen-IsAnnounced env) ds scratch vma s
      (λ file inode gen t' g. map_event-IsAnnounced env _ 344 _ t' g) h
Step-IsAnnounced n s t (unmapped env vma start end ok) h =
    on_uprobe_munmap-keeps env IsAnnounced (bump_map_gen-IsAnnounced env) vma start end s
      (λ gen t' g. map_event-IsAnnounced env _ 48 _ t' g) h
Step-IsAnnounced n s t (known tgid st gen e) h =
    set_process-IsAnnounced tgid _ s (λ st' e'. h.processes tgid st e) h
Step-IsAnnounced n s t (evicted tgid) h =
    set_process-IsAnnounced tgid none s (λ st e. absurd (none-some st e)) h

-- After any sequence of runs of the programs, whatever their helpers answer, and of writes of the user
-- to the entries of the processes: the map events hold a request for a snapshot of each process that
-- has an entry, and of each process that a record of a syscall is about.
pub Runs-IsAnnounced :
    (n : Numbers) (s : State) → Runs n (λ env. Unit {0}) initial s → IsAnnounced s
Runs-IsAnnounced n s done = record {
  processes = λ tgid st found. absurd (none-some st found);
  records = tt;
}
Runs-IsAnnounced n s (then_step runs step) = Step-IsAnnounced n _ _ step (Runs-IsAnnounced n _ runs)
