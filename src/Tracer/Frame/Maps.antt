-- ===== src/Tracer/Frame/Maps.antt =====
-- The generation of a process's mappings in src/linux/helpers/syscall-tracer.bpf.c, and the event that
-- carries it.
use frida_core.Base.{
  ℕ, ◌+◌, ◌%◌, ◌<◌, ◌≡◌, refl, sym, ap₂, subst, ◌∙◌, true, false, Option, none, some, ◌∷◌, ◌==◌,
  ==_iff, if◌then◌else◌, arith,
}
use frida_core.Tracer.{word, State, Env, ProcessState, create, MapCreateEvent}
use frida_core.Tracer.Gate.{
  tgid_of, should_trace_current, set_process, if_reserved, reserved, bump_map_gen,
}
use frida_core.Tracer.Path.{Dentries, BufBuilder}
use frida_core.Tracer.Mappings.{File, VmArea, create_event, emit_create, on_uprobe_mmap}
use frida_core.Tracer.Frame.{update_hit}

-- A mapping that is recorded under the next generation
pub record IsMapped (env : Env) (vma : VmArea) (st : ProcessState) (s t : State) : Type 0 where
  pub event : MapCreateEvent
  pub submitted : t.map_events ≡ create event ∷ s.map_events
  pub next : event.gen ≡ st.map_gen + 1
  pub start : event.start ≡ vma.vm_start
  pub end : event.end ≡ vma.vm_end
  pub bumped : t.process_states (tgid_of env) ≡ some (record st { map_gen = st.map_gen + 1 })
  pub records : t.syscall_events ≡ s.syscall_events

bump_map_gen-next :
    (env : Env) (s : State) (st : ProcessState)
    → s.process_states (tgid_of env) ≡ some st
    → (st.map_gen == 0) ≡ false
    → st.map_gen + 1 < word
    → bump_map_gen env s ≡ (
      st.map_gen + 1,
      set_process (tgid_of env) (some (record st { map_gen = st.map_gen + 1 })) s,
    )
unfolding bump_map_gen
bump_map_gen-next env s st found counted small =
    let e : (st.map_gen + 1) % word ≡ st.map_gen + 1 = omega arith in
    rw (found, bump_map_gen, counted, e) refl

emit_create-IsMapped :
    (env : Env) (ds : Dentries) (scratch : Option BufBuilder) (vma : VmArea) (s : State)
    (st : ProcessState) (file : File) (inode : ℕ × ℕ)
    → ((t : State) → env.map_events_room t 344 ≡ true)
    → IsMapped env vma st s (
        emit_create env ds scratch vma file inode
          (st.map_gen + 1)
          (set_process (tgid_of env) (some (record st { map_gen = st.map_gen + 1 })) s))
unfolding emit_create create_event if_reserved reserved
emit_create-IsMapped env ds scratch vma s st file inode room =
    let s' = set_process (tgid_of env) (some (record st { map_gen = st.map_gen + 1 })) s in
    rw (room s') (record {
      event = _;
      submitted = refl;
      next = refl;
      start = refl;
      end = refl;
      bumped =
          update_hit s.process_states (tgid_of env) _ (tgid_of env)
            ((==_iff (tgid_of env) (tgid_of env)).1 refl);
      records = refl;
    })

-- When a traced process whose mappings are known maps a file that has an inode, its generation is not
-- the last before it wraps, and the ring buffer has room, then its generation goes up by one, one map
-- event with the new generation and the bounds of the mapping is submitted, and the records of the
-- syscalls stay.
pub on_uprobe_mmap-IsMapped :
    (env : Env) (ds : Dentries) (scratch : Option BufBuilder) (vma : VmArea) (s : State)
    (st : ProcessState) (file : File) (inode : ℕ × ℕ)
    → should_trace_current env ≡ true
    → s.process_states (tgid_of env) ≡ some st
    → (st.map_gen == 0) ≡ false
    → st.map_gen + 1 < word
    → vma.vm_file ≡ some file
    → file.f_inode ≡ some inode
    → ((t : State) → env.map_events_room t 344 ≡ true)
    → IsMapped env vma st s (on_uprobe_mmap env ds scratch vma s)
unfolding on_uprobe_mmap emit_create create_event
on_uprobe_mmap-IsMapped env ds scratch vma s st file inode traced found counted small mapped real
      room =
    let gen = st.map_gen + 1 in
    let s' = set_process (tgid_of env) (some (record st { map_gen = gen })) s in
    let known : (gen == 0) ≡ false = ground arith in
    let body : ℕ × State → Option File → State = λ r f.
      if r.0 == 0 then r.1 else (elim f as (λ _. State) [
        | none ↦ r.1
        | some file' ↦ elim file'.f_inode as (λ _. State) [
          | none ↦ r.1
          | some inode' ↦ emit_create env ds scratch vma file' inode' r.0 r.1
        ]
      ]) in
    let runs : body (bump_map_gen env s) vma.vm_file
        ≡ emit_create env ds scratch vma file inode gen s' =
      ap₂ body (bump_map_gen-next env s st found counted small) mapped ∙ rw (known, real) refl in
    rw traced (
      subst (IsMapped env vma st s) (sym runs)
        (emit_create-IsMapped env ds scratch vma s st file inode room))
