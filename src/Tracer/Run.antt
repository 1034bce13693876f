-- ===== src/Tracer/Run.antt =====
-- The runs of the programs of src/linux/helpers/syscall-tracer.bpf.c, and what its user does to the
-- maps between them (src/linux/syscall-tracer.vala).
use frida_core.Base.{ℕ, ◌≡◌, Option, none, some, []}
use frida_core.Tracer.{ProcessState, State, Env}
use frida_core.Tracer.Gate.{set_process}
use frida_core.Tracer.Attach.{Numbers, SysEnter, SysExit}
use frida_core.Tracer.Enter.{on_sys_enter}
use frida_core.Tracer.Exit.{on_sys_exit}
use frida_core.Tracer.Path.{Dentries, BufBuilder}
use frida_core.Tracer.Mappings.{VmArea, on_uprobe_mmap, on_uprobe_munmap}

-- Nothing has been traced yet; the array of the statistics is zeroed when it is made.
abbrev pub initial : State
initial = record {
  syscall_events = [];
  map_events = [];
  process_states = λ tgid. none;
  inflight = λ tid. none;
  stats =
      some
        (record { emitted_events = 0; emitted_bytes = 0; dropped_events = 0; dropped_bytes = 0 });
  stopped = [];
}

-- One program runs to its end, in any environment that the predicate allows, or the user writes the
-- generation of a process, or takes its entry away.
pub data Step (n : Numbers) (Allowed : Env → Type 0) (s : State) : State → Type 0 where
  entered : (env : Env) (ctx : SysEnter) → Allowed env → Step n Allowed s (on_sys_enter n env ctx s)
  exited : (env : Env) (ctx : SysExit) → Allowed env → Step n Allowed s (on_sys_exit n env ctx s)
  mapped :
      (env : Env) (ds : Dentries) (scratch : Option BufBuilder) (vma : VmArea)
      → Allowed env
      → Step n Allowed s (on_uprobe_mmap env ds scratch vma s)
  unmapped :
      (env : Env) (vma : VmArea) (start end : ℕ)
      → Allowed env
      → Step n Allowed s (on_uprobe_munmap env vma start end s)
  known :
      (tgid : ℕ) (st : ProcessState) (gen : ℕ)
      → s.process_states tgid ≡ some st
      → Step n Allowed s (set_process tgid (some (record st { map_gen = gen })) s)
  evicted : (tgid : ℕ) → Step n Allowed s (set_process tgid none s)

pub data Runs (n : Numbers) (Allowed : Env → Type 0) (s : State) : State → Type 0 where
  done : Runs n Allowed s s
  then_step : {t u : State} → Runs n Allowed s t → Step n Allowed t u → Runs n Allowed s u
