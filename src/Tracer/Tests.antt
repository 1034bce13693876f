-- ===== src/Tracer/Tests.antt =====
-- A kernel for the programs of src/linux/helpers/syscall-tracer.bpf.c: process 10 is traced, a string of
-- the user is "ab", and every other byte of it is an "A".
use frida_core.Base.{
  ap, ℕ, ◌+◌, ◌*◌, ◌^◌, ◌≤◌, ◌≡◌, refl, Bool, true, false, none, some, List, [], ◌∷◌, length, take,
  replicate, length-take, length-replicate, ◌==◌, if◌then◌else◌, arith,
}
use mathlib.Core.Option.{some-injective}
use frida_core.Tracer.{State, Env, ProcessState, native}
use frida_core.Tracer.Gate.{
  should_trace_current, syscall_is_excluded, get_current_abi, make_excluded_key,
}
use frida_core.Tracer.Attach.{Numbers, SysEnter, SysExit}
use frida_core.Tracer.Enter.{on_sys_enter}
use frida_core.Tracer.Exit.{on_sys_exit}
use frida_core.Tracer.Path.{Dentries, BufBuilder, collect, is_mnt_root, mounted_on, path_content}
use frida_core.Tracer.Run.{initial, done, then_step, entered, exited}
use frida_core.Tracer.Sound.{Documented, IsSound}
use frida_core.Tracer.Sound.Run.{Runs-IsSound}
use frida_core.Tracer.Announce.{IsAnnounced}
use frida_core.Tracer.Announce.Run.{Runs-IsAnnounced}
use frida_core.Tracer.Announce.Refused.{IsRefused, on_sys_enter-IsRefused}
use frida_core.Tracer.Mappings.{File, VmArea, on_uprobe_mmap}
use frida_core.Tracer.Frame.Maps.{IsMapped, on_uprobe_mmap-IsMapped}
use frida_core.Tracer.Path.Text.{path_content-slashed}

abbrev n : Numbers
n = record {
  openat = 1;
  faccessat = 2;
  statfs = 3;
  readlinkat = 4;
  newfstatat = none;
  statx = 5;
  fstatfs = 6;
  fstat = 7;
  statmount = 8;
  rename = none;
  renameat = none;
  renameat2 = 9;
  link = none;
  linkat = 10;
  symlink = none;
  symlinkat = 11;
  mount = 12;
  nanosleep = 13;
  clock_nanosleep = 14;
  connect = 15;
  bind = 16;
  sendto = 17;
  accept = none;
  accept4 = 18;
  getsockname = 19;
  getpeername = 20;
  recvfrom = 21;
}

-- A thread of the process, and whether the ring buffer of the map events has room
abbrev env : ℕ → Bool → Env
env tid room = record {
  target_tgids = λ t. t == 10;
  target_uids = λ u. false;
  excluded_syscalls = λ key. false;
  pid_tgid = 10 * 2 ^ 32 + tid;
  uid_gid = 0;
  flags = 0;
  tif_compat32 = none;
  ktime_ns = λ s. 5;
  stack_id = λ s. 6;
  syscall_events_room = λ s size. true;
  map_events_room = λ s size. room;
  process_states_room = λ s tgid. true;
  inflight_room = λ s tid. true;
  read_user_str = λ ptr cap. some (take cap (97 ∷ 98 ∷ 0 ∷ []));
  read_user = λ ptr size. replicate size 65;
}

user_str-fits :
    (cap : ℕ) (s : List ℕ) → some (take cap (97 ∷ 98 ∷ 0 ∷ [])) ≡ some s → length s ≤ cap
user_str-fits cap s e =
    let same = some-injective _ _ e in
    let len = length-take {A = ℕ} cap (97 ∷ 98 ∷ 0 ∷ []) in omega (arith, ap length same, len)

env-Documented : (tid : ℕ) (room : Bool) → Documented (env tid room)
env-Documented tid room = record {
  str_fits = λ ptr cap s e. user_str-fits cap s e;
  length-read_user = λ ptr size. length-replicate size 65;
}

abbrev readlinkat : SysEnter
readlinkat = record { id = 4; args = 3 ∷ 1000 ∷ 2000 ∷ 64 ∷ [] }

abbrev link_read : SysExit
link_read = record { id = 4; ret = 5 }

abbrev of_native : ProcessState
of_native = record { abi = native; map_gen = 1 }

-- Process 10 is known.
abbrev ready : State
ready = record initial { process_states = λ t. if t == 10 then some of_native else none }

-- A thread enters the readlinkat, another one does, and the first exits it.
abbrev once : State
once = on_sys_enter n (env 11 true) readlinkat ready

abbrev twice : State
twice = on_sys_enter n (env 12 true) readlinkat once

Runs-IsSound_example :
    IsSound 0
      (on_sys_exit n (env 11 true) link_read (on_sys_enter n (env 11 true) readlinkat initial))
Runs-IsSound_example = Runs-IsSound n _ (
    then_step (then_step done (entered (env 11 true) readlinkat (env-Documented 11 true)))
      (exited (env 11 true) link_read (env-Documented 11 true)))

Runs-IsAnnounced_example :
    IsAnnounced
      (on_sys_exit n (env 11 true) link_read (on_sys_enter n (env 11 true) readlinkat initial))
Runs-IsAnnounced_example = Runs-IsAnnounced n _ (
    then_step (then_step done (entered (env 11 true) readlinkat tt))
      (exited (env 11 true) link_read tt))

on_sys_enter-IsRefused_example :
    IsRefused initial (on_sys_enter n (env 11 false) readlinkat initial)
unfolding should_trace_current syscall_is_excluded get_current_abi make_excluded_key
on_sys_enter-IsRefused_example =
    on_sys_enter-IsRefused n (env 11 false) readlinkat initial refl refl refl (λ t. refl)
      (λ t. refl)

abbrev dirty : BufBuilder
dirty = record { buf = replicate 2048 7; pos = 9 }

-- /usr/lib on a root mount: dentry 3 in 2 in 1, the root
abbrev dentries : Dentries
dentries = record {
  d_parent = λ d. if d == 3 then some 2 else some 1;
  d_name = λ d. if d == 3 then some (108 ∷ 105 ∷ 98 ∷ []) else some (117 ∷ 115 ∷ 114 ∷ []);
  mnt_parent = λ m. none;
  mnt_mountpoint = λ m. none;
  mnt_root = λ m. some 1;
}

path_content-slashed_example :
    path_content dentries (some dirty) 256 (some 3) (some 4)
    ≡ b'/' ∷ 117 ∷ 115 ∷ 114 ∷ b'/' ∷ 108 ∷ 105 ∷ 98 ∷ 0 ∷ []
unfolding collect is_mnt_root mounted_on
path_content-slashed_example =
    path_content-slashed dentries dirty 3 4 256 2 (3 ∷ []) (117 ∷ 115 ∷ 114 ∷ [])
      ((108 ∷ 105 ∷ 98 ∷ []) ∷ []) (length-replicate {A = ℕ} 2048 7) refl
      (refl, omega arith, (refl, omega arith, tt)) (omega arith) (omega arith)

abbrev lib_file : File
lib_file = record { f_inode = some (7, 42); dentry = some 3; mnt = some 4 }

abbrev mapping : VmArea
mapping = record {
  vm_start = 4096;
  vm_end = 8192;
  vm_flags = 5;
  vm_pgoff = 0;
  vm_file = some lib_file;
}

on_uprobe_mmap-IsMapped_example :
    IsMapped
      (env 11 true)
      mapping
      of_native
      ready
      (on_uprobe_mmap (env 11 true) dentries (some dirty) mapping ready)
unfolding should_trace_current
on_uprobe_mmap-IsMapped_example =
    on_uprobe_mmap-IsMapped (env 11 true) dentries (some dirty) mapping ready of_native lib_file
      (7, 42) refl refl refl (omega arith) refl refl (λ t. refl)
