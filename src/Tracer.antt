-- ===== src/Tracer.antt =====
-- src/linux/helpers/syscall-tracer.bpf.c: the state that its programs share and what they read. Each
-- run of a program is one step on the state. A map is a function, `none` where it has no entry; a ring
-- buffer is the list of all records submitted to it, the newest first. A signed number is its bit
-- pattern.
pub mod Gate
pub mod Attach
pub mod Enter
pub mod Exit
pub mod Path
pub mod Frame
pub mod Announce
mod Tests
pub mod Mappings
pub mod Run
pub mod Sound
use frida_core.Base.{
  ℕ, ◌+◌, ◌*◌, ◌%◌, ◌^◌, Bool, true, false, Option, none, some, List, [], ◌∷◌, get_or, ◌==◌, leb,
  if◌then◌else◌,
}

abbrev pub max_path : ℕ
max_path = 256

abbrev pub max_stat : ℕ
max_stat = 512

abbrev pub max_sock : ℕ
max_sock = 128

abbrev pub word : ℕ
word = 2 ^ 32

abbrev pub quad : ℕ
quad = 2 ^ 64

pub data EventType : Type 0 where
  syscall_enter syscall_exit need_snapshot map_create map_destroy_range : EventType

pub record Event : Type 0 where
  pub time_ns : ℕ
  pub tgid : ℕ
  pub tid : ℕ
  pub type : EventType
  pub attachment_count : ℕ

pub data AttachmentType : Type 0 where
  text bytes : AttachmentType

-- An attachment that was written: its header, and what stands in its array, from the start on.
pub record Attachment : Type 0 where
  pub type : AttachmentType
  pub arg_index : ℕ
  pub capacity : ℕ
  pub size : ℕ
  pub content : List ℕ

pub record SyscallEvent : Type 0 where
  pub parent : Event
  pub syscall_nr : ℕ
  pub stack_id : ℕ
  pub map_gen : ℕ

-- SyscallEnterEvent and the structs that add attachments to it; one that was not written is left out.
pub record SyscallEnterEvent : Type 0 where
  pub parent : SyscallEvent
  pub args : List ℕ
  pub attachments : List Attachment

pub record SyscallExitEvent : Type 0 where
  pub parent : SyscallEvent
  pub retval : ℕ
  pub attachments : List Attachment

pub data SyscallRecord : Type 0 where
  enter : SyscallEnterEvent → SyscallRecord
  exit : SyscallExitEvent → SyscallRecord

pub record MapCreateEvent : Type 0 where
  pub parent : Event
  pub start : ℕ
  pub end : ℕ
  pub pgoff : ℕ
  pub vm_flags : ℕ
  pub device : ℕ
  pub inode : ℕ
  pub gen : ℕ
  pub attachments : List Attachment

pub record MapDestroyRangeEvent : Type 0 where
  pub parent : Event
  pub start : ℕ
  pub end : ℕ
  pub gen : ℕ

pub data MapRecord : Type 0 where
  snapshot : Event → MapRecord
  create : MapCreateEvent → MapRecord
  destroy : MapDestroyRangeEvent → MapRecord

-- ABI_NATIVE and ABI_COMPAT32
pub data Abi : Type 0 where
  native compat32 : Abi

pub record ProcessState : Type 0 where
  pub abi : Abi
  pub map_gen : ℕ

-- The union of struct _Inflight with its tag: argument index, pointer and limit of each kind
pub data Copy : Type 0 where
  str_out_copy : ℕ → ℕ → ℕ → Copy
  stat_out_copy : ℕ → ℕ → ℕ → Copy
  sock_out_copy : ℕ → ℕ → ℕ → ℕ → Copy

pub record Inflight : Type 0 where
  pub syscall_nr : ℕ
  pub copy : Copy

pub record Stats : Type 0 where
  pub emitted_events : ℕ
  pub emitted_bytes : ℕ
  pub dropped_events : ℕ
  pub dropped_bytes : ℕ

pub record State : Type 0 where
  pub syscall_events : List SyscallRecord
  pub map_events : List MapRecord
  pub process_states : ℕ → Option ProcessState
  pub inflight : ℕ → Option Inflight
  pub stats : Option Stats
  -- The processes that were sent SIGSTOP
  pub stopped : List ℕ

-- What a run reads: the maps that only the user writes, and the answers of the kernel's helpers.
pub record Env : Type 0 where
  pub target_tgids : ℕ → Bool
  pub target_uids : ℕ → Bool
  pub excluded_syscalls : ℕ → Bool
  pub pid_tgid : ℕ
  pub uid_gid : ℕ
  -- thread_info.flags, and FRIDA_TIF_COMPAT32 where the target has it
  pub flags : ℕ
  pub tif_compat32 : Option ℕ
  pub ktime_ns : State → ℕ
  pub stack_id : State → ℕ
  -- Whether a reservation of so many bytes, and an update of a map, succeeds
  pub syscall_events_room : State → ℕ → Bool
  pub map_events_room : State → ℕ → Bool
  pub process_states_room : State → ℕ → Bool
  pub inflight_room : State → ℕ → Bool
  -- bpf_probe_read_user_str: the string with its terminator; bpf_probe_read_user: what it leaves
  pub read_user_str : ℕ → ℕ → Option (List ℕ)
  pub read_user : ℕ → ℕ → List ℕ

-- The update of a map at one key
abbrev pub update : {A : Type 0} → (ℕ → Option A) → ℕ → Option A → ℕ → Option A
update f key v i = if key == i then v else f i
