-- ===== src/Tracer/Attach.antt =====
-- The attachments of src/linux/helpers/syscall-tracer.bpf.c, the copies that wait for the exit of a
-- syscall, and the numbers of the syscalls.
use frida_core.Base.{
  ℕ, Bool, false, Option, none, some, List, [], ◌∷◌, length, get_or, ltb, leb, ◌==◌, if◌then◌else◌,
}
use frida_core.Tracer.{
  Attachment, text, bytes, SyscallEvent, SyscallRecord, Copy, str_out_copy, stat_out_copy,
  sock_out_copy, State, Env, update,
}
use frida_core.Tracer.Gate.{tid_of, reserve_syscall_event, if_reserved}

-- FRIDA_LINUX_SYSCALL_*, of a generated header; `none` where the target has no such syscall.
pub record Numbers : Type 0 where
  pub openat : ℕ
  pub faccessat : ℕ
  pub statfs : ℕ
  pub readlinkat : ℕ
  pub newfstatat : Option ℕ
  pub statx : ℕ
  pub fstatfs : ℕ
  pub fstat : ℕ
  pub statmount : ℕ
  pub rename : Option ℕ
  pub renameat : Option ℕ
  pub renameat2 : ℕ
  pub link : Option ℕ
  pub linkat : ℕ
  pub symlink : Option ℕ
  pub symlinkat : ℕ
  pub mount : ℕ
  pub nanosleep : ℕ
  pub clock_nanosleep : ℕ
  pub connect : ℕ
  pub bind : ℕ
  pub sendto : ℕ
  pub accept : Option ℕ
  pub accept4 : ℕ
  pub getsockname : ℕ
  pub getpeername : ℕ
  pub recvfrom : ℕ

-- A case under #ifdef
unfoldable pub is_number : ℕ → Option ℕ → Bool
is_number nr none = false
is_number nr (some n) = nr == n

-- struct trace_event_raw_sys_enter and struct trace_event_raw_sys_exit
pub record SysEnter : Type 0 where
  pub id : ℕ
  pub args : List ℕ

pub record SysExit : Type 0 where
  pub id : ℕ
  pub ret : ℕ

abbrev pub arg : SysEnter → ℕ → ℕ
arg ctx i = get_or ctx.args i 0

-- `h->size = r` if `r >= 1`, and an empty string otherwise
unfoldable pub str_attachment : ℕ → ℕ → Option (List ℕ) → Attachment
str_attachment arg_index dst_cap read =
    let content : List ℕ = elim read [
      | none ↦ 0 ∷ []
      | some s ↦ if leb 1 (length s) then s else 0 ∷ []
    ] in
    record {
      type = text;
      arg_index = arg_index;
      capacity = dst_cap;
      size = length content;
      content = content;
    }

unfoldable pub write_attach_str_arg : Env → ℕ → ℕ → ℕ → Attachment
write_attach_str_arg env arg_index dst_cap user_str =
    str_attachment arg_index dst_cap (env.read_user_str user_str dst_cap)

unfoldable pub write_attach_bytes_arg : Env → ℕ → ℕ → ℕ → ℕ → Attachment
write_attach_bytes_arg env arg_index dst_cap user_src n =
    let size = if ltb dst_cap n then dst_cap else n in
    record {
      type = bytes;
      arg_index = arg_index;
      capacity = dst_cap;
      size = if n == 0 then 0 else size;
      content = if n == 0 then [] else env.read_user user_src size;
    }

-- maybe_schedule_*_out_copy; the result of the update is not used.
unfoldable pub schedule : Env → ℕ → Copy → State → State
schedule env nr copy s =
    if env.inflight_room s (tid_of env)
    then record s {
      inflight = update s.inflight (tid_of env) (some (record { syscall_nr = nr; copy = copy }));
    }
    else s

abbrev pub maybe_schedule_str_out_copy : Env → ℕ → ℕ → ℕ → ℕ → State → State
maybe_schedule_str_out_copy env nr arg_index user_ptr max_len =
    schedule env nr (str_out_copy arg_index user_ptr max_len)

abbrev pub maybe_schedule_stat_out_copy : Env → ℕ → ℕ → ℕ → ℕ → State → State
maybe_schedule_stat_out_copy env nr arg_index user_ptr len =
    schedule env nr (stat_out_copy arg_index user_ptr len)

abbrev pub maybe_schedule_sock_out_copy : Env → ℕ → ℕ → ℕ → ℕ → ℕ → State → State
maybe_schedule_sock_out_copy env nr arg_index user_ptr user_len_ptr max_len =
    schedule env nr (sock_out_copy arg_index user_ptr user_len_ptr max_len)

-- bpf_ringbuf_submit on `syscall_events`
abbrev pub submit : SyscallRecord → State → State
submit r s = record s { syscall_events = r ∷ s.syscall_events }

-- `ev->parent.parent.parent.attachment_count = n`
abbrev pub counted : ℕ → SyscallEvent → SyscallEvent
counted n e = record e { parent = record (e.parent) { attachment_count = n } }

-- What every branch does: nothing without a reservation, and the rest with it.
unfoldable pub with_event : Env → ℕ → State → (State → State) → State
with_event env size s rest = if_reserved rest (reserve_syscall_event env size s)
