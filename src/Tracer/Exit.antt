-- ===== src/Tracer/Exit.antt =====
-- on_sys_exit of src/linux/helpers/syscall-tracer.bpf.c, with the copies that its enter asked for.
use frida_core.Base.{
  ℕ, ◌+◌, ◌*◌, ◌%◌, ◌^◌, ◌-◌, Bool, false, ◌||◌, ◌&&◌, Option, none, some, List, [], ◌∷◌, ◌++◌, ltb,
  leb, get_or, ◌==◌, if◌then◌else◌,
}
use frida_core.Tracer.{
  word, max_path, max_stat, max_sock, syscall_exit, Attachment, text, bytes, SyscallRecord, exit,
  Copy, str_out_copy, stat_out_copy, sock_out_copy, Inflight, State, Env, update,
}
use frida_core.Tracer.Gate.{tid_of, get_current_abi, ensure_process_state, fill_syscall_event}
use frida_core.Tracer.Attach.{Numbers, is_number, SysExit, submit, counted, with_event}
use frida_core.Tracer.Enter.{admitted}

-- `n > 0` and `n >= 0` of a signed 64-bit number
abbrev pub is_positive : ℕ → Bool
is_positive n = ltb 0 n && ltb n (2 ^ 63)

abbrev pub is_natural : ℕ → Bool
is_natural n = ltb n (2 ^ 63)

-- -EINTR
abbrev pub minus_eintr : ℕ
minus_eintr = 2 ^ 64 - 4

-- The string's length that is copied: at most what the caller has room for, and max_path - 1
unfoldable pub str_size : ℕ → ℕ → ℕ
str_size ret max_len =
    let size = if ltb max_len (ret % word) then max_len else ret % word in
    let size' = if leb max_path size then max_path - 1 else size in size' % max_path

unfoldable pub stat_size : ℕ → ℕ
stat_size len = if ltb max_stat len then max_stat else len

-- `user_len` is an int: what is not positive counts as 0.
unfoldable pub sock_size : ℕ → ℕ → ℕ
sock_size user_len max_len =
    let to_copy = if ltb 0 user_len && ltb user_len (2 ^ 31) then user_len else 0 in
    let maxn = if ltb max_sock max_len then max_sock else max_len in
    if ltb maxn to_copy then maxn else to_copy

-- The int at a pointer, of its bytes, the lowest first
unfoldable pub read_int : Env → ℕ → ℕ
read_int env ptr =
    let b = env.read_user ptr 4 in
    get_or b 0 0 % 256
    + get_or b 1 0 % 256 * 2 ^ 8
    + get_or b 2 0 % 256 * 2 ^ 16
    + get_or b 3 0 % 256 * 2 ^ 24

-- What is copied for each kind of copy; a size of 0 copies nothing.
unfoldable pub str_out : Env → ℕ → ℕ → ℕ → ℕ → Attachment
str_out env ret arg_index user_ptr max_len =
    let size = str_size ret max_len in
    record {
      type = text;
      arg_index = arg_index;
      capacity = max_path;
      size = size + 1;
      content = if ltb 0 size then env.read_user user_ptr size ++ (0 ∷ []) else 0 ∷ [];
    }

unfoldable pub stat_out : Env → ℕ → ℕ → ℕ → Attachment
stat_out env arg_index user_ptr len =
    let size = stat_size len in
    record {
      type = bytes;
      arg_index = arg_index;
      capacity = max_stat;
      size = size;
      content = if size == 0 then [] else env.read_user user_ptr size;
    }

unfoldable pub sock_out : Env → ℕ → ℕ → ℕ → ℕ → Attachment
sock_out env arg_index user_ptr user_len_ptr max_len =
    let size = sock_size (read_int env user_len_ptr) max_len in
    record {
      type = bytes;
      arg_index = arg_index;
      capacity = max_sock;
      size = size;
      content = if size == 0 then [] else env.read_user user_ptr size;
    }

module _ (n : Numbers) (env : Env) (ctx : SysExit) (nr map_gen : ℕ) where
  abbrev pub exit_event : ℕ → List Attachment → State → SyscallRecord
  exit_event count attachments s = exit (record {
    parent = counted count (fill_syscall_event env syscall_exit nr map_gen s);
    retval = ctx.ret;
    attachments = attachments;
  })

  -- An exit event with the attachment if the call succeeded, and none if not
  abbrev pub exit_if : Bool → Attachment → State → SyscallRecord
  exit_if ok a s = if ok then exit_event 1 (a ∷ []) s else exit_event 0 [] s

  -- Which results of a syscall fill its struct
  unfoldable pub stat_ok : Bool
  stat_ok =
      if nr == n.nanosleep || nr == n.clock_nanosleep
      then ctx.ret == 0 || ctx.ret == minus_eintr
      else (if nr == n.statmount
            || nr == n.statx
            || nr == n.statfs
            || nr == n.fstatfs
            || nr == n.fstat
            || is_number nr n.newfstatat
          then ctx.ret == 0
          else false)

  unfoldable pub sock_ok : Bool
  sock_ok =
      if is_number nr n.accept || nr == n.accept4 || nr == n.recvfrom
      then is_natural ctx.ret
      else (if nr == n.getsockname || nr == n.getpeername then ctx.ret == 0 else false)

  -- The copy that waits is done with.
  abbrev pub forget : State → State
  forget s = record s { inflight = update s.inflight (tid_of env) none }

  unfoldable pub exit_copy : Copy → State → State
  exit_copy (str_out_copy i ptr max_len) s = with_event env 312 s (λ s'.
      submit (exit_if (is_positive ctx.ret) (str_out env ctx.ret i ptr max_len) s') (forget s'))
  exit_copy (stat_out_copy i ptr len) s =
      with_event env 568 s (λ s'. submit (exit_if stat_ok (stat_out env i ptr len) s') (forget s'))
  exit_copy (sock_out_copy i ptr len_ptr max_len) s =
      with_event env 184 s
        (λ s'. submit (exit_if sock_ok (sock_out env i ptr len_ptr max_len) s') (forget s'))

  unfoldable pub exit_plain : State → State
  exit_plain s = with_event env 48 s (λ s'. submit (exit_event 0 [] s') s')

  -- A copy that waits for another syscall is left where it is.
  unfoldable pub exit_found : Option Inflight → State → State
  exit_found none s = exit_plain s
  exit_found (some f) s = if f.syscall_nr == nr then exit_copy f.copy s else exit_plain s

  abbrev pub exit_branch : State → State
  exit_branch s = exit_found (s.inflight (tid_of env)) s

unfoldable pub on_sys_exit : Numbers → Env → SysExit → State → State
on_sys_exit n env ctx s =
    admitted env (ctx.id % word) (λ gen. exit_branch n env ctx (ctx.id % word) gen)
      (ensure_process_state env (get_current_abi env)) s
