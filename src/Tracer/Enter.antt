-- ===== src/Tracer/Enter.antt =====
-- on_sys_enter of src/linux/helpers/syscall-tracer.bpf.c: a function for each of its branches.
use frida_core.Base.{
  ℕ, ◌+◌, ◌%◌, Bool, ◌||◌, not, Option, none, some, List, [], ◌∷◌, ltb, ◌==◌, if◌then◌else◌,
}
use frida_core.Tracer.{
  word, max_path, max_stat, max_sock, syscall_enter, Attachment, SyscallRecord, enter, State, Env,
}
use frida_core.Tracer.Gate.{
  should_trace_current, get_current_abi, syscall_is_excluded, ensure_process_state,
  fill_syscall_event,
}
use frida_core.Tracer.Attach.{
  Numbers, is_number, SysEnter, arg, write_attach_str_arg, write_attach_bytes_arg,
  maybe_schedule_str_out_copy, maybe_schedule_stat_out_copy, maybe_schedule_sock_out_copy, submit,
  counted, with_event,
}

-- struct timespec
abbrev pub timespec_size : ℕ
timespec_size = 16

module _ (n : Numbers) (env : Env) (ctx : SysEnter) (nr map_gen : ℕ) where
  abbrev pub fill_enter_args : List ℕ
  fill_enter_args = arg ctx 0 ∷ arg ctx 1 ∷ arg ctx 2 ∷ arg ctx 3 ∷ arg ctx 4 ∷ arg ctx 5 ∷ []

  -- An event with its arguments, `count` and the attachments written
  abbrev pub enter_event : ℕ → List Attachment → State → SyscallRecord
  enter_event count attachments s = enter (record {
    parent = counted count (fill_syscall_event env syscall_enter nr map_gen s);
    args = fill_enter_args;
    attachments = attachments;
  })

  abbrev path_arg : ℕ → Attachment
  path_arg i = write_attach_str_arg env i max_path (arg ctx i)

  unfoldable pub is_path : Bool
  is_path = nr == n.openat || nr == n.faccessat || nr == n.statfs || nr == n.readlinkat

  unfoldable pub enter_path : State → State
  enter_path s = with_event env 352 s (λ s'.
      let e =
        if nr == n.statfs
        then enter_event 1 (path_arg 0 ∷ []) s'
        else enter_event 1 (path_arg 1 ∷ []) s' in
      let after_stat =
        if nr == n.statfs
        then maybe_schedule_stat_out_copy env nr 1 (arg ctx 1) max_stat s'
        else s' in
      let after_str =
        if nr == n.readlinkat
        then maybe_schedule_str_out_copy env nr 2 (arg ctx 2) (arg ctx 3 % word) after_stat
        else after_stat in
      submit e after_str)

  is_stat_path : Bool
  is_stat_path = is_number nr n.newfstatat || nr == n.statx

  unfoldable pub enter_stat_path : State → State
  enter_stat_path s = with_event env 352 s (λ s'. submit (enter_event 1 (path_arg 1 ∷ []) s') (
      if is_number nr n.newfstatat
      then maybe_schedule_stat_out_copy env nr 2 (arg ctx 2) max_stat s'
      else maybe_schedule_stat_out_copy env nr 4 (arg ctx 4) max_stat s'))

  is_stat : Bool
  is_stat = nr == n.fstatfs || nr == n.fstat || nr == n.statmount

  -- The length that statmount is given, cut off
  abbrev pub statmount_size : ℕ
  statmount_size = if ltb max_stat (arg ctx 2 % word) then max_stat else arg ctx 2 % word

  unfoldable pub enter_stat : State → State
  enter_stat s = with_event env 88 s (λ s'. submit (enter_event 0 [] s') (
      if nr == n.fstatfs
      then maybe_schedule_stat_out_copy env nr 1 (arg ctx 1) max_stat s'
      else (if nr == n.fstat
          then maybe_schedule_stat_out_copy env nr 1 (arg ctx 1) max_stat s'
          else maybe_schedule_stat_out_copy env nr 1 (arg ctx 1) statmount_size s')))

  is_two_paths : Bool
  is_two_paths =
      is_number nr n.rename
      || is_number nr n.renameat
      || nr == n.renameat2
      || is_number nr n.link
      || nr == n.linkat
      || is_number nr n.symlink
      || nr == n.symlinkat

  -- The switch over the places of the two paths
  unfoldable pub two_paths : List Attachment
  two_paths =
      if is_number nr n.rename
      then path_arg 0 ∷ path_arg 1 ∷ []
      else (if is_number nr n.renameat
          then path_arg 1 ∷ path_arg 3 ∷ []
          else (if nr == n.renameat2
              then path_arg 1 ∷ path_arg 3 ∷ []
              else (if is_number nr n.link
                  then path_arg 0 ∷ path_arg 1 ∷ []
                  else (if nr == n.linkat
                      then path_arg 1 ∷ path_arg 3 ∷ []
                      else (if is_number nr n.symlink
                          then path_arg 0 ∷ path_arg 1 ∷ []
                          else path_arg 0 ∷ path_arg 2 ∷ [])))))

  unfoldable pub enter_two_paths : State → State
  enter_two_paths s = with_event env 616 s (λ s'. submit (enter_event 2 two_paths s') s')

  unfoldable pub enter_mount : State → State
  enter_mount s =
      with_event env 880 s
        (λ s'. submit (enter_event 3 (path_arg 0 ∷ path_arg 1 ∷ path_arg 2 ∷ []) s') s')

  is_sleep : Bool
  is_sleep = nr == n.nanosleep || nr == n.clock_nanosleep

  -- The time asked for at argument `i`, and the place for the time that remains at `i + 1`
  unfoldable pub sleep_event : ℕ → State → State
  sleep_event i s =
      submit
        (if arg ctx i == 0
          then enter_event 0 [] s
          else enter_event 1
              (write_attach_bytes_arg env i timespec_size (arg ctx i) timespec_size ∷ []) s)
        (if arg ctx (i + 1) == 0
          then s
          else maybe_schedule_stat_out_copy env nr (i + 1) (arg ctx (i + 1)) timespec_size s)

  unfoldable pub enter_sleep : State → State
  enter_sleep s =
      with_event env 112 s (λ s'. if nr == n.nanosleep then sleep_event 0 s' else sleep_event 2 s')

  is_sock : Bool
  is_sock = nr == n.connect || nr == n.bind || nr == n.sendto

  unfoldable pub enter_sock : State → State
  enter_sock s = with_event env 224 s (λ s'.
      submit
        (if nr == n.sendto
          then enter_event 1
              (write_attach_bytes_arg env 4 max_sock (arg ctx 4) (arg ctx 5 % word) ∷ []) s'
          else enter_event 1
              (write_attach_bytes_arg env 1 max_sock (arg ctx 1) (arg ctx 2 % word) ∷ []) s')
        s')

  is_peer : Bool
  is_peer =
      is_number nr n.accept
      || nr == n.accept4
      || nr == n.getsockname
      || nr == n.getpeername
      || nr == n.recvfrom

  unfoldable pub enter_peer : State → State
  enter_peer s = with_event env 88 s (λ s'. submit (enter_event 0 [] s') (
      if nr == n.recvfrom
      then maybe_schedule_sock_out_copy env nr 4 (arg ctx 4) (arg ctx 5) max_sock s'
      else maybe_schedule_sock_out_copy env nr 1 (arg ctx 1) (arg ctx 2) max_sock s'))

  unfoldable pub enter_plain : State → State
  enter_plain s = with_event env 88 s (λ s'. submit (enter_event 0 [] s') s')

  -- The branches in their order
  unfoldable pub enter_branch : State → State
  unfolding is_path is_stat_path is_stat is_two_paths is_sleep is_sock is_peer
  enter_branch s =
      if is_path
      then enter_path s
      else (if is_stat_path
          then enter_stat_path s
          else (if is_stat
              then enter_stat s
              else (if is_two_paths
                  then enter_two_paths s
                  else (if nr == n.mount
                      then enter_mount s
                      else (if is_sleep
                          then enter_sleep s
                          else (if is_sock
                              then enter_sock s
                              else (if is_peer then enter_peer s else enter_plain s)))))))

-- `nr`, the low half of the id
abbrev pub nr_of : SysEnter → ℕ
nr_of ctx = ctx.id % word

-- A traced syscall that is not excluded, with the generation of the mappings
unfoldable pub admitted :
    Env → ℕ → (ℕ → State → State) → (State → (Option ℕ × State)) → State → State
admitted env nr go ensure s =
    if not (should_trace_current env)
    then s
    else (if syscall_is_excluded env (get_current_abi env) nr
        then s
        else (let (gen, s') = ensure s in elim gen [ none ↦ s' | some map_gen ↦ go map_gen s' ]))

unfoldable pub on_sys_enter : Numbers → Env → SysEnter → State → State
on_sys_enter n env ctx s =
    admitted env (nr_of ctx) (λ gen. enter_branch n env ctx (nr_of ctx) gen)
      (ensure_process_state env (get_current_abi env)) s
