-- ===== src/Tracer/Frame/Enter.antt =====
-- The branches of on_sys_enter of src/linux/helpers/syscall-tracer.bpf.c.
use frida_core.Base.{ℕ, ◌+◌, refl, Bool, true, false, ◌==◌, if◌then◌else◌, List}
use frida_core.Tracer.{syscall_enter, State, Env, Attachment, Copy}
use frida_core.Tracer.Attach.{Numbers, is_number, SysEnter, arg, schedule, submit}
use frida_core.Tracer.Enter.{
  enter_event, enter_path, enter_stat_path, enter_stat, enter_two_paths, enter_mount, sleep_event,
  enter_sleep, enter_sock, enter_peer, enter_plain, enter_branch,
}
use frida_core.Tracer.Frame.{
  IsQuiet, IsOurs, IsEmitted, IsRecorded, self-IsQuiet, schedule-IsQuiet, either-IsQuiet,
  either-IsOurs, submit-IsEmitted, with_event-IsRecorded, either-IsRecorded,
}

module _ (n : Numbers) (env : Env) (ctx : SysEnter) (nr gen : ℕ) where
  ours :
      (count : ℕ) (attachments : List Attachment) (s : State)
      → IsOurs env syscall_enter nr gen (enter_event n env ctx nr gen count attachments s)
  ours count attachments s = (refl, refl, refl, refl, refl)

  module _ (s : State) where
    at_rest : IsQuiet env s.stats s s
    at_rest = self-IsQuiet env s

    scheduled : (copy : Copy) → IsQuiet env s.stats s (schedule env nr copy s)
    scheduled copy = schedule-IsQuiet env nr copy s.stats s s at_rest

    -- A branch that submits an event of its own
    submits :
        (count : ℕ) (attachments : List Attachment) (t : State)
        → IsQuiet env s.stats s t
        → IsEmitted env syscall_enter nr gen s.stats s
            (submit (enter_event n env ctx nr gen count attachments s) t)
    submits count attachments t h =
        submit-IsEmitted env syscall_enter nr gen _ s t (ours count attachments s) h

    -- One that chooses between two
    submits_either :
        (b : Bool) (count count' : ℕ) (attachments attachments' : List Attachment) (t : State)
        → IsQuiet env s.stats s t
        → IsEmitted env syscall_enter nr gen s.stats s (
            submit
              (if b
                then enter_event n env ctx nr gen count attachments s
                else enter_event n env ctx nr gen count' attachments' s)
              t)
    submits_either b count count' attachments attachments' t h =
        submit-IsEmitted env syscall_enter nr gen _ s t
          (either-IsOurs env syscall_enter nr gen b _ _ (ours count attachments s)
            (ours count' attachments' s))
          h

  enter_path-IsRecorded :
      (s : State) → IsRecorded env syscall_enter nr gen s (enter_path n env ctx nr gen s)
  unfolding enter_path
  enter_path-IsRecorded s = with_event-IsRecorded env syscall_enter nr gen 352 s _ (λ s'.
      let q = either-IsQuiet env s'.stats (nr == n.statfs) s' _ _ (scheduled s' _) (at_rest s') in
      submits_either s' (nr == n.statfs) _ _ _ _ _ (
        either-IsQuiet env s'.stats (nr == n.readlinkat) s' _ _
          (schedule-IsQuiet env nr _ s'.stats s' _ q) q))

  enter_stat_path-IsRecorded :
      (s : State) → IsRecorded env syscall_enter nr gen s (enter_stat_path n env ctx nr gen s)
  unfolding enter_stat_path
  enter_stat_path-IsRecorded s = with_event-IsRecorded env syscall_enter nr gen 352 s _ (λ s'.
      submits s' _ _ _ (
        either-IsQuiet env s'.stats (is_number nr n.newfstatat) s' _ _ (scheduled s' _)
          (scheduled s' _)))

  enter_stat-IsRecorded :
      (s : State) → IsRecorded env syscall_enter nr gen s (enter_stat n env ctx nr gen s)
  unfolding enter_stat
  enter_stat-IsRecorded s = with_event-IsRecorded env syscall_enter nr gen 88 s _ (λ s'.
      submits s' _ _ _ (
        either-IsQuiet env s'.stats (nr == n.fstatfs) s' _ _ (scheduled s' _)
          (either-IsQuiet env s'.stats (nr == n.fstat) s' _ _ (scheduled s' _) (scheduled s' _))))

  enter_two_paths-IsRecorded :
      (s : State) → IsRecorded env syscall_enter nr gen s (enter_two_paths n env ctx nr gen s)
  unfolding enter_two_paths
  enter_two_paths-IsRecorded s =
      with_event-IsRecorded env syscall_enter nr gen 616 s _ (λ s'. submits s' _ _ _ (at_rest s'))

  enter_mount-IsRecorded :
      (s : State) → IsRecorded env syscall_enter nr gen s (enter_mount n env ctx nr gen s)
  unfolding enter_mount
  enter_mount-IsRecorded s =
      with_event-IsRecorded env syscall_enter nr gen 880 s _ (λ s'. submits s' _ _ _ (at_rest s'))

  enter_sleep-IsRecorded :
      (s : State) → IsRecorded env syscall_enter nr gen s (enter_sleep n env ctx nr gen s)
  unfolding enter_sleep sleep_event
  enter_sleep-IsRecorded s =
      with_event-IsRecorded env syscall_enter nr gen 112 s _
        (λ s'. choose (nr == n.nanosleep) s' _ _ (sleeps 0 s') (sleeps 2 s'))
    where
      sleeps :
          (i : ℕ) (t : State)
          → IsEmitted env syscall_enter nr gen t.stats t (sleep_event n env ctx nr gen i t)
      sleeps i t =
          submits_either t (arg ctx i == 0) _ _ _ _ _
            (either-IsQuiet env t.stats (arg ctx (i + 1) == 0) t _ _ (at_rest t) (scheduled t _))

      choose :
          (b : Bool) (t u v : State)
          → IsEmitted env syscall_enter nr gen t.stats t u
          → IsEmitted env syscall_enter nr gen t.stats t v
          → IsEmitted env syscall_enter nr gen t.stats t (if b then u else v)
      choose true t u v hu hv = hu
      choose false t u v hu hv = hv

  enter_sock-IsRecorded :
      (s : State) → IsRecorded env syscall_enter nr gen s (enter_sock n env ctx nr gen s)
  unfolding enter_sock
  enter_sock-IsRecorded s =
      with_event-IsRecorded env syscall_enter nr gen 224 s _
        (λ s'. submits_either s' (nr == n.sendto) _ _ _ _ _ (at_rest s'))

  enter_peer-IsRecorded :
      (s : State) → IsRecorded env syscall_enter nr gen s (enter_peer n env ctx nr gen s)
  unfolding enter_peer
  enter_peer-IsRecorded s = with_event-IsRecorded env syscall_enter nr gen 88 s _ (λ s'.
      submits s' _ _ _
        (either-IsQuiet env s'.stats (nr == n.recvfrom) s' _ _ (scheduled s' _) (scheduled s' _)))

  enter_plain-IsRecorded :
      (s : State) → IsRecorded env syscall_enter nr gen s (enter_plain n env ctx nr gen s)
  unfolding enter_plain
  enter_plain-IsRecorded s =
      with_event-IsRecorded env syscall_enter nr gen 88 s _ (λ s'. submits s' _ _ _ (at_rest s'))

  choice :
      (b : Bool) (s t u : State)
      → IsRecorded env syscall_enter nr gen s t
      → IsRecorded env syscall_enter nr gen s u
      → IsRecorded env syscall_enter nr gen s (if b then t else u)
  choice = either-IsRecorded env syscall_enter nr gen

  pub enter_branch-IsRecorded :
      (s : State) → IsRecorded env syscall_enter nr gen s (enter_branch n env ctx nr gen s)
  unfolding enter_branch
  enter_branch-IsRecorded s = choice _ s _ _ (enter_path-IsRecorded s) (
      choice _ s _ _ (enter_stat_path-IsRecorded s) (
        choice _ s _ _ (enter_stat-IsRecorded s) (
          choice _ s _ _ (enter_two_paths-IsRecorded s) (
            choice _ s _ _ (enter_mount-IsRecorded s) (
              choice _ s _ _ (enter_sleep-IsRecorded s) (
                choice _ s _ _ (enter_sock-IsRecorded s)
                  (choice _ s _ _ (enter_peer-IsRecorded s) (enter_plain-IsRecorded s))))))))
