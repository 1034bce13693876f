-- ===== src/Tracer/Frame/Exit.antt =====
-- The branches of on_sys_exit of src/linux/helpers/syscall-tracer.bpf.c.
use frida_core.Base.{ℕ, refl, Bool, true, false, Option, none, some, ◌==◌}
use frida_core.Tracer.{
  syscall_exit, State, Env, Attachment, Copy, str_out_copy, stat_out_copy, sock_out_copy, Inflight,
}
use frida_core.Tracer.Gate.{tid_of}
use frida_core.Tracer.Attach.{Numbers, SysExit, submit, with_event}
use frida_core.Tracer.Exit.{exit_if, forget, exit_copy, exit_plain, exit_found}
use frida_core.Tracer.Frame.{
  IsQuiet, IsOurs, IsRecorded, self-IsQuiet, submit-IsEmitted, with_event-IsRecorded,
  either-IsRecorded, update_other,
}

module _ (n : Numbers) (env : Env) (ctx : SysExit) (nr gen : ℕ) where
  forget-IsQuiet : (s : State) → IsQuiet env s.stats s (forget n env ctx nr gen s)
  forget-IsQuiet s = record {
    records = refl;
    maps = refl;
    processes = refl;
    counted = refl;
    others = λ tid other. update_other s.inflight (tid_of env) _ tid other;
  }

  exit_if-IsOurs :
      (ok : Bool) (a : Attachment) (s : State)
      → IsOurs env syscall_exit nr gen (exit_if n env ctx nr gen ok a s)
  exit_if-IsOurs true a s = (refl, refl, refl, refl, refl)
  exit_if-IsOurs false a s = (refl, refl, refl, refl, refl)

  copies :
      (size : ℕ) (ok : Bool) (a : Attachment) (s : State)
      → IsRecorded env syscall_exit nr gen s (
          with_event env size s
            (λ s'. submit (exit_if n env ctx nr gen ok a s') (forget n env ctx nr gen s')))
  copies size ok a s = with_event-IsRecorded env syscall_exit nr gen size s _ (λ s'.
      submit-IsEmitted env syscall_exit nr gen _ s' _ (exit_if-IsOurs ok a s') (forget-IsQuiet s'))

  exit_copy-IsRecorded :
      (copy : Copy) (s : State)
      → IsRecorded env syscall_exit nr gen s (exit_copy n env ctx nr gen copy s)
  unfolding exit_copy
  exit_copy-IsRecorded (str_out_copy i ptr max_len) s = copies 312 _ _ s
  exit_copy-IsRecorded (stat_out_copy i ptr len) s = copies 568 _ _ s
  exit_copy-IsRecorded (sock_out_copy i ptr len_ptr max_len) s = copies 184 _ _ s

  exit_plain-IsRecorded :
      (s : State) → IsRecorded env syscall_exit nr gen s (exit_plain n env ctx nr gen s)
  unfolding exit_plain
  exit_plain-IsRecorded s = with_event-IsRecorded env syscall_exit nr gen 48 s _ (λ s'.
      submit-IsEmitted env syscall_exit nr gen _ s' s' (refl, refl, refl, refl, refl)
        (self-IsQuiet env s'))

  pub exit_found-IsRecorded :
      (found : Option Inflight) (s : State)
      → IsRecorded env syscall_exit nr gen s (exit_found n env ctx nr gen found s)
  unfolding exit_found
  exit_found-IsRecorded none s = exit_plain-IsRecorded s
  exit_found-IsRecorded (some f) s =
      either-IsRecorded env syscall_exit nr gen (f.syscall_nr == nr) s _ _
        (exit_copy-IsRecorded f.copy s) (exit_plain-IsRecorded s)
