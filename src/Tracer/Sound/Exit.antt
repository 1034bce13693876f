-- ===== src/Tracer/Sound/Exit.antt =====
-- The records over on_sys_enter and on_sys_exit of src/linux/helpers/syscall-tracer.bpf.c.
use frida_core.Base.{
  ℕ, ◌+◌, ◌<◌, ◌≤◌, ◌≡◌, refl, Bool, true, false, Option, none, some, [], ◌∷◌, ◌++◌, ◌==◌,
  if◌then◌else◌, ltb, arith, Bool-cases, inl, inr, length, length-append,
}
use frida_core.Tracer.{
  State, Env, Attachment, Copy, str_out_copy, stat_out_copy, sock_out_copy, Inflight, max_path,
}
use frida_core.Tracer.Gate.{tid_of}
use frida_core.Tracer.Attach.{Numbers, SysEnter, SysExit}
use frida_core.Tracer.Enter.{on_sys_enter, nr_of}
use frida_core.Tracer.Exit.{
  str_size, stat_size, sock_size, read_int, str_out, stat_out, sock_out, forget, exit_if, exit_copy,
  exit_plain, exit_found, on_sys_exit,
}
use frida_core.Tracer.Sound.{
  Documented, IsAttachment, IsRecord, IsSound, submit-IsSound, with_event-IsSound, either-IsSound,
}
use frida_core.Tracer.Sound.Enter.{enter_branch-IsSound}
use frida_core.Tracer.Sound.Process.{admitted-IsSound}

module _ (env : Env) (doc : Documented env) where
  -- The copy of a string, with its terminator, fits the array.
  str_out-IsAttachment : (ret i ptr max_len : ℕ) → IsAttachment (str_out env ret i ptr max_len)
  unfolding str_out str_size
  str_out-IsAttachment ret i ptr max_len = go (str_size ret max_len) (omega arith)
    where
      go :
          (size : ℕ)
          → size < max_path
          → (length (if ltb 0 size then env.read_user ptr size ++ (0 ∷ []) else 0 ∷ []) ≡ size + 1)
            × (size + 1 ≤ max_path)
      go size h = elim (Bool-cases (ltb 0 size)) [
        | inl some_bytes ↦ rw some_bytes (
          omega (
            arith,
            length-append (env.read_user ptr size) (0 ∷ []),
            doc.length-read_user ptr size,
          ),
          omega arith,
        )
        | inr none_left ↦ rw none_left (ground arith, omega arith)
      ]

  sized :
      (i room ptr size : ℕ)
      → size ≤ room
      → (length (if size == 0 then [] else env.read_user ptr size) ≡ size) × (size ≤ room)
  sized i room ptr size h = elim (Bool-cases (size == 0)) [
    | inl nothing ↦ rw nothing (ground arith, h)
    | inr something ↦ rw something (doc.length-read_user ptr size, h)
  ]

  stat_out-IsAttachment : (i ptr len : ℕ) → IsAttachment (stat_out env i ptr len)
  unfolding stat_out stat_size
  stat_out-IsAttachment i ptr len = sized i _ ptr (stat_size len) (ground arith)

  sock_out-IsAttachment :
      (i ptr len_ptr max_len : ℕ) → IsAttachment (sock_out env i ptr len_ptr max_len)
  unfolding sock_out sock_size
  sock_out-IsAttachment i ptr len_ptr max_len =
      sized i _ ptr (sock_size (read_int env len_ptr) max_len)
        (sock_size-le (read_int env len_ptr) max_len)
    where
      sock_size-le : (user_len limit : ℕ) → sock_size user_len limit ≤ 128
      sock_size-le user_len limit = ground arith

  forget-IsSound :
      (n : Numbers) (ctx : SysExit) (nr gen k : ℕ) (s : State)
      → IsSound k s
      → IsSound k (forget n env ctx nr gen s)
  forget-IsSound n ctx nr gen k s h = record {
    records = h.records;
    map_records = h.map_records;
    counts = h.counts;
  }

  exit_if-IsRecord :
      (n : Numbers) (ctx : SysExit) (nr gen : ℕ) (ok : Bool) (a : Attachment) (s : State)
      → IsAttachment a
      → IsRecord (exit_if n env ctx nr gen ok a s)
  unfolding IsRecord
  exit_if-IsRecord n ctx nr gen true a s h = (refl, (h, tt))
  exit_if-IsRecord n ctx nr gen false a s h = (refl, tt)

  exit_copy-IsSound :
      (n : Numbers) (ctx : SysExit) (nr gen : ℕ) (copy : Copy) (s : State)
      → IsSound 0 s
      → IsSound 0 (exit_copy n env ctx nr gen copy s)
  unfolding exit_copy
  exit_copy-IsSound n ctx nr gen (str_out_copy i ptr max_len) s h =
      with_event-IsSound env 312 s _ h (λ s' p.
        submit-IsSound _ 0 _
          (exit_if-IsRecord n ctx nr gen _ _ s' (str_out-IsAttachment ctx.ret i ptr max_len))
          (forget-IsSound n ctx nr gen 1 s' p))
  exit_copy-IsSound n ctx nr gen (stat_out_copy i ptr len) s h =
      with_event-IsSound env 568 s _ h (λ s' p.
        submit-IsSound _ 0 _
          (exit_if-IsRecord n ctx nr gen _ _ s' (stat_out-IsAttachment i ptr len))
          (forget-IsSound n ctx nr gen 1 s' p))
  exit_copy-IsSound n ctx nr gen (sock_out_copy i ptr len_ptr max_len) s h =
      with_event-IsSound env 184 s _ h (λ s' p.
        submit-IsSound _ 0 _
          (exit_if-IsRecord n ctx nr gen _ _ s' (sock_out-IsAttachment i ptr len_ptr max_len))
          (forget-IsSound n ctx nr gen 1 s' p))

  exit_plain-IsSound :
      (n : Numbers) (ctx : SysExit) (nr gen : ℕ) (s : State)
      → IsSound 0 s
      → IsSound 0 (exit_plain n env ctx nr gen s)
  unfolding exit_plain IsRecord
  exit_plain-IsSound n ctx nr gen s h =
      with_event-IsSound env 48 s _ h (λ s' p. submit-IsSound _ 0 _ (refl, tt) p)

  exit_found-IsSound :
      (n : Numbers) (ctx : SysExit) (nr gen : ℕ) (found : Option Inflight) (s : State)
      → IsSound 0 s
      → IsSound 0 (exit_found n env ctx nr gen found s)
  unfolding exit_found
  exit_found-IsSound n ctx nr gen none s h = exit_plain-IsSound n ctx nr gen s h
  exit_found-IsSound n ctx nr gen (some f) s h =
      either-IsSound (f.syscall_nr == nr) 0 _ _ (exit_copy-IsSound n ctx nr gen f.copy s h)
        (exit_plain-IsSound n ctx nr gen s h)

  pub on_sys_exit-IsSound :
      (n : Numbers) (ctx : SysExit) (s : State) → IsSound 0 s → IsSound 0 (on_sys_exit n env ctx s)
  unfolding on_sys_exit
  on_sys_exit-IsSound n ctx s =
      admitted-IsSound env doc _ _ s
        (λ gen s' p. exit_found-IsSound n ctx _ gen (s'.inflight (tid_of env)) s' p)

  pub on_sys_enter-IsSound :
      (n : Numbers) (ctx : SysEnter) (s : State)
      → IsSound 0 s
      → IsSound 0 (on_sys_enter n env ctx s)
  unfolding on_sys_enter
  on_sys_enter-IsSound n ctx s =
      admitted-IsSound env doc _ _ s
        (λ gen s' p. enter_branch-IsSound n env doc ctx (nr_of ctx) gen s' p)
