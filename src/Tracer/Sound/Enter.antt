-- ===== src/Tracer/Sound/Enter.antt =====
-- The records over the branches of on_sys_enter of src/linux/helpers/syscall-tracer.bpf.c.
use frida_core.Base.{
  ℕ, ◌+◌, ◌≡◌, refl, sym, Bool, true, false, List, [], ◌∷◌, ◌==◌, if◌then◌else◌, arith, length,
}
use frida_core.Tracer.{State, Env, Attachment, max_path}
use frida_core.Tracer.Attach.{
  Numbers, is_number, SysEnter, arg, write_attach_str_arg, write_attach_bytes_arg,
}
use frida_core.Tracer.Enter.{
  enter_event, enter_path, enter_stat_path, enter_stat, two_paths, enter_two_paths, enter_mount,
  sleep_event, enter_sleep, enter_sock, enter_peer, enter_plain, enter_branch,
}
use frida_core.Tracer.Sound.{
  All, Documented, IsAttachment, IsRecord, IsSound, submit-IsSound, schedule-IsSound,
  with_event-IsSound, either-IsSound, either-IsRecord, write_attach_str_arg-IsAttachment,
  write_attach_bytes_arg-IsAttachment,
}

module _ (n : Numbers) (env : Env) (doc : Documented env) (ctx : SysEnter) (nr map_gen : ℕ) where
  path_arg-IsAttachment : (i : ℕ) → IsAttachment (write_attach_str_arg env i max_path (arg ctx i))
  path_arg-IsAttachment i =
      write_attach_str_arg-IsAttachment env i max_path (arg ctx i) doc (omega arith)

  bytes-IsRecord :
      (i room ptr size : ℕ) (s : State)
      → IsRecord
          (enter_event n env ctx nr map_gen 1 (write_attach_bytes_arg env i room ptr size ∷ []) s)
  unfolding IsRecord
  bytes-IsRecord i room ptr size s =
      (refl, (write_attach_bytes_arg-IsAttachment env i room ptr size doc, tt))

  bare-IsRecord : (s : State) → IsRecord (enter_event n env ctx nr map_gen 0 [] s)
  unfolding IsRecord
  bare-IsRecord s = (refl, tt)

  path-IsRecord :
      (i : ℕ) (s : State)
      → IsRecord (
          enter_event n env ctx nr map_gen 1
            (write_attach_str_arg env i max_path (arg ctx i) ∷ [])
            s)
  unfolding IsRecord
  path-IsRecord i s = (refl, (path_arg-IsAttachment i, tt))

  enter_path-IsSound : (s : State) → IsSound 0 s → IsSound 0 (enter_path n env ctx nr map_gen s)
  unfolding enter_path
  enter_path-IsSound s h = with_event-IsSound env 352 s _ h (λ s' p.
      let q = either-IsSound (nr == n.statfs) 1 _ _ (schedule-IsSound env nr _ 1 s' p) p in
      submit-IsSound _ 0 _
        (either-IsRecord (nr == n.statfs) _ _ (path-IsRecord 0 s') (path-IsRecord 1 s'))
        (either-IsSound (nr == n.readlinkat) 1 _ _ (schedule-IsSound env nr _ 1 _ q) q))

  enter_stat_path-IsSound :
      (s : State) → IsSound 0 s → IsSound 0 (enter_stat_path n env ctx nr map_gen s)
  unfolding enter_stat_path
  enter_stat_path-IsSound s h = with_event-IsSound env 352 s _ h (λ s' p.
      submit-IsSound _ 0 _ (path-IsRecord 1 s') (
        either-IsSound (is_number nr n.newfstatat) 1 _ _ (schedule-IsSound env nr _ 1 s' p)
          (schedule-IsSound env nr _ 1 s' p)))

  enter_stat-IsSound : (s : State) → IsSound 0 s → IsSound 0 (enter_stat n env ctx nr map_gen s)
  unfolding enter_stat
  enter_stat-IsSound s h = with_event-IsSound env 88 s _ h (λ s' p.
      submit-IsSound _ 0 _ (bare-IsRecord s') (
        either-IsSound (nr == n.fstatfs) 1 _ _ (schedule-IsSound env nr _ 1 s' p) (
          either-IsSound (nr == n.fstat) 1 _ _ (schedule-IsSound env nr _ 1 s' p)
            (schedule-IsSound env nr _ 1 s' p))))

  two_paths_lem :
      (length (two_paths n env ctx nr map_gen) ≡ 2)
      × All IsAttachment (two_paths n env ctx nr map_gen)
  unfolding two_paths
  two_paths_lem = choose (is_number nr n.rename) _ _ (both 0 1) (
      choose (is_number nr n.renameat) _ _ (both 1 3) (
        choose (nr == n.renameat2) _ _ (both 1 3) (
          choose (is_number nr n.link) _ _ (both 0 1) (
            choose (nr == n.linkat) _ _ (both 1 3)
              (choose (is_number nr n.symlink) _ _ (both 0 1) (both 0 2))))))
    where
      choose :
          (b : Bool) (xs ys : List Attachment)
          → (length xs ≡ 2) × All IsAttachment xs
          → (length ys ≡ 2) × All IsAttachment ys
          → (length (if b then xs else ys) ≡ 2) × All IsAttachment (if b then xs else ys)
      choose true xs ys hx hy = hx
      choose false xs ys hx hy = hy

      both :
          (i j : ℕ)
          → (◌≡◌ {A = ℕ} 2 2)
            × All IsAttachment (
                write_attach_str_arg env i max_path (arg ctx i)
                ∷ write_attach_str_arg env j max_path (arg ctx j)
                ∷ [])
      both i j = (refl, (path_arg-IsAttachment i, (path_arg-IsAttachment j, tt)))

  enter_two_paths-IsSound :
      (s : State) → IsSound 0 s → IsSound 0 (enter_two_paths n env ctx nr map_gen s)
  unfolding enter_two_paths IsRecord
  enter_two_paths-IsSound s h =
      with_event-IsSound env 616 s _ h
        (λ s' p. submit-IsSound _ 0 _ (sym two_paths_lem.0, two_paths_lem.1) p)

  enter_mount-IsSound : (s : State) → IsSound 0 s → IsSound 0 (enter_mount n env ctx nr map_gen s)
  unfolding enter_mount IsRecord
  enter_mount-IsSound s h = with_event-IsSound env 880 s _ h (λ s' p.
      submit-IsSound _ 0 _
        (refl, (path_arg-IsAttachment 0, (path_arg-IsAttachment 1, (path_arg-IsAttachment 2, tt))))
        p)

  sleep_event-IsSound :
      (i : ℕ) (s : State) → IsSound 1 s → IsSound 0 (sleep_event n env ctx nr map_gen i s)
  unfolding sleep_event
  sleep_event-IsSound i s p =
      submit-IsSound _ 0 _
        (either-IsRecord (arg ctx i == 0) _ _ (bare-IsRecord s) (bytes-IsRecord i _ _ _ s))
        (either-IsSound (arg ctx (i + 1) == 0) 1 _ _ p (schedule-IsSound env nr _ 1 s p))

  enter_sleep-IsSound : (s : State) → IsSound 0 s → IsSound 0 (enter_sleep n env ctx nr map_gen s)
  unfolding enter_sleep
  enter_sleep-IsSound s h = with_event-IsSound env 112 s _ h (λ s' p.
      either-IsSound (nr == n.nanosleep) 0 _ _ (sleep_event-IsSound 0 s' p)
        (sleep_event-IsSound 2 s' p))

  enter_sock-IsSound : (s : State) → IsSound 0 s → IsSound 0 (enter_sock n env ctx nr map_gen s)
  unfolding enter_sock
  enter_sock-IsSound s h = with_event-IsSound env 224 s _ h (λ s' p.
      submit-IsSound _ 0 _
        (either-IsRecord (nr == n.sendto) _ _ (bytes-IsRecord 4 _ _ _ s')
          (bytes-IsRecord 1 _ _ _ s'))
        p)

  enter_peer-IsSound : (s : State) → IsSound 0 s → IsSound 0 (enter_peer n env ctx nr map_gen s)
  unfolding enter_peer
  enter_peer-IsSound s h = with_event-IsSound env 88 s _ h (λ s' p.
      submit-IsSound _ 0 _ (bare-IsRecord s') (
        either-IsSound (nr == n.recvfrom) 1 _ _ (schedule-IsSound env nr _ 1 s' p)
          (schedule-IsSound env nr _ 1 s' p)))

  enter_plain-IsSound : (s : State) → IsSound 0 s → IsSound 0 (enter_plain n env ctx nr map_gen s)
  unfolding enter_plain
  enter_plain-IsSound s h =
      with_event-IsSound env 88 s _ h (λ s' p. submit-IsSound _ 0 _ (bare-IsRecord s') p)

  pub enter_branch-IsSound :
      (s : State) → IsSound 0 s → IsSound 0 (enter_branch n env ctx nr map_gen s)
  unfolding enter_branch
  enter_branch-IsSound s h = either-IsSound _ 0 _ _ (enter_path-IsSound s h) (
      either-IsSound _ 0 _ _ (enter_stat_path-IsSound s h) (
        either-IsSound _ 0 _ _ (enter_stat-IsSound s h) (
          either-IsSound _ 0 _ _ (enter_two_paths-IsSound s h) (
            either-IsSound _ 0 _ _ (enter_mount-IsSound s h) (
              either-IsSound _ 0 _ _ (enter_sleep-IsSound s h) (
                either-IsSound _ 0 _ _ (enter_sock-IsSound s h)
                  (either-IsSound _ 0 _ _ (enter_peer-IsSound s h) (enter_plain-IsSound s h))))))))
