-- ===== src/Tracer/Sound/Run.antt =====
-- The records over any runs of the programs of src/linux/helpers/syscall-tracer.bpf.c.
use frida_core.Base.{
  ℕ, ◌≤◌, refl, Option, none, some, ◌==◌, if◌then◌else◌, ltb, arith, Bool-cases, inl, inr, length,
  length-take,
}
use frida_core.Tracer.{State, Env, max_path, create}
use frida_core.Tracer.Attach.{Numbers}
use frida_core.Tracer.Path.{
  Dentries, BufBuilder, build_path, path_content, write_attach_dentry_path,
}
use frida_core.Tracer.Mappings.{File, VmArea, create_event, emit_create, emit_destroy}
use frida_core.Tracer.Run.{
  initial, Step, entered, exited, mapped, unmapped, known, evicted, Runs, done, then_step,
}
use frida_core.Tracer.Sound.{
  Documented, IsAttachment, IsMapRecord, IsSound, Counts, submit_map-IsSound, if_reserved-IsSound,
}
use frida_core.Tracer.Frame.Uprobe.{on_uprobe_mmap-keeps, on_uprobe_munmap-keeps}
use frida_core.Tracer.Sound.Exit.{on_sys_exit-IsSound, on_sys_enter-IsSound}
use frida_core.Tracer.Sound.Process.{bump_map_gen-IsSound}

length-path_content :
    (ds : Dentries) (scratch : Option BufBuilder) (dst_cap : ℕ) (dentry mnt : Option ℕ)
    → length (path_content ds scratch dst_cap dentry mnt) ≤ dst_cap
unfolding path_content
length-path_content ds none dst_cap dentry mnt = omega arith
length-path_content ds (some b) dst_cap none mnt = omega arith
length-path_content ds (some b) dst_cap (some d) none = omega arith
length-path_content ds (some b) dst_cap (some d) (some mnt) =
    let b' = build_path ds b d mnt in
    let e = length-take (if ltb dst_cap b'.pos then dst_cap else b'.pos) b'.buf in
    rw e (ground arith)

pub write_attach_dentry_path-IsAttachment :
    (ds : Dentries) (scratch : Option BufBuilder) (i dst_cap : ℕ) (dentry mnt : Option ℕ)
    → IsAttachment (write_attach_dentry_path ds scratch i dst_cap dentry mnt)
unfolding write_attach_dentry_path
write_attach_dentry_path-IsAttachment ds scratch i dst_cap dentry mnt =
    (refl, length-path_content ds scratch dst_cap dentry mnt)

create-IsMapRecord :
    (env : Env) (ds : Dentries) (scratch : Option BufBuilder) (vma : VmArea) (file : File)
    (inode : ℕ × ℕ) (gen : ℕ) (s : State)
    → IsMapRecord (create (create_event env ds scratch vma file inode gen s))
unfolding create_event IsMapRecord
create-IsMapRecord env ds scratch vma file (device, inode) gen s =
    let path = write_attach_dentry_path ds scratch 0 max_path file.dentry file.mnt in
    let ok = write_attach_dentry_path-IsAttachment ds scratch 0 max_path file.dentry file.mnt in
    elim (Bool-cases (path.size == 0)) [
      | inl empty ↦ rw empty (refl, tt)
      | inr full ↦ rw full (refl, (ok, tt))
    ]

module _ (env : Env) where
  emit_create-IsSound :
      (ds : Dentries) (scratch : Option BufBuilder) (vma : VmArea) (file : File) (inode : ℕ × ℕ)
      (gen : ℕ) (s : State)
      → IsSound 0 s
      → IsSound 0 (emit_create env ds scratch vma file inode gen s)
  unfolding emit_create
  emit_create-IsSound ds scratch vma file inode gen s h =
      if_reserved-IsSound (env.map_events_room s 344) 344 s _ h (λ s' p.
        submit_map-IsSound _ 0 _ (create-IsMapRecord env ds scratch vma file inode gen s') p)

  emit_destroy-IsSound :
      (start end gen : ℕ) (s : State) → IsSound 0 s → IsSound 0 (emit_destroy env start end gen s)
  unfolding emit_destroy IsMapRecord
  emit_destroy-IsSound start end gen s h =
      if_reserved-IsSound (env.map_events_room s 48) 48 s _ h
        (λ s' p. submit_map-IsSound _ 0 _ (refl, tt) p)

Step-IsSound : (n : Numbers) (s t : State) → Step n Documented s t → IsSound 0 s → IsSound 0 t
Step-IsSound n s t (entered env ctx doc) h = on_sys_enter-IsSound env doc n ctx s h
Step-IsSound n s t (exited env ctx doc) h = on_sys_exit-IsSound env doc n ctx s h
Step-IsSound n s t (mapped env ds scratch vma doc) h =
    on_uprobe_mmap-keeps env (IsSound 0) (bump_map_gen-IsSound env doc) ds scratch vma s
      (λ file inode gen. emit_create-IsSound env ds scratch vma file inode gen) h
Step-IsSound n s t (unmapped env vma start end doc) h =
    on_uprobe_munmap-keeps env (IsSound 0) (bump_map_gen-IsSound env doc) vma start end s
      (λ gen. emit_destroy-IsSound env start end gen) h
Step-IsSound n s t (known tgid st gen e) h = record {
  records = h.records;
  map_records = h.map_records;
  counts = h.counts;
}
Step-IsSound n s t (evicted tgid) h = record {
  records = h.records;
  map_records = h.map_records;
  counts = h.counts;
}

initial-IsSound : IsSound 0 initial
unfolding Counts
initial-IsSound = record { records = tt; map_records = tt; counts = refl }

-- After any sequence of runs of the four programs, in any environments whose helpers read at most the
-- bytes that they are asked for, and of writes of the user to the entries of the processes: in each
-- record the header counts the attachments, each attachment's size is the number of bytes written to
-- its array and at most the array's, and the statistics count all records submitted, modulo 2 ^ 64.
pub Runs-IsSound : (n : Numbers) (s : State) → Runs n Documented initial s → IsSound 0 s
Runs-IsSound n s done = initial-IsSound
Runs-IsSound n s (then_step runs step) = Step-IsSound n _ _ step (Runs-IsSound n _ runs)
