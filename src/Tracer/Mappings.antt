-- ===== src/Tracer/Mappings.antt =====
-- on_uprobe_mmap and on_uprobe_munmap of src/linux/helpers/syscall-tracer.bpf.c.
use frida_core.Base.{ℕ, not, Option, none, some, [], ◌∷◌, ◌==◌, if◌then◌else◌}
use frida_core.Tracer.{
  max_path, map_create, map_destroy_range, MapCreateEvent, create, destroy, State, Env,
}
use frida_core.Tracer.Gate.{
  should_trace_current, reserve_map_event, fill_event, bump_map_gen, submit_map, if_reserved,
}
use frida_core.Tracer.Path.{Dentries, BufBuilder, write_attach_dentry_path}

-- What is read of a struct file and of its inode; an inode is its device and its number.
pub record File : Type 0 where
  pub f_inode : Option (ℕ × ℕ)
  pub dentry : Option ℕ
  pub mnt : Option ℕ

pub record VmArea : Type 0 where
  pub vm_start : ℕ
  pub vm_end : ℕ
  pub vm_flags : ℕ
  pub vm_pgoff : ℕ
  pub vm_file : Option File

-- The event of a mapping; the attachment counts if it has bytes.
unfoldable pub create_event :
    Env → Dentries → Option BufBuilder → VmArea → File → ℕ × ℕ → ℕ → State → MapCreateEvent
create_event env ds scratch vma file (device, inode) gen s =
    let path = write_attach_dentry_path ds scratch 0 max_path file.dentry file.mnt in
    let parent = fill_event env map_create s in
    record {
      parent = if path.size == 0 then parent else record parent { attachment_count = 1 };
      start = vma.vm_start;
      end = vma.vm_end;
      pgoff = vma.vm_pgoff;
      vm_flags = vma.vm_flags;
      device = device;
      inode = inode;
      gen = gen;
      attachments = if path.size == 0 then [] else path ∷ [];
    }

-- From the reservation on
unfoldable pub emit_create :
    Env → Dentries → Option BufBuilder → VmArea → File → ℕ × ℕ → ℕ → State → State
emit_create env ds scratch vma file inode gen s =
    if_reserved (λ s'. submit_map (create (create_event env ds scratch vma file inode gen s')) s')
      (reserve_map_event env 344 s)

-- The generation is bumped also where no event follows.
unfoldable pub on_uprobe_mmap : Env → Dentries → Option BufBuilder → VmArea → State → State
on_uprobe_mmap env ds scratch vma s =
    if not (should_trace_current env)
    then s
    else (let (gen, s') = bump_map_gen env s in
        if gen == 0 then s' else (elim vma.vm_file [
          | none ↦ s'
          | some file ↦ elim file.f_inode [
            | none ↦ s'
            | some inode ↦ emit_create env ds scratch vma file inode gen s'
          ]
        ]))

unfoldable pub emit_destroy : Env → ℕ → ℕ → ℕ → State → State
emit_destroy env start end gen s =
    if_reserved
      (λ s'.
        submit_map
          (destroy (record {
            parent = fill_event env map_destroy_range s';
            start = start;
            end = end;
            gen = gen;
          }))
          s')
      (reserve_map_event env 48 s)

unfoldable pub on_uprobe_munmap : Env → VmArea → ℕ → ℕ → State → State
on_uprobe_munmap env vma start end s =
    if not (should_trace_current env) then s else (elim vma.vm_file [
      | none ↦ s
      | some file ↦
          let (gen, s') = bump_map_gen env s in
          if gen == 0 then s' else emit_destroy env start end gen s'
    ])
