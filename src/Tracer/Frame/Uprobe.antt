-- ===== src/Tracer/Frame/Uprobe.antt =====
-- on_uprobe_mmap and on_uprobe_munmap of src/linux/helpers/syscall-tracer.bpf.c, for a predicate on
-- their states.
use frida_core.Base.{ℕ, not, Option, none, some, ◌==◌, if◌then◌else◌, both_branches}
use frida_core.Tracer.{State, Env}
use frida_core.Tracer.Gate.{should_trace_current, bump_map_gen}
use frida_core.Tracer.Path.{Dentries, BufBuilder}
use frida_core.Tracer.Mappings.{
  File, VmArea, emit_create, on_uprobe_mmap, emit_destroy, on_uprobe_munmap,
}

module _ (env : Env) (P : State → Type 0)
    (bumps : (s : State) → P s → P (bump_map_gen env s).1) where
  pub on_uprobe_mmap-keeps :
      (ds : Dentries) (scratch : Option BufBuilder) (vma : VmArea) (s : State)
      → ((file : File) (inode : ℕ × ℕ) (gen : ℕ) (t : State)
          → P t
          → P (emit_create env ds scratch vma file inode gen t))
      → P s
      → P (on_uprobe_mmap env ds scratch vma s)
  unfolding on_uprobe_mmap
  on_uprobe_mmap-keeps ds scratch vma s emits h =
      both_branches P (not (should_trace_current env)) h
        (bumped (bump_map_gen env s) vma.vm_file (bumps s h))
    where
      of_inode :
          (gen : ℕ) (t : State) (file : File) (inode : Option (ℕ × ℕ))
          → P t
          → P (elim inode as (λ _. State) [
            | none ↦ t
            | some i ↦ emit_create env ds scratch vma file i gen t
          ])
      of_inode gen t file none g = g
      of_inode gen t file (some i) g = emits file i gen t g

      of_file :
          (gen : ℕ) (t : State) (file : Option File)
          → P t
          → P (elim file as (λ _. State) [
            | none ↦ t
            | some f ↦ elim f.f_inode as (λ _. State) [
              | none ↦ t
              | some i ↦ emit_create env ds scratch vma f i gen t
            ]
          ])
      of_file gen t none g = g
      of_file gen t (some f) g = of_inode gen t f f.f_inode g

      bumped :
          (r : ℕ × State) (file : Option File)
          → P r.1
          → P (
              if r.0 == 0 then r.1 else (elim file as (λ _. State) [
                | none ↦ r.1
                | some f ↦ elim f.f_inode as (λ _. State) [
                  | none ↦ r.1
                  | some i ↦ emit_create env ds scratch vma f i r.0 r.1
                ]
              ]))
      bumped r file g = both_branches P (r.0 == 0) g (of_file r.0 r.1 file g)

  pub on_uprobe_munmap-keeps :
      (vma : VmArea) (start end : ℕ) (s : State)
      → ((gen : ℕ) (t : State) → P t → P (emit_destroy env start end gen t))
      → P s
      → P (on_uprobe_munmap env vma start end s)
  unfolding on_uprobe_munmap
  on_uprobe_munmap-keeps vma start end s emits h =
      both_branches P (not (should_trace_current env)) h (of_file vma.vm_file)
    where
      of_file :
          (file : Option File)
          → P (elim file as (λ _. State) [
            | none ↦ s
            | some f ↦
                let (gen, s') = bump_map_gen env s in
                if gen == 0 then s' else emit_destroy env start end gen s'
          ])
      of_file none = h
      of_file (some f) = both_branches P _ (bumps s h) (emits _ _ (bumps s h))
