-- ===== src/Elf.antt =====
-- src/linux/helpers/elf-parser.c on a 64-bit target. A pointer is an address, and a `Memory` gives
-- the struct that stands at one, so that the pointer arithmetic is written out. Sums of addresses wrap
-- at 64 bits; a pointer that steps through an array does not leave it. A result of `none` is a
-- dereference of NULL or a division by zero.
pub mod Headers
pub mod Symbols
pub mod Listing
pub mod Soname
pub mod Exports
mod Tests
use frida_core.Base.{
  ℕ, zero, suc, ◌+◌, ◌*◌, ◌/◌, ◌%◌, ◌^◌, ◌-◌, Bool, true, false, ◌&&◌, ◌||◌, Option, none, some,
  ltb, leb, ◌==◌, if◌then◌else◌, not,
}
use Prim.Native.Nat.{bit_and}

pub record Phdr : Type 0 where
  p_type : ℕ
  p_offset : ℕ
  p_vaddr : ℕ
  p_filesz : ℕ
  p_memsz : ℕ

pub record Dyn : Type 0 where
  d_tag : ℕ
  d_ptr : ℕ

pub record Sym : Type 0 where
  st_name : ℕ
  st_info : ℕ
  st_shndx : ℕ
  st_value : ℕ

pub record Shdr : Type 0 where
  sh_type : ℕ
  sh_offset : ℕ
  sh_size : ℕ
  sh_link : ℕ
  sh_entsize : ℕ

pub record Ehdr : Type 0 where
  e_phoff : ℕ
  e_phentsize : ℕ
  e_phnum : ℕ
  e_shoff : ℕ
  e_shentsize : ℕ
  e_shnum : ℕ

pub record Memory : Type 0 where
  phdr_at : ℕ → Phdr
  dyn_at : ℕ → Dyn
  sym_at : ℕ → Sym
  shdr_at : ℕ → Shdr
  ehdr_at : ℕ → Ehdr

abbrev pub pt_load : ℕ
pt_load = 1

abbrev pub pt_dynamic : ℕ
pt_dynamic = 2

abbrev pub pt_phdr : ℕ
pt_phdr = 6

abbrev pub address_mod : ℕ
address_mod = 2 ^ 64

-- `a - b` of addresses
abbrev pub minus : ℕ → ℕ → ℕ
minus a b = (a + address_mod - b) % address_mod

-- `phdr->p_type == PT_LOAD && address >= start && address < end`
abbrev pub covers : Phdr → ℕ → Bool
covers p address =
    p.p_type == pt_load
    && leb p.p_vaddr address
    && ltb address ((p.p_vaddr + p.p_memsz) % address_mod)

-- One round of the loop of frida_elf_compute_base_from_phdrs
unfoldable pub base_step : ℕ → Phdr → ℕ → ℕ
base_step phdrs phdr base =
    let base' = if phdr.p_type == pt_phdr then minus phdrs phdr.p_offset else base in
    if phdr.p_type == pt_load && phdr.p_offset == 0 && base' == 0 then phdr.p_vaddr else base'

module _ (m : Memory) where
  open m use {phdr_at, dyn_at, sym_at, shdr_at, ehdr_at}

  -- `(void *) ehdr + ehdr->e_phoff + (i * ehdr->e_phentsize)`
  abbrev pub phdr_address : ℕ → ℕ → ℕ
  phdr_address ehdr i =
      (ehdr + (ehdr_at ehdr).e_phoff + i * (ehdr_at ehdr).e_phentsize) % address_mod

  -- frida_find_program_header_by_type: from header `i` on, with `n` to go; `none` is NULL.
  unfoldable pub find_phdr : ℕ → ℕ → ℕ → ℕ → Option Phdr
  find_phdr ehdr kind zero i = none
  find_phdr ehdr kind (suc n) i =
      let rest = find_phdr ehdr kind n (suc i) in
      if (phdr_at (phdr_address ehdr i)).p_type == kind
      then some (phdr_at (phdr_address ehdr i))
      else rest

  abbrev pub find_program_header_by_type : ℕ → ℕ → Option Phdr
  find_program_header_by_type ehdr kind = find_phdr ehdr kind (ehdr_at ehdr).e_phnum 0

  -- The loop of frida_compute_elf_region_upper_bound
  unfoldable pub upper_bound_loop : ℕ → ℕ → ℕ → ℕ → ℕ
  upper_bound_loop ehdr address zero i = 0
  upper_bound_loop ehdr address (suc n) i =
      let rest = upper_bound_loop ehdr address n (suc i) in
      let phdr = phdr_at (phdr_address ehdr i) in
      if covers phdr address then (phdr.p_vaddr + phdr.p_memsz) % address_mod - address else rest

  -- frida_compute_elf_region_upper_bound
  abbrev pub compute_elf_region_upper_bound : ℕ → ℕ → ℕ
  compute_elf_region_upper_bound ehdr address =
      upper_bound_loop ehdr address (ehdr_at ehdr).e_phnum 0

  -- The loop itself, at the pointer `phdr`
  unfoldable pub base_loop : ℕ → ℕ → ℕ → ℕ → ℕ → ℕ
  base_loop phdrs phdr_size zero phdr base = base
  base_loop phdrs phdr_size (suc n) phdr base =
      base_loop phdrs phdr_size n (phdr + phdr_size) (base_step phdrs (phdr_at phdr) base)

  -- frida_elf_compute_base_from_phdrs; the page size is a power of two, so the mask rounds down.
  unfoldable pub compute_base_from_phdrs : ℕ → ℕ → ℕ → ℕ → ℕ
  compute_base_from_phdrs phdrs phdr_size phdr_count page_size =
      let base = base_loop phdrs phdr_size phdr_count phdrs 0 in
      if base == 0 then phdrs - phdrs % page_size else base

  -- frida_elf_find_dynamic_section
  unfoldable pub find_dynamic_section : ℕ → Option ℕ
  find_dynamic_section ehdr = elim (find_program_header_by_type ehdr pt_dynamic) [
    | none ↦ none
    | some dyn ↦ some ((ehdr + dyn.p_vaddr) % address_mod)
  ]
