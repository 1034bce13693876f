-- ===== src/Elf/Tests.antt =====
-- A small image on which the theorems about src/linux/helpers/elf-parser.c are applied and run.
use frida_core.Base.{
  ℕ, zero, suc, ◌+◌, ◌*◌, ◌%◌, ◌<◌, ◌≡◌, ◌⊎◌, refl, Bool, true, none, some, List, [], ◌∷◌, ◌++◌,
  ◌==◌, if◌then◌else◌, arith, ltb, ◌||◌,
}
use frida_core.Elf.{
  Memory, Phdr, Dyn, Sym, minus, find_program_header_by_type, find_phdr, upper_bound_loop,
  compute_elf_region_upper_bound, compute_base_from_phdrs, pt_phdr, pt_dynamic, address_mod,
}
use frida_core.Elf.Headers.{
  header, end_of, Covers, find_program_header_by_type_lem, compute_elf_region_upper_bound_lem,
  compute_base_from_phdrs_lem,
}
use frida_core.Elf.Symbols.{
  Details, enumerate_exports, exports_of, exports_loop, scan_symbols, take_symbols, rebased,
  enumerate_symbols, query_soname,
}
use frida_core.Elf.Soname.{query_soname_lem}
use frida_core.Elf.Listing.{last_value, visit, exports, tables_of, dynamic_entries, symbols}
use frida_core.Elf.Exports.{enumerate_exports-visit, enumerate_symbols-visit}

abbrev no_phdr : Phdr
no_phdr = record { p_type = 0; p_offset = 0; p_vaddr = 0; p_filesz = 0; p_memsz = 0 }

abbrev image_phdr : ℕ → Phdr
image_phdr a =
    if a == 4160
    then record no_phdr { p_type = 6; p_offset = 64 }
    else (if a == 4216
        then record no_phdr { p_type = 1; p_memsz = 4096 }
        else (if a == 4272
            then record no_phdr { p_type = 2; p_vaddr = 512; p_filesz = 64 }
            else no_phdr))

abbrev image_dyn : ℕ → Dyn
image_dyn a =
    if a == 4608
    then record { d_tag = 6; d_ptr = 1024 }
    else (if a == 4624
        then record { d_tag = 5; d_ptr = 2048 }
        else (if a == 4640
            then record { d_tag = 10; d_ptr = 100 }
            else record { d_tag = 0; d_ptr = 0 }))

abbrev undefined_symbol : Sym
undefined_symbol = record { st_name = 0; st_info = 0; st_shndx = 0; st_value = 0 }

abbrev image_sym : ℕ → Sym
image_sym a =
    if a == 5144
    then record { st_name = 1; st_info = 18; st_shndx = 5; st_value = 256 }
    else (if a == 5168 then record undefined_symbol { st_name = 200 } else undefined_symbol)

abbrev image : Memory
image = record {
  phdr_at = image_phdr;
  dyn_at = image_dyn;
  sym_at = image_sym;
  shdr_at =
      λ a. record { sh_type = 2; sh_offset = 1024; sh_size = 48; sh_link = 0; sh_entsize = 24 };
  ehdr_at = λ a. record {
    e_phoff = 64;
    e_phentsize = 56;
    e_phnum = 3;
    e_shoff = 3000;
    e_shentsize = 64;
    e_shnum = 1;
  };
}

-- A callback that keeps the address and goes on
abbrev collect : Details → List ℕ → List ℕ × Bool
collect d found = (found ++ (d.address ∷ []), true)

runs : enumerate_exports image collect 4096 [] ≡ some (4352 ∷ [])
unfolding enumerate_exports find_phdr scan_symbols take_symbols exports_of rebased upper_bound_loop
    exports_loop
runs = refl

enumerate_exports-visit_example :
    enumerate_exports image collect 4096 []
    ≡ elim (find_program_header_by_type image 4096 pt_dynamic) [
      | none ↦ none
      | some dyn ↦
          some (visit collect (exports image 4096 (tables_of (dynamic_entries image 4096 dyn))) [])
    ]
enumerate_exports-visit_example = enumerate_exports-visit image collect 4096 []

enumerate_symbols-visit_example :
    enumerate_symbols image collect 4096 8192 []
    ≡ elim (symbols image 4096 8192) [ none ↦ none | some ds ↦ some (visit collect ds []) ]
enumerate_symbols-visit_example = enumerate_symbols-visit image collect 4096 8192 []

find_program_header_by_type_lem_example :
    ((find_program_header_by_type image 4096 pt_dynamic ≡ none)
      × ((j : ℕ) → j < 3 → ¬ ((header image 4096 j).p_type ≡ 2)))
    ⊎ ((at : ℕ) × (at < 3)
        × (find_program_header_by_type image 4096 pt_dynamic ≡ some (header image 4096 at))
        × ((header image 4096 at).p_type ≡ 2)
        × ((j : ℕ) → j < at → ¬ ((header image 4096 j).p_type ≡ 2)))
find_program_header_by_type_lem_example = find_program_header_by_type_lem image 4096 2

compute_elf_region_upper_bound_lem_example :
    ((j : ℕ) × (j < 3)
      × Covers (header image 4096 j) 1024
      × (1024 + compute_elf_region_upper_bound image 4096 1024 ≡ end_of (header image 4096 j))
      × (0 < compute_elf_region_upper_bound image 4096 1024))
    ⊎ ((compute_elf_region_upper_bound image 4096 1024 ≡ 0)
        × ((j : ℕ) → j < 3 → ¬ Covers (header image 4096 j) 1024))
compute_elf_region_upper_bound_lem_example = compute_elf_region_upper_bound_lem image 4096 1024

image_base :
    (i at : ℕ)
    → i < 3
    → at ≡ 4160 + i * 56
    → (image_phdr at).p_type ≡ pt_phdr
    → minus 4160 (image_phdr at).p_offset ≡ 4096
image_base zero at h e = rw e (λ is_phdr. refl)
image_base (suc zero) at h e =
    rw e (λ is_phdr. let d : Path ℕ 1 6 = is_phdr in absurd (omega arith))
image_base (suc (suc zero)) at h e =
    rw e (λ is_phdr. let d : Path ℕ 2 6 = is_phdr in absurd (omega arith))
image_base (suc (suc (suc i))) at h e = absurd (omega arith)

compute_base_from_phdrs_lem_example : compute_base_from_phdrs image 4160 56 3 4096 ≡ 4096
compute_base_from_phdrs_lem_example =
    compute_base_from_phdrs_lem image 4160 56 3 4096 4096 0 image_base (omega arith) (omega arith)
      refl

query_soname_lem_example :
    query_soname image 4096 ≡ elim (find_program_header_by_type image 4096 pt_dynamic) [
      | none ↦ none
      | some dyn ↦
          let soname = last_value 14 (dynamic_entries image 4096 dyn) 0 in
          let strings = last_value 5 (dynamic_entries image 4096 dyn) 0 in
          some (
            if soname == 0 || strings == 0
            then none
            else some
                (((if ltb strings 4096 then strings + 4096 else strings) + soname) % address_mod))
    ]
query_soname_lem_example = query_soname_lem image 4096
