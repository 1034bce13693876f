-- ===== src/Elf/Soname.antt =====
-- frida_elf_query_soname of src/linux/helpers/elf-parser.c.
use frida_core.Base.{
  ℕ, zero, suc, ◌+◌, ◌/◌, ◌%◌, ◌≡◌, inl, inr, refl, ◌||◌, Option, none, some, ltb, ◌==◌, ==_iff,
  if◌then◌else◌, Bool-cases,
}
use frida_core.Elf.{Memory, Phdr, Dyn, address_mod, pt_dynamic, find_program_header_by_type}
use frida_core.Elf.Symbols.{take_soname, scan_soname, soname_of, query_soname}
use frida_core.Elf.Listing.{last_value, entries_at, dynamic_entries}

module _ (m : Memory) where
  open m use {dyn_at}

  take_soname_lem :
      (d : Dyn) (o b : ℕ)
      → take_soname d (o, b)
        ≡ (if d.d_tag == 14 then d.d_ptr else o, if d.d_tag == 5 then d.d_ptr else b)
  unfolding take_soname
  take_soname_lem d o b = elim (Bool-cases (d.d_tag == 14)) [
    | inl is_soname ↦ rw ((==_iff d.d_tag 14).0 is_soname) refl
    | inr not_soname ↦ rw not_soname (elim (Bool-cases (d.d_tag == 5)) [
      | inl is_strtab ↦ rw is_strtab refl
      | inr other ↦ rw other refl
    ])
  ]

  scan_soname_lem :
      (n at o b : ℕ)
      → scan_soname m n at (o, b)
        ≡ (last_value 14 (entries_at m n at) o, last_value 5 (entries_at m n at) b)
  unfolding scan_soname entries_at last_value
  scan_soname_lem zero at o b = refl
  scan_soname_lem (suc n) at o b =
      rw (take_soname_lem (dyn_at at) o b) (scan_soname_lem n (at + 16) _ _)

  -- Without a PT_DYNAMIC header frida_elf_query_soname dereferences NULL. With one it returns NULL if
  -- the last DT_SONAME or DT_STRTAB entry is missing or 0, and otherwise the string at the offset of
  -- the former from the latter, relative to the image if it lies below it.
  pub query_soname_lem :
      (ehdr : ℕ)
      → query_soname m ehdr ≡ elim (find_program_header_by_type m ehdr pt_dynamic) [
        | none ↦ none
        | some dyn ↦
            let soname = last_value 14 (dynamic_entries m ehdr dyn) 0 in
            let strings = last_value 5 (dynamic_entries m ehdr dyn) 0 in
            some (
              if soname == 0 || strings == 0
              then none
              else some
                  (((if ltb strings ehdr then strings + ehdr else strings) + soname) % address_mod))
      ]
  unfolding query_soname soname_of
  query_soname_lem ehdr = go (find_program_header_by_type m ehdr pt_dynamic)
    where
      go :
          (found : Option Phdr)
          → (elim found as (λ _. Option (Option ℕ)) [
            | none ↦ none
            | some dyn ↦ some (
                soname_of ehdr
                  (scan_soname m (dyn.p_filesz / 16) ((ehdr + dyn.p_vaddr) % address_mod) (0, 0)))
          ])
            ≡ (elim found as (λ _. Option (Option ℕ)) [
              | none ↦ none
              | some dyn ↦
                  let soname = last_value 14 (dynamic_entries m ehdr dyn) 0 in
                  let strings = last_value 5 (dynamic_entries m ehdr dyn) 0 in
                  some (
                    if soname == 0 || strings == 0
                    then none
                    else some (
                        ((if ltb strings ehdr then strings + ehdr else strings) + soname)
                        % address_mod))
            ])
      go none = refl
      go (some dyn) =
          rw (scan_soname_lem (dyn.p_filesz / 16) ((ehdr + dyn.p_vaddr) % address_mod) 0 0) refl
