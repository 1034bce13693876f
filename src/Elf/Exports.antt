-- ===== src/Elf/Exports.antt =====
-- frida_elf_enumerate_exports and frida_elf_enumerate_symbols against the lists of `Listing`.
use frida_core.Base.{
  ℕ, zero, suc, ◌+◌, ◌-◌, ◌*◌, ◌/◌, ◌%◌, ◌^◌, ◌≡◌, inl, inr, refl, sym, ap, List, [], Bool, true,
  false, ◌||◌, Option, none, some, map, ltb, leb, ◌==◌, ==_iff, arith, if◌then◌else◌, Bool-cases,
}
use frida_core.Base.Masks.{bit_and-ones}
use Prim.Native.Nat.{bit_and}
use frida_core.Elf.{
  Memory, Phdr, Dyn, Shdr, address_mod, pt_dynamic, find_program_header_by_type,
  compute_elf_region_upper_bound,
}
use frida_core.Elf.Symbols.{
  Details, Tables, no_tables, take_symbols, rebased, scan_symbols, exports_loop, exports_of,
  enumerate_exports, symbols_loop, enumerate_symbols, find_symtab, strings_address, shn_undef,
}
use frida_core.Elf.Listing.{
  filter, first, details_at, located, sections_at, symbol_table, symbols, until_end, is_defined,
  is_export, last_value, visit, symbols_at, entries_at, dynamic_entries, tables_of, exports,
  symbols_of,
}

take_symbols_lem :
    (d : Dyn) (t : Tables)
    → take_symbols d t ≡ record {
      symbols_base = if d.d_tag == 6 then d.d_ptr else t.symbols_base;
      strings_base = if d.d_tag == 5 then d.d_ptr else t.strings_base;
      strings_size = if d.d_tag == 10 then d.d_ptr else t.strings_size;
    }
unfolding take_symbols
take_symbols_lem d t = elim (Bool-cases (d.d_tag == 6)) [
  | inl is_symtab ↦ rw ((==_iff d.d_tag 6).0 is_symtab) refl
  | inr not_symtab ↦ elim (Bool-cases (d.d_tag == 5)) [
    | inl is_strtab ↦ rw ((==_iff d.d_tag 5).0 is_strtab) refl
    | inr not_strtab ↦
        rw (not_symtab, not_strtab)
          (elim (Bool-cases (d.d_tag == 10)) [
            | inl is_strsz ↦ rw is_strsz refl
            | inr other ↦ rw other refl
          ])
  ]
]

rebased_lem :
    (ehdr : ℕ) (t : Tables)
    → rebased ehdr t ≡ record t {
      symbols_base = located ehdr t t.symbols_base;
      strings_base = located ehdr t t.strings_base;
    }
unfolding rebased
rebased_lem ehdr t = elim (Bool-cases (ltb t.symbols_base ehdr)) [
  | inl below ↦ rw below refl
  | inr above ↦ rw above refl
]

module _ (m : Memory) where
  open m use {dyn_at, sym_at}

  scan_symbols_lem :
      (n at : ℕ) (t : Tables)
      → scan_symbols m n at t ≡ record {
        symbols_base = last_value 6 (entries_at m n at) t.symbols_base;
        strings_base = last_value 5 (entries_at m n at) t.strings_base;
        strings_size = last_value 10 (entries_at m n at) t.strings_size;
      }
  unfolding scan_symbols entries_at last_value
  scan_symbols_lem zero at t = refl
  scan_symbols_lem (suc n) at t =
      rw (take_symbols_lem (dyn_at at) t) (scan_symbols_lem n (at + 16) _)

  module _ {S : Type 0} (func : Details → S → S × Bool) where
    exports_loop-visit :
        (ehdr : ℕ) (t : Tables) (n at : ℕ) (s : S)
        → exports_loop m func ehdr t n at s
          ≡ visit func
              (map
                (details_at ehdr t.strings_base)
                (filter is_export (until_end t.strings_size (symbols_at m n at))))
              s
    unfolding exports_loop visit symbols_at until_end filter
    exports_loop-visit ehdr t zero at s = refl
    exports_loop-visit ehdr t (suc n) at s =
        let skipped = exports_loop-visit ehdr t n (at + 24) s in
        elim (Bool-cases (leb t.strings_size (sym_at at).st_name)) [
          | inl ends ↦
              let last : ltb (sym_at at).st_name t.strings_size ≡ false = ground arith in
              rw (low, ends, last) refl
          | inr inside ↦
              let more : ltb (sym_at at).st_name t.strings_size ≡ true = ground arith in
              rw (low, inside, more)
                (elim (Bool-cases ((sym_at at).st_shndx == shn_undef)) [
                  | inl undef ↦ rw undef skipped
                  | inr defined ↦ rw defined (elim (Bool-cases kind) [
                    | inr other ↦ rw other skipped
                    | inl typed ↦ rw typed (elim (Bool-cases seen) [
                      | inr local ↦ rw local skipped
                      | inl bound ↦ rw bound (elim (Bool-cases (func details s).1) [
                        | inl again ↦ rw again (exports_loop-visit ehdr t n (at + 24) _)
                        | inr stop ↦ rw stop refl
                      ])
                    ])
                  ])
                ])
        ]
      where
        details : Details
        details = details_at ehdr t.strings_base (sym_at at)

        low : bit_and (sym_at at).st_info 15 ≡ (sym_at at).st_info % 16
        low = bit_and-ones 4 (sym_at at).st_info

        kind : Bool
        kind = (sym_at at).st_info % 16 == 2 || (sym_at at).st_info % 16 == 1

        seen : Bool
        seen = (sym_at at).st_info / 16 == 1 || (sym_at at).st_info / 16 == 2

    exports_of-visit :
        (ehdr : ℕ) (t : Tables) (s : S)
        → exports_of m func ehdr t s ≡ visit func (exports m ehdr t) s
    unfolding exports_of visit symbols_at until_end filter
    exports_of-visit ehdr t s =
        elim (Bool-cases (t.symbols_base == 0 || t.strings_base == 0 || t.strings_size == 0)) [
          | inl without ↦ rw without refl
          | inr complete ↦
              rw (complete, rebased_lem ehdr t)
                (elim (Bool-cases (size == 0)) [
                  | inl nothing ↦ rw (nothing, (==_iff size 0).0 nothing) refl
                  | inr some_bytes ↦ rw some_bytes (
                      exports_loop-visit ehdr
                        (record t {
                          symbols_base = located ehdr t t.symbols_base;
                          strings_base = located ehdr t t.strings_base;
                        })
                        (size / 24) (located ehdr t t.symbols_base) s)
                ])
        ]
      where
        size : ℕ
        size =
            compute_elf_region_upper_bound m ehdr
              ((located ehdr t t.symbols_base + 2 ^ 64 - ehdr) % 2 ^ 64)

    -- Without a PT_DYNAMIC header frida_elf_enumerate_exports dereferences NULL. With one it calls
    -- `func` on the exports that the tables of its entries have, in order, until it returns false.
    pub enumerate_exports-visit :
        (ehdr : ℕ) (s : S)
        → enumerate_exports m func ehdr s ≡ elim (find_program_header_by_type m ehdr pt_dynamic) [
          | none ↦ none
          | some dyn ↦ some (visit func (exports m ehdr (tables_of (dynamic_entries m ehdr dyn))) s)
        ]
    unfolding enumerate_exports
    enumerate_exports-visit ehdr s = go (find_program_header_by_type m ehdr pt_dynamic)
      where
        go :
            (found : Option Phdr)
            → elim found as (λ _. Option S) [
              | none ↦ none
              | some dyn ↦ some (
                  exports_of m func ehdr
                    (scan_symbols m
                      (dyn.p_filesz / 16)
                      ((ehdr + dyn.p_vaddr) % address_mod)
                      no_tables)
                    s)
            ]
              ≡ elim found as (λ _. Option S) [
                | none ↦ none
                | some dyn ↦
                    some (visit func (exports m ehdr (tables_of (dynamic_entries m ehdr dyn))) s)
              ]
        go none = refl
        go (some dyn) =
            rw (scan_symbols_lem (dyn.p_filesz / 16) ((ehdr + dyn.p_vaddr) % address_mod) no_tables)
              (ap some (exports_of-visit ehdr (tables_of (dynamic_entries m ehdr dyn)) s))

    symbols_loop-visit :
        (loaded_base strings n at : ℕ) (s : S)
        → symbols_loop m func loaded_base strings n at s
          ≡ visit func
              (map (details_at loaded_base strings) (filter is_defined (symbols_at m n at)))
              s
    unfolding symbols_loop visit symbols_at filter
    symbols_loop-visit loaded_base strings zero at s = refl
    symbols_loop-visit loaded_base strings (suc n) at s =
        let skipped = symbols_loop-visit loaded_base strings n (at + 24) s in
        elim (Bool-cases ((sym_at at).st_shndx == shn_undef)) [
          | inl undef ↦ rw (low, undef) skipped
          | inr defined ↦
              rw (low, defined)
                (elim (Bool-cases kind) [
                  | inr other ↦ rw other skipped
                  | inl typed ↦
                      rw typed
                        (elim (Bool-cases (func (details_at loaded_base strings (sym_at at)) s).1) [
                          | inl again ↦
                              rw again (symbols_loop-visit loaded_base strings n (at + 24) _)
                          | inr stop ↦ rw stop refl
                        ])
                ])
        ]
      where
        low : bit_and (sym_at at).st_info 15 ≡ (sym_at at).st_info % 16
        low = bit_and-ones 4 (sym_at at).st_info

        kind : Bool
        kind = (sym_at at).st_info % 16 == 2 || (sym_at at).st_info % 16 == 1

    find_symtab_lem :
        (ehdr n i at : ℕ)
        → at ≡ ehdr + (m.ehdr_at ehdr).e_shoff + i * (m.ehdr_at ehdr).e_shentsize
        → find_symtab m ehdr n i
          ≡ first
              (filter (λ shdr. shdr.sh_type == 2) (sections_at m (m.ehdr_at ehdr).e_shentsize n at))
    unfolding find_symtab first filter sections_at
    find_symtab_lem ehdr zero i at e = refl
    find_symtab_lem ehdr (suc n) i at e =
        rw (sym e, find_symtab_lem ehdr n (suc i) (at + (m.ehdr_at ehdr).e_shentsize) (omega arith))
          (elim (Bool-cases ((m.shdr_at (at % 2 ^ 64)).sh_type == 2)) [
            | inl this ↦ rw this refl
            | inr other ↦ rw other refl
          ])

    -- frida_elf_enumerate_symbols calls `func` on the symbols that `symbols` lists, the functions and
    -- objects defined in the first symbol table of the sections, in order, until it returns false. It
    -- divides by zero if the entries of that table are said to have the size 0.
    pub enumerate_symbols-visit :
        (ehdr loaded_base : ℕ) (s : S)
        → enumerate_symbols m func ehdr loaded_base s
          ≡ elim (symbols m ehdr loaded_base) [ none ↦ none | some ds ↦ some (visit func ds s) ]
    unfolding enumerate_symbols visit
    enumerate_symbols-visit ehdr loaded_base s =
        rw
          (
            enumerate_symbols,
            find_symtab_lem ehdr (m.ehdr_at ehdr).e_shnum 0 (ehdr + (m.ehdr_at ehdr).e_shoff)
                (omega arith),
          )
          (go (symbol_table m ehdr))
      where
        go :
            (found : Option Shdr)
            → (elim found as (λ _. Option S) [
              | none ↦ some s
              | some shdr ↦
                  if shdr.sh_entsize == 0
                  then none
                  else (if (ehdr + shdr.sh_offset) % address_mod == 0
                      then some s
                      else some (
                          symbols_loop m func loaded_base
                            ((ehdr + (m.shdr_at (strings_address m ehdr shdr)).sh_offset)
                              % address_mod)
                            (shdr.sh_size / shdr.sh_entsize)
                            ((ehdr + shdr.sh_offset) % address_mod)
                            s))
            ])
              ≡ (elim (elim found as (λ _. Option (List Details)) [
                | none ↦ some []
                | some shdr ↦
                    if shdr.sh_entsize == 0
                    then none
                    else some (
                        if (ehdr + shdr.sh_offset) % 2 ^ 64 == 0
                        then []
                        else symbols_of m ehdr loaded_base shdr)
              ])
                  as (λ _. Option S) [ none ↦ none | some ds ↦ some (visit func ds s) ])
        go none = refl
        go (some shdr) = elim (Bool-cases (shdr.sh_entsize == 0)) [
          | inl trap ↦ rw trap refl
          | inr sized ↦ rw sized (elim (Bool-cases ((ehdr + shdr.sh_offset) % 2 ^ 64 == 0)) [
            | inl nowhere ↦ rw nowhere refl
            | inr there ↦
                rw there
                  (ap some (symbols_loop-visit loaded_base _ (shdr.sh_size / shdr.sh_entsize) _ s))
          ])
        ]
