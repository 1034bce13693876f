-- ===== src/Elf/Symbols.antt =====
-- The symbol tables of src/linux/helpers/elf-parser.c: the soname, the exports, and the symbols of the
-- section headers. The state `S` is what `user_data` points to, and `func` the callback.
use frida_core.Base.{
  ℕ, zero, suc, ◌+◌, ◌*◌, ◌/◌, ◌%◌, ◌^◌, Bool, ◌||◌, Option, none, some, ltb, leb, ◌==◌,
  if◌then◌else◌, not,
}
use Prim.Native.Nat.{bit_and}
use frida_core.Elf.{
  Memory, Dyn, Sym, Shdr, minus, address_mod, pt_dynamic, find_program_header_by_type,
  compute_elf_region_upper_bound,
}

-- FridaElfExportDetails
pub record Details : Type 0 where
  pub name : ℕ
  pub address : ℕ
  pub type : ℕ
  pub bind : ℕ

abbrev pub shn_undef : ℕ
shn_undef = 0

abbrev pub stt_object : ℕ
stt_object = 1

abbrev pub stt_func : ℕ
stt_func = 2

abbrev pub stb_global : ℕ
stb_global = 1

abbrev pub stb_weak : ℕ
stb_weak = 2

abbrev pub sht_symtab : ℕ
sht_symtab = 2

-- FRIDA_ELF_ST_TYPE and FRIDA_ELF_ST_BIND
abbrev pub st_type : ℕ → ℕ
st_type info = bit_and info 0xf

abbrev pub st_bind : ℕ → ℕ
st_bind info = info / 2 ^ 4

-- The local variables that the first loop of frida_elf_enumerate_exports sets
pub record Tables : Type 0 where
  pub symbols_base : ℕ
  pub strings_base : ℕ
  pub strings_size : ℕ

abbrev pub no_tables : Tables
no_tables = record { symbols_base = 0; strings_base = 0; strings_size = 0 }

-- The switch of that loop: DT_SYMTAB, DT_STRTAB, DT_STRSZ
unfoldable pub take_symbols : Dyn → Tables → Tables
take_symbols d t =
    if d.d_tag == 6
    then record t { symbols_base = d.d_ptr }
    else (if d.d_tag == 5
        then record t { strings_base = d.d_ptr }
        else (if d.d_tag == 10 then record t { strings_size = d.d_ptr } else t))

-- The switch of frida_elf_query_soname: DT_SONAME, DT_STRTAB
unfoldable pub take_soname : Dyn → ℕ × ℕ → ℕ × ℕ
take_soname d (soname_offset, strings_base) =
    if d.d_tag == 14
    then (d.d_ptr, strings_base)
    else (if d.d_tag == 5 then (soname_offset, d.d_ptr) else (soname_offset, strings_base))

-- `if (symbols_base < (ElfW(Addr)) ehdr)`: both bases become addresses.
unfoldable pub rebased : ℕ → Tables → Tables
rebased ehdr t =
    if ltb t.symbols_base ehdr
    then record t {
      symbols_base = (t.symbols_base + ehdr) % address_mod;
      strings_base = (t.strings_base + ehdr) % address_mod;
    }
    else t

-- `strings_base + soname_offset` of what the loop found; the inner `none` is NULL.
unfoldable pub soname_of : ℕ → ℕ × ℕ → Option ℕ
soname_of ehdr (soname_offset, strings_base) =
    if soname_offset == 0 || strings_base == 0
    then none
    else some (
        ((if ltb strings_base ehdr then strings_base + ehdr else strings_base) + soname_offset)
        % address_mod)

-- What the loop of frida_elf_enumerate_exports passes to `func`
abbrev pub export_details : ℕ → ℕ → Sym → Details
export_details ehdr strings_base s = record {
  name = (strings_base + s.st_name) % address_mod;
  address = (ehdr + s.st_value) % address_mod;
  type = st_type s.st_info;
  bind = st_bind s.st_info;
}

module _ (m : Memory) where
  open m use {dyn_at, sym_at, shdr_at, ehdr_at}

  -- The strings and symbols that DT_SYMTAB, DT_STRTAB and DT_STRSZ give; the last entry counts.
  unfoldable pub scan_symbols : ℕ → ℕ → Tables → Tables
  scan_symbols zero entry t = t
  scan_symbols (suc n) entry t = scan_symbols n (entry + 16) (take_symbols (dyn_at entry) t)

  -- The loop of frida_elf_query_soname, over DT_SONAME and DT_STRTAB
  unfoldable pub scan_soname : ℕ → ℕ → ℕ × ℕ → ℕ × ℕ
  scan_soname zero entry found = found
  scan_soname (suc n) entry found = scan_soname n (entry + 16) (take_soname (dyn_at entry) found)

  -- frida_elf_query_soname
  unfoldable pub query_soname : ℕ → Option (Option ℕ)
  query_soname ehdr = elim (find_program_header_by_type m ehdr pt_dynamic) [
    | none ↦ none
    | some dyn ↦ some (
        soname_of ehdr
          (scan_soname (dyn.p_filesz / 16) ((ehdr + dyn.p_vaddr) % address_mod) (0, 0)))
  ]

  -- The section header table of an image
  abbrev pub shdr_address : ℕ → ℕ → ℕ
  shdr_address ehdr i =
      (ehdr + (ehdr_at ehdr).e_shoff + i * (ehdr_at ehdr).e_shentsize) % address_mod

  -- `section_headers + (shdr->sh_link * ehdr->e_shentsize)`: the product is an unsigned int.
  abbrev pub strings_address : ℕ → Shdr → ℕ
  strings_address ehdr shdr =
      (ehdr + (ehdr_at ehdr).e_shoff + shdr.sh_link * (ehdr_at ehdr).e_shentsize % 2 ^ 32)
      % address_mod

  -- The first loop of frida_elf_enumerate_symbols finds SHT_SYMTAB; `none` is NULL.
  unfoldable pub find_symtab : ℕ → ℕ → ℕ → Option Shdr
  find_symtab ehdr zero i = none
  find_symtab ehdr (suc n) i =
      let rest = find_symtab ehdr n (suc i) in
      if (shdr_at (shdr_address ehdr i)).sh_type == sht_symtab
      then some (shdr_at (shdr_address ehdr i))
      else rest

  module _ {S : Type 0} (func : Details → S → S × Bool) where
    -- The loop of frida_elf_enumerate_exports over the symbols from `sym` on
    unfoldable pub exports_loop : ℕ → Tables → ℕ → ℕ → S → S
    exports_loop ehdr t zero sym user_data = user_data
    exports_loop ehdr t (suc n) sym user_data =
        let s = sym_at sym in
        let called = func (export_details ehdr t.strings_base s) user_data in
        let skipped = exports_loop ehdr t n (sym + 24) user_data in
        let gone_on = exports_loop ehdr t n (sym + 24) called.0 in
        if leb t.strings_size s.st_name
        then user_data
        else (if s.st_shndx == shn_undef
            then skipped
            else (if not (st_type s.st_info == stt_func || st_type s.st_info == stt_object)
                then skipped
                else (if not (st_bind s.st_info == stb_global || st_bind s.st_info == stb_weak)
                    then skipped
                    else (if not called.1 then called.0 else gone_on))))

    -- frida_elf_enumerate_exports after its first loop
    unfoldable pub exports_of : ℕ → Tables → S → S
    exports_of ehdr t user_data =
        if t.symbols_base == 0 || t.strings_base == 0 || t.strings_size == 0
        then user_data
        else (let t' = rebased ehdr t in
            let size = compute_elf_region_upper_bound m ehdr (minus t'.symbols_base ehdr) in
            if size == 0
            then user_data
            else exports_loop ehdr t' (size / 24) t'.symbols_base user_data)

    -- frida_elf_enumerate_exports
    unfoldable pub enumerate_exports : ℕ → S → Option S
    enumerate_exports ehdr user_data = elim (find_program_header_by_type m ehdr pt_dynamic) [
      | none ↦ none
      | some dyn ↦ some (
          exports_of ehdr
            (scan_symbols (dyn.p_filesz / 16) ((ehdr + dyn.p_vaddr) % address_mod) no_tables)
            user_data)
    ]

    -- The loop of frida_elf_enumerate_symbols over the symbol table
    unfoldable pub symbols_loop : ℕ → ℕ → ℕ → ℕ → S → S
    symbols_loop loaded_base strings zero sym user_data = user_data
    symbols_loop loaded_base strings (suc n) sym user_data =
        let s = sym_at sym in
        let called = func (export_details loaded_base strings s) user_data in
        let skipped = symbols_loop loaded_base strings n (sym + 24) user_data in
        let gone_on = symbols_loop loaded_base strings n (sym + 24) called.0 in
        if s.st_shndx == shn_undef
        then skipped
        else (if not (st_type s.st_info == stt_func || st_type s.st_info == stt_object)
            then skipped
            else (if not called.1 then called.0 else gone_on))

    -- frida_elf_enumerate_symbols; `none` is the division by a sh_entsize of 0. A symbol table at
    -- address 0 is passed over as if there were none.
    unfoldable pub enumerate_symbols : ℕ → ℕ → S → Option S
    enumerate_symbols ehdr loaded_base user_data =
        elim (find_symtab ehdr (ehdr_at ehdr).e_shnum 0) [
          | none ↦ some user_data
          | some shdr ↦
              let symbols = (ehdr + shdr.sh_offset) % address_mod in
              let strings_shdr = shdr_at (strings_address ehdr shdr) in
              if shdr.sh_entsize == 0
              then none
              else (if symbols == 0
                  then some user_data
                  else some (
                      symbols_loop loaded_base ((ehdr + strings_shdr.sh_offset) % address_mod)
                        (shdr.sh_size / shdr.sh_entsize) symbols user_data))
        ]
