-- ===== src/Elf/Listing.antt =====
-- The symbols and exports of an ELF image as lists of the structs in its tables, with the numbers that
-- the format gives, for src/linux/helpers/elf-parser.c.
use frida_core.Base.{
  ℕ, zero, suc, ◌+◌, ◌-◌, ◌*◌, ◌/◌, ◌%◌, ◌^◌, Bool, Option, none, some, ◌&&◌, ◌||◌, not, List, [],
  ◌∷◌, map, ltb, ◌==◌, if◌then◌else◌,
}
use frida_core.Elf.{Memory, Phdr, Dyn, Sym, Shdr, compute_elf_region_upper_bound}
use frida_core.Elf.Symbols.{Details, Tables}

-- The elements that pass a test, in order
unfoldable pub filter : {A : Type 0} → (A → Bool) → List A → List A
filter p [] = []
filter p (x ∷ xs) = if p x then x ∷ filter p xs else filter p xs

-- The symbols in front of the first whose name is not in the string table
unfoldable pub until_end : ℕ → List Sym → List Sym
until_end strings_size [] = []
until_end strings_size (s ∷ ss) =
    if ltb s.st_name strings_size then s ∷ until_end strings_size ss else []

-- The first element
unfoldable pub first : {A : Type 0} → List A → Option A
first [] = none
first (x ∷ xs) = some x

-- What is told of a symbol: its type are the lower four bits of the info, its binding the upper ones.
abbrev pub details_at : ℕ → ℕ → Sym → Details
details_at base strings s = record {
  name = (strings + s.st_name) % 2 ^ 64;
  address = (base + s.st_value) % 2 ^ 64;
  type = s.st_info % 16;
  bind = s.st_info / 16;
}

-- Where a table is of which an entry says `x`: if the symbols are said to lie in front of the image,
-- all the tables are given by their distance from it.
abbrev pub located : ℕ → Tables → ℕ → ℕ
located ehdr t x = if ltb t.symbols_base ehdr then (x + ehdr) % 2 ^ 64 else x

-- A defined function or object
abbrev pub is_defined : Sym → Bool
is_defined s = not (s.st_shndx == 0) && (s.st_info % 16 == 2 || s.st_info % 16 == 1)

-- One that other images see
abbrev pub is_export : Sym → Bool
is_export s = is_defined s && (s.st_info / 16 == 1 || s.st_info / 16 == 2)

-- The value of the last entry with a tag
unfoldable pub last_value : ℕ → List Dyn → ℕ → ℕ
last_value tag [] old = old
last_value tag (d ∷ ds) old = last_value tag ds (if d.d_tag == tag then d.d_ptr else old)

-- The callback on one after the other, until it returns false
unfoldable pub visit : {S : Type 0} → (Details → S → S × Bool) → List Details → S → S
visit func [] s = s
visit func (d ∷ ds) s = if (func d s).1 then visit func ds (func d s).0 else (func d s).0

-- What the dynamic entries say of the symbols
abbrev pub tables_of : List Dyn → Tables
tables_of ds = record {
  symbols_base = last_value 6 ds 0;
  strings_base = last_value 5 ds 0;
  strings_size = last_value 10 ds 0;
}

module _ (m : Memory) where
  open m use {dyn_at, sym_at, shdr_at, ehdr_at}

  -- The array of `n` symbols at an address
  unfoldable pub symbols_at : ℕ → ℕ → List Sym
  symbols_at zero at = []
  symbols_at (suc n) at = sym_at at ∷ symbols_at n (at + 24)

  -- The array of `n` dynamic entries at an address
  unfoldable pub entries_at : ℕ → ℕ → List Dyn
  entries_at zero at = []
  entries_at (suc n) at = dyn_at at ∷ entries_at n (at + 16)

  -- The dynamic entries that a PT_DYNAMIC header leads to
  abbrev pub dynamic_entries : ℕ → Phdr → List Dyn
  dynamic_entries ehdr dyn = entries_at (dyn.p_filesz / 16) ((ehdr + dyn.p_vaddr) % 2 ^ 64)

  -- The functions and objects of the symbol table at a section header
  abbrev pub symbols_of : ℕ → ℕ → Shdr → List Details
  symbols_of ehdr loaded_base shdr =
      let header = ehdr_at ehdr in
      let link = shdr.sh_link * header.e_shentsize % 2 ^ 32 in
      let strings =
        (ehdr + (shdr_at ((ehdr + header.e_shoff + link) % 2 ^ 64)).sh_offset) % 2 ^ 64 in
      map (details_at loaded_base strings) (
        filter is_defined
          (symbols_at (shdr.sh_size / shdr.sh_entsize) ((ehdr + shdr.sh_offset) % 2 ^ 64)))

  -- The array of `n` section headers of some size at an address
  unfoldable pub sections_at : ℕ → ℕ → ℕ → List Shdr
  sections_at size zero at = []
  sections_at size (suc n) at = shdr_at (at % 2 ^ 64) ∷ sections_at size n (at + size)

  -- The symbol table of an image: its first section of the type 2
  abbrev pub symbol_table : ℕ → Option Shdr
  symbol_table ehdr =
      let header = ehdr_at ehdr in
      first (
        filter (λ shdr. shdr.sh_type == 2)
          (sections_at header.e_shentsize header.e_shnum (ehdr + header.e_shoff)))

  -- The symbols of an image: none without a symbol table or with one at address 0, and no answer if
  -- the size of its entries is 0.
  abbrev pub symbols : ℕ → ℕ → Option (List Details)
  symbols ehdr loaded_base = elim (symbol_table ehdr) [
    | none ↦ some []
    | some shdr ↦
        if shdr.sh_entsize == 0
        then none
        else some
            (if (ehdr + shdr.sh_offset) % 2 ^ 64 == 0 then [] else symbols_of ehdr loaded_base shdr)
  ]

  -- The exports of an image with these tables: none without all three of them, and otherwise those
  -- of the symbol table, which ends with its segment or with a name outside of the string table.
  abbrev pub exports : ℕ → Tables → List Details
  exports ehdr t =
      if t.symbols_base == 0 || t.strings_base == 0 || t.strings_size == 0
      then []
      else (let start = located ehdr t t.symbols_base in
          let size = compute_elf_region_upper_bound m ehdr ((start + 2 ^ 64 - ehdr) % 2 ^ 64) in
          map (details_at ehdr (located ehdr t t.strings_base))
            (filter is_export (until_end t.strings_size (symbols_at (size / 24) start))))
