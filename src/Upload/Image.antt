-- ===== src/Upload/Image.antt =====
-- The imports of frida_process_chained_fixups of src/fruity/helpers/upload-receiver.c. The linker and
-- the layout of mach-o/loader.h are parameters; the slab, with the handles and the bound pointers, is
-- memory.
pub mod Imports
use frida_core.Base.{
  ℕ, zero, suc, ◌+◌, ◌-◌, ◌*◌, ◌/◌, ◌%◌, ◌^◌, Bool, true, false, ◌||◌, Option, none, some, List, [],
  ◌∷◌, ltb, ◌==◌, if◌then◌else◌,
}
use frida_core.Upload.{quad, Mem, byte_at, load, store}
use frida_core.Upload.Items.{symbol_name_from_darwin}

-- The calls of the linker, with the memory that they read their strings from
pub record Linker : Type 0 where
  pub dlopen : Mem → ℕ → ℕ
  pub dlsym : Mem → ℕ → ℕ → ℕ
  pub ptrauth_strip : ℕ → ℕ

-- mach-o/loader.h: fields at an address, a size and the commands
pub record MachO : Type 0 where
  pub ncmds : Mem → ℕ → ℕ
  pub cmd : Mem → ℕ → ℕ
  pub cmdsize : Mem → ℕ → ℕ
  pub name_offset : Mem → ℕ → ℕ
  pub header_size : ℕ
  pub lc_load_dylib : ℕ
  pub lc_load_weak_dylib : ℕ
  pub lc_reexport_dylib : ℕ
  pub lc_load_upward_dylib : ℕ

abbrev pub load16 : Mem → ℕ → ℕ
load16 m a = byte_at m a 0 + 2 ^ 8 * byte_at m a 1

abbrev pub load32 : Mem → ℕ → ℕ
load32 m a = load16 m a + 2 ^ 16 * load16 m (a + 2)

-- struct _FridaChainedFixupsHeader
abbrev pub imports_offset : Mem → ℕ → ℕ
imports_offset m h = load32 m (h + 8)

abbrev pub symbols_offset : Mem → ℕ → ℕ
symbols_offset m h = load32 m (h + 12)

abbrev pub imports_count : Mem → ℕ → ℕ
imports_count m h = load32 m (h + 16)

abbrev pub imports_format : Mem → ℕ → ℕ
imports_format m h = load32 m (h + 20)

-- The loop over the load commands: the number of handles, which stand in the slab
unfoldable pub open_dylibs : MachO → Linker → ℕ → ℕ → ℕ → ℕ → Mem → ℕ × Mem
open_dylibs o l slab zero command count m = (count, m)
open_dylibs o l slab (suc n) command count m =
    let c = o.cmd m command in
    let handle = l.dlopen m (command + o.name_offset m command) in
    let is_dylib =
      c == o.lc_load_dylib
      || c == o.lc_load_weak_dylib
      || c == o.lc_reexport_dylib
      || c == o.lc_load_upward_dylib in
    let next = command + o.cmdsize m command in
    let with_it = open_dylibs o l slab n next (count + 1) (store m (slab + 8 * count) handle) in
    let without = open_dylibs o l slab n next count m in if is_dylib then with_it else without

unfoldable pub resolve_import : Linker → Mem → ℕ → ℕ → ℕ → ℕ → ℕ
resolve_import l m dylib_handles dylib_ordinal symbol_strings symbol_offset =
    if dylib_ordinal == 0
    then 0
    else l.ptrauth_strip (
        l.dlsym m (load m (dylib_handles + 8 * (dylib_ordinal - 1)))
          (symbol_name_from_darwin m (symbol_strings + symbol_offset)))

-- An int32_t as a number of 64 bits
abbrev pub sign_extend32 : ℕ → ℕ
sign_extend32 a = if ltb a (2 ^ 31) then a else a + (quad - 2 ^ 32)

-- The pointer that import `i` is bound to, by the format of the imports
unfoldable pub import_pointer : Linker → Mem → ℕ → ℕ → ℕ → ℕ → ℕ → ℕ
import_pointer l m handles format imports symbols i =
    if format == 1
    then (let import = load32 m (imports + 4 * i) in
        resolve_import l m handles (import % 2 ^ 8) symbols (import / 2 ^ 9))
    else (if format == 2
        then (let import = load32 m (imports + 8 * i) in
            let addend = sign_extend32 (load32 m (imports + 8 * i + 4)) in
            (resolve_import l m handles (import % 2 ^ 8) symbols (import / 2 ^ 9) + addend) % quad)
        else (let import = load m (imports + 16 * i) in
            let addend = load m (imports + 16 * i + 8) in
            (resolve_import l m handles (import % 2 ^ 16) symbols (import / 2 ^ 32) + addend)
            % quad))

-- The loops over the imports; a format that is not one of the three leaves the pointers as they are.
unfoldable pub bind_imports : Linker → ℕ → ℕ → ℕ → ℕ → ℕ → ℕ → ℕ → Mem → Mem
bind_imports l handles bound format imports symbols zero i m = m
bind_imports l handles bound format imports symbols (suc n) i m =
    let pointer = import_pointer l m handles format imports symbols i in
    bind_imports l handles bound format imports symbols n (i + 1) (store m (bound + 8 * i) pointer)

unfoldable pub bind_all : Linker → ℕ → ℕ → ℕ → Mem → Mem
bind_all l handles bound header m =
    let format = imports_format m header in
    if format == 1 || format == 2 || format == 3
    then bind_imports l handles bound format (header + imports_offset m header)
        (header + symbols_offset m header) (imports_count m header) 0 m
    else m
