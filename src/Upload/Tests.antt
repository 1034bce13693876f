-- ===== src/Upload/Tests.antt =====
-- Memories for the loops of src/fruity/helpers/upload-receiver.c: two slots from 8208 on, 16 bytes apart,
-- that are chained for the strides 4 and 8, and two imports behind a table at 256.
use frida_core.Base.{
  if◌then◌else◌, ltb, ◌==◌, ℕ, ◌+◌, ◌-◌, ◌*◌, ◌%◌, ◌^◌, ◌<◌, ◌≡◌, refl, some, [], ◌∷◌, inr, arith,
}
use frida_core.Upload.{Mem, load, store}
use frida_core.Upload.Items.{
  Ptrauth, ptr_64, ptr_64_offset, ptr_arm64e, fix_generic64, fix_arm64e, fix_threaded, slide_of,
  next_threaded, next_arm64e, next_generic64, sign_extend_int19, fixups_generic64, fixups_arm64e,
}
use frida_core.Upload.Chain.{IsFixedUp}
use frida_core.Upload.Walk.{fixups-IsFixedUp}
use frida_core.Upload.Same.{sign_extend_int19_lem, fix_threaded-fix_arm64e, fix_generic64-offset}
use frida_core.Upload.Threaded.{item_value, fix_threaded-item_value}
use frida_core.Upload.Image.{Linker, bind_imports}
use frida_core.Upload.Image.Imports.{AgreeOutside, import_target, bind_imports-import_target}

abbrev pa : Ptrauth
pa = record {
  sign_unauthenticated = λ ptr key d. ptr + 2 ^ 56;
  blend_discriminator = λ address d. address + d;
}

abbrev symbols : ℕ → ℕ
symbols i = 1000 + i

-- A distance of 4 for the stride 4, and of 2 for the stride 8
abbrev far_memory : ℕ → Mem
far_memory distance = store (store (λ b. 0) 8208 (distance * 2 ^ 51 + 48)) 8224 64

fixups-IsFixedUp_example :
    ((m' : Mem) × (fixups_generic64 2 8192 4096 symbols 9 8208 (far_memory 4) ≡ some m')
      × IsFixedUp (fix_generic64 2 8192 4096 symbols) (far_memory 4) (8208 ∷ 8224 ∷ []) m')
    × ((m' : Mem) × (fixups_arm64e pa 2 8192 4096 symbols 9 8224 (far_memory 4) ≡ some m')
        × IsFixedUp (fix_arm64e pa 2 8192 4096 symbols) (far_memory 4) (8224 ∷ []) m')
unfolding load store next_generic64 next_arm64e
fixups-IsFixedUp_example =
    fixups-IsFixedUp pa 2 8192 4096 symbols (8208 ∷ 8224 ∷ []) (8224 ∷ []) 9 8208 8224
      (far_memory 4) (refl, refl, omega arith, (refl, refl)) (refl, refl) (omega arith)
      (omega arith)

fix_threaded-fix_arm64e_example :
    (fix_threaded pa 4096 (slide_of 8192 4096) symbols 16 (2 ^ 62 + 5)
      ≡ fix_arm64e pa ptr_arm64e 8192 4096 symbols 16 (2 ^ 62 + 5))
    × (next_threaded (2 ^ 62 + 5) ≡ next_arm64e (2 ^ 62 + 5))
fix_threaded-fix_arm64e_example =
    fix_threaded-fix_arm64e pa 8192 4096 symbols 16 (2 ^ 62 + 5) (omega arith) refl (omega arith)

-- A negative target with a top byte
fix_threaded-item_value_example :
    fix_threaded pa 4096 4096 symbols 16 (2 ^ 43 * 5 + 2 ^ 42 + 7)
    ≡ item_value pa 4096 4096 symbols 16 (2 ^ 43 * 5 + 2 ^ 42 + 7)
fix_threaded-item_value_example =
    fix_threaded-item_value pa 4096 4096 symbols 16 (2 ^ 43 * 5 + 2 ^ 42 + 7)

fix_generic64-offset_example :
    fix_generic64 ptr_64 8192 4096 symbols 16 4144
    ≡ fix_generic64 ptr_64_offset 8192 4096 symbols 16 48
fix_generic64-offset_example =
    fix_generic64-offset 8192 4096 4144 48 16 symbols (omega arith) (omega arith) refl refl

sign_extend_int19_lem_example : sign_extend_int19 0x7ffff ≡ 2 ^ 64 - 1
sign_extend_int19_lem_example = sign_extend_int19_lem 0x7ffff (omega arith)

abbrev linker : Linker
linker = record { dlopen = λ m name. 7; dlsym = λ m handle name. 5; ptrauth_strip = λ ptr. ptr }

-- Imports of format 2 with the ordinal 1 and the addend -1, each in eight bytes from 1024 on
abbrev imports : Mem
imports b =
    if ltb b 1024
    then 1
    else (if b % 8 == 0 then 1 else (if b % 8 == 1 then 2 else (if ltb (b % 8) 4 then 0 else 255)))

-- They lie behind the table.
stable :
    (j : ℕ) (m' : Mem)
    → AgreeOutside 256 2 imports m'
    → import_target linker m' 512 2 1024 2048 j ≡ import_target linker imports 512 2 1024 2048 j
stable j m' agree =
    rw
      (
        agree (1024 + 8 * j + 0) (inr (omega arith)),
        agree (1024 + 8 * j + 4 + 0) (inr (omega arith)),
        agree (1024 + 8 * j + 4 + 1) (inr (omega arith)),
        agree (1024 + 8 * j + 4 + 2 + 0) (inr (omega arith)),
        agree (1024 + 8 * j + 4 + 2 + 1) (inr (omega arith)),
      )
      refl

bind_imports-import_target_example :
    let done = bind_imports linker 512 256 2 1024 2048 2 0 imports in
    ((j : ℕ) → j < 2 → load done (256 + 8 * j) ≡ import_target linker imports 512 2 1024 2048 j)
    × AgreeOutside 256 2 imports done
bind_imports-import_target_example =
    bind_imports-import_target linker 512 256 2 1024 2048 2 imports (λ j m' h. stable j m')
