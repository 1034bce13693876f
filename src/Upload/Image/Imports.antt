-- ===== src/Upload/Image/Imports.antt =====
-- The table of the bound pointers that frida_process_chained_fixups of
-- src/fruity/helpers/upload-receiver.c fills.
use frida_core.Base.{
  ℕ, zero, suc, ◌+◌, ◌-◌, ◌*◌, ◌/◌, ◌%◌, ◌^◌, ◌≤◌, ◌<◌, ◌≡◌, refl, sym, ap, subst, ◌∙◌, ◌⊎◌, inl,
  inr, arith, Bool-cases, ltb, ◌==◌, ==_iff, if◌then◌else◌,
}
use frida_core.Upload.{quad, Mem, byte_at, load, store}
use frida_core.Upload.Items.{symbol_name_from_darwin}
use frida_core.Upload.Chain.{store-out, load-store, load-eq}
use frida_core.Upload.Image.{Linker, load32, resolve_import, import_pointer, bind_imports}

-- The address of a symbol in the library with an ordinal: library 1 has the first handle, library 0 has
-- no symbols, and an underscore in front of the name is left out.
abbrev pub symbol_pointer : Linker → Mem → ℕ → ℕ → ℕ → ℕ
symbol_pointer l m handles ordinal name =
    if ordinal == 0
    then 0
    else l.ptrauth_strip (
        l.dlsym m (load m (handles + 8 * (ordinal - 1)))
          (if m name % 256 == 95 then name + 1 else name))

-- What import `i` is bound to. Formats 1 and 2 have an ordinal of 8 bits and, behind a flag, a name
-- offset of 23 bits in four bytes; format 2 has a signed addend in four bytes more. Format 3 has an
-- ordinal of 16 bits, a name offset of 32 bits from bit 32 on, and an addend of eight bytes.
abbrev pub import_target : Linker → Mem → ℕ → ℕ → ℕ → ℕ → ℕ → ℕ
import_target l m handles format imports symbols i =
    if format == 1
    then (let a = imports + 4 * i in
        symbol_pointer l m handles (byte_at m a 0) (symbols + load32 m a / 512) % 2 ^ 64)
    else (if format == 2
        then (let a = imports + 8 * i in
            let addend = load32 m (a + 4) in
            let symbol = symbol_pointer l m handles (byte_at m a 0) (symbols + load32 m a / 512) in
            if ltb addend (2 ^ 31)
            then (symbol + addend) % 2 ^ 64
            else (symbol + addend + (2 ^ 64 - 2 ^ 32)) % 2 ^ 64)
        else (let a = imports + 16 * i in
            (symbol_pointer l m handles (byte_at m a 0 + 256 * byte_at m a 1)
                (symbols + load m a / 2 ^ 32)
              + load m (a + 8))
            % 2 ^ 64))

mod_twice : (x : ℕ) → x % quad % quad ≡ x % quad
mod_twice x = omega arith

low_byte : (m : Mem) (a : ℕ) → load32 m a % 2 ^ 8 ≡ byte_at m a 0
low_byte m a = omega arith

low_half : (m : Mem) (a : ℕ) → load m a % 2 ^ 16 ≡ byte_at m a 0 + 256 * byte_at m a 1
unfolding load
low_half m a = omega arith

import_pointer_lem :
    (l : Linker) (m : Mem) (handles format imports symbols i : ℕ)
    → import_pointer l m handles format imports symbols i % quad
      ≡ import_target l m handles format imports symbols i
unfolding import_pointer resolve_import symbol_name_from_darwin
import_pointer_lem l m handles format imports symbols i = elim (Bool-cases (format == 1)) [
  | inl plain ↦ rw (plain, low_byte m (imports + 4 * i)) refl
  | inr other ↦ elim (Bool-cases (format == 2)) [
    | inl narrow ↦
        rw (other, narrow, low_byte m (imports + 8 * i))
          (elim (Bool-cases (ltb (load32 m (imports + 8 * i + 4)) (2 ^ 31))) [
            | inl natural ↦ rw natural (mod_twice _)
            | inr negative ↦ rw negative (mod_twice _ ∙ ap (λ x. x % quad) (omega arith))
          ])
    | inr wide ↦ rw (other, wide, low_half m (imports + 16 * i)) (mod_twice _)
  ]
]

-- Two memories that agree outside the table of `count` pointers
abbrev pub AgreeOutside : ℕ → ℕ → Mem → Mem → Type 0
AgreeOutside bound count m m' = (b : ℕ) → (b < bound) ⊎ (bound + 8 * count ≤ b) → m' b ≡ m b

module _ (l : Linker) (handles bound format imports symbols count : ℕ) (m : Mem) where
  pointer : ℕ → Mem → ℕ
  pointer i m' = import_pointer l m' handles format imports symbols i

  -- From import `i` on: the entries before it stay, those behind are written.
  bind_imports-from :
      (n i : ℕ) (m' : Mem)
      → i + n ≡ count
      → ((j : ℕ) (m'' : Mem)
          → j < count
          → AgreeOutside bound count m m''
          → pointer j m'' % quad ≡ pointer j m % quad)
      → AgreeOutside bound count m m'
      → let done = bind_imports l handles bound format imports symbols n i m' in
        ((j : ℕ) → i ≤ j → j < count → load done (bound + 8 * j) ≡ pointer j m % quad)
        × ((b : ℕ) → b < bound + 8 * i → done b ≡ m' b)
        × AgreeOutside bound count m done
  unfolding bind_imports pointer
  bind_imports-from zero i m' e stable agree =
      (λ j low high. absurd (omega arith), λ b h. refl, agree)
  bind_imports-from (suc n) i m' e stable agree =
      let p = pointer i m' in
      let m1 = store m' (bound + 8 * i) p in
      let agree1 : AgreeOutside bound count m m1 =
        λ b out. store-out m' (bound + 8 * i) p b (sides b out) ∙ agree b out in
      let (written, before, outside) = bind_imports-from n (i + 1) m1 (omega arith) stable agree1 in
      (
        λ j low high. elim (Bool-cases (i == j)) [
          | inl same ↦
              subst
                (λ k.
                  load (bind_imports l handles bound format imports symbols n (i + 1) m1)
                    (bound + 8 * k)
                  ≡ pointer k m % quad)
                ((==_iff i j).0 same)
                (load-eq m1 _ (bound + 8 * i) (λ k h. before (bound + 8 * i + k) (omega arith))
                  ∙ (load-store m' (bound + 8 * i) p ∙ stable i m' (omega arith) agree))
          | inr apart ↦ written j (ground (arith, ==_iff i j)) high
        ],
        λ b h. before b (omega arith) ∙ store-out m' (bound + 8 * i) p b (inl h),
        outside,
      )
    where
      sides :
          (b : ℕ)
          → (b < bound) ⊎ (bound + 8 * count ≤ b)
          → (b < bound + 8 * i) ⊎ (bound + 8 * i + 8 ≤ b)
      sides b (inl h) = inl (omega arith)
      sides b (inr h) = inr (omega arith)

-- After the loop over the imports entry `i` of the table is what import `i` is bound to, as the memory
-- before the loop has it, and nothing outside the table has changed, provided that what the imports are
-- resolved from does not lie in the table.
pub bind_imports-import_target :
    (l : Linker) (handles bound format imports symbols count : ℕ) (m : Mem)
    → ((j : ℕ) (m' : Mem)
        → j < count
        → AgreeOutside bound count m m'
        → import_target l m' handles format imports symbols j
          ≡ import_target l m handles format imports symbols j)
    → let done = bind_imports l handles bound format imports symbols count 0 m in
      ((j : ℕ)
        → j < count
        → load done (bound + 8 * j) ≡ import_target l m handles format imports symbols j)
      × AgreeOutside bound count m done
unfolding pointer
bind_imports-import_target l handles bound format imports symbols count m stable =
    let (written, before, outside) =
      bind_imports-from l handles bound format imports symbols count m count 0 m (omega arith)
        (λ j m' h agree.
          import_pointer_lem l m' handles format imports symbols j
          ∙ stable j m' h agree
          ∙ sym (import_pointer_lem l m handles format imports symbols j))
        (λ b out. refl) in
    (
      λ j h. written j (omega arith) h ∙ import_pointer_lem l m handles format imports symbols j,
      outside,
    )
