-- ===== src/Elf/Headers.antt =====
-- The lookups in the program headers of src/linux/helpers/elf-parser.c.
use frida_core.Base.{
  ℕ, zero, suc, ◌+◌, ◌*◌, ◌%◌, ◌-◌, ◌≤◌, ◌<◌, ◌≡◌, ◌≢◌, ◌⊎◌, inl, inr, refl, sym, ap, ◌∙◌, true,
  false, subst, Option, none, some, ◌==◌, ==_iff, arith, Bool-cases,
}
use frida_core.Elf.{
  Memory, Phdr, minus, address_mod, pt_load, pt_phdr, phdr_address, find_phdr,
  find_program_header_by_type, covers, upper_bound_loop, compute_elf_region_upper_bound, base_step,
  base_loop, compute_base_from_phdrs,
}

-- The end of what a header maps
abbrev pub end_of : Phdr → ℕ
end_of p = (p.p_vaddr + p.p_memsz) % address_mod

-- Whether a header maps the address
abbrev pub Covers : Phdr → ℕ → Type 0
Covers p address = (p.p_type ≡ pt_load) × (p.p_vaddr ≤ address) × (address < end_of p)

module _ (m : Memory) where
  open m use {phdr_at, ehdr_at}

  -- Header `i` of the image at `ehdr`
  abbrev pub header : ℕ → ℕ → Phdr
  header ehdr i = phdr_at (phdr_address m ehdr i)

  -- What is found among the `n` headers from `i` on: the first of the kind, or nothing.
  FirstOf : ℕ → ℕ → ℕ → ℕ → Option Phdr → Type 0
  FirstOf ehdr kind n i found =
      ((found ≡ none) × ((j : ℕ) → i ≤ j → j < i + n → (header ehdr j).p_type ≢ kind))
      ⊎ ((at : ℕ) × (i ≤ at)
          × (at < i + n)
          × (found ≡ some (header ehdr at))
          × ((header ehdr at).p_type ≡ kind)
          × ((j : ℕ) → i ≤ j → j < at → (header ehdr j).p_type ≢ kind))

  find_phdr-FirstOf : (ehdr kind n i : ℕ) → FirstOf ehdr kind n i (find_phdr m ehdr kind n i)
  unfolding find_phdr FirstOf
  find_phdr-FirstOf ehdr kind zero i = inl (refl, λ j low high. absurd (omega arith))
  find_phdr-FirstOf ehdr kind (suc n) i = elim (Bool-cases ((header ehdr i).p_type == kind)) [
    | inl found ↦ rw found (
        inr (
          i,
          omega arith,
          omega arith,
          refl,
          (==_iff _ _).0 found,
          λ j low high. absurd (omega arith),
        ))
    | inr other ↦ rw other (go (find_phdr-FirstOf ehdr kind n (suc i)) (here other))
  ]
    where
      here : ((header ehdr i).p_type == kind) ≡ false → (header ehdr i).p_type ≢ kind
      here other e = ground (arith, (==_iff (header ehdr i).p_type kind).1 e)

      before :
          (j : ℕ)
          → i ≤ j
          → (header ehdr i).p_type ≢ kind
          → (suc i ≤ j → (header ehdr j).p_type ≢ kind)
          → (header ehdr j).p_type ≢ kind
      before j low first later e = elim (Bool-cases (i == j)) [
        | inl same ↦ first (ap (λ l. (header ehdr l).p_type) ((==_iff i j).0 same) ∙ e)
        | inr apart ↦ later (ground (arith, (==_iff i j).1)) e
      ]

      go :
          FirstOf ehdr kind n (suc i) (find_phdr m ehdr kind n (suc i))
          → (header ehdr i).p_type ≢ kind
          → FirstOf ehdr kind (suc n) i (find_phdr m ehdr kind n (suc i))
      go (inl (e, nowhere)) first =
          inl (e, λ j low high. before j low first (λ low'. nowhere j low' (omega arith)))
      go (inr (at, low, high, e, kind_of, earlier)) first = inr (
        at,
        omega arith,
        omega arith,
        e,
        kind_of,
        λ j low' high'. before j low' first (λ low''. earlier j low'' high'),
      )

  -- frida_find_program_header_by_type finds the first header of the kind, and NULL exactly if the
  -- image has no header of it.
  pub find_program_header_by_type_lem :
      (ehdr kind : ℕ)
      → ((find_program_header_by_type m ehdr kind ≡ none)
          × ((j : ℕ) → j < (ehdr_at ehdr).e_phnum → (header ehdr j).p_type ≢ kind))
        ⊎ ((at : ℕ) × (at < (ehdr_at ehdr).e_phnum)
            × (find_program_header_by_type m ehdr kind ≡ some (header ehdr at))
            × ((header ehdr at).p_type ≡ kind)
            × ((j : ℕ) → j < at → (header ehdr j).p_type ≢ kind))
  unfolding FirstOf
  find_program_header_by_type_lem ehdr kind =
      elim (find_phdr-FirstOf ehdr kind (ehdr_at ehdr).e_phnum 0) [
        | inl (e, nowhere) ↦ inl (e, λ j high. nowhere j (omega arith) (omega arith))
        | inr (at, low, high, e, kind_of, earlier) ↦
            inr (at, omega arith, e, kind_of, λ j high'. earlier j (omega arith) (omega arith))
      ]

  covers_iff : (p : Phdr) (address : ℕ) → covers p address ≡ true → Covers p address
  covers_iff p address h = ground (arith, (==_iff p.p_type pt_load).0)

  covers-false : (p : Phdr) (address : ℕ) → covers p address ≡ false → ¬ Covers p address
  covers-false p address h (kind, low, high) = ground (arith, (==_iff p.p_type pt_load).1 kind)

  upper_bound_loop_lem :
      (ehdr address n i : ℕ)
      → ((j : ℕ) × (j < i + n)
          × Covers (header ehdr j) address
          × (upper_bound_loop m ehdr address n i ≡ end_of (header ehdr j) - address))
        ⊎ ((upper_bound_loop m ehdr address n i ≡ 0)
            × ((j : ℕ) → i ≤ j → j < i + n → ¬ Covers (header ehdr j) address))
  unfolding upper_bound_loop
  upper_bound_loop_lem ehdr address zero i = inr (refl, λ j low high c. absurd (omega arith))
  upper_bound_loop_lem ehdr address (suc n) i = elim (Bool-cases (covers (header ehdr i) address)) [
    | inl found ↦ rw found (inl (i, omega arith, covers_iff (header ehdr i) address found, refl))
    | inr other ↦ rw other (elim (upper_bound_loop_lem ehdr address n (suc i)) [
      | inl (j, high, c, e) ↦ inl (j, omega arith, c, e)
      | inr (e, nowhere) ↦ inr (
        e,
        λ j low high c. elim (Bool-cases (i == j)) [
          | inl same ↦
              covers-false (header ehdr i) address other
                (subst (λ l. Covers (header ehdr l) address) (sym ((==_iff i j).0 same)) c)
          | inr apart ↦ nowhere j (ground (arith, (==_iff i j).1)) (omega arith) c
        ],
      )
    ])
  ]

  -- The upper bound of a region is the number of bytes from the address to the end of a segment that
  -- is loaded and covers it; it is 0 exactly if no segment of the image does.
  pub compute_elf_region_upper_bound_lem :
      (ehdr address : ℕ)
      → ((j : ℕ) × (j < (ehdr_at ehdr).e_phnum)
          × Covers (header ehdr j) address
          × (address + compute_elf_region_upper_bound m ehdr address ≡ end_of (header ehdr j))
          × (0 < compute_elf_region_upper_bound m ehdr address))
        ⊎ ((compute_elf_region_upper_bound m ehdr address ≡ 0)
            × ((j : ℕ) → j < (ehdr_at ehdr).e_phnum → ¬ Covers (header ehdr j) address))
  compute_elf_region_upper_bound_lem ehdr address =
      elim (upper_bound_loop_lem ehdr address (ehdr_at ehdr).e_phnum 0) [
        | inl (j, high, c, e) ↦ inl (j, omega arith, c, omega (arith, c.2), omega (arith, c.2))
        | inr (e, nowhere) ↦ inr (e, λ j high c. nowhere j (omega arith) (omega arith) c)
      ]

  base_step-phdr :
      (phdrs : ℕ) (p : Phdr) (base : ℕ)
      → p.p_type ≡ pt_phdr
      → base_step phdrs p base ≡ minus phdrs p.p_offset
  unfolding base_step
  base_step-phdr phdrs p base e = rw e refl

  base_step-kept :
      (phdrs b : ℕ) (p : Phdr)
      → (p.p_type ≡ pt_phdr → minus phdrs p.p_offset ≡ b)
      → 0 < b
      → base_step phdrs p b ≡ b
  unfolding base_step
  base_step-kept phdrs b p same pos = elim (Bool-cases (p.p_type == pt_phdr)) [
    | inl is_phdr ↦
        base_step-phdr phdrs p b ((==_iff _ _).0 is_phdr) ∙ same ((==_iff _ _).0 is_phdr)
    | inr other ↦ rw other (ground arith)
  ]

  -- What each PT_PHDR among the `n` headers from `phdr` on gives as the base
  AgreeOn : ℕ → ℕ → ℕ → ℕ → ℕ → Type 0
  AgreeOn phdrs b size n phdr =
      (j at : ℕ)
      → j < n
      → at ≡ phdr + j * size
      → (phdr_at at).p_type ≡ pt_phdr
      → minus phdrs (phdr_at at).p_offset ≡ b

  AgreeOn-tail :
      (phdrs b size n phdr : ℕ)
      → AgreeOn phdrs b size (suc n) phdr
      → AgreeOn phdrs b size n (phdr + size)
  unfolding AgreeOn
  AgreeOn-tail phdrs b size n phdr same j at h e = same (suc j) at (omega arith) (omega arith)

  base_loop-kept :
      (phdrs b size n phdr : ℕ)
      → AgreeOn phdrs b size n phdr
      → 0 < b
      → base_loop m phdrs size n phdr b ≡ b
  unfolding base_loop AgreeOn
  base_loop-kept phdrs b size zero phdr same pos = refl
  base_loop-kept phdrs b size (suc n) phdr same pos =
      rw (base_step-kept phdrs b (phdr_at phdr) (same 0 phdr (omega arith) (omega arith)) pos)
        (base_loop-kept phdrs b size n (phdr + size) (AgreeOn-tail phdrs b size n phdr same) pos)

  base_loop_lem :
      (phdrs b size n phdr base j : ℕ)
      → AgreeOn phdrs b size n phdr
      → 0 < b
      → j < n
      → (phdr_at (phdr + j * size)).p_type ≡ pt_phdr
      → base_loop m phdrs size n phdr base ≡ b
  unfolding base_loop AgreeOn
  base_loop_lem phdrs b size zero phdr base j same pos h e = absurd (omega arith)
  base_loop_lem phdrs b size (suc n) phdr base zero same pos h e =
      let here : phdr + 0 * size ≡ phdr = omega arith in
      let is_phdr = rw here at e in
      let first = base_step-phdr phdrs (phdr_at phdr) base is_phdr in
      rw (first, same 0 phdr (omega arith) (omega arith) is_phdr)
        (base_loop-kept phdrs b size n (phdr + size) (AgreeOn-tail phdrs b size n phdr same) pos)
  base_loop_lem phdrs b size (suc n) phdr base (suc j) same pos h e =
      let there : phdr + suc j * size ≡ phdr + size + j * size = omega arith in
      base_loop_lem phdrs b size n (phdr + size) (base_step phdrs (phdr_at phdr) base) j
        (AgreeOn-tail phdrs b size n phdr same) pos (omega arith) (rw there at e)

  -- If a header is PT_PHDR and all that are give the same base, not 0, then that is the result,
  -- whatever PT_LOAD headers stand before and behind it.
  pub compute_base_from_phdrs_lem :
      (phdrs size count page_size b j : ℕ)
      → ((i at : ℕ)
          → i < count
          → at ≡ phdrs + i * size
          → (phdr_at at).p_type ≡ pt_phdr
          → minus phdrs (phdr_at at).p_offset ≡ b)
      → 0 < b
      → j < count
      → (phdr_at (phdrs + j * size)).p_type ≡ pt_phdr
      → compute_base_from_phdrs m phdrs size count page_size ≡ b
  unfolding compute_base_from_phdrs AgreeOn
  compute_base_from_phdrs_lem phdrs size count page_size b j same pos h e =
      rw (base_loop_lem phdrs b size count phdrs 0 j same pos h e) (ground arith)
