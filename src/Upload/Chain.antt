-- ===== src/Upload/Chain.antt =====
-- The loops over a chain of slots in src/fruity/helpers/upload-receiver.c.
use frida_core.Base.{
  ℕ, zero, suc, ◌+◌, ◌-◌, ◌*◌, ◌%◌, ◌≤◌, ◌<◌, ◌≡◌, refl, ap, ◌∙◌, true, false, ◌⊎◌, inl, inr, some,
  List, [], ◌∷◌, length, ltb, leb, ◌==◌, Bool-cases, arith,
}
use frida_core.Upload.{quad, Mem, load, byte_of, store, walk}

pub store-in : (m : Mem) (a v i : ℕ) → i < 8 → store m a v (a + i) ≡ byte_of v i
unfolding store
store-in m a v i h =
    let above : leb a (a + i) ≡ true = ground arith in
    let below : ltb (a + i) (a + 8) ≡ true = ground arith in
    let d : a + i - a ≡ i = omega arith in rw (above, below, d)

pub store-out : (m : Mem) (a v b : ℕ) → (b < a) ⊎ (a + 8 ≤ b) → store m a v b ≡ m b
unfolding store
store-out m a v b (inl h) = let e : leb a b ≡ false = ground arith in rw e
store-out m a v b (inr h) =
    let e : ltb b (a + 8) ≡ false = ground arith in
    elim (Bool-cases (leb a b)) [ inl above ↦ rw (above, e) | inr below ↦ rw below ]

pub load-store : (m : Mem) (a v : ℕ) → load (store m a v) a ≡ v % quad
unfolding load
load-store m a v =
    rw
      (
        store-in m a v 0 (omega arith),
        store-in m a v 1 (omega arith),
        store-in m a v 2 (omega arith),
        store-in m a v 3 (omega arith),
        store-in m a v 4 (omega arith),
        store-in m a v 5 (omega arith),
        store-in m a v 6 (omega arith),
        store-in m a v 7 (omega arith),
      )
      (omega arith)

-- Memories that agree on the slot
pub load-eq :
    (m m' : Mem) (a : ℕ) → ((i : ℕ) → i < 8 → m' (a + i) ≡ m (a + i)) → load m' a ≡ load m a
unfolding load
load-eq m m' a same =
    rw
      (
        same 0 (omega arith),
        same 1 (omega arith),
        same 2 (omega arith),
        same 3 (omega arith),
        same 4 (omega arith),
        same 5 (omega arith),
        same 6 (omega arith),
        same 7 (omega arith),
      )
      refl

-- The slots of a chain, the first at the cursor: each lies behind the one before, and the last says so.
abbrev pub IsChain : (ℕ → ℕ) → ℕ → Mem → ℕ → List ℕ → Type 0
IsChain next stride m cursor [] = ⊥
IsChain next stride m cursor (a ∷ []) = (a ≡ cursor) × ((next (load m cursor) == 0) ≡ true)
IsChain next stride m cursor (a ∷ b ∷ slots) =
    (a ≡ cursor)
    × ((next (load m cursor) == 0) ≡ false)
    × (8 ≤ next (load m cursor) * stride)
    × IsChain next stride m (cursor + next (load m cursor) * stride) (b ∷ slots)

-- The byte is in none of the slots.
abbrev pub IsOutside : ℕ → List ℕ → Type 0
IsOutside b [] = Unit {0}
IsOutside b (a ∷ slots) = ((b < a) ⊎ (a + 8 ≤ b)) × IsOutside b slots

-- Each slot holds its fixed value, made of what it held before.
abbrev pub AreFixed : (ℕ → ℕ → ℕ) → Mem → Mem → List ℕ → Type 0
AreFixed fix m m' [] = Unit {0}
AreFixed fix m m' (a ∷ slots) = (load m' a ≡ fix a (load m a) % quad) × AreFixed fix m m' slots

-- What a walk has done
pub record IsFixedUp (fix : ℕ → ℕ → ℕ) (m : Mem) (slots : List ℕ) (m' : Mem) : Type 0 where
  pub fixed : AreFixed fix m m' slots
  pub others : (b : ℕ) → IsOutside b slots → m' b ≡ m b

module _ (next : ℕ → ℕ) (stride : ℕ) (fix : ℕ → ℕ → ℕ) where
  -- A chain lies at its cursor or behind, so all before it is outside.
  pub before-IsOutside :
      (slots : List ℕ) (m : Mem) (cursor b : ℕ)
      → IsChain next stride m cursor slots
      → b < cursor
      → IsOutside b slots
  before-IsOutside [] m cursor b chain h = tt
  before-IsOutside (a ∷ []) m cursor b (e, last) h = (inl (omega (arith, e)), tt)
  before-IsOutside (a ∷ c ∷ slots) m cursor b (e, more, far, chain) h =
      (inl (omega (arith, e)), before-IsOutside (c ∷ slots) m _ b chain (omega arith))

  -- A chain is one still after a write before it, and its slots hold the same.
  pub after-IsChain :
      (slots : List ℕ) (m m' : Mem) (cursor : ℕ)
      → ((a : ℕ) → cursor ≤ a → load m' a ≡ load m a)
      → IsChain next stride m cursor slots
      → IsChain next stride m' cursor slots
  after-IsChain [] m m' cursor same chain = chain
  after-IsChain (a ∷ []) m m' cursor same (e, last) = (e, rw (same cursor (omega arith)) last)
  after-IsChain (a ∷ c ∷ slots) m m' cursor same (e, more, far, chain) =
      let at = same cursor (omega arith) in
      (
        e,
        rw at more,
        rw at far,
        rw at (after-IsChain (c ∷ slots) m m' _ (λ x h. same x (omega arith)) chain),
      )

  pub after-AreFixed :
      (slots : List ℕ) (m m1 m' : Mem) (cursor : ℕ)
      → ((a : ℕ) → cursor ≤ a → load m1 a ≡ load m a)
      → IsChain next stride m cursor slots
      → AreFixed fix m1 m' slots
      → AreFixed fix m m' slots
  after-AreFixed [] m m1 m' cursor same chain fixed = tt
  after-AreFixed (a ∷ []) m m1 m' cursor same (e, last) (now, rest) =
      (now ∙ ap (λ v. fix a v % quad) (same a (omega (arith, e))), tt)
  after-AreFixed (a ∷ c ∷ slots) m m1 m' cursor same (e, more, far, chain) (now, rest) = (
    now ∙ ap (λ v. fix a v % quad) (same a (omega (arith, e))),
    after-AreFixed (c ∷ slots) m m1 m' _ (λ x h. same x (omega arith)) chain rest,
  )

  -- With fuel for each slot of the chain the walk ends, and has fixed up the chain.
  pub walk-IsFixedUp :
      (slots : List ℕ) (fuel cursor : ℕ) (m : Mem)
      → IsChain next stride m cursor slots
      → length slots ≤ fuel
      → (m' : Mem) × (walk next stride fix fuel cursor m ≡ some m') × IsFixedUp fix m slots m'
  unfolding walk
  walk-IsFixedUp [] fuel cursor m chain enough = elim chain [ ]
  walk-IsFixedUp (a ∷ slots) zero cursor m chain enough = absurd (omega arith)
  walk-IsFixedUp (a ∷ []) (suc fuel) cursor m (e, last) enough =
      rw (last, e)
        (
          _,
          refl,
          record {
            fixed = (load-store m cursor _, tt);
            others = λ b out. store-out m cursor _ b out.0;
          },
        )
  walk-IsFixedUp (a ∷ c ∷ slots) (suc fuel) cursor m (e, more, far, chain) enough =
      let m1 = store m cursor (fix cursor (load m cursor)) in
      let same : (x : ℕ) → cursor + next (load m cursor) * stride ≤ x → load m1 x ≡ load m x =
        λ x h. load-eq m m1 x (λ i low. store-out m cursor _ (x + i) (inr (omega arith))) in
      let cursor' = cursor + next (load m cursor) * stride in
      let (m', runs, done) =
        walk-IsFixedUp (c ∷ slots) fuel cursor' m1
          (after-IsChain (c ∷ slots) m m1 cursor' same chain) (omega arith) in
      let first : load m' cursor ≡ fix cursor (load m cursor) % quad =
        load-eq m1 m' cursor (λ i low.
          done.others (cursor + i)
            (before-IsOutside (c ∷ slots) m cursor' (cursor + i) chain (omega arith)))
        ∙ load-store m cursor _ in
      rw (more, e)
        (
          m',
          runs,
          record {
            fixed = (first, after-AreFixed (c ∷ slots) m m1 m' cursor' same chain done.fixed);
            others = λ b out. done.others b out.1 ∙ store-out m cursor _ b out.0;
          },
        )
