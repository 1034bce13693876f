-- ===== src/Tracer/Path/Buffer.antt =====
-- The BufBuilder of src/linux/helpers/syscall-tracer.bpf.c, as the text that it holds.
use frida_core.Base.{
  ℕ, zero, suc, ◌+◌, ◌-◌, ◌*◌, ◌/◌, ◌≤◌, ◌<◌, ◌≡◌, refl, sym, ap, ◌∙◌, true, false, if◌then◌else◌,
  List, [], ◌∷◌, ◌++◌, append_assoc, length, length-append, length-drop, take, drop, take_all,
  take-append, set, ltb, leb, ◌==◌, ==_iff, arith,
}
use Prim.Native.Nat.{bit_and}
use frida_core.Base.Bits.{each_from, each_from-at}
use frida_core.Tracer.Path.{Dentries, BufBuilder, bb_putc, kstr_read, bb_append_kstr, terminate}

cap_table : each_from 0 1024 (λ p. bit_and p 1023 == p) ≡ true
unfolding each_from
cap_table = refl

pub cap_mask : (p : ℕ) → p < 1024 → bit_and p 1023 ≡ p
cap_mask p h = (==_iff _ _).0 (each_from-at 0 1024 _ p (omega arith) h cap_table)

even_table : each_from 0 1024 (λ p. bit_and p 1022 == p / 2 * 2) ≡ true
unfolding each_from
even_table = refl

pub even_mask : (p : ℕ) → p < 1024 → bit_and p 1022 ≡ p / 2 * 2
even_mask p h = (==_iff _ _).0 (each_from-at 0 1024 _ p (omega arith) h even_table)

-- The buffer starts with the text, which ends at `pos`, and has 2048 bytes.
pub record Holds (b : BufBuilder) (text : List ℕ) : Type 0 where
  pub rest : List ℕ
  pub starts : b.buf ≡ text ++ rest
  pub ends : b.pos ≡ length text
  pub sized : length text + length rest ≡ 2048

set-append :
    (xs : List ℕ) (y v : ℕ) (ys : List ℕ) → set (xs ++ (y ∷ ys)) (length xs) v ≡ xs ++ (v ∷ ys)
set-append [] y v ys = refl
set-append (x ∷ xs) y v ys = ap (λ zs. x ∷ zs) (set-append xs y v ys)

drop_add-append : (xs ys : List ℕ) (n : ℕ) → drop (length xs + n) (xs ++ ys) ≡ drop n ys
drop_add-append [] ys n = let e : 0 + n ≡ n = omega arith in rw e
drop_add-append (x ∷ xs) ys n =
    let e : suc (length xs) + n ≡ suc (length xs + n) = omega arith in
    rw e (drop_add-append xs ys n)

pub bb_putc-Holds :
    (b : BufBuilder) (text : List ℕ) (c : ℕ)
    → Holds b text
    → length text < 1023
    → ((bb_putc b c).1 ≡ true) × Holds (bb_putc b c).0 (text ++ (c ∷ []))
unfolding bb_putc
bb_putc-Holds b text c h low = go h.rest h.starts h.sized
  where
    go :
        (rest : List ℕ)
        → b.buf ≡ text ++ rest
        → length text + length rest ≡ 2048
        → ((bb_putc b c).1 ≡ true) × Holds (bb_putc b c).0 (text ++ (c ∷ []))
    go [] starts sized = absurd (omega arith)
    go (r ∷ rest) starts sized =
        let room : leb 1023 b.pos ≡ false = ground (arith, h.ends) in
        rw room (
          refl,
          record {
            rest = rest;
            starts =
                rw (starts, h.ends)
                  (set-append text r c rest ∙ sym (append_assoc text (c ∷ []) rest));
            ends = omega (arith, h.ends, length-append text (c ∷ []));
            sized = omega (arith, sized, length-append text (c ∷ []));
          },
        )

kstr_read-all :
    (cap : ℕ) (name : List ℕ) → length name < cap → kstr_read cap name ≡ name ++ (0 ∷ [])
kstr_read-all cap name fits = ap (λ xs. xs ++ (0 ∷ [])) (take_all (cap - 1) name (omega arith))

take_suc-set :
    (xs : List ℕ) (i v : ℕ) → i < length xs → take (i + 1) (set xs i v) ≡ take i xs ++ (v ∷ [])
take_suc-set [] i v h = absurd (omega arith)
take_suc-set (x ∷ xs) zero v h = refl
take_suc-set (x ∷ xs) (suc i) v h =
    let e : suc i + 1 ≡ suc (i + 1) = omega arith in
    rw e (ap (λ ys. x ∷ ys) (take_suc-set xs i v (omega arith)))

take-append_left : (n : ℕ) (xs ys : List ℕ) → n ≤ length xs → take n (xs ++ ys) ≡ take n xs
take-append_left zero xs ys h = refl
take-append_left (suc n) [] ys h = absurd (omega arith)
take-append_left (suc n) (x ∷ xs) ys h = ap (λ zs. x ∷ zs) (take-append_left n xs ys (omega arith))

-- A name that fits is appended whole; the terminator behind it is not part of the text.
pub bb_append_kstr-Holds :
    (b : BufBuilder) (text name : List ℕ)
    → Holds b text
    → 1 ≤ length text
    → 1 ≤ length name
    → length text + length name < 1024
    → ((bb_append_kstr b name).1 ≡ length name) × Holds (bb_append_kstr b name).0 (text ++ name)
unfolding bb_append_kstr
bb_append_kstr-Holds b text name h begun named fits =
    let room : leb 1023 b.pos ≡ false = ground (arith, h.ends) in
    let room' : ltb (1024 - b.pos) 2 ≡ false = ground (arith, h.ends) in
    let cap = cap_mask (1024 - b.pos) (omega (arith, h.ends)) in
    let read : kstr_read (1024 - b.pos) name ≡ name ++ (0 ∷ []) =
      kstr_read-all _ name (omega (arith, h.ends)) in
    let len = length-append name (0 ∷ []) in
    let len' : length name + 1 - 1 ≡ length name = omega arith in
    let long : leb (length name + 1) 1 ≡ false = ground arith in
    rw (cap, room, room', read, len, long, len')
      (
        refl,
        record {
          rest = 0 ∷ drop (length name + 1) h.rest;
          starts =
              rw
                (
                  h.ends,
                  h.starts,
                  take-append (length text) text h.rest refl,
                  drop_add-append text h.rest (length name + 1),
                  append_assoc name (0 ∷ []) (drop (length name + 1) h.rest),
                  append_assoc text name (0 ∷ drop (length name + 1) h.rest),
                )
                refl;
          ends = omega (arith, h.ends, length-append text name);
          sized =
              omega (arith, h.sized, length-append text name, length-drop (length name + 1) h.rest);
        },
      )

-- The terminator takes the place of the last byte of a text of odd length.
pub terminate-content :
    (ds : Dentries) (b : BufBuilder) (text : List ℕ) (dst_cap : ℕ)
    → Holds b text
    → length text < dst_cap
    → dst_cap ≤ 1023
    → let b' = terminate ds b in
      take (if ltb dst_cap b'.pos then dst_cap else b'.pos) b'.buf
      ≡ take (length text / 2 * 2) text ++ (0 ∷ [])
unfolding terminate
terminate-content ds b text dst_cap h fits small =
    let kept = length text / 2 * 2 in
    let room : leb 1023 b.pos ≡ false = ground (arith, h.ends) in
    let mask : bit_and b.pos 1022 ≡ kept = even_mask b.pos (omega (arith, h.ends)) ∙ rw h.ends in
    let within : ltb dst_cap (kept + 1) ≡ false = ground arith in
    rw (room, mask, within, h.starts)
      (take_suc-set (text ++ h.rest) kept 0 (omega (arith, h.sized, length-append text h.rest))
        ∙ ap (λ xs. xs ++ (0 ∷ [])) (take-append_left kept text h.rest (omega arith)))
