-- ===== src/Base/Bits.antt =====
-- Masks on one byte, checked over every value by evaluation, and `|` on numbers whose bits do not meet.
use Prim.Native.Nat.{
  ℕ, zero, suc, ◌+◌, ◌*◌, ◌/◌, ◌%◌, ◌^◌, ◌≤◌, ◌<◌, max, bit_and, bit_or, digits, bit_or-bitwise,
}
use mathlib.Core.Path.{◌≡◌, refl, ap, ◌∙◌}
use mathlib.Core.Bool.{Bool, true, false}
use native.Mathlib.Nat.{pow-suc}
use native.Mathlib.Omega.{arith}
use mathlib.Core.Logic.{inl, inr}
use frida_core.Base.Tests.{◌==◌, ==_iff, if◌then◌else◌, Bool-cases}

-- `p` holds of the `count` numbers from `start` on.
unfoldable pub each_from : ℕ → ℕ → (ℕ → Bool) → Bool
each_from start zero p = true
each_from start (suc count) p = if p start then each_from (suc start) count p else false

pub each_from-at :
    (start count : ℕ) (p : ℕ → Bool) (i : ℕ)
    → start ≤ i
    → i < start + count
    → each_from start count p ≡ true
    → p i ≡ true
unfolding each_from
each_from-at start zero p i low high holds = absurd (omega arith)
each_from-at start (suc count) p i low high holds = elim (Bool-cases (start == i)) [
  | inl e ↦ ground (arith, ap p ((==_iff start i).0 e))
  | inr e ↦ ground (arith, (==_iff start i).1, each_from-at (suc start) count p i)
]

-- The digits of a bitwise or, with any fuel that is enough
or_digits : ℕ → ℕ → ℕ → ℕ
or_digits fuel a b = digits (λ high. high) max fuel a b

or_digits-eq : (m n a b : ℕ) → a ≤ m → a ≤ n → or_digits m a b ≡ or_digits n a b
unfolding or_digits
or_digits-eq zero zero a b hm hn = refl
or_digits-eq zero (suc n) zero b hm hn = refl
or_digits-eq zero (suc n) (suc a) b hm hn = absurd (omega arith)
or_digits-eq (suc m) zero zero b hm hn = refl
or_digits-eq (suc m) zero (suc a) b hm hn = absurd (omega arith)
or_digits-eq (suc m) (suc n) zero b hm hn = refl
or_digits-eq (suc m) (suc n) (suc a) b hm hn =
    let tail = or_digits-eq m n (suc a / 2) (b / 2) (omega arith) (omega arith) in
    ap (λ high. high * 2 + max (suc a % 2) (b % 2)) tail

zero-bit_or : (b : ℕ) → bit_or 0 b ≡ b
zero-bit_or b = bit_or-bitwise 0 b

-- The lowest digit of a bitwise or
bit_or-halves : (a b : ℕ) → bit_or a b ≡ 2 * bit_or (a / 2) (b / 2) + max (a % 2) (b % 2)
unfolding or_digits
bit_or-halves zero b = omega (arith, zero-bit_or b, zero-bit_or (b / 2))
bit_or-halves (suc a) b =
    let half : ℕ = suc a / 2 in
    let enough = or_digits-eq a half half (b / 2) (omega arith) (omega arith) in
    omega (arith, bit_or-bitwise (suc a) b, enough, bit_or-bitwise half (b / 2))

-- Where the bits do not meet, `|` adds.
pub bit_or_shifted : (k a c : ℕ) → a < 2 ^ k → bit_or a (c * 2 ^ k) ≡ a + c * 2 ^ k
bit_or_shifted zero a c h =
    let e : a ≡ 0 = omega arith in rw e (zero-bit_or (c * 2 ^ 0) ∙ omega arith)
bit_or_shifted (suc k) a c h =
    let doubled : c * 2 ^ suc k ≡ 2 * (c * 2 ^ k) =
      omega (arith, ap (λ (t : ℕ). c * t) (pow-suc 2 k)) in
    let halved : 2 * (c * 2 ^ k) / 2 ≡ c * 2 ^ k = omega arith in
    let a-lt : a / 2 < 2 ^ k = omega (arith, pow-suc 2 k) in
    rw doubled (
      omega
        (arith, rw halved at (bit_or-halves a (2 * (c * 2 ^ k))), bit_or_shifted k (a / 2) c a-lt))

or_digits-zero : (fuel a : ℕ) → a ≤ fuel → or_digits fuel a 0 ≡ a
unfolding or_digits
or_digits-zero zero a h = omega arith
or_digits-zero (suc n) zero h = refl
or_digits-zero (suc n) (suc a) h =
    let e : 0 / 2 ≡ 0 = omega arith in
    rw e (omega (arith, or_digits-zero n (suc a / 2) (omega arith)))

pub bit_or-zero : (a : ℕ) → bit_or a 0 ≡ a
unfolding or_digits
bit_or-zero a = bit_or-bitwise a 0 ∙ or_digits-zero a a (omega arith)

-- The same with the higher bits first
pub shifted-bit_or : (k a c : ℕ) → a < 2 ^ k → bit_or (c * 2 ^ k) a ≡ a + c * 2 ^ k
shifted-bit_or zero a c h =
    let e : a ≡ 0 = omega arith in rw e (bit_or-zero (c * 2 ^ 0) ∙ omega arith)
shifted-bit_or (suc k) a c h =
    let doubled : c * 2 ^ suc k ≡ 2 * (c * 2 ^ k) =
      omega (arith, ap (λ (t : ℕ). c * t) (pow-suc 2 k)) in
    let halved : 2 * (c * 2 ^ k) / 2 ≡ c * 2 ^ k = omega arith in
    let a-lt : a / 2 < 2 ^ k = omega (arith, pow-suc 2 k) in
    rw doubled (
      omega
        (arith, rw halved at (bit_or-halves (2 * (c * 2 ^ k)) a), shifted-bit_or k (a / 2) c a-lt))

low_bits_table : each_from 0 256 (λ b. bit_and b 0x7f == b % 128) ≡ true
unfolding each_from
low_bits_table = refl

pub low_bits : (byte : ℕ) → byte < 256 → bit_and byte 0x7f ≡ byte % 128
low_bits b h = (==_iff _ _).0 (each_from-at 0 256 _ b (omega arith) h low_bits_table)

top_bit_table : each_from 0 256 (λ b. bit_and b 0x80 == b / 128 * 128) ≡ true
unfolding each_from
top_bit_table = refl

pub top_bit : (byte : ℕ) → byte < 256 → bit_and byte 0x80 ≡ byte / 128 * 128
top_bit b h = (==_iff _ _).0 (each_from-at 0 256 _ b (omega arith) h top_bit_table)
