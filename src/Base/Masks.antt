-- ===== src/Base/Masks.antt =====
-- `&` with a mask of consecutive bits.
use Prim.Native.Nat.{
  ℕ, zero, suc, ◌+◌, ◌*◌, ◌/◌, ◌%◌, ◌^◌, ◌≤◌, ◌<◌, min, bit_and, digits, bit_and-bitwise,
}
use mathlib.Core.Path.{◌≡◌, refl, sym, ap, ◌∙◌}
use native.Mathlib.Nat.{
  pow-suc, mul_assoc, mul-add-mod_self_left, mod-eq_of_lt, div-add-mod, mod-lt, div-div-eq-div-mul,
}
use native.Mathlib.Omega.{arith}

-- The digits of a bitwise and, with any fuel that is enough
and_digits : ℕ → ℕ → ℕ → ℕ
and_digits fuel a b = digits (λ high. zero) min fuel a b

and_digits-eq : (m n a b : ℕ) → a ≤ m → a ≤ n → and_digits m a b ≡ and_digits n a b
unfolding and_digits
and_digits-eq zero zero a b hm hn = refl
and_digits-eq zero (suc n) zero b hm hn = refl
and_digits-eq zero (suc n) (suc a) b hm hn = absurd (omega arith)
and_digits-eq (suc m) zero zero b hm hn = refl
and_digits-eq (suc m) zero (suc a) b hm hn = absurd (omega arith)
and_digits-eq (suc m) (suc n) zero b hm hn = refl
and_digits-eq (suc m) (suc n) (suc a) b hm hn =
    let tail = and_digits-eq m n (suc a / 2) (b / 2) (omega arith) (omega arith) in
    ap (λ high. high * 2 + min (suc a % 2) (b % 2)) tail

zero-bit_and : (b : ℕ) → bit_and 0 b ≡ 0
zero-bit_and b = bit_and-bitwise 0 b

and_digits-zero : (fuel a : ℕ) → and_digits fuel a 0 ≡ 0
unfolding and_digits
and_digits-zero zero a = refl
and_digits-zero (suc n) zero = refl
and_digits-zero (suc n) (suc a) =
    let e : 0 / 2 ≡ 0 = omega arith in rw e (omega (arith, and_digits-zero n (suc a / 2)))

bit_and-zero : (a : ℕ) → bit_and a 0 ≡ 0
unfolding and_digits
bit_and-zero a = bit_and-bitwise a 0 ∙ and_digits-zero a a

-- The lowest digit of a bitwise and
bit_and-halves : (a b : ℕ) → bit_and a b ≡ 2 * bit_and (a / 2) (b / 2) + min (a % 2) (b % 2)
unfolding and_digits
bit_and-halves zero b = omega (arith, zero-bit_and b, zero-bit_and (b / 2))
bit_and-halves (suc a) b =
    let half : ℕ = suc a / 2 in
    let enough = and_digits-eq a half half (b / 2) (omega arith) (omega arith) in
    omega (arith, bit_and-bitwise (suc a) b, enough, bit_and-bitwise half (b / 2))

-- The number whose `k` lowest bits are set
abbrev pub ones : ℕ → ℕ
ones zero = 0
ones (suc k) = 2 * ones k + 1

power-pos : (k : ℕ) → 0 < 2 ^ k
power-pos zero = omega arith
power-pos (suc k) = omega (arith, power-pos k, pow-suc 2 k)

mod-double : (x p : ℕ) → 0 < p → x % (2 * p) ≡ 2 * (x / 2 % p) + x % 2
mod-double x p pos =
    let y : ℕ = x / 2 in
    let q : ℕ = y / p in
    let low : ℕ = 2 * (y % p) + x % 2 in
    let whole : x ≡ (2 * p) * q + low = omega (arith, div-add-mod y p, mul_assoc 2 p q) in
    let bound : low < 2 * p = omega (arith, mod-lt y pos) in
    ap (λ (z : ℕ). z % (2 * p)) whole ∙ (mul-add-mod_self_left (2 * p) q low ∙ mod-eq_of_lt bound)

pub bit_and-ones : (k x : ℕ) → bit_and x (ones k) ≡ x % 2 ^ k
bit_and-ones zero x = omega (arith, bit_and-zero x)
bit_and-ones (suc k) x =
    let half : (2 * ones k + 1) / 2 ≡ ones k = omega arith in
    let odd : (2 * ones k + 1) % 2 ≡ 1 = omega arith in
    let power : 2 ^ suc k ≡ 2 * 2 ^ k = omega (arith, pow-suc 2 k) in
    rw power (
      omega (
        arith,
        rw half at (bit_and-halves x (2 * ones k + 1)),
        bit_and-ones k (x / 2),
        mod-double x (2 ^ k) (power-pos k),
        odd,
      ))

-- A mask of higher bits
pub bit_and-shifted : (k x mask : ℕ) → bit_and x (mask * 2 ^ k) ≡ bit_and (x / 2 ^ k) mask * 2 ^ k
bit_and-shifted zero x mask =
    let e : mask * 2 ^ 0 ≡ mask = omega arith in
    let d : x / 2 ^ 0 ≡ x = omega arith in rw (e, d) (omega arith)
bit_and-shifted (suc k) x mask =
    let power : 2 ^ suc k ≡ 2 * 2 ^ k = omega (arith, pow-suc 2 k) in
    let doubled : mask * 2 ^ suc k ≡ 2 * (mask * 2 ^ k) =
      omega (arith, ap (λ (t : ℕ). mask * t) power) in
    let half : 2 * (mask * 2 ^ k) / 2 ≡ mask * 2 ^ k = omega arith in
    let down : x / 2 ^ suc k ≡ x / 2 / 2 ^ k =
      ap (λ (t : ℕ). x / t) power ∙ sym (div-div-eq-div-mul x 2 (2 ^ k)) in
    let high : ℕ = bit_and (x / 2 / 2 ^ k) mask in
    let doubled' : high * 2 ^ suc k ≡ 2 * (high * 2 ^ k) =
      omega (arith, ap (λ (t : ℕ). high * t) power) in
    rw (doubled, down)
      (omega (
        arith,
        rw half at (bit_and-halves x (2 * (mask * 2 ^ k))),
        bit_and-shifted k (x / 2) mask,
        doubled',
      ))
