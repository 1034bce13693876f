-- ===== src/Stdio/Utf8.antt =====
-- frida_utf8_expected_len of lib/payload/libc-shim.c.
use frida_core.Base.{
  ℕ, ◌<◌, ◌≡◌, Option, none, some, ltb, ◌==◌, ==_iff, if◌then◌else◌, refl, ap, Bool, true, false,
  arith,
}
use frida_core.Base.Bits.{each_from, each_from-at}
use Prim.Native.Nat.{bit_and}

-- The length that a first byte announces; `none` is FALSE.
unfoldable pub utf8_expected_len : ℕ → Option ℕ
utf8_expected_len first =
    if ltb first 0x80
    then some 1
    else (if bit_and first 0xe0 == 0xc0
        then some 2
        else (if bit_and first 0xf0 == 0xe0
            then some 3
            else (if bit_and first 0xf8 == 0xf0 then some 4 else none)))

-- The length by the range of the byte, and FALSE for the ranges that announce none
abbrev pub announced : ℕ → Option ℕ
announced b =
    if ltb b 128
    then some 1
    else (if ltb b 192
        then none
        else (if ltb b 224
            then some 2
            else (if ltb b 240 then some 3 else (if ltb b 248 then some 4 else none))))

same : Option ℕ → Option ℕ → Bool
same none none = true
same (some m) (some n) = m == n
same none (some n) = false
same (some m) none = false

same-eq : (x y : Option ℕ) → same x y ≡ true → x ≡ y
unfolding same
same-eq none none e = refl
same-eq (some m) (some n) e = ap some ((==_iff m n).0 e)
same-eq none (some n) e = ground arith
same-eq (some m) none e = ground arith

len_table : each_from 0 256 (λ b. same (utf8_expected_len b) (announced b)) ≡ true
unfolding each_from utf8_expected_len same
len_table = refl

-- On every byte frida_utf8_expected_len gives the length of the range that the byte lies in, and FALSE
-- exactly on the bytes 0x80-0xbf and 0xf8-0xff.
pub utf8_expected_len_lem : (b : ℕ) → b < 256 → utf8_expected_len b ≡ announced b
utf8_expected_len_lem b h = same-eq _ _ (each_from-at 0 256 _ b (omega arith) h len_table)
