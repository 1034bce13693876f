-- ===== src/Der/Decode.antt =====
-- A reader for definite-length DER, after X.690, for what lib/base/p2p-glue.c writes.
use frida_core.Base.{
  ℕ, zero, suc, ◌+◌, ◌*◌, ◌-◌, ◌≡◌, ◌<◌, refl, Option, none, some, List, [], ◌∷◌, ◌++◌, length,
  take, drop, ltb, if◌then◌else◌, arith, leb, take-append, drop-append, length-append,
}

-- Every element is a byte.
abbrev pub AllBytes : List ℕ → Type 0
AllBytes [] = Unit
AllBytes (b ∷ bs) = (b < 256) × AllBytes bs

-- The number that some bytes spell, the highest first, after `acc`
unfoldable pub big_endian : ℕ → List ℕ → ℕ
big_endian acc [] = acc
big_endian acc (b ∷ bs) = big_endian (acc * 256 + b) bs

-- A number of `count` bytes, and the rest
unfoldable pub read_number : ℕ → ℕ → List ℕ → Option (ℕ × List ℕ)
read_number zero acc bs = some (acc, bs)
read_number (suc count) acc [] = none
read_number (suc count) acc (b ∷ bs) = read_number count (acc * 256 + b) bs

-- A length: one byte below 128, or 128 plus the count of the bytes that follow
unfoldable pub read_length : List ℕ → Option (ℕ × List ℕ)
read_length [] = none
read_length (b ∷ bs) = if ltb b 128 then some (b, bs) else read_number (b - 128) 0 bs

cut : ℕ → Option (ℕ × List ℕ) → Option (ℕ × List ℕ × List ℕ)
cut tag none = none
cut tag (some (n, bs)) = if leb n (length bs) then some (tag, take n bs, drop n bs) else none

-- A tag, the value, and what follows it
unfoldable pub read_tlv : List ℕ → Option (ℕ × List ℕ × List ℕ)
unfolding cut
read_tlv [] = none
read_tlv (tag ∷ bs) = cut tag (read_length bs)

pub read_number-big_endian :
    (bs : List ℕ) (acc : ℕ) (rest : List ℕ)
    → read_number (length bs) acc (bs ++ rest) ≡ some (big_endian acc bs, rest)
unfolding read_number big_endian
read_number-big_endian [] acc rest = refl
read_number-big_endian (b ∷ bs) acc rest = read_number-big_endian bs (acc * 256 + b) rest

pub big_endian-snoc :
    (acc : ℕ) (bs : List ℕ) (b : ℕ) → big_endian acc (bs ++ b ∷ []) ≡ big_endian acc bs * 256 + b
unfolding big_endian
big_endian-snoc acc [] b = refl
big_endian-snoc acc (c ∷ bs) b = big_endian-snoc (acc * 256 + c) bs b

-- A length that is read gives back the value in front of the rest.
pub read_tlv_of_length :
    (tag : ℕ) (value rest bs : List ℕ)
    → read_length bs ≡ some (length value, value ++ rest)
    → read_tlv (tag ∷ bs) ≡ some (tag, value, rest)
unfolding read_tlv cut
read_tlv_of_length tag value rest bs e = rw e (
    ground (
      arith,
      length-append value rest,
      take-append (length value) value rest refl,
      drop-append (length value) value rest refl,
    ))
