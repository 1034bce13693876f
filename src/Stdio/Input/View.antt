-- ===== src/Stdio/Input/View.antt =====
-- What a stream still has to give: the bytes pushed back, newest first, then those read ahead, then
-- those that the descriptor will deliver.
use frida_core.Base.{
  ℕ, zero, suc, ◌+◌, ◌-◌, ◌≡◌, ◌≢◌, ◌≤◌, ◌<◌, refl, ap, ◌∙◌, List, [], ◌∷◌, ◌++◌, length, slice,
  set, get_or, arith,
}
use frida_core.Posix.{Kernel, Documented}
use frida_core.Stdio.File.{File, IsFile}

abbrev pub newest_first : ℕ → List ℕ → List ℕ
newest_first zero b = []
newest_first (suc n) b = get_or b n 0 ∷ newest_first n b

pub newest_first_of_pos :
    (n : ℕ) (b : List ℕ) → 0 < n → newest_first n b ≡ get_or b (n - 1) 0 ∷ newest_first (n - 1) b
newest_first_of_pos zero b h = absurd (omega arith)
newest_first_of_pos (suc n) b h = let e : suc n - 1 ≡ n = omega arith in rw e

get_or-set_ne : (b : List ℕ) (i j v : ℕ) → i ≢ j → get_or (set b i v) j 0 ≡ get_or b j 0
get_or-set_ne [] i j v h = refl
get_or-set_ne (x ∷ b) zero zero v h = absurd (h refl)
get_or-set_ne (x ∷ b) zero (suc j) v h = refl
get_or-set_ne (x ∷ b) (suc i) zero v h = refl
get_or-set_ne (x ∷ b) (suc i) (suc j) v h = get_or-set_ne b i j v (λ e. h (ap suc e))

pub get_or-set_self : (b : List ℕ) (i v : ℕ) → i < length b → get_or (set b i v) i 0 ≡ v
get_or-set_self [] i v h = absurd (omega arith)
get_or-set_self (x ∷ b) zero v h = refl
get_or-set_self (x ∷ b) (suc i) v h = get_or-set_self b i v (omega arith)

-- A write above the bytes pushed back leaves them alone.
pub newest_first-set :
    (n : ℕ) (b : List ℕ) (i v : ℕ) → n ≤ i → newest_first n (set b i v) ≡ newest_first n b
newest_first-set zero b i v h = refl
newest_first-set (suc n) b i v h =
    rw (get_or-set_ne b i n v (omega arith), newest_first-set n b i v (omega arith))

slice_cons :
    (i len : ℕ) (xs : List ℕ)
    → i < length xs
    → 0 < len
    → slice i len xs ≡ get_or xs i 0 ∷ slice (i + 1) (len - 1) xs
slice_cons i len [] h p = absurd (omega arith)
slice_cons zero zero (x ∷ xs) h p = absurd (omega arith)
slice_cons zero (suc len) (x ∷ xs) h p = let e : suc len - 1 ≡ len = omega arith in rw e
slice_cons (suc i) len (x ∷ xs) h p =
    let e : suc i + 1 ≡ suc (i + 1) = omega arith in rw e (slice_cons i len xs (omega arith) p)

-- The bytes read ahead
abbrev pub read_ahead : File → List ℕ
read_ahead f = slice f.rpos (f.rlen - f.rpos) f.rbuf

pub read_ahead_of_lt :
    (f : File)
    → IsFile f
    → f.rpos < f.rlen
    → read_ahead f ≡ get_or f.rbuf f.rpos 0 ∷ read_ahead (record f { rpos = f.rpos + 1 })
read_ahead_of_lt f v h =
    slice_cons f.rpos (f.rlen - f.rpos) f.rbuf (omega arith) (omega arith)
    ∙ ap (λ n. get_or f.rbuf f.rpos 0 ∷ slice (f.rpos + 1) n f.rbuf) (omega (arith))

pub read_ahead_of_eq : (f : File) → f.rpos ≡ f.rlen → read_ahead f ≡ []
read_ahead_of_eq f h = let e : f.rlen - f.rpos ≡ 0 = omega arith in rw e

module _ (k : Kernel) (doc : Documented k) where
  open k use {World}
  open doc use {coming}

  abbrev pub view : File → World → List ℕ
  view f w = newest_first f.ungot_len f.ungot_buf ++ (read_ahead f ++ coming f.fd w)
