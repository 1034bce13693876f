-- ===== src/Io.antt =====
-- Code that calls the operating system: a state monad whose `none` says that a loop used up its
-- fuel, and total correctness for it.
use frida_core.Base.{Option, none, some, ◌≡◌, refl}

abbrev pub M : Type 0 → Type 0 → Type 0
M W A = W → Option (A × W)

unfoldable pub pure : {W A : Type 0} → A → M W A
pure a w = some (a, w)

unfoldable pub out_of_fuel : {W A : Type 0} → M W A
out_of_fuel w = none

infixl 5 ◌>>=◌ ◌>>◌
unfoldable pub ◌>>=◌ : {W A B : Type 0} → M W A → (A → M W B) → M W B
◌>>=◌ m f w = elim (m w) [ none ↦ none | some (a, w') ↦ f a w' ]

abbrev pub ◌>>◌ : {W A B : Type 0} → M W A → M W B → M W B
m >> k = m >>= λ _. k

-- The run ends, and what it returns meets `P`.
pub record Returns {W A : Type 0} (o : Option (A × W)) (P : A → W → Type 0) : Type 0 where
  pub result : A
  pub after : W
  pub computes : o ≡ some (result, after)
  pub holds : P result after

pub Returns-pure :
    {W A : Type 0} (P : A → W → Type 0) (a : A) (w : W) → P a w → Returns (pure a w) P
unfolding pure
Returns-pure P a w h = record { result = a; after = w; computes = refl; holds = h }

pub Returns-bind :
    {W A B : Type 0} (P : A → W → Type 0) (Q : B → W → Type 0) (m : M W A) (f : A → M W B) (w : W)
    → Returns (m w) P
    → ((a : A) (w' : W) → P a w' → Returns (f a w') Q)
    → Returns ((m >>= f) w) Q
unfolding ◌>>=◌
Returns-bind P Q m f w r k =
    let rest = k r.result r.after r.holds in
    record {
      result = rest.result;
      after = rest.after;
      computes = rw (r.computes, ◌>>=◌) rest.computes;
      holds = rest.holds;
    }

pub Returns-weaken :
    {W A : Type 0} (P Q : A → W → Type 0) (o : Option (A × W))
    → Returns o P
    → ((a : A) (w : W) → P a w → Q a w)
    → Returns o Q
Returns-weaken P Q o r k = record {
  result = r.result;
  after = r.after;
  computes = r.computes;
  holds = k r.result r.after r.holds;
}
