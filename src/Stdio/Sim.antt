-- ===== src/Stdio/Sim.antt =====
-- A system to run the streams on: signals interrupt the first calls, a write
-- takes at most three bytes, and one descriptor stands for all.
use frida_core.Base.{
  ℕ, zero, suc, ◌-◌, ◌≡◌, ◌<◌, refl, sym, List, [], ◌∷◌, ◌++◌, take, drop, length, min, replicate,
  length-take, take-append-drop, arith, length-replicate, length-append,
}
use frida_core.Posix.{Kernel, Documented, Reply, done, failed, ReadOutcome, WriteOutcome}

pub record Sim : Type 0 where
  pub pending : ℕ
  pub input : List ℕ
  pub output : List ℕ

unfoldable pub sim_read : ℕ → ℕ → Sim → Reply (List ℕ) × Sim
sim_read zero count s = (done (take count s.input), record s { input = drop count s.input })
sim_read (suc p) count s = (failed 4, record s { pending = p })

unfoldable pub sim_write : ℕ → List ℕ → Sim → Reply ℕ × Sim
sim_write zero bs s =
    (done (min 3 (length bs)), record s { output = s.output ++ take (min 3 (length bs)) bs })
sim_write (suc p) bs s = (failed 4, record s { pending = p })

unfoldable pub sim_realloc : List ℕ → ℕ → List ℕ
sim_realloc b n = take n b ++ replicate (n - length b) 0

abbrev pub sim : Kernel
sim = record {
  World = Sim;
  eintr = 4;
  read = λ fd count s. sim_read s.pending count s;
  write = λ fd bs s. sim_write s.pending bs s;
  close = λ fd s. (done 0, s);
  malloc = λ n. replicate n 0;
  realloc = sim_realloc;
}

drop_of_empty : (n : ℕ) (xs : List ℕ) → length (take n xs) ≡ 0 → 0 < n → drop n xs ≡ []
drop_of_empty zero xs e h = absurd (omega arith)
drop_of_empty (suc n) [] e h = refl
drop_of_empty (suc n) (x ∷ xs) e h = absurd (omega arith)

pub sim-ReadOutcome :
    (p count : ℕ) (s : Sim)
    → s.pending ≡ p
    → ReadOutcome sim
        (λ _ w. w.output)
        (λ _ w. w.input)
        (λ w. w.pending)
        0
        count
        s
        (sim_read p count s).0
        (sim_read p count s).1
unfolding sim_read
sim-ReadOutcome zero count s e = (
  omega (arith, length-take count s.input),
  sym (take-append-drop count s.input),
  drop_of_empty count s.input,
  omega arith,
)
sim-ReadOutcome (suc p) count s e = (omega arith, refl, λ _. omega arith, omega arith)

pub sim-WriteOutcome :
    (p : ℕ) (bs : List ℕ) (s : Sim)
    → s.pending ≡ p
    → WriteOutcome sim
        (λ _ w. w.output)
        (λ _ w. w.input)
        (λ w. w.pending)
        0
        bs
        s
        (sim_write p bs s).0
        (sim_write p bs s).1
unfolding sim_write
sim-WriteOutcome zero bs s e = (omega arith, λ h. omega arith, refl, omega arith)
sim-WriteOutcome (suc p) bs s e = (omega arith, refl, λ _. omega arith, omega arith)

pub length-sim_realloc : (b : List ℕ) (n : ℕ) → length (sim_realloc b n) ≡ n
unfolding sim_realloc
length-sim_realloc b n = omega (
  arith,
  length-append (take n b) (replicate (n - length b) 0),
  length-take n b,
  length-replicate {A = ℕ} (n - length b) 0,
)

abbrev pub sim_doc : Documented sim
sim_doc = record {
  sent = λ _ w. w.output;
  coming = λ _ w. w.input;
  signals = λ w. w.pending;
  read_outcome = λ fd count w. sim-ReadOutcome w.pending count w refl;
  write_outcome = λ fd bs w. sim-WriteOutcome w.pending bs w refl;
  length-malloc = λ n. length-replicate {A = ℕ} n 0;
  length-realloc = length-sim_realloc;
}
