-- ===== src/Posix.antt =====
-- The operating system and the allocator, which lib/payload/libc-shim.c calls and does not
-- implement: the calls as fields of a record, and what POSIX and GLib document of them as another.
use frida_core.Base.{ℕ, ◌≡◌, ◌≤◌, ◌<◌, List, [], ◌++◌, take, length}

-- A call returns a value, or -1 with `errno`.
pub data Reply (A : Type 0) : Type 0 where
  done : A → Reply A
  failed : ℕ → Reply A

pub record Kernel : Type 1 where
  pub World : Type 0
  pub eintr : ℕ
  -- read (fd, buf, count): the bytes that it stores
  pub read : ℕ → ℕ → World → Reply (List ℕ) × World
  -- write (fd, buf, count): how many bytes it takes
  pub write : ℕ → List ℕ → World → Reply ℕ × World
  pub close : ℕ → World → Reply ℕ × World
  -- g_malloc (size) and g_realloc (ptr, size): the block
  pub malloc : ℕ → List ℕ
  pub realloc : List ℕ → ℕ → List ℕ

module _ (k : Kernel) where
  open k use {World, eintr, read, write, close, malloc, realloc}

  -- `coming` is what can still be read from a descriptor, `sent` what has been written to it, and
  -- `signals` bounds the interruptions still to come.
  module _ (sent coming : ℕ → World → List ℕ) (signals : World → ℕ) where
    abbrev pub ReadOutcome : ℕ → ℕ → World → Reply (List ℕ) → World → Type 0
    ReadOutcome fd count w (done bs) w' =
        (length bs ≤ count)
        × (coming fd w ≡ bs ++ coming fd w')
        × (length bs ≡ 0 → 0 < count → coming fd w' ≡ [])
        × (signals w' ≤ signals w)
    ReadOutcome fd count w (failed e) w' =
        (0 < e)
        × (coming fd w' ≡ coming fd w)
        × (e ≡ eintr → signals w' < signals w)
        × (signals w' ≤ signals w)

    abbrev pub WriteOutcome : ℕ → List ℕ → World → Reply ℕ → World → Type 0
    WriteOutcome fd bs w (done n) w' =
        (n ≤ length bs)
        × (0 < length bs → 0 < n)
        × (sent fd w' ≡ sent fd w ++ take n bs)
        × (signals w' ≤ signals w)
    WriteOutcome fd bs w (failed e) w' =
        (0 < e)
        × (sent fd w' ≡ sent fd w)
        × (e ≡ eintr → signals w' < signals w)
        × (signals w' ≤ signals w)

  pub record Documented : Type 0 where
    pub sent : ℕ → World → List ℕ
    pub coming : ℕ → World → List ℕ
    pub signals : World → ℕ
    pub read_outcome :
        (fd count : ℕ) (w : World)
        → ReadOutcome sent coming signals fd count w (read fd count w).0 (read fd count w).1
    pub write_outcome :
        (fd : ℕ) (bs : List ℕ) (w : World)
        → WriteOutcome sent coming signals fd bs w (write fd bs w).0 (write fd bs w).1
    pub length-malloc : (n : ℕ) → length (malloc n) ≡ n
    pub length-realloc : (b : List ℕ) (n : ℕ) → length (realloc b n) ≡ n
