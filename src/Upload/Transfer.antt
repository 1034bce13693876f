-- ===== src/Upload/Transfer.antt =====
-- frida_read_chunk and frida_write_chunk of src/fruity/helpers/upload-receiver.c, with
-- FRIDA_TEMP_FAILURE_RETRY. The two calls of the system are parameters.
pub mod Stream
pub mod Sending
mod Tests
use frida_core.Base.{
  ℕ, zero, suc, ◌+◌, ◌-◌, Bool, true, false, Option, none, some, List, [], ◌∷◌, ◌++◌, length, drop,
  ◌==◌, if◌then◌else◌,
}
use frida_core.Io.{M, pure, out_of_fuel, ◌>>=◌}

-- -1 with EINTR, -1 with another error, or a result
pub data Answer (A : Type 0) : Type 0 where
  interrupted failed : Answer A
  ok : A → Answer A

-- read stores at most so many bytes, none at the end; write says how many it took.
pub record Socket : Type 1 where
  pub World : Type 0
  pub read : ℕ → ℕ → World → Answer (List ℕ) × World
  pub write : ℕ → List ℕ → World → Answer ℕ × World

-- FRIDA_TEMP_FAILURE_RETRY: `none` is -1.
unfoldable pub retry : {W A : Type 0} → ℕ → (W → Answer A × W) → M W (Option A)
retry zero call w = none
retry (suc n) call w =
    let rest = retry n call (call w).1 in
    elim (call w).0 [
      | interrupted ↦ rest
      | failed ↦ some (none, (call w).1)
      | ok a ↦ some (some a, (call w).1)
    ]

module _ (s : Socket) (fuel fd : ℕ) where
  open s use {World}

  -- The loop of frida_read_chunk; `buffer` is what was read, of which `bytes_read` is the length.
  unfoldable pub read_chunk : ℕ → ℕ → List ℕ → M World (Bool × List ℕ)
  read_chunk zero remaining buffer = out_of_fuel
  read_chunk (suc n) remaining buffer =
      if remaining == 0
      then pure (true, buffer)
      else (retry fuel (s.read fd remaining) >>= λ r. elim r [
        | none ↦ pure (false, buffer)
        | some bs ↦
            if length bs == 0
            then pure (false, buffer)
            else read_chunk n (remaining - length bs) (buffer ++ bs)
      ])

  -- The loop of frida_write_chunk; `rest` is what remains.
  unfoldable pub write_chunk : ℕ → List ℕ → M World (Bool × List ℕ)
  write_chunk zero rest = out_of_fuel
  write_chunk (suc n) rest =
      if length rest == 0
      then pure (true, rest)
      else (retry fuel (s.write fd rest) >>= λ r. elim r [
        | none ↦ pure (false, rest)
        | some sent ↦ if sent == 0 then pure (false, rest) else write_chunk n (drop sent rest)
      ])
