-- ===== src/Upload/Transfer/Tests.antt =====
-- A socket for the transfers of src/fruity/helpers/upload-receiver.c that is interrupted at first and then
-- moves two bytes at a time.
use frida_core.Base.{
  ℕ, zero, suc, ◌≡◌, refl, sym, List, [], ◌∷◌, ◌++◌, length, length-take, drop, take,
  take-append-drop, min, arith,
}
use frida_core.Io.{Returns}
use frida_core.Upload.Transfer.{Answer, interrupted, ok, Socket, read_chunk, write_chunk}
use frida_core.Upload.Transfer.Stream.{
  Streams, Documented, ReadPost, WritePost, IsReceived, read_chunk-IsReceived, IsSent,
}
use frida_core.Upload.Transfer.Sending.{write_chunk-IsSent}

record Line : Type 0 where
  incoming : List ℕ
  outgoing : List ℕ
  interrupts : ℕ

abbrev read_from : ℕ → ℕ → Line → Answer (List ℕ) × Line
read_from n zero w =
    (ok (take (min n 2) w.incoming), record w { incoming = drop (min n 2) w.incoming })
read_from n (suc i) w = (interrupted, record w { interrupts = i })

abbrev write_to : List ℕ → ℕ → Line → Answer ℕ × Line
write_to bytes zero w =
    let n = min (length bytes) 2 in (ok n, record w { outgoing = w.outgoing ++ take n bytes })
write_to bytes (suc i) w = (interrupted, record w { interrupts = i })

abbrev socket : Socket
socket = record {
  World = Line;
  read = λ fd n w. read_from n w.interrupts w;
  write = λ fd bytes w. write_to bytes w.interrupts w;
}

abbrev streams : Streams socket
streams = record {
  incoming = λ w. w.incoming;
  outgoing = λ w. w.outgoing;
  interrupts = λ w. w.interrupts;
}

read_from-ReadPost :
    (n i : ℕ) (w : Line)
    → w.interrupts ≡ i
    → ReadPost socket streams n w (read_from n i w).0 (read_from n i w).1
read_from-ReadPost n zero w e = (
  omega arith,
  omega (arith, length-take (min n 2) w.incoming),
  sym (take-append-drop (min n 2) w.incoming),
  refl,
)
read_from-ReadPost n (suc i) w e = (omega arith, refl, refl)

write_to-WritePost :
    (bytes : List ℕ) (i : ℕ) (w : Line)
    → w.interrupts ≡ i
    → WritePost socket streams bytes w (write_to bytes i w).0 (write_to bytes i w).1
write_to-WritePost bytes zero w e = (omega arith, omega arith, refl, refl)
write_to-WritePost bytes (suc i) w e = (omega arith, refl, refl)

socket-Documented : Documented socket streams
socket-Documented = record {
  read_post = λ fd n w. read_from-ReadPost n w.interrupts w refl;
  write_post = λ fd bytes w. write_to-WritePost bytes w.interrupts w refl;
}

abbrev line : Line
line = record { incoming = 1 ∷ 2 ∷ 3 ∷ 4 ∷ []; outgoing = []; interrupts = 1 }

read_chunk-IsReceived_example :
    Returns (read_chunk socket 2 5 4 3 [] line) (IsReceived socket streams 3 [] line)
read_chunk-IsReceived_example =
    read_chunk-IsReceived socket streams socket-Documented 4 2 5 3 [] line (omega arith)
      (omega arith)

write_chunk-IsSent_example :
    Returns
      (write_chunk socket 2 5 4 (7 ∷ 8 ∷ 9 ∷ []) line)
      (IsSent socket streams (7 ∷ 8 ∷ 9 ∷ []) line)
write_chunk-IsSent_example =
    write_chunk-IsSent socket streams socket-Documented 4 2 5 (7 ∷ 8 ∷ 9 ∷ []) line (omega arith)
      (omega arith)
