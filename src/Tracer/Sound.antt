-- ===== src/Tracer/Sound.antt =====
-- When a record of src/linux/helpers/syscall-tracer.bpf.c is sound: what the headers of its attachments
-- say of their arrays, and the counts in the record and in the statistics.
pub mod Enter
pub mod Process
pub mod Exit
pub mod Run
use frida_core.Base.{
  ℕ, zero, suc, ◌+◌, ◌%◌, ◌≤◌, ◌<◌, ◌≡◌, refl, sym, ap, Bool, true, false, Option, none, some, List,
  [], ◌∷◌, ◌++◌, length, length-append, ltb, leb, ◌==◌, if◌then◌else◌, arith, Bool-cases, inl, inr,
}
use frida_core.Tracer.{
  quad, max_path, max_stat, max_sock, Event, Attachment, SyscallEvent, SyscallRecord, enter, exit,
  MapRecord, snapshot, create, destroy, MapCreateEvent, Stats, State, Env, Abi, ProcessState, Copy,
  need_snapshot,
}
use frida_core.Tracer.Gate.{
  if_reserved, tid_of, tgid_of, reserved, note_emit, note_drop, reserve_map_event, submit_map,
  fill_event, emit_need_snapshot, set_process, first_seen, ensure_process_state, bump_map_gen,
}
use frida_core.Tracer.Attach.{
  schedule, submit, with_event, str_attachment, write_attach_str_arg, write_attach_bytes_arg,
}

abbrev pub All : {A : Type 0} → (A → Type 0) → List A → Type 0
All P [] = Unit {0}
All P (x ∷ xs) = P x × All P xs

-- What the helpers of the kernel document: a string of at most `cap` bytes, and exactly `n` bytes.
pub record Documented (env : Env) : Type 0 where
  pub str_fits : (ptr cap : ℕ) (s : List ℕ) → env.read_user_str ptr cap ≡ some s → length s ≤ cap
  pub length-read_user : (ptr n : ℕ) → length (env.read_user ptr n) ≡ n

-- The size is that of the bytes written, and they fit the array.
abbrev pub IsAttachment : Attachment → Type 0
IsAttachment a = (length a.content ≡ a.size) × (a.size ≤ a.capacity)

abbrev pub AreCounted : Event → List Attachment → Type 0
AreCounted e attachments = (e.attachment_count ≡ length attachments) × All IsAttachment attachments

unfoldable pub IsRecord : SyscallRecord → Type 0
IsRecord (enter e) = AreCounted e.parent.parent e.attachments
IsRecord (exit e) = AreCounted e.parent.parent e.attachments

unfoldable pub IsMapRecord : MapRecord → Type 0
IsMapRecord (snapshot e) = AreCounted e []
IsMapRecord (create e) = AreCounted e.parent e.attachments
IsMapRecord (destroy e) = AreCounted e.parent []

-- The statistics count the records and the `k` reservations that are not submitted yet.
unfoldable pub Counts : Option Stats → ℕ → Type 0
Counts none records = Unit {0}
Counts (some st) records = st.emitted_events ≡ records % quad

pub record IsSound (k : ℕ) (s : State) : Type 0 where
  pub records : All IsRecord s.syscall_events
  pub map_records : All IsMapRecord s.map_events
  pub counts : Counts s.stats (length s.syscall_events + length s.map_events + k)

note_emit-Counts :
    (size n : ℕ) (st : Option Stats) → Counts st n → Counts (note_emit size st) (n + 1)
unfolding Counts note_emit
note_emit-Counts size n none h = tt
note_emit-Counts size n (some st) h = omega arith

note_drop-Counts : (size n : ℕ) (st : Option Stats) → Counts st n → Counts (note_drop size st) n
unfolding Counts note_drop
note_drop-Counts size n none h = tt
note_drop-Counts size n (some st) h = h

-- A reservation that succeeds is one more to submit.
pub reserved-IsSound :
    (got : Bool) (size k : ℕ) (s : State)
    → IsSound k s
    → IsSound (if got then k + 1 else k) (reserved got size s).1
unfolding reserved
reserved-IsSound true size k s h = record {
  records = h.records;
  map_records = h.map_records;
  counts =
      let e =
        note_emit-Counts size (length s.syscall_events + length s.map_events + k) s.stats
          h.counts in
      let e' : length s.syscall_events + length s.map_events + (k + 1)
          ≡ length s.syscall_events + length s.map_events + k + 1 =
        omega arith in
      rw e' e;
}
reserved-IsSound false size k s h = record {
  records = h.records;
  map_records = h.map_records;
  counts = note_drop-Counts size _ s.stats h.counts;
}

pub submit-IsSound :
    (r : SyscallRecord) (k : ℕ) (s : State)
    → IsRecord r
    → IsSound (k + 1) s
    → IsSound k (submit r s)
submit-IsSound r k s hr h = record {
  records = (hr, h.records);
  map_records = h.map_records;
  counts =
      let e : suc (length s.syscall_events) + length s.map_events + k
          ≡ length s.syscall_events + length s.map_events + (k + 1) =
        omega arith in
      rw e h.counts;
}

pub submit_map-IsSound :
    (r : MapRecord) (k : ℕ) (s : State)
    → IsMapRecord r
    → IsSound (k + 1) s
    → IsSound k (submit_map r s)
submit_map-IsSound r k s hr h = record {
  records = h.records;
  map_records = (hr, h.map_records);
  counts =
      let e : length s.syscall_events + suc (length s.map_events) + k
          ≡ length s.syscall_events + length s.map_events + (k + 1) =
        omega arith in
      rw e h.counts;
}

pub schedule-IsSound :
    (env : Env) (nr : ℕ) (copy : Copy) (k : ℕ) (s : State)
    → IsSound k s
    → IsSound k (schedule env nr copy s)
unfolding schedule
schedule-IsSound env nr copy k s h = elim (Bool-cases (env.inflight_room s (tid_of env))) [
  | inl room ↦
      rw room (record { records = h.records; map_records = h.map_records; counts = h.counts })
  | inr full ↦ rw full h
]

pub if_reserved-IsSound :
    (got : Bool) (size : ℕ) (s : State) (rest : State → State)
    → IsSound 0 s
    → ((s' : State) → IsSound 1 s' → IsSound 0 (rest s'))
    → IsSound 0 (if_reserved rest (reserved got size s))
unfolding if_reserved reserved
if_reserved-IsSound true size s rest h keeps = keeps _ (reserved-IsSound true size 0 s h)
if_reserved-IsSound false size s rest h keeps = reserved-IsSound false size 0 s h

pub with_event-IsSound :
    (env : Env) (size : ℕ) (s : State) (rest : State → State)
    → IsSound 0 s
    → ((s' : State) → IsSound 1 s' → IsSound 0 (rest s'))
    → IsSound 0 (with_event env size s rest)
unfolding with_event
with_event-IsSound env size s rest =
    if_reserved-IsSound (env.syscall_events_room s size) size s rest

-- A branch keeps what both of its sides keep.
pub either-IsSound :
    (b : Bool) (k : ℕ) (s t : State) → IsSound k s → IsSound k t → IsSound k (if b then s else t)
either-IsSound true k s t hs ht = hs
either-IsSound false k s t hs ht = ht

pub either-IsRecord :
    (b : Bool) (r q : SyscallRecord) → IsRecord r → IsRecord q → IsRecord (if b then r else q)
either-IsRecord true r q hr hq = hr
either-IsRecord false r q hr hq = hq

str_attachment-IsAttachment :
    (i cap : ℕ) (read : Option (List ℕ))
    → 0 < cap
    → ((s : List ℕ) → read ≡ some s → length s ≤ cap)
    → IsAttachment (str_attachment i cap read)
unfolding str_attachment
str_attachment-IsAttachment i cap none pos fits = (refl, omega arith)
str_attachment-IsAttachment i cap (some s) pos fits = elim (Bool-cases (leb 1 (length s))) [
  | inl full ↦ rw full (refl, fits s refl)
  | inr empty ↦ rw empty (refl, omega arith)
]

pub write_attach_str_arg-IsAttachment :
    (env : Env) (i cap ptr : ℕ)
    → Documented env
    → 0 < cap
    → IsAttachment (write_attach_str_arg env i cap ptr)
unfolding write_attach_str_arg
write_attach_str_arg-IsAttachment env i cap ptr doc pos =
    str_attachment-IsAttachment i cap (env.read_user_str ptr cap) pos (doc.str_fits ptr cap)

pub write_attach_bytes_arg-IsAttachment :
    (env : Env) (i cap ptr n : ℕ)
    → Documented env
    → IsAttachment (write_attach_bytes_arg env i cap ptr n)
unfolding write_attach_bytes_arg
write_attach_bytes_arg-IsAttachment env i cap ptr n doc = elim (Bool-cases (n == 0)) [
  | inl nothing ↦ rw nothing (refl, omega arith)
  | inr something ↦ rw something (doc.length-read_user ptr _, ground arith)
]
