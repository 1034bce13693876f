-- ===== src/Tracer/Frame.antt =====
-- What one run of a syscall program of src/linux/helpers/syscall-tracer.bpf.c may change.
pub mod Enter
pub mod Exit
pub mod Gate
pub mod Uprobe
pub mod Maps
pub mod Others
pub mod Readlinkat
use frida_core.Base.{
  ℕ, ◌+◌, ◌%◌, ◌^◌, ◌≡◌, refl, ◌∙◌, Bool, true, false, Option, none, some, List, ◌∷◌, ◌⊎◌, inl, inr,
  ◌==◌, ==_iff, if◌then◌else◌, Bool-cases,
}
use frida_core.Tracer.{
  EventType, SyscallEvent, SyscallRecord, enter, exit, State, Stats, Env, Copy, Inflight, MapRecord,
  ProcessState, update,
}
use frida_core.Tracer.Gate.{tgid_of, tid_of, note_emit, note_drop, reserved, if_reserved}
use frida_core.Tracer.Attach.{schedule, submit, with_event}

abbrev pub event_of : SyscallRecord → SyscallEvent
event_of (enter e) = e.parent
event_of (exit e) = e.parent

-- The entries of all threads but the caller's are the same.
abbrev pub LeavesOthers : Env → State → State → Type 0
LeavesOthers env s t = (tid : ℕ) → ¬ (tid_of env ≡ tid) → t.inflight tid ≡ s.inflight tid

-- Only the caller's entry in `inflight` and the statistics may differ.
pub record IsQuiet (env : Env) (stats : Option Stats) (s t : State) : Type 0 where
  pub records : t.syscall_events ≡ s.syscall_events
  pub maps : t.map_events ≡ s.map_events
  pub processes : t.process_states ≡ s.process_states
  pub counted : t.stats ≡ stats
  pub others : LeavesOthers env s t

-- The header of a record is that of the caller and its syscall.
abbrev pub IsOurs : Env → EventType → ℕ → ℕ → SyscallRecord → Type 0
IsOurs env kind nr gen r =
    ((event_of r).parent.tgid ≡ tgid_of env)
    × ((event_of r).parent.tid ≡ tid_of env)
    × ((event_of r).syscall_nr ≡ nr)
    × ((event_of r).map_gen ≡ gen)
    × ((event_of r).parent.type ≡ kind)

-- One record more, which is the caller's
pub record IsEmitted (env : Env) (kind : EventType) (nr gen : ℕ) (stats : Option Stats)
    (s t : State) : Type 0 where
  pub new : SyscallRecord
  pub ours : IsOurs env kind nr gen new
  pub records : t.syscall_events ≡ new ∷ s.syscall_events
  pub maps : t.map_events ≡ s.map_events
  pub processes : t.process_states ≡ s.process_states
  pub counted : t.stats ≡ stats
  pub others : LeavesOthers env s t

-- The statistics, if there are any, with one emitted record of a size more
abbrev pub one_emitted : ℕ → Option Stats → Option Stats
one_emitted size none = none
one_emitted size (some a) = some (record {
  emitted_events = (a.emitted_events + 1) % 2 ^ 64;
  emitted_bytes = (a.emitted_bytes + size) % 2 ^ 64;
  dropped_events = a.dropped_events;
  dropped_bytes = a.dropped_bytes;
})

-- With one dropped record more
abbrev pub one_dropped : ℕ → Option Stats → Option Stats
one_dropped size none = none
one_dropped size (some a) = some (record {
  emitted_events = a.emitted_events;
  emitted_bytes = a.emitted_bytes;
  dropped_events = (a.dropped_events + 1) % 2 ^ 64;
  dropped_bytes = (a.dropped_bytes + size) % 2 ^ 64;
})

note_emit_lem : (size : ℕ) (a : Option Stats) → note_emit size a ≡ one_emitted size a
unfolding note_emit
note_emit_lem size none = refl
note_emit_lem size (some a) = refl

note_drop_lem : (size : ℕ) (a : Option Stats) → note_drop size a ≡ one_dropped size a
unfolding note_drop
note_drop_lem size none = refl
note_drop_lem size (some a) = refl

-- A record that is counted, or a drop that is
abbrev pub IsRecorded : Env → EventType → ℕ → ℕ → State → State → Type 0
IsRecorded env kind nr gen s t =
    (size : ℕ) × (IsEmitted env kind nr gen (one_emitted size s.stats) s t
      ⊎ IsQuiet env (one_dropped size s.stats) s t)

pub self-IsQuiet : (env : Env) (s : State) → IsQuiet env s.stats s s
self-IsQuiet env s = record {
  records = refl;
  maps = refl;
  processes = refl;
  counted = refl;
  others = λ tid other. refl;
}

pub update_hit :
    {A : Type 0} (f : ℕ → Option A) (key : ℕ) (v : Option A) (i : ℕ)
    → (key == i) ≡ true
    → update f key v i ≡ v
update_hit f key v i same = rw same

pub update_miss :
    {A : Type 0} (f : ℕ → Option A) (key : ℕ) (v : Option A) (i : ℕ)
    → (key == i) ≡ false
    → update f key v i ≡ f i
update_miss f key v i apart = rw apart

pub update_other :
    {A : Type 0} (f : ℕ → Option A) (key : ℕ) (v : Option A) (i : ℕ)
    → ¬ (key ≡ i)
    → update f key v i ≡ f i
update_other f key v i ne = elim (Bool-cases (key == i)) [
  | inl same ↦ absurd (ne ((==_iff key i).0 same))
  | inr apart ↦ rw apart
]

pub schedule-IsQuiet :
    (env : Env) (nr : ℕ) (copy : Copy) (stats : Option Stats) (s t : State)
    → IsQuiet env stats s t
    → IsQuiet env stats s (schedule env nr copy t)
unfolding schedule
schedule-IsQuiet env nr copy stats s t h = elim (Bool-cases (env.inflight_room t (tid_of env))) [
  | inl room ↦ rw room (record {
    records = h.records;
    maps = h.maps;
    processes = h.processes;
    counted = h.counted;
    others = λ tid other. update_other t.inflight (tid_of env) _ tid other ∙ h.others tid other;
  })
  | inr full ↦ rw full h
]

pub either-IsQuiet :
    (env : Env) (stats : Option Stats) (b : Bool) (s t u : State)
    → IsQuiet env stats s t
    → IsQuiet env stats s u
    → IsQuiet env stats s (if b then t else u)
either-IsQuiet env stats true s t u ht hu = ht
either-IsQuiet env stats false s t u ht hu = hu

pub either-IsOurs :
    (env : Env) (kind : EventType) (nr gen : ℕ) (b : Bool) (r q : SyscallRecord)
    → IsOurs env kind nr gen r
    → IsOurs env kind nr gen q
    → IsOurs env kind nr gen (if b then r else q)
either-IsOurs env kind nr gen true r q hr hq = hr
either-IsOurs env kind nr gen false r q hr hq = hq

pub submit-IsEmitted :
    (env : Env) (kind : EventType) (nr gen : ℕ) (r : SyscallRecord) (s t : State)
    → IsOurs env kind nr gen r
    → IsQuiet env s.stats s t
    → IsEmitted env kind nr gen s.stats s (submit r t)
submit-IsEmitted env kind nr gen r s t hr h = record {
  new = r;
  ours = hr;
  records = rw h.records;
  maps = h.maps;
  processes = h.processes;
  counted = h.counted;
  others = h.others;
}

pub with_event-IsRecorded :
    (env : Env) (kind : EventType) (nr gen size : ℕ) (s : State) (rest : State → State)
    → ((s' : State) → IsEmitted env kind nr gen s'.stats s' (rest s'))
    → IsRecorded env kind nr gen s (with_event env size s rest)
unfolding with_event if_reserved reserved
with_event-IsRecorded env kind nr gen size s rest emits =
    (size, go (env.syscall_events_room s size))
  where
    go :
        (got : Bool)
        → IsEmitted env kind nr gen
            (one_emitted size s.stats)
            s
            (if_reserved rest (reserved got size s))
          ⊎ IsQuiet env (one_dropped size s.stats) s (if_reserved rest (reserved got size s))
    go true =
        let e = emits (record s { stats = note_emit size s.stats }) in
        inl (record {
          new = e.new;
          ours = e.ours;
          records = e.records;
          maps = e.maps;
          processes = e.processes;
          counted = e.counted ∙ note_emit_lem size s.stats;
          others = e.others;
        })
    go false = inr (record {
      records = refl;
      maps = refl;
      processes = refl;
      counted = note_drop_lem size s.stats;
      others = λ tid other. refl;
    })

pub either-IsRecorded :
    (env : Env) (kind : EventType) (nr gen : ℕ) (b : Bool) (s t u : State)
    → IsRecorded env kind nr gen s t
    → IsRecorded env kind nr gen s u
    → IsRecorded env kind nr gen s (if b then t else u)
either-IsRecorded env kind nr gen true s t u ht hu = ht
either-IsRecorded env kind nr gen false s t u ht hu = hu
