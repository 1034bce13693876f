-- ===== src/Tracer/Announce.antt =====
-- The requests for a snapshot among the map events of src/linux/helpers/syscall-tracer.bpf.c.
pub mod Run
pub mod Refused
use frida_core.Base.{
  ℕ, ◌%◌, ◌≡◌, refl, sym, ◌∙◌, ap, subst, Bool, true, false, ◌||◌, not, Option, none, some, List,
  [], ◌∷◌, ◌⊎◌, inl, inr, Bool-cases, ◌==◌, ==_iff, if◌then◌else◌,
}
use frida_core.Tracer.{
  EventType, word, State, Env, Stats, ProcessState, Inflight, Abi, need_snapshot, MapRecord,
  snapshot, create, destroy, SyscallRecord, update,
}
use frida_core.Tracer.Gate.{
  tgid_of, should_trace_current, get_current_abi, syscall_is_excluded, ensure_process_state,
  first_seen, settle, emit_need_snapshot, set_process, submit_map, if_reserved, reserved,
  bump_map_gen, fill_event,
}
use frida_core.Tracer.Enter.{admitted}
use frida_core.Tracer.Frame.{update_hit, update_miss, event_of, IsEmitted, IsQuiet, IsRecorded}
use frida_core.Tracer.Sound.{All}

abbrev pub is_snapshot_of : ℕ → MapRecord → Bool
is_snapshot_of tgid (snapshot e) = tgid == e.tgid
is_snapshot_of tgid (create e) = false
is_snapshot_of tgid (destroy e) = false

-- Whether a snapshot of the process was asked for
abbrev pub announced : ℕ → List MapRecord → Bool
announced tgid [] = false
announced tgid (r ∷ rs) = is_snapshot_of tgid r || announced tgid rs

abbrev pub tgid_in : SyscallRecord → ℕ
tgid_in r = (event_of r).parent.tgid

abbrev pub AreAnnounced : List MapRecord → List SyscallRecord → Type 0
AreAnnounced maps records = All (λ r. announced (tgid_in r) maps ≡ true) records

-- Each process that has an entry, and each that has a record, was announced.
pub record IsAnnounced (s : State) : Type 0 where
  pub processes :
      (tgid : ℕ) (st : ProcessState)
      → s.process_states tgid ≡ some st
      → announced tgid s.map_events ≡ true
  pub records : AreAnnounced s.map_events s.syscall_events

announced-later :
    (tgid : ℕ) (r : MapRecord) (rs : List MapRecord)
    → announced tgid rs ≡ true
    → announced tgid (r ∷ rs) ≡ true
announced-later tgid r rs h = elim (Bool-cases (is_snapshot_of tgid r)) [
  | inl it ↦ rw it
  | inr other ↦ rw other h
]

AreAnnounced-later :
    (r : MapRecord) (rs : List MapRecord) (records : List SyscallRecord)
    → AreAnnounced rs records
    → AreAnnounced (r ∷ rs) records
AreAnnounced-later r rs [] h = tt
AreAnnounced-later r rs (e ∷ es) (h, hs) =
    (announced-later (tgid_in e) r rs h, AreAnnounced-later r rs es hs)

-- One more map event
pub submit_map-IsAnnounced :
    (r : MapRecord) (s : State) → IsAnnounced s → IsAnnounced (submit_map r s)
submit_map-IsAnnounced r s h = record {
  processes = λ tgid st found. announced-later tgid r s.map_events (h.processes tgid st found);
  records = AreAnnounced-later r s.map_events s.syscall_events h.records;
}

pub none-some : {A : Type 0} (a : A) → ◌≡◌ {A = Option A} none (some a) → ⊥
none-some a e = cc

-- The entry of a process that was announced may change.
pub set_process-IsAnnounced :
    (tgid : ℕ) (p : Option ProcessState) (s : State)
    → ((st : ProcessState) → p ≡ some st → announced tgid s.map_events ≡ true)
    → IsAnnounced s
    → IsAnnounced (set_process tgid p s)
set_process-IsAnnounced tgid p s ok h = record { processes = at; records = h.records }
  where
    at :
        (i : ℕ) (st : ProcessState)
        → update s.process_states tgid p i ≡ some st
        → announced i s.map_events ≡ true
    at i st found = elim (Bool-cases (tgid == i)) [
      | inl same ↦
          let e = (==_iff tgid i).0 same in
          subst (λ j. announced j s.map_events ≡ true) e
            (ok st (sym (update_hit s.process_states tgid p i same) ∙ found))
      | inr apart ↦ h.processes i st (sym (update_miss s.process_states tgid p i apart) ∙ found)
    ]

abbrev IsEnsured : Env → Option ℕ × State → Type 0
IsEnsured env (none, t) = IsAnnounced t
IsEnsured env (some gen, t) = IsAnnounced t × (announced (tgid_of env) t.map_events ≡ true)

module _ (env : Env) where
  -- A process without an entry is announced before its entry stays.
  first_seen-IsAnnounced :
      (abi : Abi) (s : State)
      → s.process_states (tgid_of env) ≡ none
      → IsAnnounced s
      → IsEnsured env (first_seen env abi s)
  unfolding first_seen settle emit_need_snapshot if_reserved reserved
  first_seen-IsAnnounced abi s unknown h =
      choose (env.process_states_room s (tgid_of env))
        (env.map_events_room (set_process (tgid_of env) (some init) s) 24)
    where
      init : ProcessState
      init = record { abi = abi; map_gen = 0 }

      now : ℕ → Option ProcessState
      now = update s.process_states (tgid_of env) (some init)

      asked : Bool → Option ℕ × State
      asked got =
          let t = set_process (tgid_of env) (some init) s in
          let r = reserved got 24 t in
          settle env
            (r.0, if_reserved (λ s'. submit_map (snapshot (fill_event env need_snapshot s')) s') r)

      accepted : IsEnsured env (asked true)
      accepted =
          let s' = (reserved true 24 (set_process (tgid_of env) (some init) s)).1 in
          let r = snapshot (fill_event env need_snapshot s') in
          let same : (tgid_of env == tgid_of env) ≡ true =
            (==_iff (tgid_of env) (tgid_of env)).1 refl in
          let mine : announced (tgid_of env) (r ∷ s.map_events) ≡ true = rw same in
          let g =
            set_process-IsAnnounced (tgid_of env) (some init) (submit_map r s) (λ st e. mine)
              (submit_map-IsAnnounced r s h) in
          (record { processes = g.processes; records = g.records }, mine)

      refused : IsEnsured env (asked false)
      refused = record {
        processes = λ i st found. elim (Bool-cases (tgid_of env == i)) [
          | inl same ↦
              absurd (none-some st (sym (update_hit now (tgid_of env) none i same) ∙ found))
          | inr apart ↦ h.processes i st (
              sym (update_miss s.process_states (tgid_of env) (some init) i apart)
              ∙ (sym (update_miss now (tgid_of env) none i apart) ∙ found))
        ];
        records = h.records;
      }

      choose : (room got : Bool) → IsEnsured env (if room then asked got else (none, s))
      choose false got = h
      choose true true = accepted
      choose true false = refused

  ensure_process_state-IsAnnounced :
      (abi : Abi) (s : State) → IsAnnounced s → IsEnsured env (ensure_process_state env abi s)
  unfolding ensure_process_state
  ensure_process_state-IsAnnounced abi s h = go (s.process_states (tgid_of env)) refl
    where
      go :
          (found : Option ProcessState)
          → s.process_states (tgid_of env) ≡ found
          → IsEnsured env (elim found as (λ _. Option ℕ × State) [
            | none ↦ first_seen env abi s
            | some st ↦ (some st.map_gen, s)
          ])
      go none e = first_seen-IsAnnounced abi s e h
      go (some st) e = (h, h.processes (tgid_of env) st e)

  -- One record of the caller more, or none
  recorded-IsAnnounced :
      (kind : EventType) (nr gen : ℕ) (s t : State)
      → announced (tgid_of env) s.map_events ≡ true
      → IsRecorded env kind nr gen s t
      → IsAnnounced s
      → IsAnnounced t
  recorded-IsAnnounced kind nr gen s t known (size, inl e) h = record {
    processes = λ tgid st found.
        rw e.maps (h.processes tgid st (sym (ap (λ p. p tgid) e.processes) ∙ found));
    records = rw (e.maps, e.records) (rw e.ours.0 known, h.records);
  }
  recorded-IsAnnounced kind nr gen s t known (size, inr e) h = record {
    processes = λ tgid st found.
        rw e.maps (h.processes tgid st (sym (ap (λ p. p tgid) e.processes) ∙ found));
    records = rw (e.maps, e.records) h.records;
  }

  pub admitted-IsAnnounced :
      (kind : EventType) (nr : ℕ) (go : ℕ → State → State) (s : State)
      → ((gen : ℕ) (t : State) → IsRecorded env kind nr gen t (go gen t))
      → IsAnnounced s
      → IsAnnounced (admitted env nr go (ensure_process_state env (get_current_abi env)) s)
  unfolding admitted
  admitted-IsAnnounced kind nr go s records h = either (not (should_trace_current env)) _ _ h (
      either (syscall_is_excluded env (get_current_abi env) nr) _ _ h
        (ended _ (ensure_process_state-IsAnnounced (get_current_abi env) s h)))
    where
      either :
          (b : Bool) (t u : State)
          → IsAnnounced t
          → IsAnnounced u
          → IsAnnounced (if b then t else u)
      either true t u ht hu = ht
      either false t u ht hu = hu

      ended :
          (r : Option ℕ × State)
          → IsEnsured env r
          → IsAnnounced (elim r.0 as (λ _. State) [ none ↦ r.1 | some gen ↦ go gen r.1 ])
      ended (none, t) g = g
      ended (some gen, t) (g, known) = recorded-IsAnnounced kind nr gen t _ known (records gen t) g
