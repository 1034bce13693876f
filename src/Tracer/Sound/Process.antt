-- ===== src/Tracer/Sound/Process.antt =====
-- The parts that the programs of src/linux/helpers/syscall-tracer.bpf.c share, and the records.
use frida_core.Base.{
  ℕ, ◌+◌, ◌%◌, refl, Bool, true, false, not, Option, none, some, ◌==◌, if◌then◌else◌, Bool-cases,
  inl, inr,
}
use frida_core.Tracer.{State, Env, Abi, ProcessState, need_snapshot, snapshot, word}
use frida_core.Tracer.Gate.{
  tgid_of, should_trace_current, get_current_abi, syscall_is_excluded, set_process, settle,
  fill_event, emit_need_snapshot, first_seen, ensure_process_state, bump_map_gen,
}
use frida_core.Tracer.Enter.{admitted}
use frida_core.Tracer.Sound.{
  Documented, IsMapRecord, IsSound, submit_map-IsSound, if_reserved-IsSound, either-IsSound,
}

need_snapshot-IsMapRecord :
    (env : Env) (s : State) → IsMapRecord (snapshot (fill_event env need_snapshot s))
unfolding IsMapRecord
need_snapshot-IsMapRecord env s = (refl, tt)

module _ (env : Env) (doc : Documented env) where
  -- A process that is new, or not, leaves the records sound.
  first_seen-IsSound : (abi : Abi) (s : State) → IsSound 0 s → IsSound 0 (first_seen env abi s).1
  unfolding first_seen emit_need_snapshot settle
  first_seen-IsSound abi s h = elim (Bool-cases (env.process_states_room s (tgid_of env))) [
    | inr full ↦ rw full h
    | inl room ↦ rw room (settled _ (asked (set_process (tgid_of env) (some init) s) (kept h)))
  ]
    where
      init : ProcessState
      init = record { abi = abi; map_gen = 0 }

      kept :
          {p : ℕ → Option ProcessState} → IsSound 0 s → IsSound 0 (record s { process_states = p })
      kept g = record { records = g.records; map_records = g.map_records; counts = g.counts }

      asked : (t : State) → IsSound 0 t → IsSound 0 (emit_need_snapshot env t).1
      asked t g =
          if_reserved-IsSound (env.map_events_room t 24) 24 t _ g
            (λ s' p. submit_map-IsSound _ 0 _ (need_snapshot-IsMapRecord env s') p)

      settled : (r : Bool × State) → IsSound 0 r.1 → IsSound 0 (settle env r).1
      settled (true, t) g = record {
        records = g.records;
        map_records = g.map_records;
        counts = g.counts;
      }
      settled (false, t) g = record {
        records = g.records;
        map_records = g.map_records;
        counts = g.counts;
      }

  pub ensure_process_state-IsSound :
      (abi : Abi) (s : State) → IsSound 0 s → IsSound 0 (ensure_process_state env abi s).1
  unfolding ensure_process_state
  ensure_process_state-IsSound abi s h = go (s.process_states (tgid_of env))
    where
      go :
          (found : Option ProcessState)
          → IsSound 0
              (elim found as (λ _. Option ℕ × State) [
                | none ↦ first_seen env abi s
                | some st ↦ (some st.map_gen, s)
              ]).1
      go none = first_seen-IsSound abi s h
      go (some st) = h

  pub bump_map_gen-IsSound : (s : State) → IsSound 0 s → IsSound 0 (bump_map_gen env s).1
  unfolding bump_map_gen
  bump_map_gen-IsSound s h = go (s.process_states (tgid_of env))
    where
      go :
          (found : Option ProcessState)
          → IsSound 0
              (elim found as (λ _. ℕ × State) [
                | none ↦ (0, s)
                | some st ↦
                    let gen = (st.map_gen + 1) % word in
                    if st.map_gen == 0
                    then (0, s)
                    else (gen, set_process (tgid_of env) (some (record st { map_gen = gen })) s)
              ]).1
      go none = h
      go (some st) = elim (Bool-cases (st.map_gen == 0)) [
        | inl unknown ↦ rw unknown h
        | inr known ↦
            rw known
              (record { records = h.records; map_records = h.map_records; counts = h.counts })
      ]

  -- The part that every syscall program does first
  pub admitted-IsSound :
      (nr : ℕ) (go : ℕ → State → State) (s : State)
      → ((gen : ℕ) (s' : State) → IsSound 0 s' → IsSound 0 (go gen s'))
      → IsSound 0 s
      → IsSound 0 (admitted env nr go (ensure_process_state env (get_current_abi env)) s)
  unfolding admitted
  admitted-IsSound nr go s keeps h = either-IsSound (not (should_trace_current env)) 0 _ _ h (
      either-IsSound (syscall_is_excluded env (get_current_abi env) nr) 0 _ _ h
        (ended _ (ensure_process_state-IsSound (get_current_abi env) s h)))
    where
      ended :
          (r : Option ℕ × State)
          → IsSound 0 r.1
          → IsSound 0 (elim r.0 as (λ _. State) [ none ↦ r.1 | some map_gen ↦ go map_gen r.1 ])
      ended (none, t) g = g
      ended (some gen, t) g = keeps gen t g
