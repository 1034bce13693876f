-- ===== src/Loader/Tests.antt =====
-- A C library on which the thread of src/linux/helpers/loader.c runs: the injector sends one byte at a
-- time and hands out descriptor 5, the first send on a descriptor below 4 fails, and the agent keeps its
-- descriptor and asks to be unloaded later.
use frida_core.Base.{
  ℕ, zero, suc, ◌+◌, ◌≤◌, ◌<◌, ◌≡◌, refl, Bool, true, false, Option, none, some, List, [], ◌∷◌,
  length, if◌then◌else◌, ltb, arith,
}
use mathlib.Core.Option.{some-injective}
use frida_core.Io.{Returns}
use frida_core.Loader.{Libc, Context, InjectorState}
use frida_core.Loader.Main.{frida_main}
use frida_core.Loader.Ledger.{Ledger, Documented, Balance, one_if, brought, received, held_by}
use frida_core.Loader.Session.{frida_main-closes}

pub record World : Type 0 where
  handed_out : List ℕ
  given_back : List ℕ
  taken_over : List ℕ

unfoldable count : ℕ → List ℕ → ℕ
count d [] = 0
count d (fd ∷ fds) = one_if d (some fd) + count d fds

abbrev answer : ℕ → Bool → World → Option (List ℕ × Option ℕ) × World
answer zero control w = (some ([], none), w)
answer (suc n) false w = (some (2 ∷ [], none), w)
answer (suc n) true w = (some (2 ∷ [], some 5), record w { handed_out = 5 ∷ w.handed_out })

-- The agent takes over its descriptor and returns the policy DEFERRED.
abbrev take_over : Option ℕ → Option ℕ → World → (ℕ × InjectorState) × World
take_over frida none w = ((2, record { frida_ctrlfd = frida; agent_ctrlfd = none }), w)
take_over frida (some fd) w = (
  (2, record { frida_ctrlfd = frida; agent_ctrlfd = none }),
  record w { taken_over = fd ∷ w.taken_over },
)

abbrev libc : Libc
libc = record {
  World = World;
  close = λ fd w. (tt, record w { given_back = fd ∷ w.given_back });
  socket = λ w. (some 9, record w { handed_out = 9 ∷ w.handed_out });
  connect = λ fd address w. (true, w);
  send = λ fd bytes w. (if ltb fd 4 then none else some (length bytes), w);
  recvmsg = λ fd n control w. answer n control w;
  fcntl_getfd = λ fd w. (0, w);
  fcntl_setfd = λ fd flags w. (tt, w);
  gettid = λ w. (77, w);
  pthread_detach = λ w. (tt, w);
  dlopen = λ fd w. (some 1000, w);
  dlsym = λ handle symbol w. (some 2000, w);
  dlclose = λ handle w. (tt, w);
  dlerror = none;
  run_agent = λ p text policy st w. take_over st.frida_ctrlfd st.agent_ctrlfd w;
  or_close_on_exec = λ flags. 1;
}

abbrev ledger : Ledger libc
ledger = record {
  opened = λ w d. count d w.handed_out;
  closed = λ w d. count d w.given_back;
  kept = λ w d. count d w.taken_over;
}

take_over-Balance :
    (d : ℕ) (frida agent : Option ℕ) (w : World)
    → Balance ledger d w
        (held_by d (record { frida_ctrlfd = frida; agent_ctrlfd = agent }))
        (take_over frida agent w).1
        (held_by d (take_over frida agent w).0.1)
unfolding count one_if held_by
take_over-Balance d frida none w = omega arith
take_over-Balance d frida (some fd) w = omega arith

answer-Balance :
    (d n : ℕ) (control : Bool) (w : World)
    → Balance ledger d w 0 (answer n control w).1 (one_if d (brought (answer n control w).0))
unfolding count brought one_if
answer-Balance d zero control w = omega arith
answer-Balance d (suc n) false w = omega arith
answer-Balance d (suc n) true w = omega arith

answer-plain : (n : ℕ) (w : World) → brought (answer n false w).0 ≡ none
unfolding brought
answer-plain zero w = refl
answer-plain (suc n) w = refl

answer_empty :
    (n : ℕ) (control : Bool) (w : World)
    → received (answer n control w).0 ≡ 0
    → brought (answer n control w).0 ≡ none
unfolding brought received
answer_empty zero control w h = refl
answer_empty (suc n) false w h = refl
answer_empty (suc n) true w h = absurd (omega (arith, h))

answer_bound : (n : ℕ) (control : Bool) (w : World) → received (answer n control w).0 ≤ n
unfolding received
answer_bound zero control w = omega arith
answer_bound (suc n) false w = omega arith
answer_bound (suc n) true w = omega arith

no_text : {A B : Type 0} (e : B) → Path (Option B) none (some e) → A
no_text e h = absurd (cc)

send_takes_all :
    (low : Bool) (bytes : List ℕ) (sent : ℕ)
    → (if low then none else some (length bytes)) ≡ some sent
    → 0 < length bytes
    → (0 < sent) × (sent ≤ length bytes)
send_takes_all true bytes sent e h = no_text sent e
send_takes_all false bytes sent e h = let same = some-injective _ _ e in (omega arith, omega arith)

libc_doc : Documented libc ledger
unfolding count one_if held_by
libc_doc = record {
  close_balance = λ d fd w. omega arith;
  socket_balance = λ d w. omega arith;
  connect_balance = λ d fd address w. omega arith;
  send_balance = λ d fd bytes w. omega arith;
  recvmsg_balance = λ d fd n control w. answer-Balance d n control w;
  getfd_balance = λ d fd w. omega arith;
  setfd_balance = λ d fd flags w. omega arith;
  gettid_balance = λ d w. omega arith;
  detach_balance = λ d w. omega arith;
  dlopen_balance = λ d fd w. omega arith;
  dlsym_balance = λ d h symbol w. omega arith;
  dlclose_balance = λ d h w. omega arith;
  dlerror_balance = λ d e w h. no_text e h;
  run_balance = λ d p text policy st w. take_over-Balance d st.frida_ctrlfd st.agent_ctrlfd w;
  recvmsg_plain = λ fd n w. answer-plain n w;
  recvmsg_data = λ fd n control w h. answer_empty n control w h;
  recvmsg_bound = λ fd n control w. answer_bound n control w;
  send_bound = λ fd bytes w sent e h. send_takes_all (ltb fd 4) bytes sent e h;
}

abbrev start : World
start = record { handed_out = []; given_back = []; taken_over = [] }

abbrev context : Context
context = record {
  ctrlfd_for_peer = some 2;
  ctrlfd = some 3;
  agent_entrypoint = 109 ∷ [];
  agent_data = [];
  fallback_address = 97 ∷ [];
  agent_handle = none;
  agent_entrypoint_impl = 0;
}

frida_main-closes_example :
    Returns (frida_main libc 65537 context (78 ∷ []) (79 ∷ []) start) (λ _ w'.
      count 5 w'.given_back + count 5 w'.taken_over + 0
      ≡ 0 + 0 + count 5 w'.handed_out + one_if 5 (some 3) + one_if 5 (some 2))
unfolding count
frida_main-closes_example =
    frida_main-closes libc ledger libc_doc 5 65537 context (78 ∷ []) (79 ∷ []) start (omega arith)
