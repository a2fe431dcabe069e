-- ===== src/SimpleServer/Shutdown.antt =====
-- The whole program of simple_iou_server.cpp, through every interleaving of its threads.
use fast_net.Base.{
  sum_of, sum_of-append, sum_of-set, ℕ, ◌+◌, ◌/◌, ◌≤◌, ◌<◌, ◌≡◌, refl, inl, inr, Bool, true, false,
  List, [], ◌∷◌, ◌++◌, Option, none, some, ltb, leb, get_elem?, set, length, length-append,
  length-set, All, All-append, All-set, All-get_elem?, arith, Bool-cases,
}
use fast_net.Pool.Lifetime.{destroy-held}
use fast_net.Simple.Flight.{blocks}
use fast_net.SimpleServer.{Setup, Loop, start, Outcome, goes_on, returns, fault, Event, on_event}
use fast_net.SimpleServer.Buffers.{IsLoop, IsSafe, on_event-IsSafe, start-IsLoop}
use fast_net.SimpleServer.Program.{
  Thread, begun, looping, finished, Phase, accepting, waiting, shut_down, failed, crashed, Program,
  Input, main_round, queue_init, completes, start_program, numbered, spawn, accept_round,
  wait_round, after_loop, on_outcome, on_completion, on_queue_init, thread_input, on_input,
  run_program,
}

abbrev pub IsFinished : Thread → Type 0
IsFinished finished = Unit
IsFinished _ = ⊥

abbrev pub one_if_finished : Thread → ℕ
one_if_finished finished = 1
one_if_finished _ = 0

abbrev pub number_finished : List Thread → ℕ
number_finished ts = sum_of one_if_finished ts

one_if_finished_le : (t : Thread) → one_if_finished t ≤ 1
one_if_finished_le finished = omega arith
one_if_finished_le (begun n) = omega arith
one_if_finished_le (looping n s) = omega arith

number_finished_le : (ts : List Thread) → number_finished ts ≤ length ts
number_finished_le [] = omega arith
number_finished_le (t ∷ ts) = omega (arith, one_if_finished_le t, number_finished_le ts)

one_if_finished-IsFinished : (t : Thread) → 0 < one_if_finished t → IsFinished t
one_if_finished-IsFinished finished h = tt
one_if_finished-IsFinished (begun n) h = absurd (omega arith)
one_if_finished-IsFinished (looping n s) h = absurd (omega arith)

pub number_finished-IsFinished :
    (ts : List Thread) → length ts ≤ number_finished ts → All IsFinished ts
number_finished-IsFinished [] h = tt
number_finished-IsFinished (t ∷ ts) h = (
  one_if_finished-IsFinished t (omega (arith, number_finished_le ts)),
  number_finished-IsFinished ts (omega (arith, one_if_finished_le t)),
)

module _ (c : Setup) (client_threads : ℕ) where
  -- A loop has its buffers in order, and RING_SIZE / 4 reads in flight.
  abbrev pub IsThread : Thread → Type 0
  IsThread (looping client s) = IsLoop (numbered c client_threads client) (c.ring_size / 4) s
  IsThread _ = Unit

  abbrev pub IsPhase : Phase → Program → Type 0
  IsPhase accepting p = p.client_num ≤ client_threads
  IsPhase waiting p = p.client_num ≡ client_threads
  IsPhase shut_down p = (p.client_num ≡ client_threads) × All IsFinished p.threads
  IsPhase failed p = p.client_num ≤ client_threads
  IsPhase crashed p = ⊥

  pub record IsProgram (p : Program) : Type 0 where
    pub in_phase : IsPhase p.phase p
    pub one_each : length p.threads ≡ p.client_num
    pub counted : number_finished p.threads ≡ p.finished_threads
    pub loops : All IsThread p.threads

  -- Another phase.
  IsProgram-phase :
      (p : Program) (ph : Phase)
      → IsPhase ph (record p { phase = ph })
      → IsProgram p
      → IsProgram (record p { phase = ph })
  IsProgram-phase p ph h ok = record {
    in_phase = h;
    one_each = ok.one_each;
    counted = ok.counted;
    loops = ok.loops;
  }

  spawn-IsProgram :
      (p : Program)
      → p.phase ≡ accepting
      → p.client_num < client_threads
      → IsProgram p
      → IsProgram (spawn c client_threads p)
  spawn-IsProgram p e room ok =
      let new = begun p.client_num ∷ [] in
      record {
        in_phase = rw e (omega arith);
        one_each = omega (arith, length-append p.threads new, ok.one_each);
        counted = omega (arith, sum_of-append one_if_finished p.threads new, ok.counted);
        loops = All-append IsThread p.threads new ok.loops (tt, tt);
      }

  accept_round-IsProgram :
      (accepted : Bool) (p : Program)
      → p.phase ≡ accepting
      → p.client_num ≤ client_threads
      → IsProgram p
      → IsProgram (accept_round c client_threads accepted p)
  unfolding accept_round
  accept_round-IsProgram accepted p e le ok = elim (Bool-cases (leb client_threads p.client_num)) [
    | inl full ↦ rw full (IsProgram-phase p waiting (ground arith) ok)
    | inr room ↦ rw room (elim (Bool-cases accepted) [
      | inl got ↦ rw got (spawn-IsProgram p e (ground arith) ok)
      | inr none_got ↦ rw none_got (IsProgram-phase p failed le ok)
    ])
  ]

  wait_round-IsProgram :
      (p : Program)
      → p.client_num ≡ client_threads
      → IsProgram p
      → IsProgram (wait_round c client_threads p)
  unfolding wait_round
  wait_round-IsProgram p full ok = elim (Bool-cases (ltb p.finished_threads p.client_num)) [
    | inl some_run ↦ rw some_run ok
    | inr none_run ↦ rw none_run (
        IsProgram-phase p shut_down
          (full, number_finished-IsFinished p.threads (ground (arith, ok.one_each, ok.counted))) ok)
  ]

  abbrev pub IsLive : Phase → Type 0
  IsLive accepting = Unit
  IsLive waiting = Unit
  IsLive _ = ⊥

  IsPhase-threads :
      (ph : Phase) (p : Program) (n : ℕ) (ts : List Thread)
      → IsLive ph
      → IsPhase ph p
      → IsPhase ph (record p { finished_threads = n; threads = ts })
  IsPhase-threads accepting p n ts live h = h
  IsPhase-threads waiting p n ts live h = h
  IsPhase-threads shut_down p n ts live h = absurd live
  IsPhase-threads failed p n ts live h = absurd live
  IsPhase-threads crashed p n ts live h = absurd live

  live_le : (ph : Phase) (p : Program) → IsLive ph → IsPhase ph p → p.client_num ≤ client_threads
  live_le accepting p live h = h
  live_le waiting p live h = omega (arith, h)
  live_le shut_down p live h = absurd live
  live_le failed p live h = absurd live
  live_le crashed p live h = absurd live

  fail-IsProgram :
      (p : Program) → IsLive p.phase → IsProgram p → IsProgram (record p { phase = failed })
  fail-IsProgram p live ok = IsProgram-phase p failed (live_le p.phase p live ok.in_phase) ok

  -- A thread in place `i` comes to stand at `u`.
  set-IsProgram :
      (p : Program) (i n : ℕ) (t u : Thread)
      → IsLive p.phase
      → get_elem? p.threads i ≡ some t
      → IsThread u
      → n + one_if_finished t ≡ p.finished_threads + one_if_finished u
      → IsProgram p
      → IsProgram (record p { finished_threads = n; threads = set p.threads i u })
  set-IsProgram p i n t u live here u_ok count ok = record {
    in_phase = IsPhase-threads p.phase p n (set p.threads i u) live ok.in_phase;
    one_each = omega (arith, length-set p.threads i u, ok.one_each);
    counted = omega (arith, sum_of-set one_if_finished p.threads i t u here, ok.counted);
    loops = All-set IsThread p.threads i u ok.loops u_ok;
  }

  after_loop-IsProgram :
      (i client : ℕ) (s : Loop) (result : Bool) (t : Loop) (p : Program)
      → IsLive p.phase
      → get_elem? p.threads i ≡ some (looping client s)
      → IsSafe (numbered c client_threads client) (c.ring_size / 4) (returns result t)
      → IsProgram p
      → IsProgram (after_loop c client_threads i result t p)
  unfolding after_loop
  after_loop-IsProgram i client s result t p live here (lost, owned, many, one) ok =
      let (h, freed, kept) =
        destroy-held c.allocate_malloc t.world (lost ++ blocks t.in_flight) owned in
      rw (freed, after_loop)
        (elim (Bool-cases result) [
          | inl good ↦ rw good (
              set-IsProgram p i (p.finished_threads + 1) (looping client s) finished live here tt
                (omega arith) ok)
          | inr bad ↦ rw bad (fail-IsProgram p live ok)
        ])

  on_outcome-IsProgram :
      (i client : ℕ) (s : Loop) (o : Outcome) (p : Program)
      → IsLive p.phase
      → get_elem? p.threads i ≡ some (looping client s)
      → IsSafe (numbered c client_threads client) (c.ring_size / 4) o
      → IsProgram p
      → IsProgram (on_outcome c client_threads i client o p)
  unfolding on_outcome
  on_outcome-IsProgram i client s (goes_on t) p live here safe ok =
      set-IsProgram p i p.finished_threads (looping client s) (looping client t) live here safe refl
        ok
  on_outcome-IsProgram i client s (returns result t) p live here safe ok =
      after_loop-IsProgram i client s result t p live here safe ok
  on_outcome-IsProgram i client s fault p live here safe ok = absurd safe

  on_completion-IsProgram :
      (i : ℕ) (e : Event) (t : Option Thread) (p : Program)
      → IsLive p.phase
      → get_elem? p.threads i ≡ t
      → IsProgram p
      → IsProgram (on_completion c client_threads i e t p)
  unfolding on_completion
  on_completion-IsProgram i e (some (looping client s)) p live here ok =
      on_outcome-IsProgram i client s (on_event (numbered c client_threads client) e s) p live here
        (on_event-IsSafe (numbered c client_threads client) (c.ring_size / 4) e s
          (All-get_elem? IsThread p.threads i (looping client s) ok.loops here))
        ok
  on_completion-IsProgram i e (some (begun client)) p live here ok = ok
  on_completion-IsProgram i e (some finished) p live here ok = ok
  on_completion-IsProgram i e none p live here ok = ok

  on_queue_init-IsProgram :
      (i : ℕ) (good : Bool) (t : Option Thread) (p : Program)
      → IsLive p.phase
      → get_elem? p.threads i ≡ t
      → IsProgram p
      → IsProgram (on_queue_init c client_threads i good t p)
  unfolding on_queue_init
  on_queue_init-IsProgram i true (some (begun client)) p live here ok =
      set-IsProgram p i p.finished_threads (begun client)
        (looping client (start (numbered c client_threads client))) live here
        (start-IsLoop (numbered c client_threads client)) refl ok
  on_queue_init-IsProgram i false (some (begun client)) p live here ok = fail-IsProgram p live ok
  on_queue_init-IsProgram i good (some (looping client s)) p live here ok = ok
  on_queue_init-IsProgram i good (some finished) p live here ok = ok
  on_queue_init-IsProgram i good none p live here ok = ok

  thread_input-IsProgram :
      (input : Input) (p : Program)
      → IsLive p.phase
      → IsProgram p
      → IsProgram (thread_input c client_threads input p)
  unfolding thread_input
  thread_input-IsProgram (main_round accepted) p live ok = ok
  thread_input-IsProgram (queue_init i good) p live ok =
      on_queue_init-IsProgram i good (get_elem? p.threads i) p live refl ok
  thread_input-IsProgram (completes i e) p live ok =
      on_completion-IsProgram i e (get_elem? p.threads i) p live refl ok

  pub on_input-IsProgram :
      (ph : Phase) (input : Input) (p : Program)
      → p.phase ≡ ph
      → IsProgram p
      → IsProgram (on_input c client_threads ph input p)
  unfolding on_input
  on_input-IsProgram accepting (main_round accepted) p e ok =
      accept_round-IsProgram accepted p e (rw e at ok.in_phase) ok
  on_input-IsProgram waiting (main_round accepted) p e ok =
      wait_round-IsProgram p (rw e at ok.in_phase) ok
  on_input-IsProgram accepting (queue_init i good) p e ok =
      thread_input-IsProgram (queue_init i good) p (rw e tt) ok
  on_input-IsProgram accepting (completes i ev) p e ok =
      thread_input-IsProgram (completes i ev) p (rw e tt) ok
  on_input-IsProgram waiting (queue_init i good) p e ok =
      thread_input-IsProgram (queue_init i good) p (rw e tt) ok
  on_input-IsProgram waiting (completes i ev) p e ok =
      thread_input-IsProgram (completes i ev) p (rw e tt) ok
  on_input-IsProgram shut_down input p e ok = ok
  on_input-IsProgram failed input p e ok = ok
  on_input-IsProgram crashed input p e ok = ok

  run-IsProgram_from :
      (inputs : List Input) (p : Program)
      → IsProgram p
      → IsProgram (run_program c client_threads inputs p)
  unfolding run_program
  run-IsProgram_from [] p ok = ok
  run-IsProgram_from (input ∷ inputs) p ok =
      run-IsProgram_from inputs (on_input c client_threads p.phase input p)
        (on_input-IsProgram p.phase input p refl ok)

-- From its start, however the steps of `main`, the rings and the completions of all connections are
-- interleaved: there is a thread for each client, and never more than CLIENT_THREADS;
-- `finished_threads` counts the threads that are behind their event loop; every other thread's
-- buffers are in order, and no thread frees what is not allocated, neither in its loop nor in the
-- destructor of its pool. When `main` returns, CLIENT_THREADS clients have come and every thread is
-- behind its event loop.
pub run_program-IsProgram :
    (c : Setup) (client_threads : ℕ) (inputs : List Input)
    → IsProgram c client_threads (run_program c client_threads inputs start_program)
run_program-IsProgram c client_threads inputs =
    run-IsProgram_from c client_threads inputs start_program
      (record { in_phase = omega arith; one_each = refl; counted = refl; loops = tt })
