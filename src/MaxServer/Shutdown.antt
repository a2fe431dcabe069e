-- ===== src/MaxServer/Shutdown.antt =====
-- The whole program of max_server.cpp, through every interleaving of its threads.
use fast_net.Base.{
  ℕ, ◌%◌, ◌≤◌, ◌<◌, ◌≡◌, refl, sym, ◌∙◌, Bool, true, false, List, [], ◌∷◌, ◌++◌, Option, none, some,
  if◌then◌else◌, get_elem?, length, get_elem?-lt, All, All-append, arith,
}
use fast_net.Uring.{Res}
use fast_net.MaxServer.{u64_mod, Counters, start_counters, run}
use fast_net.MaxServer.Totals.{completions_of, received, total, run-append, run-received}
use fast_net.MaxServer.Reads.{Setup, Event}
use fast_net.MaxServer.Program.{
  Thread, begun, looping, finished, Program, Input, main_round, queue_init, completes,
  start_program, is_running, on_input, run_program,
}
use fast_net.MaxServer.Agreement.{log_at, thread_log, input_log, IsProgram, InRing}
use fast_net.MaxServer.Steps.{on_input-IsProgram}

module _ (c : Setup) (clients : ℕ) (below_95 : ℕ → ℕ → Bool) (expected : ℕ) where
  -- The completions that the threads take in a run.
  abbrev pub log : List Input → Program → List (ℕ × Res)
  log [] p = []
  log (input ∷ inputs) p =
      input_log input p ++ log inputs (on_input c clients below_95 expected input p)

  run-IsProgram_from :
      (inputs : List Input) (p : Program) (s : Counters)
      → All (InRing c clients) inputs
      → IsProgram c clients p s
      → IsProgram c clients
          (run_program c clients below_95 expected inputs p)
          (run (log inputs p) s)
  unfolding run_program run
  run-IsProgram_from [] p s below ok = ok
  run-IsProgram_from (input ∷ inputs) p s below ok =
      let p' = on_input c clients below_95 expected input p in
      rw (run-append (input_log input p) (log inputs p') s) (
        run-IsProgram_from inputs p' (run (input_log input p) s) below.1
          (on_input-IsProgram c clients below_95 expected p s input below.0 ok))

  log_at-below :
      (i : ℕ) (e : Event) (ts : List Thread) (t : Option Thread)
      → get_elem? ts i ≡ t
      → length ts ≤ clients
      → All (λ x. x.0 < clients) (log_at i e t)
  log_at-below i e ts (some (looping l)) here few = (omega (arith, get_elem?-lt ts i here), tt)
  log_at-below i e ts (some begun) here few = tt
  log_at-below i e ts (some finished) here few = tt
  log_at-below i e ts none here few = tt

  input_log-below :
      (p : Program) (input : Input) (running : Bool)
      → length p.client_threads ≤ clients
      → All (λ x. x.0 < clients) (if running then thread_log input p else [])
  input_log-below p input false few = tt
  input_log-below p (main_round accepted) true few = tt
  input_log-below p (queue_init i good) true few = tt
  input_log-below p (completes i e) true few =
      log_at-below i e p.client_threads (get_elem? p.client_threads i) refl few

  log-below :
      (inputs : List Input) (p : Program) (s : Counters)
      → All (InRing c clients) inputs
      → IsProgram c clients p s
      → All (λ x. x.0 < clients) (log inputs p)
  log-below [] p s below ok = tt
  log-below (input ∷ inputs) p s below ok =
      All-append (λ x. x.0 < clients) (input_log input p) _
        (input_log-below p input (is_running p.phase) ok.few)
        (log-below inputs (on_input c clients below_95 expected input p) (run (input_log input p) s)
          below.1 (on_input-IsProgram c clients below_95 expected p s input below.0 ok))

start-IsProgram : (c : Setup) (clients : ℕ) → IsProgram c clients start_program start_counters
start-IsProgram c clients = record {
  in_phase = tt;
  few = omega arith;
  small = omega arith;
  same_total = refl;
  same_finished = refl;
  same_closed = λ i. refl;
  counted = refl;
  loops = tt;
}

-- From its start, however the steps of `main`, the rings and the completions of all connections are
-- interleaved, each completion being of a read in flight: the shared counter is the sum of what each
-- connection has brought before it ended or failed, modulo 2^64, and the program agrees with the
-- counters alone on every thread's end. No more than CLIENT_THREADS clients come; every loop has
-- RING_SIZE reads in flight, and its pool has given out exactly their buffers; no thread frees what
-- is not allocated; and when `main` returns, all CLIENT_THREADS threads have ended.
pub shared_totals :
    (c : Setup) (clients : ℕ) (below_95 : ℕ → ℕ → Bool) (expected : ℕ) (inputs : List Input)
    → All (InRing c clients) inputs
    → ((run_program c clients below_95 expected inputs start_program).total_bytes_received
        ≡ total clients (λ i.
          received (completions_of i (log c clients below_95 expected inputs start_program)))
          % u64_mod)
      × IsProgram c clients
          (run_program c clients below_95 expected inputs start_program)
          (run (log c clients below_95 expected inputs start_program) start_counters)
shared_totals c clients below_95 expected inputs below =
    let taken = log c clients below_95 expected inputs start_program in
    let first = start-IsProgram c clients in
    let ok =
      run-IsProgram_from c clients below_95 expected inputs start_program start_counters below
        first in
    (
      sym ok.same_total
          ∙ run-received clients taken (
              log-below c clients below_95 expected inputs start_program start_counters below
                first),
      ok,
    )
