-- ===== src/Tests/Totals.antt =====
-- Whole runs of max_server.cpp.
use fast_net.Base.{ℕ, zero, suc, ◌*◌, ◌%◌, ◌≡◌, refl, Bool, true, false, List, [], ◌∷◌, ltb, arith}
use fast_net.Uring.{bytes}
use fast_net.MaxServer.{u64_mod, start_counters, run}
use fast_net.MaxServer.Totals.{received, completions_of, total}
use fast_net.MaxServer.Reads.{Setup}
use fast_net.MaxServer.Program.{
  finished, waiting, Program, Input, main_round, queue_init, completes, start_program, run_program,
}
use fast_net.MaxServer.Threads.{Ended}
use fast_net.MaxServer.Agreement.{IsProgram}
use fast_net.MaxServer.Shutdown.{log, shared_totals}
use fast_net.MaxServer.Stuck.{short_count_stuck}

abbrev setup : Setup
setup = record { allocate_malloc = false; page_size = 8; ring_size = 2; initial_capacity = 1 }

abbrev below_95 : ℕ → ℕ → Bool
below_95 got all = ltb (got * 100) (all * 95)

-- Two clients of 32 bytes each; the second comes while the first sends.
abbrev inputs : List Input
inputs =
    main_round true
    ∷ queue_init 0 true
    ∷ completes 0 (record { index = 1; res = bytes 8 })
    ∷ main_round true
    ∷ queue_init 1 true
    ∷ completes 1 (record { index = 0; res = bytes 32 })
    ∷ completes 0 (record { index = 0; res = bytes 24 })
    ∷ main_round false
    ∷ main_round false
    ∷ completes 0 (record { index = 0; res = bytes 0 })
    ∷ main_round false
    ∷ []

shared_totals_example :
    ((run_program setup 2 below_95 64 inputs start_program).total_bytes_received
      ≡ total 2 (λ i. received (completions_of i (log setup 2 below_95 64 inputs start_program)))
        % u64_mod)
    × IsProgram setup 2
        (run_program setup 2 below_95 64 inputs start_program)
        (run (log setup 2 below_95 64 inputs start_program) start_counters)
shared_totals_example = shared_totals setup 2 below_95 64 inputs (
  tt,
  (
    tt,
    (omega arith, (tt, (tt, (omega arith, (omega arith, (tt, (tt, (omega arith, (tt, tt))))))))),
  ),
)

-- The only client has sent 8 of 64 bytes and closed its connection.
abbrev cut_short : Program
cut_short = record {
  phase = waiting;
  total_bytes_received = 8;
  finished_threads = 1;
  client_threads = finished ∷ [];
}

cut_short-Ended : Ended 1 (finished ∷ [])
cut_short-Ended zero below = refl
cut_short-Ended (suc j) below = absurd (omega arith)

short_count_stuck_example : run_program setup 1 below_95 64 inputs cut_short ≡ cut_short
short_count_stuck_example =
    short_count_stuck setup 1 below_95 64 cut_short inputs refl cut_short-Ended refl
