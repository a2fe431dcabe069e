-- ===== src/Tests/Rings.antt =====
-- Short runs of the io_uring programs: simple_iou_server.cpp, simple_iou_client.cpp,
-- max_server.cpp, max_client.cpp.
use fast_net.Base.{
  ℕ, zero, suc, ◌*◌, ◌+◌, ◌-◌, ◌<◌, ltb, ◌/◌, ◌≤◌, ◌≡◌, refl, false, List, [], ◌∷◌, some, arith,
}
use fast_net.Uring.{Res, bytes, error}
use fast_net.Simple.Flight.{number}
use fast_net.SimpleServer.{Setup, Loop, start, Outcome, returns, goes_on, event_loop}
use fast_net.SimpleServer.Buffers.{IsSafe, event_loop_owns}
use fast_net.SimpleServer as Srv
use fast_net.SimpleClient as Cli
use fast_net.SimpleClient.{Job, Thread, num_requests, may_receive, submit, rounds, left}
use fast_net.SimpleClient.Windows.{FitsInt, InWindow, is_recv, submit_fits, start-InWindow}
use fast_net.SimpleClient.Early.{IsLeft, rounds-IsLeft, rounds_early}
use fast_net.MaxClient.{
  Sender, Round, send_data, start_sender, round, send_loop, complete, may_send,
}
use fast_net.MaxClient.Exit.{total_failures, send_data_exact, send_data_finishes}
use fast_net.MaxServer.{run, start_counters}
use fast_net.SimpleClient.Ownership.{IsOwner, rounds-IsOwner}
use fast_net.MaxClient.Window.{Honest}
use fast_net.MaxClient.{thread_range}
use fast_net.Ranges.{thread_start, thread_end}
use fast_net.MaxServer.Finish.{concat, wait_loop-send_data}
use fast_net.MaxServer.{Counters, expected_total_bytes, wait_loop}
use fast_net.Ranges.Shares.{size}
use fast_net.MaxServer.Totals.{completions_of, received}

abbrev pub setup : Setup
setup = record {
  allocate_malloc = false;
  verify = false;
  page_size = 8;
  ring_size = 8;
  num_requests = 100;
  initial_capacity = 3;
  client_num = 0;
}

-- A read of page 5 completes, then its write, and then a read finds the connection closed.
abbrev pub events : List Srv.Event
events =
    record { index = 0; res = bytes 4; word = 5 }
    ∷ record { index = 1; res = bytes 32; word = 0 }
    ∷ record { index = 0; res = bytes 0; word = 0 }
    ∷ []

event_loop_owns_example : IsSafe setup (8 / 4) (event_loop setup events (start setup))
event_loop_owns_example = event_loop_owns setup events

abbrev loop_of : Outcome → Loop
loop_of (goes_on s) = s
loop_of (returns result s) = s
loop_of _ = start setup

abbrev at_end : Loop
at_end = loop_of (event_loop setup events (start setup))

abbrev pub job : Job
job = record {
  allocate_malloc = false;
  verify = false;
  page_size = 8;
  ring_size = 8;
  initial_capacity = 3;
  start_index = 4;
  end_index = 6;
  thread_index = 1;
}

submit_fits_example :
    InWindow job (submit job (Cli.start job))
    × FitsInt (submit job (Cli.start job))
    × ((submit job (Cli.start job)).send_index
          - (Cli.start job).send_index
          + ((submit job (Cli.start job)).recv_index - (Cli.start job).recv_index)
        ≤ 8)
    × (Cli.may_send job (Cli.submit_sends job (Cli.start job)) ≡ false)
    × (may_receive job (submit job (Cli.start job)) ≡ false)
submit_fits_example = submit_fits job (Cli.start job) (omega arith) (start-InWindow job)

-- Nothing completes in the first round, a send and a receive do in the second.
abbrev completions : List (List Cli.Event)
completions =
    [] ∷ (record { index = 0; res = bytes 32 } ∷ record { index = 2; res = bytes 4 } ∷ []) ∷ []

rounds-IsLeft_example : IsLeft job (rounds job completions (Cli.start job))
rounds-IsLeft_example = rounds-IsLeft job completions (omega arith)

rounds-IsOwner_example : IsOwner job (rounds job completions (Cli.start job))
rounds-IsOwner_example = rounds-IsOwner job completions

rounds_early_example :
    (t : Thread) × (rounds job ([] ∷ []) (Cli.start job) ≡ left t)
    × (t.total_received ≡ 0)
    × (number is_recv t.in_flight ≡ num_requests job)
rounds_early_example = rounds_early job [] (omega arith) (omega arith)

-- Three sends through a ring of two entries.
abbrev good_rounds : List Round
good_rounds =
    record { free = 2; results = bytes 8 ∷ [] }
    ∷ record { free = 2; results = bytes 8 ∷ bytes 8 ∷ [] }
    ∷ record { free = 1; results = [] }
    ∷ []

abbrev all_sent : Sender
all_sent = record { requests_sent = 3; requests_completed = 3 }

send_data_exact_example :
    (total_failures good_rounds ≡ 0)
    × (all_sent.requests_completed ≡ 3)
    × (all_sent.requests_sent ≡ 3)
unfolding send_data round send_loop complete may_send
send_data_exact_example =
    send_data_exact 2 3 good_rounds all_sent (omega arith)
      (omega arith, (omega arith, (omega arith, tt))) refl

send_data_finishes_example : (t : Sender) × (send_data 2 3 good_rounds start_sender ≡ some t)
unfolding round send_loop complete may_send
send_data_finishes_example =
    send_data_finishes 2 3 good_rounds (omega arith) (omega arith)
      (
        omega arith,
        refl,
        omega arith,
        λ busy. omega arith,
        (
          omega arith,
          refl,
          omega arith,
          λ busy. omega arith,
          (omega arith, refl, omega arith, λ busy. absurd (omega arith), tt),
        ),
      )
      (omega arith)

-- Two clients: the one closes its connection, a read from the other fails, and a completion comes
-- after that.
abbrev reads : List (ℕ × Res)
reads =
    (0, bytes 8) ∷ (1, bytes 32) ∷ (0, bytes 24) ∷ (0, bytes 0) ∷ (1, error 104) ∷ (1, bytes 5) ∷ []

-- Two threads of the client with 3 requests of 8 bytes each; their bytes come in three reads, and
-- the server looks at its counter twice.
abbrev waves : List (List (ℕ × Res))
waves = ((0, bytes 24) ∷ (1, bytes 8) ∷ []) ∷ ((1, bytes 16) ∷ []) ∷ []

shares_of : (i : ℕ) → i < 2 → size (thread_range 6 2 i) ≡ 3
unfolding thread_range thread_start thread_end
shares_of i below = ground arith

good_rounds-Honest :
    (i : ℕ) → i < 2 → Honest 2 (size (thread_range 6 2 i)) good_rounds 0 start_sender
unfolding send_data round send_loop complete may_send
good_rounds-Honest i below = rw (shares_of i below) (omega arith, (omega arith, (omega arith, tt)))

good_rounds-all_sent :
    (i : ℕ)
    → i < 2
    → send_data 2 (size (thread_range 6 2 i)) good_rounds start_sender ≡ some all_sent
unfolding send_data round send_loop complete may_send
good_rounds-all_sent i below = rw (shares_of i below) refl

waves-received : (i : ℕ) → i < 2 → received (completions_of i (concat waves)) ≡ 3 * (2 * 4)
waves-received zero below = refl
waves-received (suc zero) below = refl
waves-received (suc (suc i)) below = absurd (omega arith)

wait_loop-send_data_example :
    ((run (concat waves) start_counters).total_bytes_received ≡ expected_total_bytes 6 2)
    × ((t : Counters) × (wait_loop
            (λ got all. ltb (got * 100) (all * 95))
            (expected_total_bytes 6 2)
            waves
            start_counters
          ≡ some t))
wait_loop-send_data_example =
    wait_loop-send_data 2 2 6 2 (λ got all. ltb (got * 100) (all * 95)) (λ i. good_rounds)
      (λ i. all_sent) waves (omega arith) (omega arith) good_rounds-Honest good_rounds-all_sent
      (omega arith, (omega arith, (omega arith, tt))) waves-received
