-- ===== src/Tests/Programs.antt =====
-- Whole runs of simple_iou_server.cpp and of one connection of max_server.cpp, and the debug prints.
use fast_net.Base.{◌-◌, ◌≡◌, min, ltb, if◌then◌else◌, true, false, List, [], ◌∷◌, arith}
use fast_net.Uring.{bytes, error}
use fast_net.SimpleServer.{Event, start, event_loop}
use fast_net.SimpleServer.Echo.{answered, EchoesTo, event_loop_echoes}
use fast_net.SimpleServer.Program.{
  Input, main_round, queue_init, completes, start_program, run_program, on_input, accept_round,
  shut_down,
}
use fast_net.SimpleServer.Ending.{run_program_ends}
use fast_net.SimpleServer.Shutdown.{IsProgram, run_program-IsProgram}
use fast_net.MaxServer.Reads as Max
use fast_net.Utils.{debug_print_array, debug_print_words}
use fast_net.Utils.Printing.{upto, debug_print_bounds}
use fast_net.Sockets.{Descriptor, descriptor, minus_one, returns, nothing_held}
use fast_net.Sockets.Clients.{
  in_progress, client_main_run, send_data_run, send_receive_run, client_thread_run,
}
use fast_net.Sockets.Orderly.{ReturnsWith, left_of, left_of_main, client_threads-closed}
use fast_net.Tests.Rings.{setup, events}

event_loop_echoes_example :
    EchoesTo setup (answered setup events (start setup)) (event_loop setup events (start setup))
event_loop_echoes_example = event_loop_echoes setup events (omega arith)

-- Two clients; the first closes its connection while `main` still waits for the second.
abbrev close_first : Event
close_first = record { index = 0; res = bytes 0; word = 0 }

abbrev inputs : List Input
inputs =
    main_round true
    ∷ queue_init 0 true
    ∷ completes 0 (record { index = 0; res = bytes 4; word = 5 })
    ∷ main_round true
    ∷ completes 0 close_first
    ∷ main_round false
    ∷ queue_init 1 true
    ∷ main_round false
    ∷ completes 1 close_first
    ∷ main_round false
    ∷ []

run_program-IsProgram_example : IsProgram setup 2 (run_program setup 2 inputs start_program)
run_program-IsProgram_example = run_program-IsProgram setup 2 inputs

-- `main` has taken one client of two.
run_program_ends_example :
    (more : List Input) × ((run_program setup 2 more
        (run_program setup 2 (main_round true ∷ []) start_program)).phase
      ≡ shut_down)
unfolding run_program on_input accept_round
run_program_ends_example = run_program_ends setup 2 (main_round true ∷ []) (omega arith) tt

abbrev reads_setup : Max.Setup
reads_setup = record { allocate_malloc = false; page_size = 8; ring_size = 2; initial_capacity = 1 }

abbrev reads : List Max.Event
reads =
    record { index = 1; res = bytes 32 }
    ∷ record { index = 0; res = bytes 8 }
    ∷ record { index = 1; res = error 104 }
    ∷ []

debug_print_bounds_example :
    (debug_print_array true 100 ≡ record {
      first = upto (min 30 100) 0;
      last = if ltb 100 30 then [] else upto 30 (100 - 30);
    })
    × (debug_print_array false 100 ≡ record { first = []; last = [] })
    × (debug_print_words 100 ≡ record {
      first = upto (min 24 100) 0;
      last = if ltb 24 100 then upto 24 (100 - 24) else [];
    })
debug_print_bounds_example = debug_print_bounds 100 (omega arith)

client_threads-closed_example :
    ReturnsWith (send_data_run true (descriptor 5) in_progress returns) nothing_held
    × ReturnsWith (send_receive_run true (descriptor 5) in_progress returns) nothing_held
    × ReturnsWith
        (client_thread_run true (descriptor 5) in_progress returns)
        (left_of (descriptor 5) in_progress)
    × ReturnsWith
        (client_main_run (descriptor 5) true in_progress returns)
        (left_of_main (descriptor 5) true in_progress)
client_threads-closed_example = client_threads-closed true true (descriptor 5) in_progress returns

-- Two clients come, and then accept fails.
abbrev given : List Descriptor
given = descriptor 4 ∷ descriptor 5 ∷ minus_one ∷ []
