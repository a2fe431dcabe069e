-- ===== src/MaxServer.antt =====
-- max_server.cpp: it counts the bytes that all clients send. The threads share the atomic counter
-- `total_bytes_received`; an interleaving of their completions is a list.
pub mod Totals
pub mod Finish
pub mod Reads
pub mod Reading
pub mod Program
pub mod Threads
pub mod Agreement
pub mod Steps
pub mod Shutdown
pub mod Stuck
use fast_net.Base.{
  ℕ, zero, suc, ◌+◌, ◌*◌, ◌%◌, ◌^◌, Bool, true, false, ◌&&◌, List, [], ◌∷◌, Option, none, some,
  ◌==◌, ltb, if◌then◌else◌,
}
use fast_net.Uring.{Res, bytes, error}

abbrev pub u64_mod : ℕ
u64_mod = 2 ^ 64

-- What one thread of `event_loop` does with a completion.
pub data Action : Type 0 where
  reread : ℕ → Action
  close_socket : Action

-- `cqe->res <= 0` ends the loop; else the bytes are counted and the read is submitted again.
unfoldable pub on_completion : Res → Action
on_completion (error e) = close_socket
on_completion (bytes n) = if n == 0 then close_socket else reread n

-- The counters of `main`, and which threads have left their loop.
pub record Counters : Type 0 where
  pub total_bytes_received : ℕ
  pub finished_threads : ℕ
  pub closed : ℕ → Bool

abbrev pub start_counters : Counters
start_counters = record { total_bytes_received = 0; finished_threads = 0; closed = λ i. false }

-- A completion for thread `i`; a thread that has left its loop sees none.
unfoldable pub apply : ℕ → Action → Counters → Counters
apply i (reread n) s = record s { total_bytes_received = (s.total_bytes_received + n) % u64_mod }
apply i close_socket s = record s {
  finished_threads = s.finished_threads + 1;
  closed = λ j. if j == i then true else s.closed j;
}

unfoldable pub step : ℕ × Res → Counters → Counters
unfolding apply
step (i, res) s = if s.closed i then s else apply i (on_completion res) s

unfoldable pub run : List (ℕ × Res) → Counters → Counters
unfolding step
run [] s = s
run (c ∷ cs) s = run cs (step c s)

-- The bytes that `main` waits for; an int32_t has 4.
abbrev pub expected_total_bytes : ℕ → ℕ → ℕ
expected_total_bytes num_requests page_size = num_requests * page_size * 4 % u64_mod

-- The test of the loop in which `main` waits. `below_95` is the comparison of the percentage, a
-- double, with 95.
abbrev pub still_waits : (ℕ → ℕ → Bool) → ℕ → Counters → Bool
still_waits below_95 expected s =
    ltb s.total_bytes_received expected && below_95 s.total_bytes_received expected

-- That loop: each element of the list is what completes while `main` sleeps. `none` where these
-- run out and it still waits.
unfoldable pub wait_loop : (ℕ → ℕ → Bool) → ℕ → List (List (ℕ × Res)) → Counters → Option Counters
unfolding run
wait_loop below_95 expected [] s = if still_waits below_95 expected s then none else some s
wait_loop below_95 expected (cs ∷ css) s =
    let later = wait_loop below_95 expected css (run cs s) in
    if still_waits below_95 expected s then later else some s
