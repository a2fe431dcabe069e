-- ===== src/MaxServer/Program.antt =====
-- max_server.cpp: `handle_client` and `main` from the loop of accept on. An interleaving of the
-- threads is a list of inputs. Each thread has the heap of its own pool; the two counters are
-- shared. `finished_threads`, an int, is a number without a bound.
use fast_net.Base.{
  ℕ, ◌+◌, Bool, true, false, length, List, [], ◌∷◌, ◌++◌, Option, none, some, leb, if◌then◌else◌,
  get_elem?, set,
}
use fast_net.Pool.{destroy}
use fast_net.MaxServer.{Counters, start_counters, still_waits}
use fast_net.MaxServer.Reads.{Setup, Loop, Event, Outcome, goes_on, returns, start, on_event}

-- Where a thread stands in `handle_client`: before its ring is set up, in its event loop, or behind
-- it.
pub data Thread : Type 0 where
  begun : Thread
  looping : Loop → Thread
  finished : Thread

-- Where `main` stands: in the loop of accept, in the loop that waits, or at the join of the thread
-- with this number; or how the program has ended: from `main`, by exit(EXIT_FAILURE), or by a `free`
-- of what is not allocated.
pub data Phase : Type 0 where
  accepting waiting : Phase
  joining : ℕ → Phase
  shut_down failed crashed : Phase

-- The variables of `main`; its threads are in the order in which they were started.
pub record Program : Type 0 where
  pub phase : Phase
  pub total_bytes_received : ℕ
  pub finished_threads : ℕ
  pub client_threads : List Thread

-- What happens next: a round of the loop that `main` is in, where `true` is a socket from accept;
-- what thread `i` gets from io_uring_queue_init; a completion for thread `i`.
pub data Input : Type 0 where
  main_round : Bool → Input
  queue_init : ℕ → Bool → Input
  completes : ℕ → Event → Input

abbrev pub start_program : Program
start_program = record {
  phase = accepting;
  total_bytes_received = 0;
  finished_threads = 0;
  client_threads = [];
}

abbrev pub is_running : Phase → Bool
is_running accepting = true
is_running waiting = true
is_running (joining i) = true
is_running _ = false

-- `below_95` is the comparison of the percentage, a double, with 95.
module _ (c : Setup) (clients : ℕ) (below_95 : ℕ → ℕ → Bool) (expected_total_bytes : ℕ) where
  -- `i` clients have come.
  unfoldable pub accept_round : ℕ → Bool → Program → Program
  accept_round i accepted p =
      if leb clients i
      then record p { phase = waiting }
      else if accepted
      then record p { client_threads = p.client_threads ++ (begun ∷ []) }
      else record p { phase = failed }

  abbrev pub counters : Program → Counters
  counters p = record start_counters {
    total_bytes_received = p.total_bytes_received;
    finished_threads = p.finished_threads;
  }

  unfoldable pub wait_round : Program → Program
  wait_round p =
      if still_waits below_95 expected_total_bytes (counters p)
      then p
      else record p { phase = joining 0 }

  -- Joins a thread that has ended; behind the last one `main` closes its socket and returns.
  unfoldable pub join_round : ℕ → Option Thread → Program → Program
  join_round i none p = record p { phase = shut_down }
  join_round i (some finished) p = record p { phase = joining (i + 1) }
  join_round i (some _) p = p

  -- A thread that has left its event loop: the destructor of its pool, and the count.
  unfoldable pub after_loop : ℕ → Loop → Program → Program
  after_loop i s p = elim (destroy c.allocate_malloc s.world) [
    | none ↦ record p { phase = crashed }
    | some h ↦ record p {
      finished_threads = p.finished_threads + 1;
      client_threads = set p.client_threads i finished;
    }
  ]

  unfoldable pub on_outcome : ℕ → Outcome → Program → Program
  unfolding after_loop
  on_outcome i (goes_on s) p = record p {
    total_bytes_received = s.total_bytes_received;
    client_threads = set p.client_threads i (looping s);
  }
  on_outcome i (returns s) p = after_loop i s p

  -- A thread's loop works on the counter as it stands.
  unfoldable pub thread_event : ℕ → Event → Option Thread → Program → Program
  unfolding on_outcome
  thread_event i e (some (looping s)) p =
      on_outcome i (on_event c e (record s { total_bytes_received = p.total_bytes_received })) p
  thread_event i e _ p = p

  unfoldable pub on_queue_init : ℕ → Bool → Option Thread → Program → Program
  on_queue_init i ok (some begun) p =
      if ok
      then record p {
        client_threads = set p.client_threads i (looping (start c p.total_bytes_received));
      }
      else record p { phase = failed }
  on_queue_init i ok _ p = p

  unfoldable pub thread_input : Input → Program → Program
  unfolding thread_event on_queue_init
  thread_input (main_round accepted) p = p
  thread_input (queue_init i ok) p = on_queue_init i ok (get_elem? p.client_threads i) p
  thread_input (completes i e) p = thread_event i e (get_elem? p.client_threads i) p

  unfoldable pub main_input : Phase → Bool → Program → Program
  unfolding accept_round wait_round join_round
  main_input accepting accepted p = accept_round (length p.client_threads) accepted p
  main_input waiting accepted p = wait_round p
  main_input (joining i) accepted p = join_round i (get_elem? p.client_threads i) p
  main_input _ accepted p = p

  -- Once the program has ended nothing happens.
  unfoldable pub on_input : Input → Program → Program
  unfolding main_input thread_input
  on_input (main_round accepted) p = main_input p.phase accepted p
  on_input input p = if is_running p.phase then thread_input input p else p

  unfoldable pub run_program : List Input → Program → Program
  unfolding on_input
  run_program [] p = p
  run_program (input ∷ inputs) p = run_program inputs (on_input input p)
