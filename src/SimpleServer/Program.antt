-- ===== src/SimpleServer/Program.antt =====
-- simple_iou_server.cpp: `handle_client` and `main` from the loop of accept on. An interleaving of
-- the threads is a list of inputs. Each thread has the heap of its own pool. `finished_threads`, an
-- int, is a number without a bound.
use fast_net.Base.{
  ℕ, ◌+◌, Bool, List, [], ◌∷◌, ◌++◌, Option, none, some, ltb, leb, if◌then◌else◌, get_elem?, set,
}
use fast_net.Pool.{destroy}
use fast_net.SimpleServer.{Setup, Loop, start, Outcome, goes_on, returns, fault, Event, on_event}

-- Where a thread stands in `handle_client`, with the number of its client: before its ring is set
-- up, in its event loop, or behind it.
pub data Thread : Type 0 where
  begun : ℕ → Thread
  looping : ℕ → Loop → Thread
  finished : Thread

-- Where `main` stands, or how the program has ended: from `main`, by exit(EXIT_FAILURE), or by a
-- `free` of what is not allocated.
pub data Phase : Type 0 where
  accepting waiting shut_down failed crashed : Phase

-- The variables of `main`, and its threads in the order in which they were started.
pub record Program : Type 0 where
  pub phase : Phase
  pub client_num : ℕ
  pub finished_threads : ℕ
  pub threads : List Thread

-- What happens next: a round of the loop that `main` is in, where `true` is a socket from accept;
-- what thread `i` gets from io_uring_queue_init; a completion for thread `i`.
pub data Input : Type 0 where
  main_round : Bool → Input
  queue_init : ℕ → Bool → Input
  completes : ℕ → Event → Input

abbrev pub start_program : Program
start_program = record { phase = accepting; client_num = 0; finished_threads = 0; threads = [] }

module _ (c : Setup) (client_threads : ℕ) where
  abbrev pub numbered : ℕ → Setup
  numbered client = record c { client_num = client }

  -- A new thread.
  abbrev pub spawn : Program → Program
  spawn p = record p {
    client_num = p.client_num + 1;
    threads = p.threads ++ (begun p.client_num ∷ []);
  }

  -- A round of the loop of accept, and one of the loop that waits.
  unfoldable pub accept_round : Bool → Program → Program
  accept_round accepted p =
      if leb client_threads p.client_num
      then record p { phase = waiting }
      else if accepted
      then spawn p
      else record p { phase = failed }

  unfoldable pub wait_round : Program → Program
  wait_round p = if ltb p.finished_threads p.client_num then p else record p { phase = shut_down }

  -- Behind `event_loop`: the destructor of its pool, the test of its value, and the count.
  unfoldable pub after_loop : ℕ → Bool → Loop → Program → Program
  after_loop i result s p = elim (destroy c.allocate_malloc s.world) [
    | none ↦ record p { phase = crashed }
    | some h ↦
        if result
        then record p {
          finished_threads = p.finished_threads + 1;
          threads = set p.threads i finished;
        }
        else record p { phase = failed }
  ]

  unfoldable pub on_outcome : ℕ → ℕ → Outcome → Program → Program
  unfolding after_loop
  on_outcome i client (goes_on s) p = record p { threads = set p.threads i (looping client s) }
  on_outcome i client (returns result s) p = after_loop i result s p
  on_outcome i client fault p = record p { phase = crashed }

  -- What a thread does with a completion, and with its ring; without such a thread nothing happens.
  unfoldable pub on_completion : ℕ → Event → Option Thread → Program → Program
  unfolding on_outcome
  on_completion i e (some (looping client s)) p =
      on_outcome i client (on_event (numbered client) e s) p
  on_completion i e _ p = p

  unfoldable pub on_queue_init : ℕ → Bool → Option Thread → Program → Program
  on_queue_init i ok (some (begun client)) p =
      if ok
      then record p { threads = set p.threads i (looping client (start (numbered client))) }
      else record p { phase = failed }
  on_queue_init i ok _ p = p

  unfoldable pub thread_input : Input → Program → Program
  unfolding on_completion on_queue_init
  thread_input (main_round accepted) p = p
  thread_input (queue_init i ok) p = on_queue_init i ok (get_elem? p.threads i) p
  thread_input (completes i e) p = on_completion i e (get_elem? p.threads i) p

  -- Once the program has ended nothing happens.
  unfoldable pub on_input : Phase → Input → Program → Program
  unfolding accept_round wait_round thread_input
  on_input accepting (main_round accepted) p = accept_round accepted p
  on_input waiting (main_round accepted) p = wait_round p
  on_input accepting input p = thread_input input p
  on_input waiting input p = thread_input input p
  on_input _ input p = p

  unfoldable pub run_program : List Input → Program → Program
  unfolding on_input
  run_program [] p = p
  run_program (input ∷ inputs) p = run_program inputs (on_input p.phase input p)
