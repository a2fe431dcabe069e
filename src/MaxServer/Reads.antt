-- ===== src/MaxServer/Reads.antt =====
-- max_server.cpp: the event loop of one connection, with its buffers. A completion is of one of the
-- reads in flight. The counter stands as this thread alone changes it.
use fast_net.Base.{ℕ, zero, suc, ◌+◌, ◌%◌, Bool, List, [], ◌∷◌, none, some}
use fast_net.Uring.{Res}
use fast_net.Pool.{World, no_heap, construct, allocate}
use fast_net.Simple.{RequestData, read_event, page_buffer_size, take_out}
use fast_net.MaxServer.{u64_mod, Action, reread, close_socket, on_completion}

-- The macros of simple_consts.hpp.
pub record Setup : Type 0 where
  pub allocate_malloc : Bool
  pub page_size : ℕ
  pub ring_size : ℕ
  pub initial_capacity : ℕ

pub record Loop : Type 0 where
  pub world : World
  pub in_flight : List RequestData
  pub total_bytes_received : ℕ

pub record Event : Type 0 where
  pub index : ℕ
  pub res : Res

-- `returns` holds the variables of a loop that has closed its socket.
pub data Outcome : Type 0 where
  goes_on returns : Loop → Outcome

abbrev pub blank : ℕ → RequestData
blank address = record {
  address = address;
  seq_owner = 0;
  seq_number = 0;
  event_type = read_event;
  buffer_offset = 0;
  words = [];
}

unfoldable pub add_read_request : RequestData → List RequestData → List RequestData
add_read_request req ring = record req { event_type = read_event; buffer_offset = 0 } ∷ ring

module _ (c : Setup) where
  abbrev pub buffer_size : ℕ
  buffer_size = page_buffer_size c.page_size

  -- The loop that submits the first reads.
  unfoldable pub first_reads : ℕ → Loop → Loop
  unfolding add_read_request
  first_reads zero s = s
  first_reads (suc n) s =
      let (req, w) = allocate c.allocate_malloc buffer_size s.world in
      first_reads n (record s { world = w; in_flight = add_read_request (blank req) s.in_flight })

  -- The counter is as the thread finds it.
  abbrev pub before_reads : ℕ → Loop
  before_reads total = record {
    world = construct c.allocate_malloc (buffer_size ∷ []) c.initial_capacity no_heap;
    in_flight = [];
    total_bytes_received = total;
  }

  unfoldable pub start : ℕ → Loop
  unfolding first_reads
  start total = first_reads c.ring_size (before_reads total)

  -- What is done with the read `req`, which is off the ring.
  unfoldable pub act : Action → RequestData → Loop → Outcome
  unfolding add_read_request
  act close_socket req s = returns s
  act (reread n) req s = goes_on (record s {
    total_bytes_received = (s.total_bytes_received + n) % u64_mod;
    in_flight = add_read_request req s.in_flight;
  })

  -- An index beyond the reads in flight stands for no completion.
  unfoldable pub on_event : Event → Loop → Outcome
  unfolding act on_completion
  on_event e s = elim (take_out e.index s.in_flight) [
    | none ↦ goes_on s
    | some (req, rest) ↦ act (on_completion e.res) req (record s { in_flight = rest })
  ]

  abbrev pub and_then : Outcome → (Loop → Outcome) → Outcome
  and_then (goes_on s) f = f s
  and_then (returns s) f = returns s

  unfoldable pub event_loop : List Event → Loop → Outcome
  unfolding on_event
  event_loop [] s = goes_on s
  event_loop (e ∷ es) s = and_then (on_event e s) (event_loop es)
