-- ===== src/SimpleServer.antt =====
-- simple_iou_server.cpp: the event loop of one connection. Each event is a completion: which of the
-- requests in flight it is for, its result, and the word that the kernel has put into the buffer.
pub mod Buffers
pub mod Leak
pub mod Echo
pub mod Program
pub mod Shutdown
pub mod Ending
use fast_net.Base.{
  ℕ, zero, suc, ◌+◌, ◌/◌, ◌%◌, ◌^◌, Bool, true, false, ◌&&◌, List, [], ◌∷◌, Option, none, some, ltb,
  ◌==◌, if◌then◌else◌, replicate,
}
use fast_net.Uring.{Res, bytes, error}
use fast_net.Pool.{World, no_heap, construct, allocate, deallocate}
use fast_net.Simple.{
  EventType, read_event, write_event, send_event, recv_event, RequestData, page_buffer_size,
  word_buffer_size, take_out,
}

-- The macros of simple_consts.hpp, and the number of the connection.
pub record Setup : Type 0 where
  pub allocate_malloc : Bool
  pub verify : Bool
  pub page_size : ℕ
  pub ring_size : ℕ
  pub num_requests : ℕ
  pub initial_capacity : ℕ
  pub client_num : ℕ

-- The local variables of `event_loop`, and the requests that the ring holds.
pub record Loop : Type 0 where
  pub world : World
  pub in_flight : List RequestData
  pub read_req_num : ℕ
  pub write_req_num : ℕ

abbrev pub next_num : ℕ → ℕ
next_num n = (n + 1) % 2 ^ 64

abbrev pub blank : ℕ → RequestData
blank address = record {
  address = address;
  seq_owner = 0;
  seq_number = 0;
  event_type = read_event;
  buffer_offset = 0;
  words = [];
}

-- The request, its fields set, goes to the ring.
unfoldable pub add_read_request : ℕ → ℕ → RequestData → List RequestData → List RequestData
add_read_request seq1 seq2 req ring =
    record req { seq_owner = seq1; seq_number = seq2; event_type = read_event; buffer_offset = 0 }
    ∷ ring

unfoldable pub add_write_request : ℕ → ℕ → RequestData → List RequestData → List RequestData
add_write_request seq1 seq2 req ring =
    record req { seq_owner = seq1; seq_number = seq2; event_type = write_event; buffer_offset = 0 }
    ∷ ring

-- What an event leads to: the loop goes on, or `event_loop` returns its value; a fault is a
-- `free` of what is not allocated.
pub data Outcome : Type 0 where
  goes_on : Loop → Outcome
  returns : Bool → Loop → Outcome
  fault : Outcome

pub record Event : Type 0 where
  pub index : ℕ
  pub res : Res
  pub word : ℕ

-- cqe->res == 0
abbrev pub is_end : Res → Bool
is_end (bytes n) = n == 0
is_end (error e) = false

abbrev pub and_then : Outcome → (Loop → Outcome) → Outcome
and_then (goes_on s) f = f s
and_then (returns result s) f = returns result s
and_then fault f = fault

module _ (c : Setup) where
  abbrev pub buffer_size : ℕ
  buffer_size = page_buffer_size c.page_size

  -- The loop that submits the first reads.
  unfoldable pub first_reads : ℕ → Loop → Loop
  unfolding add_read_request
  first_reads zero s = s
  first_reads (suc n) s =
      let (response, w) = allocate c.allocate_malloc buffer_size s.world in
      first_reads n (record s {
        world = w;
        in_flight = add_read_request c.client_num s.read_req_num (blank response) s.in_flight;
        read_req_num = next_num s.read_req_num;
      })

  abbrev pub before_reads : Loop
  before_reads = record {
    world =
        construct c.allocate_malloc (buffer_size ∷ word_buffer_size ∷ []) c.initial_capacity
          no_heap;
    in_flight = [];
    read_req_num = 0;
    write_req_num = 0;
  }

  unfoldable pub start : Loop
  unfolding first_reads
  start = first_reads (c.ring_size / 4) before_reads

  -- READ_EVENT, behind the test for the end of the connection: `page_number` the bit pattern of the first word of
  -- `req->buffer`, an int32_t, negative from 2^31 on.
  unfoldable pub answer_request : ℕ → RequestData → Loop → Loop
  unfolding add_read_request add_write_request
  answer_request page_number req s =
      let (response, w) = allocate c.allocate_malloc buffer_size s.world in
      let filled = record (blank response) { words = replicate c.page_size page_number } in
      record {
        world = w;
        in_flight =
            add_read_request c.client_num s.read_req_num req
              (add_write_request c.client_num s.write_req_num filled s.in_flight);
        read_req_num = next_num s.read_req_num;
        write_req_num = next_num s.write_req_num;
      }

  unfoldable pub on_read : Res → ℕ → RequestData → Loop → Outcome
  unfolding answer_request
  on_read res page_number req s =
      if is_end res
      then returns true s
      else if c.verify && (ltb c.num_requests page_number && ltb page_number (2 ^ 31))
      then returns false s
      else goes_on (answer_request page_number req s)

  unfoldable pub on_write : RequestData → Loop → Outcome
  on_write req s = elim (deallocate c.allocate_malloc req.address buffer_size s.world) [
    | none ↦ fault
    | some w ↦ goes_on (record s { world = w })
  ]

  -- The switch; `s` no longer has `req` in flight.
  unfoldable pub dispatch : EventType → Res → ℕ → RequestData → Loop → Outcome
  unfolding on_read on_write
  dispatch read_event res page_number req s = on_read res page_number req s
  dispatch write_event res page_number req s = on_write req s
  dispatch send_event res page_number req s = goes_on s
  dispatch recv_event res page_number req s = goes_on s

  -- One round of the loop; without a request the completion's data is null.
  unfoldable pub on_event : Event → Loop → Outcome
  unfolding dispatch
  on_event e s = elim (take_out e.index s.in_flight) [
    | none ↦ returns false s
    | some (req, rest) ↦ dispatch req.event_type e.res e.word req (record s { in_flight = rest })
  ]

  unfoldable pub event_loop : List Event → Loop → Outcome
  unfolding on_event
  event_loop [] s = goes_on s
  event_loop (e ∷ es) s = and_then (on_event e s) (event_loop es)
