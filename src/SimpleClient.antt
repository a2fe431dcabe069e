-- ===== src/SimpleClient.antt =====
-- simple_iou_client.cpp: one client thread up to the end of its loop. Each round of the loop takes
-- from outside the completions that have come: for which request in flight, and its result. Timing
-- and printing are left out.
pub mod Windows
pub mod Holding
pub mod Ownership
pub mod Completions
pub mod Rule
pub mod Verify
pub mod Sends
pub mod Answered
pub mod Early
pub mod Report
pub mod Program
pub mod Builds
use fast_net.Base.{
  ℕ, zero, suc, ◌+◌, ◌-◌, ◌*◌, ◌/◌, ◌%◌, ◌^◌, Bool, true, false, ◌&&◌, ◌||◌, List, [], ◌∷◌, ◌++◌,
  Option, none, some, ltb, leb, ◌==◌, if◌then◌else◌,
}
use fast_net.Uring.{Res, bytes, error}
use fast_net.Ranges.{Range, thread_start, thread_end}
use fast_net.Pool.{World, no_heap, construct, allocate, deallocate}
use fast_net.Simple.{
  EventType, read_event, write_event, send_event, recv_event, RequestData, page_buffer_size,
  word_buffer_size, sizeof_word, take_out,
}

-- The loop in `main` over the threads: the range of thread `i`.
unfoldable pub thread_range : ℕ → ℕ → ℕ → Range
thread_range num_requests client_threads i =
    (thread_start num_requests client_threads i, thread_end num_requests client_threads i)

-- The macros of simple_consts.hpp and the arguments of `send_receive_data`.
pub record Job : Type 0 where
  pub allocate_malloc : Bool
  pub verify : Bool
  pub page_size : ℕ
  pub ring_size : ℕ
  pub initial_capacity : ℕ
  pub start_index : ℕ
  pub end_index : ℕ
  pub thread_index : ℕ

-- The local variables, and the requests that the ring holds; `sent_words` are the words that have
-- been handed to the ring to be sent, the last first; `recvs` exists under VERIFY only, and
-- is empty else.
pub record Thread : Type 0 where
  pub world : World
  pub in_flight : List RequestData
  pub send_index : ℕ
  pub recv_index : ℕ
  pub iterations_received : ℕ
  pub total_received : ℕ
  pub recvs : List RequestData
  pub sent_words : List ℕ
  pub send_req_num : ℕ
  pub recv_req_num : ℕ

pub record Event : Type 0 where
  pub index : ℕ
  pub res : Res

-- How far the thread has come: it runs, it has called exit(EXIT_FAILURE), or it has given to `free`
-- what is not allocated.
pub data Status : Type 0 where
  runs : Thread → Status
  failed : Status
  fault : Status

abbrev pub and_then : Status → (Thread → Status) → Status
and_then (runs t) f = f t
and_then failed f = failed
and_then fault f = fault

-- `left` holds the variables of a thread that has left its loop, `inside` those of one that has
-- not.
pub data Progress : Type 0 where
  left inside : Thread → Progress
  stopped : Status → Progress

abbrev pub behind : Status → (Thread → Progress) → Progress
behind (runs t) f = f t
behind failed f = stopped failed
behind fault f = stopped fault

module _ (j : Job) where
  abbrev pub num_requests : ℕ
  num_requests = (j.end_index + 2 ^ 64 - j.start_index) % 2 ^ 64

  abbrev pub total_expected : ℕ
  total_expected = num_requests * j.page_size * sizeof_word % 2 ^ 64

  -- The tests of the two inner loops; the differences are those of ints, and so without wrap.
  abbrev pub may_send : Thread → Bool
  may_send t = ltb t.send_index num_requests && ltb t.send_index (t.recv_index + j.ring_size / 4)

  abbrev pub may_receive : Thread → Bool
  may_receive t =
      ltb t.recv_index t.send_index && ltb t.recv_index (t.iterations_received + j.ring_size / 2)

  -- One send: a buffer of one word, which holds the number of the page that is asked for.
  unfoldable pub send_one : Thread → Thread
  send_one t =
      let (b, w) = allocate j.allocate_malloc word_buffer_size t.world in
      let request : RequestData = record {
        address = b;
        seq_owner = j.thread_index;
        seq_number = t.send_req_num;
        event_type = send_event;
        buffer_offset = 0;
        words = (j.start_index + t.send_index) % 2 ^ 32 ∷ [];
      } in
      record t {
        world = w;
        in_flight = request ∷ t.in_flight;
        sent_words = request.words ++ t.sent_words;
        send_index = t.send_index + 1;
        send_req_num = (t.send_req_num + 1) % 2 ^ 64;
      }

  -- One receive into a buffer of a page.
  unfoldable pub receive_one : Thread → Thread
  receive_one t =
      let (b, w) = allocate j.allocate_malloc (page_buffer_size j.page_size) t.world in
      let request : RequestData = record {
        address = b;
        seq_owner = j.thread_index;
        seq_number = t.recv_req_num;
        event_type = recv_event;
        buffer_offset = 0;
        words = [];
      } in
      record t {
        world = w;
        in_flight = request ∷ t.in_flight;
        recv_index = t.recv_index + 1;
        recv_req_num = (t.recv_req_num + 1) % 2 ^ 64;
      }

  -- The inner loops: `fuel` bounds the number of rounds.
  unfoldable pub send_loop : ℕ → Thread → Thread
  send_loop zero t = t
  send_loop (suc fuel) t = let more = send_loop fuel (send_one t) in if may_send t then more else t

  unfoldable pub receive_loop : ℕ → Thread → Thread
  receive_loop zero t = t
  receive_loop (suc fuel) t =
      let more = receive_loop fuel (receive_one t) in if may_receive t then more else t

  -- Both, as a round makes them. The fuel is more than either condition of a loop lets it have
  -- rounds, so that it is the conditions that end the loops.
  abbrev pub send_fuel : Thread → ℕ
  send_fuel t = num_requests + (t.recv_index + j.ring_size) + 1

  abbrev pub receive_fuel : Thread → ℕ
  receive_fuel t = t.send_index + (t.iterations_received + j.ring_size) + 1

  unfoldable pub submit_sends : Thread → Thread
  unfolding send_loop
  submit_sends t = send_loop (send_fuel t) t

  unfoldable pub submit : Thread → Thread
  unfolding submit_sends receive_loop
  submit t = let sent = submit_sends t in receive_loop (receive_fuel sent) sent

  -- Under VERIFY no buffer is given back.
  abbrev pub give_back : RequestData → ℕ → Thread → Status
  give_back req size t =
      if j.verify then runs t else elim (deallocate j.allocate_malloc req.address size t.world) [
        | none ↦ fault
        | some w ↦ runs (record t { world = w })
      ]

  -- A copy of the request, which holds how many bytes it has brought.
  abbrev pub keep_received : RequestData → ℕ → List RequestData → List RequestData
  keep_received req n recvs =
      if j.verify then recvs ++ (record req { buffer_offset = n } ∷ []) else recvs

  -- What is done with a completed request that is off the ring.
  unfoldable pub complete_one : EventType → ℕ → RequestData → Thread → Status
  complete_one send_event n req t = give_back req word_buffer_size t
  complete_one recv_event n req t = give_back req (page_buffer_size j.page_size) (record t {
    total_received = (t.total_received + n) % 2 ^ 64;
    iterations_received = t.iterations_received + 1;
    recvs = keep_received req n t.recvs;
  })
  complete_one read_event n req t = runs t
  complete_one write_event n req t = runs t

  abbrev pub on_result : Res → RequestData → Thread → Status
  on_result (error e) req t = failed
  on_result (bytes n) req t = complete_one req.event_type n req t

  -- An index beyond the requests in flight stands for no completion.
  unfoldable pub on_event : Event → Thread → Status
  unfolding complete_one
  on_event e t = elim (take_out e.index t.in_flight) [
    | none ↦ runs t
    | some (req, rest) ↦ on_result e.res req (record t { in_flight = rest })
  ]

  unfoldable pub complete : List Event → Thread → Status
  unfolding on_event
  complete [] t = runs t
  complete (e ∷ es) t = and_then (on_event e t) (complete es)

  unfoldable pub round : List Event → Thread → Status
  unfolding submit complete
  round es t = complete es (submit t)

  -- The test of the outer loop, and the one that breaks out of it.
  abbrev pub has_more : Thread → Bool
  has_more t = ltb t.send_index num_requests || ltb t.recv_index num_requests

  abbrev pub has_all : Thread → Bool
  has_all t = leb total_expected t.total_received && leb num_requests t.send_index

  -- The outer loop over the rounds that happen.
  unfoldable pub rounds : List (List Event) → Thread → Progress
  unfolding round
  rounds [] t = if has_more t then inside t else left t
  rounds (es ∷ ess) t =
      let rest = behind (round es t) (λ u. if has_all u then left u else rounds ess u) in
      if has_more t then rest else left t

  unfoldable pub start : Thread
  start = record {
    world =
        construct j.allocate_malloc (page_buffer_size j.page_size ∷ word_buffer_size ∷ [])
          j.initial_capacity no_heap;
    in_flight = [];
    send_index = 0;
    recv_index = 0;
    iterations_received = 0;
    total_received = 0;
    recvs = [];
    sent_words = [];
    send_req_num = 0;
    recv_req_num = 0;
  }
