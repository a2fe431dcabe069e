-- ===== src/BatchClient.antt =====
-- client_iou.cpp: a page client whose threads send and receive in batches through io_uring. What
-- io_uring_wait_cqe gives is an argument: a completion says what it completes and its result, and
-- one of a receive has filled the buffer. A thread is handed the whole vectors of `main`.
pub mod Collecting
pub mod Batch
pub mod Whole
pub mod Unchanged
pub mod Isolation
pub mod Submitted
pub mod Own
use fast_net.Base.{
  ℕ, zero, suc, ◌+◌, ◌-◌, ◌%◌, ◌^◌, Bool, true, false, List, [], ◌∷◌, ◌++◌, Option, none, some, ltb,
  ◌==◌, if◌then◌else◌, length, get_elem?, set, drop, replicate, map,
}
use fast_net.Uring.{Res, bytes, error}
use fast_net.Wire.{
  GetPageRequest, GetPageResponse, request_to_network_order, request_bytes, response_of_bytes,
  response_to_host_order, sizeof_response,
}
use fast_net.Memory.{verify}
use fast_net.Client.{Client, make_request}
use fast_net.Ranges.{Range, thread_start, thread_end, batches}

-- What is handed to the ring: the bytes of a request, or the buffer of a response.
pub data Submission : Type 0 where
  send : ℕ → List ℕ → Submission
  receive : ℕ → Submission

-- What a completion is of; a receive has put its bytes into the buffer of this index.
pub data EventType : Type 0 where
  sent : EventType
  received : ℕ → List ℕ → EventType

pub record Completion : Type 0 where
  pub event_type : EventType
  pub res : Res

-- A call of io_uring_wait_cqe.
pub data Wait : Type 0 where
  wait_failed : Wait
  completed : Completion → Wait

-- Why a thread stops early: it waits for good, it throws std::runtime_error, it divides by
-- Config::page_count at 0, or it leaves a vector.
pub data Outcome {ℓ} (A : Type ℓ) : Type ℓ where
  done : A → Outcome A
  waiting throws division_by_zero out_of_bounds : Outcome A

infixl 5 ◌>>=◌
abbrev pub ◌>>=◌ {ℓ κ} : {B : Type κ} {A : Type ℓ} → Outcome A → (A → Outcome B) → Outcome B
waiting >>= next = waiting
throws >>= next = throws
division_by_zero >>= next = division_by_zero
out_of_bounds >>= next = out_of_bounds
done value >>= next = next value

-- The vectors, and what has been submitted, in order.
pub record Thread : Type 0 where
  pub requests : List GetPageRequest
  pub responses : List (List ℕ)
  pub submitted : List Submission

abbrev pub submit : Submission → Thread → Thread
submit s t = record t { submitted = t.submitted ++ (s ∷ []) }

-- The kernel's part of a receive: the bytes go to the front of the buffer.
abbrev pub fill_front : List ℕ → List ℕ → List ℕ
fill_front brought old = brought ++ drop (length brought) old

unfoldable pub deliver : EventType → Thread → Thread
deliver sent t = t
deliver (received i brought) t = elim (get_elem? t.responses i) [
  | none ↦ t
  | some old ↦ record t { responses = set t.responses i (fill_front brought old) }
]

-- j-- on a size_t, where the completion is one of a send.
abbrev pub step_back : EventType → ℕ → ℕ
step_back sent j = (j + 2 ^ 64 - 1) % 2 ^ 64
step_back (received i brought) j = j

abbrev pub is_error : Res → Bool
is_error (bytes n) = false
is_error (error e) = true

-- The loop over the completions.
unfoldable pub collect : ℕ → ℕ → Thread → List Wait → Outcome (Thread × List Wait)
unfolding deliver
collect num_responses j t [] = if ltb j num_responses then waiting else done (t, [])
collect num_responses j t (wait_failed ∷ ws) =
    if ltb j num_responses then throws else done (t, wait_failed ∷ ws)
collect num_responses j t (completed c ∷ ws) =
    let next =
      collect num_responses ((step_back c.event_type j + 1) % 2 ^ 64) (deliver c.event_type t) ws in
    if ltb j num_responses
    then if is_error c.res then throws else next
    else done (t, completed c ∷ ws)

-- The loop that submits the receives of `n` responses from index `j` on.
unfoldable pub receive_loop : ℕ → ℕ → Thread → Outcome Thread
receive_loop zero j t = done t
receive_loop (suc n) j t = elim (get_elem? t.responses j) [
  | none ↦ out_of_bounds
  | some buffer ↦ receive_loop n (j + 1) (submit (receive j) t)
]

unfoldable pub receive_responses : ℕ → ℕ → Thread → List Wait → Outcome (Thread × List Wait)
unfolding receive_loop collect
receive_responses start end t ws =
    receive_loop (end - start) start t >>= λ t'. collect (end - start) 0 t' ws

pub record Counters : Type 0 where
  pub correct_responses : ℕ
  pub incorrect_responses : ℕ

module _ (c : Client) where
  -- One round of the loop of `send_requests`.
  unfoldable pub prepare_send : ℕ → Thread → Outcome Thread
  prepare_send j t = elim (get_elem? t.requests j) [
    | none ↦ out_of_bounds
    | some old ↦ elim (c.page_count == 0) [
      | true ↦ division_by_zero
      | false ↦
          let request = request_to_network_order c.host (make_request c j) in
          done (
            submit (send j (request_bytes c.host request))
              (record t { requests = set t.requests j request }))
    ]
  ]

  unfoldable pub send_loop : ℕ → ℕ → Thread → Outcome Thread
  unfolding prepare_send
  send_loop zero j t = done t
  send_loop (suc n) j t = prepare_send j t >>= send_loop n (j + 1)

  unfoldable pub send_requests : ℕ → ℕ → Thread → Outcome Thread
  unfolding send_loop
  send_requests start end t = send_loop (end - start) start t

  -- The body of the loop of `client_thread`, and the loop.
  unfoldable pub run_batch : ℕ → ℕ → Thread → List Wait → Outcome (Thread × List Wait)
  unfolding send_requests receive_responses
  run_batch i batch_end t ws =
      send_requests i batch_end t >>= λ t'. receive_responses i batch_end t' ws

  unfoldable pub run_batches : List Range → Thread → List Wait → Outcome (Thread × List Wait)
  unfolding run_batch
  run_batches [] t ws = done (t, ws)
  run_batches ((i, batch_end) ∷ rest) t ws =
      run_batch i batch_end t ws >>= λ r. run_batches rest r.0 r.1

  -- Without a socket a thread does nothing.
  unfoldable pub client_thread : Bool → ℕ → ℕ → Thread → List Wait → Outcome Thread
  unfolding run_batches
  client_thread connected start end t ws =
      if connected
      then (run_batches (batches (end - start + 1) start end) t ws >>= λ r. done r.0)
      else done t

  -- One round of the loop of `verify_responses`; a null pointer is only reported.
  unfoldable pub verify_response : Option (List ℕ) → Counters → Counters
  verify_response none s = s
  verify_response (some buffer) s =
      let r = response_to_host_order c.host (response_of_bytes c.host buffer) in
      if verify c.page_size c.verifier r.content r.header.page_number
      then record s { correct_responses = (s.correct_responses + 1) % 2 ^ 32 }
      else record s { incorrect_responses = (s.incorrect_responses + 1) % 2 ^ 32 }

  unfoldable pub verify_responses : List (Option (List ℕ)) → Counters → Counters
  unfolding verify_response
  verify_responses [] s = s
  verify_responses (r ∷ rs) s = verify_responses rs (verify_response r s)

  -- The threads one after another, from thread `i` on: they share nothing but the vectors, of which
  -- each has its own range. `n` is left of them, of `client_threads`.
  unfoldable pub run_threads :
      (connected : ℕ → Bool) (waits : ℕ → List Wait) (num_requests client_threads n i : ℕ)
      → Thread
      → Outcome Thread
  unfolding client_thread
  run_threads connected waits num_requests client_threads zero i t = done t
  run_threads connected waits num_requests client_threads (suc n) i t =
      client_thread (connected i) (thread_start num_requests client_threads i)
        (thread_end num_requests client_threads i) t (waits i)
      >>= run_threads connected waits num_requests client_threads n (i + 1)

  -- The vectors as `main` makes them: all fields and bytes are zero.
  abbrev pub start : ℕ → Thread
  start num_requests = record {
    requests = replicate num_requests (record { request_id = 0; page_number = 0 });
    responses = replicate num_requests (replicate (sizeof_response c.page_size) 0);
    submitted = [];
  }

  -- `num_requests / Config::client_threads` comes first.
  unfoldable pub main : (connected : ℕ → Bool) (waits : ℕ → List Wait) → ℕ → ℕ → Outcome Counters
  unfolding run_threads verify_responses
  main connected waits num_requests client_threads = elim (client_threads == 0) [
    | true ↦ division_by_zero
    | false ↦
        run_threads connected waits num_requests client_threads client_threads 0
          (start num_requests)
        >>= λ t. done (
            verify_responses (map some t.responses)
              (record { correct_responses = 0; incorrect_responses = 0 }))
  ]
