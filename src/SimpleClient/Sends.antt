-- ===== src/SimpleClient/Sends.antt =====
-- Which pages a thread of simple_iou_client.cpp asks for.
use fast_net.Base.{
  zero, suc, ◌∙◌, ℕ, ◌+◌, ◌%◌, ◌^◌, ◌≤◌, ◌<◌, ◌≡◌, refl, ap, sym, inl, inr, true, List, [], ◌∷◌,
  arith, All, All-map, Option-cases,
}
use fast_net.Uring.{Res, bytes, error}
use fast_net.Simple.{
  EventType, read_event, write_event, send_event, recv_event, RequestData, page_buffer_size,
  word_buffer_size, take_out,
}
use fast_net.Simple.Flight.{take_out-Taken}
use fast_net.SimpleClient.{
  Job, Thread, Event, num_requests, may_send, may_receive, send_one, receive_one, give_back,
  complete_one, on_result, on_event, rounds, start,
}
use fast_net.SimpleClient.Rule.{
  Throughout-map, WhileRuns, give_back-WhileRuns, Unstopped, submit_keeps, rounds-Throughout,
}

-- A send carries the page of its own number, and has a number below `n`.
abbrev pub Asks : Job → ℕ → RequestData → EventType → Type 0
Asks j n r send_event =
    (r.seq_number < n) × (r.words ≡ (j.start_index + r.seq_number) % 2 ^ 32 ∷ [])
Asks j n r _ = Unit

abbrev pub IsRequest : Job → ℕ → RequestData → Type 0
IsRequest j n r = (r.seq_owner ≡ j.thread_index) × Asks j n r r.event_type

-- The words of the first `n` requests of a thread, the last first.
abbrev pub requested : Job → ℕ → List ℕ
requested j zero = []
requested j (suc n) = (j.start_index + n) % 2 ^ 32 ∷ requested j n

requested_next :
    (j : Job) (n : ℕ) → (j.start_index + n) % 2 ^ 32 ∷ requested j n ≡ requested j (n + 1)
requested_next j n = let same : suc n ≡ n + 1 = omega arith in ap (requested j) same

-- The sends have the numbers from 0 to `send_index` - 1.
pub record IsNumbered (j : Job) (t : Thread) : Type 0 where
  pub counted : t.send_req_num ≡ t.send_index
  pub in_range : t.send_index ≤ num_requests j
  pub words : t.sent_words ≡ requested j t.send_index
  pub requests : All (IsRequest j t.send_index) t.in_flight

module _ (j : Job) where
  Asks-suc : (n : ℕ) (r : RequestData) (kind : EventType) → Asks j n r kind → Asks j (n + 1) r kind
  Asks-suc n r send_event (less, words) = (omega arith, words)
  Asks-suc n r recv_event h = tt
  Asks-suc n r read_event h = tt
  Asks-suc n r write_event h = tt

  send_one-IsNumbered :
      (t : Thread) → may_send j t ≡ true → IsNumbered j t → IsNumbered j (send_one j t)
  unfolding send_one
  send_one-IsNumbered t may ok =
      let below : t.send_index < num_requests j = ground (arith, may) in
      record {
        counted = omega (arith, ok.counted);
        in_range = omega arith;
        words =
            ap (◌∷◌ ((j.start_index + t.send_index) % 2 ^ 32)) ok.words
            ∙ requested_next j t.send_index;
        requests = (
          (
            refl,
            (
              omega (arith, ok.counted),
              ap (λ k. (j.start_index + k) % 2 ^ 32 ∷ []) (sym ok.counted),
            ),
          ),
          All-map (IsRequest j t.send_index) (IsRequest j (t.send_index + 1))
              (λ r h. (h.0, Asks-suc t.send_index r r.event_type h.1)) t.in_flight ok.requests,
        );
      }

  receive_one-IsNumbered :
      (t : Thread) → may_receive j t ≡ true → IsNumbered j t → IsNumbered j (receive_one j t)
  unfolding receive_one
  receive_one-IsNumbered t may ok = record {
    counted = ok.counted;
    in_range = ok.in_range;
    words = ok.words;
    requests = ((refl, tt), ok.requests);
  }

  give_back-IsNumbered :
      (q : RequestData) (size : ℕ) (t : Thread)
      → IsNumbered j t
      → WhileRuns (IsNumbered j) (give_back j q size t)
  give_back-IsNumbered q size t ok = give_back-WhileRuns j (IsNumbered j) q size t ok (λ w. record {
    counted = ok.counted;
    in_range = ok.in_range;
    words = ok.words;
    requests = ok.requests;
  })

  complete_one-IsNumbered :
      (kind : EventType) (n : ℕ) (q : RequestData) (t : Thread)
      → IsNumbered j t
      → WhileRuns (IsNumbered j) (complete_one j kind n q t)
  unfolding complete_one
  complete_one-IsNumbered send_event n q t ok = give_back-IsNumbered q word_buffer_size t ok
  complete_one-IsNumbered recv_event n q t ok =
      give_back-IsNumbered q (page_buffer_size j.page_size) _ (record {
        counted = ok.counted;
        in_range = ok.in_range;
        words = ok.words;
        requests = ok.requests;
      })
  complete_one-IsNumbered read_event n q t ok = ok
  complete_one-IsNumbered write_event n q t ok = ok

  on_result-IsNumbered :
      (res : Res) (q : RequestData) (t : Thread)
      → IsNumbered j t
      → WhileRuns (IsNumbered j) (on_result j res q t)
  on_result-IsNumbered (error e) q t ok = tt
  on_result-IsNumbered (bytes n) q t ok = complete_one-IsNumbered q.event_type n q t ok

  on_event-IsNumbered :
      (e : Event) (t : Thread) → IsNumbered j t → WhileRuns (IsNumbered j) (on_event j e t)
  unfolding on_event
  on_event-IsNumbered e t ok = elim (Option-cases (take_out e.index t.in_flight)) [
    | inl nothing ↦ rw (nothing, on_event) ok
    | inr ((q, qs), found) ↦
        let (_, rest) =
          (take_out-Taken e.index t.in_flight q qs found).split_all (IsRequest j t.send_index)
            ok.requests in
        rw (found, on_event)
          (on_result-IsNumbered e.res q (record t { in_flight = qs })
            (record {
              counted = ok.counted;
              in_range = ok.in_range;
              words = ok.words;
              requests = rest;
            }))
  ]

  start-IsNumbered : IsNumbered j (start j)
  unfolding start
  start-IsNumbered = record { counted = refl; in_range = omega arith; words = refl; requests = tt }

pub rounds-IsNumbered_from :
    (j : Job) (ess : List (List Event)) → Unstopped (IsNumbered j) (rounds j ess (start j))
rounds-IsNumbered_from j ess =
    let N = IsNumbered j in
    rounds-Throughout j N N Unit
      (submit_keeps j N (send_one-IsNumbered j) (receive_one-IsNumbered j)) (on_event-IsNumbered j)
      (λ t over ok. ok) (λ t enough ok. ok) ess (start j) (start-IsNumbered j)

-- With fewer than 2^31 requests, whatever completes and in whatever order: a thread has submitted
-- `send_index` sends, no more than it has requests, numbered from 0 on, and this number fits an int.
-- The words that it has handed to the ring are the numbers of its first `send_index` requests, each
-- modulo 2^32, in order, and each send in flight holds the one of its number.
pub rounds-IsNumbered :
    (j : Job) (ess : List (List Event))
    → num_requests j < 2 ^ 31
    → Unstopped (λ t. IsNumbered j t × (t.send_index < 2 ^ 31)) (rounds j ess (start j))
rounds-IsNumbered j ess small =
    let N = IsNumbered j in
    let M : Thread → Type 0 = λ t. IsNumbered j t × (t.send_index < 2 ^ 31) in
    Throughout-map N M N M (rounds j ess (start j)) (λ t ok. (ok, omega (arith, ok.in_range)))
      (λ t ok. (ok, omega (arith, ok.in_range))) (rounds-IsNumbered_from j ess)
