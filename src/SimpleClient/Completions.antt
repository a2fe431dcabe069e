-- ===== src/SimpleClient/Completions.antt =====
-- Completions keep the windows of simple_iou_client.cpp.
use fast_net.Base.{ℕ, ◌+◌, ◌/◌, ◌≤◌, ◌≡◌, refl, inl, inr, arith, if◌then◌else◌, Option-cases}
use fast_net.Uring.{Res, bytes, error}
use fast_net.Simple.{
  EventType, read_event, write_event, send_event, recv_event, RequestData, page_buffer_size,
  word_buffer_size, take_out,
}
use fast_net.Simple.Flight.{number, take_out-Taken}
use fast_net.SimpleClient.{
  Job, Thread, Event, num_requests, give_back, complete_one, on_result, on_event,
}
use fast_net.SimpleClient.Rule.{WhileRuns, give_back-WhileRuns}
use fast_net.SimpleClient.Windows.{is_recv, InWindow}

-- The windows while request `q` is off the ring and not yet dealt with.
record OffWindow (j : Job) (q : RequestData) (t : Thread) : Type 0 where
  in_range : t.send_index ≤ num_requests j
  send_window : t.send_index ≤ t.recv_index + j.ring_size / 4
  recv_le : t.recv_index ≤ t.send_index
  recv_window : t.recv_index ≤ t.iterations_received + j.ring_size / 2
  off_missing :
      t.recv_index
      ≡ t.iterations_received + ((if is_recv q then 1 else 0) + number is_recv t.in_flight)

module _ (j : Job) where
  give_back-InWindow :
      (q : RequestData) (size : ℕ) (t : Thread)
      → InWindow j t
      → WhileRuns (InWindow j) (give_back j q size t)
  give_back-InWindow q size t w = give_back-WhileRuns j (InWindow j) q size t w (λ w'. record {
    in_range = w.in_range;
    send_window = w.send_window;
    recv_le = w.recv_le;
    recv_window = w.recv_window;
    missing = w.missing;
  })

  complete_one-InWindow :
      (kind : EventType) (n : ℕ) (q : RequestData) (t : Thread)
      → OffWindow j q t
      → q.event_type ≡ kind
      → WhileRuns (InWindow j) (complete_one j kind n q t)
  unfolding complete_one
  complete_one-InWindow send_event n q t w e =
      give_back-InWindow q word_buffer_size t (ground arith)
  complete_one-InWindow recv_event n q t w e =
      give_back-InWindow q (page_buffer_size j.page_size) _ (ground arith)
  complete_one-InWindow read_event n q t w e = ground arith
  complete_one-InWindow write_event n q t w e = ground arith

  on_result-InWindow :
      (res : Res) (q : RequestData) (t : Thread)
      → OffWindow j q t
      → WhileRuns (InWindow j) (on_result j res q t)
  on_result-InWindow (error e) q t w = tt
  on_result-InWindow (bytes n) q t w = complete_one-InWindow q.event_type n q t w refl

  pub on_event-InWindow :
      (e : Event) (t : Thread) → InWindow j t → WhileRuns (InWindow j) (on_event j e t)
  unfolding on_event
  on_event-InWindow e t w = elim (Option-cases (take_out e.index t.in_flight)) [
    | inl nothing ↦ rw (nothing, on_event) w
    | inr ((q, qs), found) ↦
        let taken = (take_out-Taken e.index t.in_flight q qs found).numbered is_recv in
        rw (found, on_event)
          (on_result-InWindow e.res q (record t { in_flight = qs })
            (record {
              in_range = w.in_range;
              send_window = w.send_window;
              recv_le = w.recv_le;
              recv_window = w.recv_window;
              off_missing = omega (arith, w.missing, taken);
            }))
  ]
