-- ===== src/SimpleClient/Windows.antt =====
-- The windows of simple_iou_client.cpp: how far sends run before receives, and receives before
-- responses; and how many entries a round takes from the submission ring.
use fast_net.Base.{
  ℕ, zero, suc, ◌+◌, ◌-◌, ◌/◌, ◌^◌, ◌≤◌, ◌<◌, ◌≡◌, refl, inl, inr, Bool, true, false, ◌∙◌, arith,
  Bool-cases,
}
use fast_net.Simple.{recv_event, RequestData}
use fast_net.Simple.Flight.{number}
use fast_net.SimpleClient.{
  Job, Thread, num_requests, may_send, may_receive, send_one, receive_one, send_loop, receive_loop,
  send_fuel, receive_fuel, submit_sends, submit, start,
}

abbrev pub is_recv : RequestData → Bool
is_recv r = elim r.event_type [ recv_event ↦ true | _ ↦ false ]

-- Receives run behind sends and before responses, within their windows; the receives in flight are
-- those whose response is still missing.
pub record InWindow (j : Job) (t : Thread) : Type 0 where
  pub in_range : t.send_index ≤ num_requests j
  pub send_window : t.send_index ≤ t.recv_index + j.ring_size / 4
  pub recv_le : t.recv_index ≤ t.send_index
  pub recv_window : t.recv_index ≤ t.iterations_received + j.ring_size / 2
  pub missing : t.recv_index ≡ t.iterations_received + number is_recv t.in_flight

-- The counters that the code keeps in ints.
abbrev pub FitsInt : Thread → Type 0
FitsInt t = (t.send_index < 2 ^ 31) × (t.recv_index < 2 ^ 31) × (t.iterations_received < 2 ^ 31)

pub InWindow-FitsInt : (j : Job) (t : Thread) → num_requests j < 2 ^ 31 → InWindow j t → FitsInt t
InWindow-FitsInt j t small w = (
  omega (arith, w.in_range),
  omega (arith, w.in_range, w.recv_le),
  omega (arith, w.in_range, w.recv_le, w.missing),
)

module _ (j : Job) where
  send_one-InWindow : (t : Thread) → may_send j t ≡ true → InWindow j t → InWindow j (send_one j t)
  unfolding send_one
  send_one-InWindow t may w = ground arith

  receive_one-InWindow :
      (t : Thread) → may_receive j t ≡ true → InWindow j t → InWindow j (receive_one j t)
  unfolding receive_one
  receive_one-InWindow t may w = ground arith

  send_one_recv :
      (t : Thread)
      → ((send_one j t).recv_index ≡ t.recv_index) × ((send_one j t).send_index ≡ t.send_index + 1)
  unfolding send_one
  send_one_recv t = (refl, refl)

  receive_one_send :
      (t : Thread)
      → ((receive_one j t).send_index ≡ t.send_index)
        × ((receive_one j t).iterations_received ≡ t.iterations_received)
        × ((receive_one j t).recv_index ≡ t.recv_index + 1)
  unfolding receive_one
  receive_one_send t = (refl, refl, refl)

  -- The first inner loop keeps the windows, and leaves off where its test fails.
  send_loop-InWindow :
      (fuel : ℕ) (t : Thread)
      → InWindow j t
      → num_requests j < t.send_index + fuel
      → InWindow j (send_loop j fuel t)
        × ((send_loop j fuel t).recv_index ≡ t.recv_index)
        × (may_send j (send_loop j fuel t) ≡ false)
        × (t.send_index ≤ (send_loop j fuel t).send_index)
  unfolding send_loop
  send_loop-InWindow zero t w enough = absurd (omega (arith, w.in_range))
  send_loop-InWindow (suc fuel) t w enough = elim (Bool-cases (may_send j t)) [
    | inl may ↦
        let (same, one_more) = send_one_recv t in
        let (w', same', over, more) =
          send_loop-InWindow fuel (send_one j t) (send_one-InWindow t may w) (omega arith) in
        rw may (w', omega arith, over, omega arith)
    | inr over ↦ rw over (w, refl, over, omega arith)
  ]

  receive_loop-InWindow :
      (fuel : ℕ) (t : Thread)
      → InWindow j t
      → t.send_index < t.recv_index + fuel
      → InWindow j (receive_loop j fuel t)
        × ((receive_loop j fuel t).send_index ≡ t.send_index)
        × ((receive_loop j fuel t).iterations_received ≡ t.iterations_received)
        × (may_receive j (receive_loop j fuel t) ≡ false)
        × (t.recv_index ≤ (receive_loop j fuel t).recv_index)
  unfolding receive_loop
  receive_loop-InWindow zero t w enough = absurd (omega (arith, w.recv_le))
  receive_loop-InWindow (suc fuel) t w enough = elim (Bool-cases (may_receive j t)) [
    | inl may ↦
        let (same, still, one_more) = receive_one_send t in
        let (w', same', still', over, more) =
          receive_loop-InWindow fuel (receive_one j t) (receive_one-InWindow t may w)
            (omega arith) in
        rw may (w', omega arith, omega arith, over, omega arith)
    | inr over ↦ rw over (w, refl, refl, over, omega arith)
  ]

  -- A round keeps the windows and fits the ring, and its loops leave off where their tests fail.
  pub submit-InWindow :
      (t : Thread)
      → InWindow j t
      → InWindow j (submit j t)
        × ((submit j t).send_index - t.send_index + ((submit j t).recv_index - t.recv_index)
            ≤ j.ring_size)
        × (may_send j (submit_sends j t) ≡ false)
        × (may_receive j (submit j t) ≡ false)
  unfolding submit submit_sends
  submit-InWindow t w =
      let sent = submit_sends j t in
      let (w', same, full, more) = send_loop-InWindow (send_fuel j t) t w (omega arith) in
      let (w'', same', still, over, more') =
        receive_loop-InWindow (receive_fuel j sent) sent w' (omega arith) in
      (w'', omega arith, full, over)

  -- With fewer than 2^31 requests and in a state with its windows in order, a round takes no more
  -- than RING_SIZE entries from the submission ring, so that no call of io_uring_get_sqe on an empty
  -- ring of that size gives null; it keeps the windows, its counters fit an int, and each of its two
  -- loops leaves off where its own test fails.
  pub submit_fits :
      (t : Thread)
      → num_requests j < 2 ^ 31
      → InWindow j t
      → InWindow j (submit j t)
        × FitsInt (submit j t)
        × ((submit j t).send_index - t.send_index + ((submit j t).recv_index - t.recv_index)
            ≤ j.ring_size)
        × (may_send j (submit_sends j t) ≡ false)
        × (may_receive j (submit j t) ≡ false)
  submit_fits t small w =
      let (w', fits, full, over) = submit-InWindow t w in
      (w', InWindow-FitsInt j (submit j t) small w', fits, full, over)

  -- Submitting receives nothing.
  send_loop-received :
      (fuel : ℕ) (t : Thread)
      → ((send_loop j fuel t).iterations_received ≡ t.iterations_received)
        × ((send_loop j fuel t).total_received ≡ t.total_received)
  unfolding send_loop send_one
  send_loop-received zero t = (refl, refl)
  send_loop-received (suc fuel) t = elim (Bool-cases (may_send j t)) [
    | inl may ↦ rw may (send_loop-received fuel (send_one j t))
    | inr over ↦ rw over (refl, refl)
  ]

  receive_loop-received :
      (fuel : ℕ) (t : Thread)
      → ((receive_loop j fuel t).iterations_received ≡ t.iterations_received)
        × ((receive_loop j fuel t).total_received ≡ t.total_received)
  unfolding receive_loop receive_one
  receive_loop-received zero t = (refl, refl)
  receive_loop-received (suc fuel) t = elim (Bool-cases (may_receive j t)) [
    | inl may ↦ rw may (receive_loop-received fuel (receive_one j t))
    | inr over ↦ rw over (refl, refl)
  ]

  pub submit-received :
      (t : Thread)
      → ((submit j t).iterations_received ≡ t.iterations_received)
        × ((submit j t).total_received ≡ t.total_received)
  unfolding submit submit_sends
  submit-received t =
      let sent = submit_sends j t in
      let (a, b) = send_loop-received (send_fuel j t) t in
      let (c, d) = receive_loop-received (receive_fuel j sent) sent in (c ∙ a, d ∙ b)

  -- With a window for all requests the first round submits them all.
  pub submit_all :
      (t : Thread)
      → InWindow j t
      → t.recv_index ≡ t.iterations_received
      → num_requests j ≤ t.recv_index + j.ring_size / 4
      → ((submit j t).send_index ≡ num_requests j) × ((submit j t).recv_index ≡ num_requests j)
  unfolding submit submit_sends
  submit_all t w idle few =
      let sent = submit_sends j t in
      let got_none = send_loop-received (send_fuel j t) t in
      let (w', same, over, more) = send_loop-InWindow (send_fuel j t) t w (omega arith) in
      let all_sent : sent.send_index ≡ num_requests j = ground arith in
      let (w'', same', still, over', more') =
        receive_loop-InWindow (receive_fuel j sent) sent w' (omega arith) in
      let done = receive_loop j (receive_fuel j sent) sent in
      let all_asked : done.recv_index ≡ num_requests j = ground arith in
      (same' ∙ all_sent, all_asked)

  pub start-InWindow : InWindow j (start j)
  unfolding start
  start-InWindow = omega arith

pub start_zero :
    (j : Job)
    → ((start j).send_index ≡ 0)
      × ((start j).recv_index ≡ 0)
      × ((start j).iterations_received ≡ 0)
      × ((start j).total_received ≡ 0)
unfolding start
start_zero j = (refl, refl, refl, refl)
