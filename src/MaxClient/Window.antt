-- ===== src/MaxClient/Window.antt =====
-- The window of sends in flight, and the sends that failed.
use fast_net.Base.{
  ℕ, zero, suc, ◌+◌, ◌^◌, ◌≤◌, ◌<◌, ◌≡◌, refl, inl, inr, true, false, List, [], ◌∷◌, arith, length,
  Bool-cases,
}
use fast_net.Uring.{Res, bytes, error}
use fast_net.MaxClient.{Sender, Round, may_send, send_loop, complete, round}

-- How many completions report a failure.
abbrev pub failures : List Res → ℕ
failures [] = 0
failures (error e ∷ rs) = suc (failures rs)
failures (bytes n ∷ rs) = failures rs

-- `failed` counts the sends that were reported as failed. What is in flight fits into the ring.
pub record Window (ring_size local_num_requests failed : ℕ) (s : Sender) : Type 0 where
  pub finished : s.requests_completed + failed ≤ s.requests_sent
  pub in_range : s.requests_sent ≤ local_num_requests
  pub in_window : s.requests_sent ≤ s.requests_completed + ring_size

-- The ring completes only what is in flight.
abbrev pub Honest : ℕ → ℕ → List Round → ℕ → Sender → Type 0
Honest ring_size n [] failed s = Unit
Honest ring_size n (r ∷ rs) failed s =
    (s.requests_completed + failed + length r.results
      ≤ (send_loop ring_size n r.free s).requests_sent)
    × Honest ring_size n rs (failed + failures r.results) (round ring_size n r s)

module _ (ring_size local_num_requests : ℕ) (small : local_num_requests < 2 ^ 64) where
  abbrev Ok : ℕ → Sender → Type 0
  Ok = Window ring_size local_num_requests

  may_send-Window :
      (failed : ℕ) (s : Sender)
      → may_send ring_size local_num_requests s ≡ true
      → Ok failed s
      → Ok failed (record s { requests_sent = s.requests_sent + 1 })
  unfolding may_send
  may_send-Window failed s may w = ground arith

  pub send_loop-Window :
      (free failed : ℕ) (s : Sender)
      → Ok failed s
      → Ok failed (send_loop ring_size local_num_requests free s)
        × ((send_loop ring_size local_num_requests free s).requests_completed
            ≡ s.requests_completed)
        × (s.requests_sent ≤ (send_loop ring_size local_num_requests free s).requests_sent)
  unfolding send_loop
  send_loop-Window zero failed s w = (w, refl, omega arith)
  send_loop-Window (suc free) failed s w =
      elim (Bool-cases (may_send ring_size local_num_requests s)) [
        | inl may ↦
            let s' = record s { requests_sent = s.requests_sent + 1 } in
            let (ok, same, more) =
              send_loop-Window free failed s' (may_send-Window failed s may w) in
            rw may (ok, same, omega arith)
        | inr full ↦ rw full (w, refl, omega arith)
      ]

  full-busy :
      (failed : ℕ) (s : Sender)
      → 0 < ring_size
      → s.requests_completed < local_num_requests
      → Ok failed s
      → may_send ring_size local_num_requests s ≡ false
      → s.requests_completed < s.requests_sent
  unfolding may_send
  full-busy failed s ring left w full = ground arith

  -- While something is left to complete, a round with a free entry has something in flight.
  pub send_loop_busy :
      (free failed : ℕ) (s : Sender)
      → 0 < free
      → 0 < ring_size
      → s.requests_completed < local_num_requests
      → Ok failed s
      → s.requests_completed < (send_loop ring_size local_num_requests free s).requests_sent
  unfolding send_loop
  send_loop_busy zero failed s some_free ring left w = absurd (omega arith)
  send_loop_busy (suc free) failed s some_free ring left w =
      elim (Bool-cases (may_send ring_size local_num_requests s)) [
        | inl may ↦
            let s' = record s { requests_sent = s.requests_sent + 1 } in
            let (_, _, more) = send_loop-Window free failed s' (may_send-Window failed s may w) in
            rw may (omega arith)
        | inr full ↦ rw full (full-busy failed s ring left w full)
      ]

  pub complete-Window :
      (rs : List Res) (failed : ℕ) (s : Sender)
      → Ok failed s
      → s.requests_completed + failed + length rs ≤ s.requests_sent
      → Ok (failed + failures rs) (complete ring_size local_num_requests rs s)
  unfolding complete
  complete-Window [] failed s w room = omega arith
  complete-Window (error e ∷ rs) failed s w room =
      let moved : failed + suc (failures rs) ≡ suc failed + failures rs = omega arith in
      rw moved (complete-Window rs (suc failed) s (omega arith) (omega arith))
  complete-Window (bytes n ∷ rs) failed s w room =
      complete-Window rs failed _ (omega arith) (omega arith)

  pub complete-count :
      (rs : List Res) (s : Sender)
      → (complete ring_size local_num_requests rs s).requests_completed + failures rs
        ≡ s.requests_completed + length rs
  unfolding complete
  complete-count [] s = omega arith
  complete-count (error e ∷ rs) s = omega (arith, complete-count rs s)
  complete-count (bytes n ∷ rs) s =
      omega (arith, complete-count rs (record s { requests_completed = s.requests_completed + 1 }))

  pub round-Window :
      (r : Round) (failed : ℕ) (s : Sender)
      → Ok failed s
      → s.requests_completed + failed + length r.results
        ≤ (send_loop ring_size local_num_requests r.free s).requests_sent
      → Ok (failed + failures r.results) (round ring_size local_num_requests r s)
  unfolding round
  round-Window r failed s w room =
      let (ok, same, more) = send_loop-Window r.free failed s w in
      complete-Window r.results failed _ ok (omega arith)
