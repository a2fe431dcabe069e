-- ===== src/MaxClient/Exit.antt =====
-- When a sending thread leaves its loop.
use fast_net.Base.{
  ℕ, ◌+◌, ◌^◌, ◌≤◌, ◌<◌, ◌≡◌, refl, inl, inr, List, [], ◌∷◌, some, arith, ltb, ltb→lt, not_ltb→le,
  le→not_ltb, length, Bool-cases,
}
use fast_net.Uring.{Res, bytes, error}
use fast_net.MaxClient.{Sender, Round, send_loop, round, send_data, start_sender}
use fast_net.MaxClient.Window.{
  failures, Window, Honest, send_loop-Window, send_loop_busy, complete-count, round-Window,
}

abbrev pub total_failures : List Round → ℕ
total_failures [] = 0
total_failures (r ∷ rs) = failures r.results + total_failures rs

failures-le-length : (rs : List Res) → failures rs ≤ length rs
failures-le-length [] = omega arith
failures-le-length (error e ∷ rs) = omega (arith, failures-le-length rs)
failures-le-length (bytes n ∷ rs) = omega (arith, failures-le-length rs)

-- Rounds that make progress: an entry is free, no send fails, and where sends are in flight at
-- least one completes, but none that is not in flight.
abbrev pub Productive : ℕ → ℕ → List Round → Sender → Type 0
Productive ring_size n [] s = Unit
Productive ring_size n (r ∷ rs) s =
    (0 < r.free)
    × (failures r.results ≡ 0)
    × (s.requests_completed + length r.results ≤ (send_loop ring_size n r.free s).requests_sent)
    × (s.requests_completed < (send_loop ring_size n r.free s).requests_sent → 0 < length r.results)
    × Productive ring_size n rs (round ring_size n r s)

module _ (ring_size local_num_requests : ℕ) (small : local_num_requests < 2 ^ 64) where
  -- With all sends completed nothing is in flight, and nothing has failed or can fail any more.
  idle :
      (rs : List Round) (failed : ℕ) (s : Sender)
      → Window ring_size local_num_requests failed s
      → local_num_requests ≤ s.requests_completed
      → Honest ring_size local_num_requests rs failed s
      → failed + total_failures rs ≡ 0
  unfolding round
  idle [] failed s w done honest = omega arith
  idle (r ∷ rs) failed s w done honest =
      let (sent, same, more) =
        send_loop-Window ring_size local_num_requests small r.free failed s w in
      let after = send_loop ring_size local_num_requests r.free s in
      let counted = complete-count ring_size local_num_requests small r.results after in
      let few = failures-le-length r.results in
      let next = round-Window ring_size local_num_requests small r failed s w honest.0 in
      omega (
        arith,
        idle rs (failed + failures r.results) (round ring_size local_num_requests r s) next
            (omega arith) honest.1,
      )

  exits :
      (rs : List Round) (failed : ℕ) (s t : Sender)
      → Window ring_size local_num_requests failed s
      → Honest ring_size local_num_requests rs failed s
      → send_data ring_size local_num_requests rs s ≡ some t
      → (failed + total_failures rs ≡ 0)
        × (t.requests_completed ≡ local_num_requests)
        × (t.requests_sent ≡ local_num_requests)
  unfolding send_data
  exits [] failed s t w honest e = ground arith
  exits (r ∷ rs) failed s t w honest e =
      elim (Bool-cases (ltb s.requests_completed local_num_requests)) [
        | inl more ↦
            let next = round-Window ring_size local_num_requests small r failed s w honest.0 in
            let e' = rw (more, send_data) at e in
            let (none_failed, done, sent) =
              exits rs _ (round ring_size local_num_requests r s) t next honest.1 e' in
            (omega arith, done, sent)
        | inr done ↦
            let all = not_ltb→le _ _ done in
            let none_failed = idle (r ∷ rs) failed s w all honest in
            let same = rw (done, send_data) at e in (none_failed, ground arith, ground arith)
      ]

  finishes :
      (rs : List Round) (s : Sender)
      → 0 < ring_size
      → Window ring_size local_num_requests 0 s
      → Productive ring_size local_num_requests rs s
      → local_num_requests ≤ s.requests_completed + length rs
      → (t : Sender) × (send_data ring_size local_num_requests rs s ≡ some t)
  unfolding send_data round
  finishes [] s ring w productive enough =
      rw (le→not_ltb s.requests_completed local_num_requests (omega arith)) (s, refl)
  finishes (r ∷ rs) s ring w (free, clean, honest, busy, productive) enough =
      elim (Bool-cases (ltb s.requests_completed local_num_requests)) [
        | inr done ↦ rw (done, send_data) (s, refl)
        | inl more ↦
            let after = send_loop ring_size local_num_requests r.free s in
            let next = round-Window ring_size local_num_requests small r 0 s w (omega arith) in
            let sending =
              send_loop_busy ring_size local_num_requests small r.free 0 s free ring
                (ltb→lt _ _ more) w in
            let some_done = busy sending in
            let counted = complete-count ring_size local_num_requests small r.results after in
            let (_, same, _) = send_loop-Window ring_size local_num_requests small r.free 0 s w in
            rw (more, send_data)
              (finishes rs (round ring_size local_num_requests r s) ring (rw clean at next)
                productive (omega arith))
      ]

start-Window : (ring_size n : ℕ) → Window ring_size n 0 start_sender
start-Window ring_size n = omega arith

-- A thread with fewer than 2^64 requests that leaves its loop has sent each request of its range
-- and has seen each completed, with no failure, as long as the ring completes only what is in
-- flight.
pub send_data_exact :
    (ring_size local_num_requests : ℕ) (rounds : List Round) (t : Sender)
    → local_num_requests < 2 ^ 64
    → Honest ring_size local_num_requests rounds 0 start_sender
    → send_data ring_size local_num_requests rounds start_sender ≡ some t
    → (total_failures rounds ≡ 0)
      × (t.requests_completed ≡ local_num_requests)
      × (t.requests_sent ≡ local_num_requests)
send_data_exact ring_size n rounds t small honest e =
    let (clean, done, sent) =
      exits ring_size n small rounds 0 start_sender t (start-Window ring_size n) honest e in
    (omega arith, done, sent)

-- With a ring of at least one entry, if no send fails and every round has a free entry and
-- completes at least one of the sends in flight, and none that is not, then as many rounds as
-- there are requests, fewer than 2^64, are enough for the thread to leave its loop.
pub send_data_finishes :
    (ring_size local_num_requests : ℕ) (rounds : List Round)
    → local_num_requests < 2 ^ 64
    → 0 < ring_size
    → Productive ring_size local_num_requests rounds start_sender
    → local_num_requests ≤ length rounds
    → (t : Sender) × (send_data ring_size local_num_requests rounds start_sender ≡ some t)
send_data_finishes ring_size n rounds small ring productive enough =
    finishes ring_size n small rounds start_sender ring (start-Window ring_size n) productive
      (omega arith)
