-- ===== src/MaxServer/Finish.antt =====
-- The clients of max_client.cpp against the server of max_server.cpp: when `main` of the server
-- stops waiting.
use fast_net.Base.{
  ℕ, ◌*◌, ◌%◌, ◌^◌, ◌<◌, ◌≡◌, refl, sym, ap, ◌∙◌, inl, inr, Bool, false, List, [], ◌∷◌, ◌++◌, some,
  arith, ltb, le→not_ltb, Bool-cases, All,
}
use fast_net.Uring.{Res}
use fast_net.Ranges.Partition.{thread_range_le}
use fast_net.Ranges.Shares.{size, thread_ranges_total}
use fast_net.MaxClient.{thread_range, Sender, Round, send_data, start_sender}
use fast_net.MaxClient.Window.{Honest}
use fast_net.MaxClient.Exit.{send_data_exact}
use fast_net.MaxServer.{
  u64_mod, Counters, start_counters, run, expected_total_bytes, still_waits, wait_loop,
}
use fast_net.MaxServer.Totals.{
  completions_of, received, total, total-eq, total-scale, run-received, run-append,
}

abbrev pub concat : List (List (ℕ × Res)) → List (ℕ × Res)
concat [] = []
concat (cs ∷ css) = cs ++ concat css

-- If all that completes brings the count to what is expected, the loop ends.
wait_loop_ends :
    (below_95 : ℕ → ℕ → Bool) (expected : ℕ) (css : List (List (ℕ × Res))) (s : Counters)
    → (run (concat css) s).total_bytes_received ≡ expected
    → (t : Counters) × (wait_loop below_95 expected css s ≡ some t)
unfolding wait_loop run
wait_loop_ends below_95 expected [] s e =
    let enough : ltb s.total_bytes_received expected ≡ false = le→not_ltb _ _ (omega (arith, e)) in
    rw enough (s, refl)
wait_loop_ends below_95 expected (cs ∷ css) s e =
    elim (Bool-cases (still_waits below_95 expected s)) [
      | inl waits ↦ rw waits (
          wait_loop_ends below_95 expected css (run cs s) (
            sym (ap (λ (t : Counters). t.total_bytes_received) (run-append cs (concat css) s)) ∙ e))
      | inr over ↦ rw over (s, refl)
    ]

scale_assoc : (n page : ℕ) → n * (page * 4) ≡ n * page * 4
scale_assoc n page = grind arith

share_small :
    (n threads i : ℕ) → i < threads → n < 2 ^ 64 → size (thread_range n threads i) < 2 ^ 64
unfolding thread_range
share_small n threads i h small = omega (arith, thread_range_le n threads i h)

-- If every thread of the client leaves its loop, the rings complete only what is in flight, and
-- each connection of the server receives what its thread has sent, a page for each request, then
-- the server's count becomes the bytes that `main` expects, however the completions of the
-- connections are interleaved, and `main` stops waiting, at the latest when all has come.
pub wait_loop-send_data :
    (ring_size page_size num_requests threads : ℕ) (below_95 : ℕ → ℕ → Bool)
    (rounds : ℕ → List Round) (sender : ℕ → Sender) (css : List (List (ℕ × Res)))
    → 0 < threads
    → num_requests < 2 ^ 64
    → ((i : ℕ)
        → i < threads
        → Honest ring_size (size (thread_range num_requests threads i)) (rounds i) 0 start_sender)
    → ((i : ℕ)
        → i < threads
        → send_data ring_size (size (thread_range num_requests threads i)) (rounds i) start_sender
          ≡ some (sender i))
    → All (λ c. c.0 < threads) (concat css)
    → ((i : ℕ)
        → i < threads
        → received (completions_of i (concat css))
          ≡ (sender i).requests_completed * (page_size * 4))
    → ((run (concat css) start_counters).total_bytes_received
        ≡ expected_total_bytes num_requests page_size)
      × ((t : Counters) × (wait_loop below_95
              (expected_total_bytes num_requests page_size)
              css
              start_counters
            ≡ some t))
wait_loop-send_data ring page n threads below_95 rounds sender css some_thread small honest exits
      below brings =
    let share : (i : ℕ) → ℕ = λ i. size (thread_range n threads i) in
    let (shares, _) = thread_ranges_total n threads some_thread in
    let each : (i : ℕ)
        → i < threads
        → received (completions_of i (concat css)) ≡ share i * (page * 4) =
      λ i h.
        let (_, completed, _) =
          send_data_exact ring (share i) (rounds i) (sender i) (share_small n threads i h small)
            (honest i h) (exits i h) in
        brings i h ∙ ap (λ k. k * (page * 4)) completed in
    let sum = total-eq threads _ _ each ∙ total-scale threads (page * 4) share in
    let all : total threads (λ i. received (completions_of i (concat css))) ≡ n * page * 4 =
      sum ∙ ap (λ k. k * (page * 4)) shares ∙ scale_assoc n page in
    let counted : (run (concat css) start_counters).total_bytes_received
        ≡ expected_total_bytes n page =
      run-received threads (concat css) below ∙ ap (λ k. k % u64_mod) all in
    (counted, wait_loop_ends below_95 (expected_total_bytes n page) css start_counters counted)
