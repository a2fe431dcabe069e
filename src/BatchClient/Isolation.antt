-- ===== src/BatchClient/Isolation.antt =====
-- The threads of client_iou.cpp share the two vectors of `main`: what a thread changes in them.
use fast_net.Base.{
  ℕ, zero, suc, ◌+◌, ◌-◌, ◌≤◌, ◌<◌, ◌≢◌, ◌⊎◌, refl, Bool, true, false, inl, inr, List, [], ◌∷◌,
  arith, ltb, ltb→lt, not_ltb→le, ◌==◌, Bool-cases, Option-cases, All, get_elem?,
  get_elem?-set_other,
}
use fast_net.Ranges.{Range, thread_start, thread_end, batches}
use fast_net.Ranges.Batches.{Covers, Covers-le, batches-Covers}
use fast_net.Ranges.Partition.{owner, range_iff_owner, thread_range_le}
use fast_net.Client.{Client}
use fast_net.BatchClient.{
  Wait, done, Thread, receive_responses, prepare_send, send_loop, send_requests, run_batch,
  run_batches, client_thread,
}
use fast_net.BatchClient.Own.{thread_submitted, CompletesOnly, waits-WaitsWithin}
use fast_net.BatchClient.Unchanged.{
  WhereDone, bind-WhereDone, SameAt, WaitsWithin, other, weaken, later-SameAt,
  receive_responses-Kept, Kept,
}

module _ (a b k : ℕ) (outside : (k < a) ⊎ (b ≤ k)) (c : Client) where
  prepare_send-SameAt :
      (j : ℕ) (t : Thread) → a ≤ j → j < b → WhereDone (SameAt k t) (prepare_send c j t)
  unfolding prepare_send
  prepare_send-SameAt j t low high = elim (Option-cases (get_elem? t.requests j)) [
    | inl gone ↦ rw (gone, prepare_send) tt
    | inr (old, found) ↦ elim (Bool-cases (c.page_count == 0)) [
      | inl none_there ↦ rw (found, none_there, prepare_send) tt
      | inr some_there ↦
          rw (found, some_there, prepare_send)
            (get_elem?-set_other t.requests j k _ (other a b k outside j low high), refl)
    ]
  ]

  send_loop-SameAt :
      (n j : ℕ) (t : Thread) → a ≤ j → j + n ≤ b → WhereDone (SameAt k t) (send_loop c n j t)
  unfolding send_loop
  send_loop-SameAt zero j t low high = (refl, refl)
  send_loop-SameAt (suc n) j t low high =
      bind-WhereDone (SameAt k t) (SameAt k t) (prepare_send c j t) (send_loop c n (j + 1))
        (prepare_send-SameAt j t low (omega arith))
        (λ u same.
          later-SameAt a b k outside t u (send_loop c n (j + 1) u) same
            (send_loop-SameAt n (j + 1) u (omega arith) (omega arith)))

  run_batch-Kept :
      (i batch_end : ℕ) (t : Thread) (ws : List Wait)
      → a ≤ i
      → i ≤ batch_end
      → batch_end ≤ b
      → All (WaitsWithin a b) ws
      → WhereDone ((Kept a b k outside) t) (run_batch c i batch_end t ws)
  unfolding run_batch send_requests
  run_batch-Kept i batch_end t ws low le high within =
      bind-WhereDone (SameAt k t) ((Kept a b k outside) t) (send_loop c (batch_end - i) i t)
        (λ u. receive_responses i batch_end u ws)
        (send_loop-SameAt (batch_end - i) i t low (omega arith))
        (λ u same.
          weaken a b k outside t u (receive_responses i batch_end u ws) same
            (receive_responses-Kept a b k outside i batch_end u ws within))

  run_batches-Kept :
      (rs : List Range) (i : ℕ) (t : Thread) (ws : List Wait)
      → a ≤ i
      → Covers i b rs
      → All (WaitsWithin a b) ws
      → WhereDone ((Kept a b k outside) t) (run_batches c rs t ws)
  unfolding run_batches
  run_batches-Kept [] i t ws low cover within = ((refl, refl), within)
  run_batches-Kept ((i', e) ∷ rs) i t ws low (same_start, less, short, cover) within =
      bind-WhereDone ((Kept a b k outside) t) ((Kept a b k outside) t) (run_batch c i' e t ws)
        (λ r. run_batches c rs r.0 r.1)
        (run_batch-Kept i' e t ws (omega arith) (omega arith) (Covers-le e b rs cover) within)
        (λ r kept.
          weaken a b k outside t r.0 (run_batches c rs r.0 r.1) kept.0
            (run_batches-Kept rs e r.0 r.1 (omega arith) cover kept.1))

  client_thread-SameAt :
      (connected : Bool) (t : Thread) (ws : List Wait)
      → a ≤ b
      → All (WaitsWithin a b) ws
      → WhereDone (SameAt k t) (client_thread c connected a b t ws)
  unfolding client_thread
  client_thread-SameAt false t ws le within = (refl, refl)
  client_thread-SameAt true t ws le within =
      bind-WhereDone ((Kept a b k outside) t) (SameAt k t)
        (run_batches c (batches (b - a + 1) a b) t ws) (λ r. done r.0)
        (run_batches-Kept (batches (b - a + 1) a b) a t ws (omega arith)
          (batches-Covers (b - a + 1) a b le (omega arith)) within)
        (λ r kept. kept.0)

-- The batches of thread `i`.
abbrev pub batches_of : ℕ → ℕ → ℕ → List Range
batches_of n threads i =
    let a = thread_start n threads i in let b = thread_end n threads i in batches (b - a + 1) a b

-- A thread changes in the vectors of requests and responses its own elements only: where its ring
-- completes only receives that its batches submit, then wherever it returns, the elements of every
-- other thread are as they were, whatever failed before and whatever has been brought.
pub client_thread-apart :
    (c : Client) (connected : Bool) (num_requests client_threads i k : ℕ) (t : Thread)
    (ws : List Wait)
    → i < client_threads
    → k < num_requests
    → i ≢ owner num_requests client_threads k
    → All
        (CompletesOnly (thread_submitted c num_requests (batches_of num_requests client_threads i)))
        ws
    → WhereDone (SameAt k t) (
        client_thread c connected
          (thread_start num_requests client_threads i)
          (thread_end num_requests client_threads i)
          t
          ws)
client_thread-apart c connected n threads i k t ws below inside apart only =
    let a = thread_start n threads i in
    let b = thread_end n threads i in
    let (to_owner, _) = range_iff_owner n threads i k below inside in
    let (le, room) = thread_range_le n threads i below in
    let within =
      waits-WaitsWithin c n a b (batches_of n threads i) ws
        (batches-Covers (b - a + 1) a b le (omega arith)) room only in
    let outside : (k < a) ⊎ (b ≤ k) = elim (Bool-cases (ltb k a)) [
      | inl under ↦ inl (ltb→lt _ _ under)
      | inr over ↦ elim (Bool-cases (ltb k b)) [
        | inl in_range ↦ absurd (apart (to_owner (not_ltb→le _ _ over, ltb→lt _ _ in_range)))
        | inr above ↦ inr (not_ltb→le _ _ above)
      ]
    ] in
    client_thread-SameAt a b k outside c connected t ws le within
