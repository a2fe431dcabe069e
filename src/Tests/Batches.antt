-- ===== src/Tests/Batches.antt =====
-- A run of client_iou.cpp with the server of the tests of server.cpp.
use fast_net.Base.{
  ℕ, zero, suc, ◌+◌, ◌-◌, ◌≤◌, ◌<◌, ◌≡◌, refl, ap, true, inl, inr, List, [], ◌∷◌, arith, ◌==◌, All,
  Bool-cases,
}
use fast_net.Uring.{bytes}
use fast_net.Memory.{alphabetical}
use fast_net.Ranges.{thread_start, thread_end, batch_size, batches}
use fast_net.BatchClient.{
  EventType, received, Completion, Wait, wait_failed, completed, Outcome, done, Thread, start,
  collect, deliver, send_requests, send_loop, prepare_send, receive_loop, client_thread, main,
  Counters,
}
use fast_net.BatchClient as Batch
use fast_net.BatchClient.Collecting.{receives, EndsInReceive, Succeeds}
use fast_net.BatchClient.Batch.{InBatch, Answers, receives_into, Serves}
use fast_net.BatchClient.Unchanged.{WhereDone, SameAt}
use fast_net.BatchClient.Own.{CompletesOnly, thread_submitted}
use fast_net.BatchClient.Isolation.{batches_of, client_thread-apart}
use fast_net.BatchClient.Submitted.{batch_submitted, ServesWhat, Serves-ServesWhat}
use fast_net.BatchClient.Whole.{waits_of, batch_client_correct}
use fast_net.Tests.Pages.{
  server, server-IsServer, client, client-IsClient, sent, bytes_of, pieces-Delivers,
}

-- A send completes, and then `n` responses come in order, from number `k` on.
abbrev one_send : Completion
one_send = record { event_type = Batch.sent; res = bytes 8 }

abbrev one_receive : ℕ → Completion
one_receive k = record { event_type = received k (sent k); res = bytes 14 }

abbrev in_order : ℕ → ℕ → List Completion
in_order zero k = []
in_order (suc n) k = one_receive k ∷ in_order n (k + 1)

abbrev served : ℕ → ℕ → List Completion
served a b = one_send ∷ in_order (b - a) a

sent-Answers : (k : ℕ) → Answers server client k (sent k)
sent-Answers k =
    let d = pieces-Delivers k in
    record { call = d.call; answered = d.answered; carried = ap bytes_of d.answered }

in_order-Succeeds : (n k : ℕ) → All Succeeds (in_order n k)
in_order-Succeeds zero k = tt
in_order-Succeeds (suc n) k = (refl, in_order-Succeeds n (k + 1))

in_order-EndsInReceive : (c : Completion) (n k : ℕ) → EndsInReceive (c ∷ in_order (suc n) k)
in_order-EndsInReceive c zero k = refl
in_order-EndsInReceive c (suc n) k = in_order-EndsInReceive (one_receive k) n (k + 1)

in_order-receives : (n k : ℕ) → receives (in_order n k) ≡ n
in_order-receives zero k = refl
in_order-receives (suc n) k = ap suc (in_order-receives n (k + 1))

in_order-InBatch :
    (a b n k : ℕ)
    → a ≤ k
    → k + n ≤ b
    → All (λ e. InBatch server client a b e.event_type) (in_order n k)
in_order-InBatch a b zero k low high = tt
in_order-InBatch a b (suc n) k low high =
    ((low, omega arith, sent-Answers k), in_order-InBatch a b n (k + 1) (omega arith) (omega arith))

in_order-receives_into : (n k i : ℕ) → k ≤ i → i < k + n → 0 < receives_into i (in_order n k)
in_order-receives_into zero k i low high = absurd (omega arith)
in_order-receives_into (suc n) k i low high = elim (Bool-cases (i == k)) [
  | inl here ↦ rw here (omega arith)
  | inr later ↦
      rw later
        (omega (arith, in_order-receives_into n (k + 1) i (ground (arith, later)) (omega arith)))
]

served-Serves : (a b : ℕ) → a < b → b ≤ a + batch_size → Serves server client a b (served a b)
served-Serves a b less short =
    let some_left : b - a ≡ suc (b - a - 1) = omega arith in
    record {
      succeeded = (refl, in_order-Succeeds (b - a) a);
      ends = rw some_left (in_order-EndsInReceive one_send (b - a - 1) a);
      as_many = in_order-receives (b - a) a;
      in_batch = (tt, in_order-InBatch a b (b - a) a (omega arith) (omega arith));
      each = λ k low high. omega (arith, in_order-receives_into (b - a) a k low (omega arith));
    }

served-ServesWhat :
    (a b : ℕ)
    → a < b
    → b ≤ a + batch_size
    → b ≤ 70
    → ServesWhat server (batch_submitted client 70 a b) (served a b)
served-ServesWhat a b less short room =
    Serves-ServesWhat server client 70 a b (served a b) refl (omega arith) room
      (served-Serves a b less short)

-- 70 requests for 3 threads; behind its batches a thread has one more completion.
batch_client_correct_example :
    main client (λ _. true) (waits_of served 70 3 (λ i. completed one_send ∷ [])) 70 3
    ≡ done (record { correct_responses = 70; incorrect_responses = 0 })
batch_client_correct_example =
    batch_client_correct alphabetical server client served 70 3 (λ i. completed one_send ∷ [])
      server-IsServer client-IsClient served-ServesWhat (omega arith) (omega arith)

-- Thread 1 of 3 has request 1 of 3; it gets its response and returns.
abbrev of_thread_1 : List Wait
of_thread_1 = completed one_send ∷ completed (one_receive 1) ∷ wait_failed ∷ []

submitted_by_1 : All (CompletesOnly (thread_submitted client 3 (batches_of 3 3 1))) of_thread_1
unfolding thread_start thread_end batches send_requests send_loop prepare_send receive_loop
submitted_by_1 = (tt, (inl refl, (tt, tt)))

client_thread-apart_example :
    WhereDone (SameAt 2 (start client 3)) (
      client_thread client true
        (thread_start 3 3 1)
        (thread_end 3 3 1)
        (start client 3)
        of_thread_1)
client_thread-apart_example =
    client_thread-apart client true 3 3 1 2 (start client 3) of_thread_1 (omega arith) (omega arith)
      (λ e. omega (arith, e)) submitted_by_1
