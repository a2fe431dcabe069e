-- ===== src/BatchClient/Whole.antt =====
-- A whole run of client_iou.cpp against the server of server.cpp.
use mathlib.Core.List.{append_assoc, append-nil}
use fast_net.Base.{
  ℕ, zero, suc, ◌+◌, ◌-◌, ◌^◌, ◌≤◌, ◌<◌, ◌%◌, ◌≡◌, refl, sym, ap, ◌∙◌, true, false, inl, inr, List,
  [], ◌∷◌, ◌++◌, some, arith, ltb, ltb→lt, not_ltb→le, ◌==◌, Bool-cases, if◌then◌else◌, length,
  length-replicate, map, get_elem?, get_elem?-lt, get_elem?-replicate, replicate,
}
use fast_net.Wire.{response_of_bytes, response_to_host_order, sizeof_response}
use fast_net.Memory.{FillingStrategy}
use fast_net.Server.{Server}
use fast_net.Server.Replies.{IsServer, answer}
use fast_net.Ranges.{Range, thread_start, thread_end, batches, batch_size}
use fast_net.Ranges.Partition.{ranges_adjacent, thread_range_le}
use fast_net.Ranges.Batches.{Covers, Covers-le, batches-Covers}
use fast_net.Client.{Client, make_request}
use fast_net.Client.Session.{IsClient, verify_answered}
use fast_net.BatchClient.{
  Submission, Completion, Wait, completed, done, Thread, run_batches, client_thread, Counters,
  verify_response, verify_responses, run_threads, start, main,
}
use fast_net.BatchClient.Submitted.{batch_submitted, ServesWhat, ServesWhat-Serves}
use fast_net.BatchClient.Batch.{
  page_count_ne_zero, sends, receives_from, InVectors, HasCome, Served, batch-Served,
}

-- The completions of batches one after another, and what follows them.
abbrev pub stream : (ℕ → ℕ → List Completion) → List Range → List Wait → List Wait
stream served [] ws = ws
stream served ((a, b) ∷ rs) ws = map completed (served a b) ++ stream served rs ws

-- Every thread's completions are those of its batches, and then any others.
abbrev pub waits_of : (ℕ → ℕ → List Completion) → ℕ → ℕ → (ℕ → List Wait) → ℕ → List Wait
waits_of served n threads extra i =
    let a = thread_start n threads i in
    let b = thread_end n threads i in stream served (batches (b - a + 1) a b) (extra i)

-- How many requests the threads before thread `i` have.
abbrev reached : ℕ → ℕ → ℕ → ℕ
reached n threads i = if i == threads then n else thread_start n threads i

reached_none : (n threads : ℕ) → 0 < threads → reached n threads 0 ≡ 0
unfolding thread_start
reached_none n threads h = ground arith

-- What batches submit.
abbrev pub log_of : Client → List Range → List Submission
log_of c [] = []
log_of c ((a, b) ∷ rs) = (sends c (b - a) a ++ receives_from (b - a) a) ++ log_of c rs

module _ (s : FillingStrategy) (v : Server) (c : Client) (v_ok : IsServer s v)
    (c_ok : IsClient s v c) where
  -- A buffer that holds its response passes the test.
  verify_response_correct :
      (k : ℕ) (x : List ℕ) (p : Counters)
      → response_to_host_order c.host (response_of_bytes c.host x)
        ≡ answer s v.page_size v.page_count (make_request c k)
      → verify_response c (some x) p
        ≡ record p { correct_responses = (p.correct_responses + 1) % 2 ^ 32 }
  unfolding verify_response
  verify_response_correct k x p e =
      let (passes, _) = verify_answered s v c v_ok c_ok k in rw (e, passes) refl

  verify_all :
      (off : ℕ) (xs : List (List ℕ)) (p : Counters)
      → ((k : ℕ) (buffer : List ℕ)
          → get_elem? xs k ≡ some buffer
          → response_to_host_order c.host (response_of_bytes c.host buffer)
            ≡ answer s v.page_size v.page_count (make_request c (off + k)))
      → p.correct_responses + length xs < 2 ^ 32
      → ((verify_responses c (map some xs) p).correct_responses ≡ p.correct_responses + length xs)
        × ((verify_responses c (map some xs) p).incorrect_responses ≡ p.incorrect_responses)
  unfolding verify_responses
  verify_all off [] p come few = (omega arith, refl)
  verify_all off (x ∷ xs) p come few =
      let p' = record p { correct_responses = (p.correct_responses + 1) % 2 ^ 32 } in
      let (correct, incorrect) =
        verify_all (off + 1) xs p'
          (λ k buffer found.
            let shift : off + suc k ≡ off + 1 + k = omega arith in
            rw shift at (come (suc k) buffer found))
          (omega arith) in
      rw (verify_response_correct (off + 0) x p (come 0 x refl), verify_responses)
        (omega arith, incorrect)

module _ (s : FillingStrategy) (v : Server) (c : Client) (v_ok : IsServer s v)
    (c_ok : IsClient s v c) (n : ℕ) (served : ℕ → ℕ → List Completion)
    (serves : (a b : ℕ)
      → a < b
      → b ≤ a + batch_size
      → b ≤ n
      → ServesWhat v (batch_submitted c n a b) (served a b)) where
  run_batches-Served :
      (rs : List Range) (a b : ℕ) (ws : List Wait) (t : Thread)
      → Covers a b rs
      → b ≤ n
      → n < 2 ^ 64
      → InVectors c n t
      → (t' : Thread) × (run_batches c rs t (stream served rs ws) ≡ done (t', ws))
        × Served s v c v_ok c_ok n a b t t' (log_of c rs)
  unfolding run_batches
  run_batches-Served [] a b ws t cover room small vec = (
    t,
    refl,
    record {
      vectors = vec;
      comes = λ k low high. absurd (omega arith);
      kept = λ k h. h;
      submitted = sym (append-nil t.submitted);
    },
  )
  run_batches-Served ((a', e) ∷ rs) a b ws t (same, nonempty, short, cover) room small vec =
      let le = Covers-le e b rs cover in
      let (u, ran, first) =
        batch-Served s v c v_ok c_ok n a' e (served a' e) (stream served rs ws) t (omega arith)
          (omega arith) small vec
          (ServesWhat-Serves v c n a' e (served a' e) (page_count_ne_zero s v c v_ok c_ok)
            (omega arith) (omega arith) (serves a' e nonempty short (omega arith))) in
      let (t', ran', others) = run_batches-Served rs e b ws u cover room small first.vectors in
      rw (ran, run_batches)
        (
          t',
          ran',
          record {
            vectors = others.vectors;
            comes = λ k low high. elim (Bool-cases (ltb k e)) [
              | inl here ↦ others.kept k (first.comes k (omega arith) (ltb→lt _ _ here))
              | inr later ↦ others.comes k (not_ltb→le _ _ later) high
            ];
            kept = λ k h. others.kept k (first.kept k h);
            submitted =
                others.submitted
                ∙ (ap (λ l. l ++ log_of c rs) first.submitted
                    ∙ append_assoc t.submitted (sends c (e - a') a' ++ receives_from (e - a') a')
                        (log_of c rs));
          },
        )

  -- A thread whose responses come runs to its end.
  pub client_thread-Served :
      (a b : ℕ) (ws : List Wait) (t : Thread)
      → a ≤ b
      → b ≤ n
      → n < 2 ^ 64
      → InVectors c n t
      → (t' : Thread) × (client_thread c true a b t (stream served (batches (b - a + 1) a b) ws)
          ≡ done t')
        × Served s v c v_ok c_ok n a b t t' (log_of c (batches (b - a + 1) a b))
  unfolding client_thread
  client_thread-Served a b ws t le room small vec =
      let (t', ran, after) =
        run_batches-Served (batches (b - a + 1) a b) a b ws t
          (batches-Covers (b - a + 1) a b le (omega arith)) room small vec in
      rw (ran, client_thread) (t', refl, after)

  run_threads-HasCome :
      (threads m i : ℕ) (extra : ℕ → List Wait) (t : Thread)
      → i + m ≡ threads
      → n < 2 ^ 64
      → InVectors c n t
      → ((k : ℕ) → k < reached n threads i → HasCome s v c v_ok c_ok k t)
      → (t' : Thread) × (run_threads c (λ _. true) (waits_of served n threads extra) n threads m i t
          ≡ done t')
        × InVectors c n t'
        × ((k : ℕ) → k < n → HasCome s v c v_ok c_ok k t')
  unfolding run_threads
  run_threads-HasCome threads zero i extra t last small vec come =
      (t, refl, vec, λ k h. come k (ground arith))
  run_threads-HasCome threads (suc m) i extra t last small vec come =
      let (le, room) = thread_range_le n threads i (omega arith) in
      let (_, next) = ranges_adjacent n threads i (omega arith) in
      let (u, ran, after) =
        client_thread-Served (thread_start n threads i) (thread_end n threads i) (extra i) t le room
          small vec in
      let (t', ran', vec', come') =
        run_threads-HasCome threads m (i + 1) extra u (omega arith) small after.vectors (λ k h.
          elim (Bool-cases (ltb k (thread_start n threads i))) [
            | inl before ↦ after.kept k (come k (ground (arith, before)))
            | inr here ↦ after.comes k (not_ltb→le _ _ here) (rw next h)
          ]) in
      rw (ran, run_threads) (t', ran', vec', come')

abbrev zeros : Client → List ℕ
zeros c = replicate (sizeof_response c.page_size) 0

start-InVectors : (c : Client) (n : ℕ) → InVectors c n (start c n)
start-InVectors c n = record {
  requests_len = length-replicate n _;
  responses_len = length-replicate n _;
  sized = λ k buffer found.
      let here =
        get_elem?-replicate n k (zeros c) (
          omega
            (arith, length-replicate n (zeros c), get_elem?-lt (start c n).responses k found)) in
      let same : zeros c ≡ buffer = cc (here, found) in
      rw (← same) (length-replicate {A = ℕ} (sizeof_response c.page_size) 0);
}

counters_eq :
    (p : Counters) (n : ℕ)
    → p.correct_responses ≡ n
    → p.incorrect_responses ≡ 0
    → p ≡ record { correct_responses = n; incorrect_responses = 0 }
counters_eq p n e₁ e₂ = ground (arith, e₁, e₂)

-- Let the client have the configuration of a server that holds its pages, with at least one page
-- and at most 2^32, and let it have fewer than 2^32 requests and at least one thread. If every
-- thread is connected, and in each batch all sends and receives that it submits succeed, and each
-- receive brings, whole, the server's answer to the bytes of the send of the same rank, in any order
-- and between the completions of sends, then no thread waits, throws or
-- leaves its vectors, and the client counts every response as correct and none as incorrect.
pub batch_client_correct :
    (s : FillingStrategy) (v : Server) (c : Client) (served : ℕ → ℕ → List Completion)
    (num_requests client_threads : ℕ) (extra : ℕ → List Wait) (v_ok : IsServer s v)
    (c_ok : IsClient s v c)
    (serves : (a b : ℕ)
      → a < b
      → b ≤ a + batch_size
      → b ≤ num_requests
      → ServesWhat v (batch_submitted c num_requests a b) (served a b))
    → num_requests < 2 ^ 32
    → 0 < client_threads
    → main c
        (λ _. true)
        (waits_of served num_requests client_threads extra)
        num_requests
        client_threads
      ≡ done (record { correct_responses = num_requests; incorrect_responses = 0 })
unfolding main
batch_client_correct s v c served n threads extra v_ok c_ok serves few some_thread =
    let (t, ran, vec, come) =
      run_threads-HasCome s v c v_ok c_ok n served serves threads threads 0 extra (start c n)
        (omega arith) (omega arith) (start-InVectors c n)
        (λ k h. absurd (omega (arith, h, reached_none n threads some_thread))) in
    let len = vec.responses_len in
    let (correct, incorrect) =
      verify_all s v c v_ok c_ok 0 t.responses
        (record { correct_responses = 0; incorrect_responses = 0 })
        (λ k buffer found.
          let (buffer', here, meant) = come k (omega (arith, get_elem?-lt t.responses k found)) in
          let same : buffer' ≡ buffer = cc (here, found) in
          let zeroed : 0 + k ≡ k = omega arith in rw zeroed (rw same at meant))
        (omega arith) in
    let few_threads : (threads == 0) ≡ false = ground arith in
    rw (few_threads, main) (rw (ran, main) (ap done (counters_eq _ n (omega arith) incorrect)))
