-- ===== src/SimpleClient/Program.antt =====
-- `main` of simple_iou_client.cpp: its threads, and the sums that it prints. A thread writes its own
-- element of `total_received` only, so that `main`, behind the joins, sees what each has written.
use fast_net.Base.{
  ℕ, zero, suc, ◌+◌, ◌*◌, ◌%◌, ◌^◌, ◌≤◌, ◌<◌, ◌≡◌, refl, ap, sym, ◌∙◌, false, List, [], ◌∷◌, Option,
  none, some, arith, sum_of,
}
use fast_net.Simple.{sizeof_word}
use fast_net.Ranges.Partition.{thread_range_le}
use fast_net.Ranges.Shares.{size, thread_ranges_total}
use fast_net.MaxServer.Totals.{total, total-eq, total-scale}
use fast_net.SimpleClient.{
  Job, Thread, Event, Status, runs, failed, fault, Progress, left, inside, stopped, thread_range,
  num_requests, total_expected, rounds, start,
}
use fast_net.SimpleClient.Answered.{scale_assoc}
use fast_net.SimpleClient.Verify.{after_rounds}
use fast_net.SimpleClient.Report.{total_received_bytes, expected_total_received_bytes}

-- The job of thread `i`: the macros, and its range.
abbrev pub job_of : Job → ℕ → ℕ → ℕ → Job
job_of macros requests client_threads i =
    let (start_index, end_index) = thread_range requests client_threads i in
    record macros { start_index = start_index; end_index = end_index; thread_index = i }

-- What the thread hands to `main`; none if it never returns, or ends the program.
abbrev pub brought : Status → Option ℕ
brought (runs t) = some t.total_received
brought failed = none
brought fault = none

abbrev pub ended : Job → Progress → Option ℕ
ended j (left t) = brought (after_rounds j t)
ended j (inside t) = none
ended j (stopped s) = none

unfoldable pub send_receive_data : Job → List (List Event) → Option ℕ
send_receive_data j ess = ended j (rounds j ess (start j))

abbrev pub join_then : Option ℕ → Option (List ℕ) → Option (List ℕ)
join_then (some total_received) (some rest) = some (total_received ∷ rest)
join_then _ _ = none

-- The loop of joins over the `n` threads from number `i` on.
unfoldable pub join_threads : (ℕ → Option ℕ) → ℕ → ℕ → Option (List ℕ)
join_threads result zero i = some []
join_threads result (suc n) i = join_then (result i) (join_threads result n (i + 1))

-- The two sums that `main` prints.
pub record Sums : Type 0 where
  pub total_received_bytes : ℕ
  pub expected_total_received_bytes : ℕ

abbrev pub sums : Job → ℕ → List ℕ → Sums
sums macros requests total_received = record {
  total_received_bytes = total_received_bytes total_received 0;
  expected_total_received_bytes = expected_total_received_bytes requests macros.page_size;
}

unfoldable pub main : Job → ℕ → ℕ → (ℕ → List (List Event)) → Option Sums
unfolding send_receive_data join_threads
main macros requests client_threads completions =
    let result : ℕ → Option ℕ =
      λ i. send_receive_data (job_of macros requests client_threads i) (completions i) in
    elim (join_threads result client_threads 0) [
      | none ↦ none
      | some total_received ↦ some (sums macros requests total_received)
    ]

-- The values of `f` at `n` numbers from `i` on.
abbrev values : (ℕ → ℕ) → ℕ → ℕ → List ℕ
values f zero i = []
values f (suc n) i = f i ∷ values f n (i + 1)

join_threads-values :
    (result : ℕ → Option ℕ) (f : ℕ → ℕ) (n i : ℕ)
    → ((k : ℕ) → k < i + n → result k ≡ some (f k))
    → join_threads result n i ≡ some (values f n i)
unfolding join_threads
join_threads-values result f zero i h = refl
join_threads-values result f (suc n) i h =
    rw (h i (omega arith), join_threads-values result f n (i + 1) (λ k below. h k (omega arith)))
      refl

add_one : (n : ℕ) → n + 1 ≡ suc n
add_one n = omega arith

sum_of-values : (f : ℕ → ℕ) (n i : ℕ) → sum_of (λ x. x) (values f n i) + total i f ≡ total (i + n) f
sum_of-values f zero i =
    let same : i ≡ i + 0 = omega arith in omega (arith, ap (λ k. total k f) same)
sum_of-values f (suc n) i =
    let shift : total (i + 1 + n) f ≡ total (i + suc n) f = ap (λ k. total k f) (omega arith) in
    let next : total (i + 1) f ≡ total i f + f i = ap (λ k. total k f) (add_one i) in
    omega (arith, sum_of-values f n (i + 1), shift, next)

total_received_bytes-sum_of :
    (ns : List ℕ) (sum : ℕ)
    → sum < 2 ^ 64
    → total_received_bytes ns sum ≡ (sum + sum_of (λ x. x) ns) % 2 ^ 64
unfolding total_received_bytes
total_received_bytes-sum_of [] sum small = omega arith
total_received_bytes-sum_of (n ∷ ns) sum small =
    omega (arith, total_received_bytes-sum_of ns ((sum + n) % 2 ^ 64) (omega arith))

scale_le : (a b p : ℕ) → a ≤ b → a * p ≤ b * p
scale_le a b p h = grind arith

zero_add : (n : ℕ) → 0 + n ≡ n
zero_add n = omega arith

at_least : (n p : ℕ) → 0 < p → n ≤ n * p
at_least n p nonzero = grind arith

-- A thread's own numbers do not wrap where those of all requests do not.
share-num_requests :
    (j : Job) (n threads i : ℕ)
    → i < threads
    → n < 2 ^ 64
    → num_requests (job_of j n threads i) ≡ size (thread_range n threads i)
unfolding thread_range
share-num_requests j n threads i below small = omega (arith, thread_range_le n threads i below)

share_le : (n threads i : ℕ) → i < threads → size (thread_range n threads i) ≤ n
unfolding thread_range
share_le n threads i below = omega (arith, thread_range_le n threads i below)

share-total_expected :
    (j : Job) (n threads i : ℕ)
    → i < threads
    → 0 < j.page_size
    → n * j.page_size * sizeof_word < 2 ^ 64
    → total_expected (job_of j n threads i)
      ≡ size (thread_range n threads i) * j.page_size * sizeof_word
share-total_expected j n threads i below some_words fits =
    let p = j.page_size in
    let small : n < 2 ^ 64 = omega (arith, at_least n p some_words) in
    let share = size (thread_range n threads i) in
    let less : share * p ≤ n * p = scale_le share n p (share_le n threads i below) in
    ap (λ k. k * p * sizeof_word % 2 ^ 64) (share-num_requests j n threads i below small)
    ∙ omega arith

-- Without VERIFY: if every thread, at least one, leaves its loop with just the bytes that it
-- expects, and the bytes of all requests are fewer than 2^64, then `main` returns; it prints that it
-- has received the bytes of all requests, and that it expects as many if their words fit 32 bits.
pub main_exact :
    (macros : Job) (requests client_threads : ℕ) (completions : ℕ → List (List Event))
    (thread : ℕ → Thread)
    → macros.verify ≡ false
    → 0 < client_threads
    → 0 < macros.page_size
    → requests * macros.page_size * sizeof_word < 2 ^ 64
    → ((i : ℕ)
        → i < client_threads
        → rounds
            (job_of macros requests client_threads i)
            (completions i)
            (start (job_of macros requests client_threads i))
          ≡ left (thread i))
    → ((i : ℕ)
        → i < client_threads
        → (thread i).total_received ≡ total_expected (job_of macros requests client_threads i))
    → main macros requests client_threads completions
      ≡ some (record {
        total_received_bytes = requests * macros.page_size * sizeof_word;
        expected_total_received_bytes = requests * macros.page_size % 2 ^ 32 * sizeof_word;
      })
unfolding main send_receive_data after_rounds expected_total_received_bytes
main_exact macros n threads completions thread gives some_thread some_words fits leaves exact =
    let got : ℕ → ℕ = λ i. (thread i).total_received in
    let each : (k : ℕ)
        → k < threads
        → send_receive_data (job_of macros n threads k) (completions k) ≡ some (got k) =
      λ k below. rw (leaves k below, gives) refl in
    let totals = values got threads 0 in
    let shares = (thread_ranges_total n threads some_thread).1 in
    let p = macros.page_size in
    let scaled : total threads got ≡ n * p * sizeof_word =
      total-eq threads got _ (λ i below.
        exact i below
        ∙ share-total_expected macros n threads i below some_words fits
        ∙ scale_assoc (size (thread_range n threads i)) p)
      ∙ total-scale threads (p * sizeof_word) (λ i. size (thread_range n threads i))
      ∙ ap (λ k. k * (p * sizeof_word)) shares
      ∙ sym (scale_assoc n p) in
    let whole : total_received_bytes totals 0 ≡ n * p * sizeof_word = omega (
      arith,
      total_received_bytes-sum_of totals 0 (omega arith),
      sum_of-values got threads 0,
      scaled,
      ap (λ k. total k got) (zero_add threads),
    ) in
    let result : ℕ → Option ℕ =
      λ i. send_receive_data (job_of macros n threads i) (completions i) in
    let joined : join_threads result threads 0 ≡ some totals =
      join_threads-values result got threads 0 (λ k below. each k (omega arith)) in
    let narrow : expected_total_received_bytes n p ≡ n * p % 2 ^ 32 * sizeof_word = omega arith in
    rw (joined, main)
      (ap
          (λ k. some (record {
            total_received_bytes = k;
            expected_total_received_bytes = expected_total_received_bytes n p;
          }))
          whole
        ∙ ap
            (λ k. some (record {
              total_received_bytes = n * p * sizeof_word;
              expected_total_received_bytes = k;
            }))
            narrow)
