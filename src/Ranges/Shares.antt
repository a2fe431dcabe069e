-- ===== src/Ranges/Shares.antt =====
-- How many requests the threads have together: max_client.cpp and simple_iou_client.cpp.
use native.Mathlib.Nat.{div-mul-le_self}
use fast_net.Base.{ℕ, zero, suc, ◌+◌, ◌-◌, ◌*◌, ◌/◌, ◌≤◌, ◌<◌, ◌≡◌, arith}
use fast_net.Ranges.{Range, thread_start, thread_end}
use fast_net.MaxServer.Totals.{total}
use fast_net.MaxClient as Max
use fast_net.SimpleClient as Simple

-- The length of a range, as `end_index - start_index` gives it.
abbrev pub size : Range → ℕ
size (start, end) = end - start

inner_share : (n t i : ℕ) → i + 1 < t → thread_end n t i - thread_start n t i ≡ n / t
unfolding thread_start thread_end
inner_share n t i below = ground (arith, successor i (n / t))
  where
    successor : (i q : ℕ) → (i + 1) * q ≡ i * q + q
    successor i q = grind arith

last_share : (n t : ℕ) → thread_end n (suc t) t - thread_start n (suc t) t ≡ n - t * (n / suc t)
unfolding thread_start thread_end
last_share n t = ground arith

shares_below :
    (n t k : ℕ) → k < t → total k (λ i. thread_end n t i - thread_start n t i) ≡ k * (n / t)
shares_below n t zero h = omega arith
shares_below n t (suc k) h =
    grind (arith, shares_below n t k (omega arith), inner_share n t k (omega arith))

all_shares : (n t : ℕ) → total (suc t) (λ i. thread_end n (suc t) i - thread_start n (suc t) i) ≡ n
all_shares n t =
    let whole : t * (n / suc t) ≤ n = grind (arith, div-mul-le_self n (suc t)) in
    omega (arith, shares_below n (suc t) t (omega arith), last_share n t, whole)

-- The threads of either client, if there is at least one, have all the requests between them:
-- the sizes of their ranges add up to the number of requests.
pub thread_ranges_total :
    (n t : ℕ)
    → 0 < t
    → (total t (λ i. size (Max.thread_range n t i)) ≡ n)
      × (total t (λ i. size (Simple.thread_range n t i)) ≡ n)
unfolding Max.thread_range Simple.thread_range
thread_ranges_total n zero h = absurd (omega arith)
thread_ranges_total n (suc t) h = (all_shares n t, all_shares n t)
