-- ===== src/Ranges/Partition.antt =====
-- Every request goes to exactly one thread.
use native.Mathlib.Nat.{div-mul-le_self, lt-div-mul-add}
use fast_net.Base.{
  ℕ, ◌+◌, ◌-◌, ◌*◌, ◌/◌, ◌≤◌, ◌<◌, ◌≡◌, refl, ◌↔◌, inl, inr, arith, ◌==◌, Bool-cases, ==_iff, ltb,
  ltb→lt, not_ltb→le, if◌then◌else◌, min,
}
use fast_net.Ranges.{thread_start, thread_end}

start_mono : (i j q : ℕ) → i ≤ j → i * q ≤ j * q
start_mono i j q h = grind arith

-- The ranges of `t` threads lie one behind the other: thread 0 starts at 0, each thread ends where
-- the next one starts, and the last at the number of requests.
pub ranges_adjacent :
    (n t i : ℕ)
    → i < t
    → (thread_start n t 0 ≡ 0)
      × (thread_end n t i ≡ (if i + 1 == t then n else thread_start n t (i + 1)))
unfolding thread_start thread_end
ranges_adjacent n t i below = (omega arith, ground arith)

-- A range lies within the requests.
pub thread_range_le :
    (n t i : ℕ) → i < t → (thread_start n t i ≤ thread_end n t i) × (thread_end n t i ≤ n)
unfolding thread_start thread_end
thread_range_le n t i below =
    let whole = div-mul-le_self n t in
    let here = start_mono i t (n / t) (omega arith) in
    let next = start_mono (i + 1) t (n / t) (omega arith) in
    let grows = start_mono i (i + 1) (n / t) (omega arith) in
    let turned : n / t * t ≡ t * (n / t) = grind arith in ground arith

-- The thread that request `k` goes to.
abbrev pub owner : ℕ → ℕ → ℕ → ℕ
owner n t k = if n / t == 0 then t - 1 else min (k / (n / t)) (t - 1)

-- A request in the range of thread `o`, as the products say it.
abbrev Has : ℕ → ℕ → ℕ → ℕ → Type 0
Has n t k o = (o < t) × (thread_start n t o ≤ k) × (k < thread_end n t o)

Has-last : (n t k o : ℕ) → 0 < t → k < n → o ≡ t - 1 → o * (n / t) ≤ k → Has n t k o
unfolding thread_start thread_end
Has-last n t k o ht hk last low = (omega arith, low, ground arith)

Has-inner : (n t k o : ℕ) → o + 1 < t → o * (n / t) ≤ k → k < (o + 1) * (n / t) → Has n t k o
unfolding thread_start thread_end
Has-inner n t k o inner low high = (omega arith, low, ground arith)

-- Each request lies in the range of its thread.
owner_has :
    (n t k : ℕ)
    → 0 < t
    → k < n
    → (owner n t k < t) × (thread_start n t (owner n t k) ≤ k) × (k < thread_end n t (owner n t k))
owner_has n t k ht hk = elim (Bool-cases (n / t == 0)) [
  | inl none_each ↦
      let zero_each : n / t ≡ 0 = (==_iff _ _).0 none_each in
      rw none_each (Has-last n t k (t - 1) ht hk refl (rw zero_each (grind arith)))
  | inr some_each ↦
      let each : 0 < n / t = ground arith in
      let low = div-mul-le_self k (n / t) in
      let high = lt-div-mul-add {a = k} each in
      rw some_each (elim (Bool-cases (ltb (k / (n / t)) (t - 1))) [
        | inl inner ↦
            let below = ltb→lt _ _ inner in
            let o : min (k / (n / t)) (t - 1) ≡ k / (n / t) = omega arith in
            rw o (Has-inner n t k (k / (n / t)) (omega arith) low (omega arith))
        | inr last ↦
            let above = not_ltb→le _ _ last in
            let o : min (k / (n / t)) (t - 1) ≡ t - 1 = omega arith in
            let mono = start_mono (t - 1) (k / (n / t)) (n / t) above in
            rw o (Has-last n t k (t - 1) ht hk refl (omega arith))
      ])
]

ranges_apart : (n t i j : ℕ) → i < j → j < t → thread_end n t i ≤ thread_start n t j
unfolding thread_start thread_end
ranges_apart n t i j below hj = ground (arith, start_mono (i + 1) j (n / t))

-- No request lies in two ranges.
ranges_disjoint :
    (n t i j k : ℕ)
    → i < t
    → j < t
    → thread_start n t i ≤ k
    → k < thread_end n t i
    → thread_start n t j ≤ k
    → k < thread_end n t j
    → i ≡ j
ranges_disjoint n t i j k hi hj si ei sj ej =
    ground (arith, ranges_apart n t i j, ranges_apart n t j i)

-- With `t` threads the ranges divide the requests: request `k` lies in the range of the thread that
-- `owner` names, and in no other.
pub range_iff_owner :
    (n t i k : ℕ)
    → i < t
    → k < n
    → ((thread_start n t i ≤ k) × (k < thread_end n t i)) ↔ (i ≡ owner n t k)
range_iff_owner n t i k hi hk =
    let (inside, low, high) = owner_has n t k (omega arith) hk in
    (λ (a, b). ranges_disjoint n t i (owner n t k) k hi inside a b low high, λ e. rw e (low, high))
