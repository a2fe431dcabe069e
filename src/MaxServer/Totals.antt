-- ===== src/MaxServer/Totals.antt =====
-- The count does not depend on how the threads take turns.
use fast_net.Base.{
  ◌*◌, ℕ, zero, suc, ◌+◌, ◌%◌, ◌<◌, ◌≡◌, refl, inl, inr, Bool, true, false, List, [], ◌∷◌, ◌++◌,
  arith, ◌==◌, ==_iff, Bool-cases, if◌then◌else◌, All,
}
use fast_net.Uring.{Res, bytes, error}
use fast_net.MaxServer.{u64_mod, on_completion, Counters, start_counters, apply, step, run}

-- The completions of thread `i`, in order.
abbrev pub completions_of : ℕ → List (ℕ × Res) → List Res
completions_of i [] = []
completions_of i ((j, res) ∷ cs) = if j == i then res ∷ completions_of i cs else completions_of i cs

-- What one client sends before it closes the connection or a read fails.
abbrev pub received : List Res → ℕ
received [] = 0
received (error e ∷ rs) = 0
received (bytes n ∷ rs) = if n == 0 then 0 else n + received rs

-- The sum over the threads from 0 to `n` - 1.
abbrev pub total : ℕ → (ℕ → ℕ) → ℕ
total zero f = 0
total (suc n) f = total n f + f n

-- What thread `i` still brings in state `s`.
abbrev pending : Counters → List (ℕ × Res) → ℕ → ℕ
pending s cs i = if s.closed i then 0 else received (completions_of i cs)

pub total-eq : (n : ℕ) (f g : ℕ → ℕ) → ((i : ℕ) → i < n → f i ≡ g i) → total n f ≡ total n g
total-eq zero f g h = refl
total-eq (suc n) f g h =
    omega (arith, total-eq n f g (λ i below. h i (omega arith)), h n (omega arith))

pub total-scale : (n m : ℕ) (f : ℕ → ℕ) → total n (λ i. f i * m) ≡ total n f * m
total-scale zero m f = omega arith
total-scale (suc n) m f = grind (arith, total-scale n m f)

total-zero : (n : ℕ) (f : ℕ → ℕ) → ((i : ℕ) → f i ≡ 0) → total n f ≡ 0
total-zero zero f h = refl
total-zero (suc n) f h = omega (arith, total-zero n f h, h n)

-- Two families that differ at one index only.
total-differ :
    (n k d : ℕ) (f g : ℕ → ℕ)
    → k < n
    → ((i : ℕ) → (i == k) ≡ false → f i ≡ g i)
    → f k ≡ g k + d
    → total n f ≡ total n g + d
total-differ zero k d f g below h e = absurd (omega arith)
total-differ (suc n) k d f g below h e = elim (Bool-cases (n == k)) [
  | inl last ↦
      let same : n ≡ k = (==_iff n k).0 last in
      let at_k : f n ≡ g n + d = rw (← same) at e in
      omega (arith, total-eq n f g (λ i less. h i (ground arith)), at_k)
  | inr other ↦ omega (arith, total-differ n k d f g (ground arith) h e, h n other)
]

-- The bytes that a completion adds to the count.
abbrev gain : Bool → Res → ℕ
gain true res = 0
gain false (error e) = 0
gain false (bytes n) = n

step-total :
    (s : Counters) (j : ℕ) (res : Res)
    → s.total_bytes_received < u64_mod
    → (step (j, res) s).total_bytes_received
      ≡ (s.total_bytes_received + gain (s.closed j) res) % u64_mod
unfolding step apply on_completion
step-total s j (error e) small = ground arith
step-total s j (bytes n) small = ground arith

pending-other :
    (s : Counters) (j : ℕ) (res : Res) (cs : List (ℕ × Res)) (i : ℕ)
    → (i == j) ≡ false
    → pending s ((j, res) ∷ cs) i ≡ pending (step (j, res) s) cs i
unfolding step apply on_completion
pending-other s j (error e) cs i ne = ground arith
pending-other s j (bytes n) cs i ne = ground arith

pending_self :
    (s : Counters) (j : ℕ) (res : Res) (cs : List (ℕ × Res))
    → pending s ((j, res) ∷ cs) j ≡ pending (step (j, res) s) cs j + gain (s.closed j) res
unfolding step apply on_completion
pending_self s j (error e) cs = ground arith
pending_self s j (bytes n) cs = ground arith

run-total :
    (n : ℕ) (cs : List (ℕ × Res)) (s : Counters)
    → All (λ c. c.0 < n) cs
    → s.total_bytes_received < u64_mod
    → (run cs s).total_bytes_received ≡ (s.total_bytes_received + total n (pending s cs)) % u64_mod
unfolding run
run-total n [] s below small = omega (arith, total-zero n (pending s []) (λ i. ground arith))
run-total n ((j, res) ∷ cs) s below small =
    let s' = step (j, res) s in
    let added = step-total s j res small in
    let moved =
      total-differ n j (gain (s.closed j) res) (pending s ((j, res) ∷ cs)) (pending s' cs) below.0
        (pending-other s j res cs) (pending_self s j res cs) in
    omega (arith, run-total n cs s' below.1 (omega arith))

pub run-append : (cs ds : List (ℕ × Res)) (s : Counters) → run (cs ++ ds) s ≡ run ds (run cs s)
unfolding run
run-append [] ds s = refl
run-append (c ∷ cs) ds s = run-append cs ds (step c s)

-- However the completions of `n` threads are interleaved, the count is the sum of what each client
-- sent before its connection ended or failed, modulo 2^64.
pub run-received :
    (n : ℕ) (cs : List (ℕ × Res))
    → All (λ c. c.0 < n) cs
    → (run cs start_counters).total_bytes_received
      ≡ total n (λ i. received (completions_of i cs)) % u64_mod
run-received n cs below = omega (arith, run-total n cs start_counters below (omega arith))
