-- ===== src/Ranges.antt =====
-- How the clients share their requests out among threads: the loop in `main` of client_iou.cpp,
-- and those of max_client.cpp and simple_iou_client.cpp, which have constants for the parameters.
pub mod Partition
pub mod Batches
pub mod Shares
use fast_net.Base.{ℕ, zero, suc, ◌+◌, ◌-◌, ◌*◌, ◌/◌, List, [], ◌∷◌, ltb, ◌==◌, if◌then◌else◌, min}

abbrev pub Range : Type 0
Range = ℕ × ℕ

unfoldable pub thread_start : ℕ → ℕ → ℕ → ℕ
thread_start num_requests threads i = i * (num_requests / threads)

unfoldable pub thread_end : ℕ → ℕ → ℕ → ℕ
thread_end num_requests threads i =
    if i == threads - 1 then num_requests else (i + 1) * (num_requests / threads)

abbrev pub batch_size : ℕ
batch_size = 64

-- The batches of `client_thread`: `fuel` bounds their number.
unfoldable pub batches : ℕ → ℕ → ℕ → List Range
batches zero i end = []
batches (suc fuel) i end =
    let rest = batches fuel (i + batch_size) end in
    if ltb i end then (i, min end (i + batch_size)) ∷ rest else []
