-- ===== src/Tests/Pools.antt =====
-- A pool with one size of buffers: buffer_pool.hpp; and how requests are shared out: the clients'
-- `main`.
use fast_net.Base.{ℕ, ◌≤◌, ◌↔◌, ◌<◌, ◌≡◌, false, List, [], ◌∷◌, some, arith}
use fast_net.Pool.{Heap, no_heap, World, construct, allocate, destroy}
use fast_net.Pool.Counting.{count}
use fast_net.Pool.Ownership.{Inv, Allocated, allocate-Allocated}
use fast_net.Pool.Construction.{construct-Inv}
use fast_net.Pool.Lifetime.{Reach, built, later, allocates, destroy_exact}
use fast_net.Ranges.{thread_start, thread_end, batches}
use fast_net.Ranges.Partition.{owner, range_iff_owner}
use fast_net.Ranges.Batches.{Covers, batches-Covers}

-- A pool that starts with two buffers of 44 bytes.
abbrev fresh : World
fresh = construct false (44 ∷ []) 2 no_heap

fresh-Inv : Inv fresh []
fresh-Inv = construct-Inv false (44 ∷ []) 2

-- One buffer is in use.
abbrev used : World
used = (allocate false 44 fresh).1

abbrev buffer : ℕ
buffer = (allocate false 44 fresh).0

used-Allocated : Allocated 44 fresh [] (allocate false 44 fresh)
used-Allocated = allocate-Allocated false 44 fresh [] fresh-Inv

-- Three buffers are taken, one more than the pool has.
abbrev used_twice : World
used_twice = (allocate false 44 used).1

abbrev used_thrice : World
used_thrice = (allocate false 44 used_twice).1

abbrev held : List ℕ
held = (allocate false 44 used_twice).0 ∷ (allocate false 44 used).0 ∷ buffer ∷ []

three_taken : Reach false (44 ∷ []) 2 used_thrice held
three_taken = later (later (later built (allocates 44)) (allocates 44)) (allocates 44)

destroy_exact_example :
    (h : Heap) × (destroy false used_thrice ≡ some h) × ((a : ℕ) → count a h.live ≡ count a held)
destroy_exact_example = destroy_exact three_taken

range_iff_owner_example :
    ((thread_start 10 4 3 ≤ 9) × (9 < thread_end 10 4 3)) ↔ (◌≡◌ {A = ℕ} 3 (owner 10 4 9))
range_iff_owner_example = range_iff_owner 10 4 3 9 (omega arith) (omega arith)

batches-Covers_example : Covers 5 140 (batches 136 5 140)
batches-Covers_example = batches-Covers 136 5 140 (omega arith) (omega arith)
