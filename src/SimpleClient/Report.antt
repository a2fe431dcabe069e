-- ===== src/SimpleClient/Report.antt =====
-- simple_iou_client.cpp: the sums that `main` prints when its threads have ended.
use fast_net.Base.{ℕ, ◌+◌, ◌*◌, ◌%◌, ◌^◌, ◌<◌, ◌≡◌, refl, List, [], ◌∷◌, arith}
use fast_net.Simple.{sizeof_word}

-- The loop over what the threads have received.
unfoldable pub total_received_bytes : List ℕ → ℕ → ℕ
total_received_bytes [] sum = sum
total_received_bytes (n ∷ total_received) sum =
    total_received_bytes total_received ((sum + n) % 2 ^ 64)

-- `1u` makes the first products those of 32 bits; the size of a word is a size_t.
unfoldable pub expected_total_received_bytes : ℕ → ℕ → ℕ
expected_total_received_bytes num_requests page_size =
    num_requests * page_size % 2 ^ 32 * sizeof_word % 2 ^ 64

-- What `main` expects is the number of bytes of all requests as long as the number of their words
-- fits 32 bits.
pub expected_total_received_bytes_exact :
    (num_requests page_size : ℕ)
    → num_requests * page_size < 2 ^ 32
    → expected_total_received_bytes num_requests page_size ≡ num_requests * page_size * sizeof_word
unfolding expected_total_received_bytes
expected_total_received_bytes_exact n page small = omega arith

-- With 2^20 requests for pages of 4096 words it expects none.
expected_none : expected_total_received_bytes (2 ^ 20) 4096 ≡ 0
unfolding expected_total_received_bytes
expected_none = refl
