-- ===== src/MaxClient.antt =====
-- max_client.cpp: each thread keeps up to RING_SIZE sends in flight until all are completed. Each
-- round of the outer loop takes from outside how many submission entries the ring has free and
-- which completions have come. Timing and printing are left out.
pub mod Window
pub mod Exit
use fast_net.Base.{
  ℕ, zero, suc, ◌+◌, ◌-◌, ◌%◌, ◌^◌, Bool, true, false, ◌&&◌, List, [], ◌∷◌, Option, none, some, ltb,
  if◌then◌else◌,
}
use fast_net.Uring.{Res, bytes, error}
use fast_net.Ranges.{Range, thread_start, thread_end}

-- The loop in `main` over the threads: the range of thread `i`.
unfoldable pub thread_range : ℕ → ℕ → ℕ → Range
thread_range num_requests client_threads i =
    (thread_start num_requests client_threads i, thread_end num_requests client_threads i)

abbrev pub size_t_sub : ℕ → ℕ → ℕ
size_t_sub a b = (a + 2 ^ 64 - b) % 2 ^ 64

pub record Sender : Type 0 where
  pub requests_sent : ℕ
  pub requests_completed : ℕ

-- What a round finds: `free` calls of io_uring_get_sqe succeed, and these results have come.
pub record Round : Type 0 where
  pub free : ℕ
  pub results : List Res

module _ (ring_size local_num_requests : ℕ) where
  -- The test of the inner loop.
  unfoldable pub may_send : Sender → Bool
  may_send s =
      ltb s.requests_sent local_num_requests
      && ltb (size_t_sub s.requests_sent s.requests_completed) ring_size

  -- The inner loop: the entries of the sends that it prepares, and how many are sent after it.
  unfoldable pub send_loop : ℕ → Sender → Sender
  send_loop zero s = s
  send_loop (suc free) s =
      let more = send_loop free (record s { requests_sent = s.requests_sent + 1 }) in
      if may_send s then more else s

  -- The loop over the completions: a failed send is reported and not counted.
  unfoldable pub complete : List Res → Sender → Sender
  complete [] s = s
  complete (error e ∷ rs) s = complete rs s
  complete (bytes n ∷ rs) s =
      complete rs (record s { requests_completed = s.requests_completed + 1 })

  unfoldable pub round : Round → Sender → Sender
  unfolding send_loop complete
  round r s = complete r.results (send_loop r.free s)

  -- The outer loop over the rounds that happen; `none` where they end and the loop does not.
  unfoldable pub send_data : List Round → Sender → Option Sender
  unfolding round
  send_data [] s = if ltb s.requests_completed local_num_requests then none else some s
  send_data (r ∷ rs) s =
      let more = send_data rs (round r s) in
      if ltb s.requests_completed local_num_requests then more else some s

abbrev pub start_sender : Sender
start_sender = record { requests_sent = 0; requests_completed = 0 }
