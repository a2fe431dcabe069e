-- ===== src/MaxServer/Reading.antt =====
-- One connection of max_server.cpp: its buffers, and what it adds to the counter.
use native.Mathlib.Nat.{zero-add}
use fast_net.Base.{
  ℕ, zero, suc, ◌+◌, ◌%◌, ◌<◌, ◌≡◌, refl, true, List, [], ◌∷◌, some, length, map, All, arith,
}
use fast_net.Uring.{Res, bytes, error}
use fast_net.Pool.Ownership.{Inv, allocate-Allocated}
use fast_net.Pool.Construction.{construct-Inv}
use fast_net.Pool.Lifetime.{Inv-held}
use fast_net.Simple.{RequestData, take_out}
use fast_net.Simple.Flight.{blocks, number, take_out-Taken}
use fast_net.MaxServer.{u64_mod, Action, reread, close_socket, on_completion}
use fast_net.MaxServer.Totals.{received}
use fast_net.MaxServer.Reads.{
  Setup, Loop, Event, Outcome, goes_on, returns, add_read_request, buffer_size, first_reads,
  before_reads, start, act, on_event, and_then, event_loop,
}

-- The results of the completions, in order.
abbrev pub results : List Event → List Res
results es = map (λ (e : Event). e.res) es

-- The pool has given out exactly the buffers of the reads in flight, `n` of them, each once; the
-- counter stands at `total`.
pub record IsLoop (n total : ℕ) (s : Loop) : Type 0 where
  pub owned : Inv s.world (blocks s.in_flight)
  pub reads : length s.in_flight ≡ n
  pub counted : s.total_bytes_received ≡ total

-- Where the loop returns, one more buffer than those of the reads in flight is given out.
abbrev pub IsSafe : ℕ → ℕ → Outcome → Type 0
IsSafe n total (goes_on s) = IsLoop n total s
IsSafe n total (returns s) =
    (last : ℕ) × Inv s.world (last ∷ blocks s.in_flight)
    × (length s.in_flight + 1 ≡ n)
    × (s.total_bytes_received ≡ total)

number_all : (rs : List RequestData) → number (λ r. true) rs ≡ length rs
number_all [] = refl
number_all (r ∷ rs) = omega (arith, number_all rs)

pub take_out-some :
    {A : Type 0} (i : ℕ) (xs : List A) → i < length xs → (r : A × List A) × (take_out i xs ≡ some r)
unfolding take_out
take_out-some i [] h = absurd (omega arith)
take_out-some zero (x ∷ xs) h = ((x, xs), refl)
take_out-some (suc i) (x ∷ xs) h =
    let ((q, qs), e) = take_out-some i xs (omega arith) in ((q, x ∷ qs), rw (e, take_out) refl)

module _ (c : Setup) where
  pub first_reads-IsLoop :
      (k n total : ℕ) (s : Loop) → IsLoop n total s → IsLoop (n + k) total (first_reads c k s)
  unfolding first_reads add_read_request
  first_reads-IsLoop zero n total s ok = record {
    owned = ok.owned;
    reads = omega (arith, ok.reads);
    counted = ok.counted;
  }
  first_reads-IsLoop (suc k) n total s ok =
      let a =
        allocate-Allocated c.allocate_malloc (buffer_size c) s.world (blocks s.in_flight)
          ok.owned in
      let shift : n + suc k ≡ suc n + k = omega arith in
      rw shift (
        first_reads-IsLoop k (suc n) total _
          (record { owned = a.inv; reads = omega (arith, ok.reads); counted = ok.counted }))

  -- A read is off the ring.
  pub record Off (n total : ℕ) (q : RequestData) (s : Loop) : Type 0 where
    pub owned : Inv s.world (q.address ∷ blocks s.in_flight)
    pub reads : length s.in_flight + 1 ≡ n
    pub counted : s.total_bytes_received ≡ total

  pub take_out-Off :
      (n total i : ℕ) (s : Loop) (q : RequestData) (qs : List RequestData)
      → IsLoop n total s
      → take_out i s.in_flight ≡ some (q, qs)
      → Off n total q (record s { in_flight = qs })
  take_out-Off n total i s q qs ok e =
      let t = take_out-Taken i s.in_flight q qs e in
      record {
        owned = Inv-held s.world (blocks s.in_flight) (q.address ∷ blocks qs) t.counted ok.owned;
        reads =
            omega (arith, ok.reads, t.numbered (λ r. true), number_all s.in_flight, number_all qs);
        counted = ok.counted;
      }

  -- What a completion and those behind it add.
  abbrev added : Action → ℕ → ℕ
  added close_socket later = 0
  added (reread n) later = n + later

  received-cons :
      (res : Res) (rs : List Res) → received (res ∷ rs) ≡ added (on_completion res) (received rs)
  unfolding on_completion
  received-cons (error e) rs = refl
  received-cons (bytes n) rs = ground arith

  act-IsSafe :
      (n total later : ℕ) (a : Action) (q : RequestData) (s : Loop) (f : Loop → Outcome)
      → total < u64_mod
      → Off n total q s
      → ((k : ℕ) (t : Loop) → k < u64_mod → IsLoop n k t → IsSafe n ((k + later) % u64_mod) (f t))
      → IsSafe n ((total + added a later) % u64_mod) (and_then c (act c a q s) f)
  unfolding act add_read_request
  act-IsSafe n total later close_socket q s f small off next =
      (q.address, off.owned, off.reads, omega (arith, off.counted))
  act-IsSafe n total later (reread k) q s f small off next =
      let sum : ((total + k) % u64_mod + later) % u64_mod ≡ (total + (k + later)) % u64_mod =
        omega arith in
      rw (← sum) (
        next ((total + k) % u64_mod) _ (omega arith) (record {
          owned = off.owned;
          reads = omega (arith, off.reads);
          counted = omega (arith, off.counted);
        }))

  event_loop-IsSafe :
      (n total : ℕ) (es : List Event) (s : Loop)
      → total < u64_mod
      → All (λ e. e.index < n) es
      → IsLoop n total s
      → IsSafe n ((total + received (results es)) % u64_mod) (event_loop c es s)
  unfolding event_loop on_event
  event_loop-IsSafe n total [] s small below ok = record {
    owned = ok.owned;
    reads = ok.reads;
    counted = omega (arith, ok.counted);
  }
  event_loop-IsSafe n total (e ∷ es) s small below ok =
      let ((q, qs), found) = take_out-some e.index s.in_flight (omega (arith, ok.reads, below.0)) in
      rw (received-cons e.res (results es), found, on_event)
        (act-IsSafe n total (received (results es)) (on_completion e.res) q
          (record s { in_flight = qs }) (event_loop c es) small
          (take_out-Off n total e.index s q qs ok found)
          (λ k t small' ok'. event_loop-IsSafe n k es t small' below.1 ok'))

-- Whatever the reads bring and in whatever order they complete: while the loop of a connection
-- runs, RING_SIZE reads are in flight, the buffers given out are exactly theirs, each once, and the
-- counter has grown by the bytes that the connection has brought, modulo 2^64; and when it returns,
-- by those that came before the connection ended or failed, with one read fewer in flight.
pub event_loop_counts :
    (c : Setup) (total : ℕ) (es : List Event)
    → total < u64_mod
    → All (λ e. e.index < c.ring_size) es
    → IsSafe c.ring_size
        ((total + received (results es)) % u64_mod)
        (event_loop c es (start c total))
unfolding start
event_loop_counts c total es small below =
    event_loop-IsSafe c c.ring_size total es (start c total) small below (
      rw (zero-add c.ring_size) at (
        first_reads-IsLoop c c.ring_size 0 total (before_reads c total) (record {
          owned = construct-Inv c.allocate_malloc (buffer_size c ∷ []) c.initial_capacity;
          reads = refl;
          counted = refl;
        })))
