-- ===== src/SimpleClient/Ownership.antt =====
-- Who owns the buffers of a client thread: simple_iou_client.cpp with its pool.
use fast_net.Base.{ℕ, ◌≤◌, ◌≡◌, refl, true, List, [], ◌∷◌, ◌++◌, some, arith}
use fast_net.Pool.{Heap, allocate, destroy}
use fast_net.Pool.Counting.{count}
use fast_net.Pool.Ownership.{allocate-Allocated}
use fast_net.Pool.Construction.{construct-Inv}
use fast_net.Pool.Lifetime.{destroy-held}
use fast_net.Simple.{page_buffer_size, word_buffer_size}
use fast_net.Simple.Flight.{blocks}
use fast_net.SimpleClient.{
  Job, Thread, Event, Progress, may_send, may_receive, send_one, receive_one, rounds, start,
}
use fast_net.SimpleClient.Rule.{Throughout, submit_keeps, rounds-Throughout}
use fast_net.SimpleClient.Holding.{AllSized-kept, count_more, Owns, on_event-IsSafe}

module _ (j : Job) where
  send_one-Owns : (t : Thread) → may_send j t ≡ true → Owns j t → Owns j (send_one j t)
  unfolding send_one
  send_one-Owns t may o =
      let held = blocks t.in_flight ++ o.kept in
      let a = allocate-Allocated j.allocate_malloc word_buffer_size t.world held o.owned in
      let w = (allocate j.allocate_malloc word_buffer_size t.world).1 in
      record {
        kept = o.kept;
        owned = a.inv;
        sized = (
          a.size_ok,
          AllSized-kept j t.world.heap.size_of w.heap.size_of t.in_flight
              (λ b found. a.kept b (count_more b (blocks t.in_flight) o.kept found)) o.sized,
        );
        gives = o.gives;
        keeps =
            λ v. let (total, copies, copied) = o.keeps v in (omega (arith, total), copies, copied);
      }

  receive_one-Owns : (t : Thread) → may_receive j t ≡ true → Owns j t → Owns j (receive_one j t)
  unfolding receive_one
  receive_one-Owns t may o =
      let size = page_buffer_size j.page_size in
      let held = blocks t.in_flight ++ o.kept in
      let a = allocate-Allocated j.allocate_malloc size t.world held o.owned in
      let w = (allocate j.allocate_malloc size t.world).1 in
      record {
        kept = o.kept;
        owned = a.inv;
        sized = (
          a.size_ok,
          AllSized-kept j t.world.heap.size_of w.heap.size_of t.in_flight
              (λ b found. a.kept b (count_more b (blocks t.in_flight) o.kept found)) o.sized,
        );
        gives = o.gives;
        keeps =
            λ v. let (total, copies, copied) = o.keeps v in (omega (arith, total), copies, copied);
      }

-- The destructor of the pool finds nothing to fault at and leaves what is given out allocated.
abbrev pub Destroys : Job → Thread → Type 0
Destroys j t =
    (o : Owns j t) × (h : Heap) × (destroy j.allocate_malloc t.world ≡ some h)
    × ((a : ℕ) → count a (blocks t.in_flight ++ o.kept) ≤ count a h.live)

-- A thread owns its buffers as long as it runs and where it leaves its loop.
abbrev pub IsOwner : Job → Progress → Type 0
IsOwner j = Throughout (Owns j) (Destroys j) ⊥

module _ (j : Job) where
  left-Destroys : (t : Thread) → Owns j t → Destroys j t
  left-Destroys t o =
      let (h, destroyed, still) =
        destroy-held j.allocate_malloc t.world (blocks t.in_flight ++ o.kept) o.owned in
      (o, h, destroyed, still)

  start-Owns : Owns j (start j)
  unfolding start
  start-Owns = record {
    kept = [];
    owned =
        construct-Inv j.allocate_malloc (page_buffer_size j.page_size ∷ word_buffer_size ∷ [])
          j.initial_capacity;
    sized = tt;
    gives = λ v. (refl, refl);
    keeps = λ v. (refl, refl, λ a. omega arith);
  }

-- From its start, whatever completes and in whatever order, a thread never gives `free` what is not
-- allocated in its loop: the buffers given out are exactly those of its requests in flight, each
-- once and with the size of its kind, and under VERIFY those of all its requests, with a copy of the
-- request for each response. Where it leaves its loop, the destructor of its pool, if it is reached,
-- runs with no fault and leaves the buffers that are given out allocated.
pub rounds-IsOwner : (j : Job) (ess : List (List Event)) → IsOwner j (rounds j ess (start j))
rounds-IsOwner j ess =
    rounds-Throughout j (Owns j) (Destroys j) ⊥
      (submit_keeps j (Owns j) (send_one-Owns j) (receive_one-Owns j)) (on_event-IsSafe j)
      (λ t over. left-Destroys j t) (λ t enough. left-Destroys j t) ess (start j) (start-Owns j)
