-- ===== src/SimpleServer/Buffers.antt =====
-- Every request in flight owns its buffer, through the whole event loop.
use native.Mathlib.Nat.{zero-add}
use fast_net.Base.{
  ℕ, zero, suc, ◌+◌, ◌/◌, ◌≤◌, ◌<◌, ◌≡◌, refl, inl, inr, Bool, true, false, List, [], ◌∷◌, ◌∙◌,
  some, arith, if◌then◌else◌, ◌++◌, length, All, Option-cases, Bool-cases, ltb, ◌&&◌, ◌^◌,
}
use fast_net.Uring.{Res}
use fast_net.Pool.{allocate}
use fast_net.Pool.Counting.{count}
use fast_net.Pool.Ownership.{Inv, allocate-Allocated, deallocate-Inv}
use fast_net.Pool.Construction.{construct-Inv}
use fast_net.Pool.Lifetime.{Inv-held}
use fast_net.Simple.{
  EventType, read_event, write_event, send_event, recv_event, RequestData, word_buffer_size,
  take_out,
}
use fast_net.Simple.Flight.{blocks, number, take_out-Taken}
use fast_net.SimpleServer.{
  Setup, Loop, add_read_request, add_write_request, buffer_size, before_reads, first_reads, start,
  Outcome, goes_on, returns, fault, answer_request, on_read, is_end, and_then, on_write, dispatch,
  Event, on_event, event_loop,
}

abbrev pub is_read : RequestData → Bool
is_read r = elim r.event_type [ read_event ↦ true | _ ↦ false ]

abbrev pub ReadOrWrite : EventType → Type 0
ReadOrWrite read_event = Unit
ReadOrWrite write_event = Unit
ReadOrWrite _ = ⊥

-- The loop only ever submits reads and writes, each with a buffer of this size.
pub record IsRequest (size_of : ℕ → ℕ) (size : ℕ) (r : RequestData) : Type 0 where
  pub sized : size_of r.address ≡ size
  pub kind : ReadOrWrite r.event_type

-- The buffers of the requests in flight are exactly those that the pool has given out, none is
-- given out twice, each has the size by which it will be given back; `reads` of them are reads.
pub record IsLoop (c : Setup) (reads : ℕ) (s : Loop) : Type 0 where
  pub owned : Inv s.world (blocks s.in_flight)
  pub requests : All (IsRequest s.world.heap.size_of (buffer_size c)) s.in_flight
  pub reads_ok : number is_read s.in_flight ≡ reads

All-kept :
    (f g : ℕ → ℕ) (size : ℕ) (rs : List RequestData)
    → ((a : ℕ) → 0 < count a (blocks rs) → g a ≡ f a)
    → All (IsRequest f size) rs
    → All (IsRequest g size) rs
All-kept f g size [] same h = tt
All-kept f g size (r ∷ rs) same h = (
  record { sized = same r.address (ground arith) ∙ h.0.sized; kind = h.0.kind },
  All-kept f g size rs (λ a found. same a (ground arith)) h.1,
)

-- A request off the ring, with the loop's state behind it.
record Off (c : Setup) (reads : ℕ) (q : RequestData) (s : Loop) : Type 0 where
  owned : Inv s.world (q.address ∷ blocks s.in_flight)
  request : IsRequest s.world.heap.size_of (buffer_size c) q
  requests : All (IsRequest s.world.heap.size_of (buffer_size c)) s.in_flight
  reads_ok : (if is_read q then 1 else 0) + number is_read s.in_flight ≡ reads

take_out-Off :
    (c : Setup) (reads i : ℕ) (s : Loop) (q : RequestData) (qs : List RequestData)
    → IsLoop c reads s
    → take_out i s.in_flight ≡ some (q, qs)
    → Off c reads q (record s { in_flight = qs })
take_out-Off c reads i s q qs ok e =
    let t = take_out-Taken i s.in_flight q qs e in
    let (request, requests) =
      t.split_all (IsRequest s.world.heap.size_of (buffer_size c)) ok.requests in
    record {
      owned = Inv-held s.world (blocks s.in_flight) (q.address ∷ blocks qs) t.counted ok.owned;
      request = request;
      requests = requests;
      reads_ok = omega (arith, ok.reads_ok, t.numbered is_read);
    }

answer_request-IsLoop :
    (c : Setup) (reads word : ℕ) (q : RequestData) (s : Loop)
    → Off c reads q s
    → q.event_type ≡ read_event
    → IsLoop c reads (answer_request c word q s)
unfolding answer_request add_read_request add_write_request
answer_request-IsLoop c reads word q s off is_r =
    let size = buffer_size c in
    let held = q.address ∷ blocks s.in_flight in
    let a = allocate-Allocated c.allocate_malloc size s.world held off.owned in
    let (b, w) = allocate c.allocate_malloc size s.world in
    record {
      owned = Inv-held w (b ∷ held) (q.address ∷ b ∷ blocks s.in_flight) (λ x. omega arith) a.inv;
      requests = (
        record { sized = a.kept q.address (ground arith) ∙ off.request.sized; kind = tt },
        (
          record { sized = a.size_ok; kind = tt },
          All-kept s.world.heap.size_of w.heap.size_of size s.in_flight
              (λ x found. a.kept x (ground arith)) off.requests,
        ),
      );
      reads_ok = ground (arith, off.reads_ok);
    }

-- What an outcome must satisfy: no fault, and where the loop goes on, it does so in order; where it
-- returns, the buffers of the requests in flight and perhaps one more are still given out.
abbrev pub IsSafe : Setup → ℕ → Outcome → Type 0
IsSafe c reads (goes_on s) = IsLoop c reads s
IsSafe c reads (returns result s) =
    (lost : List ℕ) × Inv s.world (lost ++ blocks s.in_flight)
    × (reads ≤ length lost + number is_read s.in_flight)
    × (length lost ≤ 1)
IsSafe c reads fault = ⊥

on_write-IsSafe :
    (c : Setup) (reads : ℕ) (q : RequestData) (s : Loop)
    → Off c reads q s
    → q.event_type ≡ write_event
    → IsSafe c reads (on_write c q s)
unfolding on_write
on_write-IsSafe c reads q s off e =
    let (w, given, inv, same) =
      deallocate-Inv c.allocate_malloc q.address (buffer_size c) s.world (blocks s.in_flight)
        off.owned off.request.sized in
    rw (given, on_write, IsSafe)
      (record {
        owned = inv;
        requests = rw same off.requests;
        reads_ok = ground (arith, off.reads_ok);
      })

dispatch-IsSafe :
    (c : Setup) (reads : ℕ) (kind : EventType) (res : Res) (word : ℕ) (q : RequestData) (s : Loop)
    → Off c reads q s
    → q.event_type ≡ kind
    → IsSafe c reads (dispatch c kind res word q s)
unfolding dispatch on_read on_write
dispatch-IsSafe c reads read_event res word q s off e = elim (Bool-cases (is_end res)) [
  | inl ended ↦ rw ended (q.address ∷ [], off.owned, ground (arith, off.reads_ok), omega arith)
  | inr goes ↦
      rw goes (elim (Bool-cases (c.verify && (ltb c.num_requests word && ltb word (2 ^ 31)))) [
        | inl refused ↦
            rw refused (q.address ∷ [], off.owned, ground (arith, off.reads_ok), omega arith)
        | inr served ↦ rw served (answer_request-IsLoop c reads word q s off e)
      ])
]
dispatch-IsSafe c reads write_event res word q s off e = on_write-IsSafe c reads q s off e
dispatch-IsSafe c reads send_event res word q s off e = absurd (rw e at off.request.kind)
dispatch-IsSafe c reads recv_event res word q s off e = absurd (rw e at off.request.kind)

pub on_event-IsSafe :
    (c : Setup) (reads : ℕ) (e : Event) (s : Loop)
    → IsLoop c reads s
    → IsSafe c reads (on_event c e s)
unfolding on_event
on_event-IsSafe c reads e s ok = elim (Option-cases (take_out e.index s.in_flight)) [
  | inl null ↦ rw (null, on_event) ([], ok.owned, omega (arith, ok.reads_ok), omega arith)
  | inr ((q, qs), found) ↦
      rw (found, on_event)
        (dispatch-IsSafe c reads q.event_type e.res e.word q (record s { in_flight = qs })
          (take_out-Off c reads e.index s q qs ok found) refl)
]

and_then-IsSafe :
    (c : Setup) (reads : ℕ) (o : Outcome) (f : Loop → Outcome)
    → IsSafe c reads o
    → ((t : Loop) → IsLoop c reads t → IsSafe c reads (f t))
    → IsSafe c reads (and_then o f)
and_then-IsSafe c reads (goes_on t) f safe next = next t safe
and_then-IsSafe c reads (returns result t) f safe next = safe
and_then-IsSafe c reads fault f safe next = safe

event_loop-IsSafe :
    (c : Setup) (reads : ℕ) (es : List Event) (s : Loop)
    → IsLoop c reads s
    → IsSafe c reads (event_loop c es s)
unfolding event_loop
event_loop-IsSafe c reads [] s ok = ok
event_loop-IsSafe c reads (e ∷ es) s ok =
    and_then-IsSafe c reads (on_event c e s) (event_loop c es) (on_event-IsSafe c reads e s ok)
      (event_loop-IsSafe c reads es)

first_reads-IsLoop :
    (c : Setup) (n reads : ℕ) (s : Loop)
    → IsLoop c reads s
    → IsLoop c (reads + n) (first_reads c n s)
unfolding first_reads add_read_request
first_reads-IsLoop c zero reads s ok = record {
  owned = ok.owned;
  requests = ok.requests;
  reads_ok = omega (arith, ok.reads_ok);
}
first_reads-IsLoop c (suc n) reads s ok =
    let size = buffer_size c in
    let a = allocate-Allocated c.allocate_malloc size s.world (blocks s.in_flight) ok.owned in
    let w = (allocate c.allocate_malloc size s.world).1 in
    let shift : reads + suc n ≡ suc reads + n = omega arith in
    rw shift (
      first_reads-IsLoop c n (suc reads) _ (record {
        owned = a.inv;
        requests = (
          record { sized = a.size_ok; kind = tt },
          All-kept s.world.heap.size_of w.heap.size_of size s.in_flight a.kept ok.requests,
        );
        reads_ok = omega (arith, ok.reads_ok);
      }))

pub start-IsLoop : (c : Setup) → IsLoop c (c.ring_size / 4) (start c)
unfolding start
start-IsLoop c = rw (zero-add (c.ring_size / 4)) at (
    first_reads-IsLoop c (c.ring_size / 4) 0 (before_reads c) (record {
      owned =
          construct-Inv c.allocate_malloc (buffer_size c ∷ word_buffer_size ∷ [])
            c.initial_capacity;
      requests = tt;
      reads_ok = refl;
    }))

-- From its start, whatever completes and in whatever order, the loop never frees a buffer that is
-- not allocated and never gives one buffer to two requests; while it runs, RING_SIZE / 4 reads are
-- in flight, and the buffers given out are exactly those of the requests in flight.
pub event_loop_owns :
    (c : Setup) (es : List Event) → IsSafe c (c.ring_size / 4) (event_loop c es (start c))
event_loop_owns c es = event_loop-IsSafe c (c.ring_size / 4) es (start c) (start-IsLoop c)
