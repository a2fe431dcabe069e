-- ===== src/SimpleClient/Holding.antt =====
-- The buffers that a client thread of simple_iou_client.cpp holds, and what a completion does with
-- them.
use fast_net.Base.{
  ℕ, ◌+◌, ◌%◌, ◌^◌, ◌≤◌, ◌<◌, ◌≡◌, ◌∙◌, inl, inr, true, false, List, [], ◌∷◌, ◌++◌, length,
  length-append, arith, All, Bool-cases, Option-cases,
}
use fast_net.Uring.{Res, bytes, error}
use fast_net.Pool.Counting.{count, count-append}
use fast_net.Pool.Ownership.{Inv, deallocate-Inv}
use fast_net.Pool.Lifetime.{Inv-held}
use fast_net.Simple.{
  EventType, read_event, write_event, send_event, recv_event, RequestData, page_buffer_size,
  word_buffer_size, take_out,
}
use fast_net.Simple.Flight.{blocks, count-blocks, take_out-Taken}
use fast_net.SimpleClient.{
  Job, Thread, Event, Status, give_back, keep_received, complete_one, on_result, on_event,
}
use fast_net.SimpleClient.Rule.{Holds}

-- The size by which the buffer of a request will be given back; only sends and receives are made.
abbrev pub IsSized : Job → (ℕ → ℕ) → EventType → ℕ → Type 0
IsSized j size_of send_event b = size_of b ≡ word_buffer_size
IsSized j size_of recv_event b = size_of b ≡ page_buffer_size j.page_size
IsSized j size_of read_event b = ⊥
IsSized j size_of write_event b = ⊥

abbrev pub AllSized : Job → (ℕ → ℕ) → List RequestData → Type 0
AllSized j size_of = All (λ r. IsSized j size_of r.event_type r.address)

-- The pool has given out exactly the buffers of the requests in flight, those of the requests `off`
-- the ring that are being dealt with, and those that are `kept`, each once; the ones in flight have
-- the size of their kind. None is kept but under VERIFY, and then every buffer is: that of each copy
-- in `recvs`, too, but for the `new` ones; there are as many copies as responses.
pub record Holding (j : Job) (off new : List ℕ) (t : Thread) : Type 0 where
  pub kept : List ℕ
  pub owned : Inv t.world (off ++ (blocks t.in_flight ++ kept))
  pub sized : AllSized j t.world.heap.size_of t.in_flight
  pub gives : j.verify ≡ false → (kept ≡ []) × (t.recvs ≡ [])
  pub keeps :
      j.verify ≡ true
      → (length off + length t.in_flight + length kept ≡ t.send_index + t.recv_index)
        × (length t.recvs ≡ t.iterations_received)
        × ((a : ℕ) → count a (blocks t.recvs) ≤ count a (new ++ kept))

abbrev pub Owns : Job → Thread → Type 0
Owns j = Holding j [] []

pub count_more : (a : ℕ) (xs ys : List ℕ) → 0 < count a xs → 0 < count a (xs ++ ys)
count_more a xs ys found = omega (arith, count-append a xs ys)

IsSized-kept :
    (j : Job) (f g : ℕ → ℕ) (kind : EventType) (b : ℕ)
    → g b ≡ f b
    → IsSized j f kind b
    → IsSized j g kind b
IsSized-kept j f g send_event b e h = e ∙ h
IsSized-kept j f g recv_event b e h = e ∙ h
IsSized-kept j f g read_event b e h = h
IsSized-kept j f g write_event b e h = h

pub AllSized-kept :
    (j : Job) (f g : ℕ → ℕ) (rs : List RequestData)
    → ((a : ℕ) → 0 < count a (blocks rs) → g a ≡ f a)
    → AllSized j f rs
    → AllSized j g rs
AllSized-kept j f g [] same h = tt
AllSized-kept j f g (r ∷ rs) same h = (
  IsSized-kept j f g r.event_type r.address (same r.address (ground arith)) h.0,
  AllSized-kept j f g rs (λ a found. same a (ground arith)) h.1,
)

-- What a status must satisfy: no fault, and a thread that runs owns its buffers.
abbrev pub IsSafe : Job → Status → Type 0
IsSafe j = Holds (Owns j) ⊥

module _ (j : Job) where
  -- Under VERIFY the buffer joins those that are kept.
  keep-Owns : (b : ℕ) (t : Thread) → j.verify ≡ true → Holding j (b ∷ []) (b ∷ []) t → Owns j t
  keep-Owns b t verifies o = record {
    kept = b ∷ o.kept;
    owned =
        Inv-held t.world (b ∷ (blocks t.in_flight ++ o.kept)) (blocks t.in_flight ++ (b ∷ o.kept))
          (λ a. omega (
            arith,
            count-append a (blocks t.in_flight) o.kept,
            count-append a (blocks t.in_flight) (b ∷ o.kept),
          ))
          o.owned;
    sized = o.sized;
    gives = λ v. cc;
    keeps = λ v. let (total, copies, copied) = o.keeps v in (omega (arith, total), copies, copied);
  }

  give_back-IsSafe :
      (q : RequestData) (size : ℕ) (t : Thread)
      → Holding j (q.address ∷ []) (q.address ∷ []) t
      → t.world.heap.size_of q.address ≡ size
      → IsSafe j (give_back j q size t)
  give_back-IsSafe q size t o sized = elim (Bool-cases j.verify) [
    | inl verifies ↦ rw (verifies, give_back, Holds) (keep-Owns q.address t verifies o)
    | inr gives ↦
        let (w, given, inv, same) =
          deallocate-Inv j.allocate_malloc q.address size t.world (blocks t.in_flight ++ o.kept)
            o.owned sized in
        rw (gives, given, give_back, Holds)
          (record {
            kept = o.kept;
            owned = inv;
            sized = rw same o.sized;
            gives = o.gives;
            keeps = λ v. cc;
          })
  ]

  -- A response is copied into `recvs`.
  receive-Holding :
      (n : ℕ) (q : RequestData) (t : Thread)
      → Holding j (q.address ∷ []) [] t
      → Holding j (q.address ∷ []) (q.address ∷ []) (record t {
        total_received = (t.total_received + n) % 2 ^ 64;
        iterations_received = t.iterations_received + 1;
        recvs = keep_received j q n t.recvs;
      })
  receive-Holding n q t o = record {
    kept = o.kept;
    owned = o.owned;
    sized = o.sized;
    gives = λ v. let (nothing, empty) = o.gives v in (nothing, rw (v, keep_received) empty);
    keeps = λ v.
        let (total, copies, copied) = o.keeps v in
        rw (v, keep_received)
          (
            total,
            omega (arith, copies, length-append t.recvs (record q { buffer_offset = n } ∷ [])),
            λ a. omega (arith, copied a, count-blocks a t.recvs (record q { buffer_offset = n })),
          );
  }

  complete_one-IsSafe :
      (kind : EventType) (n : ℕ) (q : RequestData) (t : Thread)
      → Holding j (q.address ∷ []) [] t
      → IsSized j t.world.heap.size_of kind q.address
      → IsSafe j (complete_one j kind n q t)
  unfolding complete_one
  complete_one-IsSafe send_event n q t o sized =
      give_back-IsSafe q word_buffer_size t
        (record {
          kept = o.kept;
          owned = o.owned;
          sized = o.sized;
          gives = o.gives;
          keeps = λ v.
              let (total, copies, copied) = o.keeps v in
              (total, copies, λ a. omega (arith, copied a));
        })
        sized
  complete_one-IsSafe recv_event n q t o sized =
      give_back-IsSafe q (page_buffer_size j.page_size) _ (receive-Holding n q t o) sized
  complete_one-IsSafe read_event n q t o sized = absurd sized
  complete_one-IsSafe write_event n q t o sized = absurd sized

  on_result-IsSafe :
      (res : Res) (q : RequestData) (t : Thread)
      → Holding j (q.address ∷ []) [] t
      → IsSized j t.world.heap.size_of q.event_type q.address
      → IsSafe j (on_result j res q t)
  on_result-IsSafe (error e) q t o sized = tt
  on_result-IsSafe (bytes n) q t o sized = complete_one-IsSafe q.event_type n q t o sized

  pub on_event-IsSafe : (e : Event) (t : Thread) → Owns j t → IsSafe j (on_event j e t)
  unfolding on_event
  on_event-IsSafe e t o = elim (Option-cases (take_out e.index t.in_flight)) [
    | inl nothing ↦ rw (nothing, on_event) o
    | inr ((q, qs), found) ↦
        let taken = take_out-Taken e.index t.in_flight q qs found in
        let (sized, all) =
          taken.split_all (λ r. IsSized j t.world.heap.size_of r.event_type r.address) o.sized in
        rw (found, on_event)
          (on_result-IsSafe e.res q (record t { in_flight = qs })
            (record {
              kept = o.kept;
              owned =
                  Inv-held t.world (blocks t.in_flight ++ o.kept)
                    (q.address ∷ (blocks qs ++ o.kept))
                    (λ a. omega (
                      arith,
                      taken.counted a,
                      count-append a (blocks t.in_flight) o.kept,
                      count-append a (blocks qs) o.kept,
                    ))
                    o.owned;
              sized = all;
              gives = o.gives;
              keeps = λ v.
                  let (total, copies, copied) = o.keeps v in
                  (omega (arith, total, taken.shorter), copies, copied);
            })
            sized)
  ]
