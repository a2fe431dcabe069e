-- ===== src/SimpleClient/Verify.antt =====
-- simple_iou_client.cpp: what a thread does behind its loop when it is built with VERIFY. The
-- printing of VERBOSE is left out.
use fast_net.Base.{
  ℕ, ◌+◌, ◌*◌, ◌==◌, Option, none, some, suc, ◌≡◌, refl, ap, subst, ◌∙◌, inl, inr, ◌&&◌, List, [],
  ◌∷◌, arith, ltb, leb, length, if◌then◌else◌, Bool-cases,
}
use fast_net.Pool.{Heap, free}
use fast_net.Simple.{RequestData, sizeof_request_data}
use fast_net.SimpleClient.{Job, Thread, Event, Status, runs, fault, left, rounds, start}
use fast_net.SimpleClient.Ownership.{IsOwner, rounds-IsOwner}

-- The order of std::sort: by the number of the receive.
unfoldable pub insert_by_seq : RequestData → List RequestData → List RequestData
insert_by_seq r [] = r ∷ []
insert_by_seq r (q ∷ qs) =
    let later = q ∷ insert_by_seq r qs in
    if leb r.seq_number q.seq_number then r ∷ q ∷ qs else later

unfoldable pub sort_by_seq : List RequestData → List RequestData
unfolding insert_by_seq
sort_by_seq [] = []
sort_by_seq (r ∷ rs) = insert_by_seq r (sort_by_seq rs)

-- A pointer: a block, and how many bytes behind its start. `delete[]` takes the start of a block that
-- has been given out and not yet freed; of any other pointer it is a fault.
pub record Pointer : Type 0 where
  pub block : ℕ
  pub offset : ℕ

unfoldable pub delete_array : Pointer → Heap → Option Heap
delete_array p h = if p.offset == 0 then free p.block h else none

-- `recv.buffer` for the element `i` of a vector: the array that ends the struct, whose storage is not
-- apart from it.
abbrev pub buffer_of : ℕ → ℕ → Pointer
buffer_of storage i = record {
  block = storage;
  offset = i * sizeof_request_data + sizeof_request_data;
}

-- The loop over the copies, from element `i` on.
unfoldable pub delete_buffers : ℕ → ℕ → List RequestData → Thread → Status
unfolding delete_array
delete_buffers storage i [] t = runs t
delete_buffers storage i (recv ∷ recvs) t = elim (delete_array (buffer_of storage i) t.world.heap) [
  | none ↦ fault
  | some h ↦ delete_buffers storage (i + 1) recvs (record t { world = record t.world { heap = h } })
]

-- The storage of the vector is a block of its own.
unfoldable pub after_rounds : Job → Thread → Status
unfolding sort_by_seq delete_buffers
after_rounds j t =
    if j.verify then delete_buffers t.world.heap.next 0 (sort_by_seq t.recvs) t else runs t

length-insert_by_seq :
    (r : RequestData) (qs : List RequestData) → length (insert_by_seq r qs) ≡ suc (length qs)
unfolding insert_by_seq
length-insert_by_seq r [] = refl
length-insert_by_seq r (q ∷ qs) = elim (Bool-cases (leb r.seq_number q.seq_number)) [
  | inl first ↦ rw first refl
  | inr later ↦ rw later (ap suc (length-insert_by_seq r qs))
]

length-sort_by_seq : (rs : List RequestData) → length (sort_by_seq rs) ≡ length rs
unfolding sort_by_seq
length-sort_by_seq [] = refl
length-sort_by_seq (r ∷ rs) =
    length-insert_by_seq r (sort_by_seq rs) ∙ ap suc (length-sort_by_seq rs)

-- The array that ends a struct is not at the start of a block.
not_a_block : (storage i : ℕ) (h : Heap) → delete_array (buffer_of storage i) h ≡ none
unfolding delete_array
not_a_block storage i h = ground arith

deletes :
    (storage i : ℕ) (rs : List RequestData) (t : Thread)
    → delete_buffers storage i rs t ≡ (if ltb 0 (length rs) then fault else runs t)
unfolding delete_buffers
deletes storage i [] t = refl
deletes storage i (r ∷ rs) t =
    rw (not_a_block storage i t.world.heap, delete_buffers) (ground arith)

-- A thread that has left its loop goes on to its end, unless it is built with VERIFY and has
-- received a response: then it faults, at the `delete[]` of a pointer into the vector's block, behind
-- its start.
pub after_rounds_ends :
    (j : Job) (ess : List (List Event)) (t : Thread)
    → rounds j ess (start j) ≡ left t
    → after_rounds j t ≡ (if j.verify && ltb 0 t.iterations_received then fault else runs t)
unfolding after_rounds
after_rounds_ends j ess t leaves =
    let o = (subst (IsOwner j) leaves (rounds-IsOwner j ess)).0 in
    elim (Bool-cases j.verify) [
      | inl verifies ↦
          let (_, copies, _) = o.keeps verifies in
          rw verifies (
            deletes t.world.heap.next 0 (sort_by_seq t.recvs) t
            ∙ ap (λ n. if ltb 0 n then fault else runs t) (length-sort_by_seq t.recvs ∙ copies))
      | inr gives ↦ rw gives refl
    ]
