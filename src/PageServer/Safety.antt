-- ===== src/PageServer/Safety.antt =====
-- The event loop of server_iou.cpp as a whole: its memory, and what it answers.
use fast_net.Base.{
  ℕ, zero, suc, ◌+◌, ◌≡◌, refl, sym, ap, ◌∙◌, inl, inr, List, [], ◌∷◌, ◌++◌, some, arith,
  Bool-cases, Option-cases,
}
use fast_net.Uring.{Res}
use fast_net.Memory.{FillingStrategy}
use fast_net.Wire.{request_of_bytes, request_to_host_order}
use fast_net.Server.{Server}
use fast_net.Server.Replies.{IsServer}
use fast_net.Server.Connection.{reply_total}
use fast_net.Pool.Counting.{count-append}
use fast_net.Simple.{take_out}
use fast_net.SimpleServer.{is_end}
use fast_net.PageServer.{
  EventType, read, write, CustomRequest, Loop, add_read_request, Outcome, goes_on, returns, fault,
  and_then, free_block, free_base, Event, first_reads, start, serve, dispatch, on_event, event_loop,
}
use fast_net.PageServer.Buffers.{
  malloc-Holds, Holds-same, free_block-Holds, free_base-Holds, blocks_of, base_blocks, owned,
  IsLoop, IsSafe, Off, take_out-Taken, served,
}

written-IsSafe :
    (n : ℕ) (q : CustomRequest) (s : Loop)
    → Off n q s
    → q.event_type ≡ write
    → IsSafe n (and_then (free_base q.iov_base s) (free_block q.address))
written-IsSafe n q s off kind =
    let rest = owned s.in_flight in
    let (h, freed, holds) = free_base-Holds q.iov_base s (q.address ∷ rest) (
      Holds-same s.heap (blocks_of q ++ rest) (base_blocks q.iov_base ++ (q.address ∷ rest))
        (λ a. omega (
          arith,
          count-append a (base_blocks q.iov_base) rest,
          count-append a (base_blocks q.iov_base) (q.address ∷ rest),
        ))
        off.holds) in
    let (h', deleted, holds') = free_block-Holds q.address (record s { heap = h }) rest holds in
    rw (freed, and_then)
      (rw (deleted, IsSafe) (record { holds = holds'; reads_ok = ground (arith, off.reads_ok) }))

dispatch-IsSafe :
    (f : FillingStrategy) (v : Server) (n : ℕ) (kind : EventType) (res : Res) (bytes : List ℕ)
    (q : CustomRequest) (s : Loop)
    → IsServer f v
    → Off n q s
    → q.event_type ≡ kind
    → IsSafe n (dispatch v kind res bytes q s)
unfolding dispatch serve
dispatch-IsSafe f v n read res bytes q s ok off e = elim (Bool-cases (is_end res)) [
  | inl ended ↦ rw ended (blocks_of q, off.holds, ground (arith, off.reads_ok))
  | inr goes ↦
      let (call, replied, _) =
        reply_total f v (request_to_host_order v.host (request_of_bytes v.host bytes)) ok in
      let (u, done, in_order, _) = served n call q s off e in
      rw goes (rw (replied, serve) (rw (done, IsSafe) in_order))
]
dispatch-IsSafe f v n write res bytes q s ok off e = written-IsSafe n q s off e

take_out-Off :
    (n : ℕ) (i : ℕ) (s : Loop) (q : CustomRequest) (qs : List CustomRequest)
    → IsLoop n s
    → take_out i s.in_flight ≡ some (q, qs)
    → Off n q (record s { in_flight = qs })
take_out-Off n i s q qs l found =
    let t = take_out-Taken i s.in_flight (q, qs) found in
    record {
      holds = Holds-same s.heap (owned s.in_flight) (blocks_of q ++ owned qs) t.counted l.holds;
      reads_ok = sym t.numbered ∙ l.reads_ok;
    }

on_event-IsSafe :
    (f : FillingStrategy) (v : Server) (n : ℕ) (e : Event) (s : Loop)
    → IsServer f v
    → IsLoop n s
    → IsSafe n (on_event v e s)
unfolding on_event
on_event-IsSafe f v n e s ok l = elim (Option-cases (take_out e.index s.in_flight)) [
  | inl nothing ↦ rw (nothing, on_event) l
  | inr ((q, qs), found) ↦
      rw (found, on_event)
        (dispatch-IsSafe f v n q.event_type e.res e.bytes q (record s { in_flight = qs }) ok
          (take_out-Off n e.index s q qs l found) refl)
]

and_then-IsSafe :
    (n : ℕ) (o : Outcome) (g : Loop → Outcome)
    → IsSafe n o
    → ((t : Loop) → IsLoop n t → IsSafe n (g t))
    → IsSafe n (and_then o g)
and_then-IsSafe n (goes_on t) g safe next = next t safe
and_then-IsSafe n (returns t) g safe next = safe
and_then-IsSafe n fault g safe next = safe

event_loop-IsSafe :
    (f : FillingStrategy) (v : Server) (n : ℕ) (es : List Event) (s : Loop)
    → IsServer f v
    → IsLoop n s
    → IsSafe n (event_loop v es s)
unfolding event_loop
event_loop-IsSafe f v n [] s ok l = l
event_loop-IsSafe f v n (e ∷ es) s ok l =
    and_then-IsSafe n (on_event v e s) (event_loop v es) (on_event-IsSafe f v n e s ok l)
      (λ t l'. event_loop-IsSafe f v n es t ok l')

first_reads-IsLoop : (k n : ℕ) (s : Loop) → IsLoop n s → IsLoop (n + k) (first_reads k s)
unfolding first_reads add_read_request
first_reads-IsLoop zero n s l = record { holds = l.holds; reads_ok = omega (arith, l.reads_ok) }
first_reads-IsLoop (suc k) n s l =
    let h = s.heap.next in
    let rest = owned s.in_flight in
    let asked = add_read_request s in
    let shift : n + suc k ≡ suc n + k = omega arith in
    rw shift (
      first_reads-IsLoop k (suc n) asked (record {
        holds =
            Holds-same asked.heap ((h + 1) ∷ h ∷ rest) (h ∷ (h + 1) ∷ rest) (λ a. omega arith)
              (malloc-Holds 8 _ (h ∷ rest) (malloc-Holds 24 s.heap rest l.holds));
        reads_ok = ap suc l.reads_ok;
      }))

-- For a server whose block is filled and has fewer than 2^63 bytes, whatever completes, in whatever
-- order and with whatever bytes, the loop reads nothing outside of the block and frees only what is
-- allocated; while it runs, 64 reads are in flight and what is allocated is exactly what the
-- requests in flight own; where it returns, all that they own is left allocated.
pub page_loop-IsSafe :
    (f : FillingStrategy) (v : Server) (es : List Event)
    → IsServer f v
    → IsSafe 64 (event_loop v es start)
page_loop-IsSafe f v es ok = event_loop-IsSafe f v 64 es start ok (
    first_reads-IsLoop 64 0 _ (record {
      holds = record { exact = λ a. refl; unique = λ a. omega arith; fresh = λ a above. refl };
      reads_ok = refl;
    }))
