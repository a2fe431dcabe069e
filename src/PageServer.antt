-- ===== src/PageServer.antt =====
-- server_iou.cpp: the page server on io_uring. Each event is a completion: which of the requests in
-- flight it is for, its result, and the bytes that its buffer then holds.
pub mod Buffers
pub mod Safety
use fast_net.Base.{ℕ, zero, suc, ◌+◌, List, [], ◌∷◌, ◌++◌, Option, none, some, if◌then◌else◌}
use fast_net.Uring.{Res}
use fast_net.Wire.{request_of_bytes, request_to_host_order, sizeof_request}
use fast_net.Server.{Call, Server, reply}
use fast_net.Pool.{Heap, no_heap, malloc, free}
use fast_net.Simple.{take_out}
use fast_net.SimpleServer.{is_end}

pub data EventType : Type 0 where
  read write : EventType

-- `iov_base` is none where it is null.
pub record CustomRequest : Type 0 where
  pub address : ℕ
  pub event_type : EventType
  pub iov_base : Option ℕ

abbrev pub sizeof_custom_request : ℕ
sizeof_custom_request = 24

-- The heap, the requests that the ring holds, and the writes submitted so far, the last one first.
pub record Loop : Type 0 where
  pub heap : Heap
  pub in_flight : List CustomRequest
  pub writes : List Call

unfoldable pub add_read_request : Loop → Loop
add_read_request s =
    let (req, h) = malloc sizeof_custom_request s.heap in
    let (buffer, h') = malloc sizeof_request h in
    record s {
      heap = h';
      in_flight = record { address = req; event_type = read; iov_base = some buffer } ∷ s.in_flight;
    }

-- The call stands for the bytes that the code has laid out. It hands the ring pointers to variables
-- of the case; what the kernel reads behind them is not modelled.
unfoldable pub add_write_request : Call → Loop → Loop
add_write_request call s =
    let (req, h) = malloc sizeof_custom_request s.heap in
    record {
      heap = h;
      in_flight = record { address = req; event_type = write; iov_base = none } ∷ s.in_flight;
      writes = call ∷ s.writes;
    }

-- What an event leads to: `fault` is an access outside of the block, or a `free` of what is not
-- allocated.
pub data Outcome : Type 0 where
  goes_on returns : Loop → Outcome
  fault : Outcome

abbrev pub and_then : Outcome → (Loop → Outcome) → Outcome
and_then (goes_on s) f = f s
and_then (returns s) f = returns s
and_then fault f = fault

-- `free` of a pointer that may be null, and `delete`.
abbrev pub free_block : ℕ → Loop → Outcome
free_block a s = elim (free a s.heap) [ none ↦ fault | some h ↦ goes_on (record s { heap = h }) ]

abbrev pub free_base : Option ℕ → Loop → Outcome
free_base none s = goes_on s
free_base (some buffer) s = free_block buffer s

pub record Event : Type 0 where
  pub index : ℕ
  pub res : Res
  pub bytes : List ℕ

-- The loop that submits the first reads.
unfoldable pub first_reads : ℕ → Loop → Loop
first_reads zero s = s
first_reads (suc n) s = first_reads n (add_read_request s)

abbrev pub start : Loop
start = first_reads 64 (record { heap = no_heap; in_flight = []; writes = [] })

module _ (v : Server) where
  -- READ, behind the test for the end of the connection.
  unfoldable pub serve : List ℕ → CustomRequest → Loop → Outcome
  serve bytes req s =
      elim (reply v (request_to_host_order v.host (request_of_bytes v.host bytes))) [
        | none ↦ fault
        | some call ↦
            and_then (free_base req.iov_base (add_write_request call s))
              (λ t. free_block req.address (add_read_request t))
      ]

  -- The switch; `s` no longer has `req` in flight.
  unfoldable pub dispatch : EventType → Res → List ℕ → CustomRequest → Loop → Outcome
  dispatch read res bytes req s = if is_end res then returns s else serve bytes req s
  dispatch write res bytes req s = and_then (free_base req.iov_base s) (free_block req.address)

  -- One round of the loop; an index beyond the requests in flight stands for no completion.
  unfoldable pub on_event : Event → Loop → Outcome
  on_event e s = elim (take_out e.index s.in_flight) [
    | none ↦ goes_on s
    | some (req, rest) ↦ dispatch req.event_type e.res e.bytes req (record s { in_flight = rest })
  ]

  unfoldable pub event_loop : List Event → Loop → Outcome
  event_loop [] s = goes_on s
  event_loop (e ∷ es) s = and_then (on_event e s) (event_loop es)
