-- ===== src/Server.antt =====
-- server.cpp: the blocking server. One thread runs `handle_client` for each connection; what the
-- socket delivers is an argument, and the system calls that the thread makes are the result.
pub mod Replies
pub mod Connection
use mathlib.Core.Option
use fast_net.Base.{
  ℕ, ◌+◌, ◌*◌, ◌%◌, List, [], ◌∷◌, ◌++◌, Option, none, some, leb, ◌==◌, if◌then◌else◌, length, take,
  drop, replicate,
}
use fast_net.Wire.Machine.{Host}
use fast_net.Wire.{
  GetPageStatus, success, invalid_page_number, status_word, GetPageRequest, GetPageResponseHeader,
  request_of_bytes, request_to_host_order, header_to_network_order, header_bytes, response_bytes,
  sizeof_request,
}
use fast_net.Memory.{MemoryBlock, size_t_mod}

-- What a call of `read` on the connection gives: bytes, none of them at the end of the stream, or
-- an error.
pub data ReadResult : Type 0 where
  got : List ℕ → ReadResult
  failed : ReadResult

pub data Call : Type 0 where
  write : List ℕ → Call
  writev : List ℕ → List ℕ → Call
  close : Call

-- The bytes from `offset` on that a call with this pointer and length reads; `none` is an access
-- outside of the vector.
unfoldable pub read_range : List ℕ → ℕ → ℕ → Option (List ℕ)
read_range bytes offset n =
    if leb (offset + n) (length bytes) then some (take n (drop offset bytes)) else none

-- A server on machine `h`, with its page size, Config::page_count and its block.
pub record Server : Type 0 where
  pub host : Host
  pub page_size : ℕ
  pub page_count : ℕ
  pub block : MemoryBlock

unfoldable pub response_header : Host → GetPageRequest → GetPageStatus → GetPageResponseHeader
response_header h request status = header_to_network_order h (record {
  request_id = request.request_id;
  status = status_word status;
  page_number = request.page_number;
})

-- The body of the loop behind the read: `request` is in host order.
unfoldable pub reply : Server → GetPageRequest → Option Call
unfolding response_header read_range
reply v request =
    if leb v.page_count request.page_number
    then some (
        write (
          response_bytes v.host (record {
            header = response_header v.host request invalid_page_number;
            content = replicate v.page_size 0xFA;
          })))
    else Option.map (writev (header_bytes v.host (response_header v.host request success)))
        (read_range v.block.bytes (request.page_number * v.page_size % size_t_mod) v.page_size)

-- A read of any other length ends the loop.
unfoldable pub full_read : ReadResult → Option (List ℕ)
full_read failed = none
full_read (got bytes) = if length bytes == sizeof_request then some bytes else none

-- The loop over the reads of the connection; `none` is an access outside of the block. Where the
-- reads run out the thread waits.
unfoldable pub handle_client : Server → List ReadResult → Option (List Call)
unfolding full_read
handle_client v [] = some []
handle_client v (r ∷ rs) = elim (full_read r) [
  | none ↦ some (close ∷ [])
  | some bytes ↦ elim (reply v (request_to_host_order v.host (request_of_bytes v.host bytes))) [
    | none ↦ none
    | some call ↦ Option.map (◌∷◌ call) (handle_client v rs)
  ]
]
