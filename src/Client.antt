-- ===== src/Client.antt =====
-- client.cpp: the blocking client. What `send` and `read` give is an argument; the reads form one
-- stream for the whole run. Timing and logging are left out.
pub mod Receive
pub mod Session
pub mod Counts
use Prim.Native.Nat.{zero, suc}
use fast_net.Base.{
  ℕ, ◌+◌, ◌-◌, ◌%◌, ◌^◌, Bool, true, false, not, List, [], ◌∷◌, ◌++◌, Option, none, some, ltb, leb,
  ◌==◌, if◌then◌else◌, length, take, drop, replicate,
}
use fast_net.Wire.Machine.{Host}
use fast_net.Wire.{
  GetPageRequest, GetPageResponse, request_to_network_order, request_bytes, response_bytes,
  response_of_bytes, response_to_host_order, response_get_status, GetPageStatus, success,
  invalid_page_number, unnamed, sizeof_response,
}
use fast_net.Memory.{MemoryBlockVerifier, verify}
use fast_net.Server.{ReadResult, got, failed}

-- A copy into the middle of a buffer.
abbrev pub write_at : List ℕ → ℕ → List ℕ → List ℕ
write_at buffer offset bytes = take offset buffer ++ (bytes ++ drop (offset + length bytes) buffer)

pub record Received : Type 0 where
  pub total_read : ℕ
  pub buffer : List ℕ
  pub rest : List ReadResult

-- The inner loop. A read asks for the bytes still missing, and what it does not take of a delivery
-- stays in the stream; `none` is a read that waits forever.
unfoldable pub receive : ℕ → ℕ → List ℕ → List ReadResult → Option Received
receive size total buffer [] =
    if ltb total size
    then none
    else some (record { total_read = total; buffer = buffer; rest = [] })
receive size total buffer (failed ∷ rs) = some (record {
  total_read = total;
  buffer = buffer;
  rest = if ltb total size then rs else failed ∷ rs;
})
receive size total buffer (got [] ∷ rs) = some (record {
  total_read = total;
  buffer = buffer;
  rest = if ltb total size then rs else got [] ∷ rs;
})
receive size total buffer (got (b ∷ bs) ∷ rs) =
    let bytes = b ∷ bs in
    let missing = size - total in
    let next = receive size (total + length bytes) (write_at buffer total bytes) rs in
    if not (ltb total size)
    then some (record { total_read = total; buffer = buffer; rest = got bytes ∷ rs })
    else if leb (length bytes) missing
    then next
    else some (record {
      total_read = size;
      buffer = write_at buffer total (take missing bytes);
      rest = got (drop missing bytes) ∷ rs;
    })

pub record Client : Type 0 where
  pub host : Host
  pub page_size : ℕ
  pub page_count : ℕ
  pub verifier : MemoryBlockVerifier

-- The variables of `main` that live across the rounds; the response is kept as its bytes.
pub record Progress : Type 0 where
  pub response : List ℕ
  pub correct_responses : ℕ
  pub incorrect_responses : ℕ

abbrev pub count_correct : Progress → Progress
count_correct p = record p { correct_responses = (p.correct_responses + 1) % 2 ^ 32 }

abbrev pub count_incorrect : Progress → Progress
count_incorrect p = record p { incorrect_responses = (p.incorrect_responses + 1) % 2 ^ 32 }

-- Why a run stops early: a read that never returns, or `% Config::page_count` at 0.
pub data Run {ℓ} (A : Type ℓ) : Type ℓ where
  done : A → Run A
  waiting : Run A
  division_by_zero : Run A

-- The request of round `i`.
abbrev pub make_request : Client → ℕ → GetPageRequest
make_request c i = record { request_id = i % 2 ^ 32; page_number = i % c.page_count % 2 ^ 32 }

-- What is done with a response that is complete: `r` is in host order.
unfoldable pub judge : Client → Progress → GetPageResponse → Progress
judge c p r = elim (response_get_status r) [
  | success ↦
      if verify c.page_size c.verifier r.content r.header.page_number
      then count_correct p
      else count_incorrect p
  | invalid_page_number ↦ count_incorrect p
  | unnamed w ↦ count_incorrect p
]

-- From the end of the inner loop to the end of the round.
unfoldable pub conclude : Client → Progress → Received → Progress
unfolding judge
conclude c p d =
    let size = sizeof_response c.page_size in
    let r = response_to_host_order c.host (response_of_bytes c.host d.buffer) in
    if d.total_read == size
    then judge c (record p { response = response_bytes c.host r }) r
    else record p { response = d.buffer }

-- `n` rounds from round `i`; `sent i` says whether `send` took the whole request of round `i`.
unfoldable pub run_rounds :
    Client → (ℕ → Bool) → ℕ → ℕ → Progress → List ReadResult → Run (Progress × List ReadResult)
unfolding receive conclude
run_rounds c sent zero i p reads = done (p, reads)
run_rounds c sent (suc n) i p reads = elim (c.page_count == 0) [
  | true ↦ division_by_zero
  | false ↦ elim (sent i) [
    | false ↦ run_rounds c sent n (i + 1) p reads
    | true ↦ elim (receive (sizeof_response c.page_size) 0 p.response reads) [
      | none ↦ waiting
      | some d ↦ run_rounds c sent n (i + 1) (conclude c p d) d.rest
    ]
  ]
]

-- `GetPageResponse response{}`: all bytes zero.
abbrev pub start : Client → Progress
start c = record {
  response = replicate (sizeof_response c.page_size) 0;
  correct_responses = 0;
  incorrect_responses = 0;
}

unfoldable pub client_main :
    Client → ℕ → (ℕ → Bool) → List ReadResult → Run (Progress × List ReadResult)
unfolding run_rounds
client_main c num_requests sent reads = run_rounds c sent num_requests 0 (start c) reads
