-- ===== src/Simple.antt =====
-- simple_consts.hpp: the request that the io_uring programs hand to the ring, and the list of those
-- in flight.
pub mod Flight
use fast_net.Base.{ℕ, zero, suc, ◌+◌, ◌*◌, List, [], ◌∷◌, Option, none, some}

pub data EventType : Type 0 where
  read_event write_event send_event recv_event : EventType

-- RequestData: `address` is the block that holds it, `words` what its array holds.
pub record RequestData : Type 0 where
  pub address : ℕ
  pub seq_owner : ℕ
  pub seq_number : ℕ
  pub event_type : EventType
  pub buffer_offset : ℕ
  pub words : List ℕ

-- sizeof(RequestData) with 8-byte words and pointers; the array at its end adds nothing.
abbrev pub sizeof_request_data : ℕ
sizeof_request_data = 40

abbrev pub sizeof_word : ℕ
sizeof_word = 4

-- The two sizes of buffers: with an array of a page, and of one word.
abbrev pub page_buffer_size : ℕ → ℕ
page_buffer_size page_size = sizeof_request_data + page_size * sizeof_word

abbrev pub word_buffer_size : ℕ
word_buffer_size = sizeof_request_data + sizeof_word

-- Takes the request at an index out of those in flight.
unfoldable pub take_out {ℓ} : {A : Type ℓ} → ℕ → List A → Option (A × List A)
take_out i [] = none
take_out zero (r ∷ rs) = some (r, rs)
take_out (suc i) (r ∷ rs) = elim (take_out i rs) [ none ↦ none | some (q, qs) ↦ some (q, r ∷ qs) ]
