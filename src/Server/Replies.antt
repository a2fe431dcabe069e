-- ===== src/Server/Replies.antt =====
-- What the server's answers say, on any client's machine.
use native.Mathlib.Nat.{zero-add}
use fast_net.Base.{
  ℕ, ◌+◌, ◌*◌, ◌%◌, ◌^◌, ◌<◌, ◌≡◌, refl, ◌↔◌, inl, inr, true, List, [], ◌++◌, Option, some, arith,
  leb, leb→le, not_leb→lt, le→leb, lt→not_leb, if◌then◌else◌, length, Bool-cases, replicate,
  length-replicate, length-append,
}
use fast_net.Wire.Machine.{Host, IsHost}
use fast_net.Wire.Portable.{RequestFits, response_portable, length-header_bytes}
use fast_net.Wire.{
  GetPageStatus, success, invalid_page_number, status_word, GetPageRequest, GetPageResponseHeader,
  GetPageResponse, response_of_bytes, response_to_host_order, header_bytes, response_bytes,
  sizeof_response, header_to_network_order,
}
use fast_net.Memory.{FillingStrategy, verify, size_t_mod}
use fast_net.Memory.Filling.{values_from, length-values_from, take-drop-values_from}
use fast_net.Memory.Verify.{verify_iff, page_in_block}
use fast_net.Server.{Call, write, writev, close, Server, read_range, response_header, reply}

-- A running server: its block holds the pages that the constructor filled.
pub record IsServer (s : FillingStrategy) (v : Server) : Type 0 where
  pub host_ok : IsHost v.host
  pub filled :
      v.block ≡ record { bytes = values_from s 0 (v.page_size * v.page_count); strategy = s }
  pub fits : v.page_size * v.page_count < 2 ^ 63

abbrev pub header_of : GetPageRequest → GetPageStatus → GetPageResponseHeader
header_of r status = record {
  request_id = r.request_id;
  status = status_word status;
  page_number = r.page_number;
}

-- The service: a page that exists comes back with its bytes, any other number with the error
-- status and filler bytes; both with the number and the id of the request.
abbrev pub answer : FillingStrategy → ℕ → ℕ → GetPageRequest → GetPageResponse
answer s page_size page_count request =
    if leb page_count request.page_number
    then record {
      header = header_of request invalid_page_number;
      content = replicate page_size 0xFA;
    }
    else record {
      header = header_of request success;
      content = values_from s (request.page_number * page_size) page_size;
    }

pub answer-below :
    (s : FillingStrategy) (page_size page_count : ℕ) (r : GetPageRequest)
    → r.page_number < page_count
    → answer s page_size page_count r ≡ record {
      header = header_of r success;
      content = values_from s (r.page_number * page_size) page_size;
    }
answer-below s m n r h = rw (lt→not_leb n r.page_number h) refl

-- The bytes that a call hands to the connection.
abbrev pub sent_bytes : Call → List ℕ
sent_bytes (write bytes) = bytes
sent_bytes (writev header page) = header ++ page
sent_bytes close = []

-- The slice that `writev` is given lies inside of the block and is the page that was asked for.
pub read_range-page :
    (s : FillingStrategy) (page_size page_count page_number : ℕ)
    → page_number < page_count
    → read_range (values_from s 0 (page_size * page_count)) (page_number * page_size) page_size
      ≡ some (values_from s (page_number * page_size) page_size)
unfolding read_range
read_range-page s m n p h =
    let room = page_in_block p n m h in
    let inside : leb (p * m + m) (m * n) ≡ true = le→leb _ _ (omega arith) in
    rw
      (
        length-values_from s 0 (m * n),
        inside,
        take-drop-values_from s 0 (m * n) (p * m) m (omega arith),
        zero-add (p * m),
      )
      refl

-- The call is made, it sends the bytes of one response of pages of `m` bytes, and machine `h`
-- decodes them to `response`.
abbrev pub Decodes : Host → ℕ → Option Call → GetPageResponse → Type 0
Decodes h m call response =
    (c : Call) × (call ≡ some c)
    × (length (sent_bytes c) ≡ sizeof_response m)
    × (response_to_host_order h (response_of_bytes h (sent_bytes c)) ≡ response)

length-sent :
    (v : Server) (ok : IsHost v.host) (r : GetPageResponseHeader) (page : List ℕ)
    → length page ≡ v.page_size
    → length (header_bytes v.host r ++ page) ≡ sizeof_response v.page_size
length-sent v ok r page len =
    omega (arith, length-append (header_bytes v.host r) page, length-header_bytes v.host ok r)

-- For a server whose block is filled and has fewer than 2^63 bytes, whatever the two byte orders
-- are and whatever page is asked for, the server answers with no access outside of its block, the
-- answer is one whole response, and a client reads the service's answer out of its bytes.
pub reply-answer :
    (s : FillingStrategy) (v : Server) (h : Host) (r : GetPageRequest)
    → IsServer s v
    → IsHost h
    → RequestFits r
    → Decodes h v.page_size (reply v r) (answer s v.page_size v.page_count r)
unfolding reply response_header response_bytes
reply-answer s v h r ok h_ok fits = elim (Bool-cases (leb v.page_count r.page_number)) [
  | inl outside ↦
      let wire = header_to_network_order v.host (header_of r invalid_page_number) in
      let sized =
        length-sent v ok.host_ok wire (replicate v.page_size 0xFA)
          (length-replicate v.page_size 0xFA) in
      rw outside (
        _,
        refl,
        sized,
        response_portable v.host h ok.host_ok h_ok (header_of r invalid_page_number)
            (replicate v.page_size 0xFA) (omega arith),
      )
  | inr inside ↦
      let below = not_leb→lt _ _ inside in
      let room = page_in_block r.page_number v.page_count v.page_size below in
      let exact : r.page_number * v.page_size % size_t_mod ≡ r.page_number * v.page_size =
        omega arith in
      let slice = read_range-page s v.page_size v.page_count r.page_number below in
      let wire = header_to_network_order v.host (header_of r success) in
      let page = values_from s (r.page_number * v.page_size) v.page_size in
      let sized = length-sent v ok.host_ok wire page (length-values_from s _ v.page_size) in
      rw (inside, exact, ok.filled, slice)
        (
          _,
          refl,
          sized,
          response_portable v.host h ok.host_ok h_ok (header_of r success)
              (values_from s (r.page_number * v.page_size) v.page_size) (omega arith),
        )
]

-- If the block's size fits in a size_t, the test of a client with the same configuration accepts
-- the content of the service's answer exactly where the page exists.
pub verify-answer :
    (s : FillingStrategy) (page_size page_count : ℕ) (r : GetPageRequest)
    → page_count * page_size < size_t_mod
    → (verify page_size
          (record { page_count = page_count; strategy = s })
          (answer s page_size page_count r).content
          r.page_number
        ≡ true)
      ↔ (r.page_number < page_count)
verify-answer s m n r fits = elim (Bool-cases (leb n r.page_number)) [
  | inl outside ↦
      let spec =
        verify_iff m (record { page_count = n; strategy = s }) (replicate m 0xFA) r.page_number
          (length-replicate m 0xFA) fits in
      rw outside (λ e. (spec.0 e).0, λ h. absurd (omega (arith, leb→le _ _ outside)))
  | inr inside ↦
      let spec =
        verify_iff m (record { page_count = n; strategy = s }) (values_from s (r.page_number * m) m)
          r.page_number (length-values_from s (r.page_number * m) m) fits in
      rw inside (λ e. (spec.0 e).0, λ h. spec.1 (h, refl))
]
