-- ===== src/Server/Connection.antt =====
-- The loop of `handle_client` over a whole connection.
use fast_net.Base.{
  ◌*◌, ◌%◌, ◌≤◌, ◌≡◌, refl, inl, inr, List, [], ◌∷◌, ◌++◌, some, none, arith, leb, not_leb→lt,
  length, map, Bool-cases, Option-cases, All,
}
use fast_net.Wire.Machine.{Host, IsHost}
use fast_net.Wire.Portable.{RequestFits, request_portable, length-request_bytes}
use fast_net.Wire.{
  GetPageRequest, GetPageResponse, request_bytes, request_of_bytes, request_to_network_order,
  request_to_host_order, response_of_bytes, response_to_host_order,
}
use fast_net.Memory.{FillingStrategy, size_t_mod}
use fast_net.Memory.Verify.{page_in_block}
use fast_net.Server.{
  ReadResult, got, Call, write, writev, close, Server, reply, full_read, handle_client,
}
use fast_net.Server.Replies.{IsServer, answer, sent_bytes, read_range-page, reply-answer}

-- Answers first; the connection is closed at most once, by the last call.
abbrev pub ClosesLast : List Call → Type 0
ClosesLast [] = Unit
ClosesLast (close ∷ cs) = cs ≡ []
ClosesLast (write bytes ∷ cs) = ClosesLast cs
ClosesLast (writev header page ∷ cs) = ClosesLast cs

abbrev IsAnswer : Call → Type 0
IsAnswer close = ⊥
IsAnswer _ = Unit

ClosesLast-cons : (c : Call) (cs : List Call) → IsAnswer c → ClosesLast cs → ClosesLast (c ∷ cs)
ClosesLast-cons (write bytes) cs a h = h
ClosesLast-cons (writev header page) cs a h = h
ClosesLast-cons close cs a h = absurd a

pub reply_total :
    (s : FillingStrategy) (v : Server) (r : GetPageRequest)
    → IsServer s v
    → (c : Call) × (reply v r ≡ some c) × IsAnswer c
unfolding reply
reply_total s v r ok = elim (Bool-cases (leb v.page_count r.page_number)) [
  | inl outside ↦ rw outside (_, refl, tt)
  | inr inside ↦
      let below = not_leb→lt _ _ inside in
      let room = page_in_block r.page_number v.page_count v.page_size below in
      let fits = ok.fits in
      let exact : r.page_number * v.page_size % size_t_mod ≡ r.page_number * v.page_size =
        omega arith in
      let slice = read_range-page s v.page_size v.page_count r.page_number below in
      rw (inside, exact, ok.filled, slice) (_, refl, tt)
]

-- For a server whose block is filled and has fewer than 2^63 bytes, whatever bytes a client sends,
-- the server reads nothing outside of its block, it makes at most one call for each read, and it
-- closes the connection at most once, as its last call.
pub handle_client_safe :
    (s : FillingStrategy) (v : Server) (reads : List ReadResult)
    → IsServer s v
    → (calls : List Call) × (handle_client v reads ≡ some calls)
      × (length calls ≤ length reads)
      × ClosesLast calls
unfolding handle_client
handle_client_safe s v [] ok = ([], refl, omega arith, tt)
handle_client_safe s v (r ∷ rs) ok = elim (Option-cases (full_read r)) [
  | inl end ↦ rw (end, handle_client) (close ∷ [], refl, omega arith, refl)
  | inr (bytes, full) ↦
      let (c, replied, is_answer) =
        reply_total s v (request_to_host_order v.host (request_of_bytes v.host bytes)) ok in
      let (calls, looped, short, last) = handle_client_safe s v rs ok in
      rw (full, handle_client)
        (rw (replied, handle_client)
          (rw looped (c ∷ calls, refl, omega arith, ClosesLast-cons c calls is_answer last)))
]

-- The calls say, in order, these responses to machine `h`.
abbrev pub Says : Host → List Call → List GetPageResponse → Type 0
Says h [] [] = Unit
Says h [] (r ∷ rs) = ⊥
Says h (c ∷ cs) [] = ⊥
Says h (c ∷ cs) (r ∷ rs) =
    (response_to_host_order h (response_of_bytes h (sent_bytes c)) ≡ r) × Says h cs rs

-- The read that delivers a request of machine `g`.
abbrev pub sends : Host → GetPageRequest → ReadResult
sends g r = got (request_bytes g (request_to_network_order g r))

full_read-sends :
    (g : Host) (r : GetPageRequest)
    → IsHost g
    → full_read (sends g r) ≡ some (request_bytes g (request_to_network_order g r))
unfolding full_read
full_read-sends g r ok = rw (length-request_bytes g ok (request_to_network_order g r)) refl

-- For a server whose block is filled and has fewer than 2^63 bytes and a client on any machine,
-- requests that arrive whole are answered in order, one answer each, by what the service says of
-- them; then a read of another length or an error closes the connection, and nothing behind it is
-- served.
pub handle_client-answer :
    (s : FillingStrategy) (v : Server) (h : Host) (requests : List GetPageRequest)
    (bad : ReadResult) (rest : List ReadResult)
    → IsServer s v
    → IsHost h
    → All RequestFits requests
    → full_read bad ≡ none
    → (calls : List Call) × (handle_client v (map (sends h) requests ++ (bad ∷ rest))
        ≡ some (calls ++ close ∷ []))
      × Says h calls (map (answer s v.page_size v.page_count) requests)
unfolding handle_client
handle_client-answer s v h [] bad rest ok h_ok fits ends = rw (ends, handle_client) ([], refl, tt)
handle_client-answer s v h (r ∷ rs) bad rest ok h_ok fits ends =
    let (c, replied, _, said) = reply-answer s v h r ok h_ok fits.0 in
    let (calls, looped, says) = handle_client-answer s v h rs bad rest ok h_ok fits.1 ends in
    let portable = request_portable h v.host h_ok ok.host_ok r fits.0 in
    rw (full_read-sends h r h_ok, handle_client)
      (rw (portable, replied, handle_client) (rw looped (c ∷ calls, refl, (said, says))))
