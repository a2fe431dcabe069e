-- ===== src/Wire/Portable.antt =====
-- models/get_page.hpp between two machines: the messages mean the same whatever their byte orders.
use fast_net.Base.{
  ℕ, ◌+◌, ◌^◌, ◌<◌, ◌≡◌, ap₂, List, ◌++◌, arith, length, length-append, take-append, drop-append,
}
use fast_net.Wire.Machine.{Host, IsHost, big_endian}
use fast_net.Wire.{
  GetPageRequest, GetPageResponseHeader, GetPageResponse, request_to_network_order,
  request_to_host_order, header_to_network_order, header_to_host_order, response_to_host_order,
  request_bytes, request_of_bytes, header_bytes, header_of_bytes, response_bytes, response_of_bytes,
  sizeof_request, sizeof_header,
}

-- Fields that fit in a uint32_t.
pub record RequestFits (r : GetPageRequest) : Type 0 where
  pub request_id_lt : r.request_id < 2 ^ 32
  pub page_number_lt : r.page_number < 2 ^ 32

pub record HeaderFits (r : GetPageResponseHeader) : Type 0 where
  pub request_id_lt : r.request_id < 2 ^ 32
  pub status_lt : r.status < 2 ^ 32
  pub page_number_lt : r.page_number < 2 ^ 32

module _ (g : Host) (ok : IsHost g) where
  -- In network order a request lies in memory as its two fields, the high byte of each first.
  pub request_bytes-request_to_network_order :
      (r : GetPageRequest)
      → RequestFits r
      → request_bytes g (request_to_network_order g r)
        ≡ big_endian r.request_id ++ big_endian r.page_number
  unfolding request_bytes request_to_network_order
  request_bytes-request_to_network_order r fits =
      ap₂ ◌++◌ (ok.store-htonl r.request_id fits.request_id_lt)
        (ok.store-htonl r.page_number fits.page_number_lt)

  pub header_bytes-header_to_network_order :
      (r : GetPageResponseHeader)
      → HeaderFits r
      → header_bytes g (header_to_network_order g r)
        ≡ big_endian r.request_id ++ (big_endian r.status ++ big_endian r.page_number)
  unfolding header_bytes header_to_network_order
  header_bytes-header_to_network_order r fits =
      ap₂ ◌++◌ (ok.store-htonl r.request_id fits.request_id_lt) (
        ap₂ ◌++◌ (ok.store-htonl r.status fits.status_lt)
          (ok.store-htonl r.page_number fits.page_number_lt))

  pub length-header_bytes : (r : GetPageResponseHeader) → length (header_bytes g r) ≡ sizeof_header
  unfolding header_bytes
  length-header_bytes r = omega (
    arith,
    length-append (g.store r.request_id) (g.store r.status ++ g.store r.page_number),
    length-append (g.store r.status) (g.store r.page_number),
    ok.length-store r.request_id,
    ok.length-store r.status,
    ok.length-store r.page_number,
  )

  pub length-request_bytes : (r : GetPageRequest) → length (request_bytes g r) ≡ sizeof_request
  unfolding request_bytes
  length-request_bytes r = omega (
    arith,
    length-append (g.store r.request_id) (g.store r.page_number),
    ok.length-store r.request_id,
    ok.length-store r.page_number,
  )

  pub length-response_bytes :
      (r : GetPageResponse) → length (response_bytes g r) ≡ sizeof_header + length r.content
  unfolding response_bytes
  length-response_bytes r =
      omega (arith, length-append (header_bytes g r.header) r.content, length-header_bytes r.header)

  -- Reading the fields back from network order.
  request_of_big_endian :
      (r : GetPageRequest)
      → RequestFits r
      → request_to_host_order g
          (request_of_bytes g (big_endian r.request_id ++ big_endian r.page_number))
        ≡ r
  unfolding request_to_host_order request_of_bytes
  request_of_big_endian r fits = cc (
    ok.ntohl-load r.request_id fits.request_id_lt,
    ok.ntohl-load r.page_number fits.page_number_lt,
  )

  header_of_big_endian :
      (r : GetPageResponseHeader)
      → HeaderFits r
      → header_to_host_order g (
          header_of_bytes g
            (big_endian r.request_id ++ (big_endian r.status ++ big_endian r.page_number)))
        ≡ r
  unfolding header_to_host_order header_of_bytes
  header_of_big_endian r fits = cc (
    ok.ntohl-load r.request_id fits.request_id_lt,
    ok.ntohl-load r.status fits.status_lt,
    ok.ntohl-load r.page_number fits.page_number_lt,
  )

module _ (g h : Host) (g_ok : IsHost g) (h_ok : IsHost h) where
  -- A request with 32-bit fields that machine `g` lays out in network order is read by machine `h`
  -- with the same fields, whatever the two byte orders are, as long as both machines' htonl, ntohl
  -- and word accesses behave as documented.
  pub request_portable :
      (r : GetPageRequest)
      → RequestFits r
      → request_to_host_order h
          (request_of_bytes h (request_bytes g (request_to_network_order g r)))
        ≡ r
  request_portable r fits =
      rw (request_bytes-request_to_network_order g g_ok r fits)
        (request_of_big_endian h h_ok r fits)

  -- A response whose header has 32-bit fields, laid out in network order by machine `g` and
  -- followed by any page, is read by machine `h` with the same header and the same page, as long
  -- as both machines' htonl, ntohl and word accesses behave as documented.
  pub response_portable :
      (r : GetPageResponseHeader) (page : List ℕ)
      → HeaderFits r
      → response_to_host_order h
          (response_of_bytes h (header_bytes g (header_to_network_order g r) ++ page))
        ≡ record { header = r; content = page }
  unfolding response_to_host_order response_of_bytes
  response_portable r page fits =
      let cut = length-header_bytes g g_ok (header_to_network_order g r) in
      rw (
        take-append (header_bytes g (header_to_network_order g r)) page cut,
        drop-append (header_bytes g (header_to_network_order g r)) page cut,
        header_bytes-header_to_network_order g g_ok r fits,
        header_of_big_endian h h_ok r fits,
      )
