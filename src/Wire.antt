-- ===== src/Wire.antt =====
-- models/get_page.hpp: the messages of the page protocol and their packed layout in memory.
pub mod Machine
pub mod Portable
use fast_net.Base.{ℕ, ◌+◌, ◌==◌, if◌then◌else◌, List, ◌++◌, take, drop}
use Machine.{Host}

-- An enum over uint32_t: a cast makes any other word a value of the type too.
pub data GetPageStatus : Type 0 where
  success invalid_page_number : GetPageStatus
  unnamed : ℕ → GetPageStatus

abbrev pub status_word : GetPageStatus → ℕ
status_word success = 200
status_word invalid_page_number = 400
status_word (unnamed w) = w

-- static_cast<GetPageStatus>
abbrev pub status_cast : ℕ → GetPageStatus
status_cast w = if w == 200 then success else if w == 400 then invalid_page_number else unnamed w

pub record GetPageRequest : Type 0 where
  pub request_id : ℕ
  pub page_number : ℕ

pub record GetPageResponseHeader : Type 0 where
  pub request_id : ℕ
  pub status : ℕ
  pub page_number : ℕ

pub record GetPageResponse : Type 0 where
  pub header : GetPageResponseHeader
  pub content : List ℕ

abbrev pub sizeof_request : ℕ
sizeof_request = 8

abbrev pub sizeof_header : ℕ
sizeof_header = 12

abbrev pub sizeof_response : ℕ → ℕ
sizeof_response page_size = sizeof_header + page_size

module _ (h : Host) where
  unfoldable pub request_to_network_order : GetPageRequest → GetPageRequest
  request_to_network_order r = record {
    request_id = h.htonl r.request_id;
    page_number = h.htonl r.page_number;
  }

  unfoldable pub request_to_host_order : GetPageRequest → GetPageRequest
  request_to_host_order r = record {
    request_id = h.ntohl r.request_id;
    page_number = h.ntohl r.page_number;
  }

  unfoldable pub header_to_network_order : GetPageResponseHeader → GetPageResponseHeader
  header_to_network_order r = record {
    request_id = h.htonl r.request_id;
    status = h.htonl r.status;
    page_number = h.htonl r.page_number;
  }

  unfoldable pub header_to_host_order : GetPageResponseHeader → GetPageResponseHeader
  header_to_host_order r = record {
    request_id = h.ntohl r.request_id;
    status = h.ntohl r.status;
    page_number = h.ntohl r.page_number;
  }

  unfoldable pub response_to_host_order : GetPageResponse → GetPageResponse
  unfolding header_to_host_order
  response_to_host_order r = record r { header = header_to_host_order r.header }

  -- The object representations: fields one after the other, with no padding.
  unfoldable pub request_bytes : GetPageRequest → List ℕ
  request_bytes r = h.store r.request_id ++ h.store r.page_number

  unfoldable pub request_of_bytes : List ℕ → GetPageRequest
  request_of_bytes bs = record {
    request_id = h.load (take 4 bs);
    page_number = h.load (take 4 (drop 4 bs));
  }

  unfoldable pub header_bytes : GetPageResponseHeader → List ℕ
  header_bytes r = h.store r.request_id ++ (h.store r.status ++ h.store r.page_number)

  unfoldable pub header_of_bytes : List ℕ → GetPageResponseHeader
  header_of_bytes bs = record {
    request_id = h.load (take 4 bs);
    status = h.load (take 4 (drop 4 bs));
    page_number = h.load (take 4 (drop 8 bs));
  }

  unfoldable pub response_bytes : GetPageResponse → List ℕ
  unfolding header_bytes
  response_bytes r = header_bytes r.header ++ r.content

  unfoldable pub response_of_bytes : List ℕ → GetPageResponse
  unfolding header_of_bytes
  response_of_bytes bs = record {
    header = header_of_bytes (take sizeof_header bs);
    content = drop sizeof_header bs;
  }

abbrev pub header_get_status : GetPageResponseHeader → GetPageStatus
header_get_status r = status_cast r.status

abbrev pub response_get_status : GetPageResponse → GetPageStatus
response_get_status r = header_get_status r.header
