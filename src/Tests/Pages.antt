-- ===== src/Tests/Pages.antt =====
-- A server on a big-endian machine with three pages of two bytes, and a client on a little-endian
-- one: server.cpp, client.cpp, models/get_page.hpp, memory_block.hpp.
use mathlib.Core.List.{append-nil}
use fast_net.Base.{
  ℕ, zero, suc, ◌<◌, ◌≤◌, ◌≡◌, refl, ap, ◌∙◌, ◌↔◌, Bool, true, List, [], ◌∷◌, ◌++◌, Option, none,
  some, arith, length, length-take, length-drop, take, drop, not, ◌==◌,
}
use fast_net.Base.Result.{ok}
use fast_net.Wire.Machine.{big_host, big_host-IsHost, little_host, little_host-IsHost}
use fast_net.Wire.Portable.{RequestFits, HeaderFits, request_portable, response_portable}
use fast_net.Wire.{
  GetPageRequest, GetPageResponseHeader, request_bytes, request_of_bytes, request_to_network_order,
  request_to_host_order, header_bytes, header_to_network_order, response_of_bytes,
  response_to_host_order,
}
use fast_net.Memory.{
  alphabetical, get_value_at, MemoryBlock, memory_block, MemoryBlockVerifier, verify,
}
use fast_net.Memory.Filling.{values_from, memory_block-values_from}
use fast_net.Memory.Verify.{verify_iff}
use fast_net.Server.{ReadResult, got, failed, Call, Server, reply, full_read, handle_client, close}
use fast_net.Server.Replies.{IsServer, answer, sent_bytes, reply-answer}
use fast_net.Server.Connection.{ClosesLast, handle_client_safe, Says, sends, handle_client-answer}
use fast_net.Client.{receive, Client, Progress, done, make_request, client_main}
use fast_net.Client.Receive.{receive_whole}
use fast_net.Client.Session.{IsClient, Delivers, stream, client_main_correct}

abbrev pub request : GetPageRequest
request = record { request_id = 7; page_number = 2 }

abbrev pub request-fits : RequestFits request
request-fits = record { request_id_lt = omega arith; page_number_lt = omega arith }

request_portable_example :
    request_to_host_order little_host (
      request_of_bytes little_host
        (request_bytes big_host (request_to_network_order big_host request)))
    ≡ request
request_portable_example =
    request_portable big_host little_host big_host-IsHost little_host-IsHost request request-fits

abbrev header : GetPageResponseHeader
header = record { request_id = 7; status = 200; page_number = 2 }

abbrev header-fits : HeaderFits header
header-fits = record {
  request_id_lt = omega arith;
  status_lt = omega arith;
  page_number_lt = omega arith;
}

response_portable_example :
    response_to_host_order little_host (
      response_of_bytes little_host
        (header_bytes big_host (header_to_network_order big_host header) ++ (101 ∷ 102 ∷ [])))
    ≡ record { header = header; content = 101 ∷ 102 ∷ [] }
response_portable_example =
    response_portable big_host little_host big_host-IsHost little_host-IsHost header
      (101 ∷ 102 ∷ []) header-fits

abbrev block : MemoryBlock
block = record { bytes = 97 ∷ 98 ∷ 99 ∷ 100 ∷ 101 ∷ 102 ∷ []; strategy = alphabetical }

memory_block-values_from_example :
    memory_block 2 3 (some alphabetical)
    ≡ ok (record { bytes = values_from alphabetical 0 6; strategy = alphabetical })
memory_block-values_from_example = memory_block-values_from 2 3 alphabetical (omega arith)

abbrev verifier : MemoryBlockVerifier
verifier = record { page_count = 3; strategy = alphabetical }

abbrev last_page : List ℕ
last_page = 101 ∷ 102 ∷ []

verify_iff_example :
    (verify 2 verifier last_page 2 ≡ true) ↔ ((2 < 3) × (last_page ≡ values_from alphabetical 4 2))
verify_iff_example = verify_iff 2 verifier last_page 2 refl (omega arith)

abbrev pub server : Server
server = record { host = big_host; page_size = 2; page_count = 3; block = block }

pub server-IsServer : IsServer alphabetical server
unfolding get_value_at
server-IsServer = record { host_ok = big_host-IsHost; filled = refl; fits = omega arith }

-- A whole request, half of one, and the end of the connection.
abbrev reads : List ReadResult
reads = got (0 ∷ 0 ∷ 0 ∷ 1 ∷ 0 ∷ 0 ∷ 0 ∷ 9 ∷ []) ∷ got (1 ∷ 2 ∷ []) ∷ failed ∷ []

handle_client_safe_example :
    (calls : List Call) × (handle_client server reads ≡ some calls)
    × (length calls ≤ 3)
    × ClosesLast calls
handle_client_safe_example = handle_client_safe alphabetical server reads server-IsServer

handle_client-answer_example :
    (calls : List Call) × (handle_client server (sends little_host request ∷ failed ∷ reads)
      ≡ some (calls ++ close ∷ []))
    × Says little_host calls (answer alphabetical 2 3 request ∷ [])
unfolding full_read
handle_client-answer_example =
    handle_client-answer alphabetical server little_host (request ∷ []) failed reads server-IsServer
      little_host-IsHost (request-fits, tt) refl

receive_whole_example :
    receive 3 0 (0 ∷ 0 ∷ 0 ∷ []) (got (5 ∷ []) ∷ got (6 ∷ 7 ∷ []) ∷ failed ∷ [])
    ≡ some (record { total_read = 3; buffer = 5 ∷ 6 ∷ 7 ∷ []; rest = failed ∷ [] })
receive_whole_example =
    receive_whole 3 (0 ∷ 0 ∷ 0 ∷ []) ((5 ∷ []) ∷ (6 ∷ 7 ∷ []) ∷ []) (failed ∷ [])
      (omega arith, (omega arith, tt)) refl refl

abbrev pub client : Client
client = record { host = little_host; page_size = 2; page_count = 3; verifier = verifier }

pub client-IsClient : IsClient alphabetical server client
client-IsClient = record {
  host_ok = little_host-IsHost;
  same_size = refl;
  same_count = refl;
  verifier_ok = refl;
  some_page = omega arith;
  few_pages = omega arith;
}

-- What the server sends for the request of round `i`.
abbrev pub arrived : ℕ → GetPageRequest
arrived i = request_to_host_order big_host (
    request_of_bytes big_host
      (request_bytes little_host (request_to_network_order little_host (make_request client i))))

abbrev pub bytes_of : Option Call → List ℕ
bytes_of none = []
bytes_of (some call) = sent_bytes call

abbrev pub sent : ℕ → List ℕ
sent i = bytes_of (reply server (arrived i))

-- It comes in two pieces.
abbrev pub pieces : ℕ → List (List ℕ)
pieces i = take 5 (sent i) ∷ drop 5 (sent i) ∷ []

pub pieces-Delivers : (i : ℕ) → Delivers server client i (pieces i)
pieces-Delivers i =
    let fits : RequestFits (make_request client i) = record {
      request_id_lt = omega arith;
      page_number_lt = omega arith;
    } in
    let same : arrived i ≡ make_request client i =
      request_portable little_host big_host little_host-IsHost big_host-IsHost
        (make_request client i) fits in
    let (call, replied, sized, _) =
      reply-answer alphabetical server little_host (make_request client i) server-IsServer
        little_host-IsHost fits in
    let answered : reply server (arrived i) ≡ some call = ap (reply server) same ∙ replied in
    let whole : sent i ≡ sent_bytes call = ap bytes_of answered in
    let long : length (sent i) ≡ 14 = ap length whole ∙ sized in
    record {
      call = call;
      answered = answered;
      carried =
          ap (◌++◌ (take 5 (sent i))) (append-nil (drop 5 (sent i)))
          ∙ (take-append-drop 5 (sent i) ∙ whole);
      non_empty =
          (omega (arith, length-take 5 (sent i)), (omega (arith, length-drop 5 (sent i)), tt));
    }
  where
    take-append-drop : (n : ℕ) (xs : List ℕ) → take n xs ++ drop n xs ≡ xs
    take-append-drop zero xs = refl
    take-append-drop (suc n) [] = refl
    take-append-drop (suc n) (x ∷ xs) = ap (◌∷◌ x) (take-append-drop n xs)

client_main_correct_example :
    (q : Progress) × (client_main client 4 (λ _. true) (stream pieces 4 0) ≡ done (q, []))
    × (q.correct_responses ≡ 4)
    × (q.incorrect_responses ≡ 0)
client_main_correct_example =
    client_main_correct alphabetical server client 4 pieces server-IsServer client-IsClient
      pieces-Delivers (omega arith)

-- The first request is not sent, and the server closes the connection on the second.
abbrev unlucky : ℕ → Bool
unlucky i = not (i == 0)
