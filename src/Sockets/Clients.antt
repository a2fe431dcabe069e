-- ===== src/Sockets/Clients.antt =====
-- The clients: client_iou.cpp, simple_iou_client.cpp, max_client.cpp, client.cpp.
use fast_net.Base.{Bool, true, false, List, [], ◌∷◌, ◌++◌, if◌then◌else◌}
use fast_net.Sockets.{
  Descriptor, minus_one, descriptor, Call, opens, uses, closes, inits_ring, exits_ring, End,
  returns, exits,
}

-- What connect gives; `in_progress` is -1 with the errno EINPROGRESS.
pub data Connect : Type 0 where
  connected in_progress refused : Connect

-- A value, and the calls made.
pub record Setup : Type 0 where
  pub sock : Descriptor
  pub calls : List Call

-- setup_socket of client_iou.cpp. The calls of a socket are fcntl and connect.
unfoldable pub setup_nonblocking : Descriptor → Connect → Setup
setup_nonblocking minus_one c = record { sock = minus_one; calls = opens minus_one ∷ [] }
setup_nonblocking sock refused = record {
  sock = minus_one;
  calls = opens sock ∷ uses sock ∷ uses sock ∷ closes sock ∷ [];
}
setup_nonblocking sock c = record { sock = sock; calls = opens sock ∷ uses sock ∷ uses sock ∷ [] }

-- setup_socket of simple_iou_client.cpp and of max_client.cpp, which are the same.
unfoldable pub setup_socket : Descriptor → Connect → Setup
setup_socket minus_one c = record { sock = minus_one; calls = opens minus_one ∷ [] }
setup_socket sock connected = record { sock = sock; calls = opens sock ∷ uses sock ∷ [] }
setup_socket sock c = record { sock = minus_one; calls = opens sock ∷ uses sock ∷ closes sock ∷ [] }

pub record Run : Type 0 where
  pub end : End
  pub calls : List Call

-- The functions below take how the traffic ends.
-- client_thread of client_iou.cpp; setup_io_uring calls exit where it fails.
unfoldable pub batches_end : Descriptor → End → Run
batches_end sock returns = record {
  end = returns;
  calls = uses sock ∷ closes sock ∷ exits_ring ∷ [];
}
batches_end sock e = record { end = e; calls = uses sock ∷ [] }

unfoldable pub behind_setup : Setup → End → Run
unfolding batches_end
behind_setup s e = elim s.sock [
  | minus_one ↦ record { end = returns; calls = inits_ring ∷ s.calls }
  | descriptor n ↦
      let r = batches_end (descriptor n) e in
      record { end = r.end; calls = inits_ring ∷ s.calls ++ r.calls }
]

unfoldable pub client_thread_run : Bool → Descriptor → Connect → End → Run
unfolding behind_setup setup_nonblocking
client_thread_run ring_ok sock c e =
    if ring_ok
    then behind_setup (setup_nonblocking sock c) e
    else record { end = exits; calls = [] }

-- The traffic of send_receive_data and of send_data, and what follows it.
unfoldable pub send_receive_end : Descriptor → End → List Call
send_receive_end sock returns = uses sock ∷ exits_ring ∷ closes sock ∷ []
send_receive_end sock e = uses sock ∷ []

-- send_receive_data of simple_iou_client.cpp; make_client_sock calls exit where it has no socket.
unfoldable pub send_receive_run : Bool → Descriptor → Connect → End → Run
unfolding setup_socket send_receive_end
send_receive_run ring_ok sock c e =
    let s = setup_socket sock c in
    elim s.sock [
      | minus_one ↦ record { end = exits; calls = s.calls }
      | descriptor n ↦
          if ring_ok
          then record {
            end = e;
            calls = s.calls ++ (inits_ring ∷ send_receive_end (descriptor n) e);
          }
          else record { end = exits; calls = s.calls }
    ]

-- send_data of max_client.cpp.
unfoldable pub send_data_run : Bool → Descriptor → Connect → End → Run
unfolding setup_socket send_receive_end
send_data_run ring_ok sock c e =
    let s = setup_socket sock c in
    elim s.sock [
      | minus_one ↦ record { end = returns; calls = s.calls }
      | descriptor n ↦
          if ring_ok
          then record {
            end = e;
            calls = s.calls ++ (inits_ring ∷ send_receive_end (descriptor n) e);
          }
          else record { end = returns; calls = s.calls ++ (closes (descriptor n) ∷ []) }
    ]

-- The loop of client.cpp, and what follows it: it may wait for good, or divide by a page count of 0.
unfoldable pub requests_end : Descriptor → End → Run
requests_end sock returns = record { end = returns; calls = uses sock ∷ closes sock ∷ [] }
requests_end sock e = record { end = e; calls = uses sock ∷ [] }

-- `main` of client.cpp; `is_address` says whether inet_pton reads the address.
unfoldable pub client_main_run : Descriptor → Bool → Connect → End → Run
unfolding requests_end
client_main_run minus_one is_address c e = record { end = returns; calls = opens minus_one ∷ [] }
client_main_run sock false c e = record { end = returns; calls = opens sock ∷ [] }
client_main_run sock true connected e =
    let r = requests_end sock e in record { end = r.end; calls = opens sock ∷ uses sock ∷ r.calls }
client_main_run sock true c e = record { end = returns; calls = opens sock ∷ uses sock ∷ [] }
