-- ===== src/Sockets/Orderly.antt =====
-- The programs use only descriptors that they hold, and what they hold at their end.
use fast_net.Base.{ℕ, ◌≡◌, refl, Bool, true, false, List, [], ◌∷◌, ==_refl, some, arith}
use fast_net.Pool.{remove}
use fast_net.Sockets.{
  Descriptor, minus_one, descriptor, Call, End, returns, exits, throws, loops, Held, nothing_held,
  after_calls,
}
use fast_net.Sockets.Clients.{
  Connect, connected, in_progress, refused, Run, client_thread_run, send_receive_run, send_data_run,
  client_main_run, requests_end, setup_socket, setup_nonblocking, behind_setup, batches_end,
  send_receive_end,
}

-- What a client thread holds where it returns.
abbrev pub ReturnsWith : Run → Held → Type 0
ReturnsWith r h = elim r.end [
  | returns ↦ after_calls r.calls nothing_held ≡ some h
  | _ ↦ (g : Held) × (after_calls r.calls nothing_held ≡ some g)
]

remove_self : (n : ℕ) (ms : List ℕ) → remove n (n ∷ ms) ≡ some ms
unfolding remove
remove_self n ms = rw (==_refl n) refl

send_data_run-closed :
    (ring_ok : Bool) (sock : Descriptor) (c : Connect) (e : End)
    → ReturnsWith (send_data_run ring_ok sock c e) nothing_held
unfolding send_data_run setup_socket send_receive_end
send_data_run-closed ring_ok minus_one c e = refl
send_data_run-closed true (descriptor n) connected returns = ground (arith, remove_self n [])
send_data_run-closed true (descriptor n) connected exits =
    (record { descriptors = n ∷ []; rings = 1 }, ground (arith, remove_self n []))
send_data_run-closed true (descriptor n) connected throws =
    (record { descriptors = n ∷ []; rings = 1 }, ground (arith, remove_self n []))
send_data_run-closed true (descriptor n) connected loops =
    (record { descriptors = n ∷ []; rings = 1 }, ground (arith, remove_self n []))
send_data_run-closed false (descriptor n) connected e = ground (arith, remove_self n [])
send_data_run-closed ring_ok (descriptor n) in_progress e = ground (arith, remove_self n [])
send_data_run-closed ring_ok (descriptor n) refused e = ground (arith, remove_self n [])

send_receive_run-closed :
    (ring_ok : Bool) (sock : Descriptor) (c : Connect) (e : End)
    → ReturnsWith (send_receive_run ring_ok sock c e) nothing_held
unfolding send_receive_run setup_socket send_receive_end
send_receive_run-closed ring_ok minus_one c e = (nothing_held, refl)
send_receive_run-closed true (descriptor n) connected returns = ground (arith, remove_self n [])
send_receive_run-closed true (descriptor n) connected exits =
    (record { descriptors = n ∷ []; rings = 1 }, ground (arith, remove_self n []))
send_receive_run-closed true (descriptor n) connected throws =
    (record { descriptors = n ∷ []; rings = 1 }, ground (arith, remove_self n []))
send_receive_run-closed true (descriptor n) connected loops =
    (record { descriptors = n ∷ []; rings = 1 }, ground (arith, remove_self n []))
send_receive_run-closed false (descriptor n) connected e =
    (record { descriptors = n ∷ []; rings = 0 }, ground (arith, remove_self n []))
send_receive_run-closed ring_ok (descriptor n) in_progress e =
    (nothing_held, ground (arith, remove_self n []))
send_receive_run-closed ring_ok (descriptor n) refused e =
    (nothing_held, ground (arith, remove_self n []))

-- A thread of client_iou.cpp without a socket keeps its ring.
abbrev pub left_of : Descriptor → Connect → Held
left_of minus_one c = record { descriptors = []; rings = 1 }
left_of (descriptor n) refused = record { descriptors = []; rings = 1 }
left_of (descriptor n) c = nothing_held

-- A socket that does not refuse.
connected_run-closed :
    (n : ℕ) (e : End) → ReturnsWith (client_thread_run true (descriptor n) connected e) nothing_held
unfolding client_thread_run setup_nonblocking behind_setup batches_end
connected_run-closed n returns = ground (arith, remove_self n [])
connected_run-closed n exits =
    (record { descriptors = n ∷ []; rings = 1 }, ground (arith, remove_self n []))
connected_run-closed n throws =
    (record { descriptors = n ∷ []; rings = 1 }, ground (arith, remove_self n []))
connected_run-closed n loops =
    (record { descriptors = n ∷ []; rings = 1 }, ground (arith, remove_self n []))

client_thread_run-closed :
    (ring_ok : Bool) (sock : Descriptor) (c : Connect) (e : End)
    → ReturnsWith (client_thread_run ring_ok sock c e) (left_of sock c)
unfolding client_thread_run setup_nonblocking behind_setup
client_thread_run-closed false sock c e = (nothing_held, refl)
client_thread_run-closed true minus_one c e = refl
client_thread_run-closed true (descriptor n) connected e = connected_run-closed n e
client_thread_run-closed true (descriptor n) in_progress e = connected_run-closed n e
client_thread_run-closed true (descriptor n) refused e = ground (arith, remove_self n [])

-- Without an address or a connection client.cpp ends with its socket open.
abbrev pub left_of_main : Descriptor → Bool → Connect → Held
left_of_main minus_one is_address c = nothing_held
left_of_main (descriptor n) true connected = nothing_held
left_of_main (descriptor n) is_address c = record { descriptors = n ∷ []; rings = 0 }

client_main_run-closed :
    (sock : Descriptor) (is_address : Bool) (c : Connect) (e : End)
    → ReturnsWith (client_main_run sock is_address c e) (left_of_main sock is_address c)
unfolding client_main_run requests_end
client_main_run-closed minus_one is_address c e = refl
client_main_run-closed (descriptor n) false connected e = refl
client_main_run-closed (descriptor n) false in_progress e = refl
client_main_run-closed (descriptor n) false refused e = refl
client_main_run-closed (descriptor n) true connected returns = ground (arith, remove_self n [])
client_main_run-closed (descriptor n) true connected exits =
    (record { descriptors = n ∷ []; rings = 0 }, ground (arith, remove_self n []))
client_main_run-closed (descriptor n) true connected throws =
    (record { descriptors = n ∷ []; rings = 0 }, ground (arith, remove_self n []))
client_main_run-closed (descriptor n) true connected loops =
    (record { descriptors = n ∷ []; rings = 0 }, ground (arith, remove_self n []))
client_main_run-closed (descriptor n) true in_progress e = ground (arith, remove_self n [])
client_main_run-closed (descriptor n) true refused e = ground (arith, remove_self n [])

-- A thread of max_client.cpp or simple_iou_client.cpp that returns has closed its socket and its
-- ring, whatever the system answers. So has one of client_iou.cpp that gets a socket and a
-- connection; without these it returns with its ring still set up. `main` of client.cpp, where it
-- returns, has closed its socket if it was connected, and has it open if it had no address or
-- connection. However the traffic ends, none uses a socket or leaves a ring that it does not hold.
pub client_threads-closed :
    (ring_ok is_address : Bool) (sock : Descriptor) (c : Connect) (e : End)
    → ReturnsWith (send_data_run ring_ok sock c e) nothing_held
      × ReturnsWith (send_receive_run ring_ok sock c e) nothing_held
      × ReturnsWith (client_thread_run ring_ok sock c e) (left_of sock c)
      × ReturnsWith (client_main_run sock is_address c e) (left_of_main sock is_address c)
client_threads-closed ring_ok is_address sock c e = (
  send_data_run-closed ring_ok sock c e,
  send_receive_run-closed ring_ok sock c e,
  client_thread_run-closed ring_ok sock c e,
  client_main_run-closed sock is_address c e,
)

-- A server that holds its socket only.
abbrev pub holding : ℕ → Held
holding n = record { descriptors = n ∷ []; rings = 0 }

-- How a server that starts with `g` ends: where it returns it holds `h`, elsewhere its socket.
abbrev pub EndsWith : Held → ℕ → Held → End → List Call → Type 0
EndsWith g n h returns calls = after_calls calls g ≡ some h
EndsWith g n h _ calls = after_calls calls g ≡ some (holding n)

abbrev pub Ends : Held → ℕ → Held → Run → Type 0
Ends g n h r = EndsWith g n h r.end r.calls
