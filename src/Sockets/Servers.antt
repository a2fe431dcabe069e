-- ===== src/Sockets/Servers.antt =====
-- The servers: server.cpp, server_iou.cpp, simple_iou_server.cpp, max_server.cpp.
use fast_net.Base.{ℕ, zero, suc, Bool, false, List, [], ◌∷◌, ◌==◌, if◌then◌else◌}
use fast_net.Sockets.{
  Descriptor, minus_one, descriptor, opens, accepts, uses, closes, spawns, returns, exits, loops,
}
use fast_net.Sockets.Clients.{Run}

-- `socket(...) == 0`
abbrev pub is_zero : Descriptor → Bool
is_zero minus_one = false
is_zero (descriptor n) = n == 0

-- Each `main` up to its loop of accept: socket, bind, listen, and then `rest`.
unfoldable pub listening : Descriptor → (bound listens : Bool) → Run → Run
listening server_fd bound listens rest =
    if is_zero server_fd
    then record { end = exits; calls = opens server_fd ∷ [] }
    else if bound
    then if listens
      then record {
        end = rest.end;
        calls = opens server_fd ∷ uses server_fd ∷ uses server_fd ∷ rest.calls;
      }
      else record { end = exits; calls = opens server_fd ∷ uses server_fd ∷ uses server_fd ∷ [] }
    else record { end = exits; calls = opens server_fd ∷ uses server_fd ∷ [] }

-- The loop of server.cpp and server_iou.cpp, over what accept gives.
unfoldable pub accept_all : Descriptor → List Descriptor → Run
accept_all server_fd [] = record { end = loops; calls = [] }
accept_all server_fd (minus_one ∷ rest) = record {
  end = exits;
  calls = uses server_fd ∷ accepts minus_one ∷ [];
}
accept_all server_fd (descriptor n ∷ rest) =
    let later = accept_all server_fd rest in
    record {
      end = later.end;
      calls = uses server_fd ∷ accepts (descriptor n) ∷ spawns (descriptor n) ∷ later.calls;
    }

unfoldable pub page_server_run : Descriptor → (bound listens : Bool) → List Descriptor → Run
unfolding listening accept_all
page_server_run server_fd bound listens given =
    listening server_fd bound listens (accept_all server_fd given)

-- The loop of max_server.cpp and that of simple_iou_server.cpp, with `n` clients to come, and then
-- what follows it.
unfoldable pub accept_some : Descriptor → ℕ → List Descriptor → Run → Run
accept_some server_fd zero given behind = behind
accept_some server_fd (suc n) [] behind = record { end = loops; calls = [] }
accept_some server_fd (suc n) (minus_one ∷ rest) behind = record {
  end = exits;
  calls = uses server_fd ∷ accepts minus_one ∷ [];
}
accept_some server_fd (suc n) (descriptor m ∷ rest) behind =
    let later = accept_some server_fd n rest behind in
    record {
      end = later.end;
      calls = uses server_fd ∷ accepts (descriptor m) ∷ spawns (descriptor m) ∷ later.calls;
    }

-- max_server.cpp closes its socket; `main` has waited for its threads. simple_iou_server.cpp ends
-- with its socket open.
unfoldable pub max_server_run : Descriptor → (bound listens : Bool) → ℕ → List Descriptor → Run
unfolding listening accept_some
max_server_run server_fd bound listens client_threads given = listening server_fd bound listens (
    accept_some server_fd client_threads given
      (record { end = returns; calls = closes server_fd ∷ [] }))

unfoldable pub simple_server_run : Descriptor → (bound listens : Bool) → ℕ → List Descriptor → Run
unfolding listening accept_some
simple_server_run server_fd bound listens client_threads given =
    listening server_fd bound listens
      (accept_some server_fd client_threads given (record { end = returns; calls = [] }))
