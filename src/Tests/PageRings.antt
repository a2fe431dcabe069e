-- ===== src/Tests/PageRings.antt =====
-- Short runs of server_iou.cpp, with the server of the tests of server.cpp.
use fast_net.Base.{List, [], ◌∷◌}
use fast_net.Uring.{bytes, error}
use fast_net.Memory.{alphabetical}
use fast_net.PageServer.{Event, start, event_loop}
use fast_net.PageServer.Buffers.{IsSafe}
use fast_net.PageServer.Safety.{page_loop-IsSafe}
use fast_net.Tests.Pages.{server, server-IsServer}

-- A request for a page that there is not, a write, a read that fails, and the end.
abbrev events : List Event
events =
    record { index = 0; res = bytes 8; bytes = 0 ∷ 0 ∷ 0 ∷ 1 ∷ 0 ∷ 0 ∷ 0 ∷ 9 ∷ [] }
    ∷ record { index = 1; res = bytes 14; bytes = [] }
    ∷ record { index = 3; res = error 104; bytes = 0 ∷ [] }
    ∷ record { index = 0; res = bytes 0; bytes = [] }
    ∷ []

page_loop-IsSafe_example : IsSafe 64 (event_loop server events start)
page_loop-IsSafe_example = page_loop-IsSafe alphabetical server events server-IsServer
