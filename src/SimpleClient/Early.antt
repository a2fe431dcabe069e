-- ===== src/SimpleClient/Early.antt =====
-- How a thread of simple_iou_client.cpp leaves its loop.
use fast_net.Base.{
  ◌^◌, ◌+◌, ◌/◌, ◌≤◌, ◌<◌, ◌≡◌, refl, sym, ◌∙◌, inl, inr, Bool, true, false, ◌⊎◌, List, [], ◌∷◌,
  arith, if◌then◌else◌,
}
use fast_net.Simple.Flight.{number}
use fast_net.SimpleClient.{
  Job, Thread, Event, num_requests, total_expected, has_more, has_all, Progress, left, submit,
  complete, round, rounds, start,
}
use fast_net.SimpleClient.Windows.{
  FitsInt, InWindow-FitsInt, InWindow, is_recv, submit-InWindow, submit_all, submit-received,
  start-InWindow, start_zero,
}
use fast_net.SimpleClient.Rule.{Throughout, Throughout-map, rounds-Throughout}
use fast_net.SimpleClient.Completions.{on_event-InWindow}

-- The windows hold, and the counters fit an int.
abbrev pub InInts : Job → Thread → Type 0
InInts j t = InWindow j t × FitsInt t

-- A thread that has left its loop with its windows in order has sent all requests; it has asked
-- for all responses too, or has counted enough bytes.
abbrev AllAsked : Job → Thread → Type 0
AllAsked j t =
    (t.send_index ≡ num_requests j)
    × ((t.iterations_received + number is_recv t.in_flight ≡ num_requests j)
        ⊎ (total_expected j ≤ t.total_received))

abbrev pub IsLeft : Job → Progress → Type 0
IsLeft j = Throughout (InInts j) (λ t. InInts j t × AllAsked j t) Unit

rounds-AllAsked :
    (j : Job) (ess : List (List Event))
    → Throughout (InWindow j) (λ t. InWindow j t × AllAsked j t) Unit (rounds j ess (start j))
rounds-AllAsked j ess =
    rounds-Throughout j (InWindow j) (λ t. InWindow j t × AllAsked j t) Unit
      (λ t w. (submit-InWindow j t w).0) (on_event-InWindow j)
      (λ t over w. (w, (ground arith, inl (ground arith))))
      (λ t enough w. (w, (ground arith, inr (ground arith)))) ess (start j) (start-InWindow j)

-- With fewer than 2^31 requests, in every run the windows hold and the counters fit an int. A thread
-- that has left its loop has sent every request; either it has counted the bytes that it expects, or
-- every response is received or still in flight.
pub rounds-IsLeft :
    (j : Job) (ess : List (List Event))
    → num_requests j < 2 ^ 31
    → IsLeft j (rounds j ess (start j))
rounds-IsLeft j ess small =
    Throughout-map (InWindow j) (InInts j) (λ t. InWindow j t × AllAsked j t)
      (λ t. InInts j t × AllAsked j t) (rounds j ess (start j))
      (λ t w. (w, InWindow-FitsInt j t small w))
      (λ t h. ((h.0, InWindow-FitsInt j t small h.0), h.1)) (rounds-AllAsked j ess)

-- A thread does not wait for its responses: where its requests, at least one, all fit into the
-- first window, a first round with no completion is the last, and the thread leaves the loop with
-- all receives in flight and no byte received.
pub rounds_early :
    (j : Job) (ess : List (List Event))
    → 0 < num_requests j
    → num_requests j ≤ j.ring_size / 4
    → (t : Thread) × (rounds j ([] ∷ ess) (start j) ≡ left t)
      × (t.total_received ≡ 0)
      × (number is_recv t.in_flight ≡ num_requests j)
unfolding rounds round complete
rounds_early j ess nonempty few =
    let t = submit j (start j) in
    let w = start-InWindow j in
    let w' = (submit-InWindow j (start j) w).0 in
    let (none_yet, no_bytes) = submit-received j (start j) in
    let (send₀, recv₀, iterations₀, bytes₀) = start_zero j in
    let (sent, asked) = submit_all j (start j) w (recv₀ ∙ sym iterations₀) (omega arith) in
    let busy : has_more j (start j) ≡ true = ground arith in
    let over : has_more j t ≡ false = over_at t sent asked in
    rw busy (
      t,
      if_same (has_all j t) (rounds_over ess t over),
      no_bytes ∙ bytes₀,
      omega (arith, w'.missing),
    )
  where
    over_at :
        (t : Thread)
        → t.send_index ≡ num_requests j
        → t.recv_index ≡ num_requests j
        → has_more j t ≡ false
    over_at t sent asked = ground arith

    if_same : {x y : Progress} (b : Bool) → y ≡ x → (if b then x else y) ≡ x
    if_same true e = refl
    if_same false e = e

    rounds_over :
        (ess : List (List Event)) (t : Thread) → has_more j t ≡ false → rounds j ess t ≡ left t
    rounds_over [] t over = rw over refl
    rounds_over (es ∷ ess) t over = rw over refl
