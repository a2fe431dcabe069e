-- ===== src/SimpleClient/Rule.antt =====
-- What every step of a thread of simple_iou_client.cpp keeps holds in all its rounds.
use fast_net.Base.{
  ℕ, zero, suc, ◌≡◌, inl, inr, true, false, List, [], ◌∷◌, if◌then◌else◌, Bool-cases, Option-cases,
}
use fast_net.Pool.{World, deallocate}
use fast_net.Simple.{RequestData}
use fast_net.SimpleClient.{
  Job, Thread, Event, Status, runs, failed, fault, and_then, may_send, may_receive, send_one,
  receive_one, send_loop, receive_loop, send_fuel, receive_fuel, submit_sends, submit, give_back,
  on_event, complete, round, has_more, has_all, Progress, left, inside, stopped, behind, rounds,
}

-- A thread that runs satisfies `P`, and where it has been stopped by a fault `F` holds.
abbrev pub Holds : (Thread → Type 0) → Type 0 → Status → Type 0
Holds P F (runs t) = P t
Holds P F failed = Unit
Holds P F fault = F

-- A property of a thread as long as it has not been stopped.
abbrev pub WhileRuns : (Thread → Type 0) → Status → Type 0
WhileRuns P = Holds P Unit

-- The same of the loop: `L` is what holds behind it.
abbrev pub Throughout : (Thread → Type 0) → (Thread → Type 0) → Type 0 → Progress → Type 0
Throughout P L F (left t) = L t
Throughout P L F (inside t) = P t
Throughout P L F (stopped s) = Holds P F s

pub Throughout-map :
    (P P' L L' : Thread → Type 0) (p : Progress)
    → ((t : Thread) → P t → P' t)
    → ((t : Thread) → L t → L' t)
    → Throughout P L Unit p
    → Throughout P' L' Unit p
Throughout-map P P' L L' (left t) f g h = g t h
Throughout-map P P' L L' (inside t) f g h = f t h
Throughout-map P P' L L' (stopped (runs t)) f g h = f t h
Throughout-map P P' L L' (stopped failed) f g h = tt
Throughout-map P P' L L' (stopped fault) f g h = tt

-- A property of a thread that has not been stopped, in its loop or behind it.
abbrev pub Unstopped : (Thread → Type 0) → Progress → Type 0
Unstopped P = Throughout P P Unit

-- Giving a buffer back changes the pool at most.
pub give_back-WhileRuns :
    (j : Job) (P : Thread → Type 0) (q : RequestData) (size : ℕ) (t : Thread)
    → P t
    → ((w : World) → P (record t { world = w }))
    → WhileRuns P (give_back j q size t)
give_back-WhileRuns j P q size t p any = elim (Bool-cases j.verify) [
  | inl verifies ↦ rw (verifies, give_back, Holds) p
  | inr gives ↦ elim (Option-cases (deallocate j.allocate_malloc q.address size t.world)) [
    | inl bad ↦ rw (gives, bad, give_back, Holds) tt
    | inr (w, given) ↦ rw (gives, given, give_back, Holds) (any w)
  ]
]

-- Submitting keeps what its two steps keep.
module _ (j : Job) (P : Thread → Type 0)
    (send_keeps : (t : Thread) → may_send j t ≡ true → P t → P (send_one j t))
    (receive_keeps : (t : Thread) → may_receive j t ≡ true → P t → P (receive_one j t)) where
  send_loop_keeps : (fuel : ℕ) (t : Thread) → P t → P (send_loop j fuel t)
  unfolding send_loop
  send_loop_keeps zero t p = p
  send_loop_keeps (suc fuel) t p = elim (Bool-cases (may_send j t)) [
    | inl may ↦ rw may (send_loop_keeps fuel (send_one j t) (send_keeps t may p))
    | inr over ↦ rw over p
  ]

  receive_loop_keeps : (fuel : ℕ) (t : Thread) → P t → P (receive_loop j fuel t)
  unfolding receive_loop
  receive_loop_keeps zero t p = p
  receive_loop_keeps (suc fuel) t p = elim (Bool-cases (may_receive j t)) [
    | inl may ↦ rw may (receive_loop_keeps fuel (receive_one j t) (receive_keeps t may p))
    | inr over ↦ rw over p
  ]

  pub submit_keeps : (t : Thread) → P t → P (submit j t)
  unfolding submit submit_sends
  submit_keeps t p =
      let sent = submit_sends j t in
      receive_loop_keeps (receive_fuel j sent) sent (send_loop_keeps (send_fuel j t) t p)

-- The loop keeps what submitting and each completion keep; where its tests leave it, `L` holds.
module _ (j : Job) (P L : Thread → Type 0) (F : Type 0)
    (submits : (t : Thread) → P t → P (submit j t))
    (completes : (e : Event) (t : Thread) → P t → Holds P F (on_event j e t))
    (over : (t : Thread) → has_more j t ≡ false → P t → L t)
    (all : (t : Thread) → has_all j t ≡ true → P t → L t) where
  and_then-Holds :
      (s : Status) (f : Thread → Status)
      → Holds P F s
      → ((t : Thread) → P t → Holds P F (f t))
      → Holds P F (and_then s f)
  and_then-Holds (runs t) f h next = next t h
  and_then-Holds failed f h next = tt
  and_then-Holds fault f h next = h

  complete-Holds : (es : List Event) (t : Thread) → P t → Holds P F (complete j es t)
  unfolding complete
  complete-Holds [] t p = p
  complete-Holds (e ∷ es) t p =
      and_then-Holds (on_event j e t) (complete j es) (completes e t p) (complete-Holds es)

  behind-Throughout :
      (s : Status) (f : Thread → Progress)
      → Holds P F s
      → ((t : Thread) → P t → Throughout P L F (f t))
      → Throughout P L F (behind s f)
  behind-Throughout (runs t) f p next = next t p
  behind-Throughout failed f p next = p
  behind-Throughout fault f p next = p

  after_round :
      (u : Thread) (rest : Progress)
      → P u
      → Throughout P L F rest
      → Throughout P L F (if has_all j u then left u else rest)
  after_round u rest p h = elim (Bool-cases (has_all j u)) [
    | inl enough ↦ rw enough (all u enough p)
    | inr more ↦ rw more h
  ]

  pub rounds-Throughout :
      (ess : List (List Event)) (t : Thread) → P t → Throughout P L F (rounds j ess t)
  unfolding rounds round
  rounds-Throughout [] t p = elim (Bool-cases (has_more j t)) [
    | inl more ↦ rw more p
    | inr done ↦ rw done (over t done p)
  ]
  rounds-Throughout (es ∷ ess) t p = elim (Bool-cases (has_more j t)) [
    | inl more ↦ rw more (
        behind-Throughout (round j es t) _ (complete-Holds es (submit j t) (submits t p))
          (λ u p'. after_round u (rounds j ess u) p' (rounds-Throughout ess u p')))
    | inr done ↦ rw done (over t done p)
  ]
