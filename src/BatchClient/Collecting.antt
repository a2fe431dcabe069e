-- ===== src/BatchClient/Collecting.antt =====
-- When `receive_responses` has seen enough: the loop of client_iou.cpp over the completions.
use fast_net.Base.{
  ℕ, suc, ◌+◌, ◌%◌, ◌^◌, ◌≤◌, ◌<◌, ◌≡◌, refl, ap, false, inl, inr, List, [], ◌∷◌, ◌++◌, arith, ltb,
  lt→ltb, le→not_ltb, ltb→lt, not_ltb→le, Bool-cases, map, All,
}
use fast_net.BatchClient.{
  EventType, sent, received, Completion, Wait, wait_failed, completed, done, Thread, deliver,
  step_back, is_error, collect,
}

-- How many of the completions are of receives.
abbrev pub receives : List Completion → ℕ
receives [] = 0
receives (c ∷ cs) = elim c.event_type [ sent ↦ receives cs | received i b ↦ suc (receives cs) ]

-- There is none behind the last one of a receive.
abbrev pub EndsInReceive : List Completion → Type 0
EndsInReceive [] = Unit
EndsInReceive (c ∷ []) = receives (c ∷ []) ≡ 1
EndsInReceive (c ∷ d ∷ cs) = EndsInReceive (d ∷ cs)

-- What all of them leave in memory.
abbrev pub deliver_all : List Completion → Thread → Thread
deliver_all [] t = t
deliver_all (c ∷ cs) t = deliver_all cs (deliver c.event_type t)

abbrev pub Succeeds : Completion → Type 0
Succeeds c = is_error c.res ≡ false

-- With enough responses the loop takes nothing more.
collect_full :
    (num j : ℕ) (t : Thread) (ws : List Wait) → num ≤ j → collect num j t ws ≡ done (t, ws)
unfolding collect
collect_full num j t [] h = rw (le→not_ltb j num h) refl
collect_full num j t (wait_failed ∷ ws) h = rw (le→not_ltb j num h) refl
collect_full num j t (completed c ∷ ws) h = rw (le→not_ltb j num h) refl

-- One round with a completion that succeeded.
collect_step :
    (num j : ℕ) (t : Thread) (c : Completion) (ws : List Wait)
    → j < num
    → Succeeds c
    → collect num j t (completed c ∷ ws)
      ≡ collect num ((step_back c.event_type j + 1) % 2 ^ 64) (deliver c.event_type t) ws
unfolding collect
collect_step num j t c ws h ok = rw (lt→ltb j num h, ok) refl

-- The wrap-around of j-- is undone by ++j.
step_back_next :
    (kind : EventType) (j num : ℕ)
    → j < num
    → num < 2 ^ 64
    → (step_back kind j + 1) % 2 ^ 64 ≡ j + elim kind as (λ k. ℕ) [ sent ↦ 0 | received i b ↦ 1 ]
step_back_next sent j num h small = omega arith
step_back_next (received i b) j num h small = omega arith

receives_pos :
    (c : Completion) (cs : List Completion) → EndsInReceive (c ∷ cs) → 0 < receives (c ∷ cs)
receives_pos c [] h = omega arith
receives_pos c (d ∷ cs) h = ground (arith, receives_pos d cs h)

EndsInReceive-tail :
    (c : Completion) (cs : List Completion) → EndsInReceive (c ∷ cs) → EndsInReceive cs
EndsInReceive-tail c [] h = tt
EndsInReceive-tail c (d ∷ cs) h = h

-- If the completions succeed, bring as many responses as are awaited and end in the last of these,
-- then the loop ends there: it takes the completions of sends in passing, and leaves what follows.
pub collect-deliver_all :
    (num j : ℕ) (t : Thread) (cs : List Completion) (ws : List Wait)
    → num < 2 ^ 64
    → All Succeeds cs
    → EndsInReceive cs
    → j + receives cs ≡ num
    → collect num j t (map completed cs ++ ws) ≡ done (deliver_all cs t, ws)
collect-deliver_all num j t [] ws small ok ends enough = collect_full num j t ws (omega arith)
collect-deliver_all num j t (c ∷ cs) ws small ok ends enough =
    let some_left = receives_pos c cs ends in
    let below : j < num = omega arith in
    let next = step_back_next c.event_type j num below small in
    rw (collect_step num j t c (map completed cs ++ ws) below ok.0) (
      collect-deliver_all num ((step_back c.event_type j + 1) % 2 ^ 64) (deliver c.event_type t) cs
        ws small ok.1 (EndsInReceive-tail c cs ends) (ground (arith, next)))

-- What a loop that ended has taken: completions that succeeded, of as many receives as were
-- awaited.
pub record Collected (num j : ℕ) (t : Thread) (ws : List Wait) (r : Thread × List Wait)
    : Type 0 where
  pub taken : List Completion
  pub split : ws ≡ map completed taken ++ r.1
  pub succeeded : All Succeeds taken
  pub delivered : r.0 ≡ deliver_all taken t
  pub enough : j + receives taken ≡ num

Collected-none :
    (num j : ℕ) (t : Thread) (ws : List Wait) (r : Thread × List Wait)
    → j ≤ num
    → num ≤ j
    → collect num j t ws ≡ done r
    → Collected num j t ws r
Collected-none num j t ws r below above e =
    let same : (t, ws) ≡ r = cc (collect_full num j t ws above) in
    rw (← same)
      (record { taken = []; split = refl; succeeded = tt; delivered = refl; enough = omega arith })

Collected-cons :
    (num j : ℕ) (t : Thread) (c : Completion) (ws : List Wait) (r : Thread × List Wait)
    → j < num
    → num < 2 ^ 64
    → Succeeds c
    → Collected num ((step_back c.event_type j + 1) % 2 ^ 64) (deliver c.event_type t) ws r
    → Collected num j t (completed c ∷ ws) r
Collected-cons num j t c ws r below small ok l =
    let next = step_back_next c.event_type j num below small in
    record {
      taken = c ∷ l.taken;
      split = ap (◌∷◌ (completed c)) l.split;
      succeeded = (ok, l.succeeded);
      delivered = l.delivered;
      enough = ground (arith, next, l.enough);
    }

-- If the loop returns, then it has taken exactly as many completions of receives as responses are
-- awaited, any number of sends among them, every one of these has succeeded, and what it leaves is
-- what follows them.
pub collect-Collected :
    (num j : ℕ) (t : Thread) (ws : List Wait) (r : Thread × List Wait)
    → num < 2 ^ 64
    → j ≤ num
    → collect num j t ws ≡ done r
    → Collected num j t ws r
unfolding collect
collect-Collected num j t [] r small below e = elim (Bool-cases (ltb j num)) [
  | inl more ↦ cc (rw more at e)
  | inr full ↦ Collected-none num j t [] r below (not_ltb→le _ _ full) e
]
collect-Collected num j t (wait_failed ∷ ws) r small below e = elim (Bool-cases (ltb j num)) [
  | inl more ↦ cc (rw more at e)
  | inr full ↦ Collected-none num j t (wait_failed ∷ ws) r below (not_ltb→le _ _ full) e
]
collect-Collected num j t (completed c ∷ ws) r small below e = elim (Bool-cases (ltb j num)) [
  | inr full ↦ Collected-none num j t (completed c ∷ ws) r below (not_ltb→le _ _ full) e
  | inl more ↦ elim (Bool-cases (is_error c.res)) [
    | inl bad ↦ cc (rw (more, bad) at e)
    | inr ok ↦
        let less = ltb→lt _ _ more in
        let next = step_back_next c.event_type j num less small in
        let e' = rw (more, ok) at e in
        Collected-cons num j t c ws r less small ok (
          collect-Collected num ((step_back c.event_type j + 1) % 2 ^ 64) (deliver c.event_type t)
            ws r small (ground (arith, next)) e')
  ]
]
