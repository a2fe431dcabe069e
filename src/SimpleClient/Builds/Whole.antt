-- ===== src/SimpleClient/Builds/Whole.antt =====
-- Two builds of a thread of simple_iou_client.cpp run the same way.
use fast_net.Base.{ℕ, ◌≡◌, refl, ◌∙◌, inl, inr, Bool, List, [], ◌∷◌, if◌then◌else◌, Bool-cases}
use fast_net.SimpleClient.{
  Job, Thread, Event, Status, runs, failed, fault, round, has_more, has_all, Progress, left, inside,
  stopped, behind, rounds, start,
}
use fast_net.SimpleClient.Ownership.{IsOwner, rounds-IsOwner}
use fast_net.SimpleClient.Builds.{built, Alike, Same, determined}
use fast_net.SimpleClient.Builds.Steps.{round-Alike}

-- The same of how far two threads have come: where both are in the loop or behind it, or both have
-- called exit.
abbrev Alongside : Progress → Progress → Type 0
Alongside (stopped fault) p = Unit
Alongside (left t) (left u) = Same t u
Alongside (left t) (stopped fault) = Unit
Alongside (left t) p = ⊥
Alongside (inside t) (inside u) = Same t u
Alongside (inside t) (stopped fault) = Unit
Alongside (inside t) p = ⊥
Alongside (stopped failed) (stopped failed) = Unit
Alongside (stopped failed) (stopped fault) = Unit
Alongside (stopped failed) p = ⊥
Alongside (stopped (runs t)) (stopped fault) = Unit
Alongside (stopped (runs t)) p = ⊥

abbrev pub RunsAlike : Progress → Progress → Type 0
RunsAlike (left t) (left u) = Same t u
RunsAlike (inside t) (inside u) = Same t u
RunsAlike (stopped failed) (stopped failed) = Unit
RunsAlike p q = ⊥

Alongside-fault : (p : Progress) → Alongside p (stopped fault)
Alongside-fault (left t) = tt
Alongside-fault (inside t) = tt
Alongside-fault (stopped (runs t)) = tt
Alongside-fault (stopped failed) = tt
Alongside-fault (stopped fault) = tt

module _ (j : Job) (v m : Bool) (c : ℕ) (v' m' : Bool) (c' : ℕ) where
  abbrev this : Job
  this = built j v m c

  abbrev that : Job
  that = built j v' m' c'

  rounds-Alongside :
      (ess : List (List Event)) (t u : Thread)
      → Same t u
      → Alongside (rounds this ess t) (rounds that ess u)
  unfolding rounds
  rounds-Alongside [] t u same =
      let test : has_more this t ≡ has_more that u = determined j (has_more j) t u same in
      elim (Bool-cases (has_more that u)) [
        | inl more ↦ rw (test ∙ more, more) same
        | inr over ↦ rw (test ∙ over, over) same
      ]
  rounds-Alongside (es ∷ ess) t u same =
      let test : has_more this t ≡ has_more that u = determined j (has_more j) t u same in
      elim (Bool-cases (has_more that u)) [
        | inl more ↦
            rw (test ∙ more, more)
              (behind-Alongside (round this es t) (round that es u) _ _
                (round-Alike j v m c v' m' c' es t u same)
                (λ t' u' same'.
                  after_round t' u' same' (rounds this ess t') (rounds that ess u')
                    (rounds-Alongside ess t' u' same')))
        | inr over ↦ rw (test ∙ over, over) same
      ]
    where
      behind-Alongside :
          (s s' : Status) (f g : Thread → Progress)
          → Alike s s'
          → ((t u : Thread) → Same t u → Alongside (f t) (g u))
          → Alongside (behind s f) (behind s' g)
      behind-Alongside fault s' f g h next = tt
      behind-Alongside (runs t) (runs u) f g h next = next t u h
      behind-Alongside (runs t) failed f g h next = absurd h
      behind-Alongside (runs t) fault f g h next = Alongside-fault (f t)
      behind-Alongside failed (runs u) f g h next = absurd h
      behind-Alongside failed failed f g h next = tt
      behind-Alongside failed fault f g h next = tt

      after_round :
          (t u : Thread)
          → Same t u
          → (p q : Progress) → Alongside p q
          → Alongside (if has_all this t then left t else p) (if has_all that u then left u else q)
      after_round t u same p q h =
          let test : has_all this t ≡ has_all that u = determined j (has_all j) t u same in
          elim (Bool-cases (has_all that u)) [
            | inl all ↦ rw (test ∙ all, all) same
            | inr more ↦ rw (test ∙ more, more) h
          ]

starts-Same : (j j' : Job) → Same (start j) (start j')
unfolding start
starts-Same j j' = refl

strict : (j j' : Job) (p q : Progress) → IsOwner j p → IsOwner j' q → Alongside p q → RunsAlike p q
strict j j' (left t) (left u) o o' h = h
strict j j' (left t) (inside u) o o' h = h
strict j j' (left t) (stopped fault) o o' h = o'
strict j j' (left t) (stopped failed) o o' h = h
strict j j' (left t) (stopped (runs u)) o o' h = h
strict j j' (inside t) (left u) o o' h = h
strict j j' (inside t) (inside u) o o' h = h
strict j j' (inside t) (stopped fault) o o' h = o'
strict j j' (inside t) (stopped failed) o o' h = h
strict j j' (inside t) (stopped (runs u)) o o' h = h
strict j j' (stopped fault) q o o' h = absurd o
strict j j' (stopped failed) (left u) o o' h = h
strict j j' (stopped failed) (inside u) o o' h = h
strict j j' (stopped failed) (stopped fault) o o' h = o'
strict j j' (stopped failed) (stopped failed) o o' h = h
strict j j' (stopped failed) (stopped (runs u)) o o' h = h
strict j j' (stopped (runs t)) (left u) o o' h = h
strict j j' (stopped (runs t)) (inside u) o o' h = h
strict j j' (stopped (runs t)) (stopped fault) o o' h = o'
strict j j' (stopped (runs t)) (stopped failed) o o' h = h
strict j j' (stopped (runs t)) (stopped (runs u)) o o' h = h

-- The build does not change what a thread does: with and without VERIFY and ALLOCATE_MALLOC, and
-- with pools of any size, it comes equally far with the same completions, with the same counters and
-- the same requests in flight, but for their buffers; or it has called exit in both builds.
pub rounds-built :
    (j : Job) (v m : Bool) (c : ℕ) (v' m' : Bool) (c' : ℕ) (ess : List (List Event))
    → RunsAlike
        (rounds (built j v m c) ess (start (built j v m c)))
        (rounds (built j v' m' c') ess (start (built j v' m' c')))
rounds-built j v m c v' m' c' ess =
    let one = built j v m c in
    let other = built j v' m' c' in
    strict one other (rounds one ess (start one)) (rounds other ess (start other))
      (rounds-IsOwner one ess) (rounds-IsOwner other ess)
      (rounds-Alongside j v m c v' m' c' ess (start one) (start other) (starts-Same one other))
