-- ===== src/BatchClient/Unchanged.antt =====
-- The receives of a thread of client_iou.cpp leave the other elements of the vectors as they are.
use fast_net.Base.{
  ℕ, zero, suc, ◌+◌, ◌-◌, ◌%◌, ◌^◌, ◌≤◌, ◌<◌, ◌≡◌, ◌≢◌, ◌⊎◌, refl, ◌∙◌, inl, inr, List, [], ◌∷◌,
  arith, ltb, Bool-cases, Option-cases, All, get_elem?, get_elem?-set_other,
}
use fast_net.BatchClient.{
  EventType, sent, received, Wait, wait_failed, completed, Outcome, done, waiting, throws,
  division_by_zero, out_of_bounds, ◌>>=◌, Thread, receive, submit, deliver, step_back, is_error,
  collect, receive_loop, receive_responses,
}

-- A property of what a computation gives, where it gives anything.
abbrev pub WhereDone : {A : Type 0} → (A → Type 0) → Outcome A → Type 0
WhereDone P (done x) = P x
WhereDone P waiting = Unit
WhereDone P throws = Unit
WhereDone P division_by_zero = Unit
WhereDone P out_of_bounds = Unit

pub bind-WhereDone :
    {A B : Type 0} (P : A → Type 0) (Q : B → Type 0) (o : Outcome A) (f : A → Outcome B)
    → WhereDone P o
    → ((x : A) → P x → WhereDone Q (f x))
    → WhereDone Q (o >>= f)
bind-WhereDone P Q (done x) f p next = next x p
bind-WhereDone P Q waiting f p next = tt
bind-WhereDone P Q throws f p next = tt
bind-WhereDone P Q division_by_zero f p next = tt
bind-WhereDone P Q out_of_bounds f p next = tt

-- Both vectors have the same element at `k`.
abbrev pub SameAt : ℕ → Thread → Thread → Type 0
SameAt k t t' =
    (get_elem? t'.requests k ≡ get_elem? t.requests k)
    × (get_elem? t'.responses k ≡ get_elem? t.responses k)

SameAt-trans : (k : ℕ) (t u v : Thread) → SameAt k t u → SameAt k u v → SameAt k t v
SameAt-trans k t u v (a, b) (a', b') = (a' ∙ a, b' ∙ b)

-- What completes is a send, or a receive into a buffer from `a` to `b`; or the wait fails.
abbrev pub Within : ℕ → ℕ → EventType → Type 0
Within a b sent = Unit
Within a b (received i brought) = (a ≤ i) × (i < b)

abbrev pub WaitsWithin : ℕ → ℕ → Wait → Type 0
WaitsWithin a b wait_failed = Unit
WaitsWithin a b (completed c) = Within a b c.event_type

module _ (a b k : ℕ) (outside : (k < a) ⊎ (b ≤ k)) where
  -- An index of the range is another one.
  pub other : (i : ℕ) → a ≤ i → i < b → k ≢ i
  other i low high e = elim outside [ inl below ↦ omega arith | inr above ↦ omega arith ]

  deliver-SameAt : (e : EventType) (t : Thread) → Within a b e → SameAt k t (deliver e t)
  unfolding deliver
  deliver-SameAt sent t within = (refl, refl)
  deliver-SameAt (received i brought) t (low, high) =
      elim (Option-cases (get_elem? t.responses i)) [
        | inl none_there ↦ rw (none_there, deliver) (refl, refl)
        | inr (old, found) ↦
            rw (found, deliver) (refl, get_elem?-set_other t.responses i k _ (other i low high))
      ]

  -- Vectors as they were, at `k`, and completions that remain.
  abbrev pub Kept : Thread → Thread × List Wait → Type 0
  Kept t r = SameAt k t r.0 × All (WaitsWithin a b) r.1

  pub weaken :
      (t u : Thread) (o : Outcome (Thread × List Wait))
      → SameAt k t u
      → WhereDone (Kept u) o
      → WhereDone (Kept t) o
  weaken t u (done r) same kept = (SameAt-trans k t u r.0 same kept.0, kept.1)
  weaken t u waiting same kept = tt
  weaken t u throws same kept = tt
  weaken t u division_by_zero same kept = tt
  weaken t u out_of_bounds same kept = tt

  collect-Kept :
      (num j : ℕ) (t : Thread) (ws : List Wait)
      → All (WaitsWithin a b) ws
      → WhereDone (Kept t) (collect num j t ws)
  unfolding collect
  collect-Kept num j t [] within = elim (Bool-cases (ltb j num)) [
    | inl more ↦ rw (more, collect) tt
    | inr over ↦ rw (over, collect) ((refl, refl), within)
  ]
  collect-Kept num j t (wait_failed ∷ ws) within = elim (Bool-cases (ltb j num)) [
    | inl more ↦ rw (more, collect) tt
    | inr over ↦ rw (over, collect) ((refl, refl), within)
  ]
  collect-Kept num j t (completed c ∷ ws) within = elim (Bool-cases (ltb j num)) [
    | inl more ↦ elim (Bool-cases (is_error c.res)) [
      | inl bad ↦ rw (more, bad, collect) tt
      | inr good ↦
          let u = deliver c.event_type t in
          let next = collect num ((step_back c.event_type j + 1) % 2 ^ 64) u ws in
          let rest : WhereDone (Kept u) next =
            collect-Kept num ((step_back c.event_type j + 1) % 2 ^ 64) u ws within.1 in
          rw (more, good, collect) (weaken t u next (deliver-SameAt c.event_type t within.0) rest)
    ]
    | inr over ↦ rw (over, collect) ((refl, refl), within)
  ]

  pub later-SameAt :
      (t u : Thread) (o : Outcome Thread)
      → SameAt k t u
      → WhereDone (SameAt k u) o
      → WhereDone (SameAt k t) o
  later-SameAt t u (done v) same kept = SameAt-trans k t u v same kept
  later-SameAt t u waiting same kept = tt
  later-SameAt t u throws same kept = tt
  later-SameAt t u division_by_zero same kept = tt
  later-SameAt t u out_of_bounds same kept = tt

  receive_loop-SameAt : (n j : ℕ) (t : Thread) → WhereDone (SameAt k t) (receive_loop n j t)
  unfolding receive_loop
  receive_loop-SameAt zero j t = (refl, refl)
  receive_loop-SameAt (suc n) j t = elim (Option-cases (get_elem? t.responses j)) [
    | inl gone ↦ rw (gone, receive_loop) tt
    | inr (buffer, found) ↦
        let u = submit (receive j) t in
        rw (found, receive_loop)
          (later-SameAt t u (receive_loop n (j + 1) u) (refl, refl)
            (receive_loop-SameAt n (j + 1) u))
  ]

  pub receive_responses-Kept :
      (start end : ℕ) (t : Thread) (ws : List Wait)
      → All (WaitsWithin a b) ws
      → WhereDone (Kept t) (receive_responses start end t ws)
  unfolding receive_responses
  receive_responses-Kept start end t ws within =
      bind-WhereDone (SameAt k t) (Kept t) (receive_loop (end - start) start t)
        (λ u. collect (end - start) 0 u ws) (receive_loop-SameAt (end - start) start t)
        (λ u same.
          weaken t u (collect (end - start) 0 u ws) same (collect-Kept (end - start) 0 u ws within))
