-- ===== src/BatchClient/Own.antt =====
-- Which buffers a thread of client_iou.cpp asks its ring to fill.
use fast_net.Base.{
  refl, ℕ, zero, suc, ◌+◌, ◌-◌, ◌≤◌, ◌<◌, ◌≡◌, ◌⊎◌, subst, inl, inr, true, List, [], ◌∷◌, ◌++◌,
  arith, ◌==◌, Bool-cases, All, All-map, get_elem?-some, length, length-replicate,
}
use fast_net.Ranges.{Range}
use fast_net.Ranges.Batches.{Covers, Covers-le}
use fast_net.Client.{Client}
use fast_net.BatchClient.{
  Submission, send, receive, EventType, sent, received, Wait, wait_failed, completed, start,
  send_loop, send_requests, prepare_send,
}
use fast_net.BatchClient.Batch.{sends, receives_from}
use fast_net.BatchClient.Submitted.{batch_submitted, batch_submitted-sends}
use fast_net.BatchClient.Unchanged.{Within, WaitsWithin}

-- What the batches of a thread submit.
abbrev pub thread_submitted : Client → ℕ → List Range → List Submission
thread_submitted c n [] = []
thread_submitted c n ((a, b) ∷ rs) = batch_submitted c n a b ++ thread_submitted c n rs

-- A receive into buffer `i` is among the submissions.
abbrev pub IsAsked : ℕ → List Submission → Type 0
IsAsked i [] = ⊥
IsAsked i (send j text ∷ ss) = IsAsked i ss
IsAsked i (receive j ∷ ss) = (i ≡ j) ⊎ IsAsked i ss

-- What completes has been submitted; or the wait fails.
abbrev pub IsOf : List Submission → EventType → Type 0
IsOf ss sent = Unit
IsOf ss (received i brought) = IsAsked i ss

abbrev pub CompletesOnly : List Submission → Wait → Type 0
CompletesOnly ss wait_failed = Unit
CompletesOnly ss (completed c) = IsOf ss c.event_type

IsAsked-append :
    (i : ℕ) (ss ts : List Submission) → IsAsked i (ss ++ ts) → IsAsked i ss ⊎ IsAsked i ts
IsAsked-append i [] ts h = inr h
IsAsked-append i (send j text ∷ ss) ts h = IsAsked-append i ss ts h
IsAsked-append i (receive j ∷ ss) ts (inl here) = inl (inl here)
IsAsked-append i (receive j ∷ ss) ts (inr there) = elim (IsAsked-append i ss ts there) [
  | inl first ↦ inl (inr first)
  | inr second ↦ inr second
]

IsAsked-sends :
    (c : Client) (i m j : ℕ) (ss : List Submission) → IsAsked i (sends c m j ++ ss) → IsAsked i ss
IsAsked-sends c i zero j ss h = h
IsAsked-sends c i (suc m) j ss h = IsAsked-sends c i m (j + 1) ss h

asked_from : (i m j : ℕ) → IsAsked i (receives_from m j) → (j ≤ i) × (i < j + m)
asked_from i zero j h = absurd h
asked_from i (suc m) j (inl here) = omega arith
asked_from i (suc m) j (inr there) = omega (arith, asked_from i m (j + 1) there)

-- With no pages a batch divides by zero before it submits anything.
no_pages :
    (c : Client) (n a b : ℕ)
    → (c.page_count == 0) ≡ true
    → a < b
    → b ≤ n
    → batch_submitted c n a b ≡ []
unfolding send_requests send_loop prepare_send
no_pages c n a b none_there less room =
    let len : length (start c n).requests ≡ n = length-replicate n _ in
    let (old, here) = get_elem?-some (start c n).requests a (omega (arith, len)) in
    let some_left : b - a ≡ suc (b - a - 1) = omega arith in
    rw (some_left, send_loop) (rw (here, prepare_send) (rw (none_there, prepare_send) refl))

-- A batch asks for the buffers of its range only.
batch_asked :
    (c : Client) (n a b i : ℕ)
    → a < b
    → b ≤ n
    → IsAsked i (batch_submitted c n a b)
    → (a ≤ i) × (i < b)
batch_asked c n a b i less room h = elim (Bool-cases (c.page_count == 0)) [
  | inl none_there ↦ absurd (subst (IsAsked i) (no_pages c n a b none_there less room) h)
  | inr some_page ↦
      let asked : IsAsked i (sends c (b - a) a ++ receives_from (b - a) a) =
        subst (IsAsked i) (batch_submitted-sends c n a b some_page (omega arith) room) h in
      omega (
        arith,
        asked_from i (b - a) a (IsAsked-sends c i (b - a) a (receives_from (b - a) a) asked),
      )
]

thread_asked :
    (c : Client) (n start b i : ℕ) (rs : List Range)
    → Covers start b rs
    → b ≤ n
    → IsAsked i (thread_submitted c n rs)
    → (start ≤ i) × (i < b)
thread_asked c n start b i [] cover room h = absurd h
thread_asked c n start b i ((a, e) ∷ rs) (same, less, short, cover) room h =
    let le = Covers-le e b rs cover in
    elim (IsAsked-append i (batch_submitted c n a e) (thread_submitted c n rs) h) [
      | inl first ↦ omega (arith, batch_asked c n a e i less (omega arith) first)
      | inr later ↦ omega (arith, thread_asked c n e b i rs cover room later)
    ]

-- A ring that completes only what a thread submits fills buffers of the thread's range only.
pub waits-WaitsWithin :
    (c : Client) (n a b : ℕ) (rs : List Range) (ws : List Wait)
    → Covers a b rs
    → b ≤ n
    → All (CompletesOnly (thread_submitted c n rs)) ws
    → All (WaitsWithin a b) ws
waits-WaitsWithin c n a b rs ws cover room only =
    All-map (CompletesOnly (thread_submitted c n rs)) (WaitsWithin a b) one ws only
  where
    event_within : (e : EventType) → IsOf (thread_submitted c n rs) e → Within a b e
    event_within sent h = tt
    event_within (received i brought) h = thread_asked c n a b i rs cover room h

    one : (w : Wait) → CompletesOnly (thread_submitted c n rs) w → WaitsWithin a b w
    one wait_failed h = tt
    one (completed d) h = event_within d.event_type h
