-- ===== src/SimpleClient/Answered.antt =====
-- One client thread of simple_iou_client.cpp and its connection in simple_iou_server.cpp.
use fast_net.Base.{
  ℕ, zero, suc, ◌+◌, ◌*◌, ◌%◌, ◌^◌, ◌≤◌, ◌<◌, ◌≡◌, ◌⊎◌, refl, ap, subst, ◌∙◌, inl, inr, Bool,
  Option, List, [], ◌∷◌, some, none, arith, length, ◌==◌, Option-cases, Bool-cases,
}
use fast_net.Pool.{remove}
use fast_net.Pool.Counting.{count, remove-count}
use fast_net.Simple.{sizeof_word}
use fast_net.SimpleServer.{Setup, Loop, Outcome, goes_on, returns, event_loop}
use fast_net.SimpleServer as Server
use fast_net.SimpleServer.Echo.{answered, EchoesTo, Echoes, event_loop_echoes}
use fast_net.SimpleClient.{Job, Thread, Event, num_requests, total_expected, left, rounds, start}
use fast_net.SimpleClient.Rule.{Unstopped}
use fast_net.SimpleClient.Sends.{requested, IsNumbered, rounds-IsNumbered}

abbrev length_of : Option (List ℕ) → ℕ
length_of none = 0
length_of (some xs) = suc (length xs)

remove-length : (b : ℕ) (xs ys : List ℕ) → remove b xs ≡ some ys → length xs ≡ length ys + 1
unfolding remove
remove-length b [] ys e = cc
remove-length b (x ∷ xs) ys e = elim (Bool-cases (b == x)) [
  | inl here ↦
      let same : some xs ≡ some ys = rw (here, remove) at e in omega (arith, ap length_of same)
  | inr later ↦ elim (Option-cases (remove b xs)) [
    | inl gone ↦
        let same : none ≡ some ys = rw (later, gone, remove) at e in
        absurd (omega (arith, ap length_of same))
    | inr (zs, found) ↦
        let same : some (x ∷ zs) ≡ some ys = rw (later, found, remove) at e in
        omega (arith, ap length_of same, remove-length b xs zs found)
  ]
]

count_self : (x : ℕ) (xs : List ℕ) → 0 < count x (x ∷ xs)
count_self x xs = ground arith

-- A list of which each element occurs in another list, as often, is no longer than that.
counts_le_length : (xs ys : List ℕ) → ((a : ℕ) → count a xs ≤ count a ys) → length xs ≤ length ys
counts_le_length [] ys h = omega arith
counts_le_length (x ∷ xs) ys h =
    let (ys', taken, counted) = remove-count x ys (omega (arith, h x, count_self x xs)) in
    omega (
      arith,
      remove-length x ys ys' taken,
      counts_le_length xs ys' (λ a. omega (arith, h a, counted a)),
    )

-- If it is no shorter either, both hold the same elements, as often.
counts_eq :
    (xs ys : List ℕ)
    → ((a : ℕ) → count a xs ≤ count a ys)
    → length ys ≤ length xs
    → (a : ℕ) → count a xs ≡ count a ys
counts_eq [] [] h short a = refl
counts_eq [] (y ∷ ys) h short a = absurd (omega arith)
counts_eq (x ∷ xs) ys h short a =
    let (ys', taken, counted) = remove-count x ys (omega (arith, h x, count_self x xs)) in
    omega (
      arith,
      counted a,
      counts_eq xs ys' (λ b. omega (arith, h b, counted b))
          (omega (arith, remove-length x ys ys' taken)) a,
    )

length-requested : (j : Job) (n : ℕ) → length (requested j n) ≡ n
length-requested j zero = refl
length-requested j (suc n) = omega (arith, length-requested j n)

-- The variables of a server's loop that goes on or has returned.
abbrev pub Stands : Outcome → Loop → Type 0
Stands o s = (o ≡ goes_on s) ⊎ ((result : Bool) × (o ≡ returns result s))

Stands-Echoes :
    (c : Setup) (words : List ℕ) (o : Outcome) (s : Loop)
    → Stands o s
    → EchoesTo c words o
    → Echoes c words s
Stands-Echoes c words o s (inl e) h = subst (EchoesTo c words) e h
Stands-Echoes c words o s (inr (result, e)) h = subst (EchoesTo c words) e h

scale_le : (a b p : ℕ) → 0 < p → a * p * sizeof_word ≤ b * (p * sizeof_word) → a ≤ b
scale_le a b p pos h = grind arith

pub scale_assoc : (n p : ℕ) → n * p * sizeof_word ≡ n * (p * sizeof_word)
scale_assoc n p = grind arith

-- Let the thread have fewer than 2^31 requests. Let the server of the connection answer only words
-- that the thread has handed to its ring, each at most as often, and let the thread receive no more bytes than the server has written, pages of the same size. If
-- the thread has left its loop having counted the bytes that it expects, fewer than 2^64, then it
-- has received exactly these, the server has submitted one write for each of the thread's requests,
-- and it has answered exactly the pages of the thread's range, each as often as it was asked for.
pub all_answered :
    (j : Job) (ess : List (List Event)) (t : Thread) (c : Setup) (es : List Server.Event) (s : Loop)
    → rounds j ess (start j) ≡ left t
    → num_requests j < 2 ^ 31
    → total_expected j ≤ t.total_received
    → Stands (event_loop c es (Server.start c)) s
    → j.page_size ≡ c.page_size
    → 0 < c.page_size
    → num_requests j * c.page_size * sizeof_word < 2 ^ 64
    → length es < 2 ^ 64
    → ((w : ℕ) → count w (answered c es (Server.start c)) ≤ count w t.sent_words)
    → t.total_received ≤ s.write_req_num * (c.page_size * sizeof_word)
    → (t.total_received ≡ total_expected j)
      × (s.write_req_num ≡ num_requests j)
      × ((w : ℕ)
          → count w (answered c es (Server.start c)) ≡ count w (requested j (num_requests j)))
all_answered j ess t c es s leaves small all stands same_page some_words fits few only_sent
      brought =
    let words = answered c es (Server.start c) in
    let numbered : IsNumbered j t =
      (subst (Unstopped (λ t. IsNumbered j t × (t.send_index < 2 ^ 31))) leaves
        (rounds-IsNumbered j ess small)).0 in
    let asked : (w : ℕ) → count w words ≤ count w (requested j t.send_index) =
      λ w. omega (arith, only_sent w, ap (count w) numbered.words) in
    let echoes =
      Stands-Echoes c words (event_loop c es (Server.start c)) s stands
        (event_loop_echoes c es few) in
    let written = counts_le_length words (requested j t.send_index) asked in
    let expected : total_expected j ≡ num_requests j * c.page_size * sizeof_word =
      ap (λ p. num_requests j * p * sizeof_word % 2 ^ 64) same_page ∙ omega arith in
    let enough : num_requests j ≤ s.write_req_num =
      scale_le (num_requests j) s.write_req_num c.page_size some_words (omega arith) in
    let exact : s.write_req_num ≡ num_requests j =
      omega (arith, written, length-requested j t.send_index, echoes.each, numbered.in_range) in
    let sent : t.send_index ≡ num_requests j =
      omega (arith, written, length-requested j t.send_index, echoes.each, numbered.in_range) in
    (
      omega (
        arith,
        expected,
        ap (λ k. k * (c.page_size * sizeof_word)) exact,
        scale_assoc (num_requests j) c.page_size,
      ),
      exact,
      λ w.
          counts_eq words (requested j t.send_index) asked
            (omega (arith, length-requested j t.send_index, echoes.each)) w
          ∙ ap (λ n. count w (requested j n)) sent,
    )
