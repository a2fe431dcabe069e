-- ===== src/SimpleServer/Echo.antt =====
-- What the server of simple_iou_server.cpp sends.
use mathlib.Core.List.{append-nil, append_assoc}
use fast_net.Base.{
  ℕ, zero, suc, ◌+◌, ◌/◌, ◌^◌, ◌≤◌, ◌<◌, ◌≡◌, ◌∙◌, refl, ap, inl, inr, List, [], ◌∷◌, ◌++◌, Option,
  none, some, ltb, ◌&&◌, get_elem?, length, length-append, replicate, All, All-map,
  get_elem?-append, get_elem?-append_last, arith, Option-cases, Bool-cases,
}
use fast_net.Uring.{Res}
use fast_net.Pool.{deallocate}
use fast_net.Simple.{
  EventType, read_event, write_event, send_event, recv_event, RequestData, take_out,
}
use fast_net.Simple.Flight.{take_out-Taken}
use fast_net.SimpleServer.{
  Setup, Loop, add_read_request, add_write_request, buffer_size, before_reads, first_reads, start,
  Outcome, goes_on, returns, fault, answer_request, on_read, is_end, on_write, dispatch, Event,
  on_event, event_loop, and_then,
}

-- The word of a completed read.
abbrev pub word_of : EventType → ℕ → List ℕ
word_of read_event word = word ∷ []
word_of _ word = []

abbrev pub word_taken : ℕ → Option (RequestData × List RequestData) → List ℕ
word_taken word none = []
word_taken word (some (q, rest)) = word_of q.event_type word

-- The words of the reads that the loop answers, in the order of their completion.
abbrev answered_then : Outcome → List ℕ → (Loop → List ℕ) → List ℕ
answered_then (goes_on t) words later = words ++ later t
answered_then _ words later = []

abbrev pub answered : Setup → List Event → Loop → List ℕ
answered c [] s = []
answered c (e ∷ es) s =
    answered_then (on_event c e s) (word_taken e.word (take_out e.index s.in_flight))
      (answered c es)

-- A write carries a page of the word whose number it has.
abbrev pub IsPageOf : Setup → List ℕ → RequestData → EventType → Type 0
IsPageOf c words r write_event =
    (w : ℕ) × (get_elem? words r.seq_number ≡ some w) × (r.words ≡ replicate c.page_size w)
IsPageOf c words r _ = Unit

abbrev pub IsEcho : Setup → List ℕ → RequestData → Type 0
IsEcho c words r = (r.seq_owner ≡ c.client_num) × IsPageOf c words r r.event_type

-- As many writes have been submitted as words have been read, and those in flight are right.
pub record Echoes (c : Setup) (words : List ℕ) (s : Loop) : Type 0 where
  pub each : s.write_req_num ≡ length words
  pub writes : All (IsEcho c words) s.in_flight

abbrev pub EchoesTo : Setup → List ℕ → Outcome → Type 0
EchoesTo c words (goes_on s) = Echoes c words s
EchoesTo c words (returns result s) = Echoes c words s
EchoesTo c words fault = Unit

module _ (c : Setup) where
  IsPageOf-append :
      (words more : List ℕ) (r : RequestData) (kind : EventType)
      → IsPageOf c words r kind
      → IsPageOf c (words ++ more) r kind
  IsPageOf-append words more r write_event (w, found, page) =
      (w, get_elem?-append words more r.seq_number found, page)
  IsPageOf-append words more r read_event h = tt
  IsPageOf-append words more r send_event h = tt
  IsPageOf-append words more r recv_event h = tt

  answer_request-Echoes :
      (words : List ℕ) (word : ℕ) (q : RequestData) (s : Loop)
      → length words + 1 < 2 ^ 64
      → Echoes c words s
      → Echoes c (words ++ (word ∷ [])) (answer_request c word q s)
  unfolding answer_request add_read_request add_write_request
  answer_request-Echoes words word q s few ok = record {
    each = omega (arith, ok.each, length-append words (word ∷ []));
    writes = (
      (refl, tt),
      (
        (
          refl,
          (
            word,
            ap (get_elem? (words ++ (word ∷ []))) ok.each ∙ get_elem?-append_last words word,
            refl,
          ),
        ),
        All-map (IsEcho c words) (IsEcho c (words ++ (word ∷ [])))
            (λ r h. (h.0, IsPageOf-append words (word ∷ []) r r.event_type h.1)) s.in_flight
            ok.writes,
      ),
    );
  }

  on_write-EchoesTo :
      (words : List ℕ) (q : RequestData) (s : Loop)
      → Echoes c words s
      → EchoesTo c words (on_write c q s)
  unfolding on_write
  on_write-EchoesTo words q s ok =
      elim (Option-cases (deallocate c.allocate_malloc q.address (buffer_size c) s.world)) [
        | inl gone ↦ rw (gone, on_write) tt
        | inr (w, back) ↦ rw (back, on_write) (record { each = ok.each; writes = ok.writes })
      ]

  -- What an outcome adds to the words.
  abbrev Adds : List ℕ → List ℕ → Outcome → Type 0
  Adds words more o = EchoesTo c (words ++ answered_then o more (λ t. [])) o

  stays : (words : List ℕ) (o : Outcome) → EchoesTo c words o → Adds words [] o
  stays words (goes_on s) h = rw (append-nil words) h
  stays words (returns result s) h = rw (append-nil words) h
  stays words fault h = tt

  dispatch-Adds :
      (words : List ℕ) (kind : EventType) (res : Res) (word : ℕ) (q : RequestData) (s : Loop)
      → length words + 1 < 2 ^ 64
      → Echoes c words s
      → Adds words (word_of kind word) (dispatch c kind res word q s)
  unfolding dispatch on_read
  dispatch-Adds words read_event res word q s few ok = elim (Bool-cases (is_end res)) [
    | inl ended ↦ rw (ended, append-nil words) ok
    | inr goes ↦
        rw goes (elim (Bool-cases (c.verify && (ltb c.num_requests word && ltb word (2 ^ 31)))) [
          | inl refused ↦ rw (refused, append-nil words) ok
          | inr served ↦ rw served (answer_request-Echoes words word q s few ok)
        ])
  ]
  dispatch-Adds words write_event res word q s few ok =
      stays words (on_write c q s) (on_write-EchoesTo words q s ok)
  dispatch-Adds words send_event res word q s few ok = stays words (goes_on s) ok
  dispatch-Adds words recv_event res word q s few ok = stays words (goes_on s) ok

  on_event-Adds :
      (words : List ℕ) (e : Event) (s : Loop)
      → length words + 1 < 2 ^ 64
      → Echoes c words s
      → Adds words (word_taken e.word (take_out e.index s.in_flight)) (on_event c e s)
  unfolding on_event
  on_event-Adds words e s few ok = elim (Option-cases (take_out e.index s.in_flight)) [
    | inl null ↦ rw (null, on_event, append-nil words) ok
    | inr ((q, qs), found) ↦
        let (_, rest) =
          (take_out-Taken e.index s.in_flight q qs found).split_all (IsEcho c words) ok.writes in
        rw (found, on_event)
          (dispatch-Adds words q.event_type e.res e.word q (record s { in_flight = qs }) few
            (record { each = ok.each; writes = rest }))
  ]

  word_taken_le :
      (word : ℕ) (o : Option (RequestData × List RequestData)) → length (word_taken word o) ≤ 1
  word_taken_le word none = omega arith
  word_taken_le word (some (q, rest)) = word_of_le q.event_type
    where
      word_of_le : (kind : EventType) → length (word_of kind word) ≤ 1
      word_of_le read_event = omega arith
      word_of_le write_event = omega arith
      word_of_le send_event = omega arith
      word_of_le recv_event = omega arith

  then-EchoesTo :
      (words more : List ℕ) (o : Outcome) (later : Loop → List ℕ) (f : Loop → Outcome)
      → Adds words more o
      → ((t : Loop) → Echoes c (words ++ more) t → EchoesTo c ((words ++ more) ++ later t) (f t))
      → EchoesTo c (words ++ answered_then o more later) (and_then o f)
  then-EchoesTo words more (goes_on t) later f h next =
      rw (← append_assoc words more (later t)) (next t (rw (append-nil more) at h))
  then-EchoesTo words more (returns result t) later f h next = h
  then-EchoesTo words more fault later f h next = tt

  event_loop-EchoesTo :
      (words : List ℕ) (es : List Event) (s : Loop)
      → length words + length es < 2 ^ 64
      → Echoes c words s
      → EchoesTo c (words ++ answered c es s) (event_loop c es s)
  unfolding event_loop
  event_loop-EchoesTo words [] s few ok = rw (append-nil words) ok
  event_loop-EchoesTo words (e ∷ es) s few ok =
      let more = word_taken e.word (take_out e.index s.in_flight) in
      then-EchoesTo words more (on_event c e s) (answered c es) (event_loop c es)
        (on_event-Adds words e s (omega arith) ok)
        (λ t h.
          event_loop-EchoesTo (words ++ more) es t
            (omega (
              arith,
              length-append words more,
              word_taken_le e.word (take_out e.index s.in_flight),
            ))
            h)

  first_reads-Echoes : (n : ℕ) (s : Loop) → Echoes c [] s → Echoes c [] (first_reads c n s)
  unfolding first_reads add_read_request
  first_reads-Echoes zero s ok = ok
  first_reads-Echoes (suc n) s ok =
      first_reads-Echoes n _ (record { each = ok.each; writes = ((refl, tt), ok.writes) })

-- With fewer than 2^64 completions, in any order: the loop has submitted one write for each read
-- that it has answered, and the write with number `k` that is in flight carries PAGE_SIZE times the
-- word of read `k` in the order in which they were answered; every request has the client's number.
pub event_loop_echoes :
    (c : Setup) (es : List Event)
    → length es < 2 ^ 64
    → EchoesTo c (answered c es (start c)) (event_loop c es (start c))
unfolding start
event_loop_echoes c es few =
    event_loop-EchoesTo c [] es (start c) (omega arith) (
      first_reads-Echoes c (c.ring_size / 4) (before_reads c) (record { each = refl; writes = tt }))
