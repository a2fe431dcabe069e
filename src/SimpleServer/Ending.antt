-- ===== src/SimpleServer/Ending.antt =====
-- The server of simple_iou_server.cpp can always come to its end.
use fast_net.Base.{
  sum_of, sum_of-set, ℕ, zero, suc, ◌+◌, ◌/◌, ◌≤◌, ◌<◌, ◌≡◌, refl, sym, ap, subst, ◌∙◌, inl, inr,
  true, false, List, [], ◌∷◌, ◌++◌, Option, some, ltb, leb, get_elem?, set, length, All-get_elem?,
  arith, Bool-cases,
}
use fast_net.Uring.{bytes}
use fast_net.Pool.{Heap, destroy}
use fast_net.Pool.Lifetime.{destroy-held}
use fast_net.Simple.{
  RequestData, read_event, write_event, send_event, recv_event, take_out, EventType,
}
use fast_net.Simple.Flight.{blocks, number}
use fast_net.SimpleServer.{Setup, Loop, start, Outcome, returns, Event, on_event, dispatch, on_read}
use fast_net.SimpleServer.Buffers.{IsSafe, is_read, on_event-IsSafe}
use fast_net.SimpleServer.Program.{
  Thread, begun, looping, finished, Phase, accepting, waiting, shut_down, failed, crashed, Program,
  Input, main_round, queue_init, completes, start_program, numbered, spawn, accept_round,
  wait_round, after_loop, on_outcome, on_completion, on_queue_init, thread_input, on_input,
  run_program,
}
use fast_net.SimpleServer.Shutdown.{
  IsThread, IsProgram, IsLive, number_finished, on_input-IsProgram, run_program-IsProgram,
}

-- How many inputs a thread is away from its end.
abbrev work : Thread → ℕ
work (begun client) = 2
work (looping client s) = 1
work finished = 0

abbrev total_work : List Thread → ℕ
total_work ts = sum_of work ts

no_work : (ts : List Thread) → total_work ts ≡ 0 → number_finished ts ≡ length ts
no_work [] e = refl
no_work (finished ∷ ts) e = omega (arith, no_work ts (omega (arith, e)))
no_work (begun client ∷ ts) e = absurd (omega (arith, e))
no_work (looping client s ∷ ts) e = absurd (omega (arith, e))

find_busy :
    (ts : List Thread)
    → 0 < total_work ts
    → (i : ℕ) × (t : Thread) × (get_elem? ts i ≡ some t) × (0 < work t)
find_busy [] h = absurd (omega arith)
find_busy (begun client ∷ ts) h = (0, begun client, refl, omega arith)
find_busy (looping client s ∷ ts) h = (0, looping client s, refl, omega arith)
find_busy (finished ∷ ts) h =
    let (i, t, here, left) = find_busy ts (omega arith) in (suc i, t, here, left)

read_is_read :
    (r : RequestData) (kind : EventType)
    → is_read (record r { event_type = kind }) ≡ true
    → kind ≡ read_event
read_is_read r read_event e = refl
read_is_read r write_event e = cc
read_is_read r send_event e = cc
read_is_read r recv_event e = cc

-- A read in flight.
find_read :
    (rs : List RequestData)
    → 0 < number is_read rs
    → (i : ℕ) × (q : RequestData) × (qs : List RequestData) × (take_out i rs ≡ some (q, qs))
      × (q.event_type ≡ read_event)
unfolding take_out
find_read [] h = absurd (omega arith)
find_read (r ∷ rs) h = elim (Bool-cases (is_read r)) [
  | inl here ↦ (0, r, rs, refl, read_is_read r r.event_type here)
  | inr later ↦
      let (i, q, qs, found, kind) = find_read rs (ground (arith, later)) in
      (suc i, q, r ∷ qs, rw (found, take_out) refl, kind)
]

module _ (c : Setup) (client_threads : ℕ) where
  CanEnd : Program → Type 0
  CanEnd p = (more : List Input) × ((run_program c client_threads more p).phase ≡ shut_down)

  can_step :
      (input : Input) (p : Program) (ph : Phase)
      → p.phase ≡ ph
      → CanEnd (on_input c client_threads ph input p)
      → CanEnd p
  unfolding run_program CanEnd
  can_step input p ph e (more, ends) = (
    input ∷ more,
    ap
          (λ (x : Phase).
            (run_program c client_threads more (on_input c client_threads x input p)).phase)
          e
        ∙ ends,
  )

  -- The connection of thread `i` is closed: its first read brings nothing.
  closing : ℕ → Event
  closing k = record { index = k; res = bytes 0; word = 0 }

  after_closing :
      (client k : ℕ) (s : Loop) (q : RequestData) (qs : List RequestData)
      → take_out k s.in_flight ≡ some (q, qs)
      → q.event_type ≡ read_event
      → on_event (numbered c client_threads client) (closing k) s
        ≡ returns true (record s { in_flight = qs })
  unfolding on_event dispatch on_read closing
  after_closing client k s q qs found kind = rw (found, on_event, kind) refl

  after_freed :
      (i : ℕ) (s : Loop) (p : Program) (h : Heap)
      → destroy c.allocate_malloc s.world ≡ some h
      → after_loop c client_threads i true s p
        ≡ record p { finished_threads = p.finished_threads + 1; threads = set p.threads i finished }
  unfolding after_loop
  after_freed i s p h freed = rw (freed, after_loop) refl

  finish_thread :
      (i client : ℕ) (s : Loop) (p : Program)
      → 4 ≤ c.ring_size
      → get_elem? p.threads i ≡ some (looping client s)
      → IsThread c client_threads (looping client s)
      → (input : Input) × (on_input c client_threads waiting input p ≡ record p {
        finished_threads = p.finished_threads + 1;
        threads = set p.threads i finished;
      })
  unfolding on_input thread_input on_completion on_outcome
  finish_thread i client s p enough here ok =
      let (k, q, qs, found, kind) = find_read s.in_flight (omega (arith, ok.reads_ok)) in
      let returned = after_closing client k s q qs found kind in
      let safe =
        subst (IsSafe (numbered c client_threads client) (c.ring_size / 4)) returned
          (on_event-IsSafe (numbered c client_threads client) (c.ring_size / 4) (closing k) s ok) in
      let (lost, owned, many, one) = safe in
      let (h, freed, kept) = destroy-held c.allocate_malloc s.world (lost ++ blocks qs) owned in
      (
        completes i (closing k),
        ap (λ (t : Option Thread). on_completion c client_threads i (closing k) t p) here
            ∙ ap (λ (o : Outcome). on_outcome c client_threads i client o p) returned
            ∙ after_freed i (record s { in_flight = qs }) p h freed,
      )

  nearer_by :
      (p : Program) (i : ℕ) (t : Thread)
      → 4 ≤ c.ring_size
      → get_elem? p.threads i ≡ some t
      → IsThread c client_threads t
      → 0 < work t
      → (input : Input) × ((on_input c client_threads waiting input p).phase ≡ p.phase)
        × (total_work (on_input c client_threads waiting input p).threads + 1
            ≡ total_work p.threads)
  unfolding on_input thread_input on_queue_init
  nearer_by p i (begun client) enough here ok todo =
      let new = looping client (start (numbered c client_threads client)) in
      let e = ap (λ (t : Option Thread). on_queue_init c client_threads i true t p) here in
      (
        queue_init i true,
        ap (λ (p' : Program). p'.phase) e,
        omega (
          arith,
          ap (λ (p' : Program). total_work p'.threads) e,
          sum_of-set work p.threads i (begun client) new here,
        ),
      )
  nearer_by p i (looping client s) enough here ok todo =
      let (input, e) = finish_thread i client s p enough here ok in
      (
        input,
        ap (λ (p' : Program). p'.phase) e,
        omega (
          arith,
          ap (λ (p' : Program). total_work p'.threads) e,
          sum_of-set work p.threads i (looping client s) finished here,
        ),
      )
  nearer_by p i finished enough here ok todo = absurd (omega arith)

  -- One input brings the threads nearer to their end, while `main` waits.
  nearer :
      (p : Program)
      → 4 ≤ c.ring_size
      → IsProgram c client_threads p
      → 0 < total_work p.threads
      → (input : Input) × ((on_input c client_threads waiting input p).phase ≡ p.phase)
        × (total_work (on_input c client_threads waiting input p).threads + 1
            ≡ total_work p.threads)
  nearer p enough ok left =
      let (i, t, here, todo) = find_busy p.threads left in
      nearer_by p i t enough here
        (All-get_elem? (IsThread c client_threads) p.threads i t ok.loops here) todo

  wait_round_over :
      (p : Program)
      → ltb p.finished_threads p.client_num ≡ false
      → wait_round c client_threads p ≡ record p { phase = shut_down }
  unfolding wait_round
  wait_round_over p all = rw all refl

  wait_CanEnd :
      (left : ℕ) (p : Program)
      → 4 ≤ c.ring_size
      → p.phase ≡ waiting
      → IsProgram c client_threads p
      → total_work p.threads ≡ left
      → CanEnd p
  unfolding CanEnd on_input run_program
  wait_CanEnd zero p enough e ok none_left =
      let all : ltb p.finished_threads p.client_num ≡ false =
        ground (arith, no_work p.threads none_left, ok.counted, ok.one_each) in
      can_step (main_round true) p waiting e (subst CanEnd (sym (wait_round_over p all)) ([], refl))
  wait_CanEnd (suc left) p enough e ok some_left =
      let (input, same, less) = nearer p enough ok (omega (arith, some_left)) in
      can_step input p waiting e (
        wait_CanEnd left (on_input c client_threads waiting input p) enough (same ∙ e)
          (on_input-IsProgram c client_threads waiting input p e ok)
          (omega (arith, less, some_left)))

  accept_full :
      (p : Program)
      → leb client_threads p.client_num ≡ true
      → accept_round c client_threads true p ≡ record p { phase = waiting }
  unfolding accept_round
  accept_full p full = rw full refl

  accept_more :
      (p : Program)
      → leb client_threads p.client_num ≡ false
      → accept_round c client_threads true p ≡ spawn c client_threads p
  unfolding accept_round
  accept_more p room = rw room refl

  full_CanEnd :
      (p : Program)
      → 4 ≤ c.ring_size
      → p.phase ≡ accepting
      → IsProgram c client_threads p
      → leb client_threads p.client_num ≡ true
      → CanEnd p
  unfolding on_input
  full_CanEnd p enough e ok full = can_step (main_round true) p accepting e (
      wait_CanEnd _ (accept_round c client_threads true p) enough
        (ap (λ (x : Program). x.phase) (accept_full p full))
        (on_input-IsProgram c client_threads accepting (main_round true) p e ok) refl)

  accept_CanEnd :
      (to_come : ℕ) (p : Program)
      → 4 ≤ c.ring_size
      → p.phase ≡ accepting
      → IsProgram c client_threads p
      → client_threads ≤ p.client_num + to_come
      → CanEnd p
  unfolding on_input
  accept_CanEnd zero p enough e ok few = full_CanEnd p enough e ok (ground arith)
  accept_CanEnd (suc to_come) p enough e ok few =
      elim (Bool-cases (leb client_threads p.client_num)) [
        | inl full ↦ full_CanEnd p enough e ok full
        | inr room ↦
            let next = accept_more p room in
            can_step (main_round true) p accepting e (
              accept_CanEnd to_come (accept_round c client_threads true p) enough
                (ap (λ (x : Program). x.phase) next ∙ e)
                (on_input-IsProgram c client_threads accepting (main_round true) p e ok)
                (omega (arith, ap (λ (x : Program). x.client_num) next)))
      ]

  live_CanEnd :
      (ph : Phase) (p : Program)
      → 4 ≤ c.ring_size
      → p.phase ≡ ph
      → IsLive c client_threads ph
      → IsProgram c client_threads p
      → CanEnd p
  live_CanEnd accepting p enough e live ok =
      accept_CanEnd client_threads p enough e ok (omega arith)
  live_CanEnd waiting p enough e live ok = wait_CanEnd _ p enough e ok refl
  live_CanEnd shut_down p enough e live ok = absurd live
  live_CanEnd failed p enough e live ok = absurd live
  live_CanEnd crashed p enough e live ok = absurd live

-- With RING_SIZE at least 4: wherever the program has come to, as long as it has not ended, there
-- is a way on by which `main` returns: clients come until there are CLIENT_THREADS, the rings of
-- all threads are set up, and the connections are closed. No state is a dead end.
pub run_program_ends :
    (c : Setup) (client_threads : ℕ) (inputs : List Input)
    → 4 ≤ c.ring_size
    → IsLive c client_threads (run_program c client_threads inputs start_program).phase
    → (more : List Input) × ((run_program c client_threads more
          (run_program c client_threads inputs start_program)).phase
        ≡ shut_down)
unfolding CanEnd
run_program_ends c client_threads inputs enough live =
    live_CanEnd c client_threads _ (run_program c client_threads inputs start_program) enough refl
      live (run_program-IsProgram c client_threads inputs)
