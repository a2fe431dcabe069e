-- ===== src/MaxServer/Steps.antt =====
-- max_server.cpp: every step of the program keeps it in agreement with its counters.
use fast_net.Base.{
  ℕ, ◌+◌, ◌%◌, ◌<◌, ◌≡◌, refl, sym, ap, subst, ◌∙◌, inl, inr, Bool, true, false, [], ◌∷◌, Option,
  none, some, leb, if◌then◌else◌, get_elem?, length, length-append, sum_of-append, All-append,
  All-get_elem?, arith, Bool-cases,
}
use fast_net.Pool.Construction.{construct-Inv}
use fast_net.Pool.Lifetime.{destroy-held}
use fast_net.Simple.{RequestData}
use fast_net.Simple.Flight.{blocks}
use fast_net.MaxServer.{
  u64_mod, Action, reread, close_socket, Counters, on_completion, apply, step, run, still_waits,
}
use fast_net.MaxServer.Totals.{total}
use fast_net.MaxServer.Reads.{
  Setup, Loop, Event, buffer_size, add_read_request, before_reads, start, act, on_event,
}
use fast_net.MaxServer.Reading as Reading
use fast_net.MaxServer.Reading.{take_out-some, take_out-Off, first_reads-IsLoop}
use fast_net.MaxServer.Program.{
  Thread, begun, looping, finished, Phase, accepting, waiting, joining, shut_down, failed, crashed,
  Program, Input, main_round, queue_init, completes, counters, accept_round, wait_round, join_round,
  after_loop, on_outcome, thread_event, on_queue_init, thread_input, main_input, is_running,
  on_input,
}
use fast_net.MaxServer.Threads.{
  has_ended, one_if_finished, Ended, has_ended-spawn, Ended-suc, get_elem?-none,
}
use fast_net.MaxServer.Agreement.{
  log_at, thread_log, input_log, IsThread, IsPhase, IsProgram, InRing, IsProgram-phase,
  set-IsProgram, open_kept, begun_kept,
}

module _ (c : Setup) (clients : ℕ) (below_95 : ℕ → ℕ → Bool) (expected : ℕ) where
  pub after_loop-IsProgram :
      (p : Program) (s : Counters) (i : ℕ) (t : Loop) (q : RequestData) (l : Loop)
      → get_elem? p.client_threads i ≡ some (looping t)
      → Reading.Off c c.ring_size p.total_bytes_received q l
      → IsProgram c clients p s
      → IsProgram c clients (after_loop c clients below_95 expected i l p) (apply i close_socket s)
  unfolding after_loop apply
  after_loop-IsProgram p s i t q l here off ok =
      let held = q.address ∷ blocks l.in_flight in
      let (h, freed, kept) = destroy-held c.allocate_malloc l.world held off.owned in
      let n = p.finished_threads + 1 in
      rw (freed, after_loop)
        (set-IsProgram c clients p s (apply i close_socket s) i n p.total_bytes_received (looping t)
          finished here refl tt ok.small ok.same_total (omega (arith, ok.same_finished))
          (omega arith) (λ j. refl) ok)

  -- A read is taken off the ring of thread `i`; the counters do what they do with its result.
  pub acted-IsProgram :
      (p : Program) (s : Counters) (i : ℕ) (a : Action) (t : Loop) (q : RequestData) (l : Loop)
      → get_elem? p.client_threads i ≡ some (looping t)
      → Reading.Off c c.ring_size p.total_bytes_received q l
      → IsProgram c clients p s
      → IsProgram c clients (on_outcome c clients below_95 expected i (act c a q l) p) (apply i a s)
  unfolding on_outcome act apply add_read_request
  acted-IsProgram p s i (reread n) t q l here off ok =
      let same : (l.total_bytes_received + n) % u64_mod ≡ (p.total_bytes_received + n) % u64_mod =
        ap (λ k. (k + n) % u64_mod) off.counted in
      set-IsProgram c clients p s _ i p.finished_threads ((l.total_bytes_received + n) % u64_mod)
        (looping t) _ here refl (off.owned, omega (arith, off.reads)) (omega arith)
        (ap (λ k. (k + n) % u64_mod) ok.same_total ∙ sym same) ok.same_finished (omega arith)
        (open_kept c clients p s i t here ok) ok
  acted-IsProgram p s i close_socket t q l here off ok =
      after_loop-IsProgram p s i t q l here off ok

  -- A completion of thread `i`; each of its RING_SIZE reads is in flight.
  pub thread_event-IsProgram :
      (p : Program) (s : Counters) (i : ℕ) (e : Event) (t : Loop)
      → e.index < c.ring_size
      → get_elem? p.client_threads i ≡ some (looping t)
      → IsProgram c clients p s
      → IsProgram c clients
          (thread_event c clients below_95 expected i e (some (looping t)) p)
          (apply i (on_completion e.res) s)
  unfolding thread_event on_event
  thread_event-IsProgram p s i e t below here ok =
      let now = record t { total_bytes_received = p.total_bytes_received } in
      let (owned, reads) =
        All-get_elem? (IsThread c clients) p.client_threads i (looping t) ok.loops here in
      let ((q, qs), found) = take_out-some e.index t.in_flight (omega (arith, reads)) in
      let off =
        take_out-Off c c.ring_size p.total_bytes_received e.index now q qs
          (record { owned = owned; reads = reads; counted = refl }) found in
      rw (found, on_event)
        (acted-IsProgram p s i (on_completion e.res) t q (record now { in_flight = qs }) here off
          ok)

  pub start-IsThread : (total : ℕ) → IsThread c clients (looping (start c total))
  unfolding start
  start-IsThread total =
      let ok = first_reads-IsLoop c c.ring_size 0 total (before_reads c total) (record {
        owned = construct-Inv c.allocate_malloc (buffer_size c ∷ []) c.initial_capacity;
        reads = refl;
        counted = refl;
      }) in
      (ok.owned, omega (arith, ok.reads))

  pub fail-IsProgram :
      (p : Program) (s : Counters)
      → IsProgram c clients p s
      → IsProgram c clients (record p { phase = failed }) s
  fail-IsProgram p s ok = IsProgram-phase c clients p s failed tt ok

  pub on_queue_init-IsProgram :
      (p : Program) (s : Counters) (i : ℕ) (good : Bool) (t : Option Thread)
      → get_elem? p.client_threads i ≡ t
      → IsProgram c clients p s
      → IsProgram c clients (on_queue_init c clients below_95 expected i good t p) s
  unfolding on_queue_init
  on_queue_init-IsProgram p s i true (some begun) here ok =
      set-IsProgram c clients p s s i p.finished_threads p.total_bytes_received begun
        (looping (start c p.total_bytes_received)) here refl (start-IsThread p.total_bytes_received)
        ok.small ok.same_total ok.same_finished (omega arith) (begun_kept c clients p s i here ok)
        ok
  on_queue_init-IsProgram p s i false (some begun) here ok = fail-IsProgram p s ok
  on_queue_init-IsProgram p s i good (some (looping t)) here ok = ok
  on_queue_init-IsProgram p s i good (some finished) here ok = ok
  on_queue_init-IsProgram p s i good none here ok = ok

  pub accept_round-IsProgram :
      (p : Program) (s : Counters) (accepted : Bool)
      → p.phase ≡ accepting
      → IsProgram c clients p s
      → IsProgram c clients
          (accept_round c clients below_95 expected (length p.client_threads) accepted p)
          s
  unfolding accept_round
  accept_round-IsProgram p s accepted e ok =
      elim (Bool-cases (leb clients (length p.client_threads))) [
        | inl full ↦
            rw full (IsProgram-phase c clients p s waiting (ground (arith, full, ok.few)) ok)
        | inr room ↦ rw room (elim (Bool-cases accepted) [
          | inl got ↦ rw got (record {
            in_phase = rw e tt;
            few = ground (arith, room, length-append p.client_threads (begun ∷ []));
            small = ok.small;
            same_total = ok.same_total;
            same_finished = ok.same_finished;
            same_closed = λ i. ok.same_closed i ∙ sym (has_ended-spawn p.client_threads i);
            counted =
                omega
                  (arith, sum_of-append one_if_finished p.client_threads (begun ∷ []), ok.counted);
            loops = All-append (IsThread c clients) p.client_threads (begun ∷ []) ok.loops (tt, tt);
          })
          | inr none_got ↦ rw none_got (fail-IsProgram p s ok)
        ])
      ]

  pub wait_round-IsProgram :
      (p : Program) (s : Counters)
      → length p.client_threads ≡ clients
      → IsProgram c clients p s
      → IsProgram c clients (wait_round c clients below_95 expected p) s
  unfolding wait_round
  wait_round-IsProgram p s full ok =
      elim (Bool-cases (still_waits below_95 expected (counters c clients below_95 expected p))) [
        | inl waits ↦ rw waits ok
        | inr over ↦
            rw over
              (IsProgram-phase c clients p s (joining 0) (full, λ j less. absurd (omega arith)) ok)
      ]

  pub join_round-IsProgram :
      (p : Program) (s : Counters) (i : ℕ) (t : Option Thread)
      → get_elem? p.client_threads i ≡ t
      → length p.client_threads ≡ clients
      → Ended i p.client_threads
      → IsProgram c clients p s
      → IsProgram c clients (join_round c clients below_95 expected i t p) s
  unfolding join_round
  join_round-IsProgram p s i none here full ended ok =
      IsProgram-phase c clients p s shut_down
        (full, λ j less. ended j (omega (arith, get_elem?-none p.client_threads i here, full))) ok
  join_round-IsProgram p s i (some finished) here full ended ok =
      IsProgram-phase c clients p s (joining (i + 1))
        (full, Ended-suc i p.client_threads here ended) ok
  join_round-IsProgram p s i (some begun) here full ended ok = ok
  join_round-IsProgram p s i (some (looping t)) here full ended ok = ok

  -- The same of any thread: one that is not in its loop sees no completion.
  pub event_at :
      (p : Program) (s : Counters) (i : ℕ) (e : Event) (t : Option Thread)
      → get_elem? p.client_threads i ≡ t
      → e.index < c.ring_size
      → IsProgram c clients p s
      → IsProgram c clients
          (thread_event c clients below_95 expected i e t p)
          (run (log_at i e t) s)
  unfolding thread_event run step
  event_at p s i e (some (looping t)) here below ok =
      let still : s.closed i ≡ false = ok.same_closed i ∙ ap has_ended here in
      rw (still, step) (thread_event-IsProgram p s i e t below here ok)
  event_at p s i e (some begun) here below ok = ok
  event_at p s i e (some finished) here below ok = ok
  event_at p s i e none here below ok = ok

  pub thread_input-IsProgram :
      (p : Program) (s : Counters) (input : Input)
      → (InRing c clients) input
      → IsProgram c clients p s
      → IsProgram c clients
          (thread_input c clients below_95 expected input p)
          (run (thread_log input p) s)
  unfolding thread_input run
  thread_input-IsProgram p s (main_round accepted) below ok = ok
  thread_input-IsProgram p s (queue_init i good) below ok =
      on_queue_init-IsProgram p s i good (get_elem? p.client_threads i) refl ok
  thread_input-IsProgram p s (completes i e) below ok =
      event_at p s i e (get_elem? p.client_threads i) refl below ok

  pub main_input-IsProgram :
      (p : Program) (s : Counters) (ph : Phase) (accepted : Bool)
      → p.phase ≡ ph
      → IsProgram c clients p s
      → IsProgram c clients (main_input c clients below_95 expected ph accepted p) s
  unfolding main_input
  main_input-IsProgram p s accepting accepted e ok = accept_round-IsProgram p s accepted e ok
  main_input-IsProgram p s waiting accepted e ok =
      wait_round-IsProgram p s
        (subst (λ (ph : Phase). IsPhase c clients ph p.client_threads) e ok.in_phase) ok
  main_input-IsProgram p s (joining i) accepted e ok =
      let (full, ended) =
        subst (λ (ph : Phase). IsPhase c clients ph p.client_threads) e ok.in_phase in
      join_round-IsProgram p s i (get_elem? p.client_threads i) refl full ended ok
  main_input-IsProgram p s shut_down accepted e ok = ok
  main_input-IsProgram p s failed accepted e ok = ok
  main_input-IsProgram p s crashed accepted e ok = ok

  pub while_running :
      (p : Program) (s : Counters) (input : Input) (running : Bool)
      → (InRing c clients) input
      → IsProgram c clients p s
      → IsProgram c clients
          (if running then thread_input c clients below_95 expected input p else p)
          (run (if running then thread_log input p else []) s)
  unfolding run
  while_running p s input true below ok = thread_input-IsProgram p s input below ok
  while_running p s input false below ok = ok

  pub on_input-IsProgram :
      (p : Program) (s : Counters) (input : Input)
      → (InRing c clients) input
      → IsProgram c clients p s
      → IsProgram c clients
          (on_input c clients below_95 expected input p)
          (run (input_log input p) s)
  unfolding on_input run
  on_input-IsProgram p s (main_round accepted) below ok =
      let none_taken : input_log (main_round accepted) p ≡ [] = ground arith in
      rw none_taken (main_input-IsProgram p s p.phase accepted refl ok)
  on_input-IsProgram p s (queue_init i good) below ok =
      while_running p s (queue_init i good) (is_running p.phase) below ok
  on_input-IsProgram p s (completes i e) below ok =
      while_running p s (completes i e) (is_running p.phase) below ok
