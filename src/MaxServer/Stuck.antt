-- ===== src/MaxServer/Stuck.antt =====
-- max_server.cpp: what happens when too few bytes come.
use fast_net.Base.{
  ℕ, ◌≡◌, ◌⊎◌, refl, sym, ap, ◌∙◌, inl, inr, Bool, true, List, [], ◌∷◌, Option, none, some,
  if◌then◌else◌, get_elem?, length, get_elem?-lt,
}
use fast_net.MaxServer.{still_waits}
use fast_net.MaxServer.Reads.{Setup, Event}
use fast_net.MaxServer.Program.{
  Thread, finished, Phase, waiting, Program, Input, main_round, queue_init, completes, counters,
  wait_round, thread_event, on_queue_init, thread_input, main_input, is_running, on_input,
  run_program,
}
use fast_net.MaxServer.Threads.{Ended}

module _ (c : Setup) (clients : ℕ) (below_95 : ℕ → ℕ → Bool) (expected : ℕ) (p : Program) where
  not_looping :
      (i : ℕ) (t : Option Thread)
      → get_elem? p.client_threads i ≡ t
      → Ended (length p.client_threads) p.client_threads
      → (t ≡ none) ⊎ (t ≡ some finished)
  not_looping i none here ended = inl refl
  not_looping i (some t) here ended =
      inr (sym here ∙ ended i (get_elem?-lt p.client_threads i here))

  no_event :
      (i : ℕ) (e : Event) (t : Option Thread)
      → (t ≡ none) ⊎ (t ≡ some finished)
      → thread_event c clients below_95 expected i e t p ≡ p
  unfolding thread_event
  no_event i e t (inl gone) = rw gone refl
  no_event i e t (inr ended) = rw ended refl

  no_init :
      (i : ℕ) (good : Bool) (t : Option Thread)
      → (t ≡ none) ⊎ (t ≡ some finished)
      → on_queue_init c clients below_95 expected i good t p ≡ p
  unfolding on_queue_init
  no_init i good t (inl gone) = rw gone refl
  no_init i good t (inr ended) = rw ended refl

  still_waiting :
      still_waits below_95 expected (counters c clients below_95 expected p) ≡ true
      → wait_round c clients below_95 expected p ≡ p
  unfolding wait_round
  still_waiting short = rw short refl

  if_running : (q : Program) → p.phase ≡ waiting → (if is_running p.phase then q else p) ≡ q
  if_running q e = ap (λ (ph : Phase). if is_running ph then q else p) e

  pub nothing_changes :
      (input : Input)
      → p.phase ≡ waiting
      → Ended (length p.client_threads) p.client_threads
      → still_waits below_95 expected (counters c clients below_95 expected p) ≡ true
      → on_input c clients below_95 expected input p ≡ p
  unfolding on_input main_input thread_input
  nothing_changes (main_round accepted) e ended short =
      ap (λ (ph : Phase). main_input c clients below_95 expected ph accepted p) e
      ∙ still_waiting short
  nothing_changes (queue_init i good) e ended short =
      let t = get_elem? p.client_threads i in
      if_running (on_queue_init c clients below_95 expected i good t p) e
      ∙ no_init i good t (not_looping i t refl ended)
  nothing_changes (completes i ev) e ended short =
      let t = get_elem? p.client_threads i in
      if_running (thread_event c clients below_95 expected i ev t p) e
      ∙ no_event i ev t (not_looping i t refl ended)

-- Once every connection has ended, nothing that happens adds to the counter: if it is then below
-- 95 % of what is expected, `main` never leaves the loop in which it waits, and nothing changes.
pub short_count_stuck :
    (c : Setup) (clients : ℕ) (below_95 : ℕ → ℕ → Bool) (expected : ℕ) (p : Program)
    (inputs : List Input)
    → p.phase ≡ waiting
    → Ended (length p.client_threads) p.client_threads
    → still_waits below_95 expected (counters c clients below_95 expected p) ≡ true
    → run_program c clients below_95 expected inputs p ≡ p
unfolding run_program
short_count_stuck c clients below_95 expected p [] e ended short = refl
short_count_stuck c clients below_95 expected p (input ∷ inputs) e ended short =
    ap (run_program c clients below_95 expected inputs)
      (nothing_changes c clients below_95 expected p input e ended short)
    ∙ short_count_stuck c clients below_95 expected p inputs e ended short
