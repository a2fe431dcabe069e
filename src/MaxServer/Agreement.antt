-- ===== src/MaxServer/Agreement.antt =====
-- max_server.cpp: a program and its counters agree.
use fast_net.Base.{
  ℕ, ◌+◌, ◌≤◌, ◌<◌, ◌≡◌, refl, sym, ap, ◌∙◌, inl, inr, false, List, [], ◌∷◌, ◌==◌, ==_iff, Option,
  some, if◌then◌else◌, get_elem?, set, length, length-set, get_elem?-lt, sum_of, sum_of-set, All,
  All-set, arith, Bool-cases,
}
use fast_net.Uring.{Res}
use fast_net.Pool.Ownership.{Inv}
use fast_net.Simple.Flight.{blocks}
use fast_net.MaxServer.{u64_mod, Counters}
use fast_net.MaxServer.Totals.{total}
use fast_net.MaxServer.Reads.{Setup, Loop, Event}
use fast_net.MaxServer.Program.{
  Thread, begun, looping, Phase, accepting, waiting, joining, shut_down, failed, crashed, Program,
  Input, completes, is_running,
}
use fast_net.MaxServer.Threads.{has_ended, one_if_finished, Ended, Ended-set, has_ended-set}

-- The completions that a thread in its loop takes, with its number.
abbrev pub log_at : ℕ → Event → Option Thread → List (ℕ × Res)
log_at i e (some (looping s)) = (i, e.res) ∷ []
log_at i e _ = []

abbrev pub thread_log : Input → Program → List (ℕ × Res)
thread_log (completes i e) p = log_at i e (get_elem? p.client_threads i)
thread_log _ p = []

abbrev pub input_log : Input → Program → List (ℕ × Res)
input_log input p = if is_running p.phase then thread_log input p else []

module _ (c : Setup) (clients : ℕ) where
  -- A loop has its buffers in order, and RING_SIZE reads in flight.
  abbrev pub IsThread : Thread → Type 0
  IsThread (looping s) = Inv s.world (blocks s.in_flight) × (length s.in_flight ≡ c.ring_size)
  IsThread _ = Unit

  abbrev pub IsPhase : Phase → List Thread → Type 0
  IsPhase accepting ts = Unit
  IsPhase waiting ts = length ts ≡ clients
  IsPhase (joining k) ts = (length ts ≡ clients) × Ended k ts
  IsPhase shut_down ts = (length ts ≡ clients) × Ended clients ts
  IsPhase failed ts = Unit
  IsPhase crashed ts = ⊥

  -- The program agrees with the counters `s`.
  pub record IsProgram (p : Program) (s : Counters) : Type 0 where
    pub in_phase : IsPhase p.phase p.client_threads
    pub few : length p.client_threads ≤ clients
    pub small : p.total_bytes_received < u64_mod
    pub same_total : s.total_bytes_received ≡ p.total_bytes_received
    pub same_finished : s.finished_threads ≡ p.finished_threads
    pub same_closed : (i : ℕ) → s.closed i ≡ has_ended (get_elem? p.client_threads i)
    pub counted : sum_of one_if_finished p.client_threads ≡ p.finished_threads
    pub loops : All IsThread p.client_threads

  -- A completion is of one of the RING_SIZE reads of its thread.
  abbrev pub InRing : Input → Type 0
  InRing (completes i e) = e.index < c.ring_size
  InRing _ = Unit

  -- Another phase.
  pub IsProgram-phase :
      (p : Program) (s : Counters) (ph : Phase)
      → IsPhase ph p.client_threads
      → IsProgram p s
      → IsProgram (record p { phase = ph }) s
  IsProgram-phase p s ph h ok = record {
    in_phase = h;
    few = ok.few;
    small = ok.small;
    same_total = ok.same_total;
    same_finished = ok.same_finished;
    same_closed = ok.same_closed;
    counted = ok.counted;
    loops = ok.loops;
  }

  pub IsPhase-set :
      (ph : Phase) (ts : List Thread) (i : ℕ) (t u : Thread)
      → get_elem? ts i ≡ some t
      → one_if_finished t ≡ 0
      → IsPhase ph ts
      → IsPhase ph (set ts i u)
  IsPhase-set accepting ts i t u here goes h = tt
  IsPhase-set waiting ts i t u here goes h = omega (arith, length-set ts i u, h)
  IsPhase-set (joining k) ts i t u here goes (all, h) =
      (omega (arith, length-set ts i u, all), Ended-set k ts i t u here goes h)
  IsPhase-set shut_down ts i t u here goes (all, h) =
      (omega (arith, length-set ts i u, all), Ended-set clients ts i t u here goes h)
  IsPhase-set failed ts i t u here goes h = tt
  IsPhase-set crashed ts i t u here goes h = h

  -- The thread in place `i`, which has not ended, comes to stand at `u`, and the counters change.
  pub set-IsProgram :
      (p : Program) (s s' : Counters) (i n total : ℕ) (t u : Thread)
      → get_elem? p.client_threads i ≡ some t
      → one_if_finished t ≡ 0
      → IsThread u
      → total < u64_mod
      → s'.total_bytes_received ≡ total
      → s'.finished_threads ≡ n
      → n ≡ p.finished_threads + one_if_finished u
      → ((j : ℕ) → s'.closed j ≡ (if j == i then has_ended (some u) else s.closed j))
      → IsProgram p s
      → IsProgram
          (record p {
            total_bytes_received = total;
            finished_threads = n;
            client_threads = set p.client_threads i u;
          })
          s'
  set-IsProgram p s s' i n total t u here goes u_ok small same_total same_n more closed ok =
      record {
        in_phase = IsPhase-set p.phase p.client_threads i t u here goes ok.in_phase;
        few = omega (arith, length-set p.client_threads i u, ok.few);
        small = small;
        same_total = same_total;
        same_finished = same_n;
        same_closed = λ j.
            closed j
            ∙ ap (λ b. if j == i then has_ended (some u) else b) (ok.same_closed j)
            ∙ sym (has_ended-set p.client_threads i j u (get_elem?-lt p.client_threads i here));
        counted =
            omega (
              arith,
              sum_of-set one_if_finished p.client_threads i t u here,
              ok.counted,
              goes,
              more,
            );
        loops = All-set IsThread p.client_threads i u ok.loops u_ok;
      }

  pub still_open :
      (s : Counters) (i : ℕ)
      → s.closed i ≡ false
      → (j : ℕ) → s.closed j ≡ (if j == i then false else s.closed j)
  still_open s i e j = elim (Bool-cases (j == i)) [
    | inl same ↦ rw same (ap s.closed ((==_iff j i).0 same) ∙ e)
    | inr other ↦ rw other refl
  ]

  pub open_kept :
      (p : Program) (s : Counters) (i : ℕ) (t : Loop)
      → get_elem? p.client_threads i ≡ some (looping t)
      → IsProgram p s
      → (j : ℕ) → s.closed j ≡ (if j == i then false else s.closed j)
  open_kept p s i t here ok = still_open s i (ok.same_closed i ∙ ap has_ended here)

  pub begun_kept :
      (p : Program) (s : Counters) (i : ℕ)
      → get_elem? p.client_threads i ≡ some begun
      → IsProgram p s
      → (j : ℕ) → s.closed j ≡ (if j == i then false else s.closed j)
  begun_kept p s i here ok = still_open s i (ok.same_closed i ∙ ap has_ended here)
