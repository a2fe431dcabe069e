-- ===== src/Tests/Answers.antt =====
-- A client thread of simple_iou_client.cpp and its connection in simple_iou_server.cpp.
use fast_net.Base.{
  ◌^◌, ℕ, zero, suc, some, ◌<◌, ◌≡◌, refl, ap, subst, true, false, ◌&&◌, ltb, if◌then◌else◌, inl,
  List, [], ◌∷◌, arith,
}
use fast_net.Uring.{bytes}
use fast_net.Pool.{construct, allocate, deallocate, find, assign}
use fast_net.Pool.Counting.{count}
use fast_net.Simple.{take_out}
use fast_net.SimpleServer.{
  Loop, Outcome, goes_on, returns, event_loop, on_event, dispatch, on_read, answer_request,
  first_reads, start,
}
use fast_net.SimpleServer as Server
use fast_net.SimpleServer.Echo.{answered}
use fast_net.Ranges.{thread_start, thread_end}
use fast_net.SimpleClient.Program.{job_of, main, main_exact}
use fast_net.SimpleClient.Builds.{built}
use fast_net.SimpleClient.Builds.Whole.{RunsAlike, rounds-built}
use fast_net.SimpleClient.Verify.{after_rounds, after_rounds_ends}
use fast_net.SimpleClient.{
  Job, runs, fault, Thread, Event, Progress, left, inside, stopped, num_requests, total_expected,
  rounds, round, submit, complete, send_loop, receive_loop, send_one, receive_one, complete_one,
}
use fast_net.SimpleClient as Client
use fast_net.SimpleClient.Rule.{Unstopped}
use fast_net.SimpleClient.Sends.{requested, IsNumbered, rounds-IsNumbered}
use fast_net.SimpleClient.Answered.{all_answered}
use fast_net.Tests.Rings.{setup, job}

-- The thread submits both of its requests, and both answers come.
abbrev both_come : List (List Event)
both_come = (record { index = 0; res = bytes 32 } ∷ record { index = 0; res = bytes 32 } ∷ []) ∷ []

abbrev thread_of : Progress → Thread
thread_of (left t) = t
thread_of (inside t) = t
thread_of (stopped s) = Client.start job

abbrev at_end : Thread
at_end = thread_of (rounds job both_come (Client.start job))

leaves : rounds job both_come (Client.start job) ≡ left at_end
unfolding rounds round submit Client.submit_sends complete send_loop receive_loop send_one
    receive_one complete_one Client.on_event Client.start take_out deallocate find allocate
    construct assign
leaves = refl

-- The server reads the pages 5 and 4.
abbrev both_read : List Server.Event
both_read =
    record { index = 0; res = bytes 4; word = 5 }
    ∷ record { index = 0; res = bytes 4; word = 4 }
    ∷ []

abbrev loop_of : Outcome → Loop
loop_of (goes_on s) = s
loop_of (returns result s) = s
loop_of _ = start setup

abbrev served : Loop
served = loop_of (event_loop setup both_read (start setup))

goes : event_loop setup both_read (start setup) ≡ goes_on served
unfolding event_loop on_event dispatch on_read take_out start deallocate find allocate construct
    assign
goes = refl

numbers :
    (at_end.total_received ≡ 64)
    × (at_end.send_index ≡ 2)
    × (served.write_req_num ≡ 2)
    × (answered setup both_read (start setup) ≡ 5 ∷ 4 ∷ [])
    × (at_end.sent_words ≡ 5 ∷ 4 ∷ [])
unfolding rounds round submit Client.submit_sends complete send_loop receive_loop send_one
    receive_one complete_one Client.on_event Client.start take_out deallocate find allocate
    construct assign event_loop on_event dispatch on_read start answer_request first_reads
numbers = (refl, refl, refl, refl, refl)

all_answered_example :
    (at_end.total_received ≡ total_expected job)
    × (served.write_req_num ≡ num_requests job)
    × ((w : ℕ)
        → count w (answered setup both_read (start setup))
          ≡ count w (requested job (num_requests job)))
all_answered_example =
    all_answered job both_come at_end setup both_read served leaves (omega arith)
      (omega (arith, numbers.0)) (inl goes) refl (omega arith) (omega arith) (omega arith)
      (λ w. omega (arith, ap (count w) numbers.3, ap (count w) numbers.4))
      (omega (arith, numbers.0, numbers.2))

rounds-IsNumbered_example :
    Unstopped (λ t. IsNumbered job t × (t.send_index < 2 ^ 31)) (left at_end)
rounds-IsNumbered_example =
    subst (Unstopped (λ t. IsNumbered job t × (t.send_index < 2 ^ 31))) leaves
      (rounds-IsNumbered job both_come (omega arith))

-- The same thread, built with VERIFY, faults behind its loop.
abbrev verifying : Job
verifying = record job { verify = true }

abbrev verified : Thread
verified = thread_of (rounds verifying both_come (Client.start verifying))

verifying_leaves : rounds verifying both_come (Client.start verifying) ≡ left verified
unfolding rounds round submit Client.submit_sends complete send_loop receive_loop send_one
    receive_one complete_one Client.on_event Client.start take_out deallocate find allocate
    construct assign
verifying_leaves = refl

after_rounds_ends_example :
    after_rounds verifying verified
    ≡ (if verifying.verify && ltb 0 verified.iterations_received then fault else runs verified)
after_rounds_ends_example = after_rounds_ends verifying both_come verified verifying_leaves

-- Two threads with two requests each.
abbrev thread : ℕ → Thread
thread i = thread_of (rounds (job_of job 4 2 i) both_come (Client.start (job_of job 4 2 i)))

thread_leaves :
    (i : ℕ)
    → i < 2
    → rounds (job_of job 4 2 i) both_come (Client.start (job_of job 4 2 i)) ≡ left (thread i)
unfolding rounds round submit Client.submit_sends complete send_loop receive_loop send_one
    receive_one complete_one Client.on_event Client.start take_out deallocate find allocate
    construct assign Client.thread_range thread_start thread_end
thread_leaves zero below = refl
thread_leaves (suc zero) below = refl
thread_leaves (suc (suc i)) below = absurd (omega arith)

thread_exact : (i : ℕ) → i < 2 → (thread i).total_received ≡ total_expected (job_of job 4 2 i)
unfolding rounds round submit Client.submit_sends complete send_loop receive_loop send_one
    receive_one complete_one Client.on_event Client.start take_out deallocate find allocate
    construct assign Client.thread_range thread_start thread_end
thread_exact zero below = refl
thread_exact (suc zero) below = refl
thread_exact (suc (suc i)) below = absurd (omega arith)

main_exact_example :
    main job 4 2 (λ i. both_come)
    ≡ some (record { total_received_bytes = 128; expected_total_received_bytes = 128 })
main_exact_example =
    main_exact job 4 2 (λ i. both_come) thread refl (omega arith) (omega arith) (omega arith)
      thread_leaves thread_exact

rounds-built_example :
    RunsAlike
      (rounds (built job false false 3) both_come (Client.start (built job false false 3)))
      (rounds (built job true true 0) both_come (Client.start (built job true true 0)))
rounds-built_example = rounds-built job false false 3 true true 0 both_come
