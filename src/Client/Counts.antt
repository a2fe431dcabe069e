-- ===== src/Client/Counts.antt =====
-- What the counters of client.cpp mean whatever the network does.
use fast_net.Base.{
  ℕ, zero, suc, ◌+◌, ◌≤◌, ◌≡◌, Bool, List, arith, ◌==◌, Bool-cases, Option-cases, inl, inr,
}
use fast_net.Wire.{
  sizeof_response, GetPageResponse, response_of_bytes, response_bytes, response_to_host_order,
}
use fast_net.Server.{ReadResult}
use fast_net.Client.{
  Received, receive, Client, Progress, done, conclude, judge, run_rounds, start, client_main,
}

judge-counts :
    (c : Client) (p : Progress) (r : GetPageResponse)
    → (judge c p r).correct_responses + (judge c p r).incorrect_responses
      ≤ p.correct_responses + p.incorrect_responses + 1
unfolding judge
judge-counts c p r = ground arith

conclude-counts :
    (c : Client) (p : Progress) (d : Received)
    → (conclude c p d).correct_responses + (conclude c p d).incorrect_responses
      ≤ p.correct_responses + p.incorrect_responses + 1
unfolding conclude
conclude-counts c p d = elim (Bool-cases (d.total_read == sizeof_response c.page_size)) [
  | inl whole ↦ rw whole (
      judge-counts c
        (record p {
          response =
              response_bytes c.host
                (response_to_host_order c.host (response_of_bytes c.host d.buffer));
        })
        (response_to_host_order c.host (response_of_bytes c.host d.buffer)))
  | inr short ↦ rw short (omega arith)
]

-- The rest of a round, and of the rounds behind it, by what the socket gave.
module _ (c : Client) (sent : ℕ → Bool) (q : Progress) (rest : List ReadResult) where
  run_rounds-counts :
      (n i : ℕ) (p : Progress) (reads : List ReadResult)
      → run_rounds c sent n i p reads ≡ done (q, rest)
      → q.correct_responses + q.incorrect_responses
        ≤ p.correct_responses + p.incorrect_responses + n
  unfolding run_rounds
  run_rounds-counts zero i p reads e = ground arith
  run_rounds-counts (suc n) i p reads e = elim (Bool-cases (c.page_count == 0)) [
    | inl none_left ↦ cc (rw (none_left, run_rounds) at e)
    | inr pages ↦ elim (Bool-cases (sent i)) [
      | inr short ↦
          let e' = rw (pages, run_rounds) at e in
          let next = rw (short, run_rounds) at e' in
          omega (arith, run_rounds-counts n (i + 1) p reads next)
      | inl whole ↦ elim (Option-cases (receive (sizeof_response c.page_size) 0 p.response reads)) [
        | inl waits ↦
            let e' = rw (pages, run_rounds) at e in
            let e'' = rw (whole, run_rounds) at e' in cc (rw (waits, run_rounds) at e'')
        | inr (d, read) ↦
            let e' = rw (pages, run_rounds) at e in
            let e'' = rw (whole, run_rounds) at e' in
            let next = rw (read, run_rounds) at e'' in
            omega (
              arith,
              conclude-counts c p d,
              run_rounds-counts n (i + 1) (conclude c p d) d.rest next,
            )
      ]
    ]
  ]

-- Whatever is sent and read, a run that ends has judged at most one response for each round.
pub client_main-counts :
    (c : Client) (num_requests : ℕ) (sent : ℕ → Bool) (reads rest : List ReadResult) (q : Progress)
    → client_main c num_requests sent reads ≡ done (q, rest)
    → q.correct_responses + q.incorrect_responses ≤ num_requests
unfolding client_main
client_main-counts c n sent reads rest q e =
    omega (arith, run_rounds-counts c sent q rest n 0 (start c) reads e)
