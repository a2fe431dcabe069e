-- ===== src/Client/Session.antt =====
-- A whole run of client.cpp against the server of server.cpp.
use fast_net.Base.{
  ℕ, zero, suc, ◌+◌, ◌*◌, ◌^◌, ◌≤◌, ◌<◌, ◌≡◌, refl, sym, ap, ◌∙◌, true, false, List, [], ◌++◌,
  Option, some, arith, ◌==◌, length, length-replicate, map, All, ==_refl,
}
use fast_net.Wire.Machine.{IsHost}
use fast_net.Wire.Portable.{RequestFits, request_portable, length-response_bytes}
use fast_net.Wire.{
  request_bytes, request_of_bytes, request_to_network_order, request_to_host_order, response_bytes,
  sizeof_response,
}
use fast_net.Memory.{verify, FillingStrategy}
use fast_net.Memory.Filling.{values_from, length-values_from}
use fast_net.Memory.Verify.{verify_iff}
use fast_net.Server.{ReadResult, got, Call, Server, reply}
use fast_net.Server.Replies.{IsServer, answer, sent_bytes, reply-answer, answer-below}
use fast_net.Client.{
  Client, Progress, count_correct, done, make_request, judge, conclude, run_rounds, start,
  client_main,
}
use fast_net.Client.Receive.{delivered, NonEmpty, receive_whole}

-- A client with the server's configuration. Page numbers fit in their field.
pub record IsClient (s : FillingStrategy) (v : Server) (c : Client) : Type 0 where
  pub host_ok : IsHost c.host
  pub same_size : c.page_size ≡ v.page_size
  pub same_count : c.page_count ≡ v.page_count
  pub verifier_ok : c.verifier ≡ record { page_count = v.page_count; strategy = s }
  pub some_page : 0 < v.page_count
  pub few_pages : v.page_count ≤ 2 ^ 32

-- The network brings the server's answer to the request of round `i`, cut in any way.
pub record Delivers (v : Server) (c : Client) (i : ℕ) (chunks : List (List ℕ)) : Type 0 where
  pub call : Call
  pub answered :
      reply v (
        request_to_host_order v.host (
          request_of_bytes v.host
            (request_bytes c.host (request_to_network_order c.host (make_request c i)))))
      ≡ some call
  pub carried : delivered chunks ≡ sent_bytes call
  pub non_empty : All NonEmpty chunks

-- The stream of the deliveries of `n` rounds from round `i`.
abbrev pub stream : (ℕ → List (List ℕ)) → ℕ → ℕ → List ReadResult
stream chunks zero i = []
stream chunks (suc n) i = map got (chunks i) ++ stream chunks n (i + 1)

some_eq {ℓ} : {A : Type ℓ} {a b : A} {o : Option A} → some a ≡ o → o ≡ some b → a ≡ b
some_eq p q = cc

module _ (s : FillingStrategy) (v : Server) (c : Client) (v_ok : IsServer s v)
    (c_ok : IsClient s v c) where
  pub make_request-fits : (i : ℕ) → RequestFits (make_request c i)
  make_request-fits i = omega arith

  pub make_request-below : (i : ℕ) → (make_request c i).page_number < v.page_count
  make_request-below i = let same = c_ok.same_count in let some_page = c_ok.some_page in omega arith

  -- The service's answer to a request of the client passes its test.
  pub verify_answered :
      (i : ℕ)
      → let r = answer s v.page_size v.page_count (make_request c i) in
        (verify c.page_size c.verifier r.content r.header.page_number ≡ true)
        × (r.header.status ≡ 200)
  verify_answered i =
      let r = make_request c i in
      let fits = v_ok.fits in
      let page = values_from s (r.page_number * v.page_size) v.page_size in
      let known =
        verify_iff v.page_size (record { page_count = v.page_count; strategy = s }) page
          r.page_number (length-values_from s _ v.page_size) (omega arith) in
      let passes = known.1 (make_request-below i, refl) in
      rw (answer-below s v.page_size v.page_count r (make_request-below i))
        (rw (c_ok.verifier_ok, c_ok.same_size) passes, refl)

  judge-answer :
      (i : ℕ) (p : Progress)
      → judge c p (answer s v.page_size v.page_count (make_request c i)) ≡ count_correct p
  unfolding judge
  judge-answer i p =
      let (passes, success) = verify_answered i in rw (success, judge) (rw passes refl)

  -- A round whose answer arrives counts one correct response.
  conclude_correct :
      (i : ℕ) (chunks : List (List ℕ)) (p : Progress) (rest : List ReadResult)
      → Delivers v c i chunks
      → (length (delivered chunks) ≡ sizeof_response c.page_size)
        × (conclude c p (record {
          total_read = sizeof_response c.page_size;
          buffer = delivered chunks;
          rest = rest;
        })
            ≡ count_correct (record p {
              response =
                  response_bytes c.host (answer s v.page_size v.page_count (make_request c i));
            }))
  unfolding conclude
  conclude_correct i chunks p rest d =
      let r = make_request c i in
      let arrived =
        request_portable c.host v.host c_ok.host_ok v_ok.host_ok r (make_request-fits i) in
      let (call, replied, sized, said) =
        reply-answer s v c.host r v_ok c_ok.host_ok (make_request-fits i) in
      let same : d.call ≡ call = some_eq (sym d.answered) (rw arrived replied) in
      let whole : delivered chunks ≡ sent_bytes call = d.carried ∙ ap sent_bytes same in
      rw whole
        (sized ∙ ap sizeof_response (sym c_ok.same_size), rw (said, ==_refl) (judge-answer i _))

  length-answer :
      (i : ℕ) → length (answer s v.page_size v.page_count (make_request c i)).content ≡ v.page_size
  length-answer i =
      rw (answer-below s v.page_size v.page_count (make_request c i) (make_request-below i))
        (length-values_from s _ v.page_size)

  length-next :
      (i : ℕ)
      → length (response_bytes c.host (answer s v.page_size v.page_count (make_request c i)))
        ≡ sizeof_response c.page_size
  length-next i =
      let r = answer s v.page_size v.page_count (make_request c i) in
      let same = c_ok.same_size in
      omega (arith, length-response_bytes c.host c_ok.host_ok r, length-answer i)

  page_count_ne_zero : (c.page_count == 0) ≡ false
  page_count_ne_zero = let same = c_ok.same_count in let some_page = c_ok.some_page in ground arith

  -- The rounds from `i` on add their number to the count of correct responses.
  run_rounds_correct :
      (chunks : ℕ → List (List ℕ)) (n i : ℕ) (p : Progress)
      → ((k : ℕ) → Delivers v c k (chunks k))
      → length p.response ≡ sizeof_response c.page_size
      → p.correct_responses + n < 2 ^ 32
      → (q : Progress) × (run_rounds c (λ _. true) n i p (stream chunks n i) ≡ done (q, []))
        × (q.correct_responses ≡ p.correct_responses + n)
        × (q.incorrect_responses ≡ p.incorrect_responses)
  unfolding run_rounds
  run_rounds_correct chunks zero i p brings len few = (p, refl, omega arith, refl)
  run_rounds_correct chunks (suc n) i p brings len few =
      let rest = stream chunks n (i + 1) in
      let (sized, judged) = conclude_correct i (chunks i) p rest (brings i) in
      let read =
        receive_whole (sizeof_response c.page_size) p.response (chunks i) rest (brings i).non_empty
          len sized in
      let some_page : (c.page_count == 0) ≡ false = page_count_ne_zero in
      let p' = count_correct (record p {
        response = response_bytes c.host (answer s v.page_size v.page_count (make_request c i));
      }) in
      let len' : length p'.response ≡ sizeof_response c.page_size = length-next i in
      let (q, ran, correct, incorrect) =
        run_rounds_correct chunks n (i + 1) p' brings len' (omega arith) in
      rw (some_page, run_rounds)
        (rw (read, run_rounds) (rw judged (q, ran, omega arith, incorrect)))

-- Let the client have the configuration of a server that holds its pages, with at least one page
-- and at most 2^32. If every request is sent whole, and the network brings each answer of the
-- server, in order and cut into any non-empty deliveries, then a run of `num_requests` rounds,
-- fewer than 2^31 as they are counted by an int, ends: it waits on no read, it has read all that
-- came, and it counts every response as correct and none as incorrect. The two machines may differ
-- in byte order.
pub client_main_correct :
    (s : FillingStrategy) (v : Server) (c : Client) (num_requests : ℕ) (chunks : ℕ → List (List ℕ))
    → IsServer s v
    → IsClient s v c
    → ((k : ℕ) → Delivers v c k (chunks k))
    → num_requests < 2 ^ 31
    → (q : Progress) × (client_main c num_requests (λ _. true) (stream chunks num_requests 0)
        ≡ done (q, []))
      × (q.correct_responses ≡ num_requests)
      × (q.incorrect_responses ≡ 0)
unfolding client_main
client_main_correct s v c n chunks v_ok c_ok brings few =
    let (q, ran, correct, incorrect) =
      run_rounds_correct s v c v_ok c_ok chunks n 0 (start c) brings
        (length-replicate (sizeof_response c.page_size) 0) (omega arith) in
    (q, ran, omega arith, incorrect)
