-- ===== src/BatchClient/Batch.antt =====
-- One batch of client_iou.cpp against the server of server.cpp: what is submitted, and what the
-- responses hold once the completions of the batch have come.
use mathlib.Core.List.{append_assoc, append-nil}
use fast_net.Base.{
  ℕ, zero, suc, ◌+◌, ◌-◌, ◌^◌, ◌≤◌, ◌<◌, ◌≡◌, ◌≢◌, refl, sym, ap, ◌∙◌, false, inl, inr, List, [],
  ◌∷◌, ◌++◌, some, arith, ◌==◌, ==_iff, Bool-cases, if◌then◌else◌, length, length-set, map, All,
  get_elem?, set, drop, get_elem?-set_self, get_elem?-set_other, get_elem?-some,
}
use fast_net.Wire.Portable.{request_portable}
use fast_net.Wire.{
  request_bytes, request_of_bytes, request_to_network_order, request_to_host_order,
  response_of_bytes, response_to_host_order, sizeof_response,
}
use fast_net.Memory.{FillingStrategy}
use fast_net.Server.{Call, Server, reply}
use fast_net.Server.Replies.{IsServer, answer, sent_bytes, reply-answer}
use fast_net.Client.{Client, make_request}
use fast_net.Client.Session.{IsClient, make_request-fits}
use fast_net.BatchClient.{
  Submission, send, receive, EventType, sent, received, Completion, Wait, completed, done, Thread,
  submit, fill_front, deliver, receive_loop, prepare_send, send_loop, run_batch,
}
use fast_net.BatchClient.Collecting.{
  receives, EndsInReceive, deliver_all, Succeeds, collect-deliver_all,
}

-- The bytes of request `k`, as the client lays them out.
abbrev pub request_sent : Client → ℕ → List ℕ
request_sent c k = request_bytes c.host (request_to_network_order c.host (make_request c k))

-- A receive has brought the server's answer to the request of its index.
pub record Answers (v : Server) (c : Client) (k : ℕ) (brought : List ℕ) : Type 0 where
  pub call : Call
  pub answered :
      reply v (request_to_host_order v.host (request_of_bytes v.host (request_sent c k)))
      ≡ some call
  pub carried : brought ≡ sent_bytes call

-- A receive of the batch from `a` to `b` brings the answer to its own request.
abbrev pub InBatch : Server → Client → ℕ → ℕ → EventType → Type 0
InBatch v c a b sent = Unit
InBatch v c a b (received k brought) = (a ≤ k) × (k < b) × Answers v c k brought

-- How many of the completions are of a receive into buffer `k`.
abbrev pub into : ℕ → EventType → ℕ
into k sent = 0
into k (received i brought) = if k == i then 1 else 0

abbrev pub receives_into : ℕ → List Completion → ℕ
receives_into k [] = 0
receives_into k (c ∷ cs) = into k c.event_type + receives_into k cs

-- The completions that a batch takes: all succeed, every response of the batch comes, whole and in
-- any order, and the last of the responses is the last of all. Sends may complete at any time.
pub record Serves (v : Server) (c : Client) (a b : ℕ) (cs : List Completion) : Type 0 where
  pub succeeded : All Succeeds cs
  pub ends : EndsInReceive cs
  pub as_many : receives cs ≡ b - a
  pub in_batch : All (λ e. InBatch v c a b e.event_type) cs
  pub each : (k : ℕ) → a ≤ k → k < b → 0 < receives_into k cs

-- What a batch submits: its requests, with their bytes, and then its receives.
abbrev pub sends : Client → ℕ → ℕ → List Submission
sends c zero j = []
sends c (suc n) j = send j (request_sent c j) ∷ sends c n (j + 1)

abbrev pub receives_from : ℕ → ℕ → List Submission
receives_from zero j = []
receives_from (suc n) j = receive j ∷ receives_from n (j + 1)

-- The vectors have `n` elements; each buffer has the size of a response.
pub record InVectors (c : Client) (n : ℕ) (t : Thread) : Type 0 where
  pub requests_len : length t.requests ≡ n
  pub responses_len : length t.responses ≡ n
  pub sized :
      (k : ℕ) (buffer : List ℕ)
      → get_elem? t.responses k ≡ some buffer
      → length buffer ≡ sizeof_response c.page_size

pub send_loop-done :
    (c : Client) (n k j : ℕ) (t : Thread)
    → (c.page_count == 0) ≡ false
    → length t.requests ≡ n
    → j + k ≤ n
    → (t' : Thread) × (send_loop c k j t ≡ done t')
      × (length t'.requests ≡ n)
      × (t'.responses ≡ t.responses)
      × (t'.submitted ≡ t.submitted ++ sends c k j)
unfolding send_loop prepare_send
send_loop-done c n zero j t some_page len room = (t, refl, len, refl, sym (append-nil t.submitted))
send_loop-done c n (suc k) j t some_page len room =
    let (old, here) = get_elem?-some t.requests j (omega arith) in
    let request = request_to_network_order c.host (make_request c j) in
    let t₁ =
      submit (send j (request_bytes c.host request))
        (record t { requests = set t.requests j request }) in
    let (t', ran, len', same, log) =
      send_loop-done c n k (j + 1) t₁ some_page (length-set t.requests j request ∙ len)
        (omega arith) in
    rw (here, prepare_send)
      (rw (some_page, prepare_send)
        (
          t',
          ran,
          len',
          same,
          log ∙ append_assoc t.submitted (send j (request_sent c j) ∷ []) (sends c k (j + 1)),
        ))

pub receive_loop-done :
    (n k j : ℕ) (t : Thread)
    → length t.responses ≡ n
    → j + k ≤ n
    → receive_loop k j t ≡ done (record t { submitted = t.submitted ++ receives_from k j })
unfolding receive_loop
receive_loop-done n zero j t len room = rw (append-nil t.submitted) refl
receive_loop-done n (suc k) j t len room =
    let (buffer, here) = get_elem?-some t.responses j (omega arith) in
    rw (here, receive_loop)
      (receive_loop-done n k (j + 1) (submit (receive j) t) len (omega arith)
        ∙ ap (λ (l : List Submission). done (record t { submitted = l }))
            (append_assoc t.submitted (receive j ∷ []) (receives_from k (j + 1))))

module _ (s : FillingStrategy) (v : Server) (c : Client) (v_ok : IsServer s v)
    (c_ok : IsClient s v c) where
  -- Response `k` has come: its buffer decodes to the server's answer to request `k`.
  abbrev pub HasCome : ℕ → Thread → Type 0
  HasCome k t =
      (buffer : List ℕ) × (get_elem? t.responses k ≡ some buffer)
      × (response_to_host_order c.host (response_of_bytes c.host buffer)
          ≡ answer s v.page_size v.page_count (make_request c k))

  answered_bytes :
      (k : ℕ) (brought : List ℕ)
      → Answers v c k brought
      → (length brought ≡ sizeof_response c.page_size)
        × (response_to_host_order c.host (response_of_bytes c.host brought)
            ≡ answer s v.page_size v.page_count (make_request c k))
  answered_bytes k brought a =
      let r = make_request c k in
      let fits = make_request-fits s v c v_ok c_ok k in
      let arrived = request_portable c.host v.host c_ok.host_ok v_ok.host_ok r fits in
      let (call, replied, len, said) = reply-answer s v c.host r v_ok c_ok.host_ok fits in
      let same : call ≡ a.call = cc (sym replied ∙ (sym (ap (reply v) arrived) ∙ a.answered)) in
      let whole : brought ≡ sent_bytes call = a.carried ∙ ap sent_bytes (sym same) in
      rw whole (len ∙ ap sizeof_response (sym c_ok.same_size), said)

  -- A whole response replaces the buffer.
  fill_whole :
      (brought old : List ℕ) → length brought ≡ length old → fill_front brought old ≡ brought
  fill_whole brought old len = rw (drop_all old len) (append-nil brought)
    where
      drop_all : (old : List ℕ) {k : ℕ} → k ≡ length old → drop k old ≡ []
      drop_all [] {k = zero} e = refl
      drop_all [] {k = suc k} e = absurd (omega arith)
      drop_all (b ∷ bs) {k = zero} e = absurd (omega arith)
      drop_all (b ∷ bs) {k = suc k} e = drop_all bs (omega arith)

  -- What a receive of the batch leaves: its response, the others as they were.
  record Delivered (n : ℕ) (kind : EventType) (t t' : Thread) : Type 0 where
    vectors : InVectors c n t'
    kept : (k : ℕ) → HasCome k t → HasCome k t'
    submitted : t'.submitted ≡ t.submitted

  received_one :
      (n a b i : ℕ) (brought : List ℕ) (t : Thread)
      → b ≤ n
      → InVectors c n t
      → InBatch v c a b (received i brought)
      → Delivered n (received i brought) t (deliver (received i brought) t)
        × HasCome i (deliver (received i brought) t)
  unfolding deliver
  received_one n a b i brought t room vec (low, high, ans) =
      let len = vec.responses_len in
      let (old, here) = get_elem?-some t.responses i (omega arith) in
      let (size, said) = answered_bytes i brought ans in
      let whole = fill_whole brought old (size ∙ sym (vec.sized i old here)) in
      let set_here = get_elem?-set_self t.responses i brought (omega arith) in
      rw (here, deliver)
        (rw whole (
          record {
            vectors = record {
              requests_len = vec.requests_len;
              responses_len = length-set t.responses i brought ∙ len;
              sized = λ k buffer found. elim (Bool-cases (k == i)) [
                | inl same ↦
                    let e : k ≡ i = (==_iff k i).0 same in
                    let there = rw e at found in
                    let e' : brought ≡ buffer = cc (set_here, there) in rw (← e') size
                | inr other ↦
                    vec.sized k buffer
                      (sym (get_elem?-set_other t.responses i k brought (apart k i other)) ∙ found)
              ];
            };
            kept = λ k (buffer, found, meant). elim (Bool-cases (k == i)) [
              | inl same ↦ let e : k ≡ i = (==_iff k i).0 same in rw e (brought, set_here, said)
              | inr other ↦ (
                buffer,
                get_elem?-set_other t.responses i k brought (apart k i other) ∙ found,
                meant,
              )
            ];
            submitted = refl;
          },
          (brought, set_here, said),
        ))
    where
      apart : (k i : ℕ) → (k == i) ≡ false → k ≢ i
      apart k i other e = let same = (==_iff k i).1 e in cc

  deliver-one_receive :
      (n a b : ℕ) (kind : EventType) (t : Thread)
      → b ≤ n
      → InVectors c n t
      → InBatch v c a b kind
      → Delivered n kind t (deliver kind t)
        × ((k : ℕ) → 0 < into k kind → HasCome k (deliver kind t))
  unfolding deliver
  deliver-one_receive n a b sent t room vec inside =
      (record { vectors = vec; kept = λ k h. h; submitted = refl }, λ k h. absurd (omega arith))
  deliver-one_receive n a b (received i brought) t room vec inside =
      let (left, come) = received_one n a b i brought t room vec inside in
      (
        left,
        λ k h. elim (Bool-cases (k == i)) [
          | inl same ↦ let e : k ≡ i = (==_iff k i).0 same in rw e come
          | inr other ↦ absurd (ground (arith, h, other))
        ],
      )

  deliver_all-HasCome :
      (n a b : ℕ) (cs : List Completion) (t : Thread)
      → b ≤ n
      → InVectors c n t
      → All (λ e. InBatch v c a b e.event_type) cs
      → InVectors c n (deliver_all cs t)
        × ((deliver_all cs t).submitted ≡ t.submitted)
        × ((k : ℕ) → HasCome k t → HasCome k (deliver_all cs t))
        × ((k : ℕ) → 0 < receives_into k cs → HasCome k (deliver_all cs t))
  deliver_all-HasCome n a b [] t room vec inside =
      (vec, refl, λ k h. h, λ k h. absurd (omega arith))
  deliver_all-HasCome n a b (e ∷ cs) t room vec inside =
      let (left, come) = deliver-one_receive n a b e.event_type t room vec inside.0 in
      let (vec', log, kept, comes) =
        deliver_all-HasCome n a b cs (deliver e.event_type t) room left.vectors inside.1 in
      (
        vec',
        log ∙ left.submitted,
        λ k h. kept k (left.kept k h),
        λ k h. elim (Bool-cases (into k e.event_type == 0)) [
          | inl none_here ↦ comes k (ground (arith, h, none_here))
          | inr here ↦ kept k (come k (ground (arith, here)))
        ],
      )

  -- The vectors and the log after a batch from `a` to `b`: all its responses have come, and those
  -- that had come before are kept.
  pub record Served (n a b : ℕ) (t t' : Thread) (log : List Submission) : Type 0 where
    pub vectors : InVectors c n t'
    pub comes : (k : ℕ) → a ≤ k → k < b → HasCome k t'
    pub kept : (k : ℕ) → HasCome k t → HasCome k t'
    pub submitted : t'.submitted ≡ t.submitted ++ log

  pub page_count_ne_zero : (c.page_count == 0) ≡ false
  page_count_ne_zero = let same = c_ok.same_count in let some_page = c_ok.some_page in ground arith

  -- A batch whose responses come runs to its end, and takes no more completions than its own.
  pub batch-Served :
      (n a b : ℕ) (cs : List Completion) (ws : List Wait) (t : Thread)
      → a ≤ b
      → b ≤ n
      → n < 2 ^ 64
      → InVectors c n t
      → Serves v c a b cs
      → (t' : Thread) × (run_batch c a b t (map completed cs ++ ws) ≡ done (t', ws))
        × Served n a b t t' (sends c (b - a) a ++ receives_from (b - a) a)
  unfolding run_batch
  batch-Served n a b cs ws t le room small vec serves =
      let (u, ran, len, same, log) =
        send_loop-done c n (b - a) a t page_count_ne_zero vec.requests_len (omega arith) in
      let asked : Thread = record u { submitted = u.submitted ++ receives_from (b - a) a } in
      let vec' : InVectors c n asked = record {
        requests_len = len;
        responses_len = rw same vec.responses_len;
        sized = rw same vec.sized;
      } in
      let (vec'', log', kept, comes) =
        deliver_all-HasCome n a b cs asked room vec' serves.in_batch in
      let collected =
        collect-deliver_all (b - a) 0 asked cs ws (omega arith) serves.succeeded serves.ends
          (omega (arith, serves.as_many)) in
      (
        deliver_all cs asked,
        rw ran (
            rw (receive_loop-done n (b - a) a u (rw same vec.responses_len) (omega arith))
              collected),
        record {
          vectors = vec'';
          comes = λ k low high. comes k (serves.each k low high);
          kept = λ k h. kept k (rw same h);
          submitted =
              log'
              ∙ (ap (λ l. l ++ receives_from (b - a) a) log
                  ∙ append_assoc t.submitted (sends c (b - a) a) (receives_from (b - a) a));
        },
      )
