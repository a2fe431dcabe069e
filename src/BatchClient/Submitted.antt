-- ===== src/BatchClient/Submitted.antt =====
-- What the threads of client_iou.cpp hand to their rings, and what a server makes of it.
use fast_net.Base.{
  ℕ, zero, suc, ◌+◌, ◌-◌, ◌≤◌, ◌<◌, ◌≡◌, refl, sym, ap, ◌∙◌, false, List, [], ◌∷◌, ◌++◌, some,
  arith, ◌==◌, length, get_elem?, All, All-map, length-replicate,
}
use fast_net.Wire.{request_of_bytes, request_to_host_order}
use fast_net.Server.{Call, Server, reply}
use fast_net.Server.Replies.{sent_bytes}
use fast_net.Client.{Client}
use fast_net.BatchClient.{
  Submission, send, receive, EventType, sent, received, Completion, Outcome, done, waiting, throws,
  division_by_zero, out_of_bounds, ◌>>=◌, Thread, receive_loop, send_requests, start,
}
use fast_net.BatchClient.Collecting.{receives, EndsInReceive, Succeeds}
use fast_net.BatchClient.Batch.{
  Serves, InBatch, receives_into, request_sent, sends, receives_from, send_loop-done,
  receive_loop-done,
}

abbrev pub submissions_of : Outcome Thread → List Submission
submissions_of (done t) = t.submitted
submissions_of waiting = []
submissions_of throws = []
submissions_of division_by_zero = []
submissions_of out_of_bounds = []

-- What the code of a batch from `a` to `b` submits, in a client with `n` requests.
abbrev pub batch_submitted : Client → ℕ → ℕ → ℕ → List Submission
batch_submitted c n a b =
    submissions_of (send_requests c a b (start c n) >>= λ t. receive_loop (b - a) a t)

-- The bytes of the sends, and the buffers of the receives, in order.
abbrev pub sent_texts : List Submission → List (List ℕ)
sent_texts [] = []
sent_texts (send j text ∷ ss) = text ∷ sent_texts ss
sent_texts (receive j ∷ ss) = sent_texts ss

abbrev pub buffers_asked : List Submission → List ℕ
buffers_asked [] = []
buffers_asked (send j text ∷ ss) = buffers_asked ss
buffers_asked (receive j ∷ ss) = j ∷ buffers_asked ss

-- A receive that completes is one of those submitted, and as a stream keeps its order, the one of
-- rank `rank` brings the server's answer to the send of that rank.
pub record IsAnswer (v : Server) (ss : List Submission) (i : ℕ) (brought : List ℕ) : Type 0 where
  pub rank : ℕ
  pub asked : get_elem? (buffers_asked ss) rank ≡ some i
  pub text : List ℕ
  pub sent_as : get_elem? (sent_texts ss) rank ≡ some text
  pub call : Call
  pub answered : reply v (request_to_host_order v.host (request_of_bytes v.host text)) ≡ some call
  pub carried : brought ≡ sent_bytes call

abbrev pub IsServed : Server → List Submission → EventType → Type 0
IsServed v ss sent = Unit
IsServed v ss (received i brought) = IsAnswer v ss i brought

-- The completions of what a batch has submitted: all succeed, every receive completes, with a whole
-- answer and in any order, and the last of them is the last of all. Sends may complete at any time.
pub record ServesWhat (v : Server) (ss : List Submission) (cs : List Completion) : Type 0 where
  pub succeeded : All Succeeds cs
  pub ends : EndsInReceive cs
  pub as_many : receives cs ≡ length (buffers_asked ss)
  pub served : All (λ e. IsServed v ss e.event_type) cs
  pub each : (rank i : ℕ) → get_elem? (buffers_asked ss) rank ≡ some i → 0 < receives_into i cs

-- The buffers of receives from `j` on.
buffers-sends :
    (c : Client) (m j : ℕ) (ss : List Submission)
    → buffers_asked (sends c m j ++ ss) ≡ buffers_asked ss
buffers-sends c zero j ss = refl
buffers-sends c (suc m) j ss = buffers-sends c m (j + 1) ss

length-buffers : (m j : ℕ) → length (buffers_asked (receives_from m j)) ≡ m
length-buffers zero j = refl
length-buffers (suc m) j = omega (arith, length-buffers m (j + 1))

buffer_at :
    (m j rank i : ℕ)
    → get_elem? (buffers_asked (receives_from m j)) rank ≡ some i
    → (rank < m) × (i ≡ j + rank)
buffer_at zero j rank i e = cc
buffer_at (suc m) j zero i e = let same : j ≡ i = cc in omega (arith, same)
buffer_at (suc m) j (suc rank) i e = omega (arith, buffer_at m (j + 1) rank i e)

buffer_of :
    (m j rank : ℕ) → rank < m → get_elem? (buffers_asked (receives_from m j)) rank ≡ some (j + rank)
buffer_of zero j rank below = absurd (omega arith)
buffer_of (suc m) j zero below = let same : j ≡ j + 0 = omega arith in ap some same
buffer_of (suc m) j (suc rank) below =
    let same : j + 1 + rank ≡ j + suc rank = omega arith in
    buffer_of m (j + 1) rank (omega arith) ∙ ap some same

-- The bytes of the sends from `j` on.
text_at :
    (c : Client) (m j rank : ℕ) (ss : List Submission)
    → rank < m
    → get_elem? (sent_texts (sends c m j ++ ss)) rank ≡ some (request_sent c (j + rank))
text_at c zero j rank ss below = absurd (omega arith)
text_at c (suc m) j zero ss below =
    let same : j ≡ j + 0 = omega arith in ap (λ k. some (request_sent c k)) same
text_at c (suc m) j (suc rank) ss below =
    let same : j + 1 + rank ≡ j + suc rank = omega arith in
    text_at c m (j + 1) rank ss (omega arith) ∙ ap (λ k. some (request_sent c k)) same

-- What a batch submits: its requests, with their bytes, and then its receives.
pub batch_submitted-sends :
    (c : Client) (n a b : ℕ)
    → (c.page_count == 0) ≡ false
    → a ≤ b
    → b ≤ n
    → batch_submitted c n a b ≡ sends c (b - a) a ++ receives_from (b - a) a
unfolding send_requests
batch_submitted-sends c n a b some_page le room =
    let (u, ran, len, same, log) =
      send_loop-done c n (b - a) a (start c n) some_page (length-replicate n _) (omega arith) in
    let got =
      receive_loop-done n (b - a) a u (ap length same ∙ length-replicate n _) (omega arith) in
    rw (ran, batch_submitted)
      (rw (got, batch_submitted) (ap (λ l. l ++ receives_from (b - a) a) log))

-- Serving what a batch submits is answering the requests of its range, each into its own buffer.
pub ServesWhat-Serves :
    (v : Server) (c : Client) (n a b : ℕ) (cs : List Completion)
    → (c.page_count == 0) ≡ false
    → a ≤ b
    → b ≤ n
    → ServesWhat v (batch_submitted c n a b) cs
    → Serves v c a b cs
ServesWhat-Serves v c n a b cs some_page le room w =
    let m = b - a in
    let receives_part = receives_from m a in
    let buffers : buffers_asked (batch_submitted c n a b) ≡ buffers_asked receives_part =
      ap buffers_asked (batch_submitted-sends c n a b some_page le room)
      ∙ buffers-sends c m a receives_part in
    record {
      succeeded = w.succeeded;
      ends = w.ends;
      as_many = w.as_many ∙ ap length buffers ∙ length-buffers m a;
      in_batch =
          All-map (λ e. IsServed v (batch_submitted c n a b) e.event_type)
            (λ e. InBatch v c a b e.event_type) (λ e h. answers e.event_type h) cs w.served;
      each = λ k low high.
          let same : a + (k - a) ≡ k = omega arith in
          w.each (k - a) k (
            ap (λ l. get_elem? l (k - a)) buffers
            ∙ buffer_of m a (k - a) (omega arith)
            ∙ ap some same);
    }
  where
    answers : (kind : EventType) → IsServed v (batch_submitted c n a b) kind → InBatch v c a b kind
    answers sent h = tt
    answers (received i brought) h =
        let m = b - a in
        let log = batch_submitted-sends c n a b some_page le room in
        let there : get_elem? (buffers_asked (receives_from m a)) h.rank ≡ some i =
          sym (
            ap (λ l. get_elem? (buffers_asked l) h.rank) log
            ∙ ap (λ l. get_elem? l h.rank) (buffers-sends c m a (receives_from m a)))
          ∙ h.asked in
        let (below, at) = buffer_at m a h.rank i there in
        let stated : get_elem? (sent_texts (batch_submitted c n a b)) h.rank
            ≡ some (request_sent c (a + h.rank)) =
          ap (λ l. get_elem? (sent_texts l) h.rank) log
          ∙ text_at c m a h.rank (receives_from m a) below in
        let sent_text : h.text ≡ request_sent c (a + h.rank) = cc (h.sent_as, stated) in
        let text : h.text ≡ request_sent c i = sent_text ∙ ap (request_sent c) (sym at) in
        (
          omega arith,
          omega arith,
          record {
            call = h.call;
            answered =
                ap (λ t. reply v (request_to_host_order v.host (request_of_bytes v.host t)))
                  (sym text)
                ∙ h.answered;
            carried = h.carried;
          },
        )

-- Answering the requests of the range is serving what the batch submits.
pub Serves-ServesWhat :
    (v : Server) (c : Client) (n a b : ℕ) (cs : List Completion)
    → (c.page_count == 0) ≡ false
    → a ≤ b
    → b ≤ n
    → Serves v c a b cs
    → ServesWhat v (batch_submitted c n a b) cs
Serves-ServesWhat v c n a b cs some_page le room w =
    let m = b - a in
    let log = batch_submitted-sends c n a b some_page le room in
    let buffers : buffers_asked (batch_submitted c n a b) ≡ buffers_asked (receives_from m a) =
      ap buffers_asked log ∙ buffers-sends c m a (receives_from m a) in
    record {
      succeeded = w.succeeded;
      ends = w.ends;
      as_many = w.as_many ∙ sym (ap length buffers ∙ length-buffers m a);
      served =
          All-map (λ e. InBatch v c a b e.event_type)
            (λ e. IsServed v (batch_submitted c n a b) e.event_type)
            (λ e h. served_by e.event_type h) cs w.in_batch;
      each = λ rank i asked.
          let there : get_elem? (buffers_asked (receives_from m a)) rank ≡ some i =
            sym (ap (λ l. get_elem? l rank) buffers) ∙ asked in
          let (below, at) = buffer_at m a rank i there in w.each i (omega arith) (omega arith);
    }
  where
    served_by :
        (kind : EventType) → InBatch v c a b kind → IsServed v (batch_submitted c n a b) kind
    served_by sent h = tt
    served_by (received i brought) (low, high, h) =
        let m = b - a in
        let log = batch_submitted-sends c n a b some_page le room in
        let same : a + (i - a) ≡ i = omega arith in
        record {
          rank = i - a;
          asked =
              ap (λ l. get_elem? (buffers_asked l) (i - a)) log
              ∙ ap (λ l. get_elem? l (i - a)) (buffers-sends c m a (receives_from m a))
              ∙ buffer_of m a (i - a) (omega arith)
              ∙ ap some same;
          text = request_sent c i;
          sent_as =
              ap (λ l. get_elem? (sent_texts l) (i - a)) log
              ∙ text_at c m a (i - a) (receives_from m a) (omega arith)
              ∙ ap (λ k. some (request_sent c k)) same;
          call = h.call;
          answered = h.answered;
          carried = h.carried;
        }
