-- ===== src/SimpleClient/Builds.antt =====
-- simple_iou_client.cpp built with other values of VERIFY, ALLOCATE_MALLOC and the size of the pool.
pub mod Steps
pub mod Whole
use fast_net.Base.{
  ℕ, zero, suc, ◌+◌, ◌-◌, ◌%◌, ◌^◌, ◌≡◌, refl, ap, inl, inr, Bool, List, [], ◌∷◌, map, Option, none,
  some, Option-cases,
}
use fast_net.Simple.{EventType, send_event, recv_event, RequestData, take_out}
use fast_net.SimpleClient.{
  Job, Thread, Status, runs, failed, fault, and_then, send_one, receive_one, start,
}

-- A request without its buffer.
pub record Request : Type 0 where
  pub seq_owner : ℕ
  pub seq_number : ℕ
  pub event_type : EventType
  pub words : List ℕ

abbrev pub request_of : RequestData → Request
request_of r = record {
  seq_owner = r.seq_owner;
  seq_number = r.seq_number;
  event_type = r.event_type;
  words = r.words;
}

-- A thread without its pool and its copies.
pub record State : Type 0 where
  pub in_flight : List Request
  pub send_index : ℕ
  pub recv_index : ℕ
  pub iterations_received : ℕ
  pub total_received : ℕ
  pub send_req_num : ℕ
  pub recv_req_num : ℕ

abbrev pub state_of : Thread → State
state_of t = record {
  in_flight = map request_of t.in_flight;
  send_index = t.send_index;
  recv_index = t.recv_index;
  iterations_received = t.iterations_received;
  total_received = t.total_received;
  send_req_num = t.send_req_num;
  recv_req_num = t.recv_req_num;
}

-- The same job in a build of its own.
abbrev pub built : Job → Bool → Bool → ℕ → Job
built j verify allocate_malloc initial_capacity = record j {
  verify = verify;
  allocate_malloc = allocate_malloc;
  initial_capacity = initial_capacity;
}

-- The steps of a state.
abbrev pub sent : Job → State → State
sent j s =
    let request : Request = record {
      seq_owner = j.thread_index;
      seq_number = s.send_req_num;
      event_type = send_event;
      words = (j.start_index + s.send_index) % 2 ^ 32 ∷ [];
    } in
    record s {
      in_flight = request ∷ s.in_flight;
      send_index = s.send_index + 1;
      send_req_num = (s.send_req_num + 1) % 2 ^ 64;
    }

abbrev pub asked : Job → State → State
asked j s =
    let request : Request = record {
      seq_owner = j.thread_index;
      seq_number = s.recv_req_num;
      event_type = recv_event;
      words = [];
    } in
    record s {
      in_flight = request ∷ s.in_flight;
      recv_index = s.recv_index + 1;
      recv_req_num = (s.recv_req_num + 1) % 2 ^ 64;
    }

abbrev pub answered : ℕ → State → State
answered n s = record s {
  total_received = (s.total_received + n) % 2 ^ 64;
  iterations_received = s.iterations_received + 1;
}

pub send_one-sent : (j : Job) (t : Thread) → state_of (send_one j t) ≡ sent j (state_of t)
unfolding send_one
send_one-sent j t = refl

pub receive_one-asked : (j : Job) (t : Thread) → state_of (receive_one j t) ≡ asked j (state_of t)
unfolding receive_one
receive_one-asked j t = refl

-- Two statuses with the same state, unless one is a fault.
abbrev pub Alike : Status → Status → Type 0
Alike fault s = Unit
Alike (runs t) (runs u) = state_of t ≡ state_of u
Alike (runs t) failed = ⊥
Alike (runs t) fault = Unit
Alike failed (runs u) = ⊥
Alike failed failed = Unit
Alike failed fault = Unit

pub Alike-fault : (s : Status) → Alike s fault
Alike-fault (runs t) = tt
Alike-fault failed = tt
Alike-fault fault = tt

pub and_then-Alike :
    (s s' : Status) (f g : Thread → Status)
    → Alike s s'
    → ((t u : Thread) → state_of t ≡ state_of u → Alike (f t) (g u))
    → Alike (and_then s f) (and_then s' g)
and_then-Alike fault s' f g h next = tt
and_then-Alike (runs t) (runs u) f g h next = next t u h
and_then-Alike (runs t) failed f g h next = absurd h
and_then-Alike (runs t) fault f g h next = Alike-fault (f t)
and_then-Alike failed (runs u) f g h next = absurd h
and_then-Alike failed failed f g h next = tt
and_then-Alike failed fault f g h next = tt

-- A request is taken out of a list as it is out of the list without the buffers.
abbrev pub mapped : Option (RequestData × List RequestData) → Option (Request × List Request)
mapped none = none
mapped (some (q, qs)) = some (request_of q, map request_of qs)

pub take_out-map :
    (i : ℕ) (rs : List RequestData) → take_out i (map request_of rs) ≡ mapped (take_out i rs)
unfolding take_out
take_out-map i [] = refl
take_out-map zero (r ∷ rs) = refl
take_out-map (suc i) (r ∷ rs) = elim (Option-cases (take_out i rs)) [
  | inl gone ↦ rw (take_out-map i rs, gone) refl
  | inr ((q, qs), found) ↦ rw (take_out-map i rs, found) refl
]

-- A thread in a given state, with a fresh pool.
abbrev pub thread_in : Job → State → Thread
thread_in j s = record (start j) {
  send_index = s.send_index;
  recv_index = s.recv_index;
  iterations_received = s.iterations_received;
  total_received = s.total_received;
}

-- Two threads that run the same way.
abbrev pub Same : Thread → Thread → Type 0
Same t u = state_of t ≡ state_of u

-- A number or a test that a state determines.
pub determined :
    {A : Type 0} (j : Job) (f : Thread → A) (t u : Thread)
    → Same t u
    → f (thread_in j (state_of t)) ≡ f (thread_in j (state_of u))
determined j f t u same = ap (λ s. f (thread_in j s)) same
