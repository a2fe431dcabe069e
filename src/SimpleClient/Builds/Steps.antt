-- ===== src/SimpleClient/Builds/Steps.antt =====
-- Two builds of a thread of simple_iou_client.cpp make the same steps.
use fast_net.Base.{
  ℕ, zero, suc, ◌≡◌, refl, sym, ap, subst, ◌∙◌, inl, inr, Bool, List, [], ◌∷◌, map, some,
  Bool-cases, Option-cases,
}
use fast_net.Uring.{Res, bytes, error}
use fast_net.Pool.{deallocate}
use fast_net.Simple.{
  EventType, read_event, write_event, send_event, recv_event, RequestData, page_buffer_size,
  word_buffer_size, take_out,
}
use fast_net.SimpleClient.{
  send_fuel, receive_fuel, submit_sends, Job, Thread, Event, Status, runs, failed, fault, may_send,
  may_receive, send_one, receive_one, send_loop, receive_loop, submit, give_back, complete_one,
  on_result, on_event, complete, round,
}
use fast_net.SimpleClient.Builds.{
  request_of, Request, State, state_of, built, sent, asked, answered, Alike, and_then-Alike, mapped,
  take_out-map, send_one-sent, receive_one-asked, Same, determined,
}

-- Two builds of one job.
module _ (j : Job) (v m : Bool) (c : ℕ) (v' m' : Bool) (c' : ℕ) where
  abbrev one : Job
  one = built j v m c

  abbrev other : Job
  other = built j v' m' c'

  send_one-Same : (t u : Thread) → Same t u → Same (send_one one t) (send_one other u)
  send_one-Same t u same = send_one-sent one t ∙ ap (sent j) same ∙ sym (send_one-sent other u)

  receive_one-Same : (t u : Thread) → Same t u → Same (receive_one one t) (receive_one other u)
  receive_one-Same t u same =
      receive_one-asked one t ∙ ap (asked j) same ∙ sym (receive_one-asked other u)

  send_loop-Same :
      (fuel : ℕ) (t u : Thread) → Same t u → Same (send_loop one fuel t) (send_loop other fuel u)
  unfolding send_loop
  send_loop-Same zero t u same = same
  send_loop-Same (suc fuel) t u same =
      let test : may_send one t ≡ may_send other u = determined j (may_send j) t u same in
      elim (Bool-cases (may_send other u)) [
        | inl may ↦
            rw (test ∙ may, may)
              (send_loop-Same fuel (send_one one t) (send_one other u) (send_one-Same t u same))
        | inr over ↦ rw (test ∙ over, over) same
      ]

  receive_loop-Same :
      (fuel : ℕ) (t u : Thread)
      → Same t u
      → Same (receive_loop one fuel t) (receive_loop other fuel u)
  unfolding receive_loop
  receive_loop-Same zero t u same = same
  receive_loop-Same (suc fuel) t u same =
      let test : may_receive one t ≡ may_receive other u = determined j (may_receive j) t u same in
      elim (Bool-cases (may_receive other u)) [
        | inl may ↦
            rw (test ∙ may, may)
              (receive_loop-Same fuel (receive_one one t) (receive_one other u)
                (receive_one-Same t u same))
        | inr over ↦ rw (test ∙ over, over) same
      ]

  submit-Same : (t u : Thread) → Same t u → Same (submit one t) (submit other u)
  unfolding submit submit_sends
  submit-Same t u same =
      let fuel : send_fuel j t ≡ send_fuel j u = determined j (send_fuel j) t u same in
      let sent = submit_sends one t in
      let sent' = submit_sends other u in
      let same' : Same sent sent' =
        ap (λ n. state_of (send_loop one n t)) fuel ∙ send_loop-Same (send_fuel j u) t u same in
      let fuel' : receive_fuel j sent ≡ receive_fuel j sent' =
        determined j (receive_fuel j) sent sent' same' in
      ap (λ n. state_of (receive_loop one n sent)) fuel'
      ∙ receive_loop-Same (receive_fuel j sent') sent sent' same'

  -- Giving a buffer back leaves the state as it is.
  give_back-Same :
      (j : Job) (q : RequestData) (size : ℕ) (t : Thread) → Alike (give_back j q size t) (runs t)
  give_back-Same j q size t = elim (Bool-cases j.verify) [
    | inl verifies ↦ rw (verifies, give_back, Alike) refl
    | inr gives ↦ elim (Option-cases (deallocate j.allocate_malloc q.address size t.world)) [
      | inl bad ↦ rw (gives, bad, give_back, Alike) tt
      | inr (w, given) ↦ rw (gives, given, give_back, Alike) refl
    ]
  ]

  Alike-join :
      (s s' : Status) (t u : Thread) → Alike s (runs t) → Alike s' (runs u) → Same t u → Alike s s'
  Alike-join fault s' t u h h' same = tt
  Alike-join failed s' t u h h' same = absurd h
  Alike-join (runs x) fault t u h h' same = tt
  Alike-join (runs x) failed t u h h' same = absurd h'
  Alike-join (runs x) (runs y) t u h h' same = h ∙ same ∙ sym h'

  complete_one-Alike :
      (kind : EventType) (n : ℕ) (q q' : RequestData) (t u : Thread)
      → Same t u
      → Alike (complete_one one kind n q t) (complete_one other kind n q' u)
  unfolding complete_one
  complete_one-Alike send_event n q q' t u same =
      Alike-join _ _ t u (give_back-Same one q word_buffer_size t)
        (give_back-Same other q' word_buffer_size u) same
  complete_one-Alike recv_event n q q' t u same =
      Alike-join _ _ _ _ (give_back-Same one q (page_buffer_size j.page_size) _)
        (give_back-Same other q' (page_buffer_size j.page_size) _) (ap (answered n) same)
  complete_one-Alike read_event n q q' t u same = same
  complete_one-Alike write_event n q q' t u same = same

  on_result-Alike :
      (res : Res) (q q' : RequestData) (t u : Thread)
      → request_of q ≡ request_of q'
      → Same t u
      → Alike (on_result one res q t) (on_result other res q' u)
  on_result-Alike (error e) q q' t u same_q same = tt
  on_result-Alike (bytes n) q q' t u same_q same =
      let kind : q.event_type ≡ q'.event_type = ap (λ (r : Request). r.event_type) same_q in
      subst (λ k. Alike (complete_one one k n q t) (complete_one other q'.event_type n q' u))
        (sym kind) (complete_one-Alike q'.event_type n q q' t u same)

  -- What is behind a completion depends on what is taken out and on the state.
  on_event-Alike :
      (e : Event) (t u : Thread) → Same t u → Alike (on_event one e t) (on_event other e u)
  unfolding on_event
  on_event-Alike e t u same =
      let flights : map request_of t.in_flight ≡ map request_of u.in_flight =
        ap (λ (s : State). s.in_flight) same in
      let taken : mapped (take_out e.index t.in_flight) ≡ mapped (take_out e.index u.in_flight) =
        sym (take_out-map e.index t.in_flight)
        ∙ ap (take_out e.index) flights
        ∙ take_out-map e.index u.in_flight in
      elim (Option-cases (take_out e.index t.in_flight)) [
        | inl nothing ↦ elim (Option-cases (take_out e.index u.in_flight)) [
          | inl nothing' ↦ rw (nothing, nothing', on_event) same
          | inr ((q', qs'), found') ↦ let e = rw (nothing, found') at taken in cc
        ]
        | inr ((q, qs), found) ↦ elim (Option-cases (take_out e.index u.in_flight)) [
          | inl nothing' ↦ let e = rw (found, nothing') at taken in cc
          | inr ((q', qs'), found') ↦
              let pairs : mapped (some (q, qs)) ≡ mapped (some (q', qs')) =
                rw (found, found') at taken in
              let same_q : request_of q ≡ request_of q' = cc in
              let rest : map request_of qs ≡ map request_of qs' = cc in
              rw (found, found', on_event)
                (on_result-Alike e.res q q' (record t { in_flight = qs })
                  (record u { in_flight = qs' }) same_q (same_but t u qs qs' same rest))
        ]
      ]
    where
      same_but :
          (t u : Thread) (qs qs' : List RequestData)
          → Same t u
          → map request_of qs ≡ map request_of qs'
          → Same (record t { in_flight = qs }) (record u { in_flight = qs' })
      same_but t u qs qs' same rest =
          ap (λ (s : State). record s { in_flight = map request_of qs }) same
          ∙ ap (λ rs. record (state_of u) { in_flight = rs }) rest

  complete-Alike :
      (es : List Event) (t u : Thread) → Same t u → Alike (complete one es t) (complete other es u)
  unfolding complete
  complete-Alike [] t u same = same
  complete-Alike (e ∷ es) t u same =
      and_then-Alike (on_event one e t) (on_event other e u) (complete one es) (complete other es)
        (on_event-Alike e t u same) (complete-Alike es)

  pub round-Alike :
      (es : List Event) (t u : Thread) → Same t u → Alike (round one es t) (round other es u)
  unfolding round
  round-Alike es t u same = complete-Alike es (submit one t) (submit other u) (submit-Same t u same)
