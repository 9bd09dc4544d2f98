-- ===== src/Validation/Settlement.antt =====
-- Every request that is accepted is answered once, or its timer is still set.
use relaydock.Prelude.{ℕ, ◌+◌, ◌≤◌, ◌&&◌, List, [], ◌∷◌, ◌≡◌, arith, get, ltb, leb, if◌then◌else◌}
use relaydock.Validation.{
  Broker, no_requests, cancel_local_for_device, shutdown, Event, accepts, send_fails, times_out,
  settles, cancels, shuts_down, handle, handle_all,
}
use relaydock.Validation.Tickets.{
  answered, answered-append, waiting, IsSound, Keeps, Keeps-IsSound, accept-Keeps, time_out-Keeps,
  send_failed-Keeps, settle_local-Keeps, cancel_entries-Cancels, reject_entries-counted,
}

handle-Keeps : (b : Broker) (e : Event) → IsSound b → Keeps b (handle b e).0 (handle b e).1
unfolding handle cancel_local_for_device shutdown
handle-Keeps b (accepts device repository) s = accept-Keeps b device repository s
handle-Keeps b (send_fails repository) s = send_failed-Keeps b repository s
handle-Keeps b (times_out ticket) s = time_out-Keeps b ticket s
handle-Keeps b (settles device result) s = settle_local-Keeps b device result s
handle-Keeps b (cancels device) s =
    let c = cancel_entries-Cancels device b.pending b.armed s.distinct s.timed in
    record {
      settled = λ t. ground (arith, c.counted t);
      grown = omega arith;
      distinct' = c.distinct';
      timed' = c.timed';
    }
handle-Keeps b shuts_down s = record {
  settled = λ t. ground (arith, reject_entries-counted b.pending b.armed t s.distinct s.timed);
  grown = omega arith;
  distinct' = tt;
  timed' = tt;
}

handle_all-settled :
    (b : Broker) (es : List Event) (t : ℕ)
    → IsSound b
    → (answered t (handle_all b es).1 + waiting (handle_all b es).0.armed t
        ≡ waiting b.armed t
          + (if leb b.next_ticket t && ltb t (handle_all b es).0.next_ticket then 1 else 0))
      × (b.next_ticket ≤ (handle_all b es).0.next_ticket)
      × IsSound (handle_all b es).0
unfolding handle_all
handle_all-settled b [] t s = (ground arith, omega arith, s)
handle_all-settled b (e ∷ es) t s =
    let k = handle-Keeps b e s in
    let (rest, grown, sound) = handle_all-settled (handle b e).0 es t (Keeps-IsSound s k) in
    (
      ground (
        arith,
        rest,
        grown,
        k.settled t,
        k.grown,
        answered-append t (handle b e).1 (handle_all (handle b e).0 es).1,
      ),
      omega (arith, grown, k.grown),
      sound,
    )

-- Whatever happens to a broker, in whatever order, requests that overlap included: a request that
-- was accepted is answered exactly once, by a result or an error, or else it is not answered and
-- its timer is still set; and no other request is answered.
pub settled_once :
    (es : List Event) (t : ℕ)
    → answered t (handle_all no_requests es).1 + waiting (handle_all no_requests es).0.armed t
      ≡ (if ltb t (handle_all no_requests es).0.next_ticket then 1 else 0)
unfolding no_requests get
settled_once es t =
    let start : IsSound no_requests = record {
      distinct = tt;
      timed = tt;
      issued = λ k e. absurd (omega (arith, e));
    } in
    let (count, _, _) = handle_all-settled no_requests es t start in ground (arith, count)
