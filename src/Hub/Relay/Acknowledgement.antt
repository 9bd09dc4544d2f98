-- ===== src/Hub/Relay/Acknowledgement.antt =====
-- A message that one instance sends to an agent of another.
use relaydock.Prelude.{
  ℕ, ◌+◌, ◌<◌, Bool, true, false, not, some, List, [], ◌∷◌, ◌++◌, ◌≡◌, refl, ap, ◌∙◌, ◌⊎◌, inl, inr,
  arith, ◌==◌, ==_refl, Bool-cases, Option-cases, map, mem, keep_if,
}
use relaydock.Protocol.{ServerToAgentMessage}
use relaydock.Viewers.{open_state}
use relaydock.Hub.{
  AgentConnection, Agents, agent_send, relay_ack, Effect, sends, closes, publishes, envelope,
  expected_connection, finish_send, send_agent,
}
use relaydock.Hub.Relay.{
  Instance, to_agent, acknowledges, Surroundings, send_to_owned_local_agent, settle_ack, dispatch,
  handle_relay_message, send_to_remote_agent, ack_times_out,
}

-- The messages to agents among some effects, with their sockets.
abbrev pub deliveries : List Effect → List (ℕ × ServerToAgentMessage)
deliveries [] = []
deliveries (sends socket message ∷ out) = (socket, message) ∷ deliveries out
deliveries (closes socket code reason ∷ out) = deliveries out
deliveries (publishes e ∷ out) = deliveries out

-- What `sendToOwnedLocalAgent` reports is what it did: yes exactly if the message went out, once, on
-- the open socket of the connection that was expected, and Redis had confirmed that connection.
owned_send_report :
    (s : Surroundings) (agents : Agents) (device connection : ℕ) (message : ServerToAgentMessage)
    → let (agents', sent, out) = send_to_owned_local_agent s agents device connection message in
      ((sent ≡ false) × (deliveries out ≡ []))
      ⊎ ((c : AgentConnection) × (expected_connection agents device connection ≡ some c)
          × (s.touched ≡ true)
          × (s.sockets.ready_state c.socket ≡ open_state)
          × (sent ≡ true)
          × (deliveries out ≡ (c.socket, message) ∷ []))
unfolding send_to_owned_local_agent finish_send send_agent
owned_send_report s agents device connection message =
    elim (Option-cases (expected_connection agents device connection)) [
      | inl absent ↦ rw (absent, send_to_owned_local_agent) (inl (refl, refl))
      | inr (c, found) ↦ elim (Bool-cases s.touched) [
        | inr refused ↦ rw (found, send_to_owned_local_agent) (rw refused (inl (refl, refl)))
        | inl touched ↦ elim (Bool-cases (s.sockets.ready_state c.socket == open_state)) [
          | inr shut ↦ rw (found, send_to_owned_local_agent) (rw (touched, shut) (inl (refl, refl)))
          | inl ready ↦
              rw (found, send_to_owned_local_agent)
                (rw (touched, ready) (inr (c, refl, refl, ground arith, refl, refl)))
        ]
      ]
    ]

keep_if-absent : (k : ℕ) (ks : List ℕ) → mem k ks ≡ false → keep_if (λ j. not (j == k)) ks ≡ ks
keep_if-absent k [] e = refl
keep_if-absent k (j ∷ ks) e = ground (arith, keep_if-absent k ks)

settle_first :
    (x : Instance) (k : ℕ) (sent : Bool)
    → mem k x.pending_acks ≡ false
    → settle_ack (record x { pending_acks = k ∷ x.pending_acks }) k sent
      ≡ (x, acknowledges k sent ∷ [])
unfolding settle_ack
settle_first x k sent new = rw ==_refl (
    ap (λ ks. (record x { pending_acks = ks }, acknowledges k sent ∷ []))
      (keep_if-absent k x.pending_acks new))

handle_agent_send :
    (at : Surroundings) (y : Instance) (source k device connection expires : ℕ)
    (message : ServerToAgentMessage)
    → y.shutting_down ≡ false
    → at.now < expires
    → (source == at.self) ≡ false
    → (handle_relay_message at y (record {
      source = source;
      target = some at.self;
      expires_at = expires;
      cargo = agent_send k device connection message;
    }))
      ≡ dispatch at y source (agent_send k device connection message)
unfolding handle_relay_message
handle_agent_send at y source k device connection expires message up early other =
    ground (arith, ==_refl at.self)

handle_ack :
    (back : Surroundings) (x : Instance) (source k expires : ℕ) (sent : Bool)
    → x.shutting_down ≡ false
    → back.now < expires
    → handle_relay_message back x (record {
      source = source;
      target = some back.self;
      expires_at = expires;
      cargo = relay_ack k sent;
    })
      ≡ settle_ack x k sent
unfolding handle_relay_message dispatch
handle_ack back x source k expires sent up early = ground (arith, ==_refl back.self)

-- A message for an agent that another instance holds, with both envelopes handled in time: the
-- requester publishes one envelope for the owner; the owner does what `sendToOwnedLocalAgent` does
-- and publishes its report; the requester hands that report on to the call that waits, is as it was
-- before, and lets the timer that may still fire change nothing.
pub remote_send_round_trip :
    (s at back : Surroundings) (x y : Instance) (timeout k device connection : ℕ)
    (message : ServerToAgentMessage)
    → (s.self == at.self) ≡ false
    → back.self ≡ s.self
    → x.shutting_down ≡ false
    → y.shutting_down ≡ false
    → mem k x.pending_acks ≡ false
    → at.now < s.now + timeout
    → back.now < at.now + 5000
    → let request =
        envelope s.now s.self (some at.self) timeout (agent_send k device connection message) in
      let (agents, sent, out) = send_to_owned_local_agent at y.agents device connection message in
      let report = envelope at.now at.self (some s.self) 5000 (relay_ack k sent) in
      let (x', published) =
        send_to_remote_agent s true timeout x k at.self device connection message in
      (published ≡ to_agent (publishes request) ∷ [])
      × (handle_relay_message at y request
          ≡ (record y { agents = agents }, map to_agent (out ++ publishes report ∷ [])))
      × (handle_relay_message back x' report ≡ (x, acknowledges k sent ∷ []))
      × (ack_times_out x k ≡ (x, []))
unfolding send_to_remote_agent dispatch ack_times_out settle_ack
remote_send_round_trip s at back x y timeout k device connection message apart home up up' new early
      early' =
    let sent = (send_to_owned_local_agent at y.agents device connection message).1 in
    (
      refl,
      handle_agent_send at y s.self k device connection (s.now + timeout) message up' early apart,
      rw (← home) (
            handle_ack back (record x { pending_acks = k ∷ x.pending_acks }) at.self k
              (at.now + 5000) sent up early')
          ∙ settle_first x k sent new,
      rw new refl,
    )
