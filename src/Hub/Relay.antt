-- ===== src/Hub/Relay.antt =====
-- One instance of `ConnectionHub` with all of its parts, and what it does with the envelopes that
-- reach it through the shared channel: `handleRelayMessage`, `broadcastJob`, `broadcastDevice`,
-- `publishValidationResult`, `publishValidationCancel` and the waiting half of `sendToRemoteAgent`.
-- An envelope is given as `parseRelayEnvelope` returns it. The listeners are those of the one broker
-- that the server has.
pub mod FanOut
pub mod Acknowledgement
use relaydock.Prelude.{
  ℕ, ◌+◌, String, Bool, true, false, not, ◌&&◌, ◌||◌, Option, none, some, List, [], ◌∷◌, ◌++◌, map,
  Dict, get, put, delete, ◌==◌, leb, length, if◌then◌else◌, is_some, mem, keep_if,
}
use relaydock.Protocol.{ServerToAgentMessage, ServerToClientMessage, RepositoryValidationResult}
use relaydock.Viewers.{Sockets, Clients, broadcast_job_locally, broadcast_device_locally}
use relaydock.Viewers
use relaydock.Validation.{Broker, Answer, settle_local, cancel_local_for_device}
use relaydock.Hub.{
  AgentConnection, Agents, Cargo, agent_send, agent_close, relay_ack, client_job, client_device,
  validation_result, validation_cancel, Envelope, Effect, sends, closes, publishes, envelope,
  expected_connection, finish_send,
}

pub record Instance : Type 0 where
  pub agents : Agents
  pub clients : Clients
  -- The correlation identifiers in `pendingAcks`; each has a promise and a timer.
  pub pending_acks : List ℕ
  pub broker : Broker
  pub shutting_down : Bool

pub data Output : Type 0 where
  to_viewer : Viewers.Effect → Output
  to_agent : Effect → Output
  to_requester : Answer → Output
  acknowledges : (correlation : ℕ) (sent : Bool) → Output

-- What a call depends on besides the instance: its identifier, the clock, the sockets, whether a
-- touch of a presence key is answered with yes, and `reason.slice(0, 123)`.
pub record Surroundings : Type 0 where
  pub self : ℕ
  pub now : ℕ
  pub sockets : Sockets
  pub touched : Bool
  pub sliced : String → String

-- `sendToOwnedLocalAgent` in one go.
unfoldable pub send_to_owned_local_agent :
    Surroundings
    → Agents
    → (device connection : ℕ) → ServerToAgentMessage
    → Agents × Bool × List Effect
send_to_owned_local_agent s agents device connection message =
    elim (expected_connection agents device connection) [
      | none ↦ (agents, false, [])
      | some c ↦ finish_send s.sockets.ready_state agents c message s.touched
    ]

unfoldable pub settle_ack : Instance → (correlation : ℕ) → (sent : Bool) → Instance × List Output
settle_ack x correlation sent =
    if mem correlation x.pending_acks
    then (
      record x { pending_acks = keep_if (λ k. not (k == correlation)) x.pending_acks },
      acknowledges correlation sent ∷ [],
    )
    else (x, [])

-- The `switch` on the kind; `source` is the sender's.
unfoldable pub dispatch : Surroundings → Instance → (source : ℕ) → Cargo → Instance × List Output
unfolding settle_ack
dispatch s x source (agent_send correlation device connection message) =
    let (agents, sent, out) = send_to_owned_local_agent s x.agents device connection message in
    (
      record x { agents = agents },
      map to_agent (
          out
          ++ publishes (envelope s.now s.self (some source) 5000 (relay_ack correlation sent))
            ∷ []),
    )
dispatch s x source (agent_close device connection code reason) =
    elim (expected_connection x.agents device connection) [
      | none ↦ (x, [])
      | some c ↦ (x, to_agent (closes c.socket code (s.sliced reason)) ∷ [])
    ]
dispatch s x source (relay_ack correlation sent) = settle_ack x correlation sent
dispatch s x source (client_job user job message) =
    let (clients, out) = broadcast_job_locally s.sockets user job message x.clients in
    (record x { clients = clients }, map to_viewer out)
dispatch s x source (client_device user message) =
    (x, map to_viewer (broadcast_device_locally s.sockets user message x.clients))
dispatch s x source (validation_result device result) =
    let (broker, out) = settle_local x.broker device result in
    (record x { broker = broker }, map to_requester out)
dispatch s x source (validation_cancel device) =
    let (broker, out) = cancel_local_for_device x.broker device in
    (record x { broker = broker }, map to_requester out)

abbrev pub is_ack : Cargo → Bool
is_ack (relay_ack correlation sent) = true
is_ack _ = false

-- The envelope is for another instance.
abbrev pub is_elsewhere : (self : ℕ) → Option ℕ → Bool
is_elsewhere self none = false
is_elsewhere self (some target) = not (target == self)

-- `redisMessageHandler` on the relay's channel, and `handleRelayMessage`.
unfoldable pub handle_relay_message : Surroundings → Instance → Envelope → Instance × List Output
handle_relay_message s x e =
    if x.shutting_down
    then (x, [])
    else if leb e.expires_at s.now
    then (x, [])
    else if is_elsewhere s.self e.target
    then (x, [])
    else if e.source == s.self && not (is_ack e.cargo)
    then (x, [])
    else dispatch s x e.source e.cargo

-- The four calls that act on this instance first and are then relayed to all, where the hub is
-- distributed and Redis takes the message.
unfoldable pub broadcast_job :
    Surroundings
    → (published : Bool) → Instance
    → (user job : ℕ) → ServerToClientMessage
    → Instance × List Output
broadcast_job s published x user job message =
    let (clients, out) = broadcast_job_locally s.sockets user job message x.clients in
    (
      record x { clients = clients },
      map to_viewer out
          ++ (if published
              then to_agent
                  (publishes (envelope s.now s.self none 30000 (client_job user job message)))
                ∷ []
              else []),
    )

unfoldable pub broadcast_device :
    Surroundings
    → (published : Bool) → Instance
    → (user : ℕ) → ServerToClientMessage
    → Instance × List Output
broadcast_device s published x user message = (
  x,
  map to_viewer (broadcast_device_locally s.sockets user message x.clients)
      ++ (if published
          then to_agent (publishes (envelope s.now s.self none 30000 (client_device user message)))
            ∷ []
          else []),
)

-- Its result says whether the validation was handled here or went out.
unfoldable pub publish_validation_result :
    Surroundings
    → (published : Bool) → Instance
    → (device : ℕ) → RepositoryValidationResult
    → Instance × Bool × List Output
publish_validation_result s published x device result =
    let (broker, out) = settle_local x.broker device result in
    (
      record x { broker = broker },
      not (length out == 0) || published,
      map to_requester out
          ++ (if published
              then to_agent
                  (publishes (envelope s.now s.self none 30000 (validation_result device result)))
                ∷ []
              else []),
    )

unfoldable pub publish_validation_cancel :
    Surroundings → (published : Bool) → Instance → (device : ℕ) → Instance × List Output
publish_validation_cancel s published x device =
    let (broker, out) = cancel_local_for_device x.broker device in
    (
      record x { broker = broker },
      map to_requester out
          ++ (if published
              then to_agent
                  (publishes (envelope s.now s.self none 30000 (validation_cancel device)))
                ∷ []
              else []),
    )

-- `sendToRemoteAgent`: the identifier waits before the envelope is published; if Redis does not
-- take the envelope, it no longer waits and the answer is no.
unfoldable pub send_to_remote_agent :
    Surroundings
    → (published : Bool) → (request_timeout_ms : ℕ) → Instance
    → (correlation owner device connection : ℕ) → ServerToAgentMessage
    → Instance × List Output
unfolding settle_ack
send_to_remote_agent s published timeout x correlation owner device connection message =
    let waiting = record x { pending_acks = correlation ∷ x.pending_acks } in
    if published
    then (
      waiting,
      to_agent (
            publishes (
              envelope s.now s.self (some owner) timeout
                (agent_send correlation device connection message)))
          ∷ [],
    )
    else settle_ack waiting correlation false

-- The timer of a waiting identifier.
unfoldable pub ack_times_out : Instance → (correlation : ℕ) → Instance × List Output
unfolding settle_ack
ack_times_out x correlation = settle_ack x correlation false
