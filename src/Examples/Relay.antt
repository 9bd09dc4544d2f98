-- ===== src/Examples/Relay.antt =====
-- Two instances that exchange envelopes.
use relaydock.Prelude.{
  ℕ, true, false, Option, none, some, [], ◌∷◌, ◌++◌, ◌≡◌, refl, arith, map, get, pos, ◌==◌, Bool,
}
use relaydock.Protocol.{ServerToAgentMessage, ServerToClientMessage, RepositoryValidationResult}
use relaydock.Viewers.{Clients}
use relaydock.Validation.{no_requests}
use relaydock.Hub.{
  AgentOwner, AgentConnection, Presence, agent_send, relay_ack, envelope, publishes,
}
use relaydock.Hub.Fleet.Runs.{new_owner, new_connection}
use relaydock.Hub.Relay.{
  Instance, to_agent, acknowledges, Surroundings, handle_relay_message, broadcast_job,
  broadcast_device, publish_validation_result, publish_validation_cancel, send_to_remote_agent,
  send_to_owned_local_agent, ack_times_out,
}
use relaydock.Hub.Relay.FanOut.{IsMirrored, relay_mirrors_call}
use relaydock.Hub.Relay.Acknowledgement.{remote_send_round_trip}
use relaydock.Hub.Routing.{send_to_agent, IsSent, send_to_agent-IsRoute}
use relaydock.Hub.Shutdown.{
  perform_shutdown, left_presence, answered, closed, shutdown_releases_own,
}

abbrev surroundings : (self now : ℕ) → Surroundings
surroundings self now = record {
  self = self;
  now = now;
  sockets = record { ready_state = λ s. 1; buffered_amount = λ s. 0 };
  touched = true;
  sliced = λ reason. reason;
}

abbrev connection : AgentConnection
connection = new_connection 90 2 5 2 30 40

abbrev clients : Clients
clients = (20, record { user_id = 2; subscriptions = [] }) ∷ []

abbrev requester : Instance
requester = record {
  agents = [];
  clients = clients;
  pending_acks = 70 ∷ [];
  broker = no_requests;
  shutting_down = false;
}

-- The owner of device 5.
abbrev owner : Instance
owner = record requester { agents = (5, connection) ∷ []; pending_acks = [] }

abbrev cancels : ServerToAgentMessage
cancels = ServerToAgentMessage.job_cancel 7

abbrev seen : ServerToClientMessage
seen = ServerToClientMessage.job_completed 7 (pos 0)

abbrev result : RepositoryValidationResult
result = record {
  repository_id = 8;
  valid = true;
  canonical_path = none;
  repository_root = none;
  is_git_repository = true;
  branch = none;
  error = none;
}

relay_mirrors_call_example :
    let s = surroundings 1 100 in
    let at = surroundings 2 101 in
    let (x₁, handled₁, out₁) = publish_validation_result s true requester 5 result in
    let (x₂, handled₂, out₂) = publish_validation_result at false owner 5 result in
    IsMirrored s at requester owner
      (broadcast_job s true requester 2 7 seen).1
      (broadcast_job at false owner 2 7 seen)
    × IsMirrored s at requester owner
        (broadcast_device s true requester 2 seen).1
        (broadcast_device at false owner 2 seen)
    × IsMirrored s at requester owner out₁ (x₂, out₂)
    × IsMirrored s at requester owner
        (publish_validation_cancel s true requester 5).1
        (publish_validation_cancel at false owner 5)
    × (handled₁ ≡ true)
relay_mirrors_call_example =
    relay_mirrors_call (surroundings 1 100) (surroundings 2 101) requester requester owner 2 7 5
      seen result refl refl (omega arith)

remote_send_round_trip_example :
    let s = surroundings 1 100 in
    let at = surroundings 2 101 in
    let request = envelope s.now s.self (some at.self) 5000 (agent_send 71 5 40 cancels) in
    let (agents, sent, out) = send_to_owned_local_agent at owner.agents 5 40 cancels in
    let report = envelope at.now at.self (some s.self) 5000 (relay_ack 71 sent) in
    let (x', published) = send_to_remote_agent s true 5000 requester 71 at.self 5 40 cancels in
    (published ≡ to_agent (publishes request) ∷ [])
    × (handle_relay_message at owner request
        ≡ (record owner { agents = agents }, map to_agent (out ++ publishes report ∷ [])))
    × (handle_relay_message (surroundings 1 102) x' report ≡ (requester, acknowledges 71 sent ∷ []))
    × (ack_times_out requester 71 ≡ (requester, []))
remote_send_round_trip_example =
    remote_send_round_trip (surroundings 1 100) (surroundings 2 101) (surroundings 1 102) requester
      owner 5000 71 5 40 cancels refl refl refl refl refl (omega arith) (omega arith)

-- The first connection refuses, and the key then names a second one, which accepts.
abbrev accepts_second : (round : ℕ) → AgentOwner → Bool
accepts_second round o = o.connection_id == 41

abbrev second : (round : ℕ) → Option AgentOwner
second round = some (new_owner 1 2 41)

send_to_agent-IsRoute_example :
    let (sent, tried) = send_to_agent accepts_second second (some (new_owner 2 2 40)) in
    IsSent accepts_second second (some (new_owner 2 2 40)) sent tried
send_to_agent-IsRoute_example =
    send_to_agent-IsRoute accepts_second second (some (new_owner 2 2 40))

-- While the releases are awaited, another viewer attaches.
abbrev joins : Instance → Instance
joins x = record x { clients = (21, record { user_id = 2; subscriptions = [] }) ∷ x.clients }

shutdown_releases_own_example :
    let p : Presence = (5, connection.owner) ∷ (6, new_owner 1 2 44) ∷ [] in
    let (p', y, out) = perform_shutdown true (λ d. true) joins p owner in
    (get p' 5 ≡ left_presence p 5 (get owner.agents 5))
    × (answered out ≡ [])
    × (closed out ≡ (30, 1001) ∷ (21, 1001) ∷ (20, 1001) ∷ [])
    × (y.agents ≡ [])
    × (y.clients ≡ [])
unfolding get
shutdown_releases_own_example =
    shutdown_releases_own true (λ d. true) joins
      ((5, connection.owner) ∷ (6, new_owner 1 2 44) ∷ []) owner 2 5 (refl, tt) ((refl, refl), tt)
