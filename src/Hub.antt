-- ===== src/Hub.antt =====
-- The agents' half of `ConnectionHub` (apps/server/src/services/connections.ts): the connections
-- of one server instance, the presence keys that all instances share through Redis, and the relay
-- between instances. An `await` splits a method: what runs before it, the command that Redis
-- executes, and what runs on the reply are functions of their own, and Hub/Fleet interleaves them.
-- The text of a presence value is JSON of its owner, which is read back as the owner.
pub mod Fleet
pub mod Relay
pub mod Routing
pub mod Shutdown
use relaydock.Prelude.{
  ℕ, ◌+◌, ◌-◌, String, Bool, true, false, not, ◌&&◌, Option, none, some, List, [], ◌∷◌, ◌++◌, Dict,
  get, put, delete, ◌==◌, ltb, if◌then◌else◌, keep_if, is_some,
}
use relaydock.Protocol.{ServerToAgentMessage, ServerToClientMessage, RepositoryValidationResult}
use relaydock.Viewers.{open_state}

pub record AgentOwner : Type 0 where
  pub instance_id : ℕ
  pub connection_id : ℕ
  pub user_id : ℕ

-- Equality of the texts of two owners.
abbrev pub owner_eq : AgentOwner → AgentOwner → Bool
owner_eq a b =
    a.instance_id == b.instance_id && a.connection_id == b.connection_id && a.user_id == b.user_id

-- `owner` stands for the three fields that are inherited, and for `presenceValue`.
pub record AgentConnection : Type 0 where
  pub owner : AgentOwner
  pub socket : ℕ
  pub device_id : ℕ
  pub last_heartbeat_at : ℕ

-- The field `agents`, by device.
abbrev pub Agents : Type 0
Agents = Dict AgentConnection

-- The presence keys of Redis, by device.
abbrev pub Presence : Type 0
Presence = Dict AgentOwner

-- The seven kinds of envelope.
pub data Cargo : Type 0 where
  agent_send : (correlation device connection : ℕ) → ServerToAgentMessage → Cargo
  agent_close : (device connection code : ℕ) (reason : String) → Cargo
  relay_ack : (correlation : ℕ) (sent : Bool) → Cargo
  client_job : (user job : ℕ) → ServerToClientMessage → Cargo
  client_device : (user : ℕ) → ServerToClientMessage → Cargo
  validation_result : (device : ℕ) → RepositoryValidationResult → Cargo
  validation_cancel : (device : ℕ) → Cargo

pub record Envelope : Type 0 where
  pub source : ℕ
  pub target : Option ℕ
  pub expires_at : ℕ
  pub cargo : Cargo

pub data Effect : Type 0 where
  sends : (socket : ℕ) → ServerToAgentMessage → Effect
  closes : (socket code : ℕ) (reason : String) → Effect
  publishes : Envelope → Effect

abbrev pub replaced : String
replaced = "replaced by a newer connection"

-- `envelopeBase`, with the cargo.
abbrev pub envelope : (now self : ℕ) → Option ℕ → (ttl : ℕ) → Cargo → Envelope
envelope now self target ttl cargo = record {
  source = self;
  target = target;
  expires_at = now + ttl;
  cargo = cargo;
}

-- The three scripts. The time to live that they set shows in that a key may expire.
unfoldable pub claim_presence : Presence → (device : ℕ) → AgentOwner → Presence × Option AgentOwner
claim_presence p device owner = (put p device owner, get p device)

unfoldable pub is_owner : Presence → (device : ℕ) → AgentOwner → Bool
is_owner p device owner = elim (get p device) [ none ↦ false | some o ↦ owner_eq o owner ]

unfoldable pub release_presence : Presence → (device : ℕ) → AgentOwner → Presence × Bool
release_presence p device owner =
    if is_owner p device owner then (delete p device, true) else (p, false)

-- `attachAgent` from the reply of the claim on: `previous` is what the script returned.
unfoldable pub install_agent :
    Agents
    → (now : ℕ) → (device socket : ℕ) → AgentOwner
    → (existing : Option AgentConnection) → (previous : Option AgentOwner) → Agents × List Effect
install_agent agents now device socket owner existing previous = (
  put agents device
      (record { owner = owner; socket = socket; device_id = device; last_heartbeat_at = now }),
  elim existing [
    | none ↦ []
    | some e ↦ if not (e.socket == socket) then closes e.socket 4001 replaced ∷ [] else []
  ]
      ++ elim previous [
        | none ↦ []
        | some p ↦
            if not (p.connection_id == owner.connection_id)
              && not (p.instance_id == owner.instance_id)
            then publishes (
                envelope now owner.instance_id (some p.instance_id) 10000
                  (agent_close device p.connection_id 4001 replaced))
              ∷ []
            else []
      ],
)

-- The connection of the device, if it is on this socket: the check of `detachAgent` and `heartbeat`.
unfoldable pub connection_on : Agents → (device socket : ℕ) → Option AgentConnection
connection_on agents device socket = elim (get agents device) [
  | none ↦ none
  | some c ↦ if c.socket == socket then some c else none
]

-- The connection of the device, if it is the expected one: the check of `sendToOwnedLocalAgent`.
unfoldable pub expected_connection : Agents → (device connection : ℕ) → Option AgentConnection
expected_connection agents device connection = elim (get agents device) [
  | none ↦ none
  | some c ↦ if c.owner.connection_id == connection then some c else none
]

-- The rest of `detachAgent`: `released` is the answer of the script, none if the command failed.
unfoldable pub finish_detach : Agents → (device : ℕ) → (released : Option Bool) → Agents × Bool
finish_detach agents device none = (agents, false)
finish_detach agents device (some false) = (delete agents device, false)
finish_detach agents device (some true) = (delete agents device, true)

-- The rest of `heartbeat`. The time is written into the connection that was looked up, whether or
-- not the map still holds it.
unfoldable pub finish_heartbeat :
    Agents → (now : ℕ) → AgentConnection → (touched : Bool) → Agents × Bool × List Effect
finish_heartbeat agents now c touched =
    if not touched
    then (delete agents c.device_id, false, closes c.socket 4001 replaced ∷ [])
    else (
      elim (get agents c.device_id) [
        | none ↦ agents
        | some held ↦
            if owner_eq held.owner c.owner && held.socket == c.socket
            then put agents c.device_id (record held { last_heartbeat_at = now })
            else agents
      ],
      true,
      [],
    )

-- `send` to an agent: whether the socket was open, and what went out.
unfoldable pub send_agent :
    (ready_state : ℕ → ℕ) → (socket : ℕ) → ServerToAgentMessage → Bool × List Effect
send_agent ready_state socket message =
    if ready_state socket == open_state then (true, sends socket message ∷ []) else (false, [])

-- The rest of `sendToOwnedLocalAgent`.
unfoldable pub finish_send :
    (ready_state : ℕ → ℕ)
    → Agents
    → AgentConnection
    → ServerToAgentMessage
    → (touched : Bool) → Agents × Bool × List Effect
unfolding send_agent
finish_send ready_state agents c message touched =
    if not touched
    then (delete agents c.device_id, false, closes c.socket 4001 replaced ∷ [])
    else let (sent, out) = send_agent ready_state c.socket message in (agents, sent, out)

-- `sendToLocalAgent` and `isLocalAgentOnline`, of an instance that stands alone.
unfoldable pub send_to_local_agent :
    (ready_state : ℕ → ℕ)
    → Agents
    → (device : ℕ) → (expected : Option ℕ) → ServerToAgentMessage
    → Bool × List Effect
unfolding send_agent
send_to_local_agent ready_state agents device expected message = elim (get agents device) [
  | none ↦ (false, [])
  | some c ↦
      if elim expected [ none ↦ false | some id ↦ not (c.owner.connection_id == id) ]
      then (false, [])
      else send_agent ready_state c.socket message
]

unfoldable pub is_local_agent_online : (ready_state : ℕ → ℕ) → Agents → (device : ℕ) → Bool
is_local_agent_online ready_state agents device = elim (get agents device) [
  | none ↦ false
  | some c ↦ ready_state c.socket == open_state
]

-- `staleAgents`: those that were idle for longer than the maximum. `now - c.last_heartbeat_at` is
-- negative in the source where it stops at 0 here, and is no more than the maximum in both.
unfoldable pub stale_agents : Agents → (maximum_idle now : ℕ) → List AgentConnection
stale_agents [] maximum_idle now = []
stale_agents ((d, c) ∷ agents) maximum_idle now =
    if ltb maximum_idle (now - c.last_heartbeat_at)
    then c ∷ stale_agents agents maximum_idle now
    else stale_agents agents maximum_idle now
