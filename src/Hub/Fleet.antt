-- ===== src/Hub/Fleet.antt =====
-- Several instances of `ConnectionHub` that share one Redis: their methods on agents, cut where
-- they await, in any interleaving. A flight is a call that waits, with its local variables.
pub mod Safety
pub mod Ownership
pub mod Runs
pub mod Takeover
pub mod Race
use relaydock.Prelude.{
  ℕ, Bool, true, false, ◌&&◌, Option, none, some, List, [], ◌∷◌, ◌++◌, Dict, get, put, delete, ◌==◌,
  if◌then◌else◌, is_some,
}
use relaydock.Protocol.{ServerToAgentMessage}
use relaydock.Hub.{
  AgentOwner, AgentConnection, Agents, Presence, Effect, claim_presence, is_owner, release_presence,
  install_agent, connection_on, expected_connection, finish_detach, finish_heartbeat, finish_send,
}

pub data Operation : Type 0 where
  attaches : (device user socket connection : ℕ) → Operation
  detaches : (device socket : ℕ) → Operation
  heartbeats : (device socket : ℕ) → Operation
  -- `sendToOwnedLocalAgent`
  sends_to : (device connection : ℕ) → ServerToAgentMessage → Operation

pub data Flight : Type 0 where
  claiming : (device socket : ℕ) → AgentOwner → (existing : Option AgentConnection) → Flight
  installing :
      (device socket : ℕ)
      → AgentOwner
      → (existing : Option AgentConnection) → (previous : Option AgentOwner) → Flight
  releasing : AgentConnection → Flight
  detaching : AgentConnection → (released : Option Bool) → Flight
  touching : AgentConnection → (message : Option ServerToAgentMessage) → Flight
  beating : AgentConnection → (touched : Bool) → Flight
  sending : AgentConnection → ServerToAgentMessage → (touched : Bool) → Flight

-- What becomes of a command: it is executed and answered, it never reaches Redis, or it is executed
-- and the reply is lost.
pub data Fate : Type 0 where
  answered unreachable reply_lost : Fate

pub data Step : Type 0 where
  starts : (flight instance_id : ℕ) → Operation → Step
  executes : (flight : ℕ) → Fate → Step
  resumes : (flight now : ℕ) → Step
  -- Redis drops a key whose time to live has passed.
  expires : (device : ℕ) → Step

pub record World : Type 0 where
  pub hubs : (instance_id : ℕ) → Agents
  pub presence : Presence
  -- Each with the instance that it runs on.
  pub flights : Dict (ℕ × Flight)

abbrev pub set_hub : World → (instance_id : ℕ) → Agents → (ℕ → Agents)
set_hub w i agents j = if j == i then agents else w.hubs j

-- The part of a call up to its first command; none if it ends there.
unfoldable pub start : Agents → (instance_id : ℕ) → Operation → Option Flight
start agents i (attaches device user socket connection) = some (
    claiming device socket (record { instance_id = i; connection_id = connection; user_id = user })
      (get agents device))
start agents i (detaches device socket) = elim (connection_on agents device socket) [
  | none ↦ none
  | some c ↦ some (releasing c)
]
start agents i (heartbeats device socket) = elim (connection_on agents device socket) [
  | none ↦ none
  | some c ↦ some (touching c none)
]
start agents i (sends_to device connection message) =
    elim (expected_connection agents device connection) [
      | none ↦ none
      | some c ↦ some (touching c (some message))
    ]

-- The command of a flight, and where the flight then stands; none if the call throws.
unfoldable pub execute : Presence → Flight → Fate → Presence × Option Flight
unfolding claim_presence release_presence
execute p (claiming device socket owner existing) unreachable = (p, none)
execute p (claiming device socket owner existing) answered =
    let (p', previous) = claim_presence p device owner in
    (p', some (installing device socket owner existing previous))
execute p (claiming device socket owner existing) reply_lost =
    ((claim_presence p device owner).0, none)
execute p (releasing c) unreachable = (p, some (detaching c none))
execute p (releasing c) answered =
    let (p', released) = release_presence p c.device_id c.owner in
    (p', some (detaching c (some released)))
execute p (releasing c) reply_lost =
    ((release_presence p c.device_id c.owner).0, some (detaching c none))
execute p (touching c none) answered = (p, some (beating c (is_owner p c.device_id c.owner)))
execute p (touching c none) _ = (p, some (beating c false))
execute p (touching c (some m)) answered = (p, some (sending c m (is_owner p c.device_id c.owner)))
execute p (touching c (some m)) _ = (p, some (sending c m false))
execute p flight _ = (p, some flight)

-- The part of a call after its command; none if the flight still waits for it.
unfoldable pub finish :
    (ready_state : ℕ → ℕ) → Agents → (now : ℕ) → Flight → Option (Agents × List Effect)
unfolding install_agent finish_detach finish_heartbeat finish_send
finish ready_state agents now (installing device socket owner existing previous) =
    some (install_agent agents now device socket owner existing previous)
finish ready_state agents now (detaching c released) =
    some ((finish_detach agents c.device_id released).0, [])
finish ready_state agents now (beating c touched) =
    let (agents', alive, out) = finish_heartbeat agents now c touched in some (agents', out)
finish ready_state agents now (sending c message touched) =
    let (agents', sent, out) = finish_send ready_state agents c message touched in
    some (agents', out)
finish ready_state agents now _ = none

-- A flight number that is in use is not given again.
unfoldable pub start_step : World → (flight instance_id : ℕ) → Operation → World
unfolding start
start_step w f i op = if is_some (get w.flights f) then w else elim (start (w.hubs i) i op) [
  | none ↦ w
  | some flight ↦ record w { flights = put w.flights f (i, flight) }
]

unfoldable pub execute_step : World → (flight : ℕ) → Fate → World
unfolding execute
execute_step w f fate = elim (get w.flights f) [
  | none ↦ w
  | some (i, flight) ↦
      let (presence', next) = execute w.presence flight fate in
      record w {
        presence = presence';
        flights = elim next [
          | none ↦ delete w.flights f
          | some flight' ↦ put w.flights f (i, flight')
        ];
      }
]

module _ (ready_state : ℕ → ℕ) where
  unfoldable pub resume_step : World → (flight now : ℕ) → World × List Effect
  unfolding finish
  resume_step w f now = elim (get w.flights f) [
    | none ↦ (w, [])
    | some (i, flight) ↦ elim (finish ready_state (w.hubs i) now flight) [
      | none ↦ (w, [])
      | some (agents, out) ↦
          (record w { hubs = set_hub w i agents; flights = delete w.flights f }, out)
    ]
  ]

  unfoldable pub step : World → Step → World × List Effect
  step w (starts f i op) = (start_step w f i op, [])
  step w (executes f fate) = (execute_step w f fate, [])
  step w (resumes f now) = resume_step w f now
  step w (expires device) = (record w { presence = delete w.presence device }, [])

  unfoldable pub run : World → List Step → World × List Effect
  run w [] = (w, [])
  run w (s ∷ ss) = let (w', out) = step w s in let (w'', out') = run w' ss in (w'', out ++ out')
