-- ===== src/Examples/Fleet.antt =====
-- A device that is attached to one instance of two.
use relaydock.Prelude.{ℕ, false, none, some, [], ◌∷◌, ◌≡◌, refl, arith, get, ◌==◌, if◌then◌else◌}
use relaydock.Protocol.{ServerToAgentMessage}
use relaydock.Hub.{AgentConnection, closes, publishes, envelope, agent_close, replaced, is_owner}
use relaydock.Hub.Fleet.{
  attaches, detaches, heartbeats, sends_to, answered, executes, World, releasing, start, step, run,
}
use relaydock.Hub.Fleet.Safety.{Cause, presence-Cause}
use relaydock.Hub.Fleet.Takeover.{takeover}
use relaydock.Hub.Fleet.Runs.{
  alone, new_owner, new_connection, delivery, attach_reaches, superseded_fenced,
}
use relaydock.Hub.Fleet.Race.{race, detach_removes_successor}

abbrev ready : ℕ → ℕ
ready socket = 1

-- Instance 1 holds device 5 through connection 40, and nothing is under way.
abbrev connection : AgentConnection
connection = new_connection 90 1 5 2 30 40

abbrev world : World
world = record {
  hubs = λ i. if i == 1 then (5, connection) ∷ [] else [];
  presence = (5, connection.owner) ∷ [];
  flights = [];
}

-- The presence key names a connection of instance 2.
abbrev moved : World
moved = record world { presence = (5, new_owner 2 2 41) ∷ [] }

abbrev cancels : ServerToAgentMessage
cancels = ServerToAgentMessage.job_cancel 7

-- The detachment of the device waits for its release.
abbrev leaving : World
leaving = record world { flights = (1, (1, releasing connection)) ∷ [] }

presence-Cause_example :
    Cause leaving
      (executes 1 answered)
      5
      (get (step ready leaving (executes 1 answered)).0.presence 5)
presence-Cause_example = presence-Cause ready leaving (executes 1 answered) 5

-- Instance 2 has an older connection of the device.
abbrev stale : World
stale = record world {
  hubs = λ i. if i == 1 then (5, connection) ∷ [] else (5, new_connection 50 2 5 2 29 39) ∷ [];
}

takeover_example :
    let (w₁, out₁) = run ready stale (alone 1 2 (attaches 5 2 31 41) answered 100) in
    let (w₂, out₂) = run ready w₁ (alone 2 1 (detaches 5 30) answered 101) in
    (out₁
      ≡ closes 29 4001 replaced
        ∷ publishes (envelope 100 2 (some 1) 10000 (agent_close 5 40 4001 replaced))
        ∷ [])
    × (out₂ ≡ [])
    × (get w₂.presence 5 ≡ some (new_owner 2 2 41))
    × (get (w₂.hubs 1) 5 ≡ none)
    × (get (w₂.hubs 2) 5 ≡ some (new_connection 100 2 5 2 31 41))
    × (is_owner w₂.presence 5 connection.owner ≡ false)
unfolding get
takeover_example =
    takeover ready stale 1 2 1 2 5 2 31 41 100 101 connection (new_connection 50 2 5 2 29 39)
      connection.owner refl refl refl refl refl refl refl refl refl refl

attach_reaches_example :
    (run ready
      (run ready world (alone 1 2 (attaches 5 2 31 41) answered 100)).0
      (alone 2 2 (sends_to 5 41 cancels) answered 101)).1
    ≡ delivery ready 31 cancels
unfolding get
attach_reaches_example = attach_reaches ready world 1 2 2 5 2 31 41 100 101 cancels refl refl

superseded_fenced_example :
    let after_beat = run ready moved (alone 1 1 (heartbeats 5 30) answered 95) in
    let after_send = run ready moved (alone 1 1 (sends_to 5 40 cancels) answered 95) in
    (get (after_beat.0.hubs 1) 5 ≡ none)
    × (after_beat.1 ≡ closes 30 4001 replaced ∷ [])
    × (get (after_send.0.hubs 1) 5 ≡ none)
    × (after_send.1 ≡ closes 30 4001 replaced ∷ [])
unfolding get is_owner
superseded_fenced_example =
    superseded_fenced ready moved 1 1 95 connection 5 cancels answered refl refl refl (λ e. refl)

detach_removes_successor_example :
    let w = (run ready world (race 1 2 1 5 2 31 41 30 100 101)).0 in
    (get w.presence 5 ≡ some (new_owner 1 2 41))
    × (get (w.hubs 1) 5 ≡ none)
    × (start (w.hubs 1) 1 (heartbeats 5 31) ≡ none)
unfolding get
detach_removes_successor_example =
    detach_removes_successor ready world 1 2 1 5 2 31 41 100 101 connection refl refl refl refl refl
      (ground arith)
