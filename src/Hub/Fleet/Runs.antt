-- ===== src/Hub/Fleet/Runs.antt =====
-- Whole calls from start to end, and two that interleave.
use relaydock.Prelude.{
  ℕ, true, false, none, some, List, [], ◌∷◌, ◌≡◌, refl, ap, arith, get, put, delete, get-put,
  get-delete, Dict, ◌==◌, if◌then◌else◌, ==_refl, append-nil,
}
use relaydock.Protocol.{ServerToAgentMessage}
use relaydock.Viewers.{open_state}
use relaydock.Hub.{
  AgentOwner, AgentConnection, Agents, Presence, Effect, sends, closes, replaced, owner_eq,
  is_owner, claim_presence, install_agent, connection_on, expected_connection, finish_heartbeat,
  finish_send, send_agent,
}
use relaydock.Hub.Fleet.{
  Operation, attaches, detaches, heartbeats, sends_to, Flight, releasing, touching, beating,
  sending, Fate, answered, Step, starts, executes, resumes, World, set_hub, start, execute, finish,
  start_step, execute_step, resume_step, step, run,
}

-- A call that nothing interleaves with.
abbrev pub alone : (f i : ℕ) → Operation → Fate → (now : ℕ) → List Step
alone f i op fate now = starts f i op ∷ executes f fate ∷ resumes f now ∷ []

pub start_step-eq :
    (w : World) (f i : ℕ) (op : Operation) (flight : Flight)
    → get w.flights f ≡ none
    → start (w.hubs i) i op ≡ some flight
    → start_step w f i op ≡ record w { flights = put w.flights f (i, flight) }
unfolding start_step
start_step-eq w f i op flight free e = rw (free, e, start_step) refl

pub execute_step-eq :
    (w : World) (f i : ℕ) (flight next : Flight) (fate : Fate) (p : Presence)
    → get w.flights f ≡ some (i, flight)
    → execute w.presence flight fate ≡ (p, some next)
    → execute_step w f fate ≡ record w { presence = p; flights = put w.flights f (i, next) }
unfolding execute_step
execute_step-eq w f i flight next fate p found e = rw (found, execute_step) (rw e refl)

-- The owner and the connection that an attachment installs.
abbrev pub new_owner : (i user connection : ℕ) → AgentOwner
new_owner i user connection = record { instance_id = i; connection_id = connection; user_id = user }

abbrev pub new_connection : (now i d user socket connection : ℕ) → AgentConnection
new_connection now i d user socket connection = record {
  owner = new_owner i user connection;
  socket = socket;
  device_id = d;
  last_heartbeat_at = now;
}

owner_eq_refl : (o : AgentOwner) → owner_eq o o ≡ true
owner_eq_refl o = ground arith

is_owner_held : (p : Presence) (d : ℕ) (o : AgentOwner) → get p d ≡ some o → is_owner p d o ≡ true
unfolding is_owner
is_owner_held p d o held = rw (held, is_owner) (owner_eq_refl o)

start_send-eq :
    (agents : Agents) (i d : ℕ) (c : AgentConnection) (message : ServerToAgentMessage)
    → get agents d ≡ some c
    → start agents i (sends_to d c.owner.connection_id message) ≡ some (touching c (some message))
unfolding start expected_connection
start_send-eq agents i d c message held = rw (held, expected_connection, start) (rw ==_refl refl)

pub start_on-eq :
    (agents : Agents) (i d : ℕ) (c : AgentConnection)
    → get agents d ≡ some c
    → (start agents i (heartbeats d c.socket) ≡ some (touching c none))
      × (start agents i (detaches d c.socket) ≡ some (releasing c))
unfolding start connection_on
start_on-eq agents i d c held = (
  rw (held, connection_on, start) (rw ==_refl refl),
  rw (held, connection_on, start) (rw ==_refl refl),
)

module _ (ready_state : ℕ → ℕ) where
  pub resume_step-eq :
      (w : World) (f i now : ℕ) (flight : Flight) (agents : Agents) (out : List Effect)
      → get w.flights f ≡ some (i, flight)
      → finish ready_state (w.hubs i) now flight ≡ some (agents, out)
      → resume_step ready_state w f now
        ≡ (record w { hubs = set_hub w i agents; flights = delete w.flights f }, out)
  unfolding resume_step
  resume_step-eq w f i now flight agents out found e = rw (found, resume_step) (rw e refl)

  -- What a call alone comes to, from its three parts.
  pub alone-eq :
      (w : World) (f i now : ℕ) (op : Operation) (flight next : Flight) (fate : Fate) (p : Presence)
      (agents : Agents) (out : List Effect)
      → get w.flights f ≡ none
      → start (w.hubs i) i op ≡ some flight
      → execute w.presence flight fate ≡ (p, some next)
      → finish ready_state (w.hubs i) now next ≡ some (agents, out)
      → run ready_state w (alone f i op fate now) ≡ (
        record {
          hubs = set_hub w i agents;
          presence = p;
          flights = delete (put (put w.flights f (i, flight)) f (i, next)) f;
        },
        out,
      )
  unfolding run step
  alone-eq w f i now op flight next fate p agents out free s e h =
      rw (start_step-eq w f i op flight free s) (
        rw
          (execute_step-eq (record w { flights = put w.flights f (i, flight) }) f i flight next fate
            p (rw (get-put, ==_refl f) refl) e)
          (rw
            (resume_step-eq
              (record w { presence = p; flights = put (put w.flights f (i, flight)) f (i, next) }) f
              i now next agents out (rw (get-put, ==_refl f) refl) h)
            (rw append-nil refl)))

  -- `finish_send` on a connection whose touch was answered with yes.
  abbrev pub delivery : (socket : ℕ) → ServerToAgentMessage → List Effect
  delivery socket message =
      if ready_state socket == open_state then sends socket message ∷ [] else []

  attach-eq :
      (w : World) (f i d user socket connection now : ℕ)
      → get w.flights f ≡ none
      → (flights : Dict (ℕ × Flight)) × (out : List Effect) × (run ready_state w
            (alone f i (attaches d user socket connection) answered now)
          ≡ (
            record {
              hubs = set_hub w i (put (w.hubs i) d (new_connection now i d user socket connection));
              presence = put w.presence d (new_owner i user connection);
              flights = flights;
            },
            out,
          ))
        × ((g : ℕ) → get w.flights g ≡ none → get flights g ≡ none)
  unfolding start execute claim_presence finish install_agent
  attach-eq w f i d user socket connection now free = (
    _,
    _,
    alone-eq w f i now (attaches d user socket connection) _ _ answered _ _ _ free refl refl refl,
    λ g none_there. rw (get-delete, get-put, get-put) (ground arith),
  )

  send-eq :
      (w : World) (g i now : ℕ) (c : AgentConnection) (d : ℕ) (message : ServerToAgentMessage)
      → get w.flights g ≡ none
      → get (w.hubs i) d ≡ some c
      → c.device_id ≡ d
      → is_owner w.presence d c.owner ≡ true
      → (run ready_state w (alone g i (sends_to d c.owner.connection_id message) answered now)).1
        ≡ delivery c.socket message
  unfolding start expected_connection execute finish finish_send send_agent
  send-eq w g i now c d message free held device own =
      ap (λ (r : World × List Effect). r.1)
        (alone-eq w g i now (sends_to d c.owner.connection_id message) (touching c (some message))
          (sending c message true) answered w.presence (w.hubs i) (delivery c.socket message) free
          (start_send-eq (w.hubs i) i d c message held) (rw (device, own) refl) (ground arith))

  -- An attachment that nothing interleaves with makes the device reachable: a message that is then
  -- sent to the new connection goes out, once, on its socket, provided that the socket is open.
  pub attach_reaches :
      (w : World) (f g i d user socket connection now now' : ℕ) (message : ServerToAgentMessage)
      → get w.flights f ≡ none
      → get w.flights g ≡ none
      → (run ready_state
          (run ready_state w (alone f i (attaches d user socket connection) answered now)).0
          (alone g i (sends_to d connection message) answered now')).1
        ≡ delivery socket message
  attach_reaches w f g i d user socket connection now now' message free free' =
      let (flights, out, e, kept) = attach-eq w f i d user socket connection now free in
      let owner = new_owner i user connection in
      rw e (
        send-eq
          (record {
            hubs = set_hub w i (put (w.hubs i) d (new_connection now i d user socket connection));
            presence = put w.presence d owner;
            flights = flights;
          })
          g i now' (new_connection now i d user socket connection) d message (kept g free')
          (rw ==_refl (rw (get-put, ==_refl d) refl)) refl
          (is_owner_held (put w.presence d owner) d owner (rw (get-put, ==_refl d) refl)))

  -- A connection that the presence key no longer names, or that Redis does not confirm, is fenced
  -- off: a heartbeat on its socket and a message for it each take it out of the instance's map and
  -- close its socket with code 4001, and nothing is sent.
  pub superseded_fenced :
      (w : World) (g i now : ℕ) (c : AgentConnection) (d : ℕ) (message : ServerToAgentMessage)
      (fate : Fate)
      → get w.flights g ≡ none
      → get (w.hubs i) d ≡ some c
      → c.device_id ≡ d
      → (fate ≡ answered → is_owner w.presence d c.owner ≡ false)
      → let after_beat = run ready_state w (alone g i (heartbeats d c.socket) fate now) in
        let after_send =
          run ready_state w (alone g i (sends_to d c.owner.connection_id message) fate now) in
        (get (after_beat.0.hubs i) d ≡ none)
        × (after_beat.1 ≡ closes c.socket 4001 replaced ∷ [])
        × (get (after_send.0.hubs i) d ≡ none)
        × (after_send.1 ≡ closes c.socket 4001 replaced ∷ [])
  unfolding start expected_connection connection_on execute finish finish_send finish_heartbeat
  superseded_fenced w g i now c d message fate free held device foreign =
      let beat =
        alone-eq w g i now (heartbeats d c.socket) (touching c none) (beating c false) fate
          w.presence (delete (w.hubs i) c.device_id) (closes c.socket 4001 replaced ∷ []) free
          (start_on-eq (w.hubs i) i d c held).0 (ground arith) refl in
      let send =
        alone-eq w g i now (sends_to d c.owner.connection_id message) (touching c (some message))
          (sending c message false) fate w.presence (delete (w.hubs i) c.device_id)
          (closes c.socket 4001 replaced ∷ []) free (start_send-eq (w.hubs i) i d c message held)
          (ground arith) refl in
      let gone : get (delete (w.hubs i) c.device_id) d ≡ none =
        rw (get-delete, device) (rw ==_refl refl) in
      (
        rw beat (rw ==_refl gone),
        ap (λ (r : World × List Effect). r.1) beat,
        rw send (rw ==_refl gone),
        ap (λ (r : World × List Effect). r.1) send,
      )
