-- ===== src/Hub/Fleet/Takeover.antt =====
-- A device that comes back on another instance.
use relaydock.Prelude.{
  ℕ, false, ◌&&◌, none, some, [], ◌∷◌, ◌≡◌, refl, arith, get, put, delete, get-put, get-delete,
  ◌==◌, ==_refl,
}
use relaydock.Hub.{
  AgentOwner, AgentConnection, Presence, closes, publishes, envelope, agent_close, replaced,
  is_owner, release_presence, claim_presence, install_agent, finish_detach,
}
use relaydock.Hub.Fleet.{
  attaches, detaches, claiming, installing, releasing, detaching, answered, World, set_hub, start,
  execute, finish, run,
}
use relaydock.Hub.Fleet.Runs.{alone, alone-eq, start_on-eq, new_owner, new_connection}

foreign :
    (p : Presence) (d : ℕ) (new o : AgentOwner)
    → (new.instance_id == o.instance_id) ≡ false
    → is_owner (put p d new) d o ≡ false
unfolding is_owner
foreign p d new o apart =
    let held : get (put p d new) d ≡ some new = rw get-put (rw ==_refl refl) in
    rw (held, is_owner) (rw apart refl)

-- A release on an instance that the presence key does not name.
foreign_release :
    (p : Presence) (i j d user connection : ℕ) (c : AgentConnection)
    → c.device_id ≡ d
    → c.owner.instance_id ≡ i
    → (j == i) ≡ false
    → execute (put p d (new_owner j user connection)) (releasing c) answered
      ≡ (put p d (new_owner j user connection), some (detaching c (some false)))
unfolding execute release_presence
foreign_release p i j d user connection c device home apart =
    let no = foreign p c.device_id (new_owner j user connection) c.owner (rw home apart) in
    rw (← device) (rw no refl)

-- The key confirms the owner that it was set to, and no other.
sole :
    (p : Presence) (d i user connection : ℕ) (o : AgentOwner)
    → is_owner (put p d (new_owner i user connection)) d o
      ≡ (i == o.instance_id && connection == o.connection_id && user == o.user_id)
unfolding is_owner
sole p d i user connection o =
    let set : get (put p d (new_owner i user connection)) d ≡ some (new_owner i user connection) =
      rw get-put (rw ==_refl refl) in
    rw (set, is_owner) refl

-- A device whose presence key names a connection of one instance attaches to another one, which
-- still has an older socket of it. The older socket is then closed, and the other instance is asked
-- to close its connection. When that socket closes in its turn, the other instance forgets the
-- connection, and takes neither the key nor the new connection away: the key still confirms just
-- the new one.
pub takeover :
    (ready_state : ℕ → ℕ) (w : World) (f g i j d user socket connection now now' : ℕ)
    (c old : AgentConnection) (o : AgentOwner)
    → get w.flights f ≡ none
    → get w.flights g ≡ none
    → get (w.hubs i) d ≡ some c
    → c.device_id ≡ d
    → c.owner.instance_id ≡ i
    → get w.presence d ≡ some c.owner
    → get (w.hubs j) d ≡ some old
    → (old.socket == socket) ≡ false
    → (i == j) ≡ false
    → (c.owner.connection_id == connection) ≡ false
    → let (w₁, out₁) =
        run ready_state w (alone f j (attaches d user socket connection) answered now) in
      let (w₂, out₂) = run ready_state w₁ (alone g i (detaches d c.socket) answered now') in
      (out₁
        ≡ closes old.socket 4001 replaced
          ∷ publishes
              (envelope now j (some i) 10000 (agent_close d c.owner.connection_id 4001 replaced))
          ∷ [])
      × (out₂ ≡ [])
      × (get w₂.presence d ≡ some (new_owner j user connection))
      × (get (w₂.hubs i) d ≡ none)
      × (get (w₂.hubs j) d ≡ some (new_connection now j d user socket connection))
      × (is_owner w₂.presence d o
          ≡ (j == o.instance_id && connection == o.connection_id && user == o.user_id))
unfolding start execute claim_presence finish install_agent finish_detach
takeover ready_state w f g i j d user socket connection now now' c old o free free' held device home
      present stale other apart fresh =
    let owner = new_owner j user connection in
    let new = new_connection now j d user socket connection in
    let apart' : (j == i) ≡ false = ground (arith, apart) in
    let first =
      alone-eq ready_state w f j now (attaches d user socket connection)
        (claiming d socket owner (some old)) (installing d socket owner (some old) (some c.owner))
        answered (put w.presence d owner) (put (w.hubs j) d new)
        (closes old.socket 4001 replaced
          ∷ publishes
              (envelope now j (some i) 10000 (agent_close d c.owner.connection_id 4001 replaced))
          ∷ [])
        free (rw stale refl) (rw present refl) (rw (other, fresh, home, apart) refl) in
    let w₁ : World = record {
      hubs = set_hub w j (put (w.hubs j) d new);
      presence = put w.presence d owner;
      flights =
          delete
            (put (put w.flights f (j, claiming d socket owner (some old))) f
              (j, installing d socket owner (some old) (some c.owner)))
            f;
    } in
    let still : get (w₁.hubs i) d ≡ some c = rw apart held in
    let second =
      alone-eq ready_state w₁ g i now' (detaches d c.socket) (releasing c)
        (detaching c (some false)) answered w₁.presence (delete (w₁.hubs i) c.device_id) []
        (rw (get-delete, get-put, get-put) (ground arith)) ((start_on-eq (w₁.hubs i) i d c still).1)
        (foreign_release w.presence i j d user connection c device home apart') refl in
    rw first (
      rw second (
        refl,
        refl,
        rw get-put (rw ==_refl refl),
        rw ==_refl (rw (get-delete, device) (rw ==_refl refl)),
        rw apart' (rw ==_refl (rw get-put (rw ==_refl refl))),
        sole w.presence d j user connection o,
      ))
