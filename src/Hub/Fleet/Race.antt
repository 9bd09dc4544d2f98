-- ===== src/Hub/Fleet/Race.antt =====
-- An old connection's detachment that awaits Redis while a newer connection is attached.
use relaydock.Prelude.{
  ℕ, false, Option, none, some, List, [], ◌∷◌, ◌≡◌, ◌≢◌, refl, arith, get, put, delete, get-put,
  get-delete, Dict, ◌==◌, ==_refl,
}
use relaydock.Hub.{
  AgentOwner, AgentConnection, Presence, is_owner, claim_presence, release_presence, install_agent,
  connection_on, finish_detach,
}
use relaydock.Hub.Fleet.{
  attaches, detaches, heartbeats, Flight, claiming, installing, releasing, detaching, answered,
  Step, starts, executes, resumes, World, set_hub, start, execute, finish, start_step, execute_step,
  step, run,
}
use relaydock.Hub.Fleet.Runs.{
  new_owner, new_connection, start_step-eq, execute_step-eq, start_on-eq, resume_step-eq,
}

-- The new connection claims the key; the old socket closes; its release is refused; the new
-- connection is installed; the detachment resumes.
abbrev pub race : (f g i d user socket connection old now now' : ℕ) → List Step
race f g i d user socket connection old now now' =
    starts f i (attaches d user socket connection)
    ∷ executes f answered
    ∷ starts g i (detaches d old)
    ∷ executes g answered
    ∷ resumes f now
    ∷ resumes g now'
    ∷ []

is_owner_other :
    (p : Presence) (d i user connection : ℕ) (o : AgentOwner)
    → o.connection_id ≢ connection
    → get p d ≡ some (new_owner i user connection)
    → is_owner p d o ≡ false
unfolding is_owner
is_owner_other p d i user connection o fresh held = rw (held, is_owner) (ground arith)

execute_claim :
    (p : Presence) (d socket : ℕ) (owner : AgentOwner) (existing : Option AgentConnection)
    → execute p (claiming d socket owner existing) answered
      ≡ (put p d owner, some (installing d socket owner existing (get p d)))
unfolding execute claim_presence
execute_claim p d socket owner existing = refl

execute_refused :
    (p : Presence) (c : AgentConnection)
    → is_owner p c.device_id c.owner ≡ false
    → execute p (releasing c) answered ≡ (p, some (detaching c (some false)))
unfolding execute release_presence
execute_refused p c foreign = rw foreign refl

module _ (ready_state : ℕ → ℕ) (w : World) (f g i d user socket connection now now' : ℕ)
    (c : AgentConnection) where
  abbrev owner : AgentOwner
  owner = new_owner i user connection

  abbrev claimed : Dict (ℕ × Flight)
  claimed =
      put (put w.flights f (i, claiming d socket owner (get (w.hubs i) d))) f
        (i, installing d socket owner (get (w.hubs i) d) (get w.presence d))

  abbrev refused : Dict (ℕ × Flight)
  refused = put (put claimed g (i, releasing c)) g (i, detaching c (some false))

  abbrev installed : World
  installed = record {
    hubs = set_hub w i (put (w.hubs i) d (new_connection now i d user socket connection));
    presence = put w.presence d owner;
    flights = delete refused f;
  }

  abbrev race_end : World
  race_end = record installed {
    hubs = set_hub installed i (delete (installed.hubs i) c.device_id);
    flights = delete (delete refused f) g;
  }

  claimed-eq :
      get w.flights f ≡ none
      → execute_step (start_step w f i (attaches d user socket connection)) f answered
        ≡ record w { presence = put w.presence d owner; flights = claimed }
  unfolding start
  claimed-eq free = rw (start_step-eq w f i (attaches d user socket connection) _ free refl) (
      execute_step-eq _ f i (claiming d socket owner (get (w.hubs i) d)) _ answered _
        (rw (get-put, ==_refl f) refl) (execute_claim w.presence d socket owner (get (w.hubs i) d)))

  refused-eq :
      get w.flights g ≡ none
      → (f == g) ≡ false
      → get (w.hubs i) d ≡ some c
      → c.device_id ≡ d
      → c.owner.connection_id ≢ connection
      → execute_step
          (start_step
            (record w { presence = put w.presence d owner; flights = claimed })
            g
            i
            (detaches d c.socket))
          g
          answered
        ≡ record w { presence = put w.presence d owner; flights = refused }
  refused-eq free apart held device fresh =
      rw
        (start_step-eq (record w { presence = put w.presence d owner; flights = claimed }) g i
          (detaches d c.socket) (releasing c) (rw (get-put, get-put) (ground arith))
          (start_on-eq (w.hubs i) i d c held).1)
        (execute_step-eq _ g i (releasing c) _ answered _ (rw (get-put, ==_refl g) refl) (
          execute_refused (put w.presence d owner) c (
            rw device (
              is_owner_other (put w.presence d owner) d i user connection c.owner fresh
                (rw (get-put, ==_refl d) refl)))))

  race-eq :
      get w.flights f ≡ none
      → get w.flights g ≡ none
      → (f == g) ≡ false
      → get (w.hubs i) d ≡ some c
      → c.device_id ≡ d
      → c.owner.connection_id ≢ connection
      → (run ready_state w (race f g i d user socket connection c.socket now now')).0 ≡ race_end
  unfolding run step finish install_agent finish_detach
  race-eq free free' apart held device fresh =
      rw (claimed-eq free, refused-eq free' apart held device fresh)
        (rw
          (resume_step-eq ready_state
            (record w { presence = put w.presence d owner; flights = refused }) f i now
            (installing d socket owner (get (w.hubs i) d) (get w.presence d)) _ _
            (rw (get-put, get-put) (rw (get-put, ==_refl f) (ground arith))) refl)
          (rw
            (resume_step-eq ready_state installed g i now' (detaching c (some false)) _ _
              (rw (get-delete, apart, get-put) (rw ==_refl refl)) refl)
            refl))

  -- While the detachment of a device's old connection awaits Redis, a new connection of the device
  -- claims the presence key and is installed on the same instance. The release is refused, yet the
  -- detachment removes the device from the map: the presence key names the new connection, the
  -- instance does not know it, and its heartbeats are dropped without a reply or a close.
  pub detach_removes_successor :
      get w.flights f ≡ none
      → get w.flights g ≡ none
      → (f == g) ≡ false
      → get (w.hubs i) d ≡ some c
      → c.device_id ≡ d
      → c.owner.connection_id ≢ connection
      → let w' = (run ready_state w (race f g i d user socket connection c.socket now now')).0 in
        (get w'.presence d ≡ some (new_owner i user connection))
        × (get (w'.hubs i) d ≡ none)
        × (start (w'.hubs i) i (heartbeats d socket) ≡ none)
  unfolding start connection_on
  detach_removes_successor free free' apart held device fresh =
      let gone : get (race_end.hubs i) d ≡ none =
        rw (==_refl i) (rw (get-delete, device) (rw ==_refl refl)) in
      rw (race-eq free free' apart held device fresh)
        (rw (get-put, ==_refl d) refl, gone, rw (gone, connection_on, start) refl)
