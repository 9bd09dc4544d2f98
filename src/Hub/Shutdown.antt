-- ===== src/Hub/Shutdown.antt =====
-- `performShutdown` of one instance: what is answered, released, closed and cleared.
use relaydock.Prelude.{
  ℕ, Bool, true, false, ◌&&◌, Option, none, some, List, [], ◌∷◌, ◌++◌, ◌≡◌, refl, ap, subst, ◌∙◌,
  inl, inr, arith, get, get-delete, map, ◌==◌, if◌then◌else◌, if_elim, Bool-cases, Entries,
  Distinct, ==_iff, ==_refl,
}
use relaydock.Viewers.{ClientConnection, Clients}
use relaydock.Viewers
use relaydock.Hub.{
  AgentOwner, AgentConnection, Agents, Presence, sends, closes, publishes, is_owner,
  release_presence,
}
use relaydock.Hub.Relay.{Instance, Output, to_viewer, to_agent, to_requester, acknowledges}
use relaydock.Hub.Fleet.Ownership.{IsPlaced}

-- The releases, one for each agent; an agent whose key another connection holds is left alone, and
-- so is one whose command does not reach Redis (`Promise.allSettled`).
unfoldable pub release_all : (reached : ℕ → Bool) → Presence → Agents → Presence
release_all reached p [] = p
release_all reached p ((d, c) ∷ agents) =
    release_all reached
      (if reached c.device_id then (release_presence p c.device_id c.owner).0 else p) agents

abbrev pub close_agents : Agents → List Output
close_agents [] = []
close_agents ((d, c) ∷ agents) =
    to_agent (closes c.socket 1001 "server shutdown") ∷ close_agents agents

abbrev pub close_clients : Clients → List Output
close_clients [] = []
close_clients ((socket, c) ∷ clients) =
    to_viewer (Viewers.closes socket 1001 "server shutdown") ∷ close_clients clients

-- The part before the releases are awaited.
abbrev pub begin_shutdown : Instance → Instance
begin_shutdown x = record x { pending_acks = []; shutting_down = true }

-- `connected` says whether the instance has its connection to Redis, and `meanwhile` is what else
-- the instance does until the releases have settled.
unfoldable pub perform_shutdown :
    (connected : Bool)
    → (reached : ℕ → Bool) → (meanwhile : Instance → Instance) → Presence
    → Instance
    → Presence × Instance × List Output
unfolding release_all
perform_shutdown connected reached meanwhile p x =
    let x' = if connected then meanwhile (begin_shutdown x) else begin_shutdown x in
    (
      if connected then release_all reached p x.agents else p,
      record x' { agents = []; clients = [] },
      map (λ k. acknowledges k false) x.pending_acks
          ++ (close_agents x'.agents ++ close_clients x'.clients),
    )

is_owner_same :
    (p q : Presence) (d : ℕ) (o : AgentOwner) → get p d ≡ get q d → is_owner p d o ≡ is_owner q d o
unfolding is_owner
is_owner_same p q d o e = rw (e, is_owner) refl

release-get :
    (p : Presence) (k d : ℕ) (o : AgentOwner)
    → get (release_presence p k o).0 d
      ≡ (if k == d then (if is_owner p d o then none else get p d) else get p d)
unfolding release_presence
release-get p k d o = elim (Bool-cases (k == d)) [
  | inl same ↦
      let e : k ≡ d = (==_iff k d).0 same in rw e (ground (arith, get-delete p d d, ==_refl d))
  | inr other ↦ ground (arith, get-delete p k d)
]

-- What becomes of the presence key of a device, by the connection that the instance has of it.
abbrev pub left_presence : Presence → (device : ℕ) → Option AgentConnection → Option AgentOwner
left_presence p d none = get p d
left_presence p d (some c) = if is_owner p d c.owner then none else get p d

left_same :
    (p q : Presence) (d : ℕ) (o : Option AgentConnection)
    → get p d ≡ get q d
    → left_presence p d o ≡ left_presence q d o
left_same p q d none e = e
left_same p q d (some c) e = rw (e, is_owner_same p q d c.owner e) refl

release_reached-get :
    (reached : ℕ → Bool) (p : Presence) (k d : ℕ) (o : AgentOwner)
    → get (if reached k then (release_presence p k o).0 else p) d
      ≡ (if (k == d) && reached d then (if is_owner p d o then none else get p d) else get p d)
release_reached-get reached p k d o = elim (Bool-cases (reached k)) [
  | inl goes ↦ elim (Bool-cases (k == d)) [
    | inl same ↦
        let e : reached d ≡ true = subst (λ j. reached j ≡ true) ((==_iff k d).0 same) goes in
        rw (goes, same, e) (release-get p k d o ∙ rw same refl)
    | inr other ↦ rw (goes, other) (release-get p k d o ∙ rw other refl)
  ]
  | inr lost ↦ elim (Bool-cases (k == d)) [
    | inl same ↦
        let e : reached d ≡ false = subst (λ j. reached j ≡ false) ((==_iff k d).0 same) lost in
        rw (lost, same, e) refl
    | inr other ↦ rw (lost, other) refl
  ]
]

release_all-get :
    (reached : ℕ → Bool) (p : Presence) (i d : ℕ) (agents : Agents)
    → Distinct agents
    → Entries (IsPlaced i) agents
    → get (release_all reached p agents) d
      ≡ (if reached d then left_presence p d (get agents d) else get p d)
unfolding release_all get
release_all-get reached p i d [] distinct placed = ground arith
release_all-get reached p i d ((k, c) ∷ agents) distinct placed =
    let p' = if reached c.device_id then (release_presence p c.device_id c.owner).0 else p in
    let rest = release_all-get reached p' i d agents distinct.1 placed.1 in
    let now = release_reached-get reached p c.device_id d c.owner in
    elim (Bool-cases (k == d)) [
      | inl same ↦
          let e : k ≡ d = (==_iff k d).0 same in
          let first : get p' d ≡ (if reached d then left_presence p d (some c) else get p d) =
            now ∙ rw (placed.0.0, same) refl in
          let absent : get agents d ≡ none = subst (λ j. get agents j ≡ none) e distinct.0 in
          let alone : (if reached d then left_presence p' d (get agents d) else get p' d)
              ≡ get p' d =
            rw absent (ground arith) in
          rw same (rest ∙ (alone ∙ first))
      | inr other ↦
          let kept : get p' d ≡ get p d = now ∙ rw (placed.0.0, other) refl in
          let left = left_same p' p d (get agents d) kept in rw other (rest ∙ rw (left, kept) refl)
    ]

-- The calls that are answered, and the sockets that are closed with their codes.
abbrev pub answered : List Output → List (ℕ × Bool)
answered [] = []
answered (acknowledges k sent ∷ out) = (k, sent) ∷ answered out
answered (to_viewer v ∷ out) = answered out
answered (to_agent e ∷ out) = answered out
answered (to_requester a ∷ out) = answered out

abbrev pub closed : List Output → List (ℕ × ℕ)
closed [] = []
closed (to_agent (closes socket code reason) ∷ out) = (socket, code) ∷ closed out
closed (to_viewer (Viewers.closes socket code reason) ∷ out) = (socket, code) ∷ closed out
closed (to_agent (sends socket message) ∷ out) = closed out
closed (to_agent (publishes e) ∷ out) = closed out
closed (to_viewer (Viewers.sends socket message) ∷ out) = closed out
closed (acknowledges k sent ∷ out) = closed out
closed (to_requester a ∷ out) = closed out

-- The sockets of an instance, agents first.
abbrev pub sockets_of : Instance → List ℕ
sockets_of x =
    map (λ (e : ℕ × AgentConnection). e.1.socket) x.agents
    ++ map (λ (e : ℕ × ClientConnection). e.0) x.clients

closed-clients :
    (clients : Clients)
    → closed (close_clients clients)
      ≡ map (λ k. (k, 1001)) (map (λ (e : ℕ × ClientConnection). e.0) clients)
closed-clients [] = refl
closed-clients ((k, c) ∷ clients) = ap (λ ks. (k, 1001) ∷ ks) (closed-clients clients)

closed-agents :
    (agents : Agents) (clients : Clients)
    → closed (close_agents agents ++ close_clients clients)
      ≡ map
          (λ k. (k, 1001))
          (map (λ (e : ℕ × AgentConnection). e.1.socket) agents
            ++ map (λ (e : ℕ × ClientConnection). e.0) clients)
closed-agents [] clients = closed-clients clients
closed-agents ((d, c) ∷ agents) clients =
    ap (λ ks. (c.socket, 1001) ∷ ks) (closed-agents agents clients)

closed-acks :
    (ks : List ℕ) (out : List Output)
    → closed (map (λ k. acknowledges k false) ks ++ out) ≡ closed out
closed-acks [] out = refl
closed-acks (k ∷ ks) out = closed-acks ks out

answered-clients : (clients : Clients) → answered (close_clients clients) ≡ []
answered-clients [] = refl
answered-clients ((k, c) ∷ clients) = answered-clients clients

answered-agents :
    (agents : Agents) (clients : Clients)
    → answered (close_agents agents ++ close_clients clients) ≡ []
answered-agents [] clients = answered-clients clients
answered-agents ((d, c) ∷ agents) clients = answered-agents agents clients

answered-acks :
    (ks : List ℕ) (out : List Output)
    → answered out ≡ []
    → answered (map (λ k. acknowledges k false) ks ++ out) ≡ map (λ k. (k, false)) ks
answered-acks [] out e = e
answered-acks (k ∷ ks) out e = ap (λ ks. (k, false) ∷ ks) (answered-acks ks out e)

-- A shutdown gives up the presence of exactly those devices whose key still names this instance's
-- connection and whose release reaches Redis, so that a device which has moved to another instance
-- stays online. Every call that waits for an acknowledgement is told no, every socket that the
-- instance has once the releases have settled is closed with code 1001, and no agent and no client
-- is left.
pub shutdown_releases_own :
    (connected : Bool) (reached : ℕ → Bool) (meanwhile : Instance → Instance) (p : Presence)
    (x : Instance) (i d : ℕ)
    → Distinct x.agents
    → Entries (IsPlaced i) x.agents
    → let (p', y, out) = perform_shutdown connected reached meanwhile p x in
      let x' = if connected then meanwhile (begin_shutdown x) else begin_shutdown x in
      (get p' d ≡ (if connected && reached d then left_presence p d (get x.agents d) else get p d))
      × (answered out ≡ map (λ k. (k, false)) x.pending_acks)
      × (closed out ≡ map (λ k. (k, 1001)) (sockets_of x'))
      × (y.agents ≡ [])
      × (y.clients ≡ [])
unfolding perform_shutdown
shutdown_releases_own connected reached meanwhile p x i d distinct placed =
    let x' : Instance = if connected then meanwhile (begin_shutdown x) else begin_shutdown x in
    (
      if_elim
          (λ q.
            get q d
            ≡ (if connected && reached d then left_presence p d (get x.agents d) else get p d))
          connected _ _ (λ on. rw on (release_all-get reached p i d x.agents distinct placed))
          (λ off. rw off refl),
      answered-acks x.pending_acks (close_agents x'.agents ++ close_clients x'.clients)
          (answered-agents x'.agents x'.clients),
      closed-acks x.pending_acks (close_agents x'.agents ++ close_clients x'.clients)
          ∙ closed-agents x'.agents x'.clients,
      refl,
      refl,
    )
