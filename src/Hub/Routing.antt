-- ===== src/Hub/Routing.antt =====
-- `sendToAgent`, `isAgentOnline` and `closeDevice`: the owner of a device is read from its presence
-- key. What an attempt to send answers, and what the key reads after it, are arguments, by round.
use relaydock.Prelude.{
  ℕ, zero, suc, ◌-◌, ◌≤◌, String, Bool, true, false, not, ◌&&◌, Option, none, some, List, [], ◌∷◌,
  ◌≡◌, refl, sym, subst, ◌⊎◌, inl, inr, arith, get, ◌==◌, if◌then◌else◌, is_some, length,
  Bool-cases, Option-cases,
}
use relaydock.Hub.{
  AgentOwner, Agents, Presence, Effect, closes, publishes, envelope, agent_close,
  is_local_agent_online,
}

-- The test of the loop for an owner that has not changed.
abbrev pub is_same_connection : AgentOwner → AgentOwner → Bool
is_same_connection a b = a.instance_id == b.instance_id && a.connection_id == b.connection_id

module _ (attempt : (round : ℕ) → AgentOwner → Bool)
    (owner_after : (round : ℕ) → Option AgentOwner) where
  -- The loop: the answer, and the owners that were tried.
  unfoldable pub send_rounds : (left round : ℕ) → AgentOwner → Bool × List AgentOwner
  send_rounds zero round owner = (false, [])
  send_rounds (suc left) round owner = elim (attempt round owner) [
    | true ↦ (true, owner ∷ [])
    | false ↦ elim (owner_after round) [
      | none ↦ (false, owner ∷ [])
      | some next ↦ elim (is_same_connection next owner) [
        | true ↦ (false, owner ∷ [])
        | false ↦ let (sent, tried) = send_rounds left (suc round) next in (sent, owner ∷ tried)
      ]
    ]
  ]

  -- `sendToAgent` of a distributed hub, from the owner that it reads first; an error of Redis is the
  -- absence of an owner.
  unfoldable pub send_to_agent : Option AgentOwner → Bool × List AgentOwner
  send_to_agent none = (false, [])
  send_to_agent (some owner) = send_rounds 2 0 owner

  -- The key names another connection than the one that was tried.
  abbrev pub is_replaced : (round : ℕ) → AgentOwner → Bool
  is_replaced round o = elim (owner_after round) [
    | none ↦ false
    | some next ↦ not (is_same_connection next o)
  ]

  -- Of the owners tried, round by round: each but the last refused, and the next is another
  -- connection that the key then names. The last one's answer is the result, and it is the last
  -- because it accepted, because no round was left, or because the key named no other connection.
  abbrev pub IsRoute : (left round : ℕ) → List AgentOwner → (sent : Bool) → Type 0
  IsRoute left round [] sent = left ≡ 0
  IsRoute left round (o ∷ []) sent =
      (attempt round o ≡ sent) × ((sent ≡ true) ⊎ (left ≡ 1) ⊎ (is_replaced round o ≡ false))
  IsRoute left round (o ∷ next ∷ rest) sent =
      (attempt round o ≡ false)
      × (owner_after round ≡ some next)
      × (is_same_connection next o ≡ false)
      × IsRoute (left - 1) (suc round) (next ∷ rest) sent

  -- What comes of a message whose owner is read first: without one nobody is tried.
  abbrev pub IsSent : Option AgentOwner → (sent : Bool) → List AgentOwner → Type 0
  IsSent none sent tried = (sent ≡ false) × (tried ≡ [])
  IsSent (some owner) sent tried =
      ((rest : List AgentOwner) × (tried ≡ owner ∷ rest))
      × (length tried ≤ 2)
      × IsRoute 2 0 tried sent

  record Routes (left round : ℕ) (owner : AgentOwner) (sent : Bool) (tried : List AgentOwner)
      : Type 0 where
    bounded : length tried ≤ suc left
    route : IsRoute (suc left) round tried sent
    starts : (rest : List AgentOwner) × (tried ≡ owner ∷ rest)

  -- A refusal, and what the later rounds came to.
  Routes-next :
      (left round : ℕ) (owner next : AgentOwner) (sent : Bool) (tried : List AgentOwner)
      → attempt round owner ≡ false
      → owner_after round ≡ some next
      → is_same_connection next owner ≡ false
      → Routes left (suc round) next sent tried
      → Routes (suc left) round owner sent (owner ∷ tried)
  Routes-next left round owner next sent tried refused e other r =
      let (rest, shape) = r.starts in
      let one_less : suc left ≡ suc (suc left) - 1 = omega arith in
      let route : IsRoute (suc (suc left) - 1) (suc round) (next ∷ rest) sent =
        subst (λ k. IsRoute k (suc round) (next ∷ rest) sent) one_less
          (subst (λ os. IsRoute (suc left) (suc round) os sent) shape r.route) in
      record {
        bounded = omega (arith, r.bounded);
        route =
            subst (λ os. IsRoute (suc (suc left)) round (owner ∷ os) sent) (sym shape)
              (refused, e, other, route);
        starts = (tried, refl);
      }

  -- A round after which none is tried.
  Routes-last :
      (left round : ℕ) (owner : AgentOwner) (sent : Bool)
      → attempt round owner ≡ sent
      → (sent ≡ true) ⊎ (suc left ≡ 1) ⊎ (is_replaced round owner ≡ false)
      → Routes left round owner sent (owner ∷ [])
  Routes-last left round owner sent answer why = record {
    bounded = omega arith;
    route = (answer, why);
    starts = ([], refl);
  }

  -- One round, given what the later rounds come to.
  send_round-Routes :
      (left round : ℕ) (owner : AgentOwner)
      → ((next : AgentOwner)
          → attempt round owner ≡ false
          → owner_after round ≡ some next
          → is_same_connection next owner ≡ false
          → Routes left round owner
              (send_rounds left (suc round) next).0
              (owner ∷ (send_rounds left (suc round) next).1))
      → Routes left round owner
          (send_rounds (suc left) round owner).0
          (send_rounds (suc left) round owner).1
  unfolding send_rounds
  send_round-Routes left round owner again = elim (Bool-cases (attempt round owner)) [
    | inl sent ↦ rw (sent, send_rounds) (Routes-last left round owner true sent (inl refl))
    | inr refused ↦ elim (Option-cases (owner_after round)) [
      | inl gone ↦
          rw (refused, gone, send_rounds)
            (Routes-last left round owner false refused (inr (inr (rw (gone, is_replaced) refl))))
      | inr (next, e) ↦ elim (Bool-cases (is_same_connection next owner)) [
        | inl same ↦
            rw (refused, e, same, send_rounds)
              (Routes-last left round owner false refused
                (inr (inr (rw (e, is_replaced) (rw same refl)))))
        | inr other ↦ rw (refused, e, other, send_rounds) (again next refused e other)
      ]
    ]
  ]

  send_rounds-Routes :
      (left round : ℕ) (owner : AgentOwner)
      → Routes left round owner
          (send_rounds (suc left) round owner).0
          (send_rounds (suc left) round owner).1
  send_rounds-Routes zero round owner = send_round-Routes zero round owner (λ next refused e other.
      unfold send_rounds in Routes-last zero round owner false refused (inr (inl refl)))
  send_rounds-Routes (suc left) round owner =
      send_round-Routes (suc left) round owner (λ next refused e other.
        Routes-next left round owner next _ _ refused e other
          (send_rounds-Routes left (suc round) next))

  -- A message is tried first on the connection that the presence key names, and on nobody without
  -- one. It is tried on at most two connections: on a second one exactly when the first refused it
  -- and the key meanwhile names another connection. The answer is that of the last try, and no if
  -- nobody was tried.
  pub send_to_agent-IsRoute :
      (owner : Option AgentOwner) → IsSent owner (send_to_agent owner).0 (send_to_agent owner).1
  unfolding send_to_agent
  send_to_agent-IsRoute none = (refl, refl)
  send_to_agent-IsRoute (some owner) =
      let r = send_rounds-Routes 1 0 owner in (r.starts, r.bounded, r.route)

-- `isAgentOnline`: by the socket where the hub stands alone, by the presence key where it does not.
unfoldable pub is_agent_online :
    (distributed : Bool)
    → (ready_state : ℕ → ℕ) → Agents
    → (reachable : Bool) → Presence
    → (device : ℕ) → Bool
is_agent_online distributed ready_state agents reachable presence device =
    if not distributed
    then is_local_agent_online ready_state agents device
    else reachable && is_some (get presence device)

-- `closeDevice`, with the reason already cut to its 123 characters.
unfoldable pub close_device :
    (distributed : Bool)
    → (now self : ℕ) → Agents
    → (owner : Option AgentOwner) → (device : ℕ) → (reason : String) → List Effect
close_device false now self agents owner device reason = elim (get agents device) [
  | none ↦ []
  | some c ↦ closes c.socket 4003 reason ∷ []
]
close_device true now self agents none device reason = []
close_device true now self agents (some owner) device reason =
    if owner.instance_id == self
    then elim (get agents device) [
      | none ↦ []
      | some c ↦
          if c.owner.connection_id == owner.connection_id
          then closes c.socket 4003 reason ∷ []
          else []
    ]
    else publishes (
        envelope now self (some owner.instance_id) 10000
          (agent_close device owner.connection_id 4003 reason))
      ∷ []
