-- ===== src/Hub/Fleet/Ownership.antt =====
-- In any history, each connection stands under its own device on the instance that it names.
use relaydock.Prelude.{
  ℕ, Bool, true, false, none, some, List, [], ◌∷◌, ◌≡◌, refl, inl, inr, arith, get, Entries,
  Entries-put, Entries-delete, Entries-get, Option-cases, ◌==◌, ==_iff, if_elim, is_some, ◌&&◌,
}
use relaydock.Hub.{AgentConnection, Agents, Presence, Effect, owner_eq, finish_heartbeat}
use relaydock.Hub.Fleet.{
  Operation, attaches, detaches, heartbeats, sends_to, Flight, claiming, installing, releasing,
  detaching, touching, beating, sending, Fate, Step, starts, executes, resumes, expires, World,
  start, execute, finish, start_step, execute_step, resume_step, step, run,
}

-- A connection stands under its own device, on the instance that it names.
abbrev pub IsPlaced : (instance_id d : ℕ) → AgentConnection → Type 0
IsPlaced i d c = (c.device_id ≡ d) × (c.owner.instance_id ≡ i)

-- An attachment in flight claims for the instance that it runs on.
abbrev pub IsHome : (instance_id : ℕ) → Flight → Type 0
IsHome i (claiming device socket owner existing) = owner.instance_id ≡ i
IsHome i (installing device socket owner existing previous) = owner.instance_id ≡ i
IsHome i _ = Unit

record IsSettled (w : World) : Type 0 where
  pub placed : (i : ℕ) → Entries (IsPlaced i) (w.hubs i)
  pub home : Entries (λ (f : ℕ) (x : ℕ × Flight). IsHome x.0 x.1) w.flights

abbrev AreHome : World → Type 0
AreHome w = Entries (λ (f : ℕ) (x : ℕ × Flight). IsHome x.0 x.1) w.flights

start-IsHome :
    (agents : Agents) (i : ℕ) (op : Operation) (flight : Flight)
    → start agents i op ≡ some flight
    → IsHome i flight
unfolding start
start-IsHome agents i (attaches device user socket connection) flight e = ground arith
start-IsHome agents i (detaches device socket) flight e = ground arith
start-IsHome agents i (heartbeats device socket) flight e = ground arith
start-IsHome agents i (sends_to device connection message) flight e = ground arith

execute-IsHome :
    (p : Presence) (i : ℕ) (flight next : Flight) (fate : Fate)
    → IsHome i flight
    → (execute p flight fate).1 ≡ some next
    → IsHome i next
unfolding execute
execute-IsHome p i (claiming device socket owner existing) next fate h e = ground arith
execute-IsHome p i (installing device socket owner existing previous) next fate h e = ground arith
execute-IsHome p i (releasing c) next fate h e = ground arith
execute-IsHome p i (detaching c r) next fate h e = ground arith
execute-IsHome p i (touching c m) next fate h e = ground arith
execute-IsHome p i (beating c t) next fate h e = ground arith
execute-IsHome p i (sending c m t) next fate h e = ground arith

finish_heartbeat-IsPlaced :
    (agents : Agents) (i now : ℕ) (c : AgentConnection) (touched : Bool)
    → Entries (IsPlaced i) agents
    → Entries (IsPlaced i) (finish_heartbeat agents now c touched).0
unfolding finish_heartbeat
finish_heartbeat-IsPlaced agents i now c false h = Entries-delete (IsPlaced i) agents c.device_id h
finish_heartbeat-IsPlaced agents i now c true h = elim (Option-cases (get agents c.device_id)) [
  | inl absent ↦ rw (absent, finish_heartbeat) h
  | inr (held, found) ↦
      rw (found, finish_heartbeat)
        (if_elim (Entries (IsPlaced i)) (owner_eq held.owner c.owner && held.socket == c.socket) _ _
          (λ _.
            Entries-put (IsPlaced i) agents c.device_id _ h
              (Entries-get (IsPlaced i) agents c.device_id held h found))
          (λ _. h))
]

finish-IsPlaced :
    (ready_state : ℕ → ℕ) (agents agents' : Agents) (i now : ℕ) (flight : Flight)
    (out : List Effect)
    → Entries (IsPlaced i) agents
    → IsHome i flight
    → finish ready_state agents now flight ≡ some (agents', out)
    → Entries (IsPlaced i) agents'
unfolding finish
finish-IsPlaced ready_state agents agents' i now (installing device socket owner existing previous)
      out h home e =
    ground (
      arith,
      Entries-put (IsPlaced i) agents device
          (record { owner = owner; socket = socket; device_id = device; last_heartbeat_at = now }) h
          (refl, home),
    )
finish-IsPlaced ready_state agents agents' i now (detaching c none) out h home e = ground arith
finish-IsPlaced ready_state agents agents' i now (detaching c (some false)) out h home e =
    ground (arith, Entries-delete (IsPlaced i) agents c.device_id h)
finish-IsPlaced ready_state agents agents' i now (detaching c (some true)) out h home e =
    ground (arith, Entries-delete (IsPlaced i) agents c.device_id h)
finish-IsPlaced ready_state agents agents' i now (beating c touched) out h home e =
    ground (arith, finish_heartbeat-IsPlaced agents i now c touched h)
finish-IsPlaced ready_state agents agents' i now (sending c m false) out h home e =
    ground (arith, Entries-delete (IsPlaced i) agents c.device_id h)
finish-IsPlaced ready_state agents agents' i now (sending c m true) out h home e = ground arith
finish-IsPlaced ready_state agents agents' i now (claiming device socket owner existing) out h home
      e =
    absurd (cc)
finish-IsPlaced ready_state agents agents' i now (releasing c) out h home e = absurd (cc)
finish-IsPlaced ready_state agents agents' i now (touching c m) out h home e = absurd (cc)

start_step-IsSettled :
    (w : World) (f i : ℕ) (op : Operation) → IsSettled w → IsSettled (start_step w f i op)
unfolding start_step
start_step-IsSettled w f i op s =
    if_elim IsSettled (is_some (get w.flights f)) _ _ (λ _. s)
      λ _. elim (Option-cases (start (w.hubs i) i op)) [
        | inl over ↦ rw over s
        | inr (flight, e) ↦ rw e (record {
          placed = s.placed;
          home =
              Entries-put (λ f x. IsHome x.0 x.1) w.flights f (i, flight) s.home
                (start-IsHome (w.hubs i) i op flight e);
        })
      ]

execute_step-IsSettled :
    (w : World) (f : ℕ) (fate : Fate) → IsSettled w → IsSettled (execute_step w f fate)
unfolding execute_step
execute_step-IsSettled w f fate s = elim (Option-cases (get w.flights f)) [
  | inl absent ↦ rw (absent, execute_step) s
  | inr ((i, flight), found) ↦
      let home =
        Entries-get (λ f (x : ℕ × Flight). IsHome x.0 x.1) w.flights f (i, flight) s.home found in
      elim (Option-cases (execute w.presence flight fate).1) [
        | inl over ↦
            rw (found, execute_step)
              (rw over (record {
                placed = s.placed;
                home = Entries-delete (λ f x. IsHome x.0 x.1) w.flights f s.home;
              }))
        | inr (next, e) ↦
            rw (found, execute_step)
              (rw e (record {
                placed = s.placed;
                home =
                    Entries-put (λ f x. IsHome x.0 x.1) w.flights f (i, next) s.home
                      (execute-IsHome w.presence i flight next fate home e);
              }))
      ]
]

module _ (ready_state : ℕ → ℕ) where
  resume_step-IsSettled :
      (w : World) (f now : ℕ) → IsSettled w → IsSettled (resume_step ready_state w f now).0
  unfolding resume_step
  resume_step-IsSettled w f now s = elim (Option-cases (get w.flights f)) [
    | inl absent ↦ rw (absent, resume_step) s
    | inr ((i, flight), found) ↦
        let home =
          Entries-get (λ f (x : ℕ × Flight). IsHome x.0 x.1) w.flights f (i, flight) s.home found in
        elim (Option-cases (finish ready_state (w.hubs i) now flight)) [
          | inl waits ↦ rw (found, resume_step) (rw waits s)
          | inr ((agents, out), e) ↦
              rw (found, resume_step)
                (rw e (record {
                  placed = λ j.
                      if_elim (Entries (IsPlaced j)) (j == i) agents (w.hubs j)
                        (λ same. rw ((==_iff j i).0 same) (
                          finish-IsPlaced ready_state (w.hubs i) agents i now flight out
                            (s.placed i) home e))
                        (λ _. s.placed j);
                  home = Entries-delete (λ f x. IsHome x.0 x.1) w.flights f s.home;
                }))
        ]
  ]

  step-IsSettled : (w : World) (s : Step) → IsSettled w → IsSettled (step ready_state w s).0
  unfolding step
  step-IsSettled w (starts f i op) h = start_step-IsSettled w f i op h
  step-IsSettled w (executes f fate) h = execute_step-IsSettled w f fate h
  step-IsSettled w (resumes f now) h = resume_step-IsSettled w f now h
  step-IsSettled w (expires device) h = record { placed = h.placed; home = h.home }

  run-IsSettled : (w : World) (ss : List Step) → IsSettled w → IsSettled (run ready_state w ss).0
  unfolding run
  run-IsSettled w [] h = h
  run-IsSettled w (s ∷ ss) h = run-IsSettled (step ready_state w s).0 ss (step-IsSettled w s h)
