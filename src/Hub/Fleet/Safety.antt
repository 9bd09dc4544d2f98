-- ===== src/Hub/Fleet/Safety.antt =====
-- What may change the presence key of a device.
use relaydock.Prelude.{
  ℕ, true, Option, none, some, ◌≡◌, refl, inl, inr, arith, get, get-put, get-delete, Option-cases,
  Bool-cases, ◌==◌, ==_iff,
}
use relaydock.Hub.{
  AgentOwner, AgentConnection, Presence, owner_eq, claim_presence, is_owner, release_presence,
}
use relaydock.Hub.Fleet.{
  Flight, claiming, installing, releasing, detaching, touching, beating, sending, Fate, answered,
  unreachable, reply_lost, Step, starts, executes, resumes, expires, World, execute, start_step,
  execute_step, resume_step, step,
}

-- How a command leaves the presence key of a device that read `before`: as it was, claimed by an
-- attachment to that device, or released by the detachment of the very connection that held it.
pub data Command (d : ℕ) (flight : Flight) (before after : Option AgentOwner) : Type 0 where
  untouched : after ≡ before → Command d flight before after
  claimed :
      (socket : ℕ) (owner : AgentOwner) (existing : Option AgentConnection)
      → flight ≡ claiming d socket owner existing
      → after ≡ some owner
      → Command d flight before after
  released :
      (c : AgentConnection) (holder : AgentOwner)
      → flight ≡ releasing c
      → c.device_id ≡ d
      → before ≡ some holder
      → owner_eq holder c.owner ≡ true
      → after ≡ none
      → Command d flight before after

claim-Command :
    (p : Presence) (d device socket : ℕ) (owner : AgentOwner) (existing : Option AgentConnection)
    → Command d
        (claiming device socket owner existing)
        (get p d)
        (get (claim_presence p device owner).0 d)
unfolding claim_presence
claim-Command p d device socket owner existing = elim (Bool-cases (device == d)) [
  | inl same ↦
      let e : device ≡ d = (==_iff device d).0 same in
      claimed socket owner existing (rw e refl) (rw (get-put, same) refl)
  | inr other ↦ untouched (rw (get-put, other) refl)
]

pub is_owner-holder :
    (p : Presence) (d : ℕ) (owner : AgentOwner)
    → is_owner p d owner ≡ true
    → (holder : AgentOwner) × (get p d ≡ some holder) × (owner_eq holder owner ≡ true)
unfolding is_owner
is_owner-holder p d owner e = elim (Option-cases (get p d)) [
  | inl absent ↦ absurd (ground arith)
  | inr (holder, held) ↦ (holder, held, ground arith)
]

release-Command :
    (p : Presence) (d : ℕ) (c : AgentConnection)
    → Command d (releasing c) (get p d) (get (release_presence p c.device_id c.owner).0 d)
unfolding release_presence
release-Command p d c = elim (Bool-cases (is_owner p c.device_id c.owner)) [
  | inr foreign ↦ rw foreign (untouched refl)
  | inl own ↦ elim (Bool-cases (c.device_id == d)) [
    | inr other ↦ rw own (untouched (rw (get-delete, other) refl))
    | inl same ↦
        let e : c.device_id ≡ d = (==_iff c.device_id d).0 same in
        let (holder, held, equal) = is_owner-holder p c.device_id c.owner own in
        rw own (released c holder refl e (rw (← e) held) equal (rw (get-delete, same) refl))
  ]
]

execute-Command :
    (p : Presence) (d : ℕ) (flight : Flight) (fate : Fate)
    → Command d flight (get p d) (get (execute p flight fate).0 d)
unfolding execute
execute-Command p d (claiming device socket owner existing) answered =
    claim-Command p d device socket owner existing
execute-Command p d (claiming device socket owner existing) unreachable = untouched refl
execute-Command p d (claiming device socket owner existing) reply_lost =
    claim-Command p d device socket owner existing
execute-Command p d (releasing c) answered = release-Command p d c
execute-Command p d (releasing c) unreachable = untouched refl
execute-Command p d (releasing c) reply_lost = release-Command p d c
execute-Command p d (touching c none) answered = untouched refl
execute-Command p d (touching c none) _ = untouched refl
execute-Command p d (touching c (some m)) answered = untouched refl
execute-Command p d (touching c (some m)) _ = untouched refl
execute-Command p d (installing device socket owner existing previous) _ = untouched refl
execute-Command p d (detaching c r) _ = untouched refl
execute-Command p d (beating c t) _ = untouched refl
execute-Command p d (sending c m t) _ = untouched refl

-- Why the presence key of a device reads `after` when a step has been taken.
pub data Cause (w : World) (s : Step) (d : ℕ) (after : Option AgentOwner) : Type 0 where
  idle : after ≡ get w.presence d → Cause w s d after
  lapsed : s ≡ expires d → after ≡ none → Cause w s d after
  commanded :
      (f i : ℕ) (flight : Flight) (fate : Fate)
      → s ≡ executes f fate
      → get w.flights f ≡ some (i, flight)
      → Command d flight (get w.presence d) after
      → Cause w s d after

-- In any interleaving of calls on any instances, whatever is answered or lost, a step changes the
-- presence key of a device only if the key expires, or the step is the command of an attachment to
-- that device, which then holds it, or of the detachment of the connection that holds it: a
-- detachment never takes the presence of a newer connection away, and neither does any resumption.
pub presence-Cause :
    (ready_state : ℕ → ℕ) (w : World) (s : Step) (d : ℕ)
    → Cause w s d (get (step ready_state w s).0.presence d)
unfolding step start_step execute_step resume_step
presence-Cause ready_state w (starts f i op) d = idle (ground arith)
presence-Cause ready_state w (executes f fate) d = elim (Option-cases (get w.flights f)) [
  | inl absent ↦ rw (absent, execute_step) (idle refl)
  | inr ((i, flight), found) ↦
      rw (found, execute_step)
        (commanded f i flight fate refl found (execute-Command w.presence d flight fate))
]
presence-Cause ready_state w (resumes f now) d = idle (ground arith)
presence-Cause ready_state w (expires device) d = elim (Bool-cases (device == d)) [
  | inl same ↦
      let e : device ≡ d = (==_iff device d).0 same in
      lapsed (rw e refl) (rw (get-delete, same) refl)
  | inr other ↦ idle (rw (get-delete, other) refl)
]
