-- ===== src/Hub/Relay/FanOut.antt =====
-- What is broadcast on one instance happens once on each.
use relaydock.Prelude.{
  ℕ, ◌+◌, ◌≤◌, ◌<◌, true, false, none, List, [], ◌∷◌, ◌++◌, map, ap, ◌∙◌, ◌≡◌, refl, ◌⊎◌, inl, inr,
  arith, ◌==◌, append-nil,
}
use relaydock.Protocol.{ServerToClientMessage, RepositoryValidationResult}
use relaydock.Viewers
use relaydock.Viewers.{broadcast_job_locally, broadcast_device_locally}
use relaydock.Validation.{Answer, settle_local, cancel_local_for_device}
use relaydock.Hub.{
  Cargo, client_job, client_device, validation_result, validation_cancel, Envelope, envelope, sends,
  closes, publishes,
}
use relaydock.Hub.Relay.{
  Instance, Output, to_viewer, to_agent, to_requester, acknowledges, Surroundings, dispatch, is_ack,
  is_elsewhere, handle_relay_message, broadcast_job, broadcast_device, publish_validation_result,
  publish_validation_cancel,
}

-- Why an envelope does not concern an instance.
abbrev pub IsIdle : Surroundings → Instance → Envelope → Type 0
IsIdle s x e =
    (x.shutting_down ≡ true)
    ⊎ (e.expires_at ≤ s.now)
    ⊎ (is_elsewhere s.self e.target ≡ true)
    ⊎ ((e.source ≡ s.self) × (is_ack e.cargo ≡ false))

-- An envelope that has expired, is meant for another instance, or comes from the instance itself
-- and is no acknowledgement, changes nothing and causes nothing, and nor does any envelope during
-- the shutdown.
idle_envelope :
    (s : Surroundings) (x : Instance) (e : Envelope)
    → IsIdle s x e
    → handle_relay_message s x e ≡ (x, [])
unfolding handle_relay_message
idle_envelope s x e (inl down) = rw down refl
idle_envelope s x e (inr (inl late)) = ground arith
idle_envelope s x e (inr (inr (inl other))) = ground arith
idle_envelope s x e (inr (inr (inr (own, plain)))) = ground arith

dispatched :
    (s at : Surroundings) (x : Instance) (cargo : Cargo)
    → (s.self == at.self) ≡ false
    → x.shutting_down ≡ false
    → at.now < s.now + 30000
    → handle_relay_message at x (envelope s.now s.self none 30000 cargo)
      ≡ dispatch at x s.self cargo
unfolding handle_relay_message
dispatched s at x cargo other up early = ground arith

-- What is published among some outputs.
abbrev pub envelopes : List Output → List Envelope
envelopes [] = []
envelopes (to_agent (publishes e) ∷ out) = e ∷ envelopes out
envelopes (to_agent (sends socket message) ∷ out) = envelopes out
envelopes (to_agent (closes socket code reason) ∷ out) = envelopes out
envelopes (to_viewer v ∷ out) = envelopes out
envelopes (to_requester a ∷ out) = envelopes out
envelopes (acknowledges correlation sent ∷ out) = envelopes out

envelopes-viewers :
    (vs : List Viewers.Effect) (e : Envelope)
    → envelopes (map to_viewer vs ++ to_agent (publishes e) ∷ []) ≡ e ∷ []
envelopes-viewers [] e = refl
envelopes-viewers (v ∷ vs) e = envelopes-viewers vs e

envelopes-answers :
    (answers : List Answer) (e : Envelope)
    → envelopes (map to_requester answers ++ to_agent (publishes e) ∷ []) ≡ e ∷ []
envelopes-answers [] e = refl
envelopes-answers (a ∷ answers) e = envelopes-answers answers e

-- What is published is one envelope, which does `there` to another instance, and nothing to the one
-- that published it.
abbrev pub IsMirrored :
    Surroundings
    → Surroundings
    → (own other : Instance) → List Output
    → (there : Instance × List Output) → Type 0
IsMirrored s at own other out there =
    (map (handle_relay_message at other) (envelopes out) ≡ there ∷ [])
    × (map (handle_relay_message s own) (envelopes out) ≡ (own, []) ∷ [])

mirrored :
    (s at : Surroundings) (own other : Instance) (cargo : Cargo) (out : List Output)
    (there : Instance × List Output)
    → (s.self == at.self) ≡ false
    → other.shutting_down ≡ false
    → at.now < s.now + 30000
    → is_ack cargo ≡ false
    → envelopes out ≡ envelope s.now s.self none 30000 cargo ∷ []
    → dispatch at other s.self cargo ≡ there
    → IsMirrored s at own other out there
mirrored s at own other cargo out there apart up early plain one does = rw one (
  ap (λ (r : Instance × List Output). r ∷ []) (dispatched s at other cargo apart up early ∙ does),
  ap (λ (r : Instance × List Output). r ∷ [])
      (idle_envelope s own (envelope s.now s.self none 30000 cargo)
        (inr (inr (inr (refl, plain))))),
)

-- What a broadcast, a result or a cancellation publishes, if Redis takes it, is one envelope, and
-- while that is fresh every other instance that is not shutting down does with it exactly what the
-- same call does there when it publishes nothing: the same viewers are served, the same requests
-- answered. The publishing instance ignores it, and a result that is published counts as handled.
pub relay_mirrors_call :
    (s at : Surroundings) (own own' other : Instance) (user job device : ℕ)
    (message : ServerToClientMessage) (result : RepositoryValidationResult)
    → (s.self == at.self) ≡ false
    → other.shutting_down ≡ false
    → at.now < s.now + 30000
    → let (x₁, handled₁, out₁) = publish_validation_result s true own device result in
      let (x₂, handled₂, out₂) = publish_validation_result at false other device result in
      IsMirrored s at own' other
        (broadcast_job s true own user job message).1
        (broadcast_job at false other user job message)
      × IsMirrored s at own' other
          (broadcast_device s true own user message).1
          (broadcast_device at false other user message)
      × IsMirrored s at own' other out₁ (x₂, out₂)
      × IsMirrored s at own' other
          (publish_validation_cancel s true own device).1
          (publish_validation_cancel at false other device)
      × (handled₁ ≡ true)
unfolding dispatch broadcast_job broadcast_device publish_validation_result
    publish_validation_cancel
relay_mirrors_call s at own own' other user job device message result apart up early = (
  mirrored s at own' other (client_job user job message)
      (broadcast_job s true own user job message).1 _ apart up early refl
      (envelopes-viewers (broadcast_job_locally s.sockets user job message own.clients).1 _)
      (rw append-nil refl),
  mirrored s at own' other (client_device user message) (broadcast_device s true own user message).1
      _ apart up early refl
      (envelopes-viewers (broadcast_device_locally s.sockets user message own.clients) _)
      (rw append-nil refl),
  mirrored s at own' other (validation_result device result)
      (publish_validation_result s true own device result).2 _ apart up early refl
      (envelopes-answers (settle_local own.broker device result).1 _) (rw append-nil refl),
  mirrored s at own' other (validation_cancel device)
      (publish_validation_cancel s true own device).1 _ apart up early refl
      (envelopes-answers (cancel_local_for_device own.broker device).1 _) (rw append-nil refl),
  ground arith,
)
