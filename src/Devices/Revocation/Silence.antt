-- ===== src/Devices/Revocation/Silence.antt =====
-- A revoked device is cut off.
use relaydock.Prelude.{
  ℕ, ◌≡◌, ◌≢◌, refl, ◌∙◌, ap, sym, true, false, not, ◌&&◌, ◌||◌, Option, none, some, map_option,
  ◌==◌, ==_refl, is_some, if◌then◌else◌, if_elim, Bool-cases, Option-cases, inl, inr, arith,
}
use relaydock.Protocol.{revoked}
use relaydock.Errors.{Result, ok, err, agent_credential_invalid}
use relaydock.Jobs.{JobRow}
use relaydock.Tables.{RowTable, meets}
use relaydock.Pairing.{Text}
use relaydock.Devices.{
  DeviceRow, CredentialRow, AgentAuth, distinct_rows, same_credential, is_revoked, find_owned,
  served_agent, bearer_token, serve_credential, authenticate_agent,
}
use relaydock.Devices.Revocation.{
  Fleet, is_affected, drop_job, revoke_rows, revoke_found, revoke_device,
}

module _ {Db₁ Db₂ Db₃ : Type 0} (devices : RowTable {Row = DeviceRow} distinct_rows Db₁)
    (credentials : RowTable same_credential Db₂) (jobs : RowTable {Row = JobRow} distinct_rows Db₃)
    (hash : Text → ℕ) where
  -- What a revocation leaves of a device, from the rows that were there when it wrote.
  pub record IsSilenced (device : ℕ) (before after : Fleet Db₁ Db₂ Db₃) : Type 0 where
    pub marked : meets (devices.find after.devices device) (λ r. is_revoked r.status) ≡ true
    pub withdrawn :
        (j : ℕ) (r : CredentialRow)
        → credentials.find after.credentials j ≡ some r
        → r.device_id ≡ device
        → is_some r.revoked_at ≡ true
    pub refused :
        (now : ℕ) (authorization : Option Text) (a : AgentAuth)
        → (authenticate_agent devices credentials hash after.devices after.credentials now
            authorization).1
          ≡ ok a
        → a.device_id ≢ device
    pub stopped : (j : ℕ) → meets (jobs.find after.jobs j) (is_affected device j) ≡ false
    pub untouched :
        (j : ℕ)
        → meets (jobs.find before.jobs j) (is_affected device j) ≡ false
        → jobs.find after.jobs j ≡ jobs.find before.jobs j

  abbrev device_of : Result AgentAuth → ℕ
  device_of (ok a) = a.device_id
  device_of (err e) = 0

  -- An agent that is served belongs to a device that is not revoked.
  served_live :
      (db₁ : Db₁) (db₂ : Db₂) (now id : ℕ) (credential : CredentialRow) (a : AgentAuth)
      → (serve_credential devices credentials hash db₁ db₂ now id credential).1 ≡ ok a
      → meets (devices.find db₁ a.device_id) (λ r. is_revoked r.status) ≡ false
  unfolding serve_credential
  served_live db₁ db₂ now id credential a e =
      elim (Option-cases (devices.find db₁ credential.device_id)) [
        | inl f ↦ absurd (cc (rw (f, serve_credential) at e))
        | inr (r, f) ↦
            if_elim
              (λ (out : Db₂ × Result AgentAuth).
                out.1 ≡ ok a
                → meets (devices.find db₁ a.device_id) (λ r. is_revoked r.status) ≡ false)
              (is_some credential.revoked_at || is_revoked r.status)
              (db₂, err agent_credential_invalid)
              (
                credentials.update_many db₂ (λ k r. k == id)
                    (λ r. record r { last_used_at = some now }),
                ok (served_agent id credential r),
              )
              (λ bad is. absurd (cc)) (λ good is. rw (← (ap device_of is), f) (ground arith))
              (rw (f, serve_credential) at e)
      ]

  refused_if_revoked :
      (db₁ : Db₁) (db₂ : Db₂) (device now : ℕ) (authorization : Option Text) (a : AgentAuth)
      → meets (devices.find db₁ device) (λ r. is_revoked r.status) ≡ true
      → (authenticate_agent devices credentials hash db₁ db₂ now authorization).1 ≡ ok a
      → a.device_id ≢ device
  unfolding authenticate_agent
  refused_if_revoked db₁ db₂ device now authorization a gone e same =
      elim (Option-cases (bearer_token authorization)) [
        | inl f ↦ absurd (cc (rw (f, authenticate_agent) at e))
        | inr (token, f) ↦
            let e' = rw (f, authenticate_agent) at e in
            elim (Option-cases
              (credentials.find_first db₂ (λ k r. r.credential_hash == hash token) (λ r. 0))) [
                | inl g ↦ absurd (cc (rw g at e'))
                | inr (x, g) ↦
                    let live = served_live db₁ db₂ now x.0 x.1 a (rw g at e') in
                    absurd (cc (rw same at live))
              ]
      ]

  unaffected : (device k : ℕ) (r : JobRow) → is_affected device k (drop_job r) ≡ false
  unaffected device k r = ground arith

  dropped :
      (device k : ℕ) (o : Option JobRow)
      → meets
          (map_option (λ r. if is_affected device k r then drop_job r else r) o)
          (is_affected device k)
        ≡ false
  dropped device k none = refl
  dropped device k (some r) =
      if_elim (λ s. is_affected device k s ≡ false) (is_affected device k r) (drop_job r) r
        (λ e. unaffected device k r) (λ e. e)

  left :
      (device k : ℕ) (o : Option JobRow)
      → meets o (is_affected device k) ≡ false
      → map_option (λ r. if is_affected device k r then drop_job r else r) o ≡ o
  left device k none e = refl
  left device k (some r) e = rw e refl

  marked_found :
      (device : ℕ) (o : Option DeviceRow)
      → is_some o ≡ true
      → meets
          (map_option (λ r. if device == device then record r { status = revoked } else r) o)
          (λ r. is_revoked r.status)
        ≡ true
  marked_found device none e = cc
  marked_found device (some r) e = rw (==_refl device) refl

  withdrawn_found :
      (device now : ℕ) (o : Option CredentialRow) (r : CredentialRow)
      → map_option
          (λ s.
            if (s.device_id == device) && not (is_some s.revoked_at)
            then record s { revoked_at = some now }
            else s)
          o
        ≡ some r
      → r.device_id ≡ device
      → is_some r.revoked_at ≡ true
  withdrawn_found device now none r e same = absurd cc
  withdrawn_found device now (some s) r e same =
      if_elim (λ t. some t ≡ some r → is_some r.revoked_at ≡ true)
        ((s.device_id == device) && not (is_some s.revoked_at)) (record s { revoked_at = some now })
        s (λ chosen is. ground arith) (λ other is. ground arith) e

  rows-IsSilenced :
      (s : Fleet Db₁ Db₂ Db₃) (now device : ℕ)
      → is_some (devices.find s.devices device) ≡ true
      → IsSilenced device s (revoke_rows devices credentials jobs s now device).0
  unfolding revoke_rows
  rows-IsSilenced s now device there =
      let gone : meets
            (devices.find
              (devices.update_many s.devices (λ k r. k == device)
                (λ r. record r { status = revoked }))
              device)
            (λ r. is_revoked r.status)
          ≡ true =
        rw (devices.find-update_many s.devices (λ k r. k == device) _ device)
          (marked_found device (devices.find s.devices device) there) in
      rw there (record {
        marked = gone;
        withdrawn = λ j r e.
            withdrawn_found device now (credentials.find s.credentials j) r
              (sym (credentials.find-update_many s.credentials _ _ j) ∙ e);
        refused = λ now authorization a. refused_if_revoked _ _ device now authorization a gone;
        stopped = λ j.
            rw (jobs.find-update_many s.jobs (is_affected device) drop_job j)
              (dropped device j (jobs.find s.jobs j));
        untouched = λ j e.
            jobs.find-update_many s.jobs (is_affected device) drop_job j
            ∙ left device j (jobs.find s.jobs j) e;
      })

  rows_ok :
      (s : Fleet Db₁ Db₂ Db₃) (now device : ℕ)
      → (revoke_rows devices credentials jobs s now device).1 ≡ ok tt
      → is_some (devices.find s.devices device) ≡ true
  unfolding revoke_rows
  rows_ok s now device e = elim (Bool-cases (is_some (devices.find s.devices device))) [
    | inl there ↦ there
    | inr gone ↦ absurd (cc (rw gone at e))
  ]

  found-IsSilenced :
      (s : Fleet Db₁ Db₂ Db₃) (meanwhile : Fleet Db₁ Db₂ Db₃ → Fleet Db₁ Db₂ Db₃)
      (now owner device : ℕ) (row : DeviceRow)
      → (revoke_found devices credentials jobs s meanwhile now owner device row).1 ≡ ok tt
      → IsSilenced device
          (meanwhile s)
          (revoke_found devices credentials jobs s meanwhile now owner device row).0
  unfolding revoke_found
  found-IsSilenced s meanwhile now owner device row e =
      rows-IsSilenced (meanwhile s) now device (rows_ok (meanwhile s) now device e)

  owned_found :
      (db : Db₁) (owner device : ℕ) (row : DeviceRow)
      → find_owned devices db owner device ≡ some row
      → meets (devices.find db device) (λ r. r.user_id == owner) ≡ true
  unfolding find_owned
  owned_found db owner device row e = elim (Option-cases (devices.find db device)) [
    | inl f ↦ absurd (cc (rw (f, find_owned) at e))
    | inr (r, f) ↦ rw f (
        if_elim (λ o. o ≡ some row → (r.user_id == owner) ≡ true) (r.user_id == owner) (some r) none
          (λ mine is. mine) (λ other is. absurd (cc)) (rw (f, find_owned) at e))
  ]

  -- A revocation that succeeds was asked for by the device's owner and cuts the device off, whatever other requests did between its reads
  -- and its writes: the device is marked, each of its credentials is withdrawn, no header
  -- authenticates an agent as the device any more, and none of its jobs is live. The jobs that
  -- were not live, and those of other devices, are as they were when it wrote.
  pub revoke-IsSilenced :
      (s : Fleet Db₁ Db₂ Db₃) (meanwhile : Fleet Db₁ Db₂ Db₃ → Fleet Db₁ Db₂ Db₃)
      (now owner device : ℕ)
      → (revoke_device devices credentials jobs s meanwhile now owner device).1 ≡ ok tt
      → (meets (devices.find s.devices device) (λ r. r.user_id == owner) ≡ true)
        × IsSilenced device
            (meanwhile s)
            (revoke_device devices credentials jobs s meanwhile now owner device).0
  unfolding revoke_device
  revoke-IsSilenced s meanwhile now owner device e =
      elim (Option-cases (find_owned devices s.devices owner device)) [
        | inl f ↦ absurd (cc (rw (f, revoke_device) at e))
        | inr (row, f) ↦ (
          owned_found s.devices owner device row f,
          rw (f, revoke_device)
              (found-IsSilenced s meanwhile now owner device row (rw (f, revoke_device) at e)),
        )
      ]
