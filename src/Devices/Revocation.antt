-- ===== src/Devices/Revocation.antt =====
-- Renaming and revocation of a device. A revocation reads the device and its live jobs,
-- asks the agent to cancel them, and only then writes: what other requests do meanwhile is an
-- argument. What is sent is returned as a list; its failures are logged only.
pub mod Silence
use relaydock.Prelude.{
  ℕ, String, Bool, true, false, not, ◌&&◌, ◌||◌, Option, none, some, List, [], ◌∷◌, ◌++◌, map, ◌==◌,
  or_else, is_some, if◌then◌else◌,
}
use relaydock.Lifecycle.{
  JobStatus, queued, dispatched, running, waiting_for_input, disconnected, status_eq,
}
use relaydock.Protocol.{DeviceStatus, revoked, ServerToAgentMessage, ServerToClientMessage}
use relaydock.Errors.{Result, ok, err, device_not_found, record_not_found}
use relaydock.Jobs.{JobRow}
use relaydock.Tables.{RowTable}
use relaydock.Devices.{DeviceRow, CredentialRow, distinct_rows, same_credential, find_owned}

pub record Fleet (Db₁ Db₂ Db₃ : Type 0) : Type 0 where
  pub devices : Db₁
  pub credentials : Db₂
  pub jobs : Db₃

pub data DeviceAct : Type 0 where
  sends_to_agent : (device : ℕ) → ServerToAgentMessage → DeviceAct
  broadcasts_device : (user : ℕ) → ServerToClientMessage → DeviceAct
  broadcasts_job : (user job : ℕ) → ServerToClientMessage → DeviceAct
  closes_device : (device : ℕ) → (reason : String) → DeviceAct
  cancels_validations : (device : ℕ) → DeviceAct

-- `status: { in: ['queued', 'dispatched', 'running', 'waiting_for_input'] }`
abbrev pub is_live : JobStatus → Bool
is_live s =
    status_eq s queued
    || (status_eq s dispatched || (status_eq s running || status_eq s waiting_for_input))

abbrev pub is_affected : (device : ℕ) → ℕ → JobRow → Bool
is_affected device k r = r.device_id == device && is_live r.status

abbrev pub drop_job : JobRow → JobRow
drop_job r = record r { status = disconnected; status_detail = some "Device was revoked." }

abbrev pub cancel_all : (device : ℕ) → List (ℕ × JobRow) → List DeviceAct
cancel_all device =
    map λ (x : ℕ × JobRow). sends_to_agent device (ServerToAgentMessage.job_cancel x.0)

abbrev pub tell_all : (owner : ℕ) → List (ℕ × JobRow) → List DeviceAct
tell_all owner = map λ (x : ℕ × JobRow).
    broadcasts_job owner x.0
      (ServerToClientMessage.job_status x.0 disconnected (some x.1.exit_code))

module _ {Db₁ Db₂ Db₃ : Type 0} (devices : RowTable {Row = DeviceRow} distinct_rows Db₁)
    (credentials : RowTable same_credential Db₂)
    (jobs : RowTable {Row = JobRow} distinct_rows Db₃) where
  -- The transaction.
  unfoldable pub revoke_rows :
      Fleet Db₁ Db₂ Db₃ → (now device : ℕ) → Fleet Db₁ Db₂ Db₃ × Result (Unit {0})
  revoke_rows s now device =
      if not (is_some (devices.find s.devices device)) then (s, err record_not_found) else (
        record {
          devices =
              devices.update_many s.devices (λ k r. k == device)
                (λ r. record r { status = revoked });
          credentials =
              credentials.update_many s.credentials
                (λ k r. r.device_id == device && not (is_some r.revoked_at))
                (λ r. record r { revoked_at = some now });
          jobs = jobs.update_many s.jobs (is_affected device) drop_job;
        },
        ok tt,
      )

  unfoldable pub announce_revocation :
      (now owner device : ℕ) → DeviceRow → List (ℕ × JobRow) → List DeviceAct
  announce_revocation now owner device row affected =
      broadcasts_device owner
        (ServerToClientMessage.device_status device revoked (or_else row.last_seen_at now))
      ∷ (tell_all owner affected
          ++ closes_device device "device revoked" ∷ cancels_validations device ∷ [])

  unfoldable pub revoke_found :
      Fleet Db₁ Db₂ Db₃
      → (meanwhile : Fleet Db₁ Db₂ Db₃ → Fleet Db₁ Db₂ Db₃) → (now owner device : ℕ) → DeviceRow
      → Fleet Db₁ Db₂ Db₃ × Result (Unit {0}) × List DeviceAct
  unfolding revoke_rows announce_revocation
  revoke_found s meanwhile now owner device row =
      let affected = jobs.find_many s.jobs (is_affected device) in
      let (s', answer) = revoke_rows (meanwhile s) now device in
      (
        s',
        answer,
        cancel_all device affected ++ (elim answer [
          | err e ↦ []
          | ok u ↦ announce_revocation now owner device row affected
        ]),
      )

  unfoldable pub revoke_device :
      Fleet Db₁ Db₂ Db₃
      → (meanwhile : Fleet Db₁ Db₂ Db₃ → Fleet Db₁ Db₂ Db₃) → (now owner device : ℕ)
      → Fleet Db₁ Db₂ Db₃ × Result (Unit {0}) × List DeviceAct
  unfolding find_owned revoke_found
  revoke_device s meanwhile now owner device = elim (find_owned devices s.devices owner device) [
    | none ↦ (s, err device_not_found, [])
    | some row ↦ revoke_found s meanwhile now owner device row
  ]

  -- The two calls of the database are one step; the audit entry is left out.
  unfoldable pub rename_device :
      Db₁ → (owner device : ℕ) → (name : String) → Db₁ × Result (Unit {0})
  unfolding find_owned
  rename_device db owner device name = elim (find_owned devices db owner device) [
    | none ↦ (db, err device_not_found)
    | some row ↦ (
      devices.update_many db (λ k r. k == device)
          (λ r. record r { input = record r.input { name = name } }),
      ok tt,
    )
  ]
