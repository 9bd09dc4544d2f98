-- ===== src/Devices/Deletion.antt =====
-- The permanent deletion of a device: one transaction, under a lock on the device's row. The
-- database deletes the credentials with the device.
use relaydock.Prelude.{ℕ, not, none, some, ◌==◌, if◌then◌else◌}
use relaydock.Errors.{Result, ok, err, device_not_found, device_not_revoked}
use relaydock.Jobs.{JobRow}
use relaydock.Tables.{RowTable}
use relaydock.Devices.{DeviceRow, distinct_rows, same_credential, is_revoked, find_owned}
use relaydock.Repositories.{same_path}

-- The tables that a deletion touches.
pub record Estate (Db₁ Db₂ Db₃ Db₄ : Type 0) : Type 0 where
  pub devices : Db₁
  pub credentials : Db₂
  pub jobs : Db₃
  pub repositories : Db₄

module _ {Db₁ Db₂ Db₃ Db₄ : Type 0} (devices : RowTable {Row = DeviceRow} distinct_rows Db₁)
    (credentials : RowTable same_credential Db₂) (jobs : RowTable {Row = JobRow} distinct_rows Db₃)
    (repositories : RowTable same_path Db₄) where
  unfoldable pub delete_device :
      Estate Db₁ Db₂ Db₃ Db₄ → (owner device : ℕ) → Estate Db₁ Db₂ Db₃ Db₄ × Result (Unit {0})
  unfolding find_owned
  delete_device s owner device = elim (find_owned devices s.devices owner device) [
    | none ↦ (s, err device_not_found)
    | some row ↦ if not (is_revoked row.status) then (s, err device_not_revoked) else (
      record {
        devices = devices.delete_many s.devices (λ k r. k == device);
        credentials = credentials.delete_many s.credentials (λ k r. r.device_id == device);
        jobs = jobs.delete_many s.jobs (λ k r. r.device_id == device);
        repositories = repositories.delete_many s.repositories (λ k r. r.device_id == device);
      },
      ok tt,
    )
  ]
