-- ===== src/Maintenance.antt =====
-- `MaintenanceService` of apps/server/src/services/maintenance.ts: the clean-up and the start on a
-- single instance. Its timers are not modelled.
pub mod Harmless
use relaydock.Prelude.{
  ℕ, ◌+◌, ◌*◌, String, Bool, true, false, ◌&&◌, ◌||◌, Option, none, some, ltb, if◌then◌else◌,
}
use relaydock.Lifecycle.{JobStatus, completed, failed, cancelled, status_eq}
use relaydock.Protocol.{DeviceStatus, online, offline, revoked}
use relaydock.Jobs.{JobRow}
use relaydock.Tables.{RowTable}
use relaydock.Sessions.{SessionRow, same_token, clean_sessions}
use relaydock.Pairing.{Text, PairingCode, same_code, clean_codes}
use relaydock.Devices.{DeviceRow, distinct_rows}

-- The tables of the clean-up.
pub record Rows (Db₁ Db₂ Db₃ : Type 0) : Type 0 where
  pub jobs : Db₁
  pub sessions : Db₂
  pub codes : Db₃

-- `{ lt: cutoff }` for a column that may be null, the cutoff being `age` before `now`.
abbrev pub is_older : Option ℕ → (age now : ℕ) → Bool
is_older none age now = false
is_older (some at) age now = ltb (at + age) now

abbrev pub is_expendable : (retention_days now : ℕ) → ℕ → JobRow → Bool
is_expendable retention_days now k r =
    (status_eq r.status completed || (status_eq r.status failed || status_eq r.status cancelled))
    && is_older r.finished_at (retention_days * 86400000) now

abbrev pub is_online : DeviceStatus → Bool
is_online online = true
is_online s = false

module _ {Db₁ Db₂ Db₃ : Type 0} (jobs : RowTable {Row = JobRow} distinct_rows Db₁)
    (sessions : RowTable same_token Db₂) (codes : RowTable same_code Db₃) (hash : String → ℕ) where
  unfoldable pub cleanup : Rows Db₁ Db₂ Db₃ → (retention_days now : ℕ) → Rows Db₁ Db₂ Db₃
  cleanup s retention_days now = record {
    jobs = jobs.delete_many s.jobs (is_expendable retention_days now);
    sessions = clean_sessions sessions hash s.sessions now;
    codes = clean_codes codes s.codes now;
  }

-- `start`, as far as it writes.
unfoldable pub start :
    {Db : Type 0} → RowTable {Row = DeviceRow} distinct_rows Db → Db → (distributed : Bool) → Db
start devices db distributed =
    if distributed
    then db
    else devices.update_many db (λ k r. is_online r.status) (λ r. record r { status = offline })
