-- ===== src/Launch/Admission.antt =====
-- What may start is not refused.
use Prim.Native.String.{len}
use relaydock.Devices.{find_owned}
use relaydock.Prelude.{refl}
use relaydock.Prelude.{
  ℕ, ◌≡◌, Bool, true, false, not, ◌&&◌, some, ◌==◌, ltb, Option-cases, inl, inr, arith,
}
use relaydock.Errors.{ok}
use relaydock.Jobs.{JobRow}
use relaydock.Tables.{RowTable, meets}
use relaydock.Devices.{DeviceRow, distinct_rows, is_revoked}
use relaydock.Repositories.{RepositoryRow, same_path}
use relaydock.Launch.{
  ActionRow, JobInput, by_action, custom, JobSpec, max_command_bytes, find_action, action_spec,
  custom_spec, resolve_spec, check_repository, prepare,
}
use relaydock.Launch.WorkingDirectory.{safe_working_directory}
use relaydock.Launch.Guards.{IsAllowed, stored_action, custom_command, MayStart}

module _ {Db₁ Db₂ Db₃ Db₄ : Type 0} (devices : RowTable {Row = DeviceRow} distinct_rows Db₁)
    (repositories : RowTable same_path Db₂) (actions : RowTable {Row = ActionRow} distinct_rows Db₃)
    (jobs : RowTable {Row = JobRow} distinct_rows Db₄) where
  IsAllowed-resolve :
      (acts : Db₃) (repository : ℕ) (row : RepositoryRow) (spec : JobSpec) (input : JobInput)
      → IsAllowed devices repositories actions jobs acts repository row spec input
      → resolve_spec devices repositories actions jobs acts repository row input ≡ ok spec
  unfolding resolve_spec action_spec find_action custom_spec safe_working_directory
  IsAllowed-resolve acts repository row spec (by_action action confirmation)
        (stored_action a there here fine is) =
      rw (there, find_action) (rw here (rw (fine, is) refl))
  IsAllowed-resolve acts repository row spec (custom command directory interactive persistent)
        (custom_command normal allowed e inside is) =
      rw allowed (rw e (rw is refl))

  checked :
      (ds : Db₁) (rs : Db₂) (user repository : ℕ) (row : RepositoryRow)
      → repositories.find rs repository ≡ some row
      → meets
          (devices.find ds row.device_id)
          (λ d. (d.user_id == user) && not (is_revoked d.status))
        ≡ true
      → row.enabled ≡ true
      → check_repository devices repositories actions jobs ds rs user repository true ≡ ok row
  unfolding check_repository find_owned
  checked ds rs user repository row found owned enabled =
      elim (Option-cases (devices.find ds row.device_id)) [
        | inl f ↦ absurd (cc (rw f at owned))
        | inr (d, f) ↦
            let both = rw f at owned in
            let own : (d.user_id == user) ≡ true = ground (arith, both) in
            let live : is_revoked d.status ≡ false = ground (arith, both) in
            rw found (rw (f, find_owned) (rw (own, enabled, live) refl))
      ]

  pub MayStart-prepare :
      (ds : Db₁) (rs : Db₂) (acts : Db₃) (user repository : ℕ) (input : JobInput) (is_online : Bool)
      (row : RepositoryRow) (spec : JobSpec)
      → MayStart devices repositories actions jobs ds rs acts user repository input is_online row
          spec
      → prepare devices repositories actions jobs ds rs acts user repository input is_online
        ≡ ok (row, spec)
  unfolding prepare
  MayStart-prepare ds rs acts user repository input is_online row spec may =
      let fits : ltb max_command_bytes (len spec.command) ≡ false = ground (arith, may.short) in
      rw (may.present, checked ds rs user repository row may.found may.owned may.enabled)
        (rw (IsAllowed-resolve acts repository row spec input may.allowed) (rw fits refl))
