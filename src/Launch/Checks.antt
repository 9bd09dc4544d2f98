-- ===== src/Launch/Checks.antt =====
-- What has to hold of a repository and its device before a job is started.
use relaydock.Prelude.{
  ℕ, ◌≡◌, refl, ap, Bool, true, false, not, ◌&&◌, none, some, ◌==◌, if◌then◌else◌, Bool-cases,
  Option-cases, inl, inr,
}
use relaydock.Errors.{
  Result, ok, err, ◌>>=◌, or_fail, require, repository_not_found, repository_disabled,
  device_revoked, device_offline,
}
use relaydock.Jobs.{JobRow}
use relaydock.Tables.{RowTable, meets}
use relaydock.Devices.{DeviceRow, distinct_rows, find_owned, is_revoked}
use relaydock.Repositories.{RepositoryRow, same_path}
use relaydock.Launch.{ActionRow, check_repository}

module _ {Db₁ Db₂ Db₃ Db₄ : Type 0} (devices : RowTable {Row = DeviceRow} distinct_rows Db₁)
    (repositories : RowTable same_path Db₂) (actions : RowTable {Row = ActionRow} distinct_rows Db₃)
    (jobs : RowTable {Row = JobRow} distinct_rows Db₄) where
  abbrev row_of : RepositoryRow → Result RepositoryRow → RepositoryRow
  row_of row (ok r) = r
  row_of row (err e) = row

  checked_device :
      (d : DeviceRow) (r row : RepositoryRow) (own enabled on_line : Bool)
      → (or_fail (if own then some d else none) repository_not_found >>= λ device.
          require enabled repository_disabled >>= λ u.
          require (not (is_revoked device.status)) device_revoked >>= λ v.
          require on_line device_offline >>= λ w. ok r)
        ≡ ok row
      → (own ≡ true)
        × (enabled ≡ true)
        × (is_revoked d.status ≡ false)
        × (on_line ≡ true)
        × (r ≡ row)
  checked_device d r row false enabled on_line e = absurd cc
  checked_device d r row true false on_line e = absurd cc
  checked_device d r row true true on_line e = elim (Bool-cases (is_revoked d.status)) [
    | inl gone ↦ absurd (cc (rw gone at e))
    | inr there ↦ elim (Bool-cases on_line) [
      | inr away ↦ absurd (cc (rw away at (rw there at e)))
      | inl here ↦ (refl, refl, there, here, ap (row_of row) (rw here at (rw there at e)))
    ]
  ]

  pub checked_row :
      (ds : Db₁) (rs : Db₂) (user repository : ℕ) (is_online : Bool) (row : RepositoryRow)
      → check_repository devices repositories actions jobs ds rs user repository is_online ≡ ok row
      → (repositories.find rs repository ≡ some row)
        × (meets
              (devices.find ds row.device_id)
              (λ d. (d.user_id == user) && not (is_revoked d.status))
            ≡ true)
        × (row.enabled ≡ true)
        × (is_online ≡ true)
  unfolding check_repository find_owned
  checked_row ds rs user repository is_online row e =
      elim (Option-cases (repositories.find rs repository)) [
        | inl f ↦ absurd (cc (rw f at e))
        | inr (r, f) ↦
            let e' = rw f at e in
            elim (Option-cases (devices.find ds r.device_id)) [
              | inl g ↦ absurd (cc (rw (g, find_owned) at e'))
              | inr (d, g) ↦
                  let (own, en, live, here, same) =
                    checked_device d r row (d.user_id == user) r.enabled is_online
                      (rw (g, find_owned) at e') in
                  rw (← same) (f, rw g (rw (own, live) refl), en, here)
            ]
      ]
