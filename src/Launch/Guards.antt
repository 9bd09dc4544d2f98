-- ===== src/Launch/Guards.antt =====
-- What has to hold before an agent is told to start a job.
use Prim.Native.String.{len}
use relaydock.Prelude.{
  ℕ, ◌≤◌, ◌≡◌, ◌∙◌, ap, sym, String, Bool, true, false, not, ◌&&◌, none, some, ◌==◌, ltb, if_elim,
  Bool-cases, Option-cases, inl, inr, arith,
}
use relaydock.Errors.{
  Result-cases, Result, ok, err, ◌>>=◌, >>=-eq-ok, or_fail, or_fail-eq-ok, require, require-eq-ok,
  action_not_found, confirmation_required,
}
use relaydock.Jobs.{JobRow}
use relaydock.Tables.{RowTable, meets}
use relaydock.Pairing.{Text}
use relaydock.Devices.{DeviceRow, distinct_rows, is_revoked}
use relaydock.Repositories.{RepositoryRow, same_path}
use relaydock.Launch.{
  ActionRow, JobInput, by_action, custom, JobSpec, spec_of, max_command_bytes, find_action,
  action_spec, custom_spec, resolve_spec, check_repository, prepare,
}
use relaydock.Launch.WorkingDirectory.{safe_working_directory, normalize_working_directory}
use relaydock.Launch.WorkingDirectory.Inside.{IsInsideOnPosix, normalize-IsInsideOnPosix}
use relaydock.Launch.Checks.{checked_row}

-- The job of a command that the request gives.
abbrev pub custom_of :
    (command : String) → (directory : Text) → (interactive persistent : Bool) → JobSpec
custom_of command directory interactive persistent = record {
  action_id = none;
  command = command;
  working_directory = directory;
  interactive = interactive;
  persistent = persistent;
}

module _ {Db₁ Db₂ Db₃ Db₄ : Type 0} (devices : RowTable {Row = DeviceRow} distinct_rows Db₁)
    (repositories : RowTable same_path Db₂) (actions : RowTable {Row = ActionRow} distinct_rows Db₃)
    (jobs : RowTable {Row = JobRow} distinct_rows Db₄) where
  -- Where the command comes from: an action of the repository, confirmed if it has to be, or the
  -- request, if the repository allows that; its working directory is then the normal form of what
  -- was asked for.
  pub data IsAllowed (acts : Db₃) (repository : ℕ) (row : RepositoryRow) (spec : JobSpec)
      : JobInput → Type 0 where
    stored_action :
        {action : ℕ} {confirmation : Bool} (a : ActionRow)
        → actions.find acts action ≡ some a
        → (a.repository_id == repository) ≡ true
        → (a.confirmation_required && not confirmation) ≡ false
        → spec ≡ spec_of action a
        → IsAllowed acts repository row spec (by_action action confirmation)
    custom_command :
        {command : String} {directory : Text} {interactive persistent : Bool} (normal : Text)
        → row.allow_custom_commands ≡ true
        → normalize_working_directory (some directory) ≡ ok normal
        → IsInsideOnPosix normal
        → spec ≡ custom_of command normal interactive persistent
        → IsAllowed acts repository row spec (custom command directory interactive persistent)

  pub record MayStart (ds : Db₁) (rs : Db₂) (acts : Db₃) (user repository : ℕ) (input : JobInput)
      (is_online : Bool) (row : RepositoryRow) (spec : JobSpec) : Type 0 where
    pub found : repositories.find rs repository ≡ some row
    pub owned :
        meets
          (devices.find ds row.device_id)
          (λ d. (d.user_id == user) && not (is_revoked d.status))
        ≡ true
    pub enabled : row.enabled ≡ true
    pub present : is_online ≡ true
    pub allowed : IsAllowed acts repository row spec input
    pub short : len spec.command ≤ max_command_bytes

  abbrev spec_from : JobSpec → Result JobSpec → JobSpec
  spec_from s (ok t) = t
  spec_from s (err e) = s

  found_action :
      (acts : Db₃) (repository action : ℕ) (a : ActionRow)
      → find_action devices repositories actions jobs acts repository action ≡ some a
      → (actions.find acts action ≡ some a) × ((a.repository_id == repository) ≡ true)
  unfolding find_action
  found_action acts repository action a e = elim (Option-cases (actions.find acts action)) [
    | inl f ↦ absurd (cc (rw (f, find_action) at e))
    | inr (b, f) ↦
        if_elim
          (λ o.
            o ≡ some a
            → (actions.find acts action ≡ some a) × ((a.repository_id == repository) ≡ true))
          (b.repository_id == repository) (some b) none (λ here is. (f ∙ is, ground arith))
          (λ other is. absurd (cc)) (rw (f, find_action) at e)
  ]

  confirmed :
      (a : ActionRow) (action : ℕ) (confirmation : Bool) (spec : JobSpec)
      → (require (not (a.confirmation_required && not confirmation)) confirmation_required >>= λ u.
          ok (spec_of action a))
        ≡ ok spec
      → ((a.confirmation_required && not confirmation) ≡ false) × (spec ≡ spec_of action a)
  confirmed a action confirmation spec e =
      let (u, asked, is) =
        >>=-eq-ok
          (require (not (a.confirmation_required && not confirmation)) confirmation_required)
          (λ u. ok (spec_of action a)) e in
      (ground (arith, require-eq-ok _ _ asked), sym (ap (spec_from spec) is))

  action-IsAllowed :
      (acts : Db₃) (repository action : ℕ) (confirmation : Bool) (row : RepositoryRow)
      (spec : JobSpec)
      → action_spec devices repositories actions jobs acts repository action confirmation ≡ ok spec
      → IsAllowed acts repository row spec (by_action action confirmation)
  unfolding action_spec
  action-IsAllowed acts repository action confirmation row spec e =
      let (a, f, rest) =
        >>=-eq-ok
          (or_fail (find_action devices repositories actions jobs acts repository action)
            action_not_found)
          _ e in
      let (there, here) = found_action acts repository action a (or_fail-eq-ok _ _ f) in
      let (fine, is) = confirmed a action confirmation spec rest in
      stored_action a there here fine is

  custom-IsAllowed :
      (acts : Db₃) (repository : ℕ) (row : RepositoryRow) (spec : JobSpec) (command : String)
      (directory : Text) (interactive persistent : Bool)
      → custom_spec devices repositories actions jobs row command directory interactive persistent
        ≡ ok spec
      → IsAllowed acts repository row spec (custom command directory interactive persistent)
  unfolding custom_spec safe_working_directory
  custom-IsAllowed acts repository row spec command directory interactive persistent e =
      elim (Bool-cases row.allow_custom_commands) [
        | inr off ↦ absurd (cc (rw off at e))
        | inl allowed ↦ elim (Result-cases (safe_working_directory directory)) [
          | inr (x, f) ↦ absurd (cc (rw f at (rw allowed at e)))
          | inl (d, f) ↦
              custom_command d allowed f (normalize-IsInsideOnPosix (some directory) d f)
                (sym (ap (spec_from spec) (rw f at (rw allowed at e))))
        ]
      ]

  abbrev first_of : RepositoryRow → Result (RepositoryRow × JobSpec) → RepositoryRow
  first_of row (ok x) = x.0
  first_of row (err e) = row

  abbrev second_of : JobSpec → Result (RepositoryRow × JobSpec) → JobSpec
  second_of spec (ok x) = x.1
  second_of spec (err e) = spec

  resolve-IsAllowed :
      (acts : Db₃) (repository : ℕ) (row : RepositoryRow) (spec : JobSpec) (input : JobInput)
      → resolve_spec devices repositories actions jobs acts repository row input ≡ ok spec
      → IsAllowed acts repository row spec input
  unfolding resolve_spec
  resolve-IsAllowed acts repository row spec (by_action action confirmation) e =
      action-IsAllowed acts repository action confirmation row spec e
  resolve-IsAllowed acts repository row spec (custom command directory interactive persistent) e =
      custom-IsAllowed acts repository row spec command directory interactive persistent e

  started :
      (ds : Db₁) (rs : Db₂) (acts : Db₃) (user repository : ℕ) (input : JobInput) (is_online : Bool)
      (row : RepositoryRow) (spec : JobSpec)
      → check_repository devices repositories actions jobs ds rs user repository is_online ≡ ok row
      → resolve_spec devices repositories actions jobs acts repository row input ≡ ok spec
      → ltb max_command_bytes (len spec.command) ≡ false
      → MayStart ds rs acts user repository input is_online row spec
  started ds rs acts user repository input is_online row spec f g short =
      let (there, own, en, here) =
        checked_row devices repositories actions jobs ds rs user repository is_online row f in
      record {
        found = there;
        owned = own;
        enabled = en;
        present = here;
        allowed = resolve-IsAllowed acts repository row spec input g;
        short = ground arith;
      }

  pub prepare-MayStart :
      (ds : Db₁) (rs : Db₂) (acts : Db₃) (user repository : ℕ) (input : JobInput) (is_online : Bool)
      (row : RepositoryRow) (spec : JobSpec)
      → prepare devices repositories actions jobs ds rs acts user repository input is_online
        ≡ ok (row, spec)
      → MayStart ds rs acts user repository input is_online row spec
  unfolding prepare
  prepare-MayStart ds rs acts user repository input is_online row spec e =
      elim (Result-cases
        (check_repository devices repositories actions jobs ds rs user repository is_online)) [
          | inr (x, f) ↦ absurd (cc (rw f at e))
          | inl (r, f) ↦
              elim (Result-cases
                (resolve_spec devices repositories actions jobs acts repository r input)) [
                  | inr (x, g) ↦ absurd (cc (rw g at (rw f at e)))
                  | inl (t, g) ↦ elim (Bool-cases (ltb max_command_bytes (len t.command))) [
                    | inl long ↦ absurd (cc (rw long at (rw g at (rw f at e))))
                    | inr short ↦
                        let same = rw short at (rw g at (rw f at e)) in
                        let r_is : r ≡ row = ap (first_of row) same in
                        let t_is : t ≡ spec = ap (second_of spec) same in
                        rw (← r_is, ← t_is)
                          (started ds rs acts user repository input is_online r t f g short)
                  ]
                ]
        ]
