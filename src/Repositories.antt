-- ===== src/Repositories.antt =====
-- The repositories of a device: creation in apps/server/src/routes/devices.ts, change and deletion
-- in apps/server/src/routes/repositories.ts, past the checks of the session and of the body. The
-- answer of the validation broker, the presence of the agent and what other requests do while the
-- agent validates are arguments; audit entries are left out.
pub mod Changes
use relaydock.Prelude.{
  ℕ, String, str_eq, Bool, true, false, not, ◌&&◌, ◌||◌, Option, none, some, List, ◌==◌, or_else,
  map_option, if◌then◌else◌,
}
use relaydock.Protocol.{RepositoryValidationResult, DeviceStatus}
use relaydock.Errors.{
  Result, ok, err, ◌>>=◌, AppError, device_not_found, device_revoked, device_offline,
  repository_not_found, repository_exists, repository_invalid, repository_has_history,
  path_not_absolute, unique_conflict,
}
use relaydock.Tables.{RowTable}
use relaydock.Tables.Writes.{update_row}
use relaydock.Devices.{DeviceRow, distinct_rows, find_owned, is_revoked}

pub record RepositoryRow : Type 0 where
  pub device_id : ℕ
  pub name : String
  pub absolute_path : String
  pub description : Option String
  pub enabled : Bool
  pub allow_custom_commands : Bool
  pub shell : String
  pub shell_args : List String
  pub inherited_environment : List String
  pub is_git_repository : Option Bool
  pub branch : Option String
  pub repository_root : Option String

-- `@@unique([deviceId, absolutePath])`
abbrev pub same_path : RepositoryRow → RepositoryRow → Bool
same_path r s = r.device_id == s.device_id && str_eq r.absolute_path s.absolute_path

-- The parsed body of a change.
pub record RepositoryPatch : Type 0 where
  pub name : Option String
  pub absolute_path : Option String
  pub description : Option String
  pub allow_custom_commands : Option Bool
  pub shell : Option String
  pub shell_args : Option (List String)
  pub inherited_environment : Option (List String)
  pub enabled : Option Bool

-- The columns that a validation gives, with the switch.
abbrev pub validated :
    RepositoryValidationResult → (path : String) → (enabled : Bool) → RepositoryRow → RepositoryRow
validated v path enabled r = record r {
  absolute_path = path;
  repository_root = some (or_else v.repository_root path);
  is_git_repository = some v.is_git_repository;
  branch = v.branch;
  enabled = enabled;
}

abbrev pub set_enabled : Bool → RepositoryRow → RepositoryRow
set_enabled b r = record r { enabled = b }

-- `if (!validation.valid || validation.canonicalPath === undefined) throw …`
abbrev pub canonical : RepositoryValidationResult → Result String
canonical v = elim v.canonical_path [
  | none ↦ err repository_invalid
  | some path ↦ if v.valid then ok path else err repository_invalid
]

-- An empty description is stored as none.
abbrev pub described : String → Option String
described text = if str_eq text "" then none else some text

abbrev pub patched : RepositoryPatch → (path_changed : Bool) → RepositoryRow → RepositoryRow
patched input path_changed r = record r {
  name = or_else input.name r.name;
  description = or_else (map_option described input.description) r.description;
  allow_custom_commands = or_else input.allow_custom_commands r.allow_custom_commands;
  shell = or_else input.shell r.shell;
  shell_args = or_else input.shell_args r.shell_args;
  inherited_environment = or_else input.inherited_environment r.inherited_environment;
  enabled = if path_changed then r.enabled else or_else input.enabled r.enabled;
}

abbrev pub path_changes : RepositoryPatch → RepositoryRow → Bool
path_changes input r = changes input.absolute_path r.absolute_path
  where
    changes : Option String → String → Bool
    changes none old = false
    changes (some new) old = not (str_eq new old)

-- The error that the handler of a failed change rethrows.
abbrev pub rethrown : AppError → AppError
rethrown unique_conflict = repository_exists
rethrown e = e

module _ {Db₁ Db₂ : Type 0} (devices : RowTable {Row = DeviceRow} distinct_rows Db₁)
    (repositories : RowTable same_path Db₂) (looks_absolute : String → Bool) where
  -- `findFirst({ where: { id, device: { userId } } })`
  unfoldable pub find_repository : Db₁ → Db₂ → (user id : ℕ) → Option RepositoryRow
  unfolding find_owned
  find_repository ds rs user id = elim (repositories.find rs id) [
    | none ↦ none
    | some row ↦ elim (find_owned devices ds user row.device_id) [
      | none ↦ none
      | some device ↦ some row
    ]
  ]

  -- The `catch` of a path change.
  unfoldable pub restore :
      Db₂ → (id : ℕ) → (was_enabled : Bool) → AppError → Db₂ × Result (Unit {0})
  restore rs id was_enabled e = elim (update_row repositories rs id (set_enabled was_enabled)) [
    | ok rs' ↦ (rs', err (rethrown e))
    | err e' ↦ (rs, err e')
  ]

  unfoldable pub apply_validation :
      Db₂ → (id : ℕ) → (enabled : Bool) → (answer : Result RepositoryValidationResult) → Result Db₂
  apply_validation rs id enabled answer = do
    v ← answer
    path ← canonical v
    update_row repositories rs id (validated v path enabled)

  -- From the validation on.
  unfoldable pub settle_path :
      Db₂
      → (id : ℕ) → RepositoryRow
      → (enabled : Option Bool) → (answer : Result RepositoryValidationResult)
      → Db₂ × Result (Unit {0})
  unfolding restore apply_validation
  settle_path rs id row enabled answer =
      elim (apply_validation rs id (or_else enabled row.enabled) answer) [
        | ok rs' ↦ (rs', ok tt)
        | err e ↦ restore rs id row.enabled e
      ]

  unfoldable pub change_path :
      Db₂
      → (id : ℕ) → RepositoryRow
      → (enabled : Option Bool) → (meanwhile : Db₂ → Db₂)
      → (answer : Result RepositoryValidationResult) → Db₂ × Result (Unit {0})
  unfolding settle_path
  change_path rs id row enabled meanwhile answer =
      elim (update_row repositories rs id (set_enabled false)) [
        | ok disabled ↦ settle_path (meanwhile disabled) id row enabled answer
        | err e ↦ (rs, err e)
      ]

  unfoldable pub apply_patch :
      Db₂ → (id : ℕ) → RepositoryPatch → (path_changed : Bool) → Db₂ × Result (Unit {0})
  apply_patch rs id input path_changed =
      elim (update_row repositories rs id (patched input path_changed)) [
        | ok rs' ↦ (rs', ok tt)
        | err e ↦ (rs, err e)
      ]

  abbrev continue :
      Db₂ × Result (Unit {0}) → (Db₂ → Db₂ × Result (Unit {0})) → Db₂ × Result (Unit {0})
  continue out next = elim out.1 [ ok u ↦ next out.0 | err e ↦ (out.0, err e) ]

  unfoldable pub patch_repository :
      Db₁
      → Db₂
      → (user id : ℕ) → RepositoryPatch
      → (is_online : Bool) → (meanwhile : Db₂ → Db₂) → (answer : Result RepositoryValidationResult)
      → Db₂ × Result (Unit {0})
  unfolding find_repository change_path apply_patch
  patch_repository ds rs user id input is_online meanwhile answer =
      elim (find_repository ds rs user id) [
        | none ↦ (rs, err repository_not_found)
        | some row ↦
            if not (path_changes input row)
            then apply_patch rs id input false
            else if not (looks_absolute (or_else input.absolute_path row.absolute_path))
            then (rs, err path_not_absolute)
            else if not is_online
            then (rs, err device_offline)
            else continue (change_path rs id row input.enabled meanwhile answer)
                (λ rs'. apply_patch rs' id input true)
      ]

  -- `jobs` is the number of the repository's jobs.
  unfoldable pub delete_repository : Db₁ → Db₂ → (user id jobs : ℕ) → Db₂ × Result (Unit {0})
  unfolding find_repository
  delete_repository ds rs user id jobs = elim (find_repository ds rs user id) [
    | none ↦ (rs, err repository_not_found)
    | some row ↦
        if not (jobs == 0)
        then (rs, err repository_has_history)
        else (repositories.delete_many rs (λ k r. k == id), ok tt)
  ]

  -- The `try` of a creation, whose `catch` deletes the row if it was not enabled.
  unfoldable pub settle_creation :
      Db₂ → (id : ℕ) → (answer : Result RepositoryValidationResult) → Db₂ × Result (Unit {0})
  unfolding apply_validation
  settle_creation rs id answer = elim (apply_validation rs id true answer) [
    | ok rs' ↦ (rs', ok tt)
    | err e ↦ (repositories.delete_many rs (λ k r. k == id && not r.enabled), err e)
  ]

  -- `row` has the columns of the body, with `enabled` false.
  unfoldable pub create_repository :
      Db₁
      → Db₂
      → (user id : ℕ) → RepositoryRow
      → (is_online : Bool) → (meanwhile : Db₂ → Db₂) → (answer : Result RepositoryValidationResult)
      → Db₂ × Result (Unit {0})
  unfolding find_owned settle_creation
  create_repository ds rs user id row is_online meanwhile answer =
      if not (looks_absolute row.absolute_path)
      then (rs, err path_not_absolute)
      else elim (find_owned devices ds user row.device_id) [
        | none ↦ (rs, err device_not_found)
        | some device ↦
            if is_revoked device.status
            then (rs, err device_revoked)
            else if not is_online
            then (rs, err device_offline)
            else elim (repositories.create rs id (set_enabled false row)) [
              | none ↦ (rs, err repository_exists)
              | some rs' ↦ settle_creation (meanwhile rs') id answer
            ]
      ]
