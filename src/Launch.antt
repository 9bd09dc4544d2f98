-- ===== src/Launch.antt =====
-- The start of a job: the handler of `/api/repositories/:repositoryId/jobs` in
-- apps/server/src/routes/jobs.ts, past the checks of the session and of the body. The presence of
-- the agent, the answer of `sendToAgent` and what happens to the jobs until it comes are arguments.
pub mod Checks
pub mod Guards
pub mod Admission
pub mod Outcome
pub mod WorkingDirectory
use Prim.Native.String.{len}
use relaydock.Prelude.{
  ℕ, String, Bool, true, false, not, ◌&&◌, Option, none, some, List, [], ◌∷◌, ◌==◌, ltb,
  if◌then◌else◌,
}
use relaydock.Lifecycle.{queued, failed}
use relaydock.Protocol.{JobStart, ServerToAgentMessage}
use relaydock.Errors.{
  Result, ok, err, ◌>>=◌, or_fail, require, AppError, repository_not_found, repository_disabled,
  device_revoked, device_offline, action_not_found, confirmation_required, custom_commands_disabled,
  command_too_large, unique_conflict, validation_error,
}
use relaydock.Jobs.{JobRow, Outgoing, to_agent}
use relaydock.Tables.{RowTable}
use relaydock.Tables.Writes.{update_row}
use relaydock.Pairing.{Text}
use relaydock.Devices.{DeviceRow, distinct_rows, find_owned, is_revoked}
use relaydock.Repositories.{RepositoryRow, same_path}
use relaydock.Launch.WorkingDirectory.{safe_working_directory}

pub record ActionRow : Type 0 where
  pub repository_id : ℕ
  pub name : String
  pub command : String
  pub working_directory : Text
  pub interactive : Bool
  pub persistent : Bool
  pub confirmation_required : Bool

-- The parsed body; the schema of a custom command asks for its confirmation.
pub data JobInput : Type 0 where
  by_action : (action : ℕ) → (confirmation : Bool) → JobInput
  custom :
      (command : String) → (working_directory : Text) → (interactive persistent : Bool) → JobInput

pub record JobSpec : Type 0 where
  pub action_id : Option ℕ
  pub command : String
  pub working_directory : Text
  pub interactive : Bool
  pub persistent : Bool

abbrev pub max_command_bytes : ℕ
max_command_bytes = 16384

abbrev pub spec_of : (action : ℕ) → ActionRow → JobSpec
spec_of id action = record {
  action_id = some id;
  command = action.command;
  working_directory = action.working_directory;
  interactive = action.interactive;
  persistent = action.persistent;
}

abbrev pub new_job : (id user device repository : ℕ) → JobSpec → JobRow
new_job id user device repository spec = record {
  id = id;
  user_id = user;
  device_id = device;
  repository_id = repository;
  status = queued;
  interactive = spec.interactive;
  exit_code = none;
  status_detail = none;
  retained_output_bytes = 0;
  output_truncated = false;
  started_at = none;
  finished_at = none;
}

abbrev pub start_message : (job repository : ℕ) → RepositoryRow → JobSpec → ServerToAgentMessage
start_message job repository row spec = ServerToAgentMessage.job_start (record {
  job_id = job;
  repository_id = repository;
  repository_path = row.absolute_path;
  command = spec.command;
  working_directory = spec.working_directory;
  interactive = spec.interactive;
  persistent = spec.persistent;
  shell = row.shell;
  shell_args = row.shell_args;
  inherited_environment = row.inherited_environment;
  columns = 80;
  rows = 24;
})

abbrev pub not_dispatched : (now : ℕ) → JobRow → JobRow
not_dispatched now row = record row {
  status = failed;
  status_detail = some "Device disconnected before dispatch.";
  finished_at = some now;
}

module _ {Db₁ Db₂ Db₃ Db₄ : Type 0} (devices : RowTable {Row = DeviceRow} distinct_rows Db₁)
    (repositories : RowTable same_path Db₂) (actions : RowTable {Row = ActionRow} distinct_rows Db₃)
    (jobs : RowTable {Row = JobRow} distinct_rows Db₄) where
  -- `findFirst({ where: { id, repositoryId } })`
  unfoldable pub find_action : Db₃ → (repository action : ℕ) → Option ActionRow
  find_action acts repository action = elim (actions.find acts action) [
    | none ↦ none
    | some row ↦ if row.repository_id == repository then some row else none
  ]

  unfoldable pub action_spec :
      Db₃ → (repository action : ℕ) → (confirmation : Bool) → Result JobSpec
  unfolding find_action
  action_spec acts repository action confirmation = do
    row ← or_fail (find_action acts repository action) action_not_found
    u ← require (not (row.confirmation_required && not confirmation)) confirmation_required
    ok (spec_of action row)

  unfoldable pub custom_spec :
      RepositoryRow
      → (command : String) → (working_directory : Text) → (interactive persistent : Bool)
      → Result JobSpec
  unfolding safe_working_directory
  custom_spec row command working_directory interactive persistent = do
    u ← require row.allow_custom_commands custom_commands_disabled
    directory ← safe_working_directory working_directory
    ok (record {
      action_id = none;
      command = command;
      working_directory = directory;
      interactive = interactive;
      persistent = persistent;
    })

  unfoldable pub resolve_spec : Db₃ → (repository : ℕ) → RepositoryRow → JobInput → Result JobSpec
  unfolding action_spec custom_spec
  resolve_spec acts repository row (by_action action confirmation) =
      action_spec acts repository action confirmation
  resolve_spec acts repository row (custom command directory interactive persistent) =
      custom_spec row command directory interactive persistent

  -- The repository with its device, if it is the user's.
  unfoldable pub check_repository :
      Db₁ → Db₂ → (user repository : ℕ) → (is_online : Bool) → Result RepositoryRow
  unfolding find_owned
  check_repository ds rs user repository is_online = do
    row ← or_fail (repositories.find rs repository) repository_not_found
    device ← or_fail (find_owned devices ds user row.device_id) repository_not_found
    u ← require row.enabled repository_disabled
    v ← require (not (is_revoked device.status)) device_revoked
    w ← require is_online device_offline
    ok row

  -- All that is checked before anything is written.
  unfoldable pub prepare :
      Db₁
      → Db₂
      → Db₃
      → (user repository : ℕ) → JobInput
      → (is_online : Bool) → Result (RepositoryRow × JobSpec)
  unfolding check_repository resolve_spec
  prepare ds rs acts user repository input is_online = do
    row ← check_repository ds rs user repository is_online
    spec ← resolve_spec acts repository row input
    u ← require (not (ltb max_command_bytes (len spec.command))) command_too_large
    ok (row, spec)

  -- What follows the answer of `sendToAgent`.
  unfoldable pub finish_start : Db₄ → (now id : ℕ) → (sent : Bool) → Db₄ × Result ℕ
  finish_start js now id sent =
      if sent then (js, ok id) else elim (update_row jobs js id (not_dispatched now)) [
        | ok js' ↦ (js', ok id)
        | err e ↦ (js, err e)
      ]

  -- `readable` says whether `jsonStringArray` takes the stored arguments of the shell and names of
  -- the environment.
  unfoldable pub launch :
      Db₄
      → (now id user repository : ℕ) → RepositoryRow
      → JobSpec
      → (readable sent : Bool) → (meanwhile : Db₄ → Db₄) → Db₄ × Result ℕ × List Outgoing
  unfolding finish_start
  launch js now id user repository row spec readable sent meanwhile =
      elim (jobs.create js id (new_job id user row.device_id repository spec)) [
        | none ↦ (js, err unique_conflict, [])
        | some js' ↦
            if not readable
            then (js', err validation_error, [])
            else let (js'', answer) = finish_start (meanwhile js') now id sent in
              (js'', answer, to_agent row.device_id (start_message id repository row spec) ∷ [])
      ]

  unfoldable pub start_job :
      Db₁
      → Db₂
      → Db₃
      → Db₄
      → (now id user repository : ℕ) → JobInput
      → (is_online readable sent : Bool) → (meanwhile : Db₄ → Db₄) → Db₄ × Result ℕ × List Outgoing
  unfolding prepare launch
  start_job ds rs acts js now id user repository input is_online readable sent meanwhile =
      elim (prepare ds rs acts user repository input is_online) [
        | err e ↦ (js, err e, [])
        | ok (row, spec) ↦ launch js now id user repository row spec readable sent meanwhile
      ]
