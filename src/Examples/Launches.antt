-- ===== src/Examples/Launches.antt =====
-- A repository whose path is changed, and jobs that are started in it.
use relaydock.Prelude.{◌≡◌, refl, String, Bool, true, false, none, some, [], ◌∷◌}
use relaydock.Protocol.{online}
use relaydock.Errors.{ok, err, validation_timeout, working_directory_invalid}
use relaydock.Jobs.{JobRow}
use relaydock.Tables.{RowTable}
use relaydock.Tables.Slots.{Slots, slot, first_slot, update_slots}
use relaydock.Tables.Listed.{listed_rows}
use relaydock.Tables.Writes.{update_row}
use relaydock.Pairing.{Text, codes}
use relaydock.Devices.{DeviceRow, distinct_rows}
use relaydock.Repositories.{RepositoryRow, same_path, set_enabled, change_path}
use relaydock.Repositories.Changes.{IsChange, change_path-IsChange}
use relaydock.Launch.{ActionRow, custom, start_job}
use relaydock.Launch.Outcome.{IsLaunch, start_job-IsLaunch}
use relaydock.Launch.WorkingDirectory.{normalize_working_directory}

abbrev repositories : RowTable same_path (Slots RepositoryRow)
repositories = listed_rows same_path

abbrev devices : RowTable {Row = DeviceRow} distinct_rows (Slots DeviceRow)
devices = listed_rows distinct_rows

abbrev actions : RowTable {Row = ActionRow} distinct_rows (Slots ActionRow)
actions = listed_rows distinct_rows

abbrev jobs : RowTable {Row = JobRow} distinct_rows (Slots JobRow)
jobs = listed_rows distinct_rows

abbrev project : RepositoryRow
project = record {
  device_id = 0;
  name = "project";
  absolute_path = "/srv/project";
  description = none;
  enabled = true;
  allow_custom_commands = true;
  shell = "/bin/zsh";
  shell_args = "-lc" ∷ [];
  inherited_environment = "PATH" ∷ [];
  is_git_repository = some true;
  branch = some "main";
  repository_root = some "/srv/project";
}

abbrev laptop : DeviceRow
laptop = record {
  user_id = 5;
  input = record {
    name = "laptop";
    platform = "darwin";
    architecture = "arm64";
    agent_version = "1.0.0";
  };
  status = online;
  last_seen_at = none;
}

abbrev absolute : String → Bool
absolute s = true

abbrev disabled : Slots RepositoryRow
disabled = some (set_enabled false project) ∷ []

disables : update_row repositories (some project ∷ []) 0 (set_enabled false) ≡ ok disabled
unfolding update_row listed_rows slot first_slot update_slots
disables = refl

change_path-IsChange_example :
    IsChange devices repositories absolute disabled 0 project none (err validation_timeout) (
      change_path devices repositories absolute
        (some project ∷ [])
        0
        project
        none
        (λ rs. rs)
        (err validation_timeout))
change_path-IsChange_example =
    change_path-IsChange devices repositories absolute (some project ∷ []) disabled 0 project none
      (λ rs. rs) (err validation_timeout) disables

abbrev tests : Text
tests = codes " src\\./tests/ "

inside : normalize_working_directory (some tests) ≡ ok (codes "src/tests/")
unfolding normalize_working_directory
inside = refl

outside : normalize_working_directory (some (codes "src\\..\\..")) ≡ err working_directory_invalid
unfolding normalize_working_directory
outside = refl

-- The drive is hidden from the test for absolute paths, which comes before the normalisation.
drive_path : normalize_working_directory (some (codes "./C:/x")) ≡ ok (codes "C:/x")
unfolding normalize_working_directory
drive_path = refl

start_job-IsLaunch_example :
    IsLaunch devices repositories actions jobs
      (some laptop ∷ [])
      (some project ∷ [])
      []
      []
      100
      0
      5
      0
      (custom "make test" tests false false)
      true
      true
      true
      (λ js. js)
      (start_job devices repositories actions jobs
        (some laptop ∷ [])
        (some project ∷ [])
        []
        []
        100
        0
        5
        0
        (custom "make test" tests false false)
        true
        true
        true
        (λ js. js))
start_job-IsLaunch_example =
    start_job-IsLaunch devices repositories actions jobs (some laptop ∷ []) (some project ∷ []) []
      [] 100 0 5 0 (custom "make test" tests false false) true true true (λ js. js)
