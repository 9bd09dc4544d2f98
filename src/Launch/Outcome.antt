-- ===== src/Launch/Outcome.antt =====
-- How the start of a job comes out.
use relaydock.Prelude.{
  ℕ, ◌≡◌, refl, Bool, true, false, some, List, [], ◌∷◌, map_option, ◌==◌, if◌then◌else◌,
  Option-cases, Bool-cases, none, inl, inr,
}
use relaydock.Errors.{Result-cases, Result, ok, err, AppError, unique_conflict, validation_error}
use relaydock.Jobs.{JobRow, Outgoing, to_agent}
use relaydock.Tables.{RowTable}
use relaydock.Tables.Writes.{update_row, find-update_row}
use relaydock.Devices.{DeviceRow, distinct_rows}
use relaydock.Repositories.{RepositoryRow, same_path}
use relaydock.Launch.{
  ActionRow, JobInput, JobSpec, new_job, start_message, not_dispatched, prepare, finish_start,
  launch, start_job,
}
use relaydock.Launch.Guards.{MayStart, prepare-MayStart}
use relaydock.Launch.Admission.{MayStart-prepare}

module _ {Db₁ Db₂ Db₃ Db₄ : Type 0} (devices : RowTable {Row = DeviceRow} distinct_rows Db₁)
    (repositories : RowTable same_path Db₂) (actions : RowTable {Row = ActionRow} distinct_rows Db₃)
    (jobs : RowTable {Row = JobRow} distinct_rows Db₄) where
  -- A job whose message was not delivered: its row is failed, if it is still there.
  abbrev pub IsUndelivered : Db₄ → (now id : ℕ) → Db₄ × Result ℕ × List Outgoing → Type 0
  IsUndelivered js now id out =
      out.1 ≡ ok id
      → (j : ℕ)
      → jobs.find out.0 j
        ≡ map_option (λ r. if j == id then not_dispatched now r else r) (jobs.find js j)

  pub data IsLaunch (ds : Db₁) (rs : Db₂) (acts : Db₃) (js : Db₄) (now id user repository : ℕ)
      (input : JobInput) (is_online readable sent : Bool) (meanwhile : Db₄ → Db₄)
      (out : Db₄ × Result ℕ × List Outgoing) : Type 0 where
    refused :
        (e : AppError)
        → ((row : RepositoryRow) (spec : JobSpec)
            → ¬ (
                MayStart devices repositories actions jobs ds rs acts user repository input
                  is_online row spec))
        → out ≡ (js, err e, [])
        → IsLaunch ds rs acts js now id user repository input is_online readable sent meanwhile out
    clashes :
        (row : RepositoryRow) (spec : JobSpec)
        → jobs.create js id (new_job id user row.device_id repository spec) ≡ none
        → out ≡ (js, err unique_conflict, [])
        → IsLaunch ds rs acts js now id user repository input is_online readable sent meanwhile out
    strands :
        (row : RepositoryRow) (spec : JobSpec) (js' : Db₄)
        → MayStart devices repositories actions jobs ds rs acts user repository input is_online row
            spec
        → jobs.create js id (new_job id user row.device_id repository spec) ≡ some js'
        → readable ≡ false
        → out ≡ (js', err validation_error, [])
        → IsLaunch ds rs acts js now id user repository input is_online readable sent meanwhile out
    tells :
        (row : RepositoryRow) (spec : JobSpec) (js' : Db₄)
        → MayStart devices repositories actions jobs ds rs acts user repository input is_online row
            spec
        → jobs.create js id (new_job id user row.device_id repository spec) ≡ some js'
        → readable ≡ true
        → out.2 ≡ to_agent row.device_id (start_message id repository row spec) ∷ []
        → (sent ≡ true → (out.0 ≡ meanwhile js') × (out.1 ≡ ok id))
        → (sent ≡ false → IsUndelivered (meanwhile js') now id out)
        → IsLaunch ds rs acts js now id user repository input is_online readable sent meanwhile out

  finished :
      (js : Db₄) (now id : ℕ) (sent : Bool)
      → (sent ≡ true
          → ((finish_start devices repositories actions jobs js now id sent).0 ≡ js)
            × ((finish_start devices repositories actions jobs js now id sent).1 ≡ ok id))
        × (sent ≡ false
            → (finish_start devices repositories actions jobs js now id sent).1 ≡ ok id
            → (j : ℕ)
            → jobs.find (finish_start devices repositories actions jobs js now id sent).0 j
              ≡ map_option (λ r. if j == id then not_dispatched now r else r) (jobs.find js j))
  unfolding finish_start
  finished js now id true = (λ e. (refl, refl), λ e. absurd (cc))
  finished js now id false = (
    λ e. absurd (cc),
    λ e answered j. elim (Result-cases (update_row jobs js id (not_dispatched now))) [
      | inl (js', f) ↦ rw f (find-update_row jobs js js' id (not_dispatched now) j f)
      | inr (x, f) ↦ absurd (cc (rw f at answered))
    ],
  )

  launch-IsLaunch :
      (ds : Db₁) (rs : Db₂) (acts : Db₃) (js : Db₄) (now id user repository : ℕ) (input : JobInput)
      (is_online readable sent : Bool) (meanwhile : Db₄ → Db₄) (row : RepositoryRow)
      (spec : JobSpec)
      → MayStart devices repositories actions jobs ds rs acts user repository input is_online row
          spec
      → IsLaunch ds rs acts js now id user repository input is_online readable sent meanwhile (
          launch devices repositories actions jobs js now id user repository row spec readable sent
            meanwhile)
  unfolding launch
  launch-IsLaunch ds rs acts js now id user repository input is_online readable sent meanwhile row
        spec may =
      elim (Option-cases (jobs.create js id (new_job id user row.device_id repository spec))) [
        | inl e ↦ rw (e, launch) (clashes row spec e refl)
        | inr (js', e) ↦ elim (Bool-cases readable) [
          | inr bad ↦ rw (e, launch) (rw bad (strands row spec js' may e refl refl))
          | inl good ↦
              let end = finished (meanwhile js') now id sent in
              rw (e, launch) (rw good (tells row spec js' may e refl refl end.0 end.1))
        ]
      ]

  -- A request to start a job comes out in one of four ways. It is refused, and then nothing is
  -- written or sent, and it had to be: a start asks that the repository is enabled, its device is
  -- the user's, not revoked and online, and the command fits and comes from an action of the
  -- repository that is confirmed if it has to be, or else from the request, if the repository
  -- allows that; its working directory is then the normal form of what was asked for, which on a
  -- system whose absolute paths start with a slash stays inside the repository. Or the key of the
  -- new job is taken, and again nothing happens. Or one queued job is created, and one agent is
  -- told to start it; if that was not delivered, and the request succeeds, the job has failed,
  -- whatever its status was by then. Or the repository's stored lists cannot be read: then the
  -- request fails, but the job stays queued and no agent is told.
  pub start_job-IsLaunch :
      (ds : Db₁) (rs : Db₂) (acts : Db₃) (js : Db₄) (now id user repository : ℕ) (input : JobInput)
      (is_online readable sent : Bool) (meanwhile : Db₄ → Db₄)
      → IsLaunch ds rs acts js now id user repository input is_online readable sent meanwhile (
          start_job devices repositories actions jobs ds rs acts js now id user repository input
            is_online readable sent meanwhile)
  unfolding start_job
  start_job-IsLaunch ds rs acts js now id user repository input is_online readable sent meanwhile =
      elim (Result-cases
        (prepare devices repositories actions jobs ds rs acts user repository input is_online)) [
          | inr (e, f) ↦
              rw (f, start_job)
                (refused e
                  (λ row spec may. cc (
                    f,
                    MayStart-prepare devices repositories actions jobs ds rs acts user repository
                        input is_online row spec may,
                  ))
                  refl)
          | inl (x, f) ↦
              rw (f, start_job)
                (launch-IsLaunch ds rs acts js now id user repository input is_online readable sent
                  meanwhile x.0 x.1
                  (prepare-MayStart devices repositories actions jobs ds rs acts user repository
                    input is_online x.0 x.1 f))
        ]
