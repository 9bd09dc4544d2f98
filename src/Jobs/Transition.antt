-- ===== src/Jobs/Transition.antt =====
-- `transitionFromAgent`, `requestCancellation`, `forwardInput` and `forwardResize` of
-- apps/server/src/services/jobs.ts. What `sendToAgent` answers is an argument, as is the time.
pub mod Laws
pub mod Histories
use relaydock.Prelude.{
  ℕ, ℤ, String, Bool, true, false, not, ◌&&◌, ◌||◌, Option, none, some, List, [], ◌∷◌, ◌==◌,
  if◌then◌else◌, is_some,
}
use relaydock.Lifecycle.{
  JobStatus, queued, running, cancelled, status_eq, can_transition_job, is_terminal_job_status,
}
use relaydock.Protocol.{ServerToClientMessage, ServerToAgentMessage}
use relaydock.Errors.{
  Result, ok, err, AppError, job_transition_invalid, job_not_found, job_not_interactive,
  device_offline, record_not_found,
}
use relaydock.Jobs.{JobRow, Outgoing, broadcasts, to_agent, notifies}
use relaydock.Jobs.Table.{JobTable}

pub record Options : Type 0 where
  pub detail : Option String
  pub exit_code : Option ℤ

-- `…(x === undefined ? {} : { column: x })`
abbrev pub given {ℓ} : {A : Type ℓ} → Option A → Option A → Option A
given none old = old
given (some a) old = some a

-- The `data` of the update, as a change of the row; `current` is the row that was read.
unfoldable pub transition_data : ℕ → JobStatus → Options → JobRow → JobRow → JobRow
transition_data now target options current row = record row {
  status = target;
  status_detail = given options.detail row.status_detail;
  exit_code = given options.exit_code row.exit_code;
  started_at =
      if status_eq target running && not (is_some current.started_at)
      then some now
      else row.started_at;
  finished_at = if is_terminal_job_status target then some now else row.finished_at;
}

abbrev pub status_message : (job : ℕ) → JobRow → ServerToClientMessage
status_message job row = ServerToClientMessage.job_status job row.status (some row.exit_code)

-- The `data` of a cancellation before the start.
abbrev pub cancelled_data : ℕ → JobRow → JobRow
cancelled_data now row = record row {
  status = cancelled;
  finished_at = some now;
  status_detail = some "Cancelled before start.";
}

module _ {Db : Type 0} (table : JobTable Db) (has_notifier : Bool) where
  open table use {find, update}

  -- The second half, from the update on.
  unfoldable pub write_transition :
      Db
      → ℕ
      → (job : ℕ) → JobStatus
      → Options
      → JobRow
      → Db × Result (Option JobRow) × List Outgoing
  unfolding transition_data
  write_transition db now job target options current =
      let db' = update db job (transition_data now target options current) in
      elim (find db' job) [
        | none ↦ (db', err record_not_found, [])
        | some updated ↦ (
          db',
          ok (some updated),
          broadcasts updated.user_id job (status_message job updated)
              ∷ (if not (status_eq updated.status current.status) && has_notifier
                  then notifies updated ∷ []
                  else []),
        )
      ]

  unfoldable pub check_transition :
      Db
      → ℕ
      → (device job : ℕ) → JobStatus
      → Options
      → JobRow
      → Db × Result (Option JobRow) × List Outgoing
  check_transition db now device job target options current =
      if not (current.device_id == device)
      then (db, ok none, [])
      else if is_terminal_job_status current.status
      then (db, ok (some current), [])
      else if not (can_transition_job current.status target)
      then (db, err (job_transition_invalid current.status target), [])
      else write_transition db now job target options current

  unfoldable pub transition_from_agent :
      Db → ℕ → (device job : ℕ) → JobStatus → Options → Db × Result (Option JobRow) × List Outgoing
  unfolding check_transition
  transition_from_agent db now device job target options = elim (find db job) [
    | none ↦ (db, ok none, [])
    | some current ↦ check_transition db now device job target options current
  ]

  -- `findFirst({ where: { id, userId } })`
  unfoldable pub find_owned : Db → (user job : ℕ) → Option JobRow
  find_owned db user job = elim (find db job) [
    | none ↦ none
    | some row ↦ if row.user_id == user then some row else none
  ]

  unfoldable pub cancel_queued : Db → ℕ → (user job : ℕ) → Db × Result JobRow × List Outgoing
  cancel_queued db now user job =
      let db' = update db job (cancelled_data now) in
      elim (find db' job) [
        | none ↦ (db', err record_not_found, [])
        | some row ↦ (
          db',
          ok row,
          broadcasts user job (ServerToClientMessage.job_status job cancelled (some row.exit_code))
              ∷ [],
        )
      ]

  -- `sent` is the answer of `sendToAgent` to `job.cancel`, which a job past the queue asks for.
  unfoldable pub cancel_started :
      Db → (device job : ℕ) → (sent : Bool) → Db × Result JobRow × List Outgoing
  cancel_started db device job sent =
      let out = to_agent device (ServerToAgentMessage.job_cancel job) ∷ [] in
      if not sent
      then (db, err device_offline, out)
      else let db' =
          update db job λ row. record row { status_detail = some "Cancellation requested." } in
        elim (find db' job) [
          | none ↦ (db', err record_not_found, out)
          | some row ↦ (db', ok row, out)
        ]

  unfoldable pub request_cancellation :
      Db → ℕ → (user job : ℕ) → (sent : Bool) → Db × Result JobRow × List Outgoing
  unfolding find_owned cancel_queued cancel_started
  request_cancellation db now user job sent = elim (find_owned db user job) [
    | none ↦ (db, err job_not_found, [])
    | some row ↦
        if is_terminal_job_status row.status
        then (db, ok row, [])
        else if status_eq row.status queued
        then cancel_queued db now user job
        else cancel_started db row.device_id job sent
  ]

  -- What is sent to the job's device, and the answer once `sent` is known.
  unfoldable pub forward_input :
      Db
      → (user job input_sequence : ℕ) → String
      → (sent : Bool) → List Outgoing × Result (Unit {0})
  unfolding find_owned
  forward_input db user job input_sequence text sent = elim (find_owned db user job) [
    | none ↦ ([], err job_not_found)
    | some row ↦
        if not row.interactive || is_terminal_job_status row.status
        then ([], err job_not_interactive)
        else (
          to_agent row.device_id (ServerToAgentMessage.job_input job input_sequence text) ∷ [],
          if sent then ok tt else err device_offline,
        )
  ]

  unfoldable pub forward_resize :
      Db → (user job columns rows : ℕ) → (sent : Bool) → List Outgoing × Result (Unit {0})
  unfolding find_owned
  forward_resize db user job columns rows sent = elim (find_owned db user job) [
    | none ↦ ([], err job_not_found)
    | some row ↦ if not row.interactive || is_terminal_job_status row.status then ([], ok tt) else (
      to_agent row.device_id (ServerToAgentMessage.job_resize job columns rows) ∷ [],
      if sent then ok tt else err device_offline,
    )
  ]
