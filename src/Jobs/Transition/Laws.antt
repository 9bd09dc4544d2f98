-- ===== src/Jobs/Transition/Laws.antt =====
-- What the calls on a job's status do to the rows of the table, alone and in any sequence.
use relaydock.Prelude.{
  ℕ, Bool, true, false, not, Option, some, List, ◌==◌, ◌≡◌, is_some, arith, Option-cases,
  Bool-cases, inl, inr, subst, if_elim, ==_refl,
}
use relaydock.Lifecycle.{
  JobStatus, queued, running, status_eq, can_transition_job, is_terminal_job_status,
}
use relaydock.Lifecycle.Graph.{status_eq_iff}
use relaydock.Errors.{Result}
use relaydock.Jobs.{JobRow, Outgoing}
use relaydock.Jobs.Table.{JobTable}
use relaydock.Jobs.Transition.{
  Options, transition_data, write_transition, check_transition, transition_from_agent, find_owned,
  cancel_queued, cancel_started, request_cancellation,
}

-- How a call may change a row: its status along the transition table, a terminal row not at all,
-- its owners never, and the time of its start only once.
pub record IsMove (row row' : JobRow) : Type 0 where
  pub permitted : can_transition_job row.status row'.status ≡ true
  pub final : is_terminal_job_status row.status ≡ true → row' ≡ row
  pub same_user : row'.user_id ≡ row.user_id
  pub same_device : row'.device_id ≡ row.device_id
  pub started_once : is_some row.started_at ≡ true → row'.started_at ≡ row.started_at

-- The row has a time of finishing exactly if it is terminal, and a running job has a start.
pub record IsStamped (row : JobRow) : Type 0 where
  pub finished : is_some row.finished_at ≡ is_terminal_job_status row.status
  pub started : row.status ≡ running → is_some row.started_at ≡ true

IsMove-refl : (row : JobRow) → IsMove row row
unfolding can_transition_job
IsMove-refl row = ground (arith, status_eq_iff row.status row.status)

transition_data-IsMove :
    (now : ℕ) (target : JobStatus) (options : Options) (row : JobRow)
    → is_terminal_job_status row.status ≡ false
    → can_transition_job row.status target ≡ true
    → IsMove row (transition_data now target options row row)
unfolding transition_data
transition_data-IsMove now target options row live e = ground arith

transition_data-IsStamped :
    (now : ℕ) (target : JobStatus) (options : Options) (row : JobRow)
    → is_terminal_job_status row.status ≡ false
    → IsStamped row
    → IsStamped (transition_data now target options row row)
unfolding transition_data
transition_data-IsStamped now target options row live s =
    ground (arith, status_eq_iff target running)

-- What becomes of the row of a job.
pub record Becomes {Db : Type 0} (table : JobTable Db) (db' : Db) (j : ℕ) (row : JobRow)
    : Type 0 where
  pub row' : JobRow
  pub found : table.find db' j ≡ some row'
  pub moved : IsMove row row'
  pub stamped : IsStamped row → IsStamped row'

-- The calls that change the status of a job; `sent` is what the hub answers to the cancellation.
pub data ServiceCall : Type 0 where
  transits : (now device job : ℕ) → JobStatus → Options → ServiceCall
  cancels : (now user job : ℕ) (sent : Bool) → ServiceCall

module _ {Db : Type 0} (table : JobTable Db) (has_notifier : Bool) where
  open table use {find, update, find-update}

  stays : (db : Db) (j : ℕ) (row : JobRow) → find db j ≡ some row → Becomes table db j row
  stays db j row found = record {
    row' = row;
    found = found;
    moved = IsMove-refl row;
    stamped = λ s. s;
  }

  changes :
      (db : Db) (job j : ℕ) (row current : JobRow) (f : JobRow → JobRow)
      → find db job ≡ some current
      → find db j ≡ some row
      → IsMove current (f current)
      → (IsStamped current → IsStamped (f current))
      → Becomes table (update db job f) j row
  changes db job j row current f at_job at_j move stamp = elim (Bool-cases (job == j)) [
    | inl same ↦
        let e : current ≡ row = ground arith in
        record {
          row' = f current;
          found = rw (find-update, same) (ground arith);
          moved = subst (λ r. IsMove r (f current)) e move;
          stamped = subst (λ r. IsStamped r → IsStamped (f current)) e stamp;
        }
    | inr other ↦ stays (update db job f) j row (rw (find-update, other) at_j)
  ]

  write-Becomes :
      (db : Db) (now job j : ℕ) (target : JobStatus) (options : Options) (row current : JobRow)
      → find db job ≡ some current
      → find db j ≡ some row
      → is_terminal_job_status current.status ≡ false
      → can_transition_job current.status target ≡ true
      → Becomes table
          (write_transition table has_notifier db now job target options current).0
          j
          row
  unfolding write_transition
  write-Becomes db now job j target options row current at_job at_j live e =
      let f = transition_data now target options current in
      rw (find-update, ==_refl job, at_job, write_transition)
        (changes db job j row current f at_job at_j
          (transition_data-IsMove now target options current live e)
          (transition_data-IsStamped now target options current live))

  pub transit-Becomes :
      (db : Db) (now device job j : ℕ) (target : JobStatus) (options : Options) (row : JobRow)
      → find db j ≡ some row
      → Becomes table
          (transition_from_agent table has_notifier db now device job target options).0
          j
          row
  unfolding transition_from_agent check_transition
  transit-Becomes db now device job j target options row at_j = elim (Option-cases (find db job)) [
    | inl absent ↦ rw (absent, transition_from_agent) (stays db j row at_j)
    | inr (current, at_job) ↦
        rw (at_job, transition_from_agent)
          (if_elim At (not (current.device_id == device)) _ _ (λ _. stays db j row at_j)
            λ _.
              if_elim At (is_terminal_job_status current.status) _ _ (λ _. stays db j row at_j)
                λ live.
                  if_elim At (not (can_transition_job current.status target)) _ _
                    (λ _. stays db j row at_j)
                    λ e.
                      write-Becomes db now job j target options row current at_job at_j live
                        (ground arith))
  ]
    where
      At : Db × Result (Option JobRow) × List Outgoing → Type 0
      At r = Becomes table r.0 j row

  -- The row that the owner finds is the row of the job.
  find_owned-eq :
      (db : Db) (user job : ℕ) (row : JobRow)
      → find_owned table has_notifier db user job ≡ some row
      → find db job ≡ some row
  unfolding find_owned
  find_owned-eq db user job row e = ground arith

  cancel_queued-Becomes :
      (db : Db) (now user job j : ℕ) (row current : JobRow)
      → find db job ≡ some current
      → find db j ≡ some row
      → current.status ≡ queued
      → Becomes table (cancel_queued table has_notifier db now user job).0 j row
  unfolding cancel_queued can_transition_job is_terminal_job_status
  cancel_queued-Becomes db now user job j row current at_job at_j waiting =
      rw (find-update, ==_refl job, at_job, cancel_queued)
        (changes db job j row current _ at_job at_j (ground arith) (λ s. ground arith))

  cancel_started-Becomes :
      (db : Db) (device job j : ℕ) (sent : Bool) (row current : JobRow)
      → find db job ≡ some current
      → find db j ≡ some row
      → is_terminal_job_status current.status ≡ false
      → Becomes table (cancel_started table has_notifier db device job sent).0 j row
  unfolding cancel_started
  cancel_started-Becomes db device job j false row current at_job at_j live = stays db j row at_j
  cancel_started-Becomes db device job j true row current at_job at_j live =
      rw (find-update, ==_refl job, at_job, cancel_started)
        (changes db job j row current _ at_job at_j
          (let same = IsMove-refl current in ground (arith, same.permitted)) (λ s. ground arith))

  pub cancel-Becomes :
      (db : Db) (now user job j : ℕ) (sent : Bool) (row : JobRow)
      → find db j ≡ some row
      → Becomes table (request_cancellation table has_notifier db now user job sent).0 j row
  unfolding request_cancellation
  cancel-Becomes db now user job j sent row at_j =
      elim (Option-cases (find_owned table has_notifier db user job)) [
        | inl absent ↦ rw (absent, request_cancellation) (stays db j row at_j)
        | inr (current, owned) ↦
            let at_job = find_owned-eq db user job current owned in
            rw (owned, request_cancellation)
              (if_elim At (is_terminal_job_status current.status) _ _ (λ _. stays db j row at_j)
                λ live.
                  if_elim At (status_eq current.status queued) _ _
                    (λ waiting.
                      cancel_queued-Becomes db now user job j row current at_job at_j
                        ((status_eq_iff _ _).0 waiting))
                    λ _.
                      cancel_started-Becomes db current.device_id job j sent row current at_job at_j
                        live)
      ]
    where
      At : Db × Result JobRow × List Outgoing → Type 0
      At r = Becomes table r.0 j row
