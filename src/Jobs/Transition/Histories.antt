-- ===== src/Jobs/Transition/Histories.antt =====
-- Sequences of calls on the table of jobs, and two calls that interleave.
use relaydock.Prelude.{
  ℕ, Bool, true, not, ◌&&◌, Option, some, List, [], ◌∷◌, ◌==◌, ◌≡◌, ◌≢◌, refl, ◌∙◌, is_some, arith,
  map_option, ap, ==_refl, All, if_elim,
}
use relaydock.Lifecycle.{
  JobStatus, queued, cancelled, status_eq, can_transition_job, is_terminal_job_status,
}
use relaydock.Lifecycle.Graph.{Reaches, here, ◌▸◌, status_eq_iff}
use relaydock.Protocol.{ServerToClientMessage}
use relaydock.Errors.{Result, ok}
use relaydock.Jobs.{JobRow, Outgoing, broadcasts, notifies}
use relaydock.Jobs.Table.{JobTable}
use relaydock.Jobs.Transition.{
  Options, transition_data, write_transition, check_transition, transition_from_agent, find_owned,
  cancel_queued, cancelled_data, request_cancellation,
}
use relaydock.Jobs.Transition.Laws.{
  IsMove, IsStamped, Becomes, ServiceCall, transits, cancels, transit-Becomes, cancel-Becomes,
}

-- What a sequence of calls has made of a row.
pub record IsOutcome (row row' : JobRow) : Type 0 where
  pub path : Reaches row.status row'.status
  pub final : is_terminal_job_status row.status ≡ true → row' ≡ row
  pub same_user : row'.user_id ≡ row.user_id
  pub same_device : row'.device_id ≡ row.device_id
  pub started_once : is_some row.started_at ≡ true → row'.started_at ≡ row.started_at
  pub stamped : IsStamped row'

-- A notice to the pusher is of the row as it now stands, under another status than before.
abbrev pub IsQuiet : JobRow → Option JobRow → Outgoing → Type 0
IsQuiet before now (notifies row) = (now ≡ some row) × (row.status ≢ before.status)
IsQuiet before now _ = Unit

module _ {Db : Type 0} (table : JobTable Db) (has_notifier : Bool) where
  open table use {find, update, find-update}

  unfoldable pub perform : Db → ServiceCall → Db
  perform db (transits now device job target options) =
      (transition_from_agent table has_notifier db now device job target options).0
  perform db (cancels now user job sent) =
      (request_cancellation table has_notifier db now user job sent).0

  unfoldable pub perform_all : Db → List ServiceCall → Db
  perform_all db [] = db
  perform_all db (c ∷ cs) = perform_all (perform db c) cs

  perform-Becomes :
      (db : Db) (c : ServiceCall) (j : ℕ) (row : JobRow)
      → find db j ≡ some row
      → Becomes table (perform db c) j row
  unfolding perform
  perform-Becomes db (transits now device job target options) j row at_j =
      transit-Becomes table has_notifier db now device job j target options row at_j
  perform-Becomes db (cancels now user job sent) j row at_j =
      cancel-Becomes table has_notifier db now user job j sent row at_j

  IsOutcome-cons :
      {row row₁ row₂ : JobRow} → IsMove row row₁ → IsOutcome row₁ row₂ → IsOutcome row row₂
  IsOutcome-cons m o = record {
    path = m.permitted ▸ o.path;
    final = λ over. let e = m.final over in o.final (rw e over) ∙ e;
    same_user = o.same_user ∙ m.same_user;
    same_device = o.same_device ∙ m.same_device;
    started_once = ground arith;
    stamped = o.stamped;
  }

  -- Through any sequence of transitions and cancellations, by whatever device or user, a job that
  -- stands stamped in the table stays there under its owners, its status follows the transition table, a terminal job is not
  -- changed at all, a start is stamped once, and a time of finishing stands exactly on terminal jobs.
  pub history :
      (db : Db) (cs : List ServiceCall) (j : ℕ) (row : JobRow)
      → find db j ≡ some row
      → IsStamped row
      → (row' : JobRow) × (find (perform_all db cs) j ≡ some row') × IsOutcome row row'
  unfolding perform_all
  history db [] j row at_j stamped = (
    row,
    at_j,
    record {
      path = here;
      final = λ over. refl;
      same_user = refl;
      same_device = refl;
      started_once = λ s. refl;
      stamped = stamped;
    },
  )
  history db (c ∷ cs) j row at_j stamped =
      let b = perform-Becomes db c j row at_j in
      let (row', found, outcome) = history (perform db c) cs j b.row' b.found (b.stamped stamped) in
      (row', found, IsOutcome-cons b.moved outcome)

  write-IsQuiet :
      (db : Db) (now job : ℕ) (target : JobStatus) (options : Options) (row : JobRow)
      → find db job ≡ some row
      → let (db', answer, out) =
          write_transition table has_notifier db now job target options row in
        All (IsQuiet row (find db' job)) out
  unfolding write_transition transition_data
  write-IsQuiet db now job target options row at_job =
      rw (find-update, ==_refl job, at_job, write_transition)
        (
          tt,
          if_elim
              (All
                (IsQuiet row (find (update db job (transition_data now target options row)) job)))
              (not (status_eq target row.status) && has_notifier) _ _
              (λ changed. (
                (
                  rw (find-update, ==_refl job, at_job) refl,
                  λ same. ground (arith, status_eq_iff target row.status),
                ),
                tt,
              ))
              (λ _. tt),
        )

  -- A transition notifies only of a change: whatever row it hands to the notifier is the row as it
  -- now stands in the table, and its status is not the one that the job had.
  pub notified_of_change :
      (db : Db) (now device job : ℕ) (target : JobStatus) (options : Options) (row : JobRow)
      → find db job ≡ some row
      → let (db', answer, out) =
          transition_from_agent table has_notifier db now device job target options in
        All (IsQuiet row (find db' job)) out
  unfolding transition_from_agent check_transition write_transition
  notified_of_change db now device job target options row at_job =
      rw (at_job, transition_from_agent)
        (if_elim At (not (row.device_id == device)) _ _ (λ _. tt)
          λ _.
            if_elim At (is_terminal_job_status row.status) _ _ (λ _. tt)
              λ _.
                if_elim At (not (can_transition_job row.status target)) _ _ (λ _. tt)
                  λ _. write-IsQuiet db now job target options row at_job)
    where
      At : Db × Result (Option JobRow) × List Outgoing → Type 0
      At r = All (IsQuiet row (find r.0 job)) r.2

  request_cancellation-queued :
      (db : Db) (now user job : ℕ) (sent : Bool) (row : JobRow)
      → find db job ≡ some row
      → row.status ≡ queued
      → row.user_id ≡ user
      → request_cancellation table has_notifier db now user job sent ≡ (
        update db job (cancelled_data now),
        ok (cancelled_data now row),
        broadcasts user job (ServerToClientMessage.job_status job cancelled (some row.exit_code))
            ∷ [],
      )
  unfolding request_cancellation find_owned cancel_queued is_terminal_job_status
  request_cancellation-queued db now user job sent row at_job waiting owner =
      rw (at_job, request_cancellation)
        (ground (arith, find-update db job job (cancelled_data now)))

  -- A cancellation that runs between the two halves of a transition (after the row was read, and
  -- before the update) is overwritten: the owner is told that the job is cancelled, and the job
  -- then stands in the state that the transition aims at.
  pub cancellation_overwritten :
      (db : Db) (now now' user job : ℕ) (sent : Bool) (target : JobStatus) (options : Options)
      (row : JobRow)
      → find db job ≡ some row
      → row.status ≡ queued
      → row.user_id ≡ user
      → (cancelled_row : JobRow) × ((request_cancellation table has_notifier db now user job sent).1
          ≡ ok cancelled_row)
        × (cancelled_row.status ≡ cancelled)
        × (map_option
              (λ (r : JobRow). r.status)
              (find
                (write_transition table has_notifier
                  (request_cancellation table has_notifier db now user job sent).0
                  now'
                  job
                  target
                  options
                  row).0
                job)
            ≡ some target)
  unfolding request_cancellation find_owned cancel_queued write_transition transition_data
  cancellation_overwritten db now now' user job sent target options row at_job waiting owner =
      let e = request_cancellation-queued db now user job sent row at_job waiting owner in
      (
        cancelled_data now row,
        ap (λ (r : Db × Result JobRow × List Outgoing). r.1) e,
        refl,
        rw e (
            rw (find-update, ==_refl job, find-update, ==_refl job, at_job, write_transition)
              (rw (find-update, ==_refl job, find-update, ==_refl job, at_job) refl)),
      )
