-- ===== src/Examples/Transitions.antt =====
-- A job that is accepted, run and cancelled, and a cancellation that meets a transition.
use relaydock.Prelude.{
  true, false, none, some, List, [], ◌∷◌, ◌≡◌, refl, Dict, get, put, All, map_option,
}
use relaydock.Lifecycle.{
  queued, dispatched, running, failed, cancelled, is_terminal_job_status, can_transition_job,
}
use relaydock.Errors.{ok}
use relaydock.Jobs.{JobRow}
use relaydock.Jobs.Table.{listed_jobs}
use relaydock.Jobs.Transition.{
  Options, transition_from_agent, write_transition, request_cancellation,
}
use relaydock.Jobs.Transition.Laws.{IsStamped, ServiceCall, transits, cancels}
use relaydock.Jobs.Transition.Histories.{
  IsOutcome, IsQuiet, perform, perform_all, history, notified_of_change, cancellation_overwritten,
}

abbrev plain : Options
plain = record { detail = none; exit_code = none }

abbrev waiting_job : JobRow
waiting_job = record {
  id = 7;
  user_id = 1;
  device_id = 3;
  repository_id = 5;
  status = queued;
  interactive = true;
  exit_code = none;
  status_detail = none;
  retained_output_bytes = 0;
  output_truncated = false;
  started_at = none;
  finished_at = none;
}

abbrev jobs : Dict JobRow
jobs = (7, waiting_job) ∷ []

waiting_job-IsStamped : IsStamped waiting_job
unfolding is_terminal_job_status
waiting_job-IsStamped = record { finished = refl; started = λ e. cc }

found : listed_jobs.find jobs 7 ≡ some waiting_job
unfolding listed_jobs get
found = refl

abbrev calls : List ServiceCall
calls =
    transits 10 3 7 dispatched plain
    ∷ transits 11 3 7 running plain
    ∷ cancels 12 1 7 true
    ∷ transits 13 4 7 failed plain
    ∷ transits 14 3 7 cancelled plain
    ∷ transits 15 3 7 running plain
    ∷ []

calls_end :
    map_option
      (λ (r : JobRow). r.finished_at)
      (listed_jobs.find (perform_all listed_jobs true jobs calls) 7)
    ≡ some (some 14)
unfolding listed_jobs get put perform_all perform write_transition transition_from_agent
    request_cancellation is_terminal_job_status can_transition_job
calls_end = refl

history_example :
    (row' : JobRow) × (listed_jobs.find (perform_all listed_jobs true jobs calls) 7 ≡ some row')
    × IsOutcome waiting_job row'
history_example = history listed_jobs true jobs calls 7 waiting_job found waiting_job-IsStamped

notified_of_change_example :
    let (db', answer, out) = transition_from_agent listed_jobs true jobs 10 3 7 failed plain in
    All (IsQuiet waiting_job (listed_jobs.find db' 7)) out
notified_of_change_example =
    notified_of_change listed_jobs true jobs 10 3 7 failed plain waiting_job found

cancellation_overwritten_example :
    (cancelled_row : JobRow) × ((request_cancellation listed_jobs true jobs 12 1 7 true).1
      ≡ ok cancelled_row)
    × (cancelled_row.status ≡ cancelled)
    × (map_option
          (λ (r : JobRow). r.status)
          (listed_jobs.find
            (write_transition listed_jobs true
              (request_cancellation listed_jobs true jobs 12 1 7 true).0
              13
              7
              dispatched
              plain
              waiting_job).0
            7)
        ≡ some dispatched)
cancellation_overwritten_example =
    cancellation_overwritten listed_jobs true jobs 12 13 1 7 true dispatched plain waiting_job found
      refl refl
