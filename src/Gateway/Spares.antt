-- ===== src/Gateway/Spares.antt =====
-- Steps of a handler that leave a job alone: transitions of other jobs, and what is put together of
-- such steps.
use relaydock.Prelude.{
  ℕ, Bool, true, false, not, ◌&&◌, Option, some, List, [], ◌∷◌, ◌++◌, ◌≡◌, ◌≢◌, refl, sym, ◌∙◌, ap,
  inl, inr, arith, map, ◌==◌, if_elim, All, All-append, Option-cases,
}
use relaydock.Lifecycle.{
  JobStatus, queued, dispatched, status_eq, is_terminal_job_status, can_transition_job,
}
use relaydock.Errors.{Result, ok, err}
use relaydock.Jobs.{JobRow, Outgoing}
use relaydock.Jobs.Table.{JobTable}
use relaydock.Jobs.Transition.{
  Options, transition_from_agent, check_transition, write_transition, transition_data,
}
use relaydock.Gateway.Acts.{AgentAuthContext, Act, act_job, serves}
use relaydock.Gateway.Queries.{JobQueries}
use relaydock.Gateway.Agent.{
  Answers, Outcome, followed_by, no_options, owns, transits, reports, reconcile,
}

pub some-ne : (job j : ℕ) → job ≢ j → some job ≢ some j
some-ne job j other same = other cc

-- No act is about the job.
abbrev pub Avoids : (job : ℕ) → List Act → Type 0
Avoids j = All (λ a. act_job a ≢ some j)

module _ {Db : Type 0} (table : JobTable Db) (j : ℕ) where
  open table use {find}

  -- A handler leaves the job alone.
  abbrev pub Spares : Db → Outcome Db → Type 0
  Spares db o = (find o.0 j ≡ find db j) × Avoids j o.2

  pub Spares-followed_by :
      (db : Db) (o : Outcome Db) (rest : Db → Outcome Db)
      → Spares db o
      → ((db' : Db) → find db' j ≡ find db j → Spares db' (rest db'))
      → Spares db (followed_by o rest)
  Spares-followed_by db (db', err e, out) rest h k = h
  Spares-followed_by db (db', ok u, out) rest h k =
      let r = k db' h.0 in (r.0 ∙ h.0, All-append _ out _ h.1 r.1)

  -- So does a transition.
  abbrev Leaves : Db → Db × Result (Option JobRow) × List Outgoing → Type 0
  Leaves db r = (find r.0 j ≡ find db j) × Avoids j (map serves r.2)

  answered-Spares :
      (db : Db) (r : Db × Result (Option JobRow) × List Outgoing) (before : List Act)
      (after : Option JobRow → List Act)
      → Leaves db r
      → Avoids j before
      → ((row : Option JobRow) → Avoids j (after row))
      → Spares db (elim r.1 [
        | err e ↦ (r.0, err e, before ++ map serves r.2)
        | ok row ↦ (r.0, ok tt, before ++ (map serves r.2 ++ after row))
      ])
  answered-Spares db (db', err e, out) before after h hb ha = (h.0, All-append _ before _ hb h.1)
  answered-Spares db (db', ok row, out) before after h hb ha =
      (h.0, All-append _ before _ hb (All-append _ (map serves out) _ h.1 (ha row)))

module _ {Db : Type 0} (table : JobTable Db) (has_notifier : Bool) (j : ℕ) where
  open table use {find, update, find-update}

  write-Leaves :
      (db : Db) (now job : ℕ) (target : JobStatus) (options : Options) (current : JobRow)
      → job ≢ j
      → Leaves table j db (write_transition table has_notifier db now job target options current)
  unfolding write_transition
  write-Leaves db now job target options current other =
      let apart : (job == j) ≡ false = ground arith in
      let db' = update db job (transition_data now target options current) in
      let kept : find db' j ≡ find db j = rw (find-update, apart) refl in
      elim (Option-cases (find db' job)) [
        | inl absent ↦ rw (absent, write_transition) (kept, tt)
        | inr (updated, found) ↦
            rw (found, write_transition)
              (
                kept,
                (
                  some-ne job j other,
                  if_elim (λ out. Avoids j (map serves out))
                      (not (status_eq updated.status current.status) && has_notifier) _ _
                      (λ _. ((λ e. absurd cc), tt)) λ _. tt,
                ),
              )
      ]

  transition-Leaves :
      (db : Db) (now device job : ℕ) (target : JobStatus) (options : Options)
      → job ≢ j
      → Leaves table j db
          (transition_from_agent table has_notifier db now device job target options)
  unfolding transition_from_agent check_transition
  transition-Leaves db now device job target options other = elim (Option-cases (find db job)) [
    | inl absent ↦ rw (absent, transition_from_agent) (refl, tt)
    | inr (current, found) ↦
        rw (found, transition_from_agent)
          (if_elim (Leaves table j db) (not (current.device_id == device)) _ _ (λ _. (refl, tt))
            λ _.
              if_elim (Leaves table j db) (is_terminal_job_status current.status) _ _
                (λ _. (refl, tt))
                λ _.
                  if_elim (Leaves table j db) (not (can_transition_job current.status target)) _ _
                    (λ _. (refl, tt)) λ _. write-Leaves db now job target options current other)
  ]

module _ {Db : Type 0} {table : JobTable Db} (queries : JobQueries Db table) (has_notifier : Bool)
    (me : AgentAuthContext) (j : ℕ) where
  open table use {find}
  open queries use {find_many, find_many-rows}

  transits-Spares :
      (db : Db) (now job : ℕ) (target : JobStatus) (options : Options) (before : List Act)
      (after : Option JobRow → List Act)
      → job ≢ j
      → Avoids j before
      → ((r : Option JobRow) → Avoids j (after r))
      → Spares table j db (transits queries has_notifier me db now job target options before after)
  unfolding transits
  transits-Spares db now job target options before after other hb ha =
      answered-Spares table j db
        (transition_from_agent table has_notifier db now me.device_id job target options) before
        after (transition-Leaves table has_notifier j db now me.device_id job target options other)
        hb ha

  -- A job that the agent owns is another one than a job that it does not own.
  pub owned-other :
      (db : Db) (job : ℕ)
      → owns queries has_notifier me db j ≡ false
      → owns queries has_notifier me db job ≡ true
      → job ≢ j
  owned-other db job foreign own same =
      absurd (clash (sym own ∙ (ap (owns queries has_notifier me db) same ∙ foreign)))
    where
      clash : true ≡ false → ⊥
      clash e = cc

  pub reports-Spares :
      (db : Db) (now job : ℕ) (target : JobStatus) (options : Options) (before : List Act)
      (after : Option JobRow → List Act)
      → owns queries has_notifier me db j ≡ false
      → (job ≢ j → Avoids j before × ((r : Option JobRow) → Avoids j (after r)))
      → Spares table j db (reports queries has_notifier me db now job target options before after)
  unfolding reports
  reports-Spares db now job target options before after foreign h =
      if_elim (Spares table j db) (not (owns queries has_notifier me db job)) _ _ (λ _. (refl, tt))
        λ own.
          let other = owned-other db job foreign (ground arith) in
          transits-Spares db now job target options before after other (h other).0 (h other).1

  pub reconcile-Spares :
      (a : Answers) (jobs : List (ℕ × JobRow)) (db : Db)
      → All (λ (x : ℕ × JobRow). x.0 ≢ j) jobs
      → Spares table j db (reconcile queries has_notifier me a jobs db)
  unfolding reconcile
  reconcile-Spares a [] db h = (refl, tt)
  reconcile-Spares a ((job, row) ∷ rest) db h =
      Spares-followed_by table j db _ _
        (if_elim (Spares table j db) (status_eq row.status queued) _ _
          (λ _. transits-Spares db a.now job dispatched no_options [] (λ r. []) h.0 tt (λ r. tt))
          (λ _. (refl, tt)))
        λ db' e.
          Spares-followed_by table j db' _ _
            (transits-Spares db' a.now job _ no_options [] _ h.0 tt (λ r. (some-ne job j h.0, tt)))
            λ db'' e'. reconcile-Spares a rest db'' h.1
