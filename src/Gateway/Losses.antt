-- ===== src/Gateway/Losses.antt =====
-- What becomes of the jobs of an agent whose socket closes.
use relaydock.Prelude.{
  ℕ, ◌≤◌, ◌==◌, ==_iff, leb, length, is_some, subst, sym, All, String, Option, none, [], Bool, true,
  false, not, ◌&&◌, ◌||◌, some, List, ◌∷◌, ◌++◌, ◌≡◌, refl, ◌∙◌, ap, inl, inr, arith, map,
  map_option, if◌then◌else◌, if_elim, mem, Bool-cases,
}
use relaydock.Lifecycle.{
  JobStatus, queued, dispatched, running, waiting_for_input, disconnected, can_transition_job,
}
use relaydock.Protocol.{ServerToClientMessage}
use relaydock.Jobs.{JobRow, broadcasts}
use relaydock.Jobs.Table.{JobTable}
use relaydock.Gateway.Acts.{AgentAuthContext, Session, Act, serves}
use relaydock.Gateway.Queries.{JobQueries, holds}
use relaydock.Gateway.Closing.{
  Departure, is_started, is_queued, is_left, never_acknowledged, connection_lost, lose,
  announce_lost, lose_jobs, leave_device, close_agent,
}

-- What viewers are told of a job, with the users.
abbrev pub notices : (job : ℕ) → List Act → List (ℕ × ServerToClientMessage)
notices j [] = []
notices j (serves (broadcasts user job message) ∷ out) =
    if job == j then (user, message) ∷ notices j out else notices j out
notices j (a ∷ out) = notices j out

-- Why a job in some state ends with the agent's connection, if it does.
abbrev pub reason_of : JobStatus → Option String
reason_of queued = some "Agent disconnected before acknowledgement; execution is unknown."
reason_of dispatched = some "Agent connection was lost."
reason_of running = some "Agent connection was lost."
reason_of waiting_for_input = some "Agent connection was lost."
reason_of _ = none

-- A row that ends for a reason, or stays as it is.
abbrev pub ended : Option String → JobRow → JobRow
ended none row = row
ended (some reason) row = record row { status = disconnected; status_detail = some reason }

ended-status :
    (row : JobRow) (st : JobStatus) (own early : Bool)
    → row.status ≡ st
    → (if own && is_queued row.status && early
        then lose never_acknowledged row
        else if own && is_started row.status && early
        then lose connection_lost row
        else row)
      ≡ ended (if own && early then reason_of row.status else none) row
ended-status row queued own early e = rw e (ground arith)
ended-status row dispatched own early e = rw e (ground arith)
ended-status row running own early e = rw e (ground arith)
ended-status row waiting_for_input own early e = rw e (ground arith)
ended-status row st own early e = rw e (ground arith)

is_left-status :
    (st : JobStatus) (own early : Bool)
    → (own && (is_queued st || is_started st) && early)
      ≡ is_some (if own && early then reason_of st else none)
is_left-status queued own early = ground arith
is_left-status dispatched own early = ground arith
is_left-status running own early = ground arith
is_left-status waiting_for_input own early = ground arith
is_left-status st own early = ground arith

notices-none :
    (j : ℕ) (xs : List (ℕ × JobRow))
    → (length (notices j (announce_lost xs)) == 0) ≡ not (mem j (map (λ (x : ℕ × JobRow). x.0) xs))
notices-none j [] = refl
notices-none j ((job, row) ∷ xs) = ground (arith, notices-none j xs)

-- What viewers are told of a job that ends.
abbrev pub notice : (job : ℕ) → JobRow → ℕ × ServerToClientMessage
notice j row = (row.user_id, ServerToClientMessage.job_status j disconnected (some row.exit_code))

module _ {Db : Type 0} {table : JobTable Db} (queries : JobQueries Db table)
    (me : AgentAuthContext) where
  open table use {find}
  open queries use {
    find_many, update_many, updated_at, find_many-all, find_many-rows, find-update_many,
    updated_at-update_many,
  }

  -- Why a job ends with the connection: it is one of the device and was not written since.
  abbrev pub reason : Db → (at job : ℕ) → JobRow → Option String
  reason db at j row =
      if row.device_id == me.device_id && leb (updated_at db j) at
      then reason_of row.status
      else none

  -- The row of a job after the two updates.
  abbrev lost_row : Db → (at job : ℕ) → JobRow → JobRow
  lost_row db at job row =
      if is_left queries me db at is_queued job row
      then lose never_acknowledged row
      else if is_left queries me db at is_started job row
      then lose connection_lost row
      else row

  notices-leave :
      (j : ℕ) (d : Departure) (out : List Act)
      → notices j (leave_device queries me d ++ out) ≡ notices j out
  unfolding leave_device
  notices-leave j d out =
      if_elim (λ acts. notices j (acts ++ out) ≡ notices j out) (not d.known || not d.updated) _ _
        (λ _. refl)
        λ _.
          if_elim (λ acts. notices j (acts ++ out) ≡ notices j out) (not d.online_again) _ _
            (λ _. refl) (λ _. refl)

  notices-rows :
      (db : Db) (j : ℕ) (row : JobRow) (p : ℕ → JobRow → Bool) (xs : List (ℕ × JobRow))
      → find db j ≡ some row
      → All (λ (x : ℕ × JobRow). (find db x.0 ≡ some x.1) × (p x.0 x.1 ≡ true)) xs
      → All (λ x. x ≡ notice j row) (notices j (announce_lost xs))
  notices-rows db j row p [] found h = tt
  notices-rows db j row p ((k, r) ∷ xs) found h =
      if_elim (All (λ x. x ≡ notice j row)) (k == j) _ _
        (λ here.
          let k_is : k ≡ j = (==_iff k j).0 here in
          let r_is : r ≡ row = ground (arith, k_is, found, h.0.0) in
          (rw (k_is, r_is) refl, notices-rows db j row p xs found h.1))
        (λ there. notices-rows db j row p xs found h.1)

  update_many-found :
      (db : Db) (p : ℕ → JobRow → Bool) (f : JobRow → JobRow) (j : ℕ) (row : JobRow)
      → find db j ≡ some row
      → find (update_many db p f) j ≡ some (if p j row then f row else row)
  update_many-found db p f j row found =
      find-update_many db p f j ∙ ap (map_option λ r. if p j r then f r else r) found

  -- The second update passes over the rows of the first, and dates the others as before.
  second_update :
      (db db₁ : Db) (at j : ℕ) (row : JobRow)
      → (is_left queries me db at is_queued j row ≡ false → updated_at db₁ j ≡ updated_at db j)
      → let row₁ =
          if is_left queries me db at is_queued j row then lose never_acknowledged row else row in
        (if is_left queries me db₁ at is_started j row₁ then lose connection_lost row₁ else row₁)
        ≡ lost_row db at j row
  second_update db db₁ at j row dated =
      elim (Bool-cases (is_left queries me db at is_queued j row)) [
        | inl waits ↦ rw waits (ground arith)
        | inr other ↦ rw (other, dated other) refl
      ]

  lose_jobs-find :
      (db : Db) (at j : ℕ) (row : JobRow)
      → find db j ≡ some row
      → find (lose_jobs queries me db at) j ≡ some (lost_row db at j row)
  unfolding lose_jobs
  lose_jobs-find db at j row found =
      let p = is_left queries me db at is_queued in
      let db₁ = update_many db p (lose never_acknowledged) in
      update_many-found db₁ (is_left queries me db₁ at is_started) (lose connection_lost) j _
        (update_many-found db p (lose never_acknowledged) j row found)
      ∙ ap some (
          second_update db db₁ at j row (λ other.
            updated_at-update_many db p (lose never_acknowledged) j
              (ap (λ o. holds o (p j)) found ∙ other)))

  pub close_agent-loses :
      (s : Session) (d : Departure) (db : Db) (j : ℕ) (row : JobRow)
      → s.hello_received ≡ true
      → d.released ≡ true
      → find db j ≡ some row
      → let (db', out) = close_agent queries me s d db in
        let why = reason db d.disconnected_at j row in
        (find db' j ≡ some (ended why row))
        × ((length (notices j out) == 0) ≡ not (is_some why))
        × All (λ x. x ≡ notice j row) (notices j out)
  unfolding close_agent
  close_agent-loses s d db j row greeted released found =
      let p = is_left queries me db d.disconnected_at (λ st. is_queued st || is_started st) in
      let own = row.device_id == me.device_id in
      let early = leb (updated_at db j) d.disconnected_at in
      let left = notices-leave j d (announce_lost (find_many db p)) in
      rw (greeted, released)
        (
          lose_jobs-find db d.disconnected_at j row found
              ∙ ap some (ended-status row row.status own early refl),
          ap (λ ns. length ns == 0) left
              ∙ (notices-none j (find_many db p)
                  ∙ ap not (
                      find_many-all db p j
                      ∙ (ap (λ o. holds o (p j)) found ∙ is_left-status row.status own early))),
          subst (All (λ x. x ≡ notice j row)) (sym left)
              (notices-rows db j row p (find_many db p) found (find_many-rows db p)),
        )

  -- The close of a socket takes a queued job of the device to `disconnected`, which the table of
  -- transitions does not permit, and from where the job may go on to run.
  pub close_bypasses_table :
      (s : Session) (d : Departure) (db : Db) (j : ℕ) (row : JobRow)
      → s.hello_received ≡ true
      → d.released ≡ true
      → find db j ≡ some row
      → row.status ≡ queued
      → row.device_id ≡ me.device_id
      → updated_at db j ≤ d.disconnected_at
      → (map_option (λ (r : JobRow). r.status) (find (close_agent queries me s d db).0 j)
          ≡ some disconnected)
        × (can_transition_job queued disconnected ≡ false)
        × (can_transition_job disconnected running ≡ true)
  unfolding can_transition_job
  close_bypasses_table s d db j row greeted released found waits own early =
      (rw ((close_agent-loses s d db j row greeted released found).0) (ground arith), refl, refl)
