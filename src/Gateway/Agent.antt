-- ===== src/Gateway/Agent.antt =====
-- `processMessage` of an agent's socket.
use relaydock.Prelude.{
  ℕ, ℤ, String, Bool, true, false, not, ◌||◌, ◌&&◌, Option, none, some, List, [], ◌∷◌, ◌++◌, map,
  ◌==◌, if◌then◌else◌, mem,
}
use relaydock.Lifecycle.{
  JobStatus, queued, dispatched, running, waiting_for_input, completed, failed, cancelled,
  status_eq, is_terminal_job_status,
}
use relaydock.Protocol.{
  AgentToServerMessage, agent_hello, agent_heartbeat, agent_status, repository_validation_result,
  job_accepted, job_started, job_cancelled, job_input_acknowledged, job_buffer_sync, AgentHello,
  ServerToAgentMessage, ServerToClientMessage, online, offline,
}
use relaydock.Errors.{
  AppError, Result, ok, err, job_forbidden, device_forbidden, hello_required, hello_invalid,
  device_disconnected, agent_credential_invalid,
}
use relaydock.Jobs.{JobRow, broadcasts}
use relaydock.Jobs.Table.{JobTable}
use relaydock.Jobs.Transition.{Options, transition_from_agent}
use relaydock.Gateway.Acts.{
  AgentAuthContext, Session, Act, serves, attaches_agent, updates_device, sends_to_agent,
  broadcasts_device, settles, relays, flushes, persists, closes,
}
use relaydock.Gateway.Queries.{JobQueries}

-- The answers of the calls that a message makes: `revoked` says that `updateMany` found the device
-- revoked, `beating` what `heartbeat` returned, `reached` whether the welcome was sent.
pub record Answers : Type 0 where
  pub now : ℕ
  pub revoked : Bool
  pub beating : Bool
  pub reached : Bool
  pub heartbeat_interval_ms : ℕ
  pub latest_sequence : (job : ℕ) → ℤ
  -- Whether the socket is open when the message has been processed.
  pub is_open : Bool

-- What a handler comes to: the table, whether it threw, and what it did.
abbrev pub Outcome : Type 0 → Type 0
Outcome Db = Db × Result (Unit {0}) × List Act

-- One step of a handler after another; a throw ends it.
abbrev pub followed_by : {Db : Type 0} → Outcome Db → (Db → Outcome Db) → Outcome Db
followed_by (db, err e, out) rest = (db, err e, out)
followed_by (db, ok u, out) rest = let (db', answer, out') = rest db in (db', answer, out ++ out')

abbrev pub no_options : Options
no_options = record { detail = none; exit_code = none }

-- The states that `agent.hello` asks for.
abbrev pub is_unfinished : JobStatus → Bool
is_unfinished s = not (is_terminal_job_status s)

-- A message to the viewers of a job that has the expected status.
abbrev pub announces :
    JobStatus → (JobRow → ServerToClientMessage) → (job : ℕ) → Option JobRow → List Act
announces s message job none = []
announces s message job (some row) =
    if status_eq row.status s then serves (broadcasts row.user_id job (message row)) ∷ [] else []

-- `closeForError`, with the text of an error cut to its 123 characters.
abbrev pub close_for_error :
    (reason : AppError → String) → (is_open : Bool) → Result (Unit {0}) → List Act
close_for_error reason is_open (ok u) = []
close_for_error reason is_open (err e) = if is_open then closes 1008 (reason e) ∷ [] else []

module _ {Db : Type 0} {table : JobTable Db} (queries : JobQueries Db table) (has_notifier : Bool)
    (me : AgentAuthContext) where
  open table use {find}
  open queries use {find_many}

  -- The test of `assertJobOwner`.
  unfoldable pub owns : Db → (job : ℕ) → Bool
  owns db job = elim (find db job) [ none ↦ false | some row ↦ row.device_id == me.device_id ]

  -- A transition, with `before` done first and `after` done on the row that it returns.
  unfoldable pub transits :
      Db
      → (now job : ℕ) → JobStatus
      → Options
      → (before : List Act) → (after : Option JobRow → List Act) → Outcome Db
  transits db now job target options before after =
      let (db', answer, out) =
        transition_from_agent table has_notifier db now me.device_id job target options in
      elim answer [
        | err e ↦ (db', err e, before ++ map serves out)
        | ok row ↦ (db', ok tt, before ++ (map serves out ++ after row))
      ]

  -- What an agent reports of a job, past `assertJobOwner`.
  unfoldable pub reports :
      Db
      → (now job : ℕ) → JobStatus
      → Options
      → (before : List Act) → (after : Option JobRow → List Act) → Outcome Db
  unfolding owns transits
  reports db now job target options before after =
      if not (owns db job)
      then (db, err job_forbidden, [])
      else transits db now job target options before after

  -- The loop of `agent.hello` over the jobs that the agent still runs.
  unfoldable pub reconcile : Answers → List (ℕ × JobRow) → Db → Outcome Db
  unfolding transits
  reconcile a [] db = (db, ok tt, [])
  reconcile a ((job, row) ∷ rest) db =
      followed_by
        (if status_eq row.status queued
          then transits db a.now job dispatched no_options [] (λ r. [])
          else (db, ok tt, []))
        λ db'.
          followed_by
            (transits db' a.now job
              (if status_eq row.status waiting_for_input then waiting_for_input else running)
              no_options []
              (λ r.
                sends_to_agent me.device_id
                  (ServerToAgentMessage.job_buffer_request job (a.latest_sequence job))
                ∷ []))
            (reconcile a rest)

  -- `updateConnectedDevice`
  unfoldable pub update_connected_device : Answers → (is_online : Bool) → Db → Outcome Db
  update_connected_device a is_online db =
      if a.revoked
      then (db, err agent_credential_invalid, closes 4003 "device revoked" ∷ [])
      else (db, ok tt, updates_device me.device_id is_online a.now ∷ [])

  unfoldable pub welcome : Answers → Db → Outcome Db
  welcome a db =
      let sent =
        sends_to_agent me.device_id
          (ServerToAgentMessage.agent_welcome me.device_id a.heartbeat_interval_ms a.now) in
      if not a.reached then (db, err device_disconnected, sent ∷ []) else (
        db,
        ok tt,
        sent
            ∷ broadcasts_device me.user_id
                (ServerToClientMessage.device_status me.device_id online a.now)
            ∷ [],
      )

  -- The jobs that the agent names and that may still run, taken up again.
  unfoldable pub rejoin : Answers → AgentHello → Db → Outcome Db
  unfolding reconcile
  rejoin a hello db =
      reconcile a
        (find_many db λ job row.
          mem job hello.running_job_ids
          && row.device_id == me.device_id
          && is_unfinished row.status)
        db

  -- `agent.hello` past its check.
  unfoldable pub greet : Answers → AgentHello → Db → Outcome Db
  unfolding update_connected_device welcome rejoin
  greet a hello db =
      followed_by (db, ok tt, attaches_agent me.device_id me.user_id ∷ [])
        λ db₁.
          followed_by (update_connected_device a true db₁)
            λ db₂. followed_by (welcome a db₂) (rejoin a hello)

  -- The rest of `agent.status`.
  unfoldable pub announce_device : Answers → (is_online : Bool) → Db → Outcome Db
  announce_device a is_online db = (
    db,
    ok tt,
    broadcasts_device me.user_id (
          ServerToClientMessage.device_status me.device_id (if is_online then online else offline)
            a.now)
        ∷ (if is_online then [] else closes 1000 "agent went offline" ∷ []),
  )

  -- The `switch`, past the test for the first message, but for `agent.hello` and `job.output`.
  unfoldable pub process_other : Answers → AgentToServerMessage → Db → Outcome Db
  unfolding owns reports update_connected_device announce_device
  process_other a (agent_heartbeat device) db =
      if not (device == me.device_id)
      then (db, err device_forbidden, [])
      else if not a.beating
      then (db, ok tt, [])
      else update_connected_device a true db
  process_other a (agent_status device is_online detail) db =
      if not (device == me.device_id)
      then (db, err device_forbidden, [])
      else followed_by (update_connected_device a is_online db) (announce_device a is_online)
  process_other a (repository_validation_result result) db =
      (db, ok tt, settles me.device_id result ∷ [])
  process_other a (job_accepted job) db = reports db a.now job dispatched no_options [] λ r. []
  process_other a (job_started job pid) db = reports db a.now job running no_options [] λ r. []
  process_other a (AgentToServerMessage.job_status job status detail) db =
      reports db a.now job status (record { detail = detail; exit_code = none }) [] λ r. []
  process_other a (AgentToServerMessage.job_completed job exit_code) db =
      reports db a.now job completed (record { detail = none; exit_code = some exit_code })
        (flushes job ∷ [])
        (announces completed (λ row. ServerToClientMessage.job_completed job exit_code) job)
  process_other a (AgentToServerMessage.job_failed job error exit_code) db =
      reports db a.now job failed (record { detail = some error; exit_code = exit_code })
        (flushes job ∷ [])
        (announces failed (λ row. ServerToClientMessage.job_failed job error (some exit_code)) job)
  process_other a (job_cancelled job) db =
      reports db a.now job cancelled no_options (flushes job ∷ []) λ r. []
  process_other a (job_input_acknowledged job input_sequence) db =
      if not (owns db job) then (db, err job_forbidden, []) else (db, ok tt, [])
  process_other a (job_buffer_sync job chunks) db =
      if not (owns db job)
      then (db, err job_forbidden, [])
      else (db, ok tt, persists me.device_id job chunks ∷ [])
  process_other a _ db = (db, ok tt, [])

  -- `processMessage`
  unfoldable pub process_message :
      Answers → Session → AgentToServerMessage → Db → Session × (Db × Result (Unit {0}) × List Act)
  unfolding greet process_other owns
  process_message a s (agent_hello hello) db =
      if s.hello_received || not (hello.device_id == me.device_id)
      then (s, (db, err hello_invalid, []))
      else (record s { hello_received = true }, greet a hello db)
  process_message a s (AgentToServerMessage.job_output job chunk) db =
      let relayed = relays me.user_id me.device_id job chunk ∷ [] in
      if not s.hello_received
      then (s, (db, err hello_required, []))
      else if mem job s.owned_jobs
      then (s, (db, ok tt, relayed))
      else if owns db job
      then (record s { owned_jobs = job ∷ s.owned_jobs }, (db, ok tt, relayed))
      else (s, (db, err job_forbidden, []))
  process_message a s message db =
      if not s.hello_received
      then (s, (db, err hello_required, []))
      else (s, process_other a message db)

  -- The messages of a connection, one after another: a throw closes the socket, and those that have
  -- come in are still processed.
  unfoldable pub process_all :
      (reason : AppError → String)
      → Session
      → List (Answers × AgentToServerMessage)
      → Db
      → Session × (Db × List Act)
  unfolding process_message
  process_all reason s [] db = (s, (db, []))
  process_all reason s ((a, m) ∷ ms) db =
      let (s', (db', answer, out)) = process_message a s m db in
      let (s'', (db'', out')) = process_all reason s' ms db' in
      (s'', (db'', out ++ (close_for_error reason a.is_open answer ++ out')))
