-- ===== src/Gateway/Confinement.antt =====
-- An agent reaches the jobs of its own device only.
use relaydock.Prelude.{
  ℕ, String, Bool, true, false, not, ◌||◌, Option, none, some, List, [], ◌∷◌, ◌≡◌, ◌≢◌, refl, ◌∙◌,
  arith, ◌==◌, if◌then◌else◌, if_elim, mem, All-append, All-map,
}
use relaydock.Lifecycle.{JobStatus, status_eq}
use relaydock.Protocol.{
  AgentToServerMessage, agent_hello, agent_heartbeat, agent_status, repository_validation_result,
  job_accepted, job_started, job_cancelled, job_input_acknowledged, job_buffer_sync, AgentHello,
  OutputChunk, ServerToClientMessage,
}
use relaydock.Errors.{AppError, Result, ok, err, hello_required, job_forbidden}
use relaydock.Jobs.{JobRow}
use relaydock.Jobs.Table.{JobTable}
use relaydock.Jobs.Transition.{Options}
use relaydock.Gateway.Acts.{AgentAuthContext, Session, Act, attaches_agent, flushes, relays}
use relaydock.Gateway.Queries.{JobQueries}
use relaydock.Gateway.Agent.{
  Answers, Outcome, followed_by, announces, owns, reports, update_connected_device, welcome, rejoin,
  greet, announce_device, process_other, process_message, close_for_error, process_all,
}
use relaydock.Gateway.Spares.{
  some-ne, Avoids, Spares, Spares-followed_by, owned-other, reports-Spares, reconcile-Spares,
}

module _ {Db : Type 0} {table : JobTable Db} (queries : JobQueries Db table) (has_notifier : Bool)
    (me : AgentAuthContext) (j : ℕ) where
  open table use {find}
  open queries use {find_many, find_many-rows}

  update_connected_device-Spares :
      (a : Answers) (is_online : Bool) (db : Db)
      → Spares table j db (update_connected_device queries has_notifier me a is_online db)
  unfolding update_connected_device
  update_connected_device-Spares a is_online db =
      if_elim (Spares table j db) a.revoked _ _ (λ _. (refl, ((λ e. absurd cc), tt)))
        (λ _. (refl, ((λ e. absurd cc), tt)))

  welcome-Spares :
      (a : Answers) (db : Db) → Spares table j db (welcome queries has_notifier me a db)
  unfolding welcome
  welcome-Spares a db =
      if_elim (Spares table j db) (not a.reached) _ _ (λ _. (refl, ((λ e. absurd cc), tt)))
        (λ _. (refl, ((λ e. absurd cc), ((λ e. absurd cc), tt))))

  owns-row :
      (db : Db) (job : ℕ) (row : JobRow)
      → find db job ≡ some row
      → (row.device_id == me.device_id) ≡ true
      → owns queries has_notifier me db job ≡ true
  unfolding owns
  owns-row db job row found own = rw (found, owns) own

  owns-same :
      (db db' : Db)
      → find db' j ≡ find db j
      → owns queries has_notifier me db j ≡ false
      → owns queries has_notifier me db' j ≡ false
  unfolding owns
  owns-same db db' e foreign = rw (e, owns) foreign

  rejoin-Spares :
      (a : Answers) (hello : AgentHello) (db : Db)
      → owns queries has_notifier me db j ≡ false
      → Spares table j db (rejoin queries has_notifier me a hello db)
  unfolding rejoin
  rejoin-Spares a hello db foreign = reconcile-Spares queries has_notifier me j a _ db (
      All-map _ _ (find_many db _)
        (λ x h.
          owned-other queries has_notifier me j db x.0 foreign
            (owns-row db x.0 x.1 h.0 (ground (arith, h.1))))
        (find_many-rows db _))

  greet-Spares :
      (a : Answers) (hello : AgentHello) (db : Db)
      → owns queries has_notifier me db j ≡ false
      → Spares table j db (greet queries has_notifier me a hello db)
  unfolding greet
  greet-Spares a hello db foreign =
      Spares-followed_by table j db (db, ok tt, attaches_agent me.device_id me.user_id ∷ [])
        (λ db₁. followed_by (update_connected_device queries has_notifier me a true db₁) λ db₂.
          followed_by (welcome queries has_notifier me a db₂)
            (rejoin queries has_notifier me a hello))
        (refl, ((λ e. absurd cc), tt))
        λ db₁ e₁.
          Spares-followed_by table j db₁
            (update_connected_device queries has_notifier me a true db₁)
            (λ db₂.
              followed_by (welcome queries has_notifier me a db₂)
                (rejoin queries has_notifier me a hello))
            (update_connected_device-Spares a true db₁)
            λ db₂ e₂.
              Spares-followed_by table j db₂ (welcome queries has_notifier me a db₂)
                (rejoin queries has_notifier me a hello) (welcome-Spares a db₂)
                λ db₃ e₃. rejoin-Spares a hello db₃ (owns-same db db₃ (e₃ ∙ (e₂ ∙ e₁)) foreign)

  announce_device-Spares :
      (a : Answers) (is_online : Bool) (db : Db)
      → Spares table j db (announce_device queries has_notifier me a is_online db)
  unfolding announce_device
  announce_device-Spares a is_online db = (
    refl,
    ((λ e. absurd cc), if_elim (Avoids j) is_online _ _ (λ _. tt) (λ _. ((λ e. absurd cc), tt))),
  )

  announces-Avoids :
      (s : JobStatus) (message : JobRow → ServerToClientMessage) (job : ℕ) (r : Option JobRow)
      → job ≢ j
      → Avoids j (announces s message job r)
  announces-Avoids s message job none other = tt
  announces-Avoids s message job (some row) other =
      if_elim (Avoids j) (status_eq row.status s) _ _ (λ _. (some-ne job j other, tt)) (λ _. tt)

  -- The reports without an act of their own.
  plain :
      (db : Db) (now job : ℕ) (target : JobStatus) (options : Options)
      → owns queries has_notifier me db j ≡ false
      → Spares table j db (reports queries has_notifier me db now job target options [] λ r. [])
  plain db now job target options foreign =
      reports-Spares queries has_notifier me j db now job target options [] (λ r. []) foreign
        (λ other. (tt, λ r. tt))

  -- Those that flush the output first.
  flushed :
      (db : Db) (now job : ℕ) (target : JobStatus) (options : Options)
      (after : Option JobRow → List Act)
      → owns queries has_notifier me db j ≡ false
      → (job ≢ j → (r : Option JobRow) → Avoids j (after r))
      → Spares table j db
          (reports queries has_notifier me db now job target options (flushes job ∷ []) after)
  flushed db now job target options after foreign h =
      reports-Spares queries has_notifier me j db now job target options _ after foreign
        λ other. ((some-ne job j other, tt), h other)

  process_other-Spares :
      (a : Answers) (m : AgentToServerMessage) (db : Db)
      → owns queries has_notifier me db j ≡ false
      → Spares table j db (process_other queries has_notifier me a m db)
  unfolding process_other
  process_other-Spares a (agent_hello hello) db foreign = (refl, tt)
  process_other-Spares a (AgentToServerMessage.job_output job chunk) db foreign = (refl, tt)
  process_other-Spares a (agent_heartbeat device) db foreign =
      if_elim (Spares table j db) (not (device == me.device_id)) _ _ (λ _. (refl, tt))
        λ _.
          if_elim (Spares table j db) (not a.beating) _ _ (λ _. (refl, tt))
            λ _. update_connected_device-Spares a true db
  process_other-Spares a (agent_status device is_online detail) db foreign =
      if_elim (Spares table j db) (not (device == me.device_id)) _ _ (λ _. (refl, tt))
        λ _.
          Spares-followed_by table j db
            (update_connected_device queries has_notifier me a is_online db)
            (announce_device queries has_notifier me a is_online)
            (update_connected_device-Spares a is_online db)
            λ db' e. announce_device-Spares a is_online db'
  process_other-Spares a (repository_validation_result result) db foreign =
      (refl, ((λ e. absurd cc), tt))
  process_other-Spares a (job_accepted job) db foreign = plain db a.now job _ _ foreign
  process_other-Spares a (job_started job pid) db foreign = plain db a.now job _ _ foreign
  process_other-Spares a (AgentToServerMessage.job_status job status detail) db foreign =
      plain db a.now job _ _ foreign
  process_other-Spares a (AgentToServerMessage.job_completed job exit_code) db foreign =
      flushed db a.now job _ _ _ foreign (λ other r. announces-Avoids _ _ job r other)
  process_other-Spares a (AgentToServerMessage.job_failed job error exit_code) db foreign =
      flushed db a.now job _ _ _ foreign (λ other r. announces-Avoids _ _ job r other)
  process_other-Spares a (job_cancelled job) db foreign =
      flushed db a.now job _ _ _ foreign (λ other r. tt)
  process_other-Spares a (job_input_acknowledged job n) db foreign =
      if_elim (Spares table j db) (not (owns queries has_notifier me db job)) _ _ (λ _. (refl, tt))
        (λ _. (refl, tt))
  process_other-Spares a (job_buffer_sync job chunks) db foreign =
      if_elim (Spares table j db) (not (owns queries has_notifier me db job)) _ _ (λ _. (refl, tt))
        λ own. (
          refl,
          (some-ne job j (owned-other queries has_notifier me j db job foreign (ground arith)), tt),
        )

  -- A message leaves the job alone and out of the cache of jobs that the agent owns.
  abbrev Ignores : Db → Session × Outcome Db → Type 0
  Ignores db r = Spares table j db r.1 × (mem j r.0.owned_jobs ≡ false)

  output-Ignores :
      (s : Session) (job : ℕ) (chunk : OutputChunk) (db : Db)
      → owns queries has_notifier me db j ≡ false
      → mem j s.owned_jobs ≡ false
      → Ignores db (
          if not s.hello_received
          then (s, (db, err hello_required, []))
          else if mem job s.owned_jobs
          then (s, (db, ok tt, relays me.user_id me.device_id job chunk ∷ []))
          else if owns queries has_notifier me db job
          then (
            record s { owned_jobs = job ∷ s.owned_jobs },
            (db, ok tt, relays me.user_id me.device_id job chunk ∷ []),
          )
          else (s, (db, err job_forbidden, [])))
  output-Ignores s job chunk db foreign new =
      if_elim (Ignores db) (not s.hello_received) _ _ (λ _. ((refl, tt), new))
        λ _.
          if_elim (Ignores db) (mem job s.owned_jobs) _ _
            (λ cached.
              ((refl, (some-ne job j (λ same. absurd (clash cached (rw same new))), tt)), new))
            λ _.
              if_elim (Ignores db) (owns queries has_notifier me db job) _ _
                (λ own.
                  let other = owned-other queries has_notifier me j db job foreign own in
                  ((refl, (some-ne job j other, tt)), ground (arith, other, new)))
                λ _. ((refl, tt), new)
    where
      clash : {b : Bool} → b ≡ true → b ≡ false → ⊥
      clash e e' = cc

  other-Ignores :
      (a : Answers) (s : Session) (m : AgentToServerMessage) (db : Db)
      → owns queries has_notifier me db j ≡ false
      → mem j s.owned_jobs ≡ false
      → Ignores db (
          if not s.hello_received
          then (s, (db, err hello_required, []))
          else (s, process_other queries has_notifier me a m db))
  other-Ignores a s m db foreign new =
      if_elim (Ignores db) (not s.hello_received) _ _ (λ _. ((refl, tt), new))
        λ _. (process_other-Spares a m db foreign, new)

  process_message-Ignores :
      (a : Answers) (s : Session) (m : AgentToServerMessage) (db : Db)
      → owns queries has_notifier me db j ≡ false
      → mem j s.owned_jobs ≡ false
      → Ignores db (process_message queries has_notifier me a s m db)
  unfolding process_message
  process_message-Ignores a s (agent_hello hello) db foreign new =
      if_elim (Ignores db) (s.hello_received || not (hello.device_id == me.device_id)) _ _
        (λ _. ((refl, tt), new)) (λ _. (greet-Spares a hello db foreign, new))
  process_message-Ignores a s (AgentToServerMessage.job_output job chunk) db foreign new =
      output-Ignores s job chunk db foreign new
  process_message-Ignores a s m db foreign new = other-Ignores a s m db foreign new

  close_for_error-Avoids :
      (reason : AppError → String) (is_open : Bool) (answer : Result (Unit {0}))
      → Avoids j (close_for_error reason is_open answer)
  close_for_error-Avoids reason is_open (ok u) = tt
  close_for_error-Avoids reason is_open (err e) =
      if_elim (Avoids j) is_open _ _ (λ _. ((λ same. absurd cc), tt)) (λ _. tt)

  -- Whatever an agent sends over a connection, well formed or not in its order, and whatever the
  -- calls answer: a job that is not a job of the agent's device, and that the session does not hold
  -- for one, stays as it is in the table, and
  -- nothing about it is broadcast, stored, flushed or asked of the agent.
  pub agent_confined :
      (reason : AppError → String) (s : Session) (ms : List (Answers × AgentToServerMessage))
      (db : Db)
      → owns queries has_notifier me db j ≡ false
      → mem j s.owned_jobs ≡ false
      → let (s', (db', out)) = process_all queries has_notifier me reason s ms db in
        (find db' j ≡ find db j) × Avoids j out
  unfolding process_all
  agent_confined reason s [] db foreign new = (refl, tt)
  agent_confined reason s ((a, m) ∷ ms) db foreign new =
      let first = process_message-Ignores a s m db foreign new in
      let (s', (db', answer, out)) = process_message queries has_notifier me a s m db in
      let rest = agent_confined reason s' ms db' (owns-same db db' first.0.0 foreign) first.1 in
      (
        rest.0 ∙ first.0.0,
        All-append _ out _ first.0.1 (
            All-append _ (close_for_error reason a.is_open answer) _
              (close_for_error-Avoids reason a.is_open answer) rest.1),
      )
