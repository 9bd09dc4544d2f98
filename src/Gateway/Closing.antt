-- ===== src/Gateway/Closing.antt =====
-- The handler of `close` on an agent's socket. The reads and writes of jobs are one step.
use relaydock.Prelude.{
  ℕ, String, Bool, false, not, ◌&&◌, ◌||◌, some, List, [], ◌∷◌, ◌++◌, map, ◌==◌, leb, if◌then◌else◌,
}
use relaydock.Lifecycle.{
  JobStatus, queued, dispatched, running, waiting_for_input, disconnected, status_eq,
}
use relaydock.Protocol.{ServerToClientMessage, offline}
use relaydock.Jobs.{JobRow, broadcasts}
use relaydock.Jobs.Table.{JobTable}
use relaydock.Gateway.Acts.{
  AgentAuthContext, Session, Act, serves, updates_device, broadcasts_device, cancels_validations,
}
use relaydock.Gateway.Queries.{JobQueries}

-- What the handler learns: whether `detachAgent` gave up the presence, whether the device is there
-- and not revoked, whether its row was updated, and whether the agent is online by then.
pub record Departure : Type 0 where
  pub disconnected_at : ℕ
  pub released : Bool
  pub known : Bool
  pub updated : Bool
  pub online_again : Bool

abbrev pub is_queued : JobStatus → Bool
is_queued s = status_eq s queued

abbrev pub is_started : JobStatus → Bool
is_started s = status_eq s dispatched || status_eq s running || status_eq s waiting_for_input

abbrev pub never_acknowledged : String
never_acknowledged = "Agent disconnected before acknowledgement; execution is unknown."

abbrev pub connection_lost : String
connection_lost = "Agent connection was lost."

abbrev pub lose : String → JobRow → JobRow
lose detail row = record row { status = disconnected; status_detail = some detail }

-- The message of the loop over the jobs that were found.
abbrev pub announce_lost : List (ℕ × JobRow) → List Act
announce_lost = map λ (x : ℕ × JobRow). serves (
    broadcasts x.1.user_id x.0
      (ServerToClientMessage.job_status x.0 disconnected (some x.1.exit_code)))

module _ {Db : Type 0} {table : JobTable Db} (queries : JobQueries Db table)
    (me : AgentAuthContext) where
  open queries use {find_many, update_many, updated_at}

  -- A job of the device, in one of the states, that was not written since.
  abbrev pub is_left : Db → (disconnected_at : ℕ) → (JobStatus → Bool) → ℕ → JobRow → Bool
  is_left db at states job row =
      row.device_id == me.device_id && states row.status && leb (updated_at db job) at

  -- The transaction.
  unfoldable pub lose_jobs : Db → (disconnected_at : ℕ) → Db
  lose_jobs db at =
      let db₁ = update_many db (is_left db at is_queued) (lose never_acknowledged) in
      update_many db₁ (is_left db₁ at is_started) (lose connection_lost)

  -- The update counts as an act only if it has found the row.
  unfoldable pub leave_device : Departure → List Act
  leave_device d =
      if not d.known || not d.updated
      then []
      else updates_device me.device_id false d.disconnected_at
        ∷ (if not d.online_again
            then broadcasts_device me.user_id
                (ServerToClientMessage.device_status me.device_id offline d.disconnected_at)
              ∷ []
            else [])

  unfoldable pub close_agent : Session → Departure → Db → Db × List Act
  unfolding lose_jobs leave_device
  close_agent s d db = if not s.hello_received || not d.released then (db, []) else (
    lose_jobs db d.disconnected_at,
    cancels_validations me.device_id
        ∷ (leave_device d
            ++ announce_lost
                (find_many db (is_left db d.disconnected_at λ st. is_queued st || is_started st))),
  )
