-- ===== src/Gateway/Acts.antt =====
-- What the handlers of an agent's socket do, and what they know of the agent.
use relaydock.Prelude.{ℕ, String, Bool, Option, none, some, List}
use relaydock.Protocol.{
  OutputChunk, RepositoryValidationResult, ServerToAgentMessage, ServerToClientMessage,
}
use relaydock.Jobs.{Outgoing, broadcasts}

-- `request.agentAuth`
pub record AgentAuthContext : Type 0 where
  pub device_id : ℕ
  pub user_id : ℕ

-- The local variables of a connection.
pub record Session : Type 0 where
  pub hello_received : Bool
  pub owned_jobs : List ℕ

pub data Act : Type 0 where
  -- What `JobService` sends on the way, and what the handler sends of a job itself.
  serves : Outgoing → Act
  attaches_agent : (device user : ℕ) → Act
  updates_device : (device : ℕ) → (is_online : Bool) → (last_seen_at : ℕ) → Act
  sends_to_agent : (device : ℕ) → ServerToAgentMessage → Act
  broadcasts_device : (user : ℕ) → ServerToClientMessage → Act
  settles : (device : ℕ) → RepositoryValidationResult → Act
  cancels_validations : (device : ℕ) → Act
  -- `relayOutput`, `flushOutput` and `persistOutput`.
  relays : (user device job : ℕ) → OutputChunk → Act
  flushes : (job : ℕ) → Act
  persists : (device job : ℕ) → List OutputChunk → Act
  closes : (code : ℕ) (reason : String) → Act

-- The job that an act is about.
abbrev pub act_job : Act → Option ℕ
act_job (serves (broadcasts user job message)) = some job
act_job (sends_to_agent device (ServerToAgentMessage.job_buffer_request job cursor)) = some job
act_job (relays user device job chunk) = some job
act_job (flushes job) = some job
act_job (persists device job chunks) = some job
act_job _ = none
