-- ===== src/Jobs.antt =====
-- `JobService` (apps/server/src/services/jobs.ts). The database is a parameter: the modules below
-- take its operations and the laws that the service relies on. What the service sends through the
-- connection hub and to the push notifier is returned as a list.
pub mod Table
pub mod Transition
pub mod Output
pub mod Live
pub mod Replay
use relaydock.Prelude.{ℕ, ℤ, String, Bool, Option, List}
use relaydock.Lifecycle.{JobStatus}
use relaydock.Protocol.{ServerToClientMessage, ServerToAgentMessage}

-- The columns of `Job` that the service reads or writes.
pub record JobRow : Type 0 where
  pub id : ℕ
  pub user_id : ℕ
  pub device_id : ℕ
  pub repository_id : ℕ
  pub status : JobStatus
  pub interactive : Bool
  pub exit_code : Option ℤ
  pub status_detail : Option String
  pub retained_output_bytes : ℕ
  pub output_truncated : Bool
  pub started_at : Option ℕ
  pub finished_at : Option ℕ

-- A broadcast to the viewers of a job, a message for the agent of a device, and a notice to the
-- push notifier.
pub data Outgoing : Type 0 where
  broadcasts : (user job : ℕ) → ServerToClientMessage → Outgoing
  to_agent : (device : ℕ) → ServerToAgentMessage → Outgoing
  notifies : JobRow → Outgoing
