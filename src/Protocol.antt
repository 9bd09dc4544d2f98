-- ===== src/Protocol.antt =====
-- The messages of packages/protocol/src/index.ts, one constructor for each `type`. Identifiers and
-- times are numbers, since the program compares them only; the version, the request identifier and
-- the time stamp of an envelope, and the protocol versions of `agent.hello`, are read by nothing that
-- is modelled and are left out.
use relaydock.Prelude.{ℕ, ℤ, String, Bool, Option, none, some, List}
use relaydock.Lifecycle.{JobStatus}

pub data OutputStream : Type 0 where
  stdout stderr system : OutputStream

-- `text` is the field `data`.
pub record OutputChunk : Type 0 where
  pub sequence : ℕ
  pub stream : OutputStream
  pub text : String

pub data DeviceStatus : Type 0 where
  online offline revoked : DeviceStatus

pub record AgentHello : Type 0 where
  pub device_id : ℕ
  pub name : String
  pub platform : String
  pub architecture : String
  pub agent_version : String
  pub running_job_ids : List ℕ

pub record RepositoryValidationResult : Type 0 where
  pub repository_id : ℕ
  pub valid : Bool
  pub canonical_path : Option String
  pub repository_root : Option String
  pub is_git_repository : Bool
  pub branch : Option String
  pub error : Option String

pub data AgentToServerMessage : Type 0 where
  agent_hello : AgentHello → AgentToServerMessage
  agent_heartbeat : (device_id : ℕ) → AgentToServerMessage
  agent_status : (device_id : ℕ) (online : Bool) (detail : Option String) → AgentToServerMessage
  repository_validation_result : RepositoryValidationResult → AgentToServerMessage
  job_accepted : (job_id : ℕ) → AgentToServerMessage
  job_started : (job_id : ℕ) (pid : Option ℕ) → AgentToServerMessage
  job_output : (job_id : ℕ) → OutputChunk → AgentToServerMessage
  job_status : (job_id : ℕ) → JobStatus → (detail : Option String) → AgentToServerMessage
  job_completed : (job_id : ℕ) (exit_code : ℤ) → AgentToServerMessage
  job_failed : (job_id : ℕ) (error : String) (exit_code : Option ℤ) → AgentToServerMessage
  job_cancelled : (job_id : ℕ) → AgentToServerMessage
  job_input_acknowledged : (job_id : ℕ) (input_sequence : ℕ) → AgentToServerMessage
  job_buffer_sync : (job_id : ℕ) → List OutputChunk → AgentToServerMessage

pub record JobStart : Type 0 where
  pub job_id : ℕ
  pub repository_id : ℕ
  pub repository_path : String
  pub command : String
  -- As code units.
  pub working_directory : List ℕ
  pub interactive : Bool
  pub persistent : Bool
  pub shell : String
  pub shell_args : List String
  pub inherited_environment : List String
  pub columns : ℕ
  pub rows : ℕ

pub data ServerToAgentMessage : Type 0 where
  agent_welcome : (device_id heartbeat_interval_ms server_time : ℕ) → ServerToAgentMessage
  repository_validate : (repository_id : ℕ) (absolute_path : String) → ServerToAgentMessage
  job_start : JobStart → ServerToAgentMessage
  job_input : (job_id input_sequence : ℕ) (text : String) → ServerToAgentMessage
  job_resize : (job_id columns rows : ℕ) → ServerToAgentMessage
  job_cancel : (job_id : ℕ) → ServerToAgentMessage
  job_buffer_request : (job_id : ℕ) (after_sequence : ℤ) → ServerToAgentMessage

-- An exit code that is optional and nullable has two layers: absent, and `null`.
pub data ServerToClientMessage : Type 0 where
  device_status : (device_id : ℕ) → DeviceStatus → (last_seen_at : ℕ) → ServerToClientMessage
  job_status : (job_id : ℕ) → JobStatus → Option (Option ℤ) → ServerToClientMessage
  job_output : (job_id : ℕ) → OutputChunk → ServerToClientMessage
  job_completed : (job_id : ℕ) (exit_code : ℤ) → ServerToClientMessage
  job_failed : (job_id : ℕ) (error : String) → Option (Option ℤ) → ServerToClientMessage

pub data ClientToServerMessage : Type 0 where
  job_subscribe : (job_id : ℕ) (after_sequence : ℤ) → ClientToServerMessage
  job_unsubscribe : (job_id : ℕ) → ClientToServerMessage
  job_input : (job_id input_sequence : ℕ) (text : String) → ClientToServerMessage
  job_resize : (job_id columns rows : ℕ) → ClientToServerMessage
  job_cancel : (job_id : ℕ) → ClientToServerMessage

-- The job that a message to a viewer speaks of.
abbrev pub job_of : ServerToClientMessage → Option ℕ
job_of (ServerToClientMessage.device_status d s t) = none
job_of (ServerToClientMessage.job_status j s e) = some j
job_of (ServerToClientMessage.job_output j c) = some j
job_of (ServerToClientMessage.job_completed j e) = some j
job_of (ServerToClientMessage.job_failed j r e) = some j
