-- ===== src/Examples/Sockets.antt =====
-- Jobs of two devices, and the socket of one agent.
use relaydock.Prelude.{
  ℕ, pos, String, true, false, none, some, List, [], ◌∷◌, ◌≡◌, refl, arith, Dict, get, map_option,
}
use relaydock.Lifecycle.{queued, running, disconnected, can_transition_job}
use relaydock.Protocol.{AgentToServerMessage, agent_hello, stdout}
use relaydock.Errors.{AppError}
use relaydock.Jobs.{JobRow}
use relaydock.Jobs.Table.{listed_jobs}
use relaydock.Gateway.Acts.{AgentAuthContext, Session}
use relaydock.Gateway.Queries.{listed_queries}
use relaydock.Gateway.Agent.{Answers, owns, process_all}
use relaydock.Gateway.Confinement.{agent_confined}
use relaydock.Gateway.Spares.{Avoids}
use relaydock.Gateway.Closing.{Departure, close_agent}
use relaydock.Gateway.Losses.{close_bypasses_table}

abbrev job : (id device : ℕ) → JobRow
job id device = record {
  id = id;
  user_id = 2;
  device_id = device;
  repository_id = 3;
  status = queued;
  interactive = true;
  exit_code = none;
  status_detail = none;
  retained_output_bytes = 0;
  output_truncated = false;
  started_at = none;
  finished_at = none;
}

abbrev jobs : Dict JobRow
jobs = (7, job 7 5) ∷ (8, job 8 6) ∷ []

abbrev agent : AgentAuthContext
agent = record { device_id = 6; user_id = 2 }

abbrev fresh : Session
fresh = record { hello_received = false; owned_jobs = [] }

abbrev answers : Answers
answers = record {
  now = 100;
  revoked = false;
  beating = true;
  reached = true;
  heartbeat_interval_ms = 15000;
  latest_sequence = λ j. pos 4;
  is_open = true;
}

abbrev reason : AppError → String
reason e = "invalid"

-- The agent claims a job of another device.
abbrev messages : List (Answers × AgentToServerMessage)
messages =
    (
      answers,
      agent_hello (record {
        device_id = 6;
        name = "laptop";
        platform = "linux";
        architecture = "x64";
        agent_version = "1";
        running_job_ids = 7 ∷ 8 ∷ [];
      }),
    )
    ∷ (
      answers,
      AgentToServerMessage.job_output 7 (record { sequence = 1; stream = stdout; text = "x" }),
    )
    ∷ (answers, AgentToServerMessage.job_completed 7 (pos 0))
    ∷ (answers, AgentToServerMessage.job_completed 8 (pos 0))
    ∷ []

agent_confined_example :
    let (s', (db', out)) = process_all listed_queries true agent reason fresh messages jobs in
    (get db' 7 ≡ get jobs 7) × Avoids 7 out
unfolding listed_jobs get owns
agent_confined_example =
    agent_confined listed_queries true agent 7 reason fresh messages jobs refl refl

abbrev departure : Departure
departure = record {
  disconnected_at = 200;
  released = true;
  known = true;
  updated = true;
  online_again = false;
}

abbrev greeted : Session
greeted = record fresh { hello_received = true }

close_bypasses_table_example :
    (map_option
        (λ (r : JobRow). r.status)
        (get (close_agent listed_queries agent greeted departure jobs).0 8)
      ≡ some disconnected)
    × (can_transition_job queued disconnected ≡ false)
    × (can_transition_job disconnected running ≡ true)
unfolding listed_jobs listed_queries get
close_bypasses_table_example =
    close_bypasses_table listed_queries agent greeted departure jobs 8 (job 8 6) refl refl refl refl
      refl (omega arith)
