-- ===== src/Browser.antt =====
-- The viewer's end of a job's stream: `useJobSocket` of apps/web/src/hooks/useJobSocket.ts, on
-- messages that the schema has accepted. Its refs and its state are one record; what it does on the
-- socket and hands to the terminal is a list of acts. The delay of a reconnect is left out.
pub mod Stream
pub mod Paging
use relaydock.Prelude.{
  ℕ, suc, ◌+◌, ℤ, pos, ltb_ℤ, leb, String, Bool, true, false, not, ◌&&◌, ◌||◌, Option, none, some,
  List, [], ◌∷◌, ◌++◌, map, ◌==◌, if◌then◌else◌, or_else,
}
use relaydock.Lifecycle.{JobStatus, completed, failed, cancelled, status_eq, is_terminal_job_status}
use relaydock.Protocol.{OutputChunk, ServerToClientMessage}

pub data ConnectionState : Type 0 where
  connecting connected reconnecting closed is_offline : ConnectionState

pub record Viewer : Type 0 where
  pub last_sequence : ℤ
  pub awaiting_replay : Bool
  pub replay_batch_count : ℕ
  -- Whether the terminal is there to take output.
  pub has_sink : Bool
  pub pending_chunks : List OutputChunk
  pub has_output : Bool
  pub is_terminal : Bool
  pub connection : ConnectionState
  pub status : JobStatus
  pub exit_code : Option ℤ
  pub stream_error : Option String
  pub latest_size : Option (ℕ × ℕ)
  pub reconnect_attempt : ℕ

pub data Act : Type 0 where
  -- The sink takes a chunk.
  shows : OutputChunk → Act
  subscribes : (after_sequence : ℤ) → Act
  resizes : (columns rows : ℕ) → Act
  unsubscribes : Act
  closes : (reason : String) → Act
  -- `closeFinishedSocket` in 250 ms.
  closes_later : Act
  invalidates_job : Act

unfoldable pub emit_output : Viewer → OutputChunk → Viewer × List Act
emit_output v chunk =
    if v.has_sink
    then (record v { has_output = true }, shows chunk ∷ [])
    else (record v { has_output = true; pending_chunks = v.pending_chunks ++ chunk ∷ [] }, [])

unfoldable pub subscribe_output : Viewer → Viewer × List Act
subscribe_output v = (record v { has_sink = true; pending_chunks = [] }, map shows v.pending_chunks)

unfoldable pub unsubscribe_output : Viewer → Viewer
unsubscribe_output v = record v { has_sink = false }

-- The output of the job, on the hot path and on the other.
unfoldable pub receive_output : Viewer → OutputChunk → Viewer × List Act
unfolding emit_output
receive_output v chunk =
    if not (ltb_ℤ v.last_sequence (pos chunk.sequence))
    then (v, [])
    else emit_output
        (record v {
          last_sequence = pos chunk.sequence;
          replay_batch_count =
              if v.awaiting_replay then suc v.replay_batch_count else v.replay_batch_count;
        })
        chunk

unfoldable pub receive_status : Viewer → JobStatus → Option (Option ℤ) → Viewer × List Act
receive_status v status exit_code =
    let replay_has_more = v.awaiting_replay && leb 1000 v.replay_batch_count in
    let v' = record v {
      awaiting_replay = replay_has_more;
      replay_batch_count = 0;
      status = status;
      exit_code = or_else exit_code v.exit_code;
    } in
    if replay_has_more
    then (v', subscribes v.last_sequence ∷ [])
    else if is_terminal_job_status status
    then (
      record v' { is_terminal = true; connection = closed },
      invalidates_job
          ∷ (if status_eq status cancelled
              then unsubscribes ∷ closes "Job finished" ∷ []
              else closes_later ∷ []),
    )
    else (v', [])

-- `onmessage`, for the viewer of `job`.
unfoldable pub receive : (job : ℕ) → Viewer → ServerToClientMessage → Viewer × List Act
unfolding receive_output receive_status
receive job v (ServerToClientMessage.device_status device status seen) = (v, [])
receive job v (ServerToClientMessage.job_output k chunk) =
    if k == job then receive_output v chunk else (v, [])
receive job v (ServerToClientMessage.job_status k status exit_code) =
    if k == job then receive_status v status exit_code else (v, [])
receive job v (ServerToClientMessage.job_completed k exit_code) =
    if k == job
    then (
      record v {
        is_terminal = true;
        status = completed;
        exit_code = some exit_code;
        connection = closed;
      },
      unsubscribes ∷ closes "Job complete" ∷ invalidates_job ∷ [],
    )
    else (v, [])
receive job v (ServerToClientMessage.job_failed k error exit_code) =
    if k == job
    then (
      record v {
        is_terminal = true;
        status = failed;
        exit_code = or_else exit_code none;
        stream_error = some error;
        connection = closed;
      },
      closes "Job failed" ∷ invalidates_job ∷ [],
    )
    else (v, [])

-- `onopen`
unfoldable pub open_socket : Viewer → Viewer × List Act
open_socket v = (
  record v {
    reconnect_attempt = 0;
    connection = connected;
    stream_error = none;
    awaiting_replay = true;
    replay_batch_count = 0;
  },
  subscribes v.last_sequence
      ∷ elim v.latest_size [ none ↦ [] | some (columns, rows) ↦ resizes columns rows ∷ [] ],
)

-- `onclose`; `is_online` is `navigator.onLine`.
unfoldable pub close_socket : Viewer → (is_online : Bool) → Viewer
close_socket v is_online =
    if v.is_terminal
    then record v { connection = closed }
    else if not is_online
    then record v { connection = is_offline }
    else record v { connection = reconnecting; reconnect_attempt = suc v.reconnect_attempt }

-- What happens to the hook.
pub data Event : Type 0 where
  opens : Event
  drops : (is_online : Bool) → Event
  receives : ServerToClientMessage → Event
  mounts unmounts : Event

unfoldable pub handle : (job : ℕ) → Viewer → Event → Viewer × List Act
unfolding open_socket
handle job v opens = open_socket v
handle job v (drops is_online) = (close_socket v is_online, [])
handle job v (receives message) = receive job v message
handle job v mounts = subscribe_output v
handle job v unmounts = (unsubscribe_output v, [])

unfoldable pub handle_all : (job : ℕ) → Viewer → List Event → Viewer × List Act
handle_all job v [] = (v, [])
handle_all job v (e ∷ es) =
    let (v', out) = handle job v e in let (v'', out') = handle_all job v' es in (v'', out ++ out')
