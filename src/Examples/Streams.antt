-- ===== src/Examples/Streams.antt =====
-- A viewer of job 7 whose replay goes on.
use relaydock.Prelude.{ℕ, pos, true, false, none, List, [], ◌∷◌, ◌++◌, ◌≡◌, refl, arith}
use relaydock.Lifecycle.{running}
use relaydock.Protocol.{OutputChunk, ServerToClientMessage, stdout}
use relaydock.Jobs.Replay.Order.{Follows}
use relaydock.Browser.{
  Viewer, connected, shows, subscribes, Event, opens, drops, receives, mounts, unmounts, handle_all,
}
use relaydock.Browser.Stream.{shown, novel, shown_once}
use relaydock.Browser.Paging.{outputs, live_chunk_hides_page}

abbrev chunk : ℕ → OutputChunk
chunk n = record { sequence = n; stream = stdout; text = "x" }

abbrev output : ℕ → Event
output n = receives (ServerToClientMessage.job_output 7 (chunk n))

-- The first page ended with chunk 999.
abbrev viewer : Viewer
viewer = record {
  last_sequence = pos 999;
  awaiting_replay = true;
  replay_batch_count = 1000;
  has_sink = true;
  pending_chunks = [];
  has_output = true;
  is_terminal = false;
  connection = connected;
  status = running;
  exit_code = none;
  stream_error = none;
  latest_size = none;
  reconnect_attempt = 0;
}

abbrev events : List Event
events =
    output 1000
    ∷ unmounts
    ∷ output 1001
    ∷ output 1000
    ∷ drops true
    ∷ opens
    ∷ output 1001
    ∷ mounts
    ∷ []

shown_once_example :
    let (v', out) = handle_all 7 viewer events in
    (shown out ++ v'.pending_chunks ≡ [] ++ novel 7 (pos 999) events)
    × Follows (pos 999) (novel 7 (pos 999) events)
shown_once_example = shown_once 7 viewer events (λ there. refl)

live_chunk_hides_page_example :
    (handle_all 7 viewer (
      receives (ServerToClientMessage.job_status 7 running none)
      ∷ output 1500
      ∷ outputs 7 (chunk 1000 ∷ chunk 1001 ∷ []))).1
    ≡ subscribes (pos 999) ∷ shows (chunk 1500) ∷ []
live_chunk_hides_page_example =
    live_chunk_hides_page 7 viewer running none (chunk 1500) (chunk 1000 ∷ chunk 1001 ∷ []) refl
      (omega arith) (omega arith) refl (omega arith, (omega arith, tt))
