-- ===== src/Examples/Live.antt =====
-- Output of two jobs on its way to the table.
use relaydock.Prelude.{
  pos, map, get, ℕ, negsuc, true, none, some, List, [], ◌∷◌, ◌++◌, ◌≡◌, refl, arith, All,
  if◌then◌else◌, ◌==◌,
}
use relaydock.Protocol.{OutputChunk, stdout}
use relaydock.Jobs.Output.{ChunkRow, JobInfo}
use relaydock.Jobs.Output.Listed.{Listed, listed_output}
use relaydock.Jobs.Live.{Buffers, Event, relays, flushes, handle_all}
use relaydock.Jobs.Live.Conservation.{stored, waiting, sent, live_output_conserved}
use relaydock.Jobs.Live.Bounds.{ArePartial, IsBatch, buffers_bounded}
use relaydock.Lifecycle.{running}
use relaydock.Jobs.{JobRow}
use relaydock.Jobs.Table.{listed_jobs}
use relaydock.Jobs.Transition.{find_owned, status_message}
use relaydock.Viewers.{Sockets, Clients, run}
use relaydock.Viewers.Invariant.{IsWell}
use relaydock.Viewers.Frames.{frames}
use relaydock.Gateway.Viewing.{chunk_message, subscribe, subscriber_sees}
use relaydock.Jobs.Replay.{chunk_of, replay, replay_chunks}
use relaydock.Jobs.Replay.Order.{Follows, replay-Follows}

abbrev chunk : ℕ → OutputChunk
chunk n = record { sequence = n; stream = stdout; text = "x" }

abbrev buffers : Buffers
buffers = (7, record { device_id = 5; chunks = chunk 1 ∷ []; timer = true }) ∷ []

abbrev events : List Event
events = relays 2 5 7 (chunk 2) ∷ relays 2 5 8 (chunk 1) ∷ flushes 7 ∷ relays 2 5 7 (chunk 3) ∷ []

live_output_conserved_example :
    stored 7 (handle_all buffers events).2 ++ waiting (handle_all buffers events).0 7
    ≡ waiting buffers 7 ++ sent 7 events
live_output_conserved_example = live_output_conserved buffers events 7

buffers_bounded_example :
    ArePartial (handle_all buffers events).0 × All IsBatch (handle_all buffers events).2
buffers_bounded_example =
    buffers_bounded buffers events
      (record { some_chunks = omega arith; room = omega arith; armed = refl }, tt)

abbrev row : ℕ → ChunkRow
row n = record { id = n; sequence = n; stream = stdout; text = "abc"; byte_length = 3 }

abbrev counters : JobInfo
counters = record { device_id = 5; user_id = 2; output_truncated = true; retained_output_bytes = 6 }

-- The chunks before number 4 have been removed.
table : Listed
table = record {
  table = λ j. if j == 7 then row 4 ∷ row 5 ∷ [] else [];
  infos = λ j. if j == 7 then some counters else none;
  ascending = λ j. ground arith;
  named = λ j. ground arith;
}

replay-Follows_example :
    Follows (negsuc 0) (replay_chunks listed_output table 7 (negsuc 0) 100 true)
unfolding table listed_output
replay-Follows_example =
    replay-Follows listed_output table 7 100 (negsuc 0) true (λ e. ground arith)

abbrev job : JobRow
job = record {
  id = 7;
  user_id = 2;
  device_id = 5;
  repository_id = 3;
  status = running;
  interactive = true;
  exit_code = none;
  status_detail = none;
  retained_output_bytes = 6;
  output_truncated = true;
  started_at = some 50;
  finished_at = none;
}

abbrev sockets : Sockets
sockets = record { ready_state = λ s. 1; buffered_amount = λ s. 0 }

abbrev clients : Clients
clients = (20, record { user_id = 2; subscriptions = [] }) ∷ []

clients-IsWell : IsWell clients
unfolding get
clients-IsWell = record { distinct = (refl, tt); tidy = (tt, tt) }

subscriber_sees_example :
    frames 20 7
      (run clients (
        map
          (λ e. (sockets, e))
          (subscribe listed_jobs true listed_output
            (λ db j. db)
            ((7, job) ∷ [])
            table
            2
            20
            7
            (pos 3)).1)).1
    ≡ map (chunk_message 7) (chunk_of (row 4) ∷ chunk_of (row 5) ∷ []) ++ status_message 7 job ∷ []
unfolding table listed_output listed_jobs find_owned replay replay_chunks get
subscriber_sees_example =
    subscriber_sees listed_jobs true listed_output (λ db j. db) ((7, job) ∷ []) table 2 20 7 (pos 3)
      job (chunk_of (row 4) ∷ chunk_of (row 5) ∷ []) sockets clients
      (record { user_id = 2; subscriptions = [] }) refl refl refl refl clients-IsWell
      (refl, omega arith)
