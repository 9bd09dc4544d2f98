-- ===== src/Gateway/Viewing.antt =====
-- `job.subscribe` on a viewer's socket (apps/server/src/routes/websockets.ts): the calls that it
-- makes on the connection hub, of which `replays` is `sendClient`.
use relaydock.Prelude.{
  ℕ, ℤ, Bool, true, none, some, List, [], ◌∷◌, ◌++◌, ◌≡◌, refl, ◌∙◌, ap, arith, map, get, All,
  ==_refl, append-nil,
}
use relaydock.Protocol.{OutputChunk, ServerToClientMessage, job_of}
use relaydock.Errors.{Result, ok, err, job_not_found}
use relaydock.Jobs.{JobRow}
use relaydock.Jobs.Table.{JobTable}
use relaydock.Jobs.Transition.{find_owned, status_message}
use relaydock.Jobs.Output.{OutputStore}
use relaydock.Jobs.Replay.{replay}
use relaydock.Viewers.{Sockets, ClientConnection, Clients, Call, begins, finishes, replays, run}
use relaydock.Viewers.Invariant.{IsWell}
use relaydock.Viewers.Frames.{frames}
use relaydock.Viewers.Watching.{IsReady, AreGood, expected, all_streamed}
use relaydock.Viewers.Delivery.{catch_up}

abbrev pub chunk_message : (job : ℕ) → OutputChunk → ServerToClientMessage
chunk_message job chunk = ServerToClientMessage.job_output job chunk

abbrev pub page_messages : (job : ℕ) → JobRow → List OutputChunk → List ServerToClientMessage
page_messages job row chunks = map (chunk_message job) chunks ++ status_message job row ∷ []

-- The table of jobs and the stored output; `flush` is what the wait for `flushOutput` leaves of the
-- output.
module _ {Db Out : Type 0} (table : JobTable Db) (has_notifier : Bool) (store : OutputStore Out)
    (flush : Out → (job : ℕ) → Out) where
  unfoldable pub subscribe :
      Db → Out → (user socket job : ℕ) → (after_sequence : ℤ) → Result (Unit {0}) × List Call
  subscribe db stored user socket job after_sequence =
      elim (find_owned table has_notifier db user job) [
        | none ↦ (err job_not_found, [])
        | some row ↦ elim (replay store (flush stored job) user job after_sequence 1000) [
          | err e ↦ (err e, begins socket job ∷ [])
          | ok chunks ↦ (
            ok tt,
            begins socket job ∷ map (replays socket) (page_messages job row chunks)
                ++ finishes socket job ∷ [],
          )
        ]
      ]

page-About :
    (job : ℕ) (row : JobRow) (chunks : List OutputChunk)
    → All (λ m. job_of m ≡ some job) (page_messages job row chunks)
page-About job row [] = (refl, tt)
page-About job row (c ∷ chunks) = (refl, page-About job row chunks)

module _ (user socket job : ℕ) (k : Sockets) where
  -- Calls with nothing in between.
  abbrev at_once : List Call → List (Sockets × Call)
  at_once = map λ e. (k, e)

  abbrev replayed : List ServerToClientMessage → List (Sockets × Call)
  replayed = map λ m. (k, replays socket m)

  at_once-replayed :
      (ms : List ServerToClientMessage) (es : List Call)
      → at_once (map (replays socket) ms ++ es) ≡ replayed ms ++ at_once es
  at_once-replayed [] es = refl
  at_once-replayed (m ∷ ms) es = ap (λ xs. (k, replays socket m) ∷ xs) (at_once-replayed ms es)

  replayed-AreGood :
      (ms : List ServerToClientMessage)
      → IsReady user socket job k
      → AreGood user socket job (replayed ms)
  replayed-AreGood [] ready = tt
  replayed-AreGood (m ∷ ms) ready = ((ready, tt, tt), replayed-AreGood ms ready)

  expected-replayed :
      (ms : List ServerToClientMessage)
      → All (λ m. job_of m ≡ some job) ms
      → expected user socket job true (replayed ms) ≡ ms
  expected-replayed [] h = refl
  expected-replayed (m ∷ ms) h =
      rw (h.0, ==_refl socket, ==_refl job) (ap (λ xs. m ∷ xs) (expected-replayed ms h.1))

  streamed-replayed :
      (ms : List ServerToClientMessage) → all_streamed user socket job (replayed ms) ≡ []
  streamed-replayed [] = refl
  streamed-replayed (m ∷ ms) = streamed-replayed ms

module _ {Db Out : Type 0} (table : JobTable Db) (has_notifier : Bool) (store : OutputStore Out)
    (flush : Out → (job : ℕ) → Out) where
  -- A viewer that subscribes to a job of its user, with an open socket that keeps up and nothing in
  -- between, is sent of that job: the chunks that `replay` returns once the output has been flushed,
  -- in their order, and then the status, and nothing else.
  pub subscriber_sees :
      (db : Db) (stored : Out) (user socket job : ℕ) (cursor : ℤ) (row : JobRow)
      (chunks : List OutputChunk) (k : Sockets) (clients : Clients) (c : ClientConnection)
      → find_owned table has_notifier db user job ≡ some row
      → replay store (flush stored job) user job cursor 1000 ≡ ok chunks
      → get clients socket ≡ some c
      → c.user_id ≡ user
      → IsWell clients
      → IsReady user socket job k
      → frames socket job
          (run clients (
            map
              (λ e. (k, e))
              (subscribe table has_notifier store flush db stored user socket job cursor).1)).1
        ≡ map (chunk_message job) chunks ++ status_message job row ∷ []
  unfolding subscribe
  subscriber_sees db stored user socket job cursor row chunks k clients c owned page found owner
        well ready =
      let ms = page_messages job row chunks in
      rw (owned, page, subscribe)
        (ap (λ es. frames socket job (run clients ((k, begins socket job) ∷ es)).1)
            (at_once-replayed user socket job k ms (finishes socket job ∷ []))
          ∙ (catch_up user socket job clients c k k (replayed user socket job k ms) [] found owner
                well (replayed-AreGood user socket job k ms ready) ready tt
                (rw (streamed-replayed user socket job k ms) (omega arith))
              ∙ rw
                  (
                    expected-replayed user socket job k ms (page-About job row chunks),
                    streamed-replayed user socket job k ms,
                  )
                  (append-nil ms)))
