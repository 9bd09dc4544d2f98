-- ===== src/Jobs/Live.antt =====
-- The live path of `JobService` (apps/server/src/services/jobs.ts): `relayOutput`, `flushOutput`,
-- `enqueuePersist`, `flushPersist` and `persistOutput`. A batch is a call of `persistChunks`;
-- `serializeOutput` runs the batches of a job one after another, in the order of these calls.
pub mod Conservation
pub mod Bounds
use relaydock.Prelude.{
  ℕ, ◌+◌, Bool, true, false, Option, none, some, List, [], ◌∷◌, ◌++◌, map, Dict, get, put, delete,
  leb, length, if◌then◌else◌,
}
use relaydock.Protocol.{OutputChunk, ServerToClientMessage}
use relaydock.Jobs.{Outgoing, broadcasts}
use relaydock.Jobs.Output.{OutputStore, Persisted, persist_chunks}

pub record PendingPersist : Type 0 where
  pub device_id : ℕ
  pub chunks : List OutputChunk
  -- Whether the timer is set.
  pub timer : Bool

-- The field `pendingPersist`, by job.
abbrev pub Buffers : Type 0
Buffers = Dict PendingPersist

pub record Batch : Type 0 where
  pub device_id : ℕ
  pub job : ℕ
  pub chunks : List OutputChunk

abbrev pub persist_flush_chunks : ℕ
persist_flush_chunks = 200

unfoldable pub flush_persist : Buffers → (job : ℕ) → Buffers × List Batch
flush_persist b job = elim (get b job) [
  | none ↦ (b, [])
  | some e ↦ (delete b job, record { device_id = e.device_id; job = job; chunks = e.chunks } ∷ [])
]

-- `this.pendingPersist.get(jobId)`, or the new entry.
unfoldable pub entry_of : Buffers → (device job : ℕ) → PendingPersist
entry_of b device job = elim (get b job) [
  | none ↦ record { device_id = device; chunks = []; timer = false }
  | some e ↦ e
]

unfoldable pub enqueue_persist : Buffers → (device job : ℕ) → OutputChunk → Buffers × List Batch
enqueue_persist b device job chunk =
    let e = entry_of b device job in
    let chunks = e.chunks ++ chunk ∷ [] in
    if leb persist_flush_chunks (length chunks)
    then flush_persist (put b job (record e { chunks = chunks })) job
    else (put b job (record e { chunks = chunks; timer = true }), [])

abbrev pub output_message : (job : ℕ) → OutputChunk → ServerToClientMessage
output_message job chunk = ServerToClientMessage.job_output job chunk

-- The chunk goes to the viewers at once, and into the buffer.
unfoldable pub relay_output :
    Buffers → (user device job : ℕ) → OutputChunk → Buffers × List Outgoing × List Batch
relay_output b user device job chunk =
    let (b', batches) = enqueue_persist b device job chunk in
    (b', broadcasts user job (output_message job chunk) ∷ [], batches)

-- What happens to the buffers: a chunk from an agent, and a flush, by the timer of the job, before
-- the job ends, or for a viewer that subscribes.
pub data Event : Type 0 where
  relays : (user device job : ℕ) → OutputChunk → Event
  flushes : (job : ℕ) → Event

unfoldable pub handle : Buffers → Event → Buffers × List Outgoing × List Batch
handle b (relays user device job chunk) = relay_output b user device job chunk
handle b (flushes job) = let (b', batches) = flush_persist b job in (b', [], batches)

unfoldable pub handle_all : Buffers → List Event → Buffers × List Outgoing × List Batch
handle_all b [] = (b, [], [])
handle_all b (e ∷ es) =
    let (b', out, batches) = handle b e in
    let (b'', out', batches') = handle_all b' es in (b'', out ++ out', batches ++ batches')

module _ {Db : Type 0} (store : OutputStore Db) (maximum_output_bytes : ℕ) where
  -- `persistOutput`, of a buffer sync: what was stored is broadcast, each chunk by itself.
  unfoldable pub persist_output :
      (fuel : ℕ)
      → Db
      → (device job : ℕ) → List OutputChunk
      → Option (Db × List Outgoing × Persisted)
  persist_output fuel db device job chunks =
      elim (persist_chunks store maximum_output_bytes fuel db device job chunks) [
        | none ↦ none
        | some (db', p) ↦ some (
          db',
          elim p.user_id [
            | none ↦ []
            | some user ↦ map (λ c. broadcasts user job (output_message job c)) p.chunks
          ],
          p,
        )
      ]
