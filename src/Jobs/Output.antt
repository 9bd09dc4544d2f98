-- ===== src/Jobs/Output.antt =====
-- The stored output of a job: `persistChunks`, `replay` and `latestSequence` of
-- apps/server/src/services/jobs.ts, and `chunkIdsToRemove` of apps/server/src/lib/domain.ts.
-- The database of output chunks and of the two counters of a job is a parameter.
mod Store
pub mod Eviction
pub mod Loop
pub mod Insertion
pub mod Retention
pub mod Exact
pub mod Listed
use Prim.Native.String.{len}
use relaydock.Prelude.{
  ℕ, zero, suc, ℤ, pos, negsuc, ◌+◌, ◌-◌, ◌*◌, min, max, String, Bool, true, false, not, ◌||◌,
  Option, none, some, List, [], ◌∷◌, ◌++◌, ◌==◌, if◌then◌else◌, ltb, leb, map, mem, keep_if, length,
  sum,
}
use relaydock.Protocol.{OutputStream, OutputChunk}
pub use Store.*

-- `chunkIdsToRemove`: the oldest chunks whose bytes make up the excess.
unfoldable pub ids_to_remove : List ChunkRow → (bytes_to_remove : ℕ) → List ℕ
ids_to_remove [] n = []
ids_to_remove (c ∷ cs) n = if n == 0 then [] else c.id ∷ ids_to_remove cs (n - c.byte_length)

abbrev pub bytes : List ChunkRow → ℕ
bytes [] = 0
bytes (c ∷ cs) = c.byte_length + bytes cs

unfoldable pub chunk_ids_to_remove : List ChunkRow → (maximum : ℕ) → List ℕ
unfolding ids_to_remove
chunk_ids_to_remove oldest_first maximum = ids_to_remove oldest_first (bytes oldest_first - maximum)

-- What the eviction loop carries.
pub record Evicting : Type 0 where
  pub remove_ids : List ℕ
  pub removed_sequences : List ℕ
  pub removed_bytes : ℕ
  pub cursor : ℤ

-- The `for` loop over one page; it stops as soon as enough is reclaimed.
unfoldable pub scan_page : (bytes_to_reclaim : ℕ) → List ChunkRow → Evicting → Evicting
scan_page need [] s = s
scan_page need (c ∷ cs) s =
    let s' : Evicting = record {
      remove_ids = s.remove_ids ++ c.id ∷ [];
      removed_sequences = s.removed_sequences ++ c.sequence ∷ [];
      removed_bytes = s.removed_bytes + c.byte_length;
      cursor = pos c.sequence;
    } in
    if leb need s'.removed_bytes then s' else scan_page need cs s'

-- The result of `persistChunks`.
pub record Persisted : Type 0 where
  pub chunks : List OutputChunk
  pub user_id : Option ℕ
  pub truncated : Bool

abbrev pub nothing_persisted : Persisted
nothing_persisted = record { chunks = []; user_id = none; truncated = false }

-- The row of an insertion; the database puts its own identifier in the place of 0.
abbrev pub insert_of : OutputChunk → ChunkRow
insert_of c = record {
  id = 0;
  sequence = c.sequence;
  stream = c.stream;
  text = c.text;
  byte_length = len c.text;
}

abbrev pub page_size : (new_chunks : ℕ) → ℕ
page_size n = min (max (n * 2) 32) 1024

module _ {Db : Type 0} (store : OutputStore Db) (maximum_output_bytes : ℕ) where
  open store use {rows, info, after, existing, create_many, delete_many, set_retention}

  -- The `while` loop; `none` if the fuel runs out.
  unfoldable pub evict :
      (fuel : ℕ)
      → Db
      → (job need page : ℕ) → (removed_sequences : List ℕ) → (removed_bytes : ℕ) → (cursor : ℤ)
      → Option (Db × List ℕ × ℕ)
  evict zero db job need page removed bytes cursor = none
  evict (suc fuel) db job need page removed bytes cursor =
      if leb need bytes then some (db, removed, bytes) else elim (after db job cursor page) [
        | [] ↦ some (db, removed, bytes)
        | c ∷ cs ↦
            let s = scan_page need (c ∷ cs) (record {
              remove_ids = [];
              removed_sequences = removed;
              removed_bytes = bytes;
              cursor = cursor;
            }) in
            evict fuel (delete_many db s.remove_ids) job need page s.removed_sequences
              s.removed_bytes s.cursor
      ]

  -- The eviction of the transaction: none below the cap.
  unfoldable pub enforce_retention :
      (fuel : ℕ) → Db → (job projected new_chunks : ℕ) → Option (Db × List ℕ × ℕ)
  unfolding evict
  enforce_retention fuel db job projected new_chunks =
      let evicted =
        evict fuel db job (projected - maximum_output_bytes) (page_size new_chunks) [] 0
          (negsuc 0) in
      if ltb maximum_output_bytes projected then evicted else some (db, [], 0)

  -- The transaction, and the chunks that it kept. `retainedOutputBytes` never falls below the bytes
  -- of the rows that stand in the table, so that the subtraction does not pass 0.
  unfoldable pub store_chunks :
      (fuel : ℕ) → Db → (job : ℕ) → JobInfo → List OutputChunk → Option (Db × Persisted)
  unfolding enforce_retention
  store_chunks fuel db job i new_chunks =
      let inserts = map insert_of new_chunks in
      let projected = i.retained_output_bytes + bytes inserts in
      elim (enforce_retention fuel (create_many db job inserts) job projected (length new_chunks)) [
        | none ↦ none
        | some (db', removed, removed_bytes) ↦
            let truncated = i.output_truncated || not (length removed == 0) in
            some (
              set_retention db' job (projected - removed_bytes) truncated,
              record {
                chunks = keep_if (λ c. not (mem c.sequence removed)) new_chunks;
                user_id = some i.user_id;
                truncated = truncated;
              },
            )
      ]

  unfoldable pub new_chunks_of : Db → (job : ℕ) → List OutputChunk → List OutputChunk
  new_chunks_of db job chunks =
      let known = existing db job (map (λ (c : OutputChunk). c.sequence) chunks) in
      keep_if (λ c. not (mem c.sequence known)) chunks

  unfoldable pub persist_chunks :
      (fuel : ℕ) → Db → (device job : ℕ) → List OutputChunk → Option (Db × Persisted)
  unfolding store_chunks new_chunks_of
  persist_chunks fuel db device job chunks = elim (info db job) [
    | none ↦ some (db, nothing_persisted)
    | some i ↦
        if not (i.device_id == device) || (length chunks == 0)
        then some (db, nothing_persisted)
        else let news = new_chunks_of db job chunks in
          let stored = store_chunks fuel db job i news in
          if length news == 0 then some (db, nothing_persisted) else stored
  ]
