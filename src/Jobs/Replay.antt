-- ===== src/Jobs/Replay.antt =====
-- `replay` and `latestSequence` of `JobService` (apps/server/src/services/jobs.ts), and
-- `serializeOutputChunk` of apps/server/src/lib/serializers.ts without the time stamp. The reads of a
-- call see one state of the tables.
pub mod Order
use relaydock.Prelude.{
  ℕ, ◌-◌, ℤ, pos, negsuc, ltb_ℤ, String, Bool, true, false, not, Option, none, some, List, [], ◌∷◌,
  ◌++◌, map, ◌==◌, if◌then◌else◌, map_option, or_else,
}
use relaydock.Protocol.{OutputStream, system, OutputChunk}
use relaydock.Errors.{Result, ok, err, job_not_found}
use relaydock.Jobs.Output.{ChunkRow, JobInfo, OutputStore}

abbrev pub chunk_of : ChunkRow → OutputChunk
chunk_of r = record { sequence = r.sequence; stream = r.stream; text = r.text }

abbrev pub notice_text : String
notice_text = "[Earlier output was removed by the server retention limit.]\r\n"

abbrev pub notice : (sequence : ℕ) → OutputChunk
notice n = record { sequence = n; stream = system; text = notice_text }

abbrev pub first_sequence : List ChunkRow → Option ℕ
first_sequence [] = none
first_sequence (r ∷ rs) = some r.sequence

abbrev pub last_sequence : List ChunkRow → Option ℕ
last_sequence [] = none
last_sequence (r ∷ []) = some r.sequence
last_sequence (r ∷ q ∷ rs) = last_sequence (q ∷ rs)

-- `Math.max(0, (earliest?.sequence ?? 1) - 1)`
abbrev pub notice_sequence : List ChunkRow → ℕ
notice_sequence rs = or_else (first_sequence rs) 1 - 1

module _ {Db : Type 0} (store : OutputStore Db) where
  open store use {rows, info, after}

  -- What `replay` returns once the job is found.
  unfoldable pub replay_chunks :
      Db → (job : ℕ) → (after_sequence : ℤ) → (limit : ℕ) → (truncated : Bool) → List OutputChunk
  replay_chunks db job after_sequence limit truncated =
      let chunks = map chunk_of (after db job after_sequence limit) in
      let n = notice_sequence (rows db job) in
      if not truncated
      then chunks
      else (if ltb_ℤ after_sequence (pos n) then notice n ∷ [] else []) ++ chunks

  unfoldable pub replay :
      Db → (user job : ℕ) → (after_sequence : ℤ) → (limit : ℕ) → Result (List OutputChunk)
  replay db user job after_sequence limit = elim (info db job) [
    | none ↦ err job_not_found
    | some i ↦
        if not (i.user_id == user)
        then err job_not_found
        else ok (replay_chunks db job after_sequence limit i.output_truncated)
  ]

  unfoldable pub latest_sequence : Db → (job : ℕ) → ℤ
  latest_sequence db job = elim (last_sequence (rows db job)) [ none ↦ negsuc 0 | some n ↦ pos n ]
