-- ===== src/Examples/Output.antt =====
-- A job with three chunks of output, and a batch that goes beyond the cap.
use relaydock.Prelude.{
  ℕ, false, none, some, List, [], ◌∷◌, ◌≡◌, refl, arith, map_option, ◌==◌, if◌then◌else◌,
}
use relaydock.Protocol.{OutputChunk, stdout}
use relaydock.Jobs.Output.{
  ChunkRow, JobInfo, persist_chunks, scan_page, Persisted, new_chunks_of, bytes,
}
use relaydock.Jobs.Output.Retention.{IsCapped, persist-IsCapped}
use relaydock.Jobs.Output.Exact.{IsTrimmed, persist-IsTrimmed}
use relaydock.Jobs.Output.Listed.{Listed, listed_output}

abbrev row : ℕ → ChunkRow
row n = record { id = n; sequence = n; stream = stdout; text = "abc"; byte_length = 3 }

abbrev rows : List ChunkRow
rows = row 0 ∷ row 1 ∷ row 2 ∷ []

abbrev counters : JobInfo
counters = record {
  device_id = 3;
  user_id = 1;
  output_truncated = false;
  retained_output_bytes = 9;
}

store : Listed
store = record {
  table = λ j. if j == 7 then rows else [];
  infos = λ j. if j == 7 then some counters else none;
  ascending = λ j. ground arith;
  named = λ j. ground arith;
}

-- The first chunk stands in the table already.
abbrev batch : List OutputChunk
batch =
    record { sequence = 2; stream = stdout; text = "abc" }
    ∷ record { sequence = 3; stream = stdout; text = "defg" }
    ∷ []

batch-bytes :
    map_option
      (λ (r : Listed × Persisted). bytes (r.0.table 7))
      (persist_chunks listed_output 10 9 store 3 7 batch)
    ≡ some 10
unfolding store listed_output persist_chunks scan_page
batch-bytes = refl

persist-IsCapped_example :
    (db' : Listed) × (p : Persisted) × (persist_chunks listed_output 10 9 store 3 7 batch
      ≡ some (db', p))
    × IsCapped listed_output 10 db' 7
unfolding store listed_output
persist-IsCapped_example =
    persist-IsCapped listed_output 10 9 store 3 7 batch
      (record { known = counters; info_is = refl; covered = omega arith; capped = omega arith })
      (omega arith)

persist-IsTrimmed_example :
    (db' : Listed) × (p : Persisted) × (persist_chunks listed_output 10 9 store 3 7 batch
      ≡ some (db', p))
    × IsTrimmed listed_output 10 store db' 7 (new_chunks_of listed_output 10 store 7 batch)
unfolding store listed_output new_chunks_of
persist-IsTrimmed_example =
    persist-IsTrimmed listed_output 10 9 store 3 7 batch
      (record { known = counters; info_is = refl; exact = refl }) refl (λ e. cc) (refl, (refl, tt))
      (omega arith)
