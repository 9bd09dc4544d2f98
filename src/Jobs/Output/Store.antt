-- ===== src/Jobs/Output/Store.antt =====
-- The rows of `JobOutputChunk` and of `Job` as the output code uses them through Prisma. A view of
-- the table, the rows of a job in ascending order of sequence, states what each query does.
use relaydock.Prelude.{
  ℕ, ℤ, pos, ◌<◌, String, Bool, not, Option, List, [], ◌∷◌, ◌≡◌, ◌≢◌, ◌&&◌, ◌==◌, if◌then◌else◌,
  ltb, ltb_ℤ, take, keep_if, mem, All, map, map_option,
}
use relaydock.Protocol.{OutputStream}

pub record ChunkRow : Type 0 where
  pub id : ℕ
  pub sequence : ℕ
  pub stream : OutputStream
  pub text : String
  pub byte_length : ℕ

-- What the output code reads and writes of a job's row.
pub record JobInfo : Type 0 where
  pub device_id : ℕ
  pub user_id : ℕ
  pub output_truncated : Bool
  pub retained_output_bytes : ℕ

-- Rows in strictly ascending order of sequence, and no identifier twice.
abbrev pub Ascending : List ChunkRow → Type 0
Ascending [] = Unit
Ascending (r ∷ rs) = All (λ q. r.sequence < q.sequence) rs × Ascending rs

abbrev pub Unrepeated : List ChunkRow → Type 0
Unrepeated [] = Unit
Unrepeated (r ∷ rs) = All (λ q. q.id ≢ r.id) rs × Unrepeated rs

-- Where a new row goes; a row whose sequence is there already is skipped.
abbrev pub insert_row : ChunkRow → List ChunkRow → List ChunkRow
insert_row new [] = new ∷ []
insert_row new (r ∷ rs) =
    if new.sequence == r.sequence
    then r ∷ rs
    else if ltb new.sequence r.sequence
    then new ∷ r ∷ rs
    else r ∷ insert_row new rs

abbrev pub insert_rows : List ChunkRow → List ChunkRow → List ChunkRow
insert_rows [] rs = rs
insert_rows (new ∷ news) rs = insert_rows news (insert_row new rs)

-- The rows of an insertion, each with the identifier that the database gives it.
abbrev pub with_ids : (ℕ → ℕ) → List ChunkRow → List ChunkRow
with_ids chosen [] = []
with_ids chosen (r ∷ rs) = record r { id = chosen r.sequence } ∷ with_ids chosen rs

abbrev pub sequences : List ChunkRow → List ℕ
sequences = map (λ (r : ChunkRow). r.sequence)

pub record OutputStore (Db : Type 0) : Type 0 where
  -- The rows of a job, and the job's own columns.
  pub rows : Db → (job : ℕ) → List ChunkRow
  pub info : Db → (job : ℕ) → Option JobInfo
  -- `findMany({ where: { jobId, sequence: { gt } }, orderBy: { sequence: 'asc' }, take })`
  pub after : Db → (job : ℕ) → (cursor : ℤ) → (limit : ℕ) → List ChunkRow
  -- `findMany({ where: { jobId, sequence: { in } }, select: { sequence } })`
  pub existing : Db → (job : ℕ) → (wanted : List ℕ) → List ℕ
  -- `createMany({ data, skipDuplicates: true })`; the database chooses each row's identifier.
  pub create_many : Db → (job : ℕ) → List ChunkRow → Db
  pub chosen_id : Db → (job sequence : ℕ) → ℕ
  -- `deleteMany({ where: { id: { in: ids } } })`
  pub delete_many : Db → List ℕ → Db
  -- `job.update({ data: { retainedOutputBytes, outputTruncated } })`
  pub set_retention : Db → (job retained : ℕ) → (truncated : Bool) → Db
  -- A unique key of the job and the sequence, and a primary key.
  pub rows_ascending : (db : Db) (job : ℕ) → Ascending (rows db job)
  pub rows_unrepeated : (db : Db) (job : ℕ) → Unrepeated (rows db job)
  pub after-eq :
      (db : Db) (job : ℕ) (cursor : ℤ) (limit : ℕ)
      → after db job cursor limit
        ≡ take limit (keep_if (λ r. ltb_ℤ cursor (pos r.sequence)) (rows db job))
  pub mem-existing :
      (db : Db) (job s : ℕ) (wanted : List ℕ)
      → mem s (existing db job wanted) ≡ (mem s wanted && mem s (sequences (rows db job)))
  pub rows-create_many :
      (db : Db) (job : ℕ) (news : List ChunkRow)
      → rows (create_many db job news) job
        ≡ insert_rows (with_ids (chosen_id db job) news) (rows db job)
  pub rows-delete_many :
      (db : Db) (job : ℕ) (ids : List ℕ)
      → rows (delete_many db ids) job ≡ keep_if (λ r. not (mem r.id ids)) (rows db job)
  pub rows-set_retention :
      (db : Db) (job k retained : ℕ) (truncated : Bool)
      → rows (set_retention db k retained truncated) job ≡ rows db job
  pub info-create_many :
      (db : Db) (job k : ℕ) (news : List ChunkRow) → info (create_many db k news) job ≡ info db job
  pub info-delete_many :
      (db : Db) (job : ℕ) (ids : List ℕ) → info (delete_many db ids) job ≡ info db job
  pub info-set_retention :
      (db : Db) (job k retained : ℕ) (truncated : Bool)
      → info (set_retention db k retained truncated) job ≡ (
          if k == job
          then map_option
              (λ (i : JobInfo). record i {
                retained_output_bytes = retained;
                output_truncated = truncated;
              })
              (info db job)
          else info db job)
