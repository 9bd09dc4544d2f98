-- ===== src/Jobs/Output/Retention.antt =====
-- What `persistChunks` keeps: the cap, the accounting, and the order of eviction.
use native.Mathlib.Nat.{zero-add}
use relaydock.Prelude.{
  ℕ, suc, negsuc, ◌+◌, ◌-◌, ◌≤◌, ◌<◌, not, ◌||◌, Option, some, List, [], ◌≡◌, refl, sym, ap, ◌∙◌,
  ◌⊎◌, ◌==◌, ltb, map, mem, keep_if, length-keep_if-le, length, length-map, arith, Bool-cases, inl,
  inr, ==_refl, subst,
}
use relaydock.Protocol.{OutputChunk}
use relaydock.Jobs.Output.{
  ChunkRow, JobInfo, OutputStore, insert_rows, with_ids, sequences, bytes, enforce_retention,
  store_chunks, new_chunks_of, persist_chunks, insert_of, page_size, Persisted, nothing_persisted,
}
use relaydock.Jobs.Output.Eviction.{evicted, kept, evicted-kept, evicted_enough, kept_enough}
use relaydock.Jobs.Output.Loop.{Evicts, evict-Evicts, bytes-append}
use relaydock.Jobs.Output.Insertion.{
  length-insert_rows, bytes-insert_rows-le, bytes-with_ids, length-with_ids, evicted_suffices,
  IsBeyond-start,
}

module _ {Db : Type 0} (store : OutputStore Db) (maximum : ℕ) where
  open store use {
    rows, info, create_many, chosen_id, set_retention, rows-create_many, rows-set_retention,
    info-create_many, info-set_retention,
  }

  -- Below the cap nothing is evicted, which is the loop with nothing to reclaim.
  enforce-Evicts :
      (fuel : ℕ) (db : Db) (job projected n : ℕ)
      → length (rows db job) < fuel
      → Evicts store maximum db job
          (projected - maximum)
          []
          0
          (enforce_retention store maximum fuel db job projected n)
  unfolding enforce_retention
  enforce-Evicts fuel db job projected n h = elim (Bool-cases (ltb maximum projected)) [
    | inl over ↦
        rw (over, page)
          (evict-Evicts store maximum fuel db job (projected - maximum) (page_size n - 1) [] 0
            (negsuc 0) h (IsBeyond-start (rows db job)))
    | inr under ↦
        let none_needed : projected - maximum ≡ 0 = ground arith in
        rw (under, none_needed)
          (record {
            db' = db;
            returned = rw (evicted_enough 0 0 (rows db job) refl) refl;
            left = sym (kept_enough 0 0 (rows db job) refl);
            same_info = refl;
          })
  ]
    where
      page : page_size n ≡ suc (page_size n - 1)
      page = omega arith

  -- The rows with the new chunks among them, and the bytes that are too many.
  abbrev pub merged : Db → (job : ℕ) → List OutputChunk → List ChunkRow
  merged db job news = insert_rows (with_ids (chosen_id db job) (map insert_of news)) (rows db job)

  abbrev pub excess : JobInfo → List OutputChunk → ℕ
  excess i news = i.retained_output_bytes + bytes (map insert_of news) - maximum

  -- What is stored: the rows `whole` less the oldest, until the excess is reclaimed.
  pub record Stores (db : Db) (job : ℕ) (i : JobInfo) (news : List OutputChunk)
      (whole : List ChunkRow) (result : Option (Db × Persisted)) : Type 0 where
    pub db' : Db
    pub persisted : Persisted
    pub returned : result ≡ some (db', persisted)
    pub left : rows db' job ≡ kept (excess i news) 0 whole
    pub reported :
        persisted.chunks
        ≡ keep_if (λ c. not (mem c.sequence (sequences (evicted (excess i news) 0 whole)))) news
    pub info' : JobInfo
    pub new_info : info db' job ≡ some info'
    pub retained :
        info'.retained_output_bytes
        ≡ i.retained_output_bytes
          + bytes (map insert_of news)
          - bytes (evicted (excess i news) 0 whole)
    pub truncated :
        info'.output_truncated
        ≡ (i.output_truncated || not (length (sequences (evicted (excess i news) 0 whole)) == 0))
    pub same_device : info'.device_id ≡ i.device_id

  pub store-Stores :
      (fuel : ℕ) (db : Db) (job : ℕ) (i : JobInfo) (news : List OutputChunk)
      → info db job ≡ some i
      → length (rows db job) + length news < fuel
      → Stores db job i news (merged db job news) (store_chunks store maximum fuel db job i news)
  unfolding store_chunks
  store-Stores fuel db job i news known h =
      let inserts = map insert_of news in
      let db₁ = create_many db job inserts in
      let rows₁ = rows-create_many db job inserts in
      let e = enforce-Evicts fuel db₁ job (i.retained_output_bytes + bytes inserts) (length news) (
        omega (
          arith,
          ap length rows₁,
          length-insert_rows (with_ids (chosen_id db job) inserts) (rows db job),
          length-with_ids (chosen_id db job) inserts,
          length-map {0, 0} news insert_of,
        )) in
      let gone = evicted (excess i news) 0 (rows db₁ job) in
      let truncated = i.output_truncated || not (length (sequences gone) == 0) in
      let retained = i.retained_output_bytes + bytes inserts - bytes gone in
      subst (λ whole. Stores db job i news whole (store_chunks store maximum fuel db job i news))
        rows₁
        (record {
          db' = set_retention e.db' job retained truncated;
          persisted = record {
            chunks = keep_if (λ c. not (mem c.sequence (sequences gone))) news;
            user_id = some i.user_id;
            truncated = truncated;
          };
          returned = rw (e.returned, store_chunks, zero-add) refl;
          left = rows-set_retention e.db' job job retained truncated ∙ e.left;
          reported = refl;
          info' = record i { retained_output_bytes = retained; output_truncated = truncated };
          new_info =
              rw (info-set_retention, ==_refl job, e.same_info, info-create_many, known) refl;
          retained = refl;
          truncated = refl;
          same_device = refl;
        })

  -- What a batch comes to: nothing, or the storing of its new chunks.
  pub persist-cases :
      (fuel : ℕ) (db : Db) (device job : ℕ) (chunks : List OutputChunk) (i : JobInfo)
      → info db job ≡ some i
      → (persist_chunks store maximum fuel db device job chunks ≡ some (db, nothing_persisted))
        ⊎ (persist_chunks store maximum fuel db device job chunks
            ≡ store_chunks store maximum fuel db job i (new_chunks_of store maximum db job chunks))
  unfolding persist_chunks
  persist-cases fuel db device job chunks i known = rw (known, persist_chunks) (ground arith)

  pub length-new_chunks_of-le :
      (db : Db) (job : ℕ) (chunks : List OutputChunk)
      → length (new_chunks_of store maximum db job chunks) ≤ length chunks
  unfolding new_chunks_of
  length-new_chunks_of-le db job chunks = length-keep_if-le _ chunks

  -- What holds of a job's rows and its counter between two batches.
  pub record IsCapped (db : Db) (job : ℕ) : Type 0 where
    pub known : JobInfo
    pub info_is : info db job ≡ some known
    pub covered : bytes (rows db job) ≤ known.retained_output_bytes
    pub capped : bytes (rows db job) ≤ maximum

  pub Stores-IsCapped :
      {db : Db} {job : ℕ} {i : JobInfo} {news : List OutputChunk} {result : Option (Db × Persisted)}
      (s : Stores db job i news (merged db job news) result)
      → bytes (rows db job) ≤ i.retained_output_bytes
      → IsCapped s.db' job
  Stores-IsCapped {db} {job} {i} {news} s covered =
      let whole = merged db job news in
      let all = ap bytes (evicted-kept (excess i news) 0 whole) in
      let parts = bytes-append (evicted (excess i news) 0 whole) (kept (excess i news) 0 whole) in
      let sizes =
        bytes-insert_rows-le (with_ids (chosen_id db job) (map insert_of news)) (rows db job) in
      let ids_free = bytes-with_ids (chosen_id db job) (map insert_of news) in
      let here = ap bytes s.left in
      record {
        known = s.info';
        info_is = s.new_info;
        covered = omega (arith, all, parts, sizes, ids_free, here, s.retained);
        capped = elim (evicted_suffices (excess i news) 0 whole) [
          | inl enough ↦ omega (arith, all, parts, sizes, ids_free, here)
          | inr empty ↦ omega (arith, here, ap bytes empty)
        ];
      }

  -- With fuel for the rows and the batch, a batch is always taken; afterwards the rows of the job
  -- still hold no more bytes than the cap, and no more than the job's counter says.
  pub persist-IsCapped :
      (fuel : ℕ) (db : Db) (device job : ℕ) (chunks : List OutputChunk)
      → IsCapped db job
      → length (rows db job) + length chunks < fuel
      → (db' : Db) × (p : Persisted) × (persist_chunks store maximum fuel db device job chunks
          ≡ some (db', p))
        × IsCapped db' job
  persist-IsCapped fuel db device job chunks c h =
      elim (persist-cases fuel db device job chunks c.known c.info_is) [
        | inl same ↦ (db, nothing_persisted, same, c)
        | inr stored ↦
            let s =
              store-Stores fuel db job c.known (new_chunks_of store maximum db job chunks) c.info_is
                (omega (arith, length-new_chunks_of-le db job chunks)) in
            (s.db', s.persisted, stored ∙ s.returned, Stores-IsCapped s c.covered)
      ]
