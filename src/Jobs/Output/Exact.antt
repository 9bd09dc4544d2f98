-- ===== src/Jobs/Output/Exact.antt =====
-- Where a batch names no sequence twice: exact accounting, and eviction as the reference says.
use relaydock.Prelude.{
  ℕ, ◌+◌, ◌-◌, ◌<◌, Bool, true, false, some, List, [], ◌∷◌, ◌++◌, ◌≡◌, refl, ap, ◌∙◌, map, mem,
  keep_if, length, All, arith, Bool-cases, inl, inr, ==_refl, All-map, ◌≢◌, ==_iff, length-ne_zero,
}
use relaydock.Protocol.{OutputChunk}
use relaydock.Jobs.Output.{
  ChunkRow, JobInfo, OutputStore, with_ids, sequences, bytes, new_chunks_of, insert_of,
  persist_chunks, Persisted, chunk_ids_to_remove, ids_to_remove, store_chunks,
}
use relaydock.Jobs.Output.Eviction.{evicted, kept, ids, evicted-kept}
use relaydock.Jobs.Output.Loop.{bytes-append}
use relaydock.Jobs.Output.Insertion.{AreFresh, bytes-insert_rows, bytes-with_ids, ids-evicted}
use relaydock.Jobs.Output.Retention.{merged, excess, store-Stores, length-new_chunks_of-le}

abbrev chunk_sequences : List OutputChunk → List ℕ
chunk_sequences = map (λ (c : OutputChunk). c.sequence)

-- A batch that names no sequence twice.
abbrev pub AreDistinct : List OutputChunk → Type 0
AreDistinct [] = Unit
AreDistinct (c ∷ cs) = (mem c.sequence (chunk_sequences cs) ≡ false) × AreDistinct cs

All-wanted :
    (wanted : List ℕ) (cs : List OutputChunk)
    → ((s : ℕ) → mem s (chunk_sequences cs) ≡ true → mem s wanted ≡ true)
    → All (λ c. mem c.sequence wanted ≡ true) cs
All-wanted wanted [] h = tt
All-wanted wanted (c ∷ cs) h =
    (h c.sequence (rw ==_refl refl), All-wanted wanted cs (λ s e. h s (ground (arith, e))))

mem-kept :
    (chosen : ℕ → ℕ) (p : OutputChunk → Bool) (s : ℕ) (cs : List OutputChunk)
    → mem s (chunk_sequences cs) ≡ false
    → mem s (sequences (with_ids chosen (map insert_of (keep_if p cs)))) ≡ false
mem-kept chosen p s [] e = refl
mem-kept chosen p s (c ∷ cs) e = ground (arith, mem-kept chosen p s cs)

kept-AreFresh :
    (chosen : ℕ → ℕ) (p : OutputChunk → Bool) (rs : List ChunkRow) (cs : List OutputChunk)
    → All (λ c. p c ≡ true → mem c.sequence (sequences rs) ≡ false) cs
    → AreDistinct cs
    → AreFresh (with_ids chosen (map insert_of (keep_if p cs))) rs
kept-AreFresh chosen p rs [] h d = tt
kept-AreFresh chosen p rs (c ∷ cs) h d = elim (Bool-cases (p c)) [
  | inl new ↦
      rw new (h.0 new, mem-kept chosen p c.sequence cs d.0, kept-AreFresh chosen p rs cs h.1 d.1)
  | inr old ↦ rw old (kept-AreFresh chosen p rs cs h.1 d.1)
]

module _ {Db : Type 0} (store : OutputStore Db) (maximum : ℕ) where
  open store use {rows, info, existing, mem-existing, chosen_id}

  new_chunks-AreFresh :
      (db : Db) (job : ℕ) (chunks : List OutputChunk)
      → AreDistinct chunks
      → AreFresh
          (with_ids (chosen_id db job) (map insert_of (new_chunks_of store maximum db job chunks)))
          (rows db job)
  unfolding new_chunks_of
  new_chunks-AreFresh db job chunks d =
      kept-AreFresh (chosen_id db job) _ (rows db job) chunks
        (All-map _ _ chunks
          (λ c wanted new. ground (arith, mem-existing db job c.sequence (chunk_sequences chunks)))
          (All-wanted (chunk_sequences chunks) chunks (λ s e. e)))
        d

  -- The counter of a job says exactly how many bytes its rows hold.
  pub record IsExact (db : Db) (job : ℕ) : Type 0 where
    pub known : JobInfo
    pub info_is : info db job ≡ some known
    pub exact : bytes (rows db job) ≡ known.retained_output_bytes

  -- The rows after a batch: the rows before with the new chunks among them, less a beginning that
  -- `chunkIdsToRemove` would remove from them; and the counter is exact again.
  pub record IsTrimmed (db db' : Db) (job : ℕ) (news : List OutputChunk) : Type 0 where
    pub gone : List ChunkRow
    pub split : gone ++ rows db' job ≡ merged store maximum db job news
    pub as_reference : ids gone ≡ chunk_ids_to_remove (merged store maximum db job news) maximum
    pub exact_after : IsExact db' job

  stored_of_new :
      (fuel : ℕ) (db : Db) (device job : ℕ) (chunks : List OutputChunk) (i : JobInfo)
      → info db job ≡ some i
      → i.device_id ≡ device
      → new_chunks_of store maximum db job chunks ≢ []
      → persist_chunks store maximum fuel db device job chunks
        ≡ store_chunks store maximum fuel db job i (new_chunks_of store maximum db job chunks)
  unfolding persist_chunks new_chunks_of
  stored_of_new fuel db device job [] i known own new = absurd (new refl)
  stored_of_new fuel db device job (c ∷ cs) i known own new =
      rw (known, persist_chunks, (==_iff i.device_id device).1 own)
        (rw (length-ne_zero (new_chunks_of store maximum db job (c ∷ cs)) new) (ground arith))

  -- A batch from the job's own device that has new chunks and names no sequence twice, on an exact
  -- counter and with fuel for the rows and the batch: the new chunks are inserted, the rows that
  -- `chunkIdsToRemove` names are evicted, and no others, and the counter is exact again.
  pub persist-IsTrimmed :
      (fuel : ℕ) (db : Db) (device job : ℕ) (chunks : List OutputChunk) (x : IsExact db job)
      → x.known.device_id ≡ device
      → new_chunks_of store maximum db job chunks ≢ []
      → AreDistinct chunks
      → length (rows db job) + length chunks < fuel
      → (db' : Db) × (p : Persisted) × (persist_chunks store maximum fuel db device job chunks
          ≡ some (db', p))
        × IsTrimmed db db' job (new_chunks_of store maximum db job chunks)
  unfolding chunk_ids_to_remove
  persist-IsTrimmed fuel db device job chunks x own new d h =
      let news = new_chunks_of store maximum db job chunks in
      let stored = stored_of_new fuel db device job chunks x.known x.info_is own new in
      let s =
        store-Stores store maximum fuel db job x.known news x.info_is
          (omega (arith, length-new_chunks_of-le store maximum db job chunks)) in
      let whole = merged store maximum db job news in
      let need = excess store maximum x.known news in
      let sizes =
        bytes-insert_rows (with_ids (chosen_id db job) (map insert_of news)) (rows db job)
          (new_chunks-AreFresh db job chunks d) in
      let ids_free = bytes-with_ids (chosen_id db job) (map insert_of news) in
      let all = ap bytes (evicted-kept need 0 whole) in
      let parts = bytes-append (evicted need 0 whole) (kept need 0 whole) in
      let over : need - 0 ≡ bytes whole - maximum = omega (arith, sizes, ids_free, x.exact) in
      (
        s.db',
        s.persisted,
        stored ∙ s.returned,
        record {
          gone = evicted need 0 whole;
          split = rw s.left (evicted-kept need 0 whole);
          as_reference = ids-evicted need 0 whole ∙ ap (ids_to_remove whole) over;
          exact_after = record {
            known = s.info';
            info_is = s.new_info;
            exact =
                omega (arith, all, parts, sizes, ids_free, ap bytes s.left, s.retained, x.exact);
          };
        },
      )
