-- ===== src/Jobs/Live/Bounds.antt =====
-- How much live output waits, and how much a batch holds.
use relaydock.Prelude.{
  ℕ, ◌≤◌, ◌<◌, true, false, some, List, [], ◌∷◌, ◌++◌, ◌≡◌, refl, inl, inr, arith, get, put, delete,
  get-put, leb, length, length-append, ◌==◌, ==_refl, All, All-append, Entries, Entries-put,
  Entries-delete, Entries-delete_other, Entries-get, Entries-map, Option-cases, Bool-cases,
}
use relaydock.Protocol.{OutputChunk}
use relaydock.Jobs.Live.{
  PendingPersist, Buffers, Batch, persist_flush_chunks, flush_persist, entry_of, enqueue_persist,
  relay_output, Event, relays, flushes, handle, handle_all,
}

-- An entry holds some chunks, fewer than a full batch, and its timer is set.
pub record IsPartial (job : ℕ) (e : PendingPersist) : Type 0 where
  pub some_chunks : 0 < length e.chunks
  pub room : length e.chunks < persist_flush_chunks
  pub armed : e.timer ≡ true

abbrev pub ArePartial : Buffers → Type 0
ArePartial = Entries IsPartial

abbrev pub IsBatch : Batch → Type 0
IsBatch batch = (0 < length batch.chunks) × (length batch.chunks ≤ persist_flush_chunks)

entry_of-room :
    (b : Buffers) (device job : ℕ)
    → ArePartial b
    → length (entry_of b device job).chunks < persist_flush_chunks
unfolding entry_of
entry_of-room b device job h = elim (Option-cases (get b job)) [
  | inl absent ↦ rw (absent, entry_of) (omega arith)
  | inr (e, found) ↦ rw (found, entry_of) (Entries-get IsPartial b job e h found).room
]

-- A flush right after a write hands over what was written.
flush-put :
    (b : Buffers) (job : ℕ) (e : PendingPersist)
    → flush_persist (put b job e) job ≡ (
      delete (put b job e) job,
      record { device_id = e.device_id; job = job; chunks = e.chunks } ∷ [],
    )
unfolding flush_persist
flush-put b job e =
    let found : get (put b job e) job ≡ some e = rw (get-put, ==_refl job) refl in
    rw (found, flush_persist) refl

ArePartial-overwritten :
    (b : Buffers) (job : ℕ) (e : PendingPersist)
    → ArePartial b
    → ArePartial (delete (put b job e) job)
ArePartial-overwritten b job e h =
    Entries-delete_other (λ j v. (job == j) ≡ false → IsPartial j v) IsPartial (put b job e) job
      (λ j v other p. p other)
      (Entries-put (λ j v. (job == j) ≡ false → IsPartial j v) b job e
        (Entries-map IsPartial (λ j v. (job == j) ≡ false → IsPartial j v) b (λ j v p _. p) h)
        (λ other. absurd (ground (arith, ==_refl job))))

enqueue-bounds :
    (b : Buffers) (device job : ℕ) (chunk : OutputChunk)
    → ArePartial b
    → let (b', batches) = enqueue_persist b device job chunk in ArePartial b' × All IsBatch batches
unfolding enqueue_persist
enqueue-bounds b device job chunk h =
    let e = entry_of b device job in
    let chunks = e.chunks ++ chunk ∷ [] in
    let longer = length-append e.chunks (chunk ∷ []) in
    let room = entry_of-room b device job h in
    elim (Bool-cases (leb persist_flush_chunks (length chunks))) [
      | inl full ↦
          rw (full, flush-put)
            (
              ArePartial-overwritten b job (record e { chunks = chunks }) h,
              ((omega (arith, longer), omega (arith, longer, room)), tt),
            )
      | inr small ↦ rw small (
        Entries-put IsPartial b job _ h (record {
          some_chunks = omega (arith, longer);
          room = ground (arith, small);
          armed = refl;
        }),
        tt,
      )
    ]

flush-bounds :
    (b : Buffers) (job : ℕ)
    → ArePartial b
    → let (b', batches) = flush_persist b job in ArePartial b' × All IsBatch batches
unfolding flush_persist
flush-bounds b job h = elim (Option-cases (get b job)) [
  | inl absent ↦ rw (absent, flush_persist) (h, tt)
  | inr (e, found) ↦
      let p = Entries-get IsPartial b job e h found in
      rw (found, flush_persist)
        (Entries-delete IsPartial b job h, ((p.some_chunks, omega (arith, p.room)), tt))
]

handle-bounds :
    (b : Buffers) (e : Event)
    → ArePartial b
    → let (b', out, batches) = handle b e in ArePartial b' × All IsBatch batches
unfolding handle relay_output
handle-bounds b (relays user device job chunk) h = enqueue-bounds b device job chunk h
handle-bounds b (flushes job) h = flush-bounds b job h

-- Through any sequence of output and flushes: a job that has chunks in the buffer has fewer than 200
-- of them and a timer that will flush them, an entry is never empty, and every batch that is handed
-- to `persistChunks` holds between 1 and 200 chunks.
pub buffers_bounded :
    (b : Buffers) (es : List Event)
    → ArePartial b
    → let (b', out, batches) = handle_all b es in ArePartial b' × All IsBatch batches
unfolding handle_all
buffers_bounded b [] h = (h, tt)
buffers_bounded b (e ∷ es) h =
    let (partial, sizes) = handle-bounds b e h in
    let (partial', sizes') = buffers_bounded (handle b e).0 es partial in
    (partial', All-append IsBatch (handle b e).2 _ sizes sizes')
