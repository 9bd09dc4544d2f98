-- ===== src/Jobs/Live/Conservation.antt =====
-- No chunk of live output is lost, repeated or put out of order on its way to the table.
use relaydock.Prelude.{
  ℕ, none, some, List, [], ◌∷◌, ◌++◌, ◌≡◌, refl, sym, ap, ◌∙◌, inl, inr, arith, get, put, delete,
  get-put, get-delete, leb, length, ◌==◌, ==_iff, if◌then◌else◌, Option-cases, Bool-cases,
  append-nil, append_assoc,
}
use relaydock.Protocol.{OutputChunk}
use relaydock.Jobs.Live.{
  PendingPersist, Buffers, Batch, persist_flush_chunks, flush_persist, entry_of, enqueue_persist,
  relay_output, Event, relays, flushes, handle, handle_all,
}

-- The chunks of a job that wait, that go to the table, and that the agents sent.
unfoldable pub waiting : Buffers → (job : ℕ) → List OutputChunk
waiting b job = elim (get b job) [ none ↦ [] | some e ↦ e.chunks ]

abbrev pub stored : (job : ℕ) → List Batch → List OutputChunk
stored job [] = []
stored job (b ∷ bs) = (if b.job == job then b.chunks else []) ++ stored job bs

abbrev pub sent_of : (job : ℕ) → Event → List OutputChunk
sent_of job (relays user device k chunk) = if k == job then chunk ∷ [] else []
sent_of job (flushes k) = []

abbrev pub sent : (job : ℕ) → List Event → List OutputChunk
sent job [] = []
sent job (e ∷ es) = sent_of job e ++ sent job es

stored-append :
    (job : ℕ) (xs ys : List Batch) → stored job (xs ++ ys) ≡ stored job xs ++ stored job ys
stored-append job [] ys = refl
stored-append job (x ∷ xs) ys =
    rw (stored-append job xs ys)
      (sym (append_assoc (if x.job == job then x.chunks else []) (stored job xs) (stored job ys)))

waiting-put :
    (b : Buffers) (k job : ℕ) (e : PendingPersist)
    → waiting (put b k e) job ≡ (if k == job then e.chunks else waiting b job)
unfolding waiting
waiting-put b k job e = ground (arith, get-put b k job e)

waiting-delete :
    (b : Buffers) (k job : ℕ) → waiting (delete b k) job ≡ (if k == job then [] else waiting b job)
unfolding waiting
waiting-delete b k job = ground (arith, get-delete b k job)

waiting-found :
    (b : Buffers) (k : ℕ) (e : PendingPersist) → get b k ≡ some e → waiting b k ≡ e.chunks
unfolding waiting
waiting-found b k e found = rw (found, waiting) refl

flush-conserves :
    (b : Buffers) (k job : ℕ)
    → stored job (flush_persist b k).1 ++ waiting (flush_persist b k).0 job ≡ waiting b job
unfolding flush_persist
flush-conserves b k job = elim (Option-cases (get b k)) [
  | inl absent ↦ rw (absent, flush_persist) refl
  | inr (e, found) ↦
      rw (found, flush_persist)
        (rw waiting-delete
          (ground (arith, append-nil e.chunks, ==_iff k job, waiting-found b k e found)))
]

entry_of-waiting : (b : Buffers) (device job : ℕ) → (entry_of b device job).chunks ≡ waiting b job
unfolding entry_of waiting
entry_of-waiting b device job = ground arith

grown :
    (b : Buffers) (device k job : ℕ) (chunk : OutputChunk)
    → (if k == job then (entry_of b device k).chunks ++ chunk ∷ [] else waiting b job)
      ≡ waiting b job ++ (if k == job then chunk ∷ [] else [])
grown b device k job chunk = elim (Bool-cases (k == job)) [
  | inl same ↦
      let s : k ≡ job = (==_iff k job).0 same in rw (same, entry_of-waiting b device k, s) refl
  | inr other ↦ rw other (sym (append-nil (waiting b job)))
]

enqueue-conserves :
    (b : Buffers) (device k job : ℕ) (chunk : OutputChunk)
    → let (b', batches) = enqueue_persist b device k chunk in
      stored job batches ++ waiting b' job ≡ waiting b job ++ (if k == job then chunk ∷ [] else [])
unfolding enqueue_persist
enqueue-conserves b device k job chunk =
    let e = entry_of b device k in
    let chunks = e.chunks ++ chunk ∷ [] in
    elim (Bool-cases (leb persist_flush_chunks (length chunks))) [
      | inl full ↦ rw full (
          flush-conserves (put b k (record e { chunks = chunks })) k job
          ∙ rw waiting-put (grown b device k job chunk))
      | inr room ↦ rw (room, waiting-put) (grown b device k job chunk)
    ]

handle-conserves :
    (b : Buffers) (e : Event) (job : ℕ)
    → let (b', out, batches) = handle b e in
      stored job batches ++ waiting b' job ≡ waiting b job ++ sent_of job e
unfolding handle relay_output
handle-conserves b (relays user device k chunk) job = enqueue-conserves b device k job chunk
handle-conserves b (flushes k) job = flush-conserves b k job ∙ sym (append-nil (waiting b job))

-- Through any sequence of output and flushes, of any jobs: the chunks of a job that were handed to
-- `persistChunks`, batch after batch, followed by those that still wait, are those that waited at
-- first, followed by those that came, in order and each once.
pub live_output_conserved :
    (b : Buffers) (es : List Event) (job : ℕ)
    → let (b', out, batches) = handle_all b es in
      stored job batches ++ waiting b' job ≡ waiting b job ++ sent job es
unfolding handle_all
live_output_conserved b [] job = sym (append-nil (waiting b job))
live_output_conserved b (e ∷ es) job =
    let (b', out, batches) = handle b e in
    let (b'', out', batches') = handle_all b' es in
    rw (stored-append job batches batches') (
      append_assoc (stored job batches) (stored job batches') (waiting b'' job)
      ∙ ap (λ cs. stored job batches ++ cs) (live_output_conserved b' es job)
      ∙ sym (append_assoc (stored job batches) (waiting b' job) (sent job es))
      ∙ ap (λ cs. cs ++ sent job es) (handle-conserves b e job)
      ∙ append_assoc (waiting b job) (sent_of job e) (sent job es))
