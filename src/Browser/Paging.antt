-- ===== src/Browser/Paging.antt =====
-- A replay of several pages while the job goes on.
use relaydock.Prelude.{
  ℕ, suc, ◌≤◌, ℤ, pos, ltb_ℤ, leb, ◌<ℤ◌, ◌≤ℤ◌, true, Option, List, [], ◌∷◌, ◌≡◌, refl, arith, map,
  ==_refl, if◌then◌else◌, All, All-map, or_else,
}
use relaydock.Lifecycle.{JobStatus}
use relaydock.Protocol.{OutputChunk, ServerToClientMessage}
use relaydock.Browser.{
  Viewer, shows, subscribes, emit_output, receive_output, receive_status, receive, Event, receives,
  handle, handle_all,
}

abbrev pub outputs : (job : ℕ) → List OutputChunk → List Event
outputs job = map λ chunk. receives (ServerToClientMessage.job_output job chunk)

dropped :
    (job : ℕ) (v : Viewer) (chunk : OutputChunk)
    → pos chunk.sequence ≤ℤ v.last_sequence
    → handle job v (receives (ServerToClientMessage.job_output job chunk)) ≡ (v, [])
unfolding handle receive receive_output
dropped job v chunk late = rw ==_refl (ground arith)

handle_all-dropped :
    (job : ℕ) (v : Viewer) (page : List OutputChunk)
    → All (λ c. pos c.sequence ≤ℤ v.last_sequence) page
    → handle_all job v (outputs job page) ≡ (v, [])
unfolding handle_all
handle_all-dropped job v [] h = refl
handle_all-dropped job v (c ∷ page) h =
    rw (dropped job v c h.0) (rw (handle_all-dropped job v page h.1) refl)

-- The viewer after the status that ends a full page, and after a chunk that it takes.
abbrev asking : Viewer → JobStatus → Option (Option ℤ) → Viewer
asking v status exit_code = record v {
  awaiting_replay = true;
  replay_batch_count = 0;
  status = status;
  exit_code = or_else exit_code v.exit_code;
}

abbrev advanced : Viewer → OutputChunk → Viewer
advanced v chunk = record v {
  last_sequence = pos chunk.sequence;
  has_output = true;
  replay_batch_count = if v.awaiting_replay then suc v.replay_batch_count else v.replay_batch_count;
}

asked :
    (job : ℕ) (v : Viewer) (status : JobStatus) (exit_code : Option (Option ℤ))
    → v.awaiting_replay ≡ true
    → 1000 ≤ v.replay_batch_count
    → handle job v (receives (ServerToClientMessage.job_status job status exit_code))
      ≡ (asking v status exit_code, subscribes v.last_sequence ∷ [])
unfolding handle receive receive_status
asked job v status exit_code waiting full =
    let more : leb 1000 v.replay_batch_count ≡ true = ground arith in
    rw ==_refl (rw (waiting, more) refl)

taken_live :
    (job : ℕ) (v : Viewer) (chunk : OutputChunk)
    → v.last_sequence <ℤ pos chunk.sequence
    → v.has_sink ≡ true
    → handle job v (receives (ServerToClientMessage.job_output job chunk))
      ≡ (advanced v chunk, shows chunk ∷ [])
unfolding handle receive receive_output emit_output
taken_live job v chunk new there =
    let beyond : ltb_ℤ v.last_sequence (pos chunk.sequence) ≡ true = ground arith in
    rw ==_refl (rw (beyond, there) refl)

-- A viewer that has received a full page of a replay asks for the next one. If a live chunk reaches
-- it first, which the server sends as soon as it has finished the first page, then every chunk of
-- the next page that is numbered below the live one is dropped: the terminal is shown the live
-- chunk and nothing else.
pub live_chunk_hides_page :
    (job : ℕ) (v : Viewer) (status : JobStatus) (exit_code : Option (Option ℤ)) (live : OutputChunk)
    (page : List OutputChunk)
    → v.awaiting_replay ≡ true
    → 1000 ≤ v.replay_batch_count
    → v.last_sequence <ℤ pos live.sequence
    → v.has_sink ≡ true
    → All (λ c. c.sequence ≤ live.sequence) page
    → (handle_all job v (
        receives (ServerToClientMessage.job_status job status exit_code)
        ∷ receives (ServerToClientMessage.job_output job live)
        ∷ outputs job page)).1
      ≡ subscribes v.last_sequence ∷ shows live ∷ []
unfolding handle_all
live_chunk_hides_page job v status exit_code live page waiting full new there early =
    rw (asked job v status exit_code waiting full) (
      rw (taken_live job (asking v status exit_code) live new there) (
        rw
          (handle_all-dropped job (advanced (asking v status exit_code) live) page
            (All-map _ _ page (λ c h. omega (arith, h)) early))
          refl))
