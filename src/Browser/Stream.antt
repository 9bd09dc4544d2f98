-- ===== src/Browser/Stream.antt =====
-- What a viewer's terminal is shown of the output that comes in.
use relaydock.Prelude.{
  ℕ, ℤ, pos, ltb_ℤ, leb, Bool, true, not, ◌&&◌, Option, List, [], ◌∷◌, ◌++◌, ◌≡◌, refl, sym, ◌∙◌,
  ap, arith, map, inl, inr, ◌==◌, if◌then◌else◌, if_elim, append-nil, append_assoc, Bool-cases,
  Option-cases,
}
use relaydock.Lifecycle.{JobStatus, cancelled, status_eq, is_terminal_job_status}
use relaydock.Protocol.{OutputChunk, ServerToClientMessage}
use relaydock.Jobs.Replay.Order.{Follows}
use relaydock.Browser.{
  Viewer, Act, shows, subscribes, resizes, unsubscribes, closes, closes_later, invalidates_job,
  emit_output, subscribe_output, unsubscribe_output, receive_output, receive_status, receive,
  open_socket, close_socket, Event, opens, drops, receives, mounts, unmounts, handle, handle_all,
}

-- The chunks that the terminal takes.
abbrev pub shown : List Act → List OutputChunk
shown [] = []
shown (shows chunk ∷ out) = chunk ∷ shown out
shown (a ∷ out) = shown out

shown-append : (xs ys : List Act) → shown (xs ++ ys) ≡ shown xs ++ shown ys
shown-append [] ys = refl
shown-append (shows chunk ∷ xs) ys = ap (λ cs. chunk ∷ cs) (shown-append xs ys)
shown-append (subscribes n ∷ xs) ys = shown-append xs ys
shown-append (resizes c r ∷ xs) ys = shown-append xs ys
shown-append (unsubscribes ∷ xs) ys = shown-append xs ys
shown-append (closes reason ∷ xs) ys = shown-append xs ys
shown-append (closes_later ∷ xs) ys = shown-append xs ys
shown-append (invalidates_job ∷ xs) ys = shown-append xs ys

shown-map : (cs : List OutputChunk) → shown (map shows cs) ≡ cs
shown-map [] = refl
shown-map (c ∷ cs) = ap (λ ds. c ∷ ds) (shown-map cs)

-- The output of the job that an event brings, if it lies beyond the cursor.
abbrev pub taken : (job : ℕ) → ℤ → Event → List OutputChunk
taken job cursor (receives (ServerToClientMessage.job_output k chunk)) =
    if k == job && ltb_ℤ cursor (pos chunk.sequence) then chunk ∷ [] else []
taken job cursor e = []

abbrev pub reached : ℤ → List OutputChunk → ℤ
reached cursor [] = cursor
reached cursor (c ∷ cs) = pos c.sequence

-- The output of the job, each chunk that lies beyond all that came before it.
abbrev pub novel : (job : ℕ) → ℤ → List Event → List OutputChunk
novel job cursor [] = []
novel job cursor (e ∷ es) = taken job cursor e ++ novel job (reached cursor (taken job cursor e)) es

-- Nothing is held back from a terminal that is there.
abbrev pub IsDrained : Viewer → Type 0
IsDrained v = v.has_sink ≡ true → v.pending_chunks ≡ []

-- What a step that takes some chunks comes to.
abbrev Takes : Viewer → List OutputChunk → Viewer × List Act → Type 0
Takes v cs r =
    (shown r.1 ++ r.0.pending_chunks ≡ v.pending_chunks ++ cs)
    × (r.0.last_sequence ≡ reached v.last_sequence cs)
    × IsDrained r.0

-- A step that takes nothing and keeps the buffer, the cursor and the terminal.
record Quiet (v : Viewer) (r : Viewer × List Act) : Type 0 where
  pending : r.0.pending_chunks ≡ v.pending_chunks
  last : r.0.last_sequence ≡ v.last_sequence
  sink : r.0.has_sink ≡ v.has_sink
  silent : shown r.1 ≡ []

Quiet-Takes : (v : Viewer) (r : Viewer × List Act) → IsDrained v → Quiet v r → Takes v [] r
Quiet-Takes v r drained q = (
  ap (λ cs. cs ++ r.0.pending_chunks) q.silent ∙ (q.pending ∙ sym (append-nil v.pending_chunks)),
  q.last,
  λ there. q.pending ∙ drained (sym q.sink ∙ there),
)

receive_output-Takes :
    (v : Viewer) (chunk : OutputChunk)
    → IsDrained v
    → Takes v
        (if ltb_ℤ v.last_sequence (pos chunk.sequence) then chunk ∷ [] else [])
        (receive_output v chunk)
unfolding receive_output emit_output
receive_output-Takes v chunk drained =
    elim (Bool-cases (ltb_ℤ v.last_sequence (pos chunk.sequence))) [
      | inr old ↦ rw old (sym (append-nil v.pending_chunks), refl, drained)
      | inl new ↦ elim (Bool-cases v.has_sink) [
        | inl there ↦
            rw (new, there)
              (
                ap (λ cs. chunk ∷ cs) (drained there)
                    ∙ ap (λ cs. cs ++ chunk ∷ []) (sym (drained there)),
                refl,
                λ e. drained there,
              )
        | inr away ↦ rw (new, away) (refl, refl, λ e. absurd (ground arith))
      ]
    ]

receive_status-Quiet :
    (v : Viewer) (status : JobStatus) (exit_code : Option (Option ℤ))
    → Quiet v (receive_status v status exit_code)
unfolding receive_status
receive_status-Quiet v status exit_code =
    if_elim (Quiet v) (v.awaiting_replay && leb 1000 v.replay_batch_count) _ _
      (λ _. record { pending = refl; last = refl; sink = refl; silent = refl })
      λ _.
        if_elim (Quiet v) (is_terminal_job_status status) _ _
          (λ _. record {
            pending = refl;
            last = refl;
            sink = refl;
            silent =
                if_elim (λ out. shown out ≡ []) (status_eq status cancelled) _ _ (λ _. refl)
                  (λ _. refl);
          })
          (λ _. record { pending = refl; last = refl; sink = refl; silent = refl })

-- A message about another job, or of another kind.
ended-Quiet :
    (v : Viewer) (b : Bool) (r : Viewer × List Act) → Quiet v r → Quiet v (if b then r else (v, []))
ended-Quiet v b r q =
    if_elim (Quiet v) b _ _ (λ _. q)
      (λ _. record { pending = refl; last = refl; sink = refl; silent = refl })

receive-Takes :
    (job : ℕ) (v : Viewer) (m : ServerToClientMessage)
    → IsDrained v
    → Takes v (taken job v.last_sequence (receives m)) (receive job v m)
unfolding receive
receive-Takes job v (ServerToClientMessage.device_status device status seen) drained =
    Quiet-Takes v (v, []) drained
      (record { pending = refl; last = refl; sink = refl; silent = refl })
receive-Takes job v (ServerToClientMessage.job_output k chunk) drained =
    elim (Bool-cases (k == job)) [
      | inl same ↦ rw same (receive_output-Takes v chunk drained)
      | inr other ↦ rw other (sym (append-nil v.pending_chunks), refl, drained)
    ]
receive-Takes job v (ServerToClientMessage.job_status k status exit_code) drained =
    Quiet-Takes v _ drained (ended-Quiet v (k == job) _ (receive_status-Quiet v status exit_code))
receive-Takes job v (ServerToClientMessage.job_completed k exit_code) drained =
    Quiet-Takes v _ drained (
      ended-Quiet v (k == job) _
        (record { pending = refl; last = refl; sink = refl; silent = refl }))
receive-Takes job v (ServerToClientMessage.job_failed k error exit_code) drained =
    Quiet-Takes v _ drained (
      ended-Quiet v (k == job) _
        (record { pending = refl; last = refl; sink = refl; silent = refl }))

handle-Takes :
    (job : ℕ) (v : Viewer) (e : Event)
    → IsDrained v
    → Takes v (taken job v.last_sequence e) (handle job v e)
unfolding handle open_socket close_socket subscribe_output unsubscribe_output
handle-Takes job v opens drained = Quiet-Takes v (open_socket v) drained (record {
  pending = refl;
  last = refl;
  sink = refl;
  silent = elim (Option-cases v.latest_size) [
    | inl absent ↦ rw absent refl
    | inr (size, found) ↦ rw found refl
  ];
})
handle-Takes job v (drops is_online) drained =
    Quiet-Takes v (close_socket v is_online, []) drained
      (if_elim (λ v'. Quiet v (v', [])) v.is_terminal _ _
        (λ _. record { pending = refl; last = refl; sink = refl; silent = refl })
        λ _.
          if_elim (λ v'. Quiet v (v', [])) (not is_online) _ _
            (λ _. record { pending = refl; last = refl; sink = refl; silent = refl })
            (λ _. record { pending = refl; last = refl; sink = refl; silent = refl }))
handle-Takes job v (receives m) drained = receive-Takes job v m drained
handle-Takes job v mounts drained =
    (ap (λ cs. cs ++ []) (shown-map v.pending_chunks), refl, λ e. refl)
handle-Takes job v unmounts drained = (sym (append-nil v.pending_chunks), refl, λ e. absurd cc)

novel-Follows : (job : ℕ) (cursor : ℤ) (es : List Event) → Follows cursor (novel job cursor es)
novel-Follows job cursor [] = tt
novel-Follows job cursor (receives (ServerToClientMessage.job_output k chunk) ∷ es) =
    elim (Bool-cases (k == job && ltb_ℤ cursor (pos chunk.sequence))) [
      | inl new ↦ rw new (ground arith, novel-Follows job (pos chunk.sequence) es)
      | inr old ↦ rw old (novel-Follows job cursor es)
    ]
novel-Follows job cursor (e ∷ es) = novel-Follows job cursor es

shown-novel :
    (job : ℕ) (v : Viewer) (es : List Event)
    → IsDrained v
    → shown (handle_all job v es).1 ++ (handle_all job v es).0.pending_chunks
      ≡ v.pending_chunks ++ novel job v.last_sequence es
unfolding handle_all
shown-novel job v [] drained = sym (append-nil v.pending_chunks)
shown-novel job v (e ∷ es) drained =
    let (v₁, out) = handle job v e in
    let (v₂, out') = handle_all job v₁ es in
    let (step, last, drained₁) = handle-Takes job v e drained in
    let cs = taken job v.last_sequence e in
    ap (λ xs. xs ++ v₂.pending_chunks) (shown-append out out')
    ∙ append_assoc (shown out) (shown out') v₂.pending_chunks
    ∙ ap (λ xs. shown out ++ xs) (shown-novel job v₁ es drained₁)
    ∙ ap (λ n. shown out ++ (v₁.pending_chunks ++ novel job n es)) last
    ∙ sym (append_assoc (shown out) v₁.pending_chunks (novel job (reached v.last_sequence cs) es))
    ∙ ap (λ xs. xs ++ novel job (reached v.last_sequence cs) es) step
    ∙ append_assoc v.pending_chunks cs (novel job (reached v.last_sequence cs) es)

-- Over any events of a viewer, reconnects and changes of the terminal included: the chunks that the
-- terminal takes, followed by those that wait for it, are those that waited at first, followed by
-- each chunk of the job that lies beyond all that came before it; these are in strictly ascending
-- order, so that none is shown twice.
pub shown_once :
    (job : ℕ) (v : Viewer) (es : List Event)
    → IsDrained v
    → let (v', out) = handle_all job v es in
      (shown out ++ v'.pending_chunks ≡ v.pending_chunks ++ novel job v.last_sequence es)
      × Follows v.last_sequence (novel job v.last_sequence es)
unfolding handle_all
shown_once job v es drained = (shown-novel job v es drained, novel-Follows job v.last_sequence es)
