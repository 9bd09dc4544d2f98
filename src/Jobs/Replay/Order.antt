-- ===== src/Jobs/Replay/Order.antt =====
-- The order of a replay.
use relaydock.Prelude.{
  ℕ, zero, suc, ◌<◌, ℤ, pos, ltb_ℤ, ◌<ℤ◌, Bool, true, some, List, [], ◌∷◌, ◌++◌, ◌≡◌, ◌≢◌, refl,
  sym, subst, ap, inl, inr, arith, map, take, keep_if, All, All-map, if◌then◌else◌, Bool-cases,
}
use relaydock.Protocol.{OutputChunk}
use relaydock.Jobs.Output.{ChunkRow, OutputStore, Ascending}
use relaydock.Jobs.Output.Listed.{Ascending-keep_if, All-keep_if}
use relaydock.Jobs.Replay.{chunk_of, notice, notice_sequence, first_sequence, replay_chunks}

-- Chunks in strictly ascending order, all beyond a cursor.
abbrev pub Follows : ℤ → List OutputChunk → Type 0
Follows cursor [] = Unit
Follows cursor (c ∷ cs) = (cursor <ℤ pos c.sequence) × Follows (pos c.sequence) cs

Follows-rows :
    (cursor : ℤ) (rs : List ChunkRow)
    → Ascending rs
    → All (λ r. cursor <ℤ pos r.sequence) rs
    → Follows cursor (map chunk_of rs)
Follows-rows cursor [] a h = tt
Follows-rows cursor (r ∷ rs) a h =
    (h.0, Follows-rows (pos r.sequence) rs a.1 (All-map _ _ rs (λ q e. omega (arith, e)) a.0))

beyond :
    (cursor : ℤ) (rs : List ChunkRow)
    → All (λ r. cursor <ℤ pos r.sequence) (keep_if (λ r. ltb_ℤ cursor (pos r.sequence)) rs)
beyond cursor [] = tt
beyond cursor (r ∷ rs) = ground (arith, beyond cursor rs)

module _ {ℓ} (P : ChunkRow → Type ℓ) where
  All-take : (n : ℕ) (rs : List ChunkRow) → All P rs → All P (take n rs)
  All-take zero rs h = tt
  All-take (suc n) [] h = tt
  All-take (suc n) (r ∷ rs) h = (h.0, All-take n rs h.1)

Ascending-take : (n : ℕ) (rs : List ChunkRow) → Ascending rs → Ascending (take n rs)
Ascending-take zero rs a = tt
Ascending-take (suc n) [] a = tt
Ascending-take (suc n) (r ∷ rs) a =
    (All-take (λ q. r.sequence < q.sequence) n rs a.0, Ascending-take n rs a.1)

numbered_above_zero : (n : ℕ) → n ≢ 0 → 0 < n
numbered_above_zero zero h = absurd (h refl)
numbered_above_zero (suc n) h = omega arith

-- The rows all come after the notice, unless the first is numbered 0.
past_notice :
    (rs : List ChunkRow)
    → Ascending rs
    → first_sequence rs ≢ some 0
    → All (λ r. notice_sequence rs < r.sequence) rs
past_notice [] a h = tt
past_notice (r ∷ rs) a h =
    let positive : 0 < r.sequence = numbered_above_zero r.sequence (λ e. h (ap some e)) in
    (omega (arith, positive), All-map _ _ rs (λ q e. omega (arith, e)) a.0)

Follows-notice :
    (cursor : ℤ) (n : ℕ) (cs : List OutputChunk)
    → Follows cursor cs
    → Follows (pos n) cs
    → Follows cursor ((if ltb_ℤ cursor (pos n) then notice n ∷ [] else []) ++ cs)
Follows-notice cursor n cs f g = elim (Bool-cases (ltb_ℤ cursor (pos n))) [
  | inl before ↦ rw before (ground arith, g)
  | inr after ↦ rw after f
]

module _ {Db : Type 0} (store : OutputStore Db) where
  open store use {rows, after, rows_ascending, after-eq}

  after-Follows :
      (db : Db) (job limit : ℕ) (cursor low : ℤ)
      → All (λ r. low <ℤ pos r.sequence) (after db job cursor limit)
      → Follows low (map chunk_of (after db job cursor limit))
  after-Follows db job limit cursor low h =
      Follows-rows low (after db job cursor limit)
        (subst Ascending (sym (after-eq db job cursor limit))
          (Ascending-take limit _ (Ascending-keep_if _ (rows db job) (rows_ascending db job))))
        h

  past-page :
      (db : Db) (job limit : ℕ) (cursor : ℤ)
      → first_sequence (rows db job) ≢ some 0
      → All (λ r. pos (notice_sequence (rows db job)) <ℤ pos r.sequence) (after db job cursor limit)
  past-page db job limit cursor h =
      subst (All (λ r. pos (notice_sequence (rows db job)) <ℤ pos r.sequence))
        (sym (after-eq db job cursor limit))
        (All-take _ limit _ (
          All-keep_if _ _ (rows db job) (
            All-map _ _ (rows db job) (λ q e. omega (arith, e))
              (past_notice (rows db job) (rows_ascending db job) h))))

  -- A replay is in strictly ascending order and lies beyond the viewer's cursor, the notice of
  -- removed output included, provided that the job's output does not start at number 0 where it
  -- counts as truncated.
  pub replay-Follows :
      (db : Db) (job limit : ℕ) (cursor : ℤ) (truncated : Bool)
      → (truncated ≡ true → first_sequence (rows db job) ≢ some 0)
      → Follows cursor (replay_chunks store db job cursor limit truncated)
  unfolding replay_chunks
  replay-Follows db job limit cursor truncated h =
      let page : Follows cursor (map chunk_of (after db job cursor limit)) =
        after-Follows db job limit cursor cursor (
          subst (All (λ r. cursor <ℤ pos r.sequence)) (sym (after-eq db job cursor limit))
            (All-take _ limit _ (beyond cursor (rows db job)))) in
      elim (Bool-cases truncated) [
        | inl cut ↦ rw cut (
            Follows-notice cursor (notice_sequence (rows db job)) _ page (
              after-Follows db job limit cursor (pos (notice_sequence (rows db job)))
                (past-page db job limit cursor (h cut))))
        | inr whole ↦ rw whole page
      ]
