-- ===== src/Jobs/Output/Loop.antt =====
-- The eviction loop over the database: with enough fuel it ends, and does what the plain one does.
use relaydock.Prelude.{
  ℕ, zero, suc, ℤ, ◌+◌, ◌<◌, false, Option, some, List, [], ◌∷◌, ◌++◌, ◌≡◌, refl, sym, ap, ap₂, ◌∙◌,
  leb, length, take, drop, take-append-drop, List-cases, arith, Bool-cases, inl, inr, append-nil,
  append_assoc, length-append, map-append, subst,
}
use relaydock.Jobs.Output.{
  ChunkRow, Ascending, Unrepeated, sequences, OutputStore, bytes, Evicting, scan_page, evict,
}
use relaydock.Jobs.Output.Eviction.{
  evicted, kept, ids, evicted-kept, evicted_enough, kept_enough, evicted_page, kept_page,
  scan_page-eq, IsBeyond, scan_page-IsBeyond, keep_if-all, keep_if-ids,
}

pub bytes-append : (xs ys : List ChunkRow) → bytes (xs ++ ys) ≡ bytes xs + bytes ys
bytes-append [] ys = omega arith
bytes-append (x ∷ xs) ys = omega (arith, bytes-append xs ys)

-- What a page removed, and then the rest of the loop.
two_parts :
    (removed seqs : List ℕ) (b n : ℕ) (first later whole : List ChunkRow)
    → whole ≡ first ++ later
    → seqs ≡ removed ++ sequences first
    → n ≡ b + bytes first
    → (seqs ++ sequences later ≡ removed ++ sequences whole) × (n + bytes later ≡ b + bytes whole)
two_parts removed seqs b n first later whole e s h = (
  rw (e, s, map-append) (append_assoc removed (sequences first) (sequences later)),
  rw e (omega (arith, bytes-append first later)),
)

page_split :
    {whole : List ChunkRow} (need b : ℕ) (ps qs : List ChunkRow)
    → whole ≡ ps ++ qs
    → whole ≡ evicted need b ps ++ (kept need b ps ++ qs)
page_split need b ps qs e =
    e
    ∙ ap (λ cs. cs ++ qs) (sym (evicted-kept need b ps))
    ∙ append_assoc (evicted need b ps) (kept need b ps) qs

evicted_first :
    (need b : ℕ) (r : ChunkRow) (cs : List ChunkRow)
    → leb need b ≡ false
    → 0 < length (evicted need b (r ∷ cs))
evicted_first need b r cs more = rw more (omega arith)

module _ {Db : Type 0} (store : OutputStore Db) (maximum : ℕ) where
  open store use {
    rows, info, after, delete_many, rows_ascending, rows_unrepeated, after-eq, rows-delete_many,
    info-delete_many,
  }

  -- What a run of the loop comes to, from a state of the database.
  pub record Evicts (db : Db) (job need : ℕ) (removed : List ℕ) (b : ℕ)
      (result : Option (Db × List ℕ × ℕ)) : Type 0 where
    pub db' : Db
    pub returned :
        result
        ≡ some (
          db',
          removed ++ sequences (evicted need b (rows db job)),
          b + bytes (evicted need b (rows db job)),
        )
    pub left : rows db' job ≡ kept need b (rows db job)
    pub same_info : info db' job ≡ info db job

  -- The page that the database returns, when every row lies beyond the cursor.
  after-page :
      (db : Db) (job p : ℕ) (cursor : ℤ) (r : ChunkRow) (rs : List ChunkRow)
      → IsBeyond cursor (rows db job)
      → rows db job ≡ r ∷ rs
      → after db job cursor (suc p) ≡ r ∷ take p rs
  after-page db job p cursor r rs beyond e =
      after-eq db job cursor (suc p)
      ∙ ap (take (suc p)) (keep_if-all cursor (rows db job) beyond ∙ e)

  -- The deletion of what a page gives up leaves the rest of the page and the rows behind it.
  rows-after_page :
      (db : Db) (job need b : ℕ) (ps qs : List ChunkRow) (doomed : List ℕ)
      → rows db job ≡ ps ++ qs
      → doomed ≡ ids (evicted need b ps)
      → rows (delete_many db doomed) job ≡ kept need b ps ++ qs
  rows-after_page db job need b ps qs doomed e d =
      rw (rows-delete_many db job doomed, d, split)
        (keep_if-ids (evicted need b ps) (kept need b ps ++ qs)
          (subst Unrepeated split (rows_unrepeated db job)))
    where
      split : rows db job ≡ evicted need b ps ++ (kept need b ps ++ qs)
      split = page_split need b ps qs e

  pub evict-Evicts :
      (fuel : ℕ) (db : Db) (job need p : ℕ) (removed : List ℕ) (b : ℕ) (cursor : ℤ)
      → length (rows db job) < fuel
      → IsBeyond cursor (rows db job)
      → Evicts db job need removed b (evict store maximum fuel db job need (suc p) removed b cursor)
  unfolding evict
  evict-Evicts zero db job need p removed b cursor h beyond = absurd (omega arith)
  evict-Evicts (suc fuel) db job need p removed b cursor h beyond = elim (Bool-cases (leb need b)) [
    | inl enough ↦ record {
      db' = db;
      returned =
          rw (enough, evicted_enough need b (rows db job) enough, append-nil removed)
            (ground arith);
      left = rw (kept_enough need b (rows db job) enough) refl;
      same_info = refl;
    }
    | inr more ↦ elim (List-cases (rows db job)) [
      | inl empty ↦ record {
        db' = db;
        returned = rw (more, after-eq, empty, append-nil removed) (ground arith);
        left = rw empty refl;
        same_info = refl;
      }
      | inr (r, rs, e) ↦
          let ps = r ∷ take p rs in
          let qs = drop p rs in
          let s₀ : Evicting = record {
            remove_ids = [];
            removed_sequences = removed;
            removed_bytes = b;
            cursor = cursor;
          } in
          let s = scan_page need ps s₀ in
          let whole : rows db job ≡ ps ++ qs =
            e ∙ ap (λ cs. r ∷ cs) (sym (take-append-drop p rs)) in
          let (ids_eq, sequences_eq, bytes_eq) = scan_page-eq need ps s₀ more in
          let db₁ = delete_many db s.remove_ids in
          let gone = evicted need b ps in
          let left = rows-after_page db job need b ps qs s.remove_ids whole ids_eq in
          let rest =
            evict-Evicts fuel db₁ job need p s.removed_sequences s.removed_bytes s.cursor
              (omega (
                arith,
                ap length left,
                ap length (page_split need b ps qs whole),
                length-append gone (kept need b ps ++ qs),
                evicted_first need b r (take p rs) more,
              ))
              (subst (IsBeyond s.cursor) (sym left) (
                scan_page-IsBeyond need ps qs s₀ more
                  (subst Ascending whole (rows_ascending db job))
                  (subst (IsBeyond cursor) whole beyond))) in
          let later = evicted need s.removed_bytes (rows db₁ job) in
          let parts : evicted need b (rows db job) ≡ gone ++ later =
            rw (left, bytes_eq, whole) (evicted_page need b ps qs) in
          let (seqs, sizes) =
            two_parts removed s.removed_sequences b s.removed_bytes gone later
              (evicted need b (rows db job)) parts sequences_eq bytes_eq in
          record {
            db' = rest.db';
            returned =
                rw (more, after-page db job p cursor r rs beyond e)
                  (rest.returned ∙ ap₂ (λ x y. some (rest.db', x, y)) seqs sizes);
            left = rest.left ∙ rw (left, bytes_eq, whole) (sym (kept_page need b ps qs));
            same_info = rest.same_info ∙ info-delete_many db job s.remove_ids;
          }
    ]
  ]
