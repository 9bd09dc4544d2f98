-- ===== src/Jobs/Output/Eviction.antt =====
-- The paged eviction loop against the plain one: which rows it removes, and which it leaves.
use native.Mathlib.Nat.{add_assoc}
use relaydock.Prelude.{
  ℕ, ℤ, pos, ltb_ℤ, ◌<ℤ◌, ◌+◌, true, false, not, List, [], ◌∷◌, ◌++◌, ◌≡◌, ◌≢◌, refl, sym, ap, ◌∙◌,
  if◌then◌else◌, leb, map, mem, keep_if, All, arith, Bool-cases, ◌||◌, All-map, ==_refl, inl, inr,
  append-nil, append_assoc,
}
use relaydock.Jobs.Output.{ChunkRow, Ascending, Unrepeated, sequences, bytes, Evicting, scan_page}

-- Row by row, oldest first: what is removed until `need` bytes are reclaimed, and what is left.
abbrev pub evicted : (need reclaimed : ℕ) → List ChunkRow → List ChunkRow
evicted need b [] = []
evicted need b (c ∷ cs) = if leb need b then [] else c ∷ evicted need (b + c.byte_length) cs

abbrev pub kept : (need reclaimed : ℕ) → List ChunkRow → List ChunkRow
kept need b [] = []
kept need b (c ∷ cs) = if leb need b then c ∷ cs else kept need (b + c.byte_length) cs

abbrev pub ids : List ChunkRow → List ℕ
ids = map (λ (r : ChunkRow). r.id)

pub evicted-kept : (need b : ℕ) (cs : List ChunkRow) → evicted need b cs ++ kept need b cs ≡ cs
evicted-kept need b [] = refl
evicted-kept need b (c ∷ cs) = ground (arith, evicted-kept need (b + c.byte_length) cs)

pub evicted_enough : (need b : ℕ) (cs : List ChunkRow) → leb need b ≡ true → evicted need b cs ≡ []
evicted_enough need b [] e = refl
evicted_enough need b (c ∷ cs) e = rw e

pub kept_enough : (need b : ℕ) (cs : List ChunkRow) → leb need b ≡ true → kept need b cs ≡ cs
kept_enough need b [] e = refl
kept_enough need b (c ∷ cs) e = rw e

-- A page at a time removes what row by row removes.
pub evicted_page :
    (need b : ℕ) (ps qs : List ChunkRow)
    → evicted need b (ps ++ qs)
      ≡ evicted need b ps ++ evicted need (b + bytes (evicted need b ps)) (kept need b ps ++ qs)
evicted_page need b [] qs = ground arith
evicted_page need b (c ∷ ps) qs = elim (Bool-cases (leb need b)) [
  | inl e ↦ rw e (ground arith)
  | inr e ↦
      rw (e, ← add_assoc b c.byte_length (bytes (evicted need (b + c.byte_length) ps)))
        (ap (λ cs. c ∷ cs) (evicted_page need (b + c.byte_length) ps qs))
]

pub kept_page :
    (need b : ℕ) (ps qs : List ChunkRow)
    → kept need b (ps ++ qs) ≡ kept need (b + bytes (evicted need b ps)) (kept need b ps ++ qs)
kept_page need b [] qs = ground arith
kept_page need b (c ∷ ps) qs = elim (Bool-cases (leb need b)) [
  | inl e ↦ rw e (ground arith)
  | inr e ↦
      rw (e, ← add_assoc b c.byte_length (bytes (evicted need (b + c.byte_length) ps)))
        (kept_page need (b + c.byte_length) ps qs)
]

-- One pass over a page.
pub scan_page-eq :
    (need : ℕ) (cs : List ChunkRow) (s : Evicting)
    → leb need s.removed_bytes ≡ false
    → ((scan_page need cs s).remove_ids ≡ s.remove_ids ++ ids (evicted need s.removed_bytes cs))
      × ((scan_page need cs s).removed_sequences
          ≡ s.removed_sequences ++ sequences (evicted need s.removed_bytes cs))
      × ((scan_page need cs s).removed_bytes
          ≡ s.removed_bytes + bytes (evicted need s.removed_bytes cs))
unfolding scan_page
scan_page-eq need [] s e = (sym (append-nil _), sym (append-nil _), omega arith)
scan_page-eq need (c ∷ cs) s e = elim (Bool-cases (leb need (s.removed_bytes + c.byte_length))) [
  | inl enough ↦
      rw (e, enough, evicted_enough need (s.removed_bytes + c.byte_length) cs enough)
        (refl, refl, omega arith)
  | inr more ↦
      let s' : Evicting = record {
        remove_ids = s.remove_ids ++ c.id ∷ [];
        removed_sequences = s.removed_sequences ++ c.sequence ∷ [];
        removed_bytes = s.removed_bytes + c.byte_length;
        cursor = pos c.sequence;
      } in
      let (ids_eq, sequences_eq, bytes_eq) = scan_page-eq need cs s' more in
      rw (e, more)
        (
          ids_eq ∙ append_assoc s.remove_ids (c.id ∷ []) _,
          sequences_eq ∙ append_assoc s.removed_sequences (c.sequence ∷ []) _,
          omega (arith, bytes_eq),
        )
]

-- Every row lies beyond the cursor.
abbrev pub IsBeyond : ℤ → List ChunkRow → Type 0
IsBeyond cursor = All (λ r. cursor <ℤ pos r.sequence)

Ascending-IsBeyond :
    (r : ChunkRow) (rs : List ChunkRow) → Ascending (r ∷ rs) → IsBeyond (pos r.sequence) rs
Ascending-IsBeyond r [] a = tt
Ascending-IsBeyond r (q ∷ rs) a =
    (omega (arith, a.0.0), All-map _ _ rs (λ p h. omega (arith, h)) a.0.1)

-- After a page the cursor is short of every row that is left.
pub scan_page-IsBeyond :
    (need : ℕ) (cs qs : List ChunkRow) (s : Evicting)
    → leb need s.removed_bytes ≡ false
    → Ascending (cs ++ qs)
    → IsBeyond s.cursor (cs ++ qs)
    → IsBeyond (scan_page need cs s).cursor (kept need s.removed_bytes cs ++ qs)
unfolding scan_page
scan_page-IsBeyond need [] qs s e a h = h
scan_page-IsBeyond need (c ∷ cs) qs s e a h =
    elim (Bool-cases (leb need (s.removed_bytes + c.byte_length))) [
      | inl enough ↦
          rw (e, enough, kept_enough need (s.removed_bytes + c.byte_length) cs enough)
            (Ascending-IsBeyond c (cs ++ qs) a)
      | inr more ↦
          rw (e, more)
            (scan_page-IsBeyond need cs qs _ more a.1 (Ascending-IsBeyond c (cs ++ qs) a))
    ]

pub keep_if-all :
    (cursor : ℤ) (cs : List ChunkRow)
    → IsBeyond cursor cs
    → keep_if (λ r. ltb_ℤ cursor (pos r.sequence)) cs ≡ cs
keep_if-all cursor [] h = refl
keep_if-all cursor (c ∷ cs) h = ground (arith, h.0, keep_if-all cursor cs h.1)

mem-append : (a : ℕ) (xs ys : List ℕ) → mem a (xs ++ ys) ≡ (mem a xs || mem a ys)
mem-append a [] ys = refl
mem-append a (x ∷ xs) ys = ground (arith, mem-append a xs ys)

-- Deleting by identifier takes exactly the rows that were meant.
keep_if-skip :
    (doomed : List ℕ) (id : ℕ) (cs : List ChunkRow)
    → All (λ q. q.id ≢ id) cs
    → keep_if (λ r. not (mem r.id (id ∷ doomed))) cs ≡ keep_if (λ r. not (mem r.id doomed)) cs
keep_if-skip doomed id [] h = refl
keep_if-skip doomed id (c ∷ cs) h = ground (arith, h.0, keep_if-skip doomed id cs h.1)

pub keep_if-ids :
    (xs ys : List ChunkRow)
    → Unrepeated (xs ++ ys)
    → keep_if (λ r. not (mem r.id (ids xs))) (xs ++ ys) ≡ ys
keep_if-ids [] [] u = refl
keep_if-ids [] (y ∷ ys) u = ap (λ cs. y ∷ cs) (keep_if-ids [] ys u.1)
keep_if-ids (x ∷ xs) ys u =
    rw ==_refl (keep_if-skip (ids xs) x.id (xs ++ ys) u.0 ∙ keep_if-ids xs ys u.1)
