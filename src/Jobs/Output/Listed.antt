-- ===== src/Jobs/Output/Listed.antt =====
-- A store of output that meets the laws of `OutputStore`: each job's rows in a sorted list, with
-- the sequence for a row's identifier.
use relaydock.Prelude.{
  ℕ, pos, ◌<◌, Bool, not, ◌&&◌, Option, List, [], ◌∷◌, ◌≡◌, ◌≢◌, refl, ◌==◌, if◌then◌else◌, if_elim,
  ltb, ltb_ℤ, take, keep_if, mem, All, All-map, map_option, arith, Bool-cases, inl, inr, ==_iff,
  ==_refl,
}
use relaydock.Jobs.Output.{
  ChunkRow, JobInfo, Ascending, Unrepeated, insert_row, insert_rows, with_ids, sequences,
  OutputStore,
}

module _ {κ} (P : ChunkRow → Type κ) where
  All-insert_row : (n : ChunkRow) (rs : List ChunkRow) → P n → All P rs → All P (insert_row n rs)
  All-insert_row n [] p h = (p, tt)
  All-insert_row n (r ∷ rs) p h = ground (arith, All-insert_row n rs p h.1)

  pub All-keep_if : (p : ChunkRow → Bool) (rs : List ChunkRow) → All P rs → All P (keep_if p rs)
  All-keep_if p [] h = tt
  All-keep_if p (r ∷ rs) h = ground (arith, All-keep_if p rs h.1)

Ascending-insert_row :
    (n : ChunkRow) (rs : List ChunkRow) → Ascending rs → Ascending (insert_row n rs)
Ascending-insert_row n [] a = (tt, tt)
Ascending-insert_row n (r ∷ rs) a = elim (Bool-cases (n.sequence == r.sequence)) [
  | inl same ↦ rw same a
  | inr other ↦ elim (Bool-cases (ltb n.sequence r.sequence)) [
    | inl below ↦
        rw (other, below)
          (
            (
              ground arith,
              All-map _ (λ (q : ChunkRow). n.sequence < q.sequence) rs (λ q h. ground arith) a.0,
            ),
            a,
          )
    | inr above ↦
        rw (other, above)
          (
            All-insert_row (λ q. r.sequence < q.sequence) n rs (ground arith) a.0,
            Ascending-insert_row n rs a.1,
          )
  ]
]

pub Ascending-insert_rows :
    (news rs : List ChunkRow) → Ascending rs → Ascending (insert_rows news rs)
Ascending-insert_rows [] rs a = a
Ascending-insert_rows (n ∷ news) rs a =
    Ascending-insert_rows news (insert_row n rs) (Ascending-insert_row n rs a)

pub Ascending-keep_if :
    (p : ChunkRow → Bool) (rs : List ChunkRow) → Ascending rs → Ascending (keep_if p rs)
Ascending-keep_if p [] a = tt
Ascending-keep_if p (r ∷ rs) a = elim (Bool-cases (p r)) [
  | inl keep ↦
      rw keep (All-keep_if (λ q. r.sequence < q.sequence) p rs a.0, Ascending-keep_if p rs a.1)
  | inr drop ↦ rw drop (Ascending-keep_if p rs a.1)
]

-- Each row's identifier is its sequence.
abbrev pub AreNamed : List ChunkRow → Type 0
AreNamed = All (λ r. r.id ≡ r.sequence)

pub AreNamed-insert_rows :
    (news rs : List ChunkRow) → AreNamed rs → AreNamed (insert_rows (with_ids (λ s. s) news) rs)
AreNamed-insert_rows [] rs h = h
AreNamed-insert_rows (n ∷ news) rs h =
    AreNamed-insert_rows news _ (All-insert_row (λ r. r.id ≡ r.sequence) _ rs refl h)

pub Unrepeated-named : (rs : List ChunkRow) → Ascending rs → AreNamed rs → Unrepeated rs
Unrepeated-named [] a h = tt
Unrepeated-named (r ∷ rs) a h = (differ rs a.0 h.1, Unrepeated-named rs a.1 h.1)
  where
    differ :
        (qs : List ChunkRow)
        → All (λ q. r.sequence < q.sequence) qs
        → AreNamed qs
        → All (λ q. q.id ≢ r.id) qs
    differ [] above named = tt
    differ (q ∷ qs) above named =
        (λ same. omega (arith, h.0, above.0, named.0), differ qs above.1 named.1)

pub record Listed : Type 0 where
  pub table : (job : ℕ) → List ChunkRow
  pub infos : (job : ℕ) → Option JobInfo
  pub ascending : (job : ℕ) → Ascending (table job)
  pub named : (job : ℕ) → AreNamed (table job)

pub mem-keep_if : (p : ℕ → Bool) (s : ℕ) (xs : List ℕ) → mem s (keep_if p xs) ≡ (p s && mem s xs)
mem-keep_if p s [] = ground arith
mem-keep_if p s (x ∷ xs) = elim (Bool-cases (x == s)) [
  | inl same ↦
      let e : x ≡ s = (==_iff x s).0 same in
      rw e (rw ==_refl (ground (arith, mem-keep_if p s xs, ==_refl s)))
  | inr other ↦ rw other (ground (arith, mem-keep_if p s xs))
]

unfoldable pub create : Listed → ℕ → List ChunkRow → Listed
create db job news = record db {
  table = λ j. if j == job then insert_rows (with_ids (λ s. s) news) (db.table j) else db.table j;
  ascending = λ j.
      if_elim Ascending (j == job) _ _
        (λ _. Ascending-insert_rows (with_ids (λ s. s) news) (db.table j) (db.ascending j))
        (λ _. db.ascending j);
  named = λ j.
      if_elim AreNamed (j == job) _ _ (λ _. AreNamed-insert_rows news (db.table j) (db.named j))
        (λ _. db.named j);
}

unfoldable pub delete : Listed → List ℕ → Listed
delete db ids = record db {
  table = λ j. keep_if (λ r. not (mem r.id ids)) (db.table j);
  ascending = λ j. Ascending-keep_if (λ r. not (mem r.id ids)) (db.table j) (db.ascending j);
  named =
      λ j. All-keep_if (λ r. r.id ≡ r.sequence) (λ r. not (mem r.id ids)) (db.table j) (db.named j);
}

unfoldable pub set_counters : Listed → (job retained : ℕ) → Bool → Listed
set_counters db job retained truncated = record db {
  infos = λ j.
      if job == j
      then map_option
          (λ (i : JobInfo). record i {
            retained_output_bytes = retained;
            output_truncated = truncated;
          })
          (db.infos j)
      else db.infos j;
}

pub create-rows :
    (db : Listed) (job : ℕ) (news : List ChunkRow)
    → (create db job news).table job ≡ insert_rows (with_ids (λ s. s) news) (db.table job)
unfolding create
create-rows db job news = rw ==_refl refl

unfoldable pub listed_output : OutputStore Listed
unfolding create delete set_counters
listed_output = record {
  rows = λ db. db.table;
  info = λ db. db.infos;
  after = λ db job cursor limit.
      take limit (keep_if (λ r. ltb_ℤ cursor (pos r.sequence)) (db.table job));
  existing = λ db job wanted. keep_if (λ s. mem s wanted) (sequences (db.table job));
  create_many = create;
  chosen_id = λ db job s. s;
  delete_many = delete;
  set_retention = set_counters;
  rows_ascending = λ db. db.ascending;
  rows_unrepeated = λ db job. Unrepeated-named (db.table job) (db.ascending job) (db.named job);
  after-eq = λ db job cursor limit. refl;
  mem-existing = λ db job s wanted. mem-keep_if (λ x. mem x wanted) s (sequences (db.table job));
  rows-create_many = create-rows;
  rows-delete_many = λ db job ids. refl;
  rows-set_retention = λ db job k retained truncated. refl;
  info-create_many = λ db job k news. refl;
  info-delete_many = λ db job ids. refl;
  info-set_retention = λ db job k retained truncated. refl;
}
