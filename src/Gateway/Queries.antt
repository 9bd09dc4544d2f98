-- ===== src/Gateway/Queries.antt =====
-- The queries over several jobs that the handlers make through Prisma, with the laws that they rely
-- on. A row comes with its primary key.
use relaydock.Prelude.{
  ℕ, Bool, true, false, ◌&&◌, Option, none, some, List, [], ◌∷◌, ◌≡◌, refl, arith, Dict, get,
  map_option, mem, map, ◌==◌, if◌then◌else◌, All, Bool-cases, inl, inr, is_some, ==_iff, ==_refl,
  ◌++◌, ◌||◌, ◌∙◌, ap, All-append, All-map, is_some,
}
use relaydock.Jobs.{JobRow}
use relaydock.Jobs.Table.{JobTable, listed_jobs}

-- Whether the row under a key is there and satisfies a test.
abbrev pub holds : Option JobRow → (JobRow → Bool) → Bool
holds none p = false
holds (some r) p = p r

pub record JobQueries (Db : Type 0) (table : JobTable Db) : Type 0 where
  pub find_many : Db → (ℕ → JobRow → Bool) → List (ℕ × JobRow)
  pub update_many : Db → (ℕ → JobRow → Bool) → (JobRow → JobRow) → Db
  -- When the row was last written.
  pub updated_at : Db → (job : ℕ) → ℕ
  pub find_many-rows :
      (db : Db) (p : ℕ → JobRow → Bool)
      → All
          (λ (x : ℕ × JobRow). (table.find db x.0 ≡ some x.1) × (p x.0 x.1 ≡ true))
          (find_many db p)
  pub find_many-all :
      (db : Db) (p : ℕ → JobRow → Bool) (j : ℕ)
      → mem j (map (λ (x : ℕ × JobRow). x.0) (find_many db p)) ≡ holds (table.find db j) (p j)
  pub find-update_many :
      (db : Db) (p : ℕ → JobRow → Bool) (f : JobRow → JobRow) (j : ℕ)
      → table.find (update_many db p f) j
        ≡ map_option (λ r. if p j r then f r else r) (table.find db j)
  pub updated_at-update_many :
      (db : Db) (p : ℕ → JobRow → Bool) (f : JobRow → JobRow) (j : ℕ)
      → holds (table.find db j) (p j) ≡ false
      → updated_at (update_many db p f) j ≡ updated_at db j

-- Queries on rows in a list, which no write dates.
abbrev pub scan_row : (ℕ → JobRow → Bool) → ℕ → Option JobRow → List (ℕ × JobRow)
scan_row p k none = []
scan_row p k (some r) = if p k r then (k, r) ∷ [] else []

abbrev pub scan : Dict JobRow → (ℕ → JobRow → Bool) → Dict JobRow → List (ℕ × JobRow)
scan db p [] = []
scan db p ((k, r) ∷ m) = scan_row p k (get db k) ++ scan db p m

scan_row-rows :
    (p : ℕ → JobRow → Bool) (k : ℕ) (o : Option JobRow)
    → All (λ (x : ℕ × JobRow). (o ≡ some x.1) × (x.0 ≡ k) × (p x.0 x.1 ≡ true)) (scan_row p k o)
scan_row-rows p k none = tt
scan_row-rows p k (some r) = elim (Bool-cases (p k r)) [
  | inl chosen ↦ rw chosen ((refl, refl, chosen), tt)
  | inr left ↦ rw left tt
]

pub scan-rows :
    (db : Dict JobRow) (p : ℕ → JobRow → Bool) (m : Dict JobRow)
    → All (λ (x : ℕ × JobRow). (get db x.0 ≡ some x.1) × (p x.0 x.1 ≡ true)) (scan db p m)
scan-rows db p [] = tt
scan-rows db p ((k, r) ∷ m) =
    All-append _ (scan_row p k (get db k)) (scan db p m)
      (All-map _ _ (scan_row p k (get db k)) (λ x h. (ap (get db) h.1 ∙ h.0, h.2))
        (scan_row-rows p k (get db k)))
      (scan-rows db p m)

abbrev pub keys : List (ℕ × JobRow) → List ℕ
keys = map (λ (x : ℕ × JobRow). x.0)

mem-keys-append :
    (j : ℕ) (xs ys : List (ℕ × JobRow))
    → mem j (keys (xs ++ ys)) ≡ (mem j (keys xs) || mem j (keys ys))
mem-keys-append j [] ys = refl
mem-keys-append j (x ∷ xs) ys = ground (arith, mem-keys-append j xs ys)

scan_row-all :
    (p : ℕ → JobRow → Bool) (k j : ℕ) (o : Option JobRow)
    → mem j (keys (scan_row p k o)) ≡ ((k == j) && holds o (p k))
scan_row-all p k j none = ground arith
scan_row-all p k j (some r) = ground arith

pub scan-all :
    (db : Dict JobRow) (p : ℕ → JobRow → Bool) (m : Dict JobRow) (j : ℕ)
    → mem j (keys (scan db p m)) ≡ (holds (get db j) (p j) && mem j (keys m))
scan-all db p [] j = ground arith
scan-all db p ((k, r) ∷ m) j =
    mem-keys-append j (scan_row p k (get db k)) (scan db p m)
    ∙ rw (scan_row-all p k j (get db k), scan-all db p m j)
        (elim (Bool-cases (k == j)) [
          | inl same ↦ let e : k ≡ j = (==_iff k j).0 same in rw e (rw (==_refl j) (ground arith))
          | inr other ↦ rw other (ground arith)
        ])

pub mem-keys :
    (m : Dict JobRow) (j : ℕ) → mem j (map (λ (x : ℕ × JobRow). x.0) m) ≡ is_some (get m j)
unfolding get
mem-keys [] j = refl
mem-keys ((k, r) ∷ m) j = ground (arith, mem-keys m j)

unfoldable pub update_listed : Dict JobRow → (ℕ → JobRow → Bool) → (JobRow → JobRow) → Dict JobRow
update_listed [] p f = []
update_listed ((k, r) ∷ m) p f = (k, if p k r then f r else r) ∷ update_listed m p f

pub find-update_listed :
    (m : Dict JobRow) (p : ℕ → JobRow → Bool) (f : JobRow → JobRow) (j : ℕ)
    → get (update_listed m p f) j ≡ map_option (λ r. if p j r then f r else r) (get m j)
unfolding get update_listed
find-update_listed [] p f j = refl
find-update_listed ((k, r) ∷ m) p f j = elim (Bool-cases (k == j)) [
  | inl same ↦ let e : k ≡ j = (==_iff k j).0 same in rw e (rw (==_refl j) refl)
  | inr other ↦ rw other (find-update_listed m p f j)
]

pub holds-found : (o : Option JobRow) (p : JobRow → Bool) → (holds o p && is_some o) ≡ holds o p
holds-found none p = refl
holds-found (some r) p = ground arith

unfoldable pub listed_queries : JobQueries (Dict JobRow) listed_jobs
unfolding listed_jobs
listed_queries = record {
  find_many = λ db p. scan db p db;
  update_many = update_listed;
  updated_at = λ db job. 0;
  find_many-rows = λ db p. scan-rows db p db;
  find_many-all =
      λ db p j. scan-all db p db j ∙ (rw (mem-keys db j) (holds-found (get db j) (p j)));
  find-update_many = find-update_listed;
  updated_at-update_many = λ db p f j other. refl;
}
