-- ===== src/Tables.antt =====
-- A table of the database as the services use it through Prisma: rows under their primary keys,
-- with queries and writes over all rows that satisfy a test. The operations and their laws are
-- parameters. A create is given the fresh key, and fails when the key or a unique column is taken
-- (P2002); `clash` says which rows share a unique column.
pub mod Slots
pub mod Listed
pub mod Created
pub mod Deleted
pub mod Writes
use relaydock.Prelude.{
  ℕ, ◌+◌, ◌≤◌, ◌<◌, ◌≡◌, Bool, true, false, ◌&&◌, Option, none, some, List, map, mem, map_option,
  ◌==◌, if◌then◌else◌, All,
}

-- Whether a row is there and satisfies a test.
abbrev pub meets : {Row : Type 0} → Option Row → (Row → Bool) → Bool
meets none p = false
meets (some r) p = p r

-- A row that satisfies the test is gone.
abbrev pub drop_if : {Row : Type 0} → (Row → Bool) → Option Row → Option Row
drop_if p none = none
drop_if p (some r) = if p r then none else some r

pub record RowTable {Row : Type 0} (clash : Row → Row → Bool) (Db : Type 0) : Type 0 where
  pub find : Db → ℕ → Option Row
  -- The first row by a column, among those that satisfy the test.
  pub find_first : Db → (ℕ → Row → Bool) → (Row → ℕ) → Option (ℕ × Row)
  pub find_many : Db → (ℕ → Row → Bool) → List (ℕ × Row)
  pub count : Db → (ℕ → Row → Bool) → ℕ
  pub update_many : Db → (ℕ → Row → Bool) → (Row → Row) → Db
  pub delete_many : Db → (ℕ → Row → Bool) → Db
  pub create : Db → (id : ℕ) → Row → Option Db
  pub find_first-some :
      (db : Db) (p : ℕ → Row → Bool) (by : Row → ℕ) (k : ℕ) (r : Row)
      → find_first db p by ≡ some (k, r)
      → (find db k ≡ some r) × (p k r ≡ true)
  pub find_first-le :
      (db : Db) (p : ℕ → Row → Bool) (by : Row → ℕ) (k : ℕ) (r : Row) (j : ℕ) (s : Row)
      → find_first db p by ≡ some (k, r)
      → find db j ≡ some s
      → p j s ≡ true
      → by r ≤ by s
  pub find_first-none :
      (db : Db) (p : ℕ → Row → Bool) (by : Row → ℕ) (j : ℕ) (s : Row)
      → find_first db p by ≡ none
      → find db j ≡ some s
      → p j s ≡ false
  pub find_many-rows :
      (db : Db) (p : ℕ → Row → Bool)
      → All (λ (x : ℕ × Row). (find db x.0 ≡ some x.1) × (p x.0 x.1 ≡ true)) (find_many db p)
  pub find_many-all :
      (db : Db) (p : ℕ → Row → Bool) (j : ℕ)
      → mem j (map (λ (x : ℕ × Row). x.0) (find_many db p)) ≡ meets (find db j) (p j)
  pub find-update_many :
      (db : Db) (p : ℕ → Row → Bool) (f : Row → Row) (j : ℕ)
      → find (update_many db p f) j ≡ map_option (λ r. if p j r then f r else r) (find db j)
  pub find-delete_many :
      (db : Db) (p : ℕ → Row → Bool) (j : ℕ) → find (delete_many db p) j ≡ drop_if (p j) (find db j)
  pub find-create :
      (db db' : Db) (id : ℕ) (row : Row) (j : ℕ)
      → create db id row ≡ some db'
      → find db' j ≡ (if id == j then some row else find db j)
  pub create_fresh :
      (db db' : Db) (id : ℕ) (row : Row) → create db id row ≡ some db' → find db id ≡ none
  pub create_unique :
      (db db' : Db) (id : ℕ) (row : Row) (j : ℕ) (s : Row)
      → create db id row ≡ some db'
      → find db j ≡ some s
      → clash s row ≡ false
  pub create_refused :
      (db : Db) (id : ℕ) (row : Row)
      → create db id row ≡ none
      → find db id ≡ none
      → (j : ℕ) × (s : Row) × (find db j ≡ some s) × (clash s row ≡ true)
  pub count-create :
      (db db' : Db) (id : ℕ) (row : Row) (p : ℕ → Row → Bool)
      → create db id row ≡ some db'
      → count db' p ≡ count db p + (if p id row then 1 else 0)
  pub count-update_many :
      (db : Db) (p : ℕ → Row → Bool) (f : Row → Row) (q : ℕ → Row → Bool)
      → count (update_many db p f) q ≡ count db (λ k r. q k (if p k r then f r else r))
  pub count-delete_many :
      (db : Db) (p q : ℕ → Row → Bool)
      → count (delete_many db p) q + count db (λ k r. p k r && q k r) ≡ count db q
  pub count-key :
      (db : Db) (k : ℕ) (p : ℕ → Row → Bool)
      → count db (λ j r. (j == k) && p j r) ≡ (if meets (find db k) (p k) then 1 else 0)
  pub count_zero :
      (db : Db) (p : ℕ → Row → Bool) (j : ℕ) (r : Row)
      → count db p ≡ 0
      → find db j ≡ some r
      → p j r ≡ false
  pub count_pos :
      (db : Db) (p : ℕ → Row → Bool)
      → 0 < count db p
      → (j : ℕ) × (r : Row) × (find db j ≡ some r) × (p j r ≡ true)

-- No two rows share a unique column.
abbrev pub IsUnique :
    {Row : Type 0} {clash : Row → Row → Bool} {Db : Type 0} → RowTable clash Db → Db → Type 0
IsUnique {Row} {clash} table db =
    (j k : ℕ) (r s : Row)
    → table.find db j ≡ some r
    → table.find db k ≡ some s
    → clash r s ≡ true
    → j ≡ k
