-- ===== src/Jobs/Table.antt =====
-- The table of jobs as the service uses it through Prisma: a row by its primary key, and a write
-- to one row. The laws are what the service relies on.
use relaydock.Prelude.{
  ℕ, Option, none, some, ◌≡◌, arith, Dict, get, put, get-put, ◌==◌, if◌then◌else◌, map_option,
  Option-cases, inl, inr,
}
use relaydock.Jobs.{JobRow}

pub record JobTable (Db : Type 0) : Type 0 where
  pub find : Db → ℕ → Option JobRow
  pub update : Db → ℕ → (JobRow → JobRow) → Db
  pub find-update :
      (db : Db) (id j : ℕ) (f : JobRow → JobRow)
      → find (update db id f) j ≡ (if id == j then map_option f (find db j) else find db j)

-- A table that meets the laws: rows in a list.
unfoldable pub update_row : Dict JobRow → ℕ → (JobRow → JobRow) → Dict JobRow
update_row db id f = elim (get db id) [ none ↦ db | some r ↦ put db id (f r) ]

pub find-update_row :
    (db : Dict JobRow) (id j : ℕ) (f : JobRow → JobRow)
    → get (update_row db id f) j ≡ (if id == j then map_option f (get db j) else get db j)
unfolding update_row
find-update_row db id j f = elim (Option-cases (get db id)) [
  | inl absent ↦ rw (absent, update_row) (ground arith)
  | inr (r, found) ↦ rw (found, update_row) (rw get-put (ground arith))
]

unfoldable pub listed_jobs : JobTable (Dict JobRow)
unfolding update_row
listed_jobs = record { find = get; update = update_row; find-update = find-update_row }
