-- ===== src/Tables/Writes.antt =====
-- An update of one row by its key. It fails when the row is not there (P2025) and when its new
-- unique column is another row's (P2002).
use relaydock.Prelude.{
  ℕ, ◌≡◌, ap, Bool, not, ◌&&◌, none, some, ◌==◌, map_option, if◌then◌else◌, Option-cases, inl, inr,
}
use relaydock.Errors.{Result, ok, err, record_not_found, unique_conflict}
use relaydock.Tables.{RowTable}

module _ {Row : Type 0} {clash : Row → Row → Bool} {Db : Type 0} (table : RowTable clash Db) where
  open table use {find, find_first, update_many}

  abbrev stored : Db → Result Db → Db
  stored db (ok db') = db'
  stored db (err e) = db

  unfoldable pub update_row : Db → (id : ℕ) → (Row → Row) → Result Db
  update_row db id f = elim (find db id) [
    | none ↦ err record_not_found
    | some r ↦ elim (find_first db (λ k s. not (k == id) && clash s (f r)) (λ s. 0)) [
      | none ↦ ok (update_many db (λ k s. k == id) f)
      | some taken ↦ err unique_conflict
    ]
  ]

  -- A successful update changes the row and no other.
  pub find-update_row :
      (db db' : Db) (id : ℕ) (f : Row → Row) (j : ℕ)
      → update_row db id f ≡ ok db'
      → find db' j ≡ map_option (λ r. if j == id then f r else r) (find db j)
  unfolding update_row
  find-update_row db db' id f j e = elim (Option-cases (find db id)) [
    | inl absent ↦ absurd (cc (rw (absent, update_row) at e))
    | inr (r, there) ↦
        let e' = rw (there, update_row) at e in
        elim (Option-cases (find_first db (λ k s. not (k == id) && clash s (f r)) (λ s. 0))) [
          | inr (x, taken) ↦ absurd (cc (rw taken at e'))
          | inl free ↦
              let same : update_many db (λ k s. k == id) f ≡ db' = ap (stored db) (rw free at e') in
              rw (← same) (table.find-update_many db (λ k s. k == id) f j)
        ]
  ]
