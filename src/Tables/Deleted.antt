-- ===== src/Tables/Deleted.antt =====
-- What a search finds after a deletion.
use relaydock.Prelude.{
  ℕ, ◌≡◌, refl, ◌∙◌, sym, Bool, true, false, Option, none, some, if◌then◌else◌, Bool-cases,
  Option-cases, inl, inr, arith,
}
use relaydock.Tables.{RowTable, drop_if}

-- A deletion leaves the first row by a unique column, unless it was that row that went.
abbrev pub outcome : {Row : Type 0} → (ℕ → Row → Bool) → Option (ℕ × Row) → Option (ℕ × Row)
outcome p none = none
outcome p (some (k, r)) = if p k r then none else some (k, r)

module _ {Row : Type 0} {clash : Row → Row → Bool} {Db : Type 0} (table : RowTable clash Db)
    (db : Db) (p q : ℕ → Row → Bool) where
  -- At most one row satisfies `q`.
  abbrev pub AtMostOne : Type 0
  AtMostOne =
      (j k : ℕ) (r s : Row)
      → table.find db j ≡ some r
      → table.find db k ≡ some s
      → q j r ≡ true
      → q k s ≡ true
      → j ≡ k

  still_there :
      (k : ℕ) (r : Row)
      → table.find (table.delete_many db p) k ≡ some r
      → (table.find db k ≡ some r) × (p k r ≡ false)
  still_there k r e = go (table.find db k) (sym (table.find-delete_many db p k) ∙ e)
    where
      go : (o : Option Row) → drop_if (p k) o ≡ some r → (o ≡ some r) × (p k r ≡ false)
      go none e = absurd cc
      go (some s) e = ground arith

  kept :
      (k : ℕ) (r : Row)
      → table.find db k ≡ some r
      → p k r ≡ false
      → table.find (table.delete_many db p) k ≡ some r
  kept k r there stays = table.find-delete_many db p k ∙ rw there (rw stays refl)

  one_row :
      (x y : ℕ × Row)
      → table.find db x.0 ≡ some x.1
      → table.find db y.0 ≡ some y.1
      → p y.0 y.1 ≡ false
      → x.0 ≡ y.0
      → some y ≡ (if p x.0 x.1 then none else some x)
  one_row x y old there stays same =
      let row : x.1 ≡ y.1 = ground (arith, rw same at old) in
      rw (same, row) (rw stays (ground arith))

  pub first-delete :
      AtMostOne
      → table.find_first (table.delete_many db p) q (λ r. 0)
        ≡ outcome p (table.find_first db q (λ r. 0))
  first-delete one = elim (Option-cases (table.find_first (table.delete_many db p) q (λ r. 0))) [
    | inl e ↦ elim (Option-cases (table.find_first db q (λ r. 0))) [
      | inl f ↦ rw (e, f) refl
      | inr (x, f) ↦
          let (there, fits) = table.find_first-some db q (λ r. 0) x.0 x.1 f in
          rw (e, f)
            (elim (Bool-cases (p x.0 x.1)) [
              | inl gone ↦ rw gone refl
              | inr stays ↦ absurd (
                  cc (
                    table.find_first-none (table.delete_many db p) q (λ r. 0) x.0 x.1 e
                      (kept x.0 x.1 there stays)))
            ])
    ]
    | inr (y, e) ↦
        let (held, fits) = table.find_first-some (table.delete_many db p) q (λ r. 0) y.0 y.1 e in
        let (there, stays) = still_there y.0 y.1 held in
        elim (Option-cases (table.find_first db q (λ r. 0))) [
          | inl f ↦ absurd (cc (table.find_first-none db q (λ r. 0) y.0 y.1 f there))
          | inr (x, f) ↦
              let (old, matches) = table.find_first-some db q (λ r. 0) x.0 x.1 f in
              rw (e, f) (one_row x y old there stays (one x.0 y.0 x.1 y.1 old there matches fits))
        ]
  ]
