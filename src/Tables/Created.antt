-- ===== src/Tables/Created.antt =====
-- A new row is the only one with its unique column, so a search by that column finds it; and a row
-- with a free key and no clash can be created.
use relaydock.Prelude.{
  ℕ, ◌≡◌, refl, ◌∙◌, sym, ap, Bool, true, false, Option, none, some, ◌==◌, ==_iff, ==_refl, if_elim,
  Option-cases, inl, inr, arith,
}
use relaydock.Tables.{RowTable}

module _ {Row : Type 0} {clash : Row → Row → Bool} {Db : Type 0} (table : RowTable clash Db) where
  open table use {find, find_first, find_first-some, find_first-none}

  abbrev IsNew : (id : ℕ) → Row → ℕ × Row → Type 0
  IsNew id row x = (x.0 ≡ id) × (x.1 ≡ row)

  pair_eq : (id : ℕ) (row : Row) (x : ℕ × Row) → IsNew id row x → x ≡ (id, row)
  pair_eq id row x h = rw (← h.0, ← h.1) refl

  pub find_created :
      (db db' : Db) (id : ℕ) (row : Row)
      → table.create db id row ≡ some db'
      → find db' id ≡ some row
  find_created db db' id row made = table.find-create db db' id row id made ∙ rw (==_refl id) refl

  pub first_created :
      (db db' : Db) (id : ℕ) (row : Row) (p : ℕ → Row → Bool) (by : Row → ℕ)
      → table.create db id row ≡ some db'
      → p id row ≡ true
      → ((k : ℕ) (s : Row) → clash s row ≡ false → p k s ≡ false)
      → find_first db' p by ≡ some (id, row)
  first_created db db' id row p by made chosen alone =
      let here : find db' id ≡ some row = find_created db db' id row made in
      elim (Option-cases (find_first db' p by)) [
        | inl e ↦ absurd (cc (find_first-none db' p by id row e here))
        | inr (x, e) ↦ e ∙ ap some (is_new x e)
      ]
    where
      is_new : (x : ℕ × Row) → find_first db' p by ≡ some x → x ≡ (id, row)
      is_new x e =
          let (there, fits) = find_first-some db' p by x.0 x.1 e in
          pair_eq id row x (
            if_elim (λ (o : Option Row). o ≡ some x.1 → IsNew id row x) (id == x.0) (some row)
              (find db x.0) (λ same is. (sym ((==_iff id x.0).0 same), ground arith))
              (λ away old.
                absurd (cc (alone x.0 x.1 (table.create_unique db db' id row x.0 x.1 made old))))
              (sym (table.find-create db db' id row x.0 made) ∙ there))

  pub can_create :
      (db : Db) (id : ℕ) (row : Row)
      → find db id ≡ none
      → ((j : ℕ) (s : Row) → find db j ≡ some s → clash s row ≡ false)
      → (db' : Db) × (table.create db id row ≡ some db')
  can_create db id row free apart = elim (Option-cases (table.create db id row)) [
    | inr (db', e) ↦ (db', e)
    | inl e ↦
        let (j, s, there, c) = table.create_refused db id row e free in
        absurd (cc (apart j s there))
  ]
