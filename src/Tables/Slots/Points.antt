-- ===== src/Tables/Slots/Points.antt =====
-- What stands in a slot after a write, and when a row clashes with a new one.
use relaydock.Prelude.{
  ℕ, zero, suc, ◌≡◌, refl, ◌∙◌, Bool, true, false, none, some, [], ◌∷◌, map_option, ◌==◌,
  if◌then◌else◌, Bool-cases, inl, inr, arith,
}
use relaydock.Tables.{drop_if}
use relaydock.Tables.Slots.{Slots, slot, update_slots, delete_slots, place, clashes}

module _ {Row : Type 0} where
  pub slot-place :
      (m : Slots Row) (id : ℕ) (row : Row) (j : ℕ)
      → slot (place m id row) j ≡ (if id == j then some row else slot m j)
  unfolding slot place
  slot-place [] zero row zero = refl
  slot-place [] zero row (suc j) = ground arith
  slot-place [] (suc id) row zero = ground arith
  slot-place [] (suc id) row (suc j) = slot-place [] id row j ∙ ground arith
  slot-place (s ∷ m) zero row zero = refl
  slot-place (s ∷ m) zero row (suc j) = ground arith
  slot-place (s ∷ m) (suc id) row zero = ground arith
  slot-place (s ∷ m) (suc id) row (suc j) = slot-place m id row j ∙ ground arith

  pub slot-update :
      (m : Slots Row) (p : ℕ → Row → Bool) (f : Row → Row) (j : ℕ)
      → slot (update_slots m p f) j ≡ map_option (λ r. if p j r then f r else r) (slot m j)
  unfolding slot update_slots
  slot-update [] p f j = refl
  slot-update (s ∷ m) p f zero = refl
  slot-update (s ∷ m) p f (suc j) = slot-update m (λ k. p (suc k)) f j

  pub slot-delete :
      (m : Slots Row) (p : ℕ → Row → Bool) (j : ℕ)
      → slot (delete_slots m p) j ≡ drop_if (p j) (slot m j)
  unfolding slot delete_slots
  slot-delete [] p j = refl
  slot-delete (s ∷ m) p zero = refl
  slot-delete (s ∷ m) p (suc j) = slot-delete m (λ k. p (suc k)) j

  pub clashes-slot :
      (clash : Row → Row → Bool) (row : Row) (m : Slots Row) (j : ℕ) (s : Row)
      → clashes clash row m ≡ false
      → slot m j ≡ some s
      → clash s row ≡ false
  unfolding slot clashes
  clashes-slot clash row [] j s e h = absurd cc
  clashes-slot clash row (none ∷ m) zero s e h = absurd cc
  clashes-slot clash row (some r ∷ m) zero s e h = ground arith
  clashes-slot clash row (t ∷ m) (suc j) s e h = clashes-slot clash row m j s (ground arith) h

  pub clashes_found :
      (clash : Row → Row → Bool) (row : Row) (m : Slots Row)
      → clashes clash row m ≡ true
      → (j : ℕ) × (s : Row) × (slot m j ≡ some s) × (clash s row ≡ true)
  unfolding slot clashes
  clashes_found clash row [] e = absurd cc
  clashes_found clash row (none ∷ m) e =
      let (j, s, h, c) = clashes_found clash row m e in (suc j, s, h, c)
  clashes_found clash row (some r ∷ m) e = elim (Bool-cases (clash r row)) [
    | inl c ↦ (0, r, refl, c)
    | inr c ↦ let (j, s, h, c) = clashes_found clash row m (ground arith) in (suc j, s, h, c)
  ]
