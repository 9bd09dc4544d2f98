-- ===== src/Tables/Slots/Counts.antt =====
-- How the writes change the number of rows that satisfy a test.
use relaydock.Prelude.{
  ℕ, zero, suc, ◌+◌, ◌<◌, ◌≡◌, refl, ◌∙◌, Bool, true, false, ◌&&◌, none, some, [], ◌∷◌, ◌==◌,
  if◌then◌else◌, Bool-cases, inl, inr, arith,
}
use relaydock.Tables.{meets}
use relaydock.Tables.Slots.{Slots, slot, count_slots, update_slots, delete_slots, place}

suc_eq : (j k : ℕ) → (suc j == suc k) ≡ (j == k)
suc_eq j k = ground arith

zero_ne_suc : (k : ℕ) → (0 == suc k) ≡ false
zero_ne_suc k = ground arith

module _ {Row : Type 0} where
  pub count-place :
      (m : Slots Row) (id : ℕ) (row : Row) (p : ℕ → Row → Bool)
      → slot m id ≡ none
      → count_slots (place m id row) p ≡ count_slots m p + (if p id row then 1 else 0)
  unfolding slot place count_slots
  count-place [] zero row p e = ground arith
  count-place [] (suc id) row p e = count-place [] id row (λ k. p (suc k)) e
  count-place (none ∷ m) zero row p e = ground arith
  count-place (some r ∷ m) zero row p e = absurd cc
  count-place (s ∷ m) (suc id) row p e = elim (Bool-cases (meets s (p 0))) [
    | inl c ↦ rw c (omega (arith, count-place m id row (λ k. p (suc k)) e))
    | inr c ↦ rw c (count-place m id row (λ k. p (suc k)) e)
  ]

  pub count-update :
      (m : Slots Row) (p : ℕ → Row → Bool) (f : Row → Row) (q : ℕ → Row → Bool)
      → count_slots (update_slots m p f) q ≡ count_slots m (λ k r. q k (if p k r then f r else r))
  unfolding count_slots update_slots
  count-update [] p f q = refl
  count-update (none ∷ m) p f q = rw (count-update m (λ k. p (suc k)) f (λ k. q (suc k)))
  count-update (some r ∷ m) p f q = rw (count-update m (λ k. p (suc k)) f (λ k. q (suc k)))

  pub count-delete :
      (m : Slots Row) (p q : ℕ → Row → Bool)
      → count_slots (delete_slots m p) q + count_slots m (λ k r. p k r && q k r) ≡ count_slots m q
  unfolding count_slots delete_slots
  count-delete [] p q = refl
  count-delete (none ∷ m) p q = omega (arith, count-delete m (λ k. p (suc k)) (λ k. q (suc k)))
  count-delete (some r ∷ m) p q = ground (arith, count-delete m (λ k. p (suc k)) (λ k. q (suc k)))

  count_none : (m : Slots Row) → count_slots m (λ k r. false) ≡ 0
  unfolding count_slots
  count_none [] = refl
  count_none (none ∷ m) = count_none m
  count_none (some r ∷ m) = count_none m

  count_cong :
      (m : Slots Row) (p q : ℕ → Row → Bool)
      → ((k : ℕ) (r : Row) → p k r ≡ q k r)
      → count_slots m p ≡ count_slots m q
  unfolding count_slots
  count_cong [] p q h = refl
  count_cong (none ∷ m) p q h = count_cong m (λ k. p (suc k)) (λ k. q (suc k)) (λ k r. h (suc k) r)
  count_cong (some r ∷ m) p q h =
      rw (h 0 r, count_cong m (λ k. p (suc k)) (λ k. q (suc k)) (λ k s. h (suc k) s))

  pub count-at :
      (m : Slots Row) (k : ℕ) (p : ℕ → Row → Bool)
      → count_slots m (λ j r. (j == k) && p j r) ≡ (if meets (slot m k) (p k) then 1 else 0)
  unfolding slot count_slots
  count-at [] k p = refl
  count-at (none ∷ m) zero p =
      count_cong m (λ j r. (suc j == 0) && p (suc j) r) (λ k r. false) (λ k r. ground arith)
      ∙ count_none m
  count-at (some r ∷ m) zero p =
      rw
        (
          count_cong m (λ j r. (suc j == 0) && p (suc j) r) (λ k r. false) (λ k r. ground arith),
          count_none m,
        )
        (ground arith)
  count-at (none ∷ m) (suc k) p =
      count_cong m (λ j r. (suc j == suc k) && p (suc j) r) (λ j r. (j == k) && p (suc j) r)
        (λ j r. rw (suc_eq j k))
      ∙ count-at m k (λ j. p (suc j))
  count-at (some s ∷ m) (suc k) p = rw (zero_ne_suc k) (
      count_cong m (λ j r. (suc j == suc k) && p (suc j) r) (λ j r. (j == k) && p (suc j) r)
        (λ j r. rw (suc_eq j k))
      ∙ count-at m k (λ j. p (suc j)))

  pub count_nothing :
      (m : Slots Row) (p : ℕ → Row → Bool) (j : ℕ) (r : Row)
      → count_slots m p ≡ 0
      → slot m j ≡ some r
      → p j r ≡ false
  unfolding slot count_slots
  count_nothing [] p j r e h = absurd cc
  count_nothing (none ∷ m) p zero r e h = absurd cc
  count_nothing (some s ∷ m) p zero r e h = ground arith
  count_nothing (s ∷ m) p (suc j) r e h = count_nothing m (λ k. p (suc k)) j r (ground arith) h

  pub count_something :
      (m : Slots Row) (p : ℕ → Row → Bool)
      → 0 < count_slots m p
      → (j : ℕ) × (r : Row) × (slot m j ≡ some r) × (p j r ≡ true)
  unfolding slot count_slots
  count_something [] p h = absurd (omega arith)
  count_something (none ∷ m) p h =
      let (j, r, e, q) = count_something m (λ k. p (suc k)) h in (suc j, r, e, q)
  count_something (some r ∷ m) p h = elim (Bool-cases (p 0 r)) [
    | inl c ↦ (0, r, refl, c)
    | inr c ↦
        let (j, r, e, q) = count_something m (λ k. p (suc k)) (ground arith) in (suc j, r, e, q)
  ]
