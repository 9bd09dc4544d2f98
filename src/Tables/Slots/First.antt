-- ===== src/Tables/Slots/First.antt =====
-- The first row by a column.
use relaydock.Prelude.{
  ℕ, zero, suc, ◌≤◌, ◌≡◌, refl, subst, Bool, true, false, Option, none, some, [], ◌∷◌, leb, if_elim,
  Bool-cases, inl, inr, arith,
}
use relaydock.Tables.{meets}
use relaydock.Tables.Slots.{Slots, slot, later, earlier, first_slot}

module _ {Row : Type 0} where
  -- What a first row is, for the whole table.
  abbrev pub Found : Slots Row → (ℕ → Row → Bool) → (Row → ℕ) → Option (ℕ × Row) → Type 0
  Found m p by none = (j : ℕ) (s : Row) → slot m j ≡ some s → p j s ≡ false
  Found m p by (some (k, r)) =
      (slot m k ≡ some r)
      × (p k r ≡ true)
      × ((j : ℕ) (s : Row) → slot m j ≡ some s → p j s ≡ true → by r ≤ by s)

  module _ (m : Slots Row) (p : ℕ → Row → Bool) (by : Row → ℕ) where
    absent :
        (t : Option Row)
        → meets t (p 0) ≡ false
        → ((j : ℕ) (s : Row) → slot m j ≡ some s → p (suc j) s ≡ false)
        → (j : ℕ) (s : Row) → slot (t ∷ m) j ≡ some s
        → p j s ≡ false
    unfolding slot
    absent none c h zero s e = absurd cc
    absent (some r) c h zero s e = ground arith
    absent t c h (suc j) s e = h j s e

    after_none :
        (o : Option (ℕ × Row)) → Found m (λ k. p (suc k)) by o → Found (none ∷ m) p by (later o)
    unfolding slot
    after_none none h = absent none refl h
    after_none (some (k, r)) h = (h.0, h.1, least)
      where
        least : (j : ℕ) (s : Row) → slot (none ∷ m) j ≡ some s → p j s ≡ true → by r ≤ by s
        least zero s e q = absurd cc
        least (suc j) s e q = h.2 j s e q

    after_other :
        (t : Row) (o : Option (ℕ × Row))
        → p 0 t ≡ false
        → Found m (λ k. p (suc k)) by o
        → Found (some t ∷ m) p by (later o)
    unfolding slot
    after_other t none c h = absent (some t) c h
    after_other t (some (k, r)) c h = (h.0, h.1, least)
      where
        least : (j : ℕ) (s : Row) → slot (some t ∷ m) j ≡ some s → p j s ≡ true → by r ≤ by s
        least zero s e q = absurd (ground arith)
        least (suc j) s e q = h.2 j s e q

    after_match :
        (t : Row) (o : Option (ℕ × Row))
        → p 0 t ≡ true
        → Found m (λ k. p (suc k)) by o
        → Found (some t ∷ m) p by (earlier by (some (0, t)) (later o))
    unfolding slot
    after_match t none c h = (refl, c, least)
      where
        least : (j : ℕ) (s : Row) → slot (some t ∷ m) j ≡ some s → p j s ≡ true → by t ≤ by s
        least zero s e q = ground arith
        least (suc j) s e q = absurd (ground (arith, h j s e))
    after_match t (some (k, r)) c h =
        if_elim (Found (some t ∷ m) p by) (leb (by t) (by r)) (some (0, t)) (some (suc k, r))
          (λ first. (refl, c, before first)) (λ other. (h.0, h.1, behind other))
      where
        before :
            leb (by t) (by r) ≡ true
            → (j : ℕ) (s : Row) → slot (some t ∷ m) j ≡ some s
            → p j s ≡ true
            → by t ≤ by s
        before first zero s e q = ground arith
        before first (suc j) s e q = ground (arith, h.2 j s e q)

        behind :
            leb (by t) (by r) ≡ false
            → (j : ℕ) (s : Row) → slot (some t ∷ m) j ≡ some s
            → p j s ≡ true
            → by r ≤ by s
        behind other zero s e q = ground arith
        behind other (suc j) s e q = h.2 j s e q

  first_slot-Found :
      (m : Slots Row) (p : ℕ → Row → Bool) (by : Row → ℕ) → Found m p by (first_slot m p by)
  unfolding first_slot slot
  first_slot-Found [] p by = λ j s e. absurd cc
  first_slot-Found (none ∷ m) p by = after_none m p by _ (first_slot-Found m (λ k. p (suc k)) by)
  first_slot-Found (some t ∷ m) p by =
      let rest = first_slot-Found m (λ k. p (suc k)) by in
      elim (Bool-cases (p 0 t)) [
        | inl c ↦ rw c (after_match m p by t (first_slot m (λ k. p (suc k)) by) c rest)
        | inr c ↦ rw c (after_other m p by t (first_slot m (λ k. p (suc k)) by) c rest)
      ]

  pub first_slot-some :
      (m : Slots Row) (p : ℕ → Row → Bool) (by : Row → ℕ) (k : ℕ) (r : Row)
      → first_slot m p by ≡ some (k, r)
      → Found m p by (some (k, r))
  first_slot-some m p by k r e = subst (Found m p by) e (first_slot-Found m p by)

  pub first_slot-none :
      (m : Slots Row) (p : ℕ → Row → Bool) (by : Row → ℕ)
      → first_slot m p by ≡ none
      → Found m p by none
  first_slot-none m p by e = subst (Found m p by) e (first_slot-Found m p by)
