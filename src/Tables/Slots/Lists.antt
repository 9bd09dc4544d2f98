-- ===== src/Tables/Slots/Lists.antt =====
-- The list of rows that satisfy a test has just those rows.
use relaydock.Prelude.{
  ℕ, zero, suc, ◌+◌, ◌<◌, ◌≡◌, refl, ap, ◌∙◌, Bool, true, false, ◌&&◌, ◌||◌, Option, none, some,
  List, [], ◌∷◌, ◌++◌, mem, ◌==◌, All, All-append, Bool-cases, inl, inr, arith,
}
use relaydock.Tables.{meets}
use relaydock.Tables.Slots.{Slots, slot, entry, slots_from, keys}

module _ {Row : Type 0} where
  entry-rows :
      (db : Slots Row) (p : ℕ → Row → Bool) (n : ℕ) (s : Option Row)
      → slot db n ≡ s
      → All (λ (x : ℕ × Row). (slot db x.0 ≡ some x.1) × (p x.0 x.1 ≡ true)) (entry n (p n) s)
  entry-rows db p n none e = tt
  entry-rows db p n (some r) e = elim (Bool-cases (p n r)) [
    | inl c ↦ rw c ((e, c), tt)
    | inr c ↦ rw c tt
  ]

  next_slot :
      (db m : Slots Row) (n : ℕ) (s : Option Row)
      → ((j : ℕ) → slot db (n + j) ≡ slot (s ∷ m) j)
      → (j : ℕ) → slot db (suc n + j) ≡ slot m j
  unfolding slot
  next_slot db m n s h j = let e : suc n + j ≡ n + suc j = omega arith in rw e (h (suc j))

  pub slots_from-rows :
      (db : Slots Row) (p : ℕ → Row → Bool) (n : ℕ) (m : Slots Row)
      → ((j : ℕ) → slot db (n + j) ≡ slot m j)
      → All (λ (x : ℕ × Row). (slot db x.0 ≡ some x.1) × (p x.0 x.1 ≡ true)) (slots_from n m p)
  unfolding slots_from slot
  slots_from-rows db p n [] h = tt
  slots_from-rows db p n (s ∷ m) h =
      All-append _ (entry n (p n) s) (slots_from (suc n) m p)
        (entry-rows db p n s (ap (slot db) (omega arith) ∙ h 0))
        (slots_from-rows db p (suc n) m (next_slot db m n s h))

  mem-keys-append :
      (j : ℕ) (xs ys : List (ℕ × Row))
      → mem j (keys (xs ++ ys)) ≡ (mem j (keys xs) || mem j (keys ys))
  mem-keys-append j [] ys = refl
  mem-keys-append j (x ∷ xs) ys = ground (arith, mem-keys-append j xs ys)

  mem-entry :
      (j n : ℕ) (p : Row → Bool) (s : Option Row)
      → mem j (keys (entry n p s)) ≡ ((n == j) && meets s p)
  mem-entry j n p none = ground arith
  mem-entry j n p (some r) = ground arith

  not_before :
      (m : Slots Row) (p : ℕ → Row → Bool) (n j : ℕ)
      → j < n
      → mem j (keys (slots_from n m p)) ≡ false
  unfolding slots_from
  not_before [] p n j h = refl
  not_before (s ∷ m) p n j h =
      mem-keys-append j (entry n (p n) s) (slots_from (suc n) m p)
      ∙ rw (not_before m p (suc n) j (omega arith)) (rw (mem-entry j n (p n) s) (ground arith))

  slots_from-all :
      (m : Slots Row) (p : ℕ → Row → Bool) (n j : ℕ)
      → mem (n + j) (keys (slots_from n m p)) ≡ meets (slot m j) (p (n + j))
  unfolding slots_from slot
  slots_from-all [] p n j = refl
  slots_from-all (s ∷ m) p n zero =
      let e : n + 0 ≡ n = omega arith in
      rw e (
        mem-keys-append n (entry n (p n) s) (slots_from (suc n) m p)
        ∙ rw (not_before m p (suc n) n (omega arith)) (rw (mem-entry n n (p n) s) (ground arith)))
  slots_from-all (s ∷ m) p n (suc j) =
      let e : suc n + j ≡ n + suc j = omega arith in
      mem-keys-append (n + suc j) (entry n (p n) s) (slots_from (suc n) m p)
      ∙ rw (mem-entry (n + suc j) n (p n) s) (
          let d : (n == (n + suc j)) ≡ false = ground arith in
          rw d (rw e at (slots_from-all m p (suc n) j)))

  pub slots_from-zero :
      (m : Slots Row) (p : ℕ → Row → Bool) (j : ℕ)
      → mem j (keys (slots_from 0 m p)) ≡ meets (slot m j) (p j)
  slots_from-zero m p j = let e : 0 + j ≡ j = omega arith in rw e at (slots_from-all m p 0 j)
