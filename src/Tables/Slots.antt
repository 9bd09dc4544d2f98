-- ===== src/Tables/Slots.antt =====
-- Rows in slots, one slot for each key, with the queries and writes of a table.
pub mod Points
pub mod Counts
pub mod Lists
pub mod First
use relaydock.Prelude.{
  ℕ, zero, suc, ◌+◌, ◌≤◌, ◌<◌, ◌≡◌, refl, ap, sym, ◌∙◌, subst, Bool, true, false, ◌&&◌, ◌||◌,
  Option, none, some, List, [], ◌∷◌, ◌++◌, map, mem, any, map_option, is_some, leb, ◌==◌,
  if◌then◌else◌, All, All-append, All-map, if_elim, Bool-cases, Option-cases, inl, inr, arith,
}
use relaydock.Tables.{meets, drop_if}

abbrev pub Slots : Type 0 → Type 0
Slots Row = List (Option Row)

abbrev pub tally : Bool → ℕ → ℕ
tally true n = suc n
tally false n = n

module _ {Row : Type 0} where
  unfoldable pub slot : Slots Row → ℕ → Option Row
  slot [] k = none
  slot (s ∷ m) zero = s
  slot (s ∷ m) (suc k) = slot m k

  abbrev pub later : Option (ℕ × Row) → Option (ℕ × Row)
  later none = none
  later (some (k, r)) = some (suc k, r)

  abbrev pub earlier : (Row → ℕ) → Option (ℕ × Row) → Option (ℕ × Row) → Option (ℕ × Row)
  earlier by none y = y
  earlier by (some x) none = some x
  earlier by (some x) (some y) = if leb (by x.1) (by y.1) then some x else some y

  abbrev pub candidate : (Row → Bool) → Option Row → Option (ℕ × Row)
  candidate p none = none
  candidate p (some r) = if p r then some (0, r) else none

  unfoldable pub first_slot : Slots Row → (ℕ → Row → Bool) → (Row → ℕ) → Option (ℕ × Row)
  first_slot [] p by = none
  first_slot (s ∷ m) p by =
      earlier by (candidate (p 0) s) (later (first_slot m (λ k. p (suc k)) by))

  abbrev pub entry : ℕ → (Row → Bool) → Option Row → List (ℕ × Row)
  entry n p none = []
  entry n p (some r) = if p r then (n, r) ∷ [] else []

  -- The rows from the slot on that stands for the key `n`.
  unfoldable pub slots_from : ℕ → Slots Row → (ℕ → Row → Bool) → List (ℕ × Row)
  slots_from n [] p = []
  slots_from n (s ∷ m) p = entry n (p n) s ++ slots_from (suc n) m p

  unfoldable pub count_slots : Slots Row → (ℕ → Row → Bool) → ℕ
  count_slots [] p = 0
  count_slots (s ∷ m) p = tally (meets s (p 0)) (count_slots m (λ k. p (suc k)))

  unfoldable pub update_slots : Slots Row → (ℕ → Row → Bool) → (Row → Row) → Slots Row
  update_slots [] p f = []
  update_slots (s ∷ m) p f =
      map_option (λ r. if p 0 r then f r else r) s ∷ update_slots m (λ k. p (suc k)) f

  unfoldable pub delete_slots : Slots Row → (ℕ → Row → Bool) → Slots Row
  delete_slots [] p = []
  delete_slots (s ∷ m) p = drop_if (p 0) s ∷ delete_slots m (λ k. p (suc k))

  unfoldable pub place : Slots Row → ℕ → Row → Slots Row
  place [] zero row = some row ∷ []
  place [] (suc k) row = none ∷ place [] k row
  place (s ∷ m) zero row = some row ∷ m
  place (s ∷ m) (suc k) row = s ∷ place m k row

  unfoldable pub clashes : (Row → Row → Bool) → Row → Slots Row → Bool
  clashes clash row [] = false
  clashes clash row (s ∷ m) = meets s (λ r. clash r row) || clashes clash row m

  unfoldable pub create_slot : (Row → Row → Bool) → Slots Row → ℕ → Row → Option (Slots Row)
  create_slot clash db id row =
      if is_some (slot db id) || clashes clash row db then none else some (place db id row)

  abbrev pub keys : List (ℕ × Row) → List ℕ
  keys = map (λ (x : ℕ × Row). x.0)
