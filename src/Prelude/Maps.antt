-- ===== src/Prelude/Maps.antt =====
-- The `Map` of JavaScript with identifiers for keys: entries in order of insertion, where a write
-- to a key that is present keeps its place.
use Prim.Native.Nat.{ℕ}
use mathlib.Core.Path.{◌≡◌, refl}
use mathlib.Core.Option.{Option, none, some}
use mathlib.Core.List.{List, [], ◌∷◌}
use native.Mathlib.Omega.{arith}
use mathlib.Core.Bool.{false}
use mathlib.Core.Logic.{inl, inr}
use relaydock.Prelude.Tests.{if◌then◌else◌, ◌==◌, Bool-cases}

abbrev pub Dict {ℓ} : Type ℓ → Type ℓ
Dict V = List (ℕ × V)

module _ {ℓ} {V : Type ℓ} where
  unfoldable pub get : Dict V → ℕ → Option V
  get [] k = none
  get ((j, v) ∷ m) k = if j == k then some v else get m k

  unfoldable pub put : Dict V → ℕ → V → Dict V
  put [] k v = (k, v) ∷ []
  put ((j, w) ∷ m) k v = if j == k then (j, v) ∷ m else (j, w) ∷ put m k v

  -- Keys are distinct, so this drops one entry at most.
  unfoldable pub delete : Dict V → ℕ → Dict V
  delete [] k = []
  delete ((j, w) ∷ m) k = if j == k then delete m k else (j, w) ∷ delete m k

  pub get-put :
      (m : Dict V) (k j : ℕ) (v : V) → get (put m k v) j ≡ (if k == j then some v else get m j)
  unfolding get put
  get-put [] k j v = refl
  get-put ((i, w) ∷ m) k j v = ground (arith, get-put m k j v)

  pub get-delete : (m : Dict V) (k j : ℕ) → get (delete m k) j ≡ (if k == j then none else get m j)
  unfolding get delete
  get-delete [] k j = ground arith
  get-delete ((i, w) ∷ m) k j = ground (arith, get-delete m k j)

  pub get-nil : (k : ℕ) → get [] k ≡ none
  unfolding get
  get-nil k = refl

pub ruleset dict_laws = (get-put, get-delete, get-nil)

-- No key occurs twice.
abbrev pub Distinct {ℓ} : {V : Type ℓ} → Dict V → Type ℓ
Distinct [] = Unit
Distinct ((k, v) ∷ m) = (get m k ≡ none) × Distinct m

module _ {ℓ} {V : Type ℓ} where
  pub Distinct-put : (m : Dict V) (k : ℕ) (v : V) → Distinct m → Distinct (put m k v)
  unfolding put get
  Distinct-put [] k v h = (refl, tt)
  Distinct-put ((j, w) ∷ m) k v h = ground (arith, Distinct-put m k v h.1, get-put m k j v)

  pub Distinct-delete : (m : Dict V) (k : ℕ) → Distinct m → Distinct (delete m k)
  unfolding delete
  Distinct-delete [] k h = tt
  Distinct-delete ((j, w) ∷ m) k h = ground (arith, Distinct-delete m k h.1, get-delete m k j)

module _ {ℓ κ} {V : Type ℓ} (P : ℕ → V → Type κ) where
  -- Every entry of a map satisfies `P`.
  abbrev pub Entries : Dict V → Type κ
  Entries [] = Unit
  Entries ((k, v) ∷ m) = P k v × Entries m

  pub Entries-put : (m : Dict V) (k : ℕ) (v : V) → Entries m → P k v → Entries (put m k v)
  unfolding put
  Entries-put [] k v h p = (p, tt)
  Entries-put ((j, w) ∷ m) k v h p = ground (arith, Entries-put m k v h.1 p)

  pub Entries-delete : (m : Dict V) (k : ℕ) → Entries m → Entries (delete m k)
  unfolding delete
  Entries-delete [] k h = tt
  Entries-delete ((j, w) ∷ m) k h = ground (arith, Entries-delete m k h.1)

  pub Entries-get : (m : Dict V) (k : ℕ) (v : V) → Entries m → get m k ≡ some v → P k v
  unfolding get
  Entries-get [] k v h e = absurd (cc)
  Entries-get ((j, w) ∷ m) k v h e = ground (arith, Entries-get m k v h.1)

module _ {ℓ κ μ} {V : Type ℓ} (P : ℕ → V → Type κ) (Q : ℕ → V → Type μ) where
  pub Entries-map : (m : Dict V) → ((k : ℕ) (v : V) → P k v → Q k v) → Entries P m → Entries Q m
  Entries-map [] f h = tt
  Entries-map ((k, v) ∷ m) f h = (f k v h.0, Entries-map m f h.1)

  -- A deletion leaves the entries under the other keys.
  pub Entries-delete_other :
      (m : Dict V) (k : ℕ)
      → ((j : ℕ) (v : V) → (k == j) ≡ false → P j v → Q j v)
      → Entries P m
      → Entries Q (delete m k)
  unfolding delete
  Entries-delete_other [] k f h = tt
  Entries-delete_other ((j, v) ∷ m) k f h = elim (Bool-cases (j == k)) [
    | inl same ↦ rw same (Entries-delete_other m k f h.1)
    | inr other ↦ rw other (f j v (ground arith) h.0, Entries-delete_other m k f h.1)
  ]

  -- No entry stands under a key that is not found.
  pub Entries-absent :
      (m : Dict V) (k : ℕ)
      → get m k ≡ none
      → ((j : ℕ) (v : V) → (k == j) ≡ false → P j v → Q j v)
      → Entries P m
      → Entries Q m
  unfolding get
  Entries-absent [] k e f h = tt
  Entries-absent ((j, v) ∷ m) k e f h = elim (Bool-cases (j == k)) [
    | inl same ↦ absurd (ground arith)
    | inr other ↦ (f j v (ground arith) h.0, Entries-absent m k (ground arith) f h.1)
  ]

module _ {ℓ} {V : Type ℓ} where
  some-ne-none : (o : Option V) (v : V) → o ≡ none → o ≡ some v → ⊥
  some-ne-none o v e h = cc

  later :
      (m : Dict V) (j k : ℕ) (v w : V)
      → get m j ≡ none
      → get m k ≡ some w
      → get ((j, v) ∷ m) k ≡ some w
  unfolding get
  later m j k v w e h = ground (arith, some-ne-none (get m j) w e)

  -- In a map without repeated keys every entry is found under its key.
  pub Entries-found : (m : Dict V) → Distinct m → Entries (λ k v. get m k ≡ some v) m
  Entries-found [] d = tt
  Entries-found ((j, v) ∷ m) d = (
    unfold get in ground arith,
    Entries-map (λ k w. get m k ≡ some w) (λ k w. get ((j, v) ∷ m) k ≡ some w) m
        (λ k w. later m j k v w d.0) (Entries-found m d.1),
  )
