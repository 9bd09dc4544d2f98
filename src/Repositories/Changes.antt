-- ===== src/Repositories/Changes.antt =====
-- A change of a repository's path is taken as the agent validated it, or leaves the columns alone.
use relaydock.Prelude.{
  ℕ, ◌≡◌, refl, String, Bool, true, false, Option, none, some, ◌==◌, or_else, map_option,
  if◌then◌else◌, inl, inr, arith,
}
use relaydock.Protocol.{RepositoryValidationResult}
use relaydock.Errors.{Result-cases, Result, ok, err, AppError, repository_invalid}
use relaydock.Tables.{RowTable}
use relaydock.Tables.Writes.{update_row, find-update_row}
use relaydock.Devices.{DeviceRow, distinct_rows}
use relaydock.Repositories.{
  RepositoryRow, same_path, validated, set_enabled, canonical, rethrown, restore, apply_validation,
  settle_path, change_path,
}

module _ {Db₁ Db₂ : Type 0} (devices : RowTable {Row = DeviceRow} distinct_rows Db₁)
    (repositories : RowTable same_path Db₂) (looks_absolute : String → Bool) where
  open repositories use {find}

  -- The row of the repository changed by `f`, and the others as they were.
  abbrev pub IsWritten : Db₂ → Db₂ → (id : ℕ) → (RepositoryRow → RepositoryRow) → Type 0
  IsWritten rs rs' id f =
      (j : ℕ) → find rs' j ≡ map_option (λ r. if j == id then f r else r) (find rs j)

  -- Success and failure of a path change, for the rows that stood there when the agent's answer
  -- came. The path of a success is the canonical one of an answer that is valid.
  pub data IsChange (rs : Db₂) (id : ℕ) (row : RepositoryRow) (enabled : Option Bool)
      (answer : Result RepositoryValidationResult) (out : Db₂ × Result (Unit {0})) : Type 0 where
    changes :
        (v : RepositoryValidationResult) (path : String)
        → answer ≡ ok v
        → v.valid ≡ true
        → v.canonical_path ≡ some path
        → out.1 ≡ ok tt
        → IsWritten rs out.0 id (validated v path (or_else enabled row.enabled))
        → IsChange rs id row enabled answer out
    restores :
        (e : AppError)
        → out.1 ≡ err e
        → IsWritten rs out.0 id (set_enabled row.enabled)
        → IsChange rs id row enabled answer out
    -- The repository was deleted meanwhile, or its own path is taken.
    fails :
        (e : AppError)
        → out ≡ (rs, err e)
        → update_row repositories rs id (set_enabled row.enabled) ≡ err e
        → IsChange rs id row enabled answer out

  canonical_ok :
      (v : RepositoryValidationResult) (path : String)
      → canonical v ≡ ok path
      → (v.valid ≡ true) × (v.canonical_path ≡ some path)
  canonical_ok v path e = go v.canonical_path v.valid e
    where
      go :
          (o : Option String) (b : Bool)
          → (elim o [
            | none ↦ err repository_invalid
            | some p ↦ if b then ok p else err repository_invalid
          ])
            ≡ ok path
          → (b ≡ true) × (o ≡ some path)
      go none b e = absurd cc
      go (some p) true e = (refl, ground arith)
      go (some p) false e = absurd cc

  applied :
      (rs rs' : Db₂) (id : ℕ) (enabled : Bool) (answer : Result RepositoryValidationResult)
      → apply_validation devices repositories looks_absolute rs id enabled answer ≡ ok rs'
      → (v : RepositoryValidationResult) × (path : String) × (answer ≡ ok v)
        × (canonical v ≡ ok path)
        × (update_row repositories rs id (validated v path enabled) ≡ ok rs')
  unfolding apply_validation
  applied rs rs' id enabled (err e) h = absurd cc
  applied rs rs' id enabled (ok v) h = elim (Result-cases (canonical v)) [
    | inl (path, e) ↦ (v, path, refl, e, rw e at h)
    | inr (x, e) ↦ absurd (cc (rw e at h))
  ]

  module _ (rs : Db₂) (id : ℕ) (row : RepositoryRow) (enabled : Option Bool)
      (answer : Result RepositoryValidationResult) where
    restore-IsChange :
        (e : AppError)
        → IsChange rs id row enabled answer
            (restore devices repositories looks_absolute rs id row.enabled e)
    unfolding restore
    restore-IsChange e =
        elim (Result-cases (update_row repositories rs id (set_enabled row.enabled))) [
          | inl (rs', f) ↦
              rw (f, restore)
                (restores (rethrown e) refl
                  (λ j. find-update_row repositories rs rs' id (set_enabled row.enabled) j f))
          | inr (e', f) ↦ rw (f, restore) (fails e' refl f)
        ]

    settle-IsChange :
        IsChange rs id row enabled answer
          (settle_path devices repositories looks_absolute rs id row enabled answer)
    unfolding settle_path
    settle-IsChange =
        elim (Result-cases (
          apply_validation devices repositories looks_absolute rs id (or_else enabled row.enabled)
            answer)) [
              | inl (rs', f) ↦
                  let (v, path, given, sound, stored) =
                    applied rs rs' id (or_else enabled row.enabled) answer f in
                  let (valid, canon) = canonical_ok v path sound in
                  rw (f, settle_path)
                    (changes v path given valid canon refl (λ j.
                      find-update_row repositories rs rs' id
                        (validated v path (or_else enabled row.enabled)) j stored))
              | inr (e, f) ↦ rw (f, settle_path) (restore-IsChange e)
            ]

  -- A change of a path disables the repository, waits for the agent, and then comes out in one of
  -- three ways. It succeeds with the canonical path of a valid answer, and with the switch that
  -- the request asks for or, if it asks for none, the one that was read before the wait. Or it
  -- fails and sets only the switch, to what was read before the wait: a request that disabled
  -- the repository meanwhile is undone either way. Or the row cannot be written any more, and
  -- nothing is.
  pub change_path-IsChange :
      (rs disabled : Db₂) (id : ℕ) (row : RepositoryRow) (enabled : Option Bool)
      (meanwhile : Db₂ → Db₂) (answer : Result RepositoryValidationResult)
      → update_row repositories rs id (set_enabled false) ≡ ok disabled
      → IsChange
          (meanwhile disabled)
          id
          row
          enabled
          answer
          (change_path devices repositories looks_absolute rs id row enabled meanwhile answer)
  unfolding change_path
  change_path-IsChange rs disabled id row enabled meanwhile answer e =
      rw (e, change_path) (settle-IsChange (meanwhile disabled) id row enabled answer)
