-- ===== src/Devices/Pairing/Once.antt =====
-- A pairing code brings in one device at most.
use relaydock.Prelude.{
  ℕ, ◌+◌, ◌≤◌, ◌≡◌, ◌≢◌, refl, Bool, true, false, not, ◌&&◌, Option, none, some, List, [], ◌∷◌, All,
  map_option, ◌⊎◌, ◌==◌, ==_iff, ltb, is_some, if◌then◌else◌, if_elim, Bool-cases, Option-cases,
  inl, inr, arith,
}
use relaydock.Errors.{Result, ok, err, pairing_code_invalid}
use relaydock.Tables.{RowTable, meets, drop_if}
use relaydock.Pairing.{
  Text, PairingCode, same_code, claim, is_claimable, issue, new_code, clean_codes,
}
use relaydock.Devices.{DeviceInput, DeviceRow, distinct_rows, same_credential}
use relaydock.Devices.Pairing.{Stores, pair_claimed, add_device, new_device, new_credential}

-- What requests and maintenance do to the codes. A pairing has read the code's row at some time
-- before.
pub data PairingCall : Type 0 where
  issues : (id now ttl_minutes user : ℕ) → (bytes : List ℕ) → PairingCall
  pairs : (now code user device credential : ℕ) → (token : Text) → DeviceInput → PairingCall
  cleans : (now : ℕ) → PairingCall

-- Another code is issued than the one with the key.
abbrev pub IsElsewhere : ℕ → PairingCall → Type 0
IsElsewhere code (issues id now ttl user bytes) = id ≢ code
IsElsewhere code (pairs now c user device credential token input) = Unit
IsElsewhere code (cleans now) = Unit

-- A code that was not used.
abbrev pub is_unused : Option PairingCode → Bool
is_unused none = false
is_unused (some r) = not (is_some r.used_at)

abbrev pub is_ok : Result ℕ → Bool
is_ok (ok device) = true
is_ok (err e) = false

abbrev pub counts : Bool → ℕ
counts true = 1
counts false = 0

abbrev stored : {A : Type 0} → A → Option A → A
stored old none = old
stored old (some new) = new

unused-drop :
    (p : PairingCode → Bool) (o : Option PairingCode)
    → counts (is_unused (drop_if p o)) ≤ counts (is_unused o)
unused-drop p none = omega arith
unused-drop p (some r) = ground arith

unused-use :
    (p : PairingCode → Bool) (now : ℕ) (o : Option PairingCode)
    → counts (is_unused (map_option (λ r. if p r then record r { used_at = some now } else r) o))
      ≤ counts (is_unused o)
unused-use p now none = omega arith
unused-use p now (some r) = ground arith

-- A row that is claimed was unused, and is used afterwards.
used_up :
    (p : PairingCode → Bool) (now : ℕ) (o : Option PairingCode)
    → ((r : PairingCode) → p r ≡ true → is_some r.used_at ≡ false)
    → meets o p ≡ true
    → 1
        + counts
            (is_unused (map_option (λ r. if p r then record r { used_at = some now } else r) o))
      ≤ counts (is_unused o)
used_up p now none fresh e = absurd (cc)
used_up p now (some r) fresh e = rw (e, fresh r e) (omega arith)

module _ {Db₀ Db₁ Db₂ : Type 0} (pairing : RowTable same_code Db₀)
    (devices : RowTable {Row = DeviceRow} distinct_rows Db₁)
    (credentials : RowTable same_credential Db₂) (upper : Text → Text)
    (hash hash_code : Text → ℕ) where
  unfoldable pub perform : PairingCall → Stores Db₀ Db₁ Db₂ → Stores Db₀ Db₁ Db₂ × Bool
  perform (issues id now ttl user bytes) s = (
    record s {
      codes = stored s.codes (issue pairing upper hash_code s.codes id now ttl user bytes);
    },
    false,
  )
  perform (pairs now code user device credential token input) s =
      let (s', answer) =
        pair_claimed pairing devices credentials hash s now code user device credential token
          input in
      (s', is_ok answer)
  perform (cleans now) s = (record s { codes = clean_codes pairing s.codes now }, false)

  -- Whether a call is a pairing with the code.
  abbrev concerns : ℕ → PairingCall → Bool
  concerns code (issues id now ttl user bytes) = false
  concerns code (pairs now c user device credential token input) = c == code
  concerns code (cleans now) = false

  -- How many pairings with a code succeed in a history.
  unfoldable pub pairings : (code : ℕ) → List PairingCall → Stores Db₀ Db₁ Db₂ → ℕ
  unfolding perform
  pairings code [] s = 0
  pairings code (c ∷ calls) s =
      counts (concerns code c && (perform c s).1) + pairings code calls (perform c s).0

  -- Either nothing is stored, or the code was claimed.
  abbrev IsPaired : Stores Db₀ Db₁ Db₂ → (now code : ℕ) → Stores Db₀ Db₁ Db₂ × Result ℕ → Type 0
  IsPaired s now code out =
      ((out.0.codes ≡ s.codes) × (is_ok out.1 ≡ false))
      ⊎ ((out.0.codes ≡ (claim pairing s.codes now code).0)
          × ((claim pairing s.codes now code).1 ≡ true))

  added-IsPaired :
      (s : Stores Db₀ Db₁ Db₂) (now code user device credential : ℕ) (token : Text)
      (input : DeviceInput)
      → (claim pairing s.codes now code).1 ≡ true
      → IsPaired s now code (
          add_device pairing devices credentials hash s
            (claim pairing s.codes now code).0
            user
            device
            credential
            token
            input)
  unfolding add_device
  added-IsPaired s now code user device credential token input one =
      elim (Option-cases (
        devices.create s.devices device (new_device pairing devices credentials hash user input))) [
          | inl e ↦ rw (e, add_device) (inl (refl, refl))
          | inr (d, e) ↦
              rw (e, add_device)
                (elim (Option-cases (
                  credentials.create s.credentials credential
                    (new_credential pairing devices credentials hash device token))) [
                      | inl f ↦ rw f (inl (refl, refl))
                      | inr (k, f) ↦ rw f (inr (refl, one))
                    ])
        ]

  pair-IsPaired :
      (s : Stores Db₀ Db₁ Db₂) (now code user device credential : ℕ) (token : Text)
      (input : DeviceInput)
      → IsPaired s now code (
          pair_claimed pairing devices credentials hash s now code user device credential token
            input)
  unfolding pair_claimed
  pair-IsPaired s now code user device credential token input =
      if_elim (IsPaired s now code) (not (claim pairing s.codes now code).1)
        (s, err pairing_code_invalid)
        (add_device pairing devices credentials hash s (claim pairing s.codes now code).0 user
          device credential token input)
        (λ none_claimed. inl (refl, refl))
        (λ one. added-IsPaired s now code user device credential token input (ground arith))

  claim-le :
      (db : Db₀) (now c code : ℕ)
      → counts (is_unused (pairing.find (claim pairing db now c).0 code))
        ≤ counts (is_unused (pairing.find db code))
  unfolding claim
  claim-le db now c code =
      rw (pairing.find-update_many db (is_claimable pairing now c) _ code)
        (unused-use (is_claimable pairing now c code) now (pairing.find db code))

  claimed :
      (db : Db₀) (now code : ℕ)
      → (claim pairing db now code).1 ≡ true
      → 1 + counts (is_unused (pairing.find (claim pairing db now code).0 code))
        ≤ counts (is_unused (pairing.find db code))
  unfolding claim
  claimed db now code one =
      rw (pairing.find-update_many db (is_claimable pairing now code) _ code) (
        used_up (is_claimable pairing now code code) now (pairing.find db code)
          (λ r e. ground arith)
          (here (pairing.find db code)
            (pairing.count-key db code (λ k r. not (is_some r.used_at) && ltb now r.expires_at))))
    where
      here :
          (o : Option PairingCode)
          → pairing.count db (is_claimable pairing now code)
            ≡ (if meets o (λ r. not (is_some r.used_at) && ltb now r.expires_at) then 1 else 0)
          → meets o (is_claimable pairing now code code) ≡ true
      here none e = absurd (ground arith)
      here (some r) e = ground arith

  pairs_step :
      (code c now : ℕ) (s : Stores Db₀ Db₁ Db₂) (out : Stores Db₀ Db₁ Db₂ × Result ℕ)
      → IsPaired s now c out
      → counts ((c == code) && is_ok out.1) + counts (is_unused (pairing.find out.0.codes code))
        ≤ counts (is_unused (pairing.find s.codes code))
  pairs_step code c now s out (inl (same, failed)) =
      rw (same, failed)
        (elim (Bool-cases (c == code)) [ inl e ↦ rw e (omega arith) | inr e ↦ rw e (omega arith) ])
  pairs_step code c now s out (inr (used, one)) = rw used (elim (Bool-cases (c == code)) [
    | inl e ↦
        let here : c ≡ code = (==_iff c code).0 e in
        rw e (
          let done = rw here at (claimed s.codes now c one) in
          elim (Bool-cases (is_ok out.1)) [
            | inl f ↦ rw f (rw here done)
            | inr f ↦ rw f (rw here (omega (arith, done)))
          ])
    | inr e ↦ rw e (omega (arith, claim-le s.codes now c code))
  ])

  step :
      (code : ℕ) (c : PairingCall) (s : Stores Db₀ Db₁ Db₂)
      → IsElsewhere code c
      → counts (concerns code c && (perform c s).1)
          + counts (is_unused (pairing.find (perform c s).0.codes code))
        ≤ counts (is_unused (pairing.find s.codes code))
  unfolding perform issue clean_codes
  step code (issues id now ttl user bytes) s other =
      elim (Option-cases
        (pairing.create s.codes id (new_code pairing upper hash_code now ttl user bytes))) [
          | inl e ↦ rw e (omega arith)
          | inr (db, e) ↦
              let away : (id == code) ≡ false = ground arith in
              rw e (rw (pairing.find-create s.codes db id _ code e) (rw away (omega arith)))
        ]
  step code (pairs now c user device credential token input) s other =
      pairs_step code c now s
        (pair_claimed pairing devices credentials hash s now c user device credential token input)
        (pair-IsPaired s now c user device credential token input)
  step code (cleans now) s other =
      rw (pairing.find-delete_many s.codes _ code)
        (omega (arith, unused-drop _ (pairing.find s.codes code)))

  -- In any history of pairings, of codes issued under other keys and of clean-ups, in any order
  -- and at any times, a code brings in at most one device, and none if it is used or not there:
  -- also when several requests have read the code's row before the first of them claims it.
  pub paired_once :
      (code : ℕ) (calls : List PairingCall) (s : Stores Db₀ Db₁ Db₂)
      → All (IsElsewhere code) calls
      → pairings code calls s ≤ counts (is_unused (pairing.find s.codes code))
  unfolding pairings
  paired_once code [] s h = omega arith
  paired_once code (c ∷ calls) s h =
      omega (arith, step code c s h.0, paired_once code calls (perform c s).0 h.1)
