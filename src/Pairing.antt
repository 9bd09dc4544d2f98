-- ===== src/Pairing.antt =====
-- Pairing codes: `createPairingCode` of apps/server/src/lib/crypto.ts, `normalizePairingCode` and
-- `isPairingCodeUsable` of apps/server/src/lib/domain.ts, and their use in
-- apps/server/src/routes/devices.ts. A text is the list of its UTF-16 code units. `upper` is
-- `toUpperCase`, and `hash` is `hashOpaqueToken` with the session secret.
pub mod Normal
use Prim.Native.Char.{code}
use relaydock.Prelude.{
  ℕ, zero, suc, ◌+◌, ◌*◌, ◌%◌, String, Bool, ◌&&◌, ◌||◌, not, Option, none, some, List, [], ◌∷◌,
  ◌++◌, map, length, take, drop, keep_if, ◌==◌, ltb, leb, is_some, if◌then◌else◌,
}
use relaydock.Errors.{Result, ok, err, pairing_code_invalid}
use relaydock.Tables.{RowTable}
use relaydock.Sessions.{is_day_old}

abbrev pub Text : Type 0
Text = List ℕ

abbrev pub codes : String → Text
codes String.[] = []
codes (String.◌∷◌ c s) = code c ∷ codes s

abbrev pub alphabet : Text
alphabet = codes "ABCDEFGHJKLMNPQRSTUVWXYZ23456789"

-- Every index is below the length, so the default is not met.
abbrev pub char_at : Text → ℕ → ℕ
char_at [] i = 0
char_at (c ∷ s) zero = c
char_at (c ∷ s) (suc i) = char_at s i

abbrev pub hyphenate : Text → Text
hyphenate s = take 4 s ++ b'-' ∷ drop 4 s

abbrev pub characters : (bytes : List ℕ) → Text
characters bytes = map (λ byte. char_at alphabet (byte % 32)) bytes

unfoldable pub create_pairing_code : (bytes : List ℕ) → Text
create_pairing_code bytes = hyphenate (characters bytes)

-- `[A-Z0-9]`
abbrev pub is_code_char : ℕ → Bool
is_code_char c = (leb b'A' c && leb c b'Z') || (leb b'0' c && leb c b'9')

abbrev pub compact : (upper : Text → Text) → Text → Text
compact upper code = keep_if is_code_char (upper code)

unfoldable pub normalize_pairing_code : (upper : Text → Text) → Text → Text
normalize_pairing_code upper code =
    if not (length (compact upper code) == 8) then [] else hyphenate (compact upper code)

pub record PairingCode : Type 0 where
  pub user_id : ℕ
  pub code_hash : ℕ
  pub expires_at : ℕ
  pub used_at : Option ℕ

-- `codeHash` is unique.
abbrev pub same_code : PairingCode → PairingCode → Bool
same_code r s = r.code_hash == s.code_hash

unfoldable pub is_pairing_code_usable : PairingCode → (now : ℕ) → Bool
is_pairing_code_usable r now = not (is_some r.used_at) && ltb now r.expires_at

module _ {Db : Type 0} (table : RowTable same_code Db) where
  open table use {count, update_many, delete_many}

  -- `where: { id, usedAt: null, expiresAt: { gt: new Date() } }`
  abbrev pub is_claimable : (now id : ℕ) → ℕ → PairingCode → Bool
  is_claimable now id k r = k == id && (not (is_some r.used_at) && ltb now r.expires_at)

  -- With whether one row was claimed.
  unfoldable pub claim : Db → (now id : ℕ) → Db × Bool
  claim db now id = (
    update_many db (is_claimable now id) (λ r. record r { used_at = some now }),
    count db (is_claimable now id) == 1,
  )

  -- The part of `MaintenanceService.cleanup` that is about pairing codes.
  unfoldable pub clean_codes : Db → (now : ℕ) → Db
  clean_codes db now = delete_many db λ k r. ltb r.expires_at now || is_day_old r.used_at now

module _ {Db : Type 0} (table : RowTable same_code Db) (upper : Text → Text) (hash : Text → ℕ) where
  open table use {find_first, create}

  abbrev pub new_code : (now ttl_minutes user : ℕ) → (bytes : List ℕ) → PairingCode
  new_code now ttl_minutes user bytes = record {
    user_id = user;
    code_hash = hash (create_pairing_code bytes);
    expires_at = now + ttl_minutes * 60000;
    used_at = none;
  }

  -- `none` when the digest is taken; the answer carries the code.
  unfoldable pub issue : Db → (id now ttl_minutes user : ℕ) → (bytes : List ℕ) → Option Db
  issue db id now ttl_minutes user bytes = create db id (new_code now ttl_minutes user bytes)

  -- The row of a code that was typed, if it is usable.
  unfoldable pub look_up : Db → (now : ℕ) → Text → Result (ℕ × PairingCode)
  unfolding normalize_pairing_code is_pairing_code_usable
  look_up db now typed =
      let code = normalize_pairing_code upper typed in
      if length code == 0
      then err pairing_code_invalid
      else elim (find_first db (λ k r. r.code_hash == hash code) (λ r. 0)) [
        | none ↦ err pairing_code_invalid
        | some (id, row) ↦
            if is_pairing_code_usable row now then ok (id, row) else err pairing_code_invalid
      ]
