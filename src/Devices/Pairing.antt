-- ===== src/Devices/Pairing.antt =====
-- The handler of `/api/devices/pair`. The look-up and the transaction are two steps, between which
-- other requests may run. The fresh keys and the credential are arguments.
pub mod Once
pub mod RoundTrip
use relaydock.Prelude.{
  ℕ, leb, length, ◌&&◌, Bool, true, false, not, Option, none, some, List, [], ◌∷◌, ◌++◌,
  if◌then◌else◌,
}
use relaydock.Protocol.{offline}
use relaydock.Errors.{
  Result, ok, err, ◌>>=◌, pairing_code_invalid, unique_conflict, validation_error,
}
use relaydock.Tables.{RowTable}
use relaydock.Pairing.{Text, PairingCode, same_code, look_up, claim}
use relaydock.Devices.{DeviceInput, DeviceRow, CredentialRow, distinct_rows, same_credential}

-- The three tables of the transaction.
pub record Stores (Db₀ Db₁ Db₂ : Type 0) : Type 0 where
  pub codes : Db₀
  pub devices : Db₁
  pub credentials : Db₂

-- `code: z.string().min(8).max(20)`, in UTF-16 code units.
abbrev pub is_code_length : (typed : Text) → Bool
is_code_length typed = leb 8 (length typed) && leb (length typed) 20

-- `createOpaqueToken`, of the encoding of the random bytes.
unfoldable pub create_opaque_token : (prefix encoded : Text) → Text
create_opaque_token prefix encoded = prefix ++ b'_' ∷ encoded

module _ {Db₀ Db₁ Db₂ : Type 0} (pairing : RowTable same_code Db₀)
    (devices : RowTable {Row = DeviceRow} distinct_rows Db₁)
    (credentials : RowTable same_credential Db₂) (hash : Text → ℕ) where
  abbrev pub new_device : (user : ℕ) → DeviceInput → DeviceRow
  new_device user input = record {
    user_id = user;
    input = input;
    status = offline;
    last_seen_at = none;
  }

  abbrev pub new_credential : (device : ℕ) → (token : Text) → CredentialRow
  new_credential device token = record {
    device_id = device;
    credential_hash = hash token;
    revoked_at = none;
    last_used_at = none;
  }

  -- The part of the transaction that follows the claim; a failure rolls the whole back.
  unfoldable pub add_device :
      Stores Db₀ Db₁ Db₂
      → Db₀
      → (user device credential : ℕ) → (token : Text) → DeviceInput
      → Stores Db₀ Db₁ Db₂ × Result ℕ
  add_device s claimed user device credential token input =
      elim (devices.create s.devices device (new_device user input)) [
        | none ↦ (s, err unique_conflict)
        | some db₁ ↦
            elim (credentials.create s.credentials credential (new_credential device token)) [
              | none ↦ (s, err unique_conflict)
              | some db₂ ↦ (record { codes = claimed; devices = db₁; credentials = db₂ }, ok device)
            ]
      ]

  -- The transaction, for a row of a code that was read before.
  unfoldable pub pair_claimed :
      Stores Db₀ Db₁ Db₂
      → (now code user device credential : ℕ) → (token : Text) → DeviceInput
      → Stores Db₀ Db₁ Db₂ × Result ℕ
  unfolding add_device
  pair_claimed s now code user device credential token input =
      let (claimed, one) = claim pairing s.codes now code in
      if not one
      then (s, err pairing_code_invalid)
      else add_device s claimed user device credential token input

  module _ (upper : Text → Text) (hash_code : Text → ℕ) where
    -- `input` has passed the schema; the length of the code is checked here.
    unfoldable pub pair :
        Stores Db₀ Db₁ Db₂
        → (now : ℕ) → (typed : Text) → (device credential : ℕ) → (token : Text) → DeviceInput
        → Stores Db₀ Db₁ Db₂ × Result ℕ
    unfolding pair_claimed
    pair s now typed device credential token input =
        if not (is_code_length typed)
        then (s, err validation_error)
        else elim (look_up pairing upper hash_code s.codes now typed) [
          | err e ↦ (s, err e)
          | ok (code, row) ↦ pair_claimed s now code row.user_id device credential token input
        ]
