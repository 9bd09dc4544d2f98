-- ===== src/Devices.antt =====
-- Devices and their credentials: pairing, renaming, revocation and deletion in
-- apps/server/src/routes/devices.ts, past the checks of the session and of the body, and
-- `authenticateAgent` of apps/server/src/routes/websockets.ts. Texts of a device that are only
-- shown stand as they are; a header is the list of its code units.
pub mod Pairing
pub mod Revocation
pub mod Deletion
use relaydock.Prelude.{
  ℕ, zero, suc, ◌+◌, String, Bool, true, false, not, ◌&&◌, ◌||◌, Option, none, some, List, [], ◌∷◌,
  length, all, ◌==◌, leb, is_some, if◌then◌else◌,
}
use relaydock.Protocol.{DeviceStatus, online, offline, revoked}
use relaydock.Errors.{
  Result, ok, err, agent_credential_required, agent_credential_invalid, pairing_code_invalid,
  unique_conflict,
}
use relaydock.Tables.{RowTable}
use relaydock.Pairing.{Text, codes, PairingCode, same_code, look_up, claim}

-- The columns that a pairing gives.
pub record DeviceInput : Type 0 where
  pub name : String
  pub platform : String
  pub architecture : String
  pub agent_version : String

pub record DeviceRow : Type 0 where
  pub user_id : ℕ
  pub input : DeviceInput
  pub status : DeviceStatus
  pub last_seen_at : Option ℕ

pub record CredentialRow : Type 0 where
  pub device_id : ℕ
  pub credential_hash : ℕ
  pub revoked_at : Option ℕ
  pub last_used_at : Option ℕ

-- No column of a device is unique; `credentialHash` is.
abbrev pub distinct_rows : {A : Type 0} → A → A → Bool
distinct_rows r s = false

abbrev pub same_credential : CredentialRow → CredentialRow → Bool
same_credential r s = r.credential_hash == s.credential_hash

pub record AgentAuth : Type 0 where
  pub credential_id : ℕ
  pub device_id : ℕ
  pub user_id : ℕ

abbrev pub is_revoked : DeviceStatus → Bool
is_revoked revoked = true
is_revoked s = false

-- `[A-Za-z0-9_-]`
abbrev pub is_token_char : ℕ → Bool
is_token_char c =
    (leb b'A' c && leb c b'Z')
    || ((leb b'a' c && leb c b'z') || ((leb b'0' c && leb c b'9') || (c == b'_' || c == b'-')))

-- What follows a prefix.
abbrev pub after_prefix : Text → Text → Option Text
after_prefix [] s = some s
after_prefix (c ∷ p) [] = none
after_prefix (c ∷ p) (d ∷ s) = if c == d then after_prefix p s else none

abbrev pub is_token : Text → Bool
is_token s = leb 20 (length s) && (leb (length s) 256 && all is_token_char s)

abbrev pub checked_token : Option Text → Option Text
checked_token none = none
checked_token (some s) = if is_token s then some s else none

-- The match of `/^Bearer ([A-Za-z0-9_-]{20,256})$/`.
unfoldable pub bearer_token : (authorization : Option Text) → Option Text
bearer_token none = none
bearer_token (some header) = checked_token (after_prefix (codes "Bearer ") header)

abbrev pub served_agent : (id : ℕ) → CredentialRow → DeviceRow → AgentAuth
served_agent id credential device = record {
  credential_id = id;
  device_id = credential.device_id;
  user_id = device.user_id;
}

-- `findFirst({ where: { id, userId } })`
unfoldable pub find_owned :
    {Db : Type 0}
    → RowTable {Row = DeviceRow} distinct_rows Db
    → Db
    → (user id : ℕ) → Option DeviceRow
find_owned devices db user id = elim (devices.find db id) [
  | none ↦ none
  | some row ↦ if row.user_id == user then some row else none
]

-- `hash` is `hashOpaqueToken` with the credentials' secret.
module _ {Db₁ Db₂ : Type 0} (devices : RowTable {Row = DeviceRow} distinct_rows Db₁)
    (credentials : RowTable same_credential Db₂) (hash : Text → ℕ) where
  -- The credential's row, with that of its device. The reference is kept by the database, so a
  -- device that is not there is not met.
  unfoldable pub serve_credential :
      Db₁ → Db₂ → (now id : ℕ) → CredentialRow → Db₂ × Result AgentAuth
  serve_credential db₁ db₂ now id credential = elim (devices.find db₁ credential.device_id) [
    | none ↦ (db₂, err agent_credential_invalid)
    | some device ↦
        if is_some credential.revoked_at || is_revoked device.status
        then (db₂, err agent_credential_invalid)
        else (
          credentials.update_many db₂ (λ k r. k == id) (λ r. record r { last_used_at = some now }),
          ok (served_agent id credential device),
        )
  ]

  unfoldable pub authenticate_agent :
      Db₁ → Db₂ → (now : ℕ) → (authorization : Option Text) → Db₂ × Result AgentAuth
  unfolding bearer_token serve_credential
  authenticate_agent db₁ db₂ now authorization = elim (bearer_token authorization) [
    | none ↦ (db₂, err agent_credential_required)
    | some token ↦
        elim (credentials.find_first db₂ (λ k r. r.credential_hash == hash token) (λ r. 0)) [
          | none ↦ (db₂, err agent_credential_invalid)
          | some (id, credential) ↦ serve_credential db₁ db₂ now id credential
        ]
  ]
