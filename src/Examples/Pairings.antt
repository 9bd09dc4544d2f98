-- ===== src/Examples/Pairings.antt =====
-- A device that is paired by a code, and revoked later.
use relaydock.Prelude.{
  ℕ, ◌≤◌, ◌≡◌, refl, true, false, none, some, List, [], ◌∷◌, ◌++◌, map, sum, ◌==◌, arith,
}
use relaydock.Lifecycle.{running}
use relaydock.Errors.{ok}
use relaydock.Jobs.{JobRow}
use relaydock.Tables.{RowTable, meets}
use relaydock.Tables.Slots.{Slots, slot, place, create_slot, clashes, slots_from}
use relaydock.Tables.Listed.{listed_rows}
use relaydock.Pairing.{Text, PairingCode, same_code, codes, create_pairing_code, new_code, issue}
use relaydock.Pairing.Normal.{ascii_upper, Typed-create}
use relaydock.Devices.{
  DeviceInput, DeviceRow, CredentialRow, distinct_rows, same_credential, authenticate_agent,
}
use relaydock.Devices.Pairing.{Stores, pair, new_device, new_credential}
use relaydock.Devices.Pairing.Once.{issues, pairs, cleans, pairings, is_unused, counts, paired_once}
use relaydock.Devices.Pairing.RoundTrip.{credential_of, paired_agent_served}
use relaydock.Devices.Revocation.{Fleet, revoke_device}
use relaydock.Devices.Revocation.Silence.{IsSilenced, revoke-IsSilenced}

abbrev pairing : RowTable same_code (Slots PairingCode)
pairing = listed_rows same_code

abbrev devices : RowTable {Row = DeviceRow} distinct_rows (Slots DeviceRow)
devices = listed_rows distinct_rows

abbrev credentials : RowTable same_credential (Slots CredentialRow)
credentials = listed_rows same_credential

abbrev upper : Text → Text
upper = map ascii_upper

-- A toy digest.
abbrev digest : Text → ℕ
digest = sum

abbrev bytes : List ℕ
bytes = 0 ∷ 33 ∷ 66 ∷ 99 ∷ 132 ∷ 165 ∷ 198 ∷ 231 ∷ []

abbrev encoded : Text
encoded = codes "0123456789012345678901234567890123456789abc"

abbrev laptop : DeviceInput
laptop = record {
  name = "laptop";
  platform = "darwin";
  architecture = "arm64";
  agent_version = "1.0.0";
}

abbrev before : Stores (Slots PairingCode) (Slots DeviceRow) (Slots CredentialRow)
before = record { codes = []; devices = []; credentials = [] }

abbrev issued : Slots PairingCode
issued = some (new_code pairing upper digest 100 10 5 bytes) ∷ []

shown : create_pairing_code bytes ≡ codes "ABCD-EFGH"
unfolding create_pairing_code
shown = refl

issued_is : issue pairing upper digest [] 0 100 10 5 bytes ≡ some issued
unfolding issue listed_rows create_slot slot place clashes
issued_is = refl

free : {A : Type 0} (j : ℕ) → slot {Row = A} [] j ≡ none
unfolding slot
free j = refl

free_device : devices.find [] 3 ≡ none
unfolding listed_rows
free_device = free 3

free_credential : credentials.find [] 4 ≡ none
unfolding listed_rows
free_credential = free 4

no_digest :
    (j : ℕ) (r : CredentialRow)
    → credentials.find [] j ≡ some r
    → (r.credential_hash == digest (credential_of encoded)) ≡ false
unfolding listed_rows slot
no_digest j r e = absurd (cc)

paired_agent_served_example :
    let out =
      pair pairing devices credentials digest upper digest
        (record before { codes = issued })
        200
        (create_pairing_code bytes)
        3
        4
        (credential_of encoded)
        laptop in
    (out.1 ≡ ok 3)
    × ((authenticate_agent devices credentials digest out.0.devices out.0.credentials 300
          (some (codes "Bearer " ++ credential_of encoded))).1
        ≡ ok (record { credential_id = 4; device_id = 3; user_id = 5 }))
unfolding create_pairing_code
paired_agent_served_example =
    paired_agent_served pairing devices credentials upper digest digest before issued 0 100 10 5 200
      3 4 300 bytes (create_pairing_code bytes) encoded laptop (λ s h. refl) refl
      (Typed-create bytes) (omega arith) refl refl issued_is (omega arith) free_device
      free_credential no_digest

paired_once_example :
    pairings pairing devices credentials upper digest digest 0
      (pairs 200 0 5 3 4 (codes "one") laptop
        ∷ pairs 201 0 5 5 6 (codes "other") laptop
        ∷ issues 1 300 10 5 bytes
        ∷ cleans 400
        ∷ [])
      (record before { codes = issued })
    ≤ counts (is_unused (pairing.find issued 0))
paired_once_example =
    paired_once pairing devices credentials upper digest digest 0
      (pairs 200 0 5 3 4 (codes "one") laptop
        ∷ pairs 201 0 5 5 6 (codes "other") laptop
        ∷ issues 1 300 10 5 bytes
        ∷ cleans 400
        ∷ [])
      (record before { codes = issued }) (tt, (tt, (omega arith, (tt, tt))))

abbrev jobs : RowTable {Row = JobRow} distinct_rows (Slots JobRow)
jobs = listed_rows distinct_rows

abbrev running_job : JobRow
running_job = record {
  id = 0;
  user_id = 5;
  device_id = 0;
  repository_id = 5;
  status = running;
  interactive = false;
  exit_code = none;
  status_detail = none;
  retained_output_bytes = 0;
  output_truncated = false;
  started_at = some 1;
  finished_at = none;
}

abbrev fleet : Fleet (Slots DeviceRow) (Slots CredentialRow) (Slots JobRow)
fleet = record {
  devices = some (new_device pairing devices credentials digest 5 laptop) ∷ [];
  credentials =
      some (new_credential pairing devices credentials digest 0 (credential_of encoded)) ∷ [];
  jobs = some running_job ∷ [];
}

abbrev undisturbed :
    Fleet (Slots DeviceRow) (Slots CredentialRow) (Slots JobRow)
    → Fleet (Slots DeviceRow) (Slots CredentialRow) (Slots JobRow)
undisturbed s = s

revokes : (revoke_device devices credentials jobs fleet undisturbed 500 5 0).1 ≡ ok tt
unfolding revoke_device listed_rows slot slots_from
revokes = refl

revoke-IsSilenced_example :
    (meets (devices.find fleet.devices 0) (λ r. r.user_id == 5) ≡ true)
    × IsSilenced devices credentials jobs digest 0 fleet
        (revoke_device devices credentials jobs fleet undisturbed 500 5 0).0
revoke-IsSilenced_example =
    revoke-IsSilenced devices credentials jobs digest fleet undisturbed 500 5 0 revokes
