-- ===== src/Devices/Pairing/RoundTrip.antt =====
-- From a code that is issued to an agent that is served.
use relaydock.Prelude.{
  ℕ, ◌+◌, ◌*◌, ◌<◌, ◌≡◌, refl, true, false, not, ◌&&◌, none, some, List, ◌∷◌, ◌++◌, all, length,
  length-append, length-map, ◌≤◌, ◌%◌, take, drop, ◌==◌, ==_refl, ltb, is_some, arith,
}
use relaydock.Errors.{ok}
use relaydock.Tables.{RowTable}
use relaydock.Tables.Created.{find_created, first_created, can_create}
use relaydock.Pairing.{
  Text, codes, alphabet, char_at, PairingCode, same_code, create_pairing_code, characters,
  normalize_pairing_code, is_pairing_code_usable, look_up, issue, new_code, claim,
}
use relaydock.Pairing.Normal.{Typed, UppersAscii, Typed-length, normalize-Typed}
use relaydock.Devices.{
  DeviceInput, DeviceRow, CredentialRow, distinct_rows, same_credential, is_token_char,
  bearer_token, serve_credential, authenticate_agent,
}
use relaydock.Devices.Pairing.{
  Stores, create_opaque_token, pair_claimed, add_device, pair, is_code_length, new_device,
  new_credential,
}

-- `createOpaqueToken('rdc')`
abbrev pub credential_of : (encoded : Text) → Text
credential_of = create_opaque_token (codes "rdc")

-- A credential passes the pattern of the header, since base64url has token characters only.
token_passes :
    (encoded : Text)
    → length encoded ≡ 43
    → all is_token_char encoded ≡ true
    → bearer_token (some (codes "Bearer " ++ credential_of encoded)) ≡ some (credential_of encoded)
unfolding bearer_token create_opaque_token
token_passes encoded long good = rw (long, good) refl

fits :
    (bytes : List ℕ) (typed : Text)
    → length bytes ≡ 8
    → Typed (characters bytes) typed
    → length typed ≤ 20
    → is_code_length typed ≡ true
fits bytes typed eight form brief =
    let long = length-map bytes (λ byte. char_at alphabet (byte % 32)) in
    ground (arith, Typed-length form, long, eight, brief)

module _ {Db₀ Db₁ Db₂ : Type 0} (pairing : RowTable same_code Db₀)
    (devices : RowTable {Row = DeviceRow} distinct_rows Db₁)
    (credentials : RowTable same_credential Db₂) (upper : Text → Text)
    (hash hash_code : Text → ℕ) where
  not_empty : (bytes : List ℕ) → (length (create_pairing_code bytes) == 0) ≡ false
  unfolding create_pairing_code
  not_empty bytes =
      ground (arith, length-append (take 4 (characters bytes)) (b'-' ∷ drop 4 (characters bytes)))

  looked_up :
      (db db' : Db₀) (id issued ttl_minutes user now : ℕ) (bytes : List ℕ) (typed : Text)
      → issue pairing upper hash_code db id issued ttl_minutes user bytes ≡ some db'
      → normalize_pairing_code upper typed ≡ create_pairing_code bytes
      → now < issued + ttl_minutes * 60000
      → look_up pairing upper hash_code db' now typed
        ≡ ok (id, new_code pairing upper hash_code issued ttl_minutes user bytes)
  unfolding issue look_up is_pairing_code_usable
  looked_up db db' id issued ttl user now bytes typed made normal early =
      let row : PairingCode = new_code pairing upper hash_code issued ttl user bytes in
      let first =
        first_created pairing db db' id row
          (λ k r. r.code_hash == hash_code (create_pairing_code bytes)) (λ r. 0) made
          (==_refl row.code_hash) (λ k s alone. alone) in
      rw (normal, not_empty bytes)
        (rw (first, look_up) (let e : ltb now row.expires_at ≡ true = ground arith in rw e refl))

  claim-one :
      (db db' : Db₀) (id issued ttl_minutes user now : ℕ) (bytes : List ℕ)
      → issue pairing upper hash_code db id issued ttl_minutes user bytes ≡ some db'
      → now < issued + ttl_minutes * 60000
      → (claim pairing db' now id).1 ≡ true
  unfolding issue claim
  claim-one db db' id issued ttl user now bytes made early =
      let row : PairingCode = new_code pairing upper hash_code issued ttl user bytes in
      let here = find_created pairing db db' id row made in
      let e : ltb now row.expires_at ≡ true = ground arith in
      rw (pairing.count-key db' id (λ k r. not (is_some r.used_at) && ltb now r.expires_at), here)
        (rw e refl)

  served :
      (db₁ db₁' : Db₁) (db₂ db₂' : Db₂) (now user device credential : ℕ) (encoded : Text)
      (input : DeviceInput)
      → length encoded ≡ 43
      → all is_token_char encoded ≡ true
      → devices.create db₁ device (new_device pairing devices credentials hash user input)
        ≡ some db₁'
      → credentials.create db₂ credential
          (new_credential pairing devices credentials hash device (credential_of encoded))
        ≡ some db₂'
      → (authenticate_agent devices credentials hash db₁' db₂' now
          (some (codes "Bearer " ++ credential_of encoded))).1
        ≡ ok (record { credential_id = credential; device_id = device; user_id = user })
  unfolding authenticate_agent serve_credential
  served db₁ db₁' db₂ db₂' now user device credential encoded input long good made₁ made₂ =
      let token = credential_of encoded in
      let row = new_credential pairing devices credentials hash device token in
      let first =
        first_created credentials db₂ db₂' credential row (λ k r. r.credential_hash == hash token)
          (λ r. 0) made₂ (==_refl (hash token)) (λ k s alone. alone) in
      let here =
        find_created devices db₁ db₁' device
          (new_device pairing devices credentials hash user input) made₁ in
      rw (token_passes encoded long good, authenticate_agent)
        (rw (first, authenticate_agent) (rw (here, serve_credential) refl))

  added :
      (s : Stores Db₀ Db₁ Db₂) (claimed : Db₀) (db₁ : Db₁) (db₂ : Db₂) (user device credential : ℕ)
      (token : Text) (input : DeviceInput)
      → devices.create s.devices device (new_device pairing devices credentials hash user input)
        ≡ some db₁
      → credentials.create s.credentials credential
          (new_credential pairing devices credentials hash device token)
        ≡ some db₂
      → add_device pairing devices credentials hash s claimed user device credential token input
        ≡ (record { codes = claimed; devices = db₁; credentials = db₂ }, ok device)
  unfolding add_device
  added s claimed db₁ db₂ user device credential token input made₁ made₂ =
      rw (made₁, add_device) (rw made₂ refl)

  -- A code that a user is issued, typed before it expires in capitals or small letters, with any
  -- separators and in at most 20 characters, pairs a device of that user; and the credential that is handed out authenticates the agent of just that device, if
  -- the keys are free and no other credential has the digest of the new one.
  pub paired_agent_served :
      (s : Stores Db₀ Db₁ Db₂) (codes' : Db₀)
      (id issued ttl_minutes user now device credential later : ℕ) (bytes : List ℕ)
      (typed encoded : Text) (input : DeviceInput)
      → UppersAscii upper
      → length bytes ≡ 8
      → Typed (characters bytes) typed
      → length typed ≤ 20
      → length encoded ≡ 43
      → all is_token_char encoded ≡ true
      → issue pairing upper hash_code s.codes id issued ttl_minutes user bytes ≡ some codes'
      → now < issued + ttl_minutes * 60000
      → devices.find s.devices device ≡ none
      → credentials.find s.credentials credential ≡ none
      → ((j : ℕ) (r : CredentialRow)
          → credentials.find s.credentials j ≡ some r
          → (r.credential_hash == hash (credential_of encoded)) ≡ false)
      → let out =
          pair pairing devices credentials hash upper hash_code
            (record s { codes = codes' })
            now
            typed
            device
            credential
            (credential_of encoded)
            input in
        (out.1 ≡ ok device)
        × ((authenticate_agent devices credentials hash out.0.devices out.0.credentials later
              (some (codes "Bearer " ++ credential_of encoded))).1
            ≡ ok (record { credential_id = credential; device_id = device; user_id = user }))
  unfolding pair pair_claimed
  paired_agent_served s codes' id issued ttl user now device credential later bytes typed encoded
        input ascii eight form brief long good made early free₁ free₂ apart =
      let token = credential_of encoded in
      let found =
        looked_up s.codes codes' id issued ttl user now bytes typed made
          (normalize-Typed upper bytes typed ascii eight form) early in
      let one = claim-one s.codes codes' id issued ttl user now bytes made early in
      let (db₁, made₁) =
        can_create devices s.devices device (new_device pairing devices credentials hash user input)
          free₁ (λ j r e. refl) in
      let (db₂, made₂) =
        can_create credentials s.credentials credential
          (new_credential pairing devices credentials hash device token) free₂ apart in
      rw (fits bytes typed eight form brief, pair)
        (rw (found, pair)
          (rw one (
            rw
              (added (record s { codes = codes' }) (claim pairing codes' now id).0 db₁ db₂ user
                device credential token input made₁ made₂)
              (
                refl,
                served s.devices db₁ s.credentials db₂ later user device credential encoded input
                    long good made₁ made₂,
              ))))
