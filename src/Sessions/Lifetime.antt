-- ===== src/Sessions/Lifetime.antt =====
-- The life of a session: it is opened, it serves, and after a sign-out it is refused for ever.
use relaydock.Prelude.{
  ℕ, ◌≡◌, ◌≢◌, refl, ◌∙◌, ap, sym, String, Bool, true, false, not, ◌&&◌, ◌||◌, Option, none, some,
  List, [], ◌∷◌, All, map_option, ◌==◌, ==_iff, ltb, leb, is_some, if◌then◌else◌, if_elim,
  Bool-cases, Option-cases, inl, inr, arith,
}
use relaydock.Errors.{Result, ok, err, session_invalid}
use relaydock.Tables.{RowTable, IsUnique}
use relaydock.Sessions.{
  SessionRow, same_token, new_session, AuthContext, Cookies, utf16_length, create, use_session,
  authenticate_token, authenticate, revoke_current, clean_sessions,
}
use relaydock.Sessions.Revoked.{
  IsHarmless, clean-IsHarmless, authenticate-IsHarmless, revoke-IsHarmless,
}

-- The calls that requests and maintenance make.
pub data SessionCall : Type 0 where
  creates : (id now ttl_hours user : ℕ) → (session_token csrf_token : String) → SessionCall
  authenticates : (now : ℕ) → (cookie : Option String) → (written : Bool) → SessionCall
  revokes : (now : ℕ) → Option AuthContext → SessionCall
  cleans : (now : ℕ) → SessionCall

module _ {Db : Type 0} (table : RowTable same_token Db) (hash : String → ℕ) where
  open table use {find, find_first, find_first-some, find_first-none}

  abbrev stored : Db → Option (Db × Cookies) → Db
  stored db none = db
  stored db (some made) = made.0

  unfoldable pub perform : SessionCall → Db → Db
  perform (creates id now ttl user t c) db = stored db (create table hash db id now ttl user t c)
  perform (authenticates now cookie written) db = (authenticate table hash db now cookie written).0
  perform (revokes now auth) db = (revoke_current table hash db now auth).0
  perform (cleans now) db = clean_sessions table hash db now

  unfoldable pub perform_all : List SessionCall → Db → Db
  unfolding perform
  perform_all [] db = db
  perform_all (c ∷ calls) db = perform_all calls (perform c db)

  -- The digest of a new session's token is another one.
  abbrev pub IsOther : (token : String) → SessionCall → Type 0
  IsOther token (creates id now ttl user t c) = hash t ≢ hash token
  IsOther token (authenticates now cookie written) = Unit
  IsOther token (revokes now auth) = Unit
  IsOther token (cleans now) = Unit

  -- Every session with the digest is revoked.
  abbrev IsShut : ℕ → Db → Type 0
  IsShut h db =
      (k : ℕ) (r : SessionRow) → find db k ≡ some r → r.token_hash ≡ h → is_some r.revoked_at ≡ true

  Harmless-IsShut :
      (h : ℕ) (db db' : Db) → IsHarmless table hash db db' → IsShut h db → IsShut h db'
  Harmless-IsShut h db db' harmless shut k r e same =
      let (s, there, digest, keeps) = harmless k r e in keeps (shut k s there (sym digest ∙ same))

  added-IsShut :
      (h : ℕ) (db db' : Db) (id : ℕ) (row : SessionRow)
      → table.create db id row ≡ some db'
      → row.token_hash ≢ h
      → IsShut h db
      → IsShut h db'
  added-IsShut h db db' id row made other shut k r e same =
      if_elim (λ o. o ≡ some r → is_some r.revoked_at ≡ true) (id == k) (some row) (find db k)
        (λ new is. absurd (other (ground arith))) (λ old is. shut k r is same)
        (sym (table.find-create db db' id row k made) ∙ e)

  perform-IsShut :
      (token : String) (c : SessionCall) (db : Db)
      → IsOther token c
      → IsShut (hash token) db
      → IsShut (hash token) (perform c db)
  unfolding perform create
  perform-IsShut token (creates id now ttl user t c) db other shut =
      elim (Option-cases (table.create db id (new_session table hash now ttl user t c))) [
        | inl e ↦ rw e shut
        | inr (db', e) ↦ rw e (
            added-IsShut (hash token) db db' id (new_session table hash now ttl user t c) e other
              shut)
      ]
  perform-IsShut token (authenticates now cookie written) db other shut =
      Harmless-IsShut (hash token) db _ (authenticate-IsHarmless table hash db now cookie written)
        shut
  perform-IsShut token (revokes now auth) db other shut =
      Harmless-IsShut (hash token) db _ (revoke-IsHarmless table hash db now auth) shut
  perform-IsShut token (cleans now) db other shut =
      Harmless-IsShut (hash token) db _ (clean-IsHarmless table hash db now) shut

  perform_all-IsShut :
      (token : String) (calls : List SessionCall) (db : Db)
      → All (IsOther token) calls
      → IsShut (hash token) db
      → IsShut (hash token) (perform_all calls db)
  unfolding perform_all
  perform_all-IsShut token [] db other shut = shut
  perform_all-IsShut token (c ∷ calls) db other shut =
      perform_all-IsShut token calls (perform c db) other.1 (perform-IsShut token c db other.0 shut)

  -- What a session that is accepted has shown.
  record IsAccepted (db : Db) (token : String) (auth : AuthContext) : Type 0 where
    row : SessionRow
    short : ltb 256 (utf16_length token) ≡ false
    found : find db auth.session_id ≡ some row
    digest : row.token_hash ≡ hash token

  abbrev id_of : Result AuthContext → ℕ
  id_of (ok auth) = auth.session_id
  id_of (err e) = 0

  token-IsAccepted :
      (db : Db) (now : ℕ) (token : String) (written : Bool) (auth : AuthContext)
      → ltb 256 (utf16_length token) ≡ false
      → (authenticate_token table hash db now token written).1 ≡ ok auth
      → IsAccepted db token auth
  unfolding authenticate_token use_session
  token-IsAccepted db now token written auth short e =
      elim (Option-cases (find_first db (λ k r. r.token_hash == hash token) (λ r. 0))) [
        | inl f ↦ absurd (cc (rw (f, authenticate_token) at e))
        | inr (x, f) ↦
            let (there, digest) = find_first-some db _ (λ r. 0) x.0 x.1 f in
            if_elim (λ (out : Db × Result AuthContext). out.1 ≡ ok auth → IsAccepted db token auth)
              (is_some x.1.revoked_at || leb x.1.expires_at now) (db, err session_invalid)
              (use_session table hash db now x.0 x.1 written) (λ bad is. absurd (cc))
              (λ good is. record {
                row = x.1;
                short = short;
                found = ap (find db) (sym (ap id_of is)) ∙ there;
                digest = ground arith;
              })
              (rw (f, authenticate_token) at e)
      ]

  shut_refuses :
      (db : Db) (now : ℕ) (token : String) (written : Bool)
      → ltb 256 (utf16_length token) ≡ false
      → IsShut (hash token) db
      → (authenticate table hash db now (some token) written).1 ≡ err session_invalid
  unfolding authenticate authenticate_token
  shut_refuses db now token written short shut =
      rw short (elim (Option-cases (find_first db (λ k r. r.token_hash == hash token) (λ r. 0))) [
        | inl f ↦ rw (f, authenticate_token) refl
        | inr (x, f) ↦
            let (there, digest) = find_first-some db _ (λ r. 0) x.0 x.1 f in
            let gone : is_some x.1.revoked_at ≡ true = shut x.0 x.1 there (ground arith) in
            rw (f, authenticate_token) (rw gone refl)
      ])

  authenticate-IsAccepted :
      (db : Db) (now : ℕ) (token : String) (written : Bool) (auth : AuthContext)
      → (authenticate table hash db now (some token) written).1 ≡ ok auth
      → IsAccepted db token auth
  unfolding authenticate
  authenticate-IsAccepted db now token written auth e =
      elim (Bool-cases (ltb 256 (utf16_length token))) [
        | inl long ↦ absurd (cc (rw long at e))
        | inr short ↦ token-IsAccepted db now token written auth short (rw short at e)
      ]

  revoked :
      (id now k : ℕ) (o : Option SessionRow) (r : SessionRow)
      → id ≡ k
      → map_option
          (λ s.
            if (k == id) && not (is_some s.revoked_at)
            then record s { revoked_at = some now }
            else s)
          o
        ≡ some r
      → is_some r.revoked_at ≡ true
  revoked id now k none r same e = absurd cc
  revoked id now k (some s) r same e = ground arith

  revoke-IsShut :
      (db db' : Db) (now : ℕ) (token : String) (auth : AuthContext)
      → IsUnique table db
      → IsHarmless table hash db db'
      → IsAccepted db token auth
      → IsShut (hash token) (revoke_current table hash db' now (some auth)).0
  unfolding revoke_current
  revoke-IsShut db db' now token auth unique harmless accepted k r e same =
      let (s, there, digest, keeps) =
        revoke-IsHarmless table hash db' now (some auth) k r (unfold revoke_current in e) in
      let (s₀, first, digest₀, keeps₀) = harmless k s there in
      let here : auth.session_id ≡ k =
        unique auth.session_id k accepted.row s₀ accepted.found first
          ((==_iff _ _).1 (accepted.digest ∙ sym same ∙ digest ∙ digest₀)) in
      revoked auth.session_id now k (find db' k) r here (sym (table.find-update_many db' _ _ k) ∙ e)

  -- A token that has been accepted and whose session is then signed out is refused ever after:
  -- whatever sign-ins with other tokens, requests, sign-outs and clean-ups follow, in any order
  -- and at any times, and whether or not the writes of the last use succeed.
  pub logged_out :
      (db : Db) (now at later : ℕ) (token : String) (written again : Bool) (auth : AuthContext)
      (calls : List SessionCall)
      → IsUnique table db
      → (authenticate table hash db now (some token) written).1 ≡ ok auth
      → All (IsOther token) calls
      → (authenticate table hash
          (perform_all calls
            (revoke_current table hash
              (authenticate table hash db now (some token) written).0
              at
              (some auth)).0)
          later
          (some token)
          again).1
        ≡ err session_invalid
  logged_out db now at later token written again auth calls unique e other =
      let accepted = authenticate-IsAccepted db now token written auth e in
      shut_refuses _ later token again accepted.short (
        perform_all-IsShut token calls _ other (
          revoke-IsShut db _ at token auth unique
            (authenticate-IsHarmless table hash db now (some token) written) accepted))
