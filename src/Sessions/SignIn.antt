-- ===== src/Sessions/SignIn.antt =====
-- What a browser that has signed in can do with its cookies.
use relaydock.Prelude.{
  ℕ, ◌+◌, ◌*◌, ◌≤◌, ◌<◌, ◌≡◌, refl, ◌∙◌, String, str_eq_refl, Bool, false, some, ◌==◌, ==_refl, ltb,
  leb, is_some, Option-cases, inl, inr, arith,
}
use relaydock.Errors.{ok}
use relaydock.Tables.{RowTable}
use relaydock.Tables.Created.{first_created}
use relaydock.Sessions.{
  SessionRow, same_token, AuthContext, Cookies, single, utf16_length, constant_time_equal,
  new_session, context, create, use_session, authenticate_token, authenticate, check_csrf,
  require_csrf,
}

module _ {Db : Type 0} (table : RowTable same_token Db) (hash : String → ℕ) where
  open table use {find, find_first, find_first-some, find_first-none}

  created :
      (db db' : Db) (id now ttl_hours user : ℕ) (session_token csrf_token : String)
      (cookies : Cookies)
      → create table hash db id now ttl_hours user session_token csrf_token ≡ some (db', cookies)
      → (table.create db id (new_session table hash now ttl_hours user session_token csrf_token)
          ≡ some db')
        × (cookies ≡ record { session = some session_token; csrf = some csrf_token })
  unfolding create
  created db db' id now ttl user token csrf cookies made =
      elim (Option-cases (table.create db id (new_session table hash now ttl user token csrf))) [
        | inl e ↦ absurd (cc (rw e at made))
        | inr (d, e) ↦ let is = rw e at made in (e ∙ ground arith, ground arith)
      ]

  accepted :
      (db : Db) (id at : ℕ) (row : SessionRow) (token : String) (written : Bool)
      → find_first db (λ k r. r.token_hash == hash token) (λ r. 0) ≡ some (id, row)
      → utf16_length token ≤ 256
      → is_some row.revoked_at ≡ false
      → at < row.expires_at
      → (authenticate table hash db at (some token) written).1 ≡ ok (context id row)
  unfolding authenticate authenticate_token use_session
  accepted db id at row token written first short live early =
      let within : ltb 256 (utf16_length token) ≡ false = ground arith in
      let unexpired : leb row.expires_at at ≡ false = ground arith in
      rw within (rw (first, authenticate_token) (rw (live, unexpired) refl))

  echoed :
      (auth : AuthContext) (csrf : String)
      → auth.csrf_token_hash ≡ hash csrf
      → require_csrf table hash (some auth) (single csrf) (some csrf) ≡ ok tt
  unfolding require_csrf check_csrf constant_time_equal
  echoed auth csrf e = rw (str_eq_refl csrf, e, ==_refl (hash csrf)) refl

  -- The cookies that a sign-in sets serve until the session expires: with the session's cookie a
  -- request is accepted as the user's and in the session, and with the CSRF cookie, sent back as
  -- the header too, it passes the check of the token.
  pub signed_in :
      (db db' : Db) (id now ttl_hours user at : ℕ) (session_token csrf_token : String)
      (cookies : Cookies) (written : Bool)
      → create table hash db id now ttl_hours user session_token csrf_token ≡ some (db', cookies)
      → utf16_length session_token ≤ 256
      → at < now + ttl_hours * 60 * 60 * 1000
      → ((authenticate table hash db' at cookies.session written).1
          ≡ ok (context id (new_session table hash now ttl_hours user session_token csrf_token)))
        × (require_csrf table hash
              (some
                (context id (new_session table hash now ttl_hours user session_token csrf_token)))
              (single csrf_token)
              cookies.csrf
            ≡ ok tt)
  signed_in db db' id now ttl user at token csrf cookies written made short early =
      let row : SessionRow = new_session table hash now ttl user token csrf in
      let (there, given) = created db db' id now ttl user token csrf cookies made in
      rw given (
        accepted db' id at row token written
            (first_created table db db' id row (λ k r. r.token_hash == row.token_hash) (λ r. 0)
              there (==_refl (hash token)) (λ k s alone. alone))
            short refl early,
        echoed (context id row) csrf refl,
      )
