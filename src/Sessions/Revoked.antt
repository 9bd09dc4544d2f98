-- ===== src/Sessions/Revoked.antt =====
-- No call but a creation makes a row, and none undoes a revocation.
use relaydock.Prelude.{
  ℕ, ◌+◌, ◌≡◌, refl, ◌∙◌, sym, String, Bool, true, ◌&&◌, ◌||◌, Option, none, some, map_option, ◌==◌,
  ltb, leb, is_some, if◌then◌else◌, if_elim, Bool-cases, Option-cases, inl, inr, arith,
}
use relaydock.Errors.{Result, err, session_invalid, authentication_required}
use relaydock.Tables.{RowTable, drop_if}
use relaydock.Sessions.{
  SessionRow, same_token, AuthContext, utf16_length, use_session, authenticate_token, authenticate,
  revoke_current, clean_sessions, last_used_refresh_ms,
}

module _ {Db : Type 0} (table : RowTable same_token Db) (hash : String → ℕ) where
  open table use {find, find_first}

  -- A row after a write comes from one with the same digest, and a revoked one stays revoked.
  abbrev pub ComesFrom : SessionRow → Option SessionRow → Type 0
  ComesFrom r o =
      (s : SessionRow) × (o ≡ some s)
      × (r.token_hash ≡ s.token_hash)
      × (is_some s.revoked_at ≡ true → is_some r.revoked_at ≡ true)

  abbrev pub IsHarmless : Db → Db → Type 0
  IsHarmless db db' = (k : ℕ) (r : SessionRow) → find db' k ≡ some r → ComesFrom r (find db k)

  came_from :
      (p : SessionRow → Bool) (f : SessionRow → SessionRow)
      → ((s : SessionRow) → (f s).token_hash ≡ s.token_hash)
      → ((s : SessionRow) → is_some s.revoked_at ≡ true → is_some (f s).revoked_at ≡ true)
      → (o : Option SessionRow) (r : SessionRow)
      → map_option (λ s. if p s then f s else s) o ≡ some r
      → ComesFrom r o
  came_from p f same keeps none r e = absurd cc
  came_from p f same keeps (some s) r e = elim (Bool-cases (p s)) [
    | inl chosen ↦
        let is : f s ≡ r = ground arith in (s, refl, rw (← is) (same s), λ h. rw (← is) (keeps s h))
    | inr left ↦ let is : s ≡ r = ground arith in (s, refl, rw is refl, λ h. rw (← is) h)
  ]

  update-IsHarmless :
      (db : Db) (p : ℕ → SessionRow → Bool) (f : SessionRow → SessionRow)
      → ((s : SessionRow) → (f s).token_hash ≡ s.token_hash)
      → ((s : SessionRow) → is_some s.revoked_at ≡ true → is_some (f s).revoked_at ≡ true)
      → IsHarmless db (table.update_many db p f)
  update-IsHarmless db p f same keeps k r e =
      came_from (p k) f same keeps (find db k) r (sym (table.find-update_many db p f k) ∙ e)

  same-IsHarmless : (db : Db) → IsHarmless db db
  same-IsHarmless db k r e = (r, e, refl, λ h. h)

  drop_found :
      (p : SessionRow → Bool) (o : Option SessionRow) (r : SessionRow)
      → drop_if p o ≡ some r
      → o ≡ some r
  drop_found p none r e = cc
  drop_found p (some s) r e = ground arith

  pub clean-IsHarmless : (db : Db) (now : ℕ) → IsHarmless db (clean_sessions table hash db now)
  unfolding clean_sessions
  clean-IsHarmless db now k r e =
      (r, drop_found _ (find db k) r (sym (table.find-delete_many db _ k) ∙ e), refl, λ h. h)

  use-IsHarmless :
      (db : Db) (now id : ℕ) (session : SessionRow) (written : Bool)
      → IsHarmless db (use_session table hash db now id session written).0
  unfolding use_session
  use-IsHarmless db now id session written =
      if_elim (IsHarmless db) (ltb (session.last_used_at + last_used_refresh_ms) now && written)
        (table.update_many db (λ k r. k == id) (λ r. record r { last_used_at = now })) db
        (λ e. update-IsHarmless db _ _ (λ s. refl) (λ s h. h)) (λ e. same-IsHarmless db)

  token-IsHarmless :
      (db : Db) (now : ℕ) (raw : String) (written : Bool)
      → IsHarmless db (authenticate_token table hash db now raw written).0
  unfolding authenticate_token
  token-IsHarmless db now raw written =
      elim (Option-cases (find_first db (λ k r. r.token_hash == hash raw) (λ r. 0))) [
        | inl e ↦ rw (e, authenticate_token) (same-IsHarmless db)
        | inr (x, e) ↦
            rw (e, authenticate_token)
              (if_elim (λ (out : Db × Result AuthContext). IsHarmless db out.0)
                (is_some x.1.revoked_at || leb x.1.expires_at now) (db, err session_invalid)
                (use_session table hash db now x.0 x.1 written) (λ bad. same-IsHarmless db)
                (λ good. use-IsHarmless db now x.0 x.1 written))
      ]

  pub authenticate-IsHarmless :
      (db : Db) (now : ℕ) (cookie : Option String) (written : Bool)
      → IsHarmless db (authenticate table hash db now cookie written).0
  unfolding authenticate
  authenticate-IsHarmless db now none written = same-IsHarmless db
  authenticate-IsHarmless db now (some raw) written =
      if_elim (λ (out : Db × Result AuthContext). IsHarmless db out.0) (ltb 256 (utf16_length raw))
        (db, err authentication_required) (authenticate_token table hash db now raw written)
        (λ long. same-IsHarmless db) (λ short. token-IsHarmless db now raw written)

  pub revoke-IsHarmless :
      (db : Db) (now : ℕ) (auth : Option AuthContext)
      → IsHarmless db (revoke_current table hash db now auth).0
  unfolding revoke_current
  revoke-IsHarmless db now none = same-IsHarmless db
  revoke-IsHarmless db now (some auth) = update-IsHarmless db _ _ (λ s. refl) (λ s h. refl)
