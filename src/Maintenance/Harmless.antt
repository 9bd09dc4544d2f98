-- ===== src/Maintenance/Harmless.antt =====
-- The clean-up removes only what no answer depends on any more.
use relaydock.Prelude.{
  ℕ, ◌≤◌, ◌≡◌, refl, ◌∙◌, ap, sym, String, Bool, true, false, ◌||◌, Option, none, some, ◌==◌, ltb,
  leb, length, is_some, if◌then◌else◌, Bool-cases, Option-cases, inl, inr, arith,
}
use relaydock.Lifecycle.{is_terminal_job_status}
use relaydock.Errors.{Result, ok, err, session_invalid, pairing_code_invalid}
use relaydock.Jobs.{JobRow}
use relaydock.Tables.{RowTable, drop_if, meets, IsUnique}
use relaydock.Tables.Deleted.{outcome, first-delete}
use relaydock.Sessions.{
  SessionRow, same_token, AuthContext, utf16_length, clean_sessions, authenticate_token,
  authenticate, use_session, is_day_old, context,
}
use relaydock.Pairing.{
  Text, PairingCode, same_code, clean_codes, look_up, normalize_pairing_code,
  is_pairing_code_usable,
}
use relaydock.Devices.{distinct_rows}
use relaydock.Maintenance.{Rows, cleanup, is_expendable}

-- What the clean-up removes was past its time or closed.
spent :
    (expires now later : ℕ) (closed : Option ℕ)
    → now ≤ later
    → (ltb expires now || is_day_old closed now) ≡ true
    → (is_some closed || leb expires later) ≡ true
spent expires now later none h gone = ground arith
spent expires now later (some at) h gone = refl

module _ {Db : Type 0} (sessions : RowTable same_token Db) (hash : String → ℕ) where
  -- What the row of a session, or none, answers.
  abbrev verdict : (now : ℕ) → Option (ℕ × SessionRow) → Result AuthContext
  verdict now none = err session_invalid
  verdict now (some (id, r)) =
      if is_some r.revoked_at || leb r.expires_at now
      then err session_invalid
      else ok (context id r)

  token_verdict :
      (db : Db) (now : ℕ) (raw : String) (written : Bool)
      → (authenticate_token sessions hash db now raw written).1
        ≡ verdict now (sessions.find_first db (λ k r. r.token_hash == hash raw) (λ r. 0))
  unfolding authenticate_token use_session
  token_verdict db now raw written =
      elim (Option-cases (sessions.find_first db (λ k r. r.token_hash == hash raw) (λ r. 0))) [
        | inl e ↦ rw (e, authenticate_token) refl
        | inr (x, e) ↦ rw (e, authenticate_token) (ground arith)
      ]

  clean-verdict :
      (now later : ℕ) (o : Option (ℕ × SessionRow))
      → now ≤ later
      → verdict later (outcome (λ k r. ltb r.expires_at now || is_day_old r.revoked_at now) o)
        ≡ verdict later o
  clean-verdict now later none h = refl
  clean-verdict now later (some (k, r)) h =
      elim (Bool-cases (ltb r.expires_at now || is_day_old r.revoked_at now)) [
        | inl gone ↦ rw gone (rw (spent r.expires_at now later r.revoked_at h gone) refl)
        | inr stays ↦ rw stays refl
      ]

  cleaned_sessions :
      (db : Db) (now later : ℕ) (cookie : Option String) (written : Bool)
      → IsUnique sessions db
      → now ≤ later
      → (authenticate sessions hash (clean_sessions sessions hash db now) later cookie written).1
        ≡ (authenticate sessions hash db later cookie written).1
  unfolding authenticate clean_sessions
  cleaned_sessions db now later none written unique h = refl
  cleaned_sessions db now later (some raw) written unique h =
      elim (Bool-cases (ltb 256 (utf16_length raw))) [
        | inl long ↦ rw long refl
        | inr short ↦ rw short (
            token_verdict (clean_sessions sessions hash db now) later raw written
            ∙ ap (verdict later) (
                first-delete sessions db _ (λ k r. r.token_hash == hash raw)
                  (λ j k r s a b c d. unique j k r s a b (ground arith)))
            ∙ clean-verdict now later
                (sessions.find_first db (λ k r. r.token_hash == hash raw) (λ r. 0)) h
            ∙ sym (token_verdict db later raw written))
      ]

module _ {Db : Type 0} (codes : RowTable same_code Db) (upper : Text → Text) (hash : Text → ℕ) where
  abbrev code_verdict : (now : ℕ) → Option (ℕ × PairingCode) → Result (ℕ × PairingCode)
  code_verdict now none = err pairing_code_invalid
  code_verdict now (some (id, r)) =
      if is_pairing_code_usable r now then ok (id, r) else err pairing_code_invalid

  look_up-verdict :
      (db : Db) (now : ℕ) (typed : Text)
      → look_up codes upper hash db now typed ≡ (
          if length (normalize_pairing_code upper typed) == 0
          then err pairing_code_invalid
          else code_verdict now (
              codes.find_first db
                (λ k r. r.code_hash == hash (normalize_pairing_code upper typed))
                (λ r. 0)))
  unfolding look_up
  look_up-verdict db now typed =
      elim (Option-cases (
        codes.find_first db (λ k r. r.code_hash == hash (normalize_pairing_code upper typed))
          (λ r. 0))) [ inl e ↦ rw (e, look_up) refl | inr (x, e) ↦ rw (e, look_up) refl ]

  clean-code_verdict :
      (now later : ℕ) (o : Option (ℕ × PairingCode))
      → now ≤ later
      → code_verdict later (outcome (λ k r. ltb r.expires_at now || is_day_old r.used_at now) o)
        ≡ code_verdict later o
  unfolding is_pairing_code_usable
  clean-code_verdict now later none h = refl
  clean-code_verdict now later (some (k, r)) h =
      elim (Bool-cases (ltb r.expires_at now || is_day_old r.used_at now)) [
        | inl gone ↦ rw gone (ground (arith, spent r.expires_at now later r.used_at h gone))
        | inr stays ↦ rw stays refl
      ]

  cleaned_codes :
      (db : Db) (now later : ℕ) (typed : Text)
      → IsUnique codes db
      → now ≤ later
      → look_up codes upper hash (clean_codes codes db now) later typed
        ≡ look_up codes upper hash db later typed
  unfolding clean_codes
  cleaned_codes db now later typed unique h =
      look_up-verdict (clean_codes codes db now) later typed
      ∙ ap
          (λ v.
            if length (normalize_pairing_code upper typed) == 0
            then err pairing_code_invalid
            else v)
          (ap (code_verdict later) (
              first-delete codes db _
                (λ k r. r.code_hash == hash (normalize_pairing_code upper typed))
                (λ j k r s a b c d. unique j k r s a b (ground arith)))
            ∙ clean-code_verdict now later
                (codes.find_first db
                  (λ k r. r.code_hash == hash (normalize_pairing_code upper typed)) (λ r. 0))
                h)
      ∙ sym (look_up-verdict db later typed)

kept_job :
    (days now k : ℕ) (o : Option JobRow)
    → meets o (λ r. is_terminal_job_status r.status) ≡ false
    → drop_if (is_expendable days now k) o ≡ o
unfolding is_terminal_job_status
kept_job days now k none e = refl
kept_job days now k (some r) e =
    let left : is_expendable days now k r ≡ false = ground arith in rw left refl

module _ {Db₁ Db₂ Db₃ : Type 0} (jobs : RowTable {Row = JobRow} distinct_rows Db₁)
    (sessions : RowTable same_token Db₂) (codes : RowTable same_code Db₃) (hash : String → ℕ)
    (upper : Text → Text) (hash_code : Text → ℕ) where
  -- A clean-up changes no answer that comes later: a cookie authenticates as it would have, a
  -- typed pairing code finds the row that it would have found, and a job that has not ended in
  -- completion, failure or cancellation keeps its row.
  pub cleanup_harmless :
      (s : Rows Db₁ Db₂ Db₃) (days now later : ℕ)
      → IsUnique sessions s.sessions
      → IsUnique codes s.codes
      → now ≤ later
      → ((cookie : Option String) (written : Bool)
          → (authenticate sessions hash
              (cleanup jobs sessions codes hash s days now).sessions
              later
              cookie
              written).1
            ≡ (authenticate sessions hash s.sessions later cookie written).1)
        × ((typed : Text)
            → look_up codes upper hash_code
                (cleanup jobs sessions codes hash s days now).codes
                later
                typed
              ≡ look_up codes upper hash_code s.codes later typed)
        × ((j : ℕ)
            → meets (jobs.find s.jobs j) (λ r. is_terminal_job_status r.status) ≡ false
            → jobs.find (cleanup jobs sessions codes hash s days now).jobs j ≡ jobs.find s.jobs j)
  unfolding cleanup
  cleanup_harmless s days now later unique₁ unique₂ h = (
    λ cookie written. cleaned_sessions sessions hash s.sessions now later cookie written unique₁ h,
    λ typed. cleaned_codes codes upper hash_code s.codes now later typed unique₂ h,
    λ j live.
        jobs.find-delete_many s.jobs (is_expendable days now) j
        ∙ kept_job days now j (jobs.find s.jobs j) live,
  )
