-- ===== src/Examples/Accounts.antt =====
-- A user who signs in and out, and a clean-up beside it.
use Prim.Native.String.{len}
use relaydock.Prelude.{
  ℕ, zero, suc, ◌≡◌, refl, String, Bool, true, false, Option, none, some, [], ◌∷◌, map, sum, arith,
}
use relaydock.Lifecycle.{is_terminal_job_status}
use relaydock.Errors.{ok, err, session_invalid}
use relaydock.Jobs.{JobRow}
use relaydock.Tables.{RowTable, IsUnique, meets}
use relaydock.Tables.Slots.{Slots, slot, first_slot, update_slots, place, create_slot, clashes}
use relaydock.Tables.Listed.{listed_rows}
use relaydock.Sessions.{
  SessionRow, same_token, AuthContext, Cookies, single, new_session, context, create, authenticate,
  require_csrf, revoke_current,
}
use relaydock.Sessions.Lifetime.{creates, authenticates, revokes, cleans, perform_all, logged_out}
use relaydock.Sessions.SignIn.{signed_in}
use relaydock.Pairing.{Text, PairingCode, same_code, look_up}
use relaydock.Pairing.Normal.{ascii_upper}
use relaydock.Devices.{distinct_rows}
use relaydock.Maintenance.{Rows, cleanup}
use relaydock.Maintenance.Harmless.{cleanup_harmless}

abbrev sessions : RowTable same_token (Slots SessionRow)
sessions = listed_rows same_token

-- A toy digest.
abbrev digest : String → ℕ
digest s = len s

abbrev opened : Slots SessionRow
opened = some (new_session sessions digest 100 1 5 "rds_token" "csrf") ∷ []

abbrev jar : Cookies
jar = record { session = some "rds_token"; csrf = some "csrf" }

made : create sessions digest [] 0 100 1 5 "rds_token" "csrf" ≡ some (opened, jar)
unfolding create listed_rows create_slot slot place clashes
made = refl

abbrev auth : AuthContext
auth = context 0 (new_session sessions digest 100 1 5 "rds_token" "csrf")

signed_in_example :
    ((authenticate sessions digest opened 3600099 jar.session true).1 ≡ ok auth)
    × (require_csrf sessions digest (some auth) (single "csrf") jar.csrf ≡ ok tt)
signed_in_example =
    signed_in sessions digest [] opened 0 100 1 5 3600099 "rds_token" "csrf" jar true made
      (omega arith) (omega arith)

slot_zero : {A : Type 0} (r s : A) (j : ℕ) → slot (some r ∷ []) j ≡ some s → j ≡ 0
unfolding slot
slot_zero r s zero e = refl
slot_zero r s (suc j) e = absurd (cc)

opened-IsUnique : IsUnique sessions opened
unfolding listed_rows
opened-IsUnique j k r s e f same = omega (arith, slot_zero _ r j e, slot_zero _ s k f)

served : (authenticate sessions digest opened 200 (some "rds_token") true).1 ≡ ok auth
unfolding authenticate listed_rows slot first_slot update_slots
served = refl

logged_out_example :
    (authenticate sessions digest
      (perform_all sessions digest
        (creates 1 300 1 5 "rds_longer_token" "csrf"
          ∷ authenticates 301 (some "rds_token") true
          ∷ revokes 302 (some auth)
          ∷ cleans 90000000
          ∷ [])
        (revoke_current sessions digest
          (authenticate sessions digest opened 200 (some "rds_token") true).0
          250
          (some auth)).0)
      400
      (some "rds_token")
      true).1
    ≡ err session_invalid
logged_out_example =
    logged_out sessions digest opened 200 250 400 "rds_token" true true auth
      (creates 1 300 1 5 "rds_longer_token" "csrf"
        ∷ authenticates 301 (some "rds_token") true
        ∷ revokes 302 (some auth)
        ∷ cleans 90000000
        ∷ [])
      opened-IsUnique served (omega arith, (tt, (tt, (tt, tt))))

abbrev jobs : RowTable {Row = JobRow} distinct_rows (Slots JobRow)
jobs = listed_rows distinct_rows

abbrev pairing_codes : RowTable same_code (Slots PairingCode)
pairing_codes = listed_rows same_code

abbrev rows : Rows (Slots JobRow) (Slots SessionRow) (Slots PairingCode)
rows = record {
  jobs = [];
  sessions = opened;
  codes = some (record { user_id = 5; code_hash = 12; expires_at = 50; used_at = none }) ∷ [];
}

codes-IsUnique : IsUnique pairing_codes rows.codes
unfolding listed_rows
codes-IsUnique j k r s e f same = omega (arith, slot_zero _ r j e, slot_zero _ s k f)

abbrev upper : Text → Text
upper = map ascii_upper

abbrev code_digest : Text → ℕ
code_digest = sum

cleanup_harmless_example :
    ((cookie : Option String) (written : Bool)
      → (authenticate sessions digest
          (cleanup jobs sessions pairing_codes digest rows 30 1000).sessions
          2000
          cookie
          written).1
        ≡ (authenticate sessions digest rows.sessions 2000 cookie written).1)
    × ((typed : Text)
        → look_up pairing_codes upper code_digest
            (cleanup jobs sessions pairing_codes digest rows 30 1000).codes
            2000
            typed
          ≡ look_up pairing_codes upper code_digest rows.codes 2000 typed)
    × ((j : ℕ)
        → meets (jobs.find rows.jobs j) (λ r. is_terminal_job_status r.status) ≡ false
        → jobs.find (cleanup jobs sessions pairing_codes digest rows 30 1000).jobs j
          ≡ jobs.find rows.jobs j)
cleanup_harmless_example =
    cleanup_harmless jobs sessions pairing_codes digest upper code_digest rows 30 1000 2000
      opened-IsUnique codes-IsUnique (omega arith)
