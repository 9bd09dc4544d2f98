-- ===== src/Sessions.antt =====
-- `SessionService` of apps/server/src/services/sessions.ts. Tokens are fresh texts, given as
-- arguments; `hash` is `hashOpaqueToken` with the session secret, whose digests are numbers here.
-- Times are in milliseconds.
pub mod Revoked
pub mod Lifetime
pub mod SignIn
use Prim.Native.Char.{code}
use relaydock.Prelude.{
  ℕ, ◌+◌, ◌*◌, String, str_eq, Bool, true, false, not, ◌&&◌, ◌||◌, Option, none, some, List, [],
  ◌∷◌, ◌==◌, ltb, leb, is_some, map_option, if◌then◌else◌,
}
use relaydock.Errors.{
  Result, ok, err, ◌>>=◌, or_fail, authentication_required, session_invalid, csrf_invalid,
}
use relaydock.Tables.{RowTable}

pub record SessionRow : Type 0 where
  pub user_id : ℕ
  pub token_hash : ℕ
  pub csrf_token_hash : ℕ
  pub expires_at : ℕ
  pub last_used_at : ℕ
  pub revoked_at : Option ℕ

-- `tokenHash` is unique.
abbrev pub same_token : SessionRow → SessionRow → Bool
same_token r s = r.token_hash == s.token_hash

pub record AuthContext : Type 0 where
  pub session_id : ℕ
  pub csrf_token_hash : ℕ
  pub user_id : ℕ

-- The two cookies of a browser.
pub record Cookies : Type 0 where
  pub session : Option String
  pub csrf : Option String

pub data HeaderValue : Type 0 where
  missing : HeaderValue
  single : String → HeaderValue
  several : List String → HeaderValue

abbrev pub last_used_refresh_ms : ℕ
last_used_refresh_ms = 60000

-- The length of a text in JavaScript: code points beyond 16 bits count twice.
abbrev pub utf16_length : String → ℕ
utf16_length String.[] = 0
utf16_length (String.◌∷◌ c s) = (if ltb (code c) 65536 then 1 else 2) + utf16_length s

unfoldable pub constant_time_equal : String → String → Bool
constant_time_equal left right = str_eq left right

-- `Array.isArray(header) ? header[0] : header`
abbrev pub header_token : HeaderValue → Option String
header_token missing = none
header_token (single s) = some s
header_token (several []) = none
header_token (several (s ∷ _)) = some s

abbrev pub context : (id : ℕ) → SessionRow → AuthContext
context id session = record {
  session_id = id;
  csrf_token_hash = session.csrf_token_hash;
  user_id = session.user_id;
}

abbrev pub clear : Cookies
clear = record { session = none; csrf = none }

-- `{ not: null, lt: housekeepingCutoff }`, where the cutoff is a day ago.
abbrev pub is_day_old : Option ℕ → (now : ℕ) → Bool
is_day_old none now = false
is_day_old (some at) now = ltb (at + 86400000) now

module _ {Db : Type 0} (table : RowTable same_token Db) (hash : String → ℕ) where
  open table use {find_first, update_many, delete_many}

  abbrev pub new_session :
      (now ttl_hours user : ℕ) → (session_token csrf_token : String) → SessionRow
  new_session now ttl_hours user session_token csrf_token = record {
    user_id = user;
    token_hash = hash session_token;
    csrf_token_hash = hash csrf_token;
    expires_at = now + ttl_hours * 60 * 60 * 1000;
    last_used_at = now;
    revoked_at = none;
  }

  -- `none` when the digest is taken.
  unfoldable pub create :
      Db → (id now ttl_hours user : ℕ) → (session_token csrf_token : String) → Option (Db × Cookies)
  create db id now ttl_hours user session_token csrf_token =
      map_option (λ db'. (db', record { session = some session_token; csrf = some csrf_token }))
        (table.create db id (new_session now ttl_hours user session_token csrf_token))

  -- `written` says whether the refresh of `lastUsedAt`, which nobody waits for, succeeds.
  unfoldable pub use_session :
      Db → (now id : ℕ) → SessionRow → (written : Bool) → Db × Result AuthContext
  use_session db now id session written = (
    if ltb (session.last_used_at + last_used_refresh_ms) now && written
        then update_many db (λ k r. k == id) (λ r. record r { last_used_at = now })
        else db,
    ok (context id session),
  )

  unfoldable pub authenticate_token :
      Db → (now : ℕ) → (raw_token : String) → (written : Bool) → Db × Result AuthContext
  unfolding use_session
  authenticate_token db now raw_token written =
      elim (find_first db (λ k r. r.token_hash == hash raw_token) (λ r. 0)) [
        | none ↦ (db, err session_invalid)
        | some (id, session) ↦
            if is_some session.revoked_at || leb session.expires_at now
            then (db, err session_invalid)
            else use_session db now id session written
      ]

  unfoldable pub authenticate :
      Db → (now : ℕ) → (cookie : Option String) → (written : Bool) → Db × Result AuthContext
  unfolding authenticate_token
  authenticate db now none written = (db, err authentication_required)
  authenticate db now (some raw_token) written =
      if ltb 256 (utf16_length raw_token)
      then (db, err authentication_required)
      else authenticate_token db now raw_token written

  unfoldable pub check_csrf : AuthContext → Option String → Option String → Result (Unit {0})
  unfolding constant_time_equal
  check_csrf auth none cookie = err csrf_invalid
  check_csrf auth (some header) none = err csrf_invalid
  check_csrf auth (some header) (some cookie) =
      if not (constant_time_equal header cookie) || not (hash header == auth.csrf_token_hash)
      then err csrf_invalid
      else ok tt

  unfoldable pub require_csrf :
      Option AuthContext → HeaderValue → (cookie : Option String) → Result (Unit {0})
  unfolding check_csrf
  require_csrf none header cookie = err authentication_required
  require_csrf (some auth) header cookie = check_csrf auth (header_token header) cookie

  unfoldable pub revoke_current : Db → (now : ℕ) → Option AuthContext → Db × Cookies
  revoke_current db now none = (db, clear)
  revoke_current db now (some auth) = (
    update_many db (λ k r. k == auth.session_id && not (is_some r.revoked_at))
        (λ r. record r { revoked_at = some now }),
    clear,
  )

  unfoldable pub csrf_from_request : Cookies → Result String
  csrf_from_request cookies = or_fail cookies.csrf session_invalid

  -- The part of `MaintenanceService.cleanup` that is about sessions.
  unfoldable pub clean_sessions : Db → (now : ℕ) → Db
  clean_sessions db now = delete_many db λ k r. ltb r.expires_at now || is_day_old r.revoked_at now
