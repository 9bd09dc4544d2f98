-- ===== src/Push/Subscriptions.antt =====
-- The registration of a browser: the handlers of apps/server/src/routes/push.ts, past the checks
-- of the session and of the body. Between two calls of the database other requests may run, so
-- the handler of `subscribe` is also there in its pieces.
pub mod Cap
pub mod Isolation
pub mod Refusal
use relaydock.Prelude.{
  ℕ, String, str_eq, Bool, true, false, not, ◌&&◌, Option, none, some, ◌==◌, leb, ltb,
  if◌then◌else◌,
}
use relaydock.Errors.{Result, ok, err, push_disabled, push_endpoint_conflict}
use relaydock.Tables.{RowTable}
use relaydock.Push.{PushSubscription, same_endpoint}

abbrev pub max_subscriptions_per_user : ℕ
max_subscriptions_per_user = 20

-- The parsed body, with the browser's name from the header.
pub record SubscribeInput : Type 0 where
  pub endpoint : String
  pub p256dh : String
  pub auth : String
  pub user_agent : Option String

abbrev pub owned_by : (user : ℕ) → ℕ → PushSubscription → Bool
owned_by user k r = r.user_id == user

-- `where: { endpoint, userId }`
abbrev pub own_row : (user : ℕ) → (endpoint : String) → ℕ → PushSubscription → Bool
own_row user endpoint k r = str_eq r.endpoint endpoint && r.user_id == user

-- `data: { p256dh, auth, userAgent }`
abbrev pub renew : SubscribeInput → PushSubscription → PushSubscription
renew input r = record r { p256dh = input.p256dh; auth = input.auth; user_agent = input.user_agent }

abbrev pub new_row : (now user : ℕ) → SubscribeInput → PushSubscription
new_row now user input = record {
  user_id = user;
  endpoint = input.endpoint;
  p256dh = input.p256dh;
  auth = input.auth;
  user_agent = input.user_agent;
  created_at = now;
  last_notified_at = none;
}

module _ {Db : Type 0} (table : RowTable same_endpoint Db) where
  open table use {find_first, count, update_many, delete_many, create}

  -- `updateMany` on the caller's own row
  abbrev pub renew_own : Db → (user : ℕ) → SubscribeInput → Db
  renew_own db user input = update_many db (own_row user input.endpoint) (renew input)

  -- `deleteMany({ where: { id: oldest.id, userId } })`
  abbrev pub evict : Db → (user oldest : ℕ) → Db
  evict db user oldest = delete_many db λ k s. k == oldest && s.user_id == user

  -- With whether a row was refreshed.
  unfoldable pub refresh : Db → (user : ℕ) → SubscribeInput → Db × Bool
  refresh db user input =
      (renew_own db user input, not (count db (own_row user input.endpoint) == 0))

  unfoldable pub evict_oldest : Db → (user : ℕ) → Db
  evict_oldest db user = elim (find_first db (owned_by user) λ r. r.created_at) [
    | none ↦ db
    | some (oldest, r) ↦ evict db user oldest
  ]

  unfoldable pub make_room : Db → (user : ℕ) → Db
  unfolding evict_oldest
  make_room db user =
      if leb max_subscriptions_per_user (count db (owned_by user)) then evict_oldest db user else db

  unfoldable pub settle_conflict : Db → (user : ℕ) → SubscribeInput → Db × Result (Unit {0})
  settle_conflict db user input =
      elim (find_first db (λ k r. str_eq r.endpoint input.endpoint) λ r. 0) [
        | none ↦ (db, err push_endpoint_conflict)
        | some (k, existing) ↦
            if existing.user_id == user
            then (renew_own db user input, ok tt)
            else (db, err push_endpoint_conflict)
      ]

  unfoldable pub add_row : Db → (id now user : ℕ) → SubscribeInput → Db × Result (Unit {0})
  unfolding settle_conflict
  add_row db id now user input = elim (create db id (new_row now user input)) [
    | some db' ↦ (db', ok tt)
    | none ↦ settle_conflict db user input
  ]

  unfoldable pub subscribe :
      (enabled : Bool) → Db → (id now user : ℕ) → SubscribeInput → Db × Result (Unit {0})
  unfolding refresh make_room add_row
  subscribe enabled db id now user input =
      if not enabled
      then (db, err push_disabled)
      else let (refreshed, found) = refresh db user input in
        if found then (refreshed, ok tt) else add_row (make_room refreshed user) id now user input

  unfoldable pub unsubscribe : Db → (user : ℕ) → (endpoint : String) → Db
  unsubscribe db user endpoint = delete_many db (own_row user endpoint)
