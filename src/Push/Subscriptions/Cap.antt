-- ===== src/Push/Subscriptions/Cap.antt =====
-- The bound on the subscriptions of a user, and what a registration that succeeds has stored.
use mathlib.Core.Path.{fun_ext}
use relaydock.Prelude.{
  ℕ, ◌+◌, ◌≤◌, ◌<◌, ◌≡◌, refl, ◌∙◌, ap, str_eq, str_eq_iff, Bool, true, false, ◌&&◌, some, ◌==◌,
  ==_iff, ==_refl, leb, if_elim, Bool-cases, Option-cases, inl, inr, arith,
}
use relaydock.Errors.{Result, ok, err, push_endpoint_conflict}
use relaydock.Tables.{RowTable}
use relaydock.Push.{PushSubscription, same_endpoint}
use relaydock.Push.Subscriptions.{
  SubscribeInput, owned_by, own_row, renew, new_row, refresh, evict_oldest, make_room,
  settle_conflict, add_row, subscribe, max_subscriptions_per_user,
}

module _ {Db : Type 0} (table : RowTable same_endpoint Db) where
  open table use {
    find, find_first, find_first-none, find_first-some, count, create, count-update_many,
    count-delete_many, count-create, count-key, count_pos, find-update_many, find-create,
  }

  -- No user has more subscriptions than the maximum.
  abbrev pub IsCapped : Db → Type 0
  IsCapped db = (v : ℕ) → count db (owned_by v) ≤ max_subscriptions_per_user

  -- A row of the user's stands for the browser, with its keys.
  pub record Subscribed (db : Db) (user : ℕ) (input : SubscribeInput) : Type 0 where
    pub key : ℕ
    pub row : PushSubscription
    pub found : find db key ≡ some row
    pub owner : row.user_id ≡ user
    pub same : str_eq row.endpoint input.endpoint ≡ true
    pub keys : (row.p256dh ≡ input.p256dh) × (row.auth ≡ input.auth)

  pub count-renew :
      (db : Db) (user : ℕ) (input : SubscribeInput) (v : ℕ)
      → count (table.update_many db (own_row user input.endpoint) (renew input)) (owned_by v)
        ≡ count db (owned_by v)
  count-renew db user input v =
      count-update_many db _ _ (owned_by v) ∙ ap (count db) (fun_ext λ k. fun_ext λ r. ground arith)

  pub count-drop-le :
      (db : Db) (p q : ℕ → PushSubscription → Bool) → count (table.delete_many db p) q ≤ count db q
  count-drop-le db p q = omega (arith, count-delete_many db p q)

  -- The oldest of a user's subscriptions leaves.
  pub count-evict_oldest :
      (db : Db) (user : ℕ)
      → 0 < count db (owned_by user)
      → count (evict_oldest table db user) (owned_by user) + 1 ≡ count db (owned_by user)
  unfolding evict_oldest
  count-evict_oldest db user some_left =
      let (j, s, there, own) = count_pos db (owned_by user) some_left in
      elim (Option-cases (find_first db (owned_by user) (λ r. r.created_at))) [
        | inl e ↦ absurd (cc (find_first-none db (owned_by user) (λ r. r.created_at) j s e there))
        | inr (x, e) ↦
            rw (e, evict_oldest)
              (omega (
                arith,
                count-delete_many db (λ k s. (k == x.0) && (s.user_id == user)) (owned_by user),
                one x e,
              ))
      ]
    where
      one :
          (x : ℕ × PushSubscription)
          → find_first db (owned_by user) (λ r. r.created_at) ≡ some x
          → count db (λ k s. ((k == x.0) && (s.user_id == user)) && (s.user_id == user)) ≡ 1
      one x e =
          let (found, own) = find_first-some db (owned_by user) (λ r. r.created_at) x.0 x.1 e in
          ap (count db) (fun_ext λ k. fun_ext λ s. ground arith)
          ∙ count-key db x.0 (owned_by user)
          ∙ rw found (rw own refl)

  evict_oldest-le :
      (db : Db) (user v : ℕ)
      → count (evict_oldest table db user) (owned_by v) ≤ count db (owned_by v)
  unfolding evict_oldest
  evict_oldest-le db user v =
      elim (Option-cases (find_first db (owned_by user) (λ r. r.created_at))) [
        | inl e ↦ rw (e, evict_oldest) (omega arith)
        | inr (x, e) ↦ rw (e, evict_oldest) (count-drop-le db _ (owned_by v))
      ]

  make_room_lem :
      (db : Db) (user : ℕ)
      → IsCapped db
      → IsCapped (make_room table db user)
        × (count (make_room table db user) (owned_by user) < max_subscriptions_per_user)
  unfolding make_room
  make_room_lem db user h =
      if_elim (λ (d : Db). IsCapped d × (count d (owned_by user) < max_subscriptions_per_user))
        (leb max_subscriptions_per_user (count db (owned_by user))) (evict_oldest table db user) db
        (λ full. (
          λ v. omega (arith, evict_oldest-le db user v, h v),
          let left : 0 < count db (owned_by user) = ground arith in
              omega (arith, count-evict_oldest db user left, h user),
        ))
        (λ few. (h, ground arith))

  -- What a piece of the handler that answers the request leaves behind.
  pub record IsAnswered (user : ℕ) (input : SubscribeInput) (out : Db × Result (Unit {0}))
      : Type 0 where
    pub capped : IsCapped out.0
    pub stored : out.1 ≡ ok tt → Subscribed out.0 user input

  Subscribed-renew :
      (db : Db) (user : ℕ) (input : SubscribeInput) (j : ℕ) (r : PushSubscription)
      → find db j ≡ some r
      → own_row user input.endpoint j r ≡ true
      → Subscribed (table.update_many db (own_row user input.endpoint) (renew input)) user input
  Subscribed-renew db user input j r there own = record {
    key = j;
    row = renew input r;
    found = find-update_many db _ _ j ∙ rw there (rw own refl);
    owner = ground arith;
    same = ground arith;
    keys = (refl, refl);
  }

  renewed-IsAnswered :
      (db : Db) (user : ℕ) (input : SubscribeInput) (j : ℕ) (r : PushSubscription)
      → IsCapped db
      → find db j ≡ some r
      → own_row user input.endpoint j r ≡ true
      → IsAnswered user input
          (table.update_many db (own_row user input.endpoint) (renew input), ok tt)
  renewed-IsAnswered db user input j r h there own = record {
    capped = λ v. rw (count-renew db user input v) (h v);
    stored = λ _. Subscribed-renew db user input j r there own;
  }

  refused-IsAnswered :
      (db : Db) (user : ℕ) (input : SubscribeInput)
      → IsCapped db
      → IsAnswered user input (db, err push_endpoint_conflict)
  refused-IsAnswered db user input h = record { capped = h; stored = λ e. absurd cc }

  settle_conflict-IsAnswered :
      (db : Db) (user : ℕ) (input : SubscribeInput)
      → IsCapped db
      → IsAnswered user input (settle_conflict table db user input)
  unfolding settle_conflict
  settle_conflict-IsAnswered db user input h =
      elim (Option-cases (find_first db (λ k r. str_eq r.endpoint input.endpoint) (λ r. 0))) [
        | inl e ↦ rw (e, settle_conflict) (refused-IsAnswered db user input h)
        | inr (x, e) ↦
            let (there, at_endpoint) = find_first-some db _ (λ r. 0) x.0 x.1 e in
            rw (e, settle_conflict)
              (if_elim (IsAnswered user input) (x.1.user_id == user)
                (table.update_many db (own_row user input.endpoint) (renew input), ok tt)
                (db, err push_endpoint_conflict)
                (λ mine.
                  renewed-IsAnswered db user input x.0 x.1 h there (rw (at_endpoint, mine) refl))
                (λ other. refused-IsAnswered db user input h))
      ]

  add_row-IsAnswered :
      (db : Db) (id now user : ℕ) (input : SubscribeInput)
      → IsCapped db
      → count db (owned_by user) < max_subscriptions_per_user
      → IsAnswered user input (add_row table db id now user input)
  unfolding add_row
  add_row-IsAnswered db id now user input h room =
      elim (Option-cases (create db id (new_row now user input))) [
        | inl e ↦ rw (e, add_row) (settle_conflict-IsAnswered db user input h)
        | inr (db', e) ↦
            rw (e, add_row)
              (record {
                capped = λ v.
                    rw (count-create db db' id (new_row now user input) (owned_by v) e)
                      (elim (Bool-cases (user == v)) [
                        | inl mine ↦
                            let i : user ≡ v = (==_iff user v).0 mine in
                            rw mine (omega (arith, rw i at room))
                        | inr other ↦ rw other (omega (arith, h v))
                      ]);
                stored = λ _. record {
                  key = id;
                  row = new_row now user input;
                  found =
                      find-create db db' id (new_row now user input) id e ∙ rw (==_refl id) refl;
                  owner = refl;
                  same = (str_eq_iff input.endpoint input.endpoint).1 refl;
                  keys = (refl, refl);
                };
              })
      ]

  refresh-IsCapped :
      (db : Db) (user : ℕ) (input : SubscribeInput)
      → IsCapped db
      → IsCapped (refresh table db user input).0
  unfolding refresh
  refresh-IsCapped db user input h v = rw (count-renew db user input v) (h v)

  refresh-IsAnswered :
      (db : Db) (user : ℕ) (input : SubscribeInput)
      → IsCapped db
      → (refresh table db user input).1 ≡ true
      → IsAnswered user input ((refresh table db user input).0, ok tt)
  unfolding refresh
  refresh-IsAnswered db user input h e =
      let (j, r, there, own) = count_pos db (own_row user input.endpoint) (ground arith) in
      renewed-IsAnswered db user input j r h there own

  -- A registration that runs alone keeps every user within the maximum of 20 subscriptions,
  -- whatever it answers; and if it succeeds, the user has a subscription at the endpoint, with the
  -- keys that the browser gave.
  pub subscribe-IsAnswered :
      (enabled : Bool) (db : Db) (id now user : ℕ) (input : SubscribeInput)
      → IsCapped db
      → IsAnswered user input (subscribe table enabled db id now user input)
  unfolding subscribe
  subscribe-IsAnswered false db id now user input h = record { capped = h; stored = λ e. absurd cc }
  subscribe-IsAnswered true db id now user input h =
      let refreshed = refresh-IsCapped db user input h in
      let roomy = make_room_lem (refresh table db user input).0 user refreshed in
      if_elim (IsAnswered user input) (refresh table db user input).1
        ((refresh table db user input).0, ok tt)
        (add_row table (make_room table (refresh table db user input).0 user) id now user input)
        (λ e. refresh-IsAnswered db user input h e)
        (λ e.
          add_row-IsAnswered (make_room table (refresh table db user input).0 user) id now user
            input roomy.0 roomy.1)
