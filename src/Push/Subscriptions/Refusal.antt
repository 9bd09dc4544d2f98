-- ===== src/Push/Subscriptions/Refusal.antt =====
-- A registration that is refused has already cost the user a subscription.
use mathlib.Core.Path.{fun_ext}
use relaydock.Prelude.{
  ℕ, ◌+◌, ◌≤◌, ◌≡◌, ◌≢◌, refl, ◌∙◌, ap, String, str_eq, Bool, true, false, Option, none, some, [],
  ◌∷◌, ◌==◌, leb, if◌then◌else◌, if_elim, Option-cases, inl, inr, arith,
}
use relaydock.Errors.{ok, err, push_endpoint_conflict}
use relaydock.Tables.{RowTable}
use relaydock.Push.{PushSubscription, same_endpoint}
use relaydock.Push.Subscriptions.{
  SubscribeInput, owned_by, own_row, new_row, refresh, evict_oldest, make_room, settle_conflict,
  add_row, subscribe, max_subscriptions_per_user,
}
use relaydock.Push.Subscriptions.Cap.{count-renew, count-drop-le, count-evict_oldest}
use relaydock.Push.Subscriptions.Isolation.{
  only, subscriptions_isolated, renews, evicts, perform_all,
}

only_found :
    (o : Option PushSubscription) (r : PushSubscription) → only r.user_id o ≡ some r → o ≡ some r
only_found none r e = absurd cc
only_found (some s) r e = ground arith

only_self : (r : PushSubscription) → only r.user_id (some r) ≡ some r
only_self r = ground arith

module _ {Db : Type 0} (table : RowTable same_endpoint Db) where
  open table use {
    find, find_first, find_first-some, count, create, create_unique, count-update_many,
    count-delete_many, count_zero,
  }

  count-evict_oldest-own_row :
      (db : Db) (user : ℕ) (endpoint : String)
      → count (evict_oldest table db user) (own_row user endpoint)
        ≤ count db (own_row user endpoint)
  unfolding evict_oldest
  count-evict_oldest-own_row db user endpoint =
      elim (Option-cases (find_first db (owned_by user) (λ r. r.created_at))) [
        | inl e ↦ rw (e, evict_oldest) (omega arith)
        | inr (x, e) ↦ rw (e, evict_oldest) (count-drop-le table db _ (own_row user endpoint))
      ]

  conflict :
      (db : Db) (id now user : ℕ) (input : SubscribeInput) (k : ℕ) (r : PushSubscription)
      → find db k ≡ some r
      → str_eq r.endpoint input.endpoint ≡ true
      → count db (own_row user input.endpoint) ≡ 0
      → add_row table db id now user input ≡ (db, err push_endpoint_conflict)
  unfolding add_row settle_conflict
  conflict db id now user input k r there taken none_own =
      elim (Option-cases (create db id (new_row now user input))) [
        | inr (db', e) ↦ absurd (cc (create_unique db db' id _ k r e there))
        | inl e ↦ rw (e, add_row) refused
      ]
    where
      refused : settle_conflict table db user input ≡ (db, err push_endpoint_conflict)
      refused =
          elim (Option-cases (find_first db (λ k r. str_eq r.endpoint input.endpoint) (λ r. 0))) [
            | inl f ↦ rw (f, settle_conflict) refl
            | inr (x, f) ↦
                let (found, at_endpoint) = find_first-some db _ (λ r. 0) x.0 x.1 f in
                let other : (x.1.user_id == user) ≡ false =
                  ground
                    (arith, count_zero db (own_row user input.endpoint) x.0 x.1 none_own found) in
                rw (f, settle_conflict) (rw other refl)
          ]

  module _ (db : Db) (user : ℕ) (input : SubscribeInput) where
    abbrev refreshed : Db
    refreshed = (refresh table db user input).0

    refresh_none :
        count db (own_row user input.endpoint) ≡ 0 → (refresh table db user input).1 ≡ false
    unfolding refresh
    refresh_none e = ground arith

    make_room_full :
        max_subscriptions_per_user ≤ count refreshed (owned_by user)
        → make_room table refreshed user ≡ evict_oldest table refreshed user
    unfolding make_room
    make_room_full full =
        if_elim (λ (d : Db). d ≡ evict_oldest table refreshed user)
          (leb max_subscriptions_per_user (count refreshed (owned_by user)))
          (evict_oldest table refreshed user) refreshed (λ e. refl) (λ e. absurd (ground arith))

    count-refresh : count refreshed (owned_by user) ≡ count db (owned_by user)
    unfolding refresh
    count-refresh = count-renew table db user input user

    count-refresh_own_row :
        count refreshed (own_row user input.endpoint) ≡ count db (own_row user input.endpoint)
    unfolding refresh
    count-refresh_own_row =
        count-update_many db _ _ (own_row user input.endpoint)
        ∙ ap (count db) (fun_ext λ k. fun_ext λ r. ground arith)

    evict_oldest-only :
        (v k : ℕ)
        → user ≢ v
        → only v (find (evict_oldest table refreshed user) k) ≡ only v (find refreshed k)
    unfolding evict_oldest perform_all
    evict_oldest-only v k other =
        elim (Option-cases (find_first refreshed (owned_by user) (λ r. r.created_at))) [
          | inl e ↦ rw (e, evict_oldest) refl
          | inr (x, e) ↦
              rw (e, evict_oldest)
                (subscriptions_isolated table v (evicts user x.0 ∷ [])
                  (record { rows = refreshed; found = [] }) k refl (other, tt))
        ]

    kept :
        (k : ℕ) (r : PushSubscription)
        → user ≢ r.user_id
        → find db k ≡ some r
        → find (make_room table refreshed user) k ≡ some r
    unfolding perform_all make_room refresh
    kept k r other there =
        let room : only r.user_id (find (make_room table refreshed user) k)
            ≡ only r.user_id (find refreshed k) =
          if_elim (λ (d : Db). only r.user_id (find d k) ≡ only r.user_id (find refreshed k))
            (leb max_subscriptions_per_user (count refreshed (owned_by user)))
            (evict_oldest table refreshed user) refreshed
            (λ full. evict_oldest-only r.user_id k other) (λ few. refl) in
        only_found _ r (
          room
          ∙ (subscriptions_isolated table r.user_id (renews user input ∷ [])
                (record { rows = db; found = [] }) k refl (other, tt)
              ∙ (ap (only r.user_id) there ∙ only_self r)))

  subscribe_added :
      (db : Db) (id now user : ℕ) (input : SubscribeInput)
      → count db (own_row user input.endpoint) ≡ 0
      → subscribe table true db id now user input
        ≡ add_row table (make_room table (refreshed db user input) user) id now user input
  unfolding subscribe
  subscribe_added db id now user input e =
      ap
        (λ (b : Bool).
          if b
          then (refreshed db user input, ok tt)
          else add_row table (make_room table (refreshed db user input) user) id now user input)
        (refresh_none db user input e)

  -- A registration at an endpoint that belongs to another account is refused. If the caller has
  -- the maximum of 20 subscriptions or more, and none at the endpoint, then their oldest one has
  -- been deleted to make room before the refusal, and stays deleted.
  pub refused_subscribe_evicts :
      (db : Db) (id now user : ℕ) (input : SubscribeInput) (k : ℕ) (r : PushSubscription)
      → find db k ≡ some r
      → str_eq r.endpoint input.endpoint ≡ true
      → user ≢ r.user_id
      → count db (own_row user input.endpoint) ≡ 0
      → max_subscriptions_per_user ≤ count db (owned_by user)
      → ((subscribe table true db id now user input).1 ≡ err push_endpoint_conflict)
        × (count (subscribe table true db id now user input).0 (owned_by user) + 1
            ≡ count db (owned_by user))
  refused_subscribe_evicts db id now user input k r there taken other none_own full =
      let room = make_room_full db user input (omega (arith, count-refresh db user input)) in
      let none_left : count (make_room table (refreshed db user input) user)
            (own_row user input.endpoint)
          ≡ 0 =
        rw room (
          omega (
            arith,
            count-evict_oldest-own_row (refreshed db user input) user input.endpoint,
            count-refresh_own_row db user input,
          )) in
      rw
        (
          subscribe_added db id now user input none_own,
          conflict (make_room table (refreshed db user input) user) id now user input k r
              (kept db user input k r other there) taken none_left,
        )
        (
          refl,
          rw room (
              count-evict_oldest table (refreshed db user input) user
                (omega (arith, count-refresh db user input))
              ∙ count-refresh db user input),
        )
