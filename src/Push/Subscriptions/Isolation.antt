-- ===== src/Push/Subscriptions/Isolation.antt =====
-- No request changes the subscriptions of another user.
use relaydock.Prelude.{
  ℕ, ◌≡◌, ◌≢◌, refl, ◌∙◌, ap, sym, subst, String, Bool, true, false, ◌&&◌, Option, none, some, List,
  [], ◌∷◌, ◌++◌, map, any, All, All-map, All-append, map_option, ◌==◌, ==_iff, if◌then◌else◌,
  if_elim, Bool-cases, Option-cases, inl, inr, arith,
}
use relaydock.Tables.{RowTable, drop_if}
use relaydock.Push.{
  PushSubscription, same_endpoint, Answer, accepted, refused, is_gone, touch, send_one,
  subscriptions_of,
}
use relaydock.Push.Subscriptions.{
  SubscribeInput, own_row, renew, new_row, renew_own, evict, unsubscribe,
}

-- A row, if it is the user's.
abbrev pub only : (user : ℕ) → Option PushSubscription → Option PushSubscription
only user none = none
only user (some r) = if r.user_id == user then some r else none

only-update :
    (v : ℕ) (p : PushSubscription → Bool) (f : PushSubscription → PushSubscription)
    (o : Option PushSubscription)
    → ((r : PushSubscription) → (f r).user_id ≡ r.user_id)
    → ((r : PushSubscription) → (r.user_id == v) ≡ true → p r ≡ false)
    → only v (map_option (λ r. if p r then f r else r) o) ≡ only v o
only-update v p f none same apart = refl
only-update v p f (some r) same apart = ground (arith, same r, apart r)

only-drop :
    (v : ℕ) (p : PushSubscription → Bool) (o : Option PushSubscription)
    → ((r : PushSubscription) → (r.user_id == v) ≡ true → p r ≡ false)
    → only v (drop_if p o) ≡ only v o
only-drop v p none apart = refl
only-drop v p (some r) apart = ground (arith, apart r)

-- A row of another user is marked, or left as it is.
only-touch :
    (v now : ℕ) (b : Bool) (o : Option PushSubscription)
    → (b ≡ true → only v o ≡ none)
    → only v (map_option (λ r. if b then touch now r else r) o) ≡ only v o
only-touch v now b none h = refl
only-touch v now true (some r) h = ground arith
only-touch v now false (some r) h = refl

only-remove :
    (v : ℕ) (b : Bool) (o : Option PushSubscription)
    → (b ≡ true → only v o ≡ none)
    → only v (drop_if (λ r. b) o) ≡ only v o
only-remove v b none h = refl
only-remove v true (some r) h = sym (h refl)
only-remove v false (some r) h = refl

-- The calls of the database that requests and announcements make, with what was read before as
-- arguments.
pub data PushCall : Type 0 where
  renews : (user : ℕ) → SubscribeInput → PushCall
  evicts : (user oldest : ℕ) → PushCall
  creates : (id now user : ℕ) → SubscribeInput → PushCall
  unsubscribes : (user : ℕ) → (endpoint : String) → PushCall
  -- `findMany` of an announcement to a user, and a write after an answer to one of what it found.
  finds : (user : ℕ) → PushCall
  settles : (user now id : ℕ) → Answer → PushCall

abbrev pub caller : PushCall → ℕ
caller (renews user input) = user
caller (evicts user oldest) = user
caller (creates id now user input) = user
caller (unsubscribes user endpoint) = user
caller (finds user) = user
caller (settles user now id answer) = user

-- The table, and what the announcements have found so far: users with keys of their rows.
pub record Progress (Db : Type 0) : Type 0 where
  pub rows : Db
  pub found : List (ℕ × ℕ)

abbrev pub is_found : (user id : ℕ) → ℕ × ℕ → Bool
is_found user id x = x.0 == user && x.1 == id

abbrev created : {Db : Type 0} → Db → Option Db → Db
created db none = db
created db (some db') = db'

module _ {Db : Type 0} (table : RowTable same_endpoint Db) where
  open table use {
    find, find-update_many, find-delete_many, find-create, create_fresh, find_many-rows,
  }

  unfoldable pub perform : PushCall → Progress Db → Progress Db
  perform (renews user input) s = record s { rows = renew_own table s.rows user input }
  perform (evicts user oldest) s = record s { rows = evict table s.rows user oldest }
  perform (creates id now user input) s = record s {
    rows = created s.rows (table.create s.rows id (new_row now user input));
  }
  perform (unsubscribes user endpoint) s = record s {
    rows = unsubscribe table s.rows user endpoint;
  }
  perform (finds user) s = record s {
    found =
        map (λ (x : ℕ × PushSubscription). (user, x.0)) (subscriptions_of table s.rows user)
        ++ s.found;
  }
  perform (settles user now id answer) s = record s {
    rows = if any (is_found user id) s.found then send_one table now id answer s.rows else s.rows;
  }

  unfoldable pub perform_all : List PushCall → Progress Db → Progress Db
  unfolding perform
  perform_all [] s = s
  perform_all (c ∷ calls) s = perform_all calls (perform c s)

  -- What was found for other users is no row of the user.
  abbrev AreApart : (v : ℕ) → Progress Db → Type 0
  AreApart v s = All (λ (x : ℕ × ℕ). x.0 ≢ v → only v (find s.rows x.1) ≡ none) s.found

  apart_of_found :
      (v user id : ℕ) (rows : Db) (found : List (ℕ × ℕ))
      → user ≢ v
      → All (λ (x : ℕ × ℕ). x.0 ≢ v → only v (find rows x.1) ≡ none) found
      → any (is_found user id) found ≡ true
      → only v (find rows id) ≡ none
  apart_of_found v user id rows [] apart h e = absurd cc
  apart_of_found v user id rows (x ∷ found) apart h e =
      elim (Bool-cases (x.0 == user && x.1 == id)) [
        | inl this ↦
            let owner : x.0 ≡ user = ground arith in
            let key : x.1 ≡ id = ground arith in
            subst (λ k. only v (find rows k) ≡ none) key (h.0 (λ same. apart (sym owner ∙ same)))
        | inr other ↦ apart_of_found v user id rows found apart h.1 (ground arith)
      ]

  not_of :
      (v user : ℕ) (r : PushSubscription)
      → user ≢ v
      → (r.user_id == user) ≡ true
      → only v (some r) ≡ none
  not_of v user r apart e = ground arith

  apart_when_found :
      (v user : ℕ) (rows : Db) (xs : List (ℕ × PushSubscription))
      → All
          (λ (x : ℕ × PushSubscription).
            (find rows x.0 ≡ some x.1) × ((x.1.user_id == user) ≡ true))
          xs
      → All
          (λ (x : ℕ × ℕ). x.0 ≢ v → only v (find rows x.1) ≡ none)
          (map (λ (x : ℕ × PushSubscription). (user, x.0)) xs)
  apart_when_found v user rows [] h = tt
  apart_when_found v user rows ((k, r) ∷ xs) h = (
    λ apart. ap (only v) h.0.0 ∙ not_of v user r apart h.0.1,
    apart_when_found v user rows xs h.1,
  )

  only-renew :
      (v user : ℕ) (db : Db) (j : ℕ) (input : SubscribeInput)
      → user ≢ v
      → only v (find (renew_own table db user input) j) ≡ only v (find db j)
  only-renew v user db j input apart =
      ap (only v) (find-update_many db _ _ j)
      ∙ only-update v (own_row user input.endpoint j) (renew input) (find db j) (λ r. refl)
          (λ r own. ground arith)

  only-create :
      (v user id now : ℕ) (db : Db) (j : ℕ) (input : SubscribeInput)
      → user ≢ v
      → only v (find (created db (table.create db id (new_row now user input))) j)
        ≡ only v (find db j)
  only-create v user id now db j input apart =
      elim (Option-cases (table.create db id (new_row now user input))) [
        | inl e ↦ rw e refl
        | inr (db', e) ↦ rw e (
            ap (only v) (find-create db db' id (new_row now user input) j e)
            ∙ (elim (Bool-cases (id == j)) [
              | inl here ↦
                  let i : id ≡ j = (==_iff id j).0 here in
                  rw here (rw (rw i at (create_fresh db db' id _ e)) (ground arith))
              | inr there ↦ rw there refl
            ]))
      ]

  only-send_one :
      (v now id : ℕ) (answer : Answer) (db : Db) (j : ℕ)
      → only v (find db id) ≡ none
      → only v (find (send_one table now id answer db) j) ≡ only v (find db j)
  unfolding send_one
  only-send_one v now id accepted db j gone =
      ap (only v) (find-update_many db _ _ j)
      ∙ only-touch v now (j == id) (find db j)
          (λ e. subst (λ k. only v (find db k) ≡ none) (sym ((==_iff j id).0 e)) gone)
  only-send_one v now id (refused code) db j gone =
      if_elim (λ d. only v (find d j) ≡ only v (find db j)) (is_gone code) _ _
        (λ yes.
          ap (only v) (find-delete_many db _ j)
          ∙ only-remove v (j == id) (find db j)
              (λ e. subst (λ k. only v (find db k) ≡ none) (sym ((==_iff j id).0 e)) gone))
        (λ no. refl)

  only-perform :
      (v : ℕ) (c : PushCall) (s : Progress Db) (j : ℕ)
      → caller c ≢ v
      → AreApart v s
      → only v (find (perform c s).rows j) ≡ only v (find s.rows j)
  unfolding perform unsubscribe
  only-perform v (renews user input) s j apart h = only-renew v user s.rows j input apart
  only-perform v (evicts user oldest) s j apart h =
      ap (only v) (find-delete_many s.rows _ j)
      ∙ only-drop v (λ r. (j == oldest) && (r.user_id == user)) (find s.rows j)
          (λ r own. ground arith)
  only-perform v (creates id now user input) s j apart h =
      only-create v user id now s.rows j input apart
  only-perform v (unsubscribes user endpoint) s j apart h =
      ap (only v) (find-delete_many s.rows _ j)
      ∙ only-drop v (own_row user endpoint j) (find s.rows j) (λ r own. ground arith)
  only-perform v (finds user) s j apart h = refl
  only-perform v (settles user now id answer) s j apart h =
      if_elim (λ d. only v (find d j) ≡ only v (find s.rows j)) (any (is_found user id) s.found) _ _
        (λ e.
          only-send_one v now id answer s.rows j
            (apart_of_found v user id s.rows s.found apart h e))
        (λ e. refl)

  kept-AreApart :
      (v : ℕ) (rows rows' : Db) (found : List (ℕ × ℕ))
      → ((j : ℕ) → only v (find rows' j) ≡ only v (find rows j))
      → All (λ (x : ℕ × ℕ). x.0 ≢ v → only v (find rows x.1) ≡ none) found
      → All (λ (x : ℕ × ℕ). x.0 ≢ v → only v (find rows' x.1) ≡ none) found
  kept-AreApart v rows rows' found same h =
      All-map (λ (x : ℕ × ℕ). x.0 ≢ v → only v (find rows x.1) ≡ none)
        (λ (x : ℕ × ℕ). x.0 ≢ v → only v (find rows' x.1) ≡ none) found
        (λ x k apart. same x.1 ∙ k apart) h

  perform-AreApart :
      (v : ℕ) (c : PushCall) (s : Progress Db)
      → caller c ≢ v
      → AreApart v s
      → AreApart v (perform c s)
  unfolding perform
  perform-AreApart v (finds user) s apart h =
      All-append _
        (map (λ (x : ℕ × PushSubscription). (user, x.0)) (subscriptions_of table s.rows user))
        s.found
        (apart_when_found v user s.rows _ (find_many-rows s.rows (λ k r. r.user_id == user))) h
  perform-AreApart v (renews user input) s apart h =
      kept-AreApart v s.rows (perform (renews user input) s).rows s.found
        (λ j. only-perform v (renews user input) s j apart h) h
  perform-AreApart v (evicts user oldest) s apart h =
      kept-AreApart v s.rows (perform (evicts user oldest) s).rows s.found
        (λ j. only-perform v (evicts user oldest) s j apart h) h
  perform-AreApart v (creates id now user input) s apart h =
      kept-AreApart v s.rows (perform (creates id now user input) s).rows s.found
        (λ j. only-perform v (creates id now user input) s j apart h) h
  perform-AreApart v (unsubscribes user endpoint) s apart h =
      kept-AreApart v s.rows (perform (unsubscribes user endpoint) s).rows s.found
        (λ j. only-perform v (unsubscribes user endpoint) s j apart h) h
  perform-AreApart v (settles user now id answer) s apart h =
      kept-AreApart v s.rows (perform (settles user now id answer) s).rows s.found
        (λ j. only-perform v (settles user now id answer) s j apart h) h

  isolated :
      (v : ℕ) (calls : List PushCall) (s : Progress Db) (j : ℕ)
      → AreApart v s
      → All (λ c. caller c ≢ v) calls
      → only v (find (perform_all calls s).rows j) ≡ only v (find s.rows j)
  unfolding perform_all
  isolated v [] s j k h = refl
  isolated v (c ∷ calls) s j k h =
      isolated v calls (perform c s) j (perform-AreApart v c s h.0 k) h.1
      ∙ only-perform v c s j h.0 k

  -- Whatever calls of the database the requests of other users and the announcements to them make,
  -- interleaved in any order and with any delay between reading and writing, the subscriptions of
  -- a user stay as they are: none is changed, none removed and none added. (An announcement writes
  -- only under keys that it found before.)
  pub subscriptions_isolated :
      (v : ℕ) (calls : List PushCall) (s : Progress Db) (j : ℕ)
      → s.found ≡ []
      → All (λ c. caller c ≢ v) calls
      → only v (find (perform_all calls s).rows j) ≡ only v (find s.rows j)
  subscriptions_isolated v calls s j e h = isolated v calls s j (rw e tt) h
