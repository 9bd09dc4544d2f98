-- ===== src/Push/Delivery.antt =====
-- Who is sent a notice, and what its answer does to the subscription.
use relaydock.Prelude.{
  ℕ, ℤ, ◌≡◌, refl, ◌∙◌, ap, sym, All, String, Bool, true, false, ◌&&◌, Option, none, some, List, [],
  ◌∷◌, map, mem, map_option, ◌==◌, ==_iff, length, or_else, if◌then◌else◌, Bool-cases, Option-cases,
  if_elim, inl, inr, arith,
}
use relaydock.Lifecycle.{
  JobStatus, queued, dispatched, running, waiting_for_input, completed, failed, cancelled,
  disconnected,
}
use relaydock.Jobs.{JobRow}
use relaydock.Tables.{RowTable, meets, drop_if}
use relaydock.Push.{
  PushSubscription, same_endpoint, is_notifiable, build_job_notification, JobNotificationPayload,
  Answer, accepted, refused, is_gone, send_one, send_all, deliver, notify_job_transition, touch,
}

-- What an answer makes of a subscription.
abbrev pub settle : (now : ℕ) → Answer → Option PushSubscription → Option PushSubscription
settle now accepted o = map_option (touch now) o
settle now (refused code) o = if is_gone code then none else o

settle_idem :
    (now : ℕ) (a : Answer) (o : Option PushSubscription)
    → settle now a (settle now a o) ≡ settle now a o
settle_idem now accepted none = refl
settle_idem now accepted (some r) = refl
settle_idem now (refused code) o = ground arith

notice :
    (job : ℕ) (s : JobStatus) (x : Option ℤ) (name : String)
    → is_notifiable s ≡ true
    → (p : JobNotificationPayload) × (build_job_notification job s x name ≡ some p)
unfolding build_job_notification is_notifiable
notice job queued x name e = absurd cc
notice job dispatched x name e = absurd cc
notice job running x name e = absurd cc
notice job waiting_for_input x name e = (_, refl)
notice job completed x name e = (_, refl)
notice job failed x name e = (_, refl)
notice job cancelled x name e = absurd cc
notice job disconnected x name e = absurd cc

-- Every status that is worth a notice has a title.
pub build-IsSome :
    (job : JobRow) (name : String)
    → is_notifiable job.status ≡ true
    → (p : JobNotificationPayload) × (build_job_notification job.id job.status job.exit_code name
        ≡ some p)
build-IsSome job name e = notice job.id job.status job.exit_code name e

-- Whether a job's transition is announced to a subscription.
abbrev pub is_told : (enabled : Bool) → JobRow → Option PushSubscription → Bool
is_told enabled job o =
    enabled && (is_notifiable job.status && meets o (λ r. r.user_id == job.user_id))

abbrev pub sent_to : List (ℕ × JobNotificationPayload) → List ℕ
sent_to = map (λ (x : ℕ × JobNotificationPayload). x.0)

abbrev address :
    JobNotificationPayload → List (ℕ × PushSubscription) → List (ℕ × JobNotificationPayload)
address p = map (λ (x : ℕ × PushSubscription). (x.0, p))

sent_to-address :
    (p : JobNotificationPayload) (xs : List (ℕ × PushSubscription))
    → sent_to (address p xs) ≡ map (λ (x : ℕ × PushSubscription). x.0) xs
sent_to-address p [] = refl
sent_to-address p (x ∷ xs) = ap (◌∷◌ x.0) (sent_to-address p xs)

abbrev IsNoticeOf : JobRow → Option String → ℕ × JobNotificationPayload → Type 0
IsNoticeOf job name x =
    build_job_notification job.id job.status job.exit_code (or_else name "a repository") ≡ some x.1

address-IsNoticeOf :
    (job : JobRow) (name : Option String) (p : JobNotificationPayload)
    → build_job_notification job.id job.status job.exit_code (or_else name "a repository") ≡ some p
    → (xs : List (ℕ × PushSubscription)) → All (IsNoticeOf job name) (address p xs)
address-IsNoticeOf job name p e [] = tt
address-IsNoticeOf job name p e (x ∷ xs) = (e, address-IsNoticeOf job name p e xs)

module _ {Db : Type 0} (table : RowTable same_endpoint Db) (now : ℕ) (answer : ℕ → Answer) where
  open table use {find, find_many, find_many-all, find-update_many, find-delete_many}

  find-send_one :
      (id : ℕ) (a : Answer) (db : Db) (j : ℕ)
      → find (send_one table now id a db) j
        ≡ (if id == j then settle now a (find db j) else find db j)
  unfolding send_one
  find-send_one id accepted db j = elim (Option-cases (find db j)) [
    | inl e ↦ find-update_many db _ _ j ∙ rw e (touched none)
    | inr (r, e) ↦ find-update_many db _ _ j ∙ rw e (touched (some r))
  ]
    where
      touched :
          (o : Option PushSubscription)
          → map_option (λ r. if j == id then touch now r else r) o
            ≡ (if id == j then settle now accepted o else o)
      touched none = ground arith
      touched (some r) = ground arith
  find-send_one id (refused code) db j = elim (Bool-cases (is_gone code)) [
    | inl e ↦ rw e (find-delete_many db _ j ∙ dropped (find db j))
    | inr e ↦ rw e (ground arith)
  ]
    where
      dropped :
          (o : Option PushSubscription) → drop_if (λ r. j == id) o ≡ (if id == j then none else o)
      dropped none = ground arith
      dropped (some r) = ground arith

  find-send_all :
      (xs : List (ℕ × PushSubscription)) (db : Db) (j : ℕ)
      → find (send_all table now answer xs db) j ≡ (
          if mem j (map (λ (x : ℕ × PushSubscription). x.0) xs)
          then settle now (answer j) (find db j)
          else find db j)
  unfolding send_all
  find-send_all [] db j = refl
  find-send_all ((id, r) ∷ xs) db j =
      find-send_all xs (send_one table now id (answer id) db) j
      ∙ rw (find-send_one id (answer id) db j) (elim (Bool-cases (id == j)) [
        | inl same ↦
            let e : id ≡ j = (==_iff id j).0 same in
            rw e (ground (arith, settle_idem now (answer j) (find db j)))
        | inr other ↦ rw other refl
      ])

  -- What a call of the notifier has done, for one subscription.
  pub record IsNotified (enabled : Bool) (job : JobRow) (name : Option String) (db : Db)
      (out : Db × List (ℕ × JobNotificationPayload)) (j : ℕ) : Type 0 where
    pub told : mem j (sent_to out.1) ≡ is_told enabled job (find db j)
    pub row :
        find out.0 j
        ≡ (if is_told enabled job (find db j) then settle now (answer j) (find db j) else find db j)
    pub notices : All (IsNoticeOf job name) out.1

  untold-IsNotified :
      (enabled : Bool) (job : JobRow) (name : Option String) (db : Db) (j : ℕ)
      → is_told enabled job (find db j) ≡ false
      → IsNotified enabled job name db (db, []) j
  untold-IsNotified enabled job name db j e = record { told = sym e; row = rw e refl; notices = tt }

  module _ (job : JobRow) (name : Option String) (db : Db) (j : ℕ)
      (worth : is_notifiable job.status ≡ true) (p : JobNotificationPayload)
      (built : build_job_notification job.id job.status job.exit_code (or_else name "a repository")
        ≡ some p) where
    sent-IsNotified :
        (xs : List (ℕ × PushSubscription))
        → mem j (map (λ (x : ℕ × PushSubscription). x.0) xs) ≡ is_told true job (find db j)
        → IsNotified true job name db (send_all table now answer xs db, address p xs) j
    sent-IsNotified xs listed = record {
      told = ap (mem j) (sent_to-address p xs) ∙ listed;
      row =
          find-send_all xs db j
          ∙ ap (λ b. if b then settle now (answer j) (find db j) else find db j) listed;
      notices = address-IsNoticeOf job name p built xs;
    }

    delivered-IsNotified :
        (xs : List (ℕ × PushSubscription))
        → mem j (map (λ (x : ℕ × PushSubscription). x.0) xs) ≡ is_told true job (find db j)
        → IsNotified true job name db
            (if length xs == 0 then (db, []) else (send_all table now answer xs db, address p xs))
            j
    delivered-IsNotified [] listed = untold-IsNotified true job name db j (sym listed)
    delivered-IsNotified (x ∷ xs) listed =
        if_elim (λ out. IsNotified true job name db out j) (length (x ∷ xs) == 0) _ _
          (λ e. absurd (ground arith)) (λ e. sent-IsNotified (x ∷ xs) listed)

  deliver-IsNotified :
      (job : JobRow) (name : Option String) (db : Db) (j : ℕ)
      → is_notifiable job.status ≡ true
      → IsNotified true job name db (deliver table db now answer job name) j
  unfolding deliver
  deliver-IsNotified job name db j worth =
      let (p, built) = build-IsSome job (or_else name "a repository") worth in
      rw built (
        delivered-IsNotified job name db j worth p built _ (
          find_many-all db _ j
          ∙ ap (λ b. b && meets (find db j) (λ r. r.user_id == job.user_id)) (sym worth)))

  -- A transition is announced to exactly the subscriptions of the job's owner, and only if push
  -- is configured and the new status is one that waits for the user, has completed or has failed.
  -- Each of them is sent the notice of that job. A subscription that the push service reports as
  -- gone (404 or 410) is removed, one that took the notice is marked with the time, one that
  -- failed otherwise stays as it was, and so does every other row.
  pub notify-IsNotified :
      (enabled : Bool) (job : JobRow) (name : Option String) (db : Db) (j : ℕ)
      → IsNotified enabled job name db
          (notify_job_transition table enabled db now answer job name)
          j
  unfolding notify_job_transition
  notify-IsNotified false job name db j = untold-IsNotified false job name db j refl
  notify-IsNotified true job name db j = elim (Bool-cases (is_notifiable job.status)) [
    | inl worth ↦ rw worth (deliver-IsNotified job name db j worth)
    | inr plain ↦ rw plain (untold-IsNotified true job name db j (rw plain refl))
  ]
