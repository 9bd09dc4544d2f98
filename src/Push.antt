-- ===== src/Push.antt =====
-- `PushService` of apps/server/src/services/push.ts: the notice of a job's transition to the
-- browsers of its owner. The answers of the push services are an argument. The texts of a payload
-- stand for themselves; its tag and url are functions of the job's identifier.
pub mod Delivery
pub mod Subscriptions
use relaydock.Prelude.{
  ℕ, zero, ℤ, pos, String, str_eq, Bool, true, false, not, ◌&&◌, ◌||◌, Option, none, some, List, [],
  ◌∷◌, map, any, ◌==◌, length, map_option, or_else, if◌then◌else◌,
}
use relaydock.Lifecycle.{JobStatus, waiting_for_input, completed, failed, status_eq}
use relaydock.Jobs.{JobRow}
use relaydock.Tables.{RowTable}

pub record PushSubscription : Type 0 where
  pub user_id : ℕ
  pub endpoint : String
  pub p256dh : String
  pub auth : String
  pub user_agent : Option String
  pub created_at : ℕ
  pub last_notified_at : Option ℕ

-- `endpoint` is unique.
abbrev pub same_endpoint : PushSubscription → PushSubscription → Bool
same_endpoint r s = str_eq r.endpoint s.endpoint

unfoldable pub is_notifiable : JobStatus → Bool
is_notifiable s = any (λ t. status_eq t s) (waiting_for_input ∷ completed ∷ failed ∷ [])

pub data Title : Type 0 where
  waiting_for_your_input job_completed job_failed : Title
  job_finished_exit : ℤ → Title

pub record JobNotificationPayload : Type 0 where
  pub title : Title
  pub body : String
  pub job_id : ℕ
  pub status : JobStatus

abbrev pub completed_title : Option ℤ → Title
completed_title none = job_completed
completed_title (some (pos zero)) = job_completed
completed_title (some e) = job_finished_exit e

abbrev pub title_of : JobStatus → Option ℤ → Option Title
title_of waiting_for_input e = some waiting_for_your_input
title_of completed e = some (completed_title e)
title_of failed e = some job_failed
title_of _ e = none

unfoldable pub build_job_notification :
    (job : ℕ) → JobStatus → Option ℤ → (repository_name : String) → Option JobNotificationPayload
unfolding is_notifiable
build_job_notification job status exit_code name =
    if not (is_notifiable status)
    then none
    else map_option (λ title. record { title = title; body = name; job_id = job; status = status })
        (title_of status exit_code)

-- What `webpush.sendNotification` comes to: it resolves, or it throws with a status code or none.
pub data Answer : Type 0 where
  accepted : Answer
  refused : (status_code : Option ℕ) → Answer

abbrev pub is_gone : Option ℕ → Bool
is_gone none = false
is_gone (some code) = code == 404 || code == 410

abbrev pub touch : (now : ℕ) → PushSubscription → PushSubscription
touch now r = record r { last_notified_at = some now }

module _ {Db : Type 0} (table : RowTable same_endpoint Db) where
  open table use {find_many, update_many, delete_many}

  unfoldable pub send_one : (now id : ℕ) → Answer → Db → Db
  send_one now id accepted db = update_many db (λ k r. k == id) (touch now)
  send_one now id (refused code) db = if is_gone code then delete_many db (λ k r. k == id) else db

  -- Each call writes its own row only, so they stand in one order here.
  unfoldable pub send_all :
      (now : ℕ) → (answer : ℕ → Answer) → List (ℕ × PushSubscription) → Db → Db
  unfolding send_one
  send_all now answer [] db = db
  send_all now answer ((id, r) ∷ rest) db =
      send_all now answer rest (send_one now id (answer id) db)

  -- `findMany({ where: { userId } })`
  abbrev pub subscriptions_of : Db → (user : ℕ) → List (ℕ × PushSubscription)
  subscriptions_of db user = find_many db λ k r. r.user_id == user

  -- The rows of the job's owner, and what is sent to each of them.
  unfoldable pub deliver :
      Db
      → (now : ℕ) → (answer : ℕ → Answer) → JobRow
      → (repository_name : Option String) → Db × List (ℕ × JobNotificationPayload)
  unfolding send_all
  deliver db now answer job name =
      let subscriptions = subscriptions_of db job.user_id in
      if length subscriptions == 0
      then (db, [])
      else elim (build_job_notification job.id job.status job.exit_code
          (or_else name "a repository")) [
            | none ↦ (db, [])
            | some payload ↦ (
              send_all now answer subscriptions db,
              map (λ (x : ℕ × PushSubscription). (x.0, payload)) subscriptions,
            )
          ]

  unfoldable pub notify_job_transition :
      (enabled : Bool)
      → Db
      → (now : ℕ) → (answer : ℕ → Answer) → JobRow
      → (repository_name : Option String) → Db × List (ℕ × JobNotificationPayload)
  unfolding is_notifiable deliver
  notify_job_transition enabled db now answer job name =
      if not enabled || not (is_notifiable job.status)
      then (db, [])
      else deliver db now answer job name
