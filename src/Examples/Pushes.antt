-- ===== src/Examples/Pushes.antt =====
-- Two users with a browser each: a notice, a registration, and one that is refused.
use relaydock.Prelude.{ℕ, pos, ◌≡◌, refl, String, true, false, none, some, [], ◌∷◌, arith}
use relaydock.Lifecycle.{completed}
use relaydock.Jobs.{JobRow}
use relaydock.Tables.{RowTable}
use relaydock.Tables.Slots.{Slots, count_slots, delete_slots, slots_from}
use relaydock.Tables.Listed.{listed_rows}
use relaydock.Push.{
  PushSubscription, same_endpoint, Answer, refused, notify_job_transition, build_job_notification,
}
use relaydock.Push.Delivery.{IsNotified, notify-IsNotified}
use relaydock.Push.Subscriptions.{SubscribeInput, subscribe}
use relaydock.Push.Subscriptions.Cap.{IsCapped, IsAnswered, subscribe-IsAnswered}
use relaydock.Push.Subscriptions.Isolation.{
  only, renews, evicts, creates, unsubscribes, finds, settles, perform_all, subscriptions_isolated,
}

abbrev table : RowTable same_endpoint (Slots PushSubscription)
table = listed_rows same_endpoint

abbrev browser : (user : ℕ) → (endpoint : String) → PushSubscription
browser user endpoint = record {
  user_id = user;
  endpoint = endpoint;
  p256dh = "key";
  auth = "auth";
  user_agent = none;
  created_at = 1;
  last_notified_at = none;
}

abbrev browsers : Slots PushSubscription
browsers =
    some (browser 1 "https://fcm.googleapis.com/a")
    ∷ some (browser 2 "https://fcm.googleapis.com/b")
    ∷ []

abbrev answers : ℕ → Answer
answers id = refused (some 410)

abbrev done_job : JobRow
done_job = record {
  id = 7;
  user_id = 1;
  device_id = 3;
  repository_id = 5;
  status = completed;
  interactive = false;
  exit_code = some (pos 0);
  status_detail = none;
  retained_output_bytes = 0;
  output_truncated = false;
  started_at = some 1;
  finished_at = some 2;
}

pruned :
    (notify_job_transition table true browsers 9 answers done_job none).0
    ≡ none ∷ some (browser 2 "https://fcm.googleapis.com/b") ∷ []
unfolding notify_job_transition listed_rows slots_from delete_slots build_job_notification
pruned = refl

notify-IsNotified_example :
    IsNotified table 9 answers true done_job none browsers
      (notify_job_transition table true browsers 9 answers done_job none)
      0
notify-IsNotified_example = notify-IsNotified table 9 answers true done_job none browsers 0

abbrev input : SubscribeInput
input = record {
  endpoint = "https://fcm.googleapis.com/c";
  p256dh = "new key";
  auth = "new auth";
  user_agent = none;
}

browsers-IsCapped : IsCapped table browsers
unfolding listed_rows count_slots
browsers-IsCapped v = ground arith

subscribe-IsAnswered_example : IsAnswered table 1 input (subscribe table true browsers 4 30 1 input)
subscribe-IsAnswered_example =
    subscribe-IsAnswered table true browsers 4 30 1 input browsers-IsCapped

-- A write under the key of user 2, which was not found for user 1, is none.
subscriptions_isolated_example :
    only 2 (
      table.find
        (perform_all table
          (renews 1 input
            ∷ finds 1
            ∷ evicts 1 0
            ∷ creates 4 30 1 input
            ∷ settles 1 40 0 (refused (some 410))
            ∷ settles 1 40 1 (refused (some 410))
            ∷ unsubscribes 3 "https://fcm.googleapis.com/b"
            ∷ [])
          (record { rows = browsers; found = [] })).rows
        1)
    ≡ only 2 (table.find browsers 1)
subscriptions_isolated_example =
    subscriptions_isolated table 2
      (renews 1 input
        ∷ finds 1
        ∷ evicts 1 0
        ∷ creates 4 30 1 input
        ∷ settles 1 40 0 (refused (some 410))
        ∷ settles 1 40 1 (refused (some 410))
        ∷ unsubscribes 3 "https://fcm.googleapis.com/b"
        ∷ [])
      (record { rows = browsers; found = [] }) 1 refl
      (
        omega arith,
        (
          omega arith,
          (omega arith, (omega arith, (omega arith, (omega arith, (omega arith, tt))))),
        ),
      )
