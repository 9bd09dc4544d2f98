-- ===== src/Viewers/Invariant.antt =====
-- What holds of the viewers between two calls.
use relaydock.Prelude.{
  ℕ, ◌≤◌, ◌<◌, ◌⊎◌, true, false, none, some, List, [], ◌∷◌, ◌++◌, ◌≡◌, refl, arith, Dict, get,
  Entries, Entries-put, Entries-delete, Entries-get, Distinct, Distinct-put, Distinct-delete, All,
  All-append, length, length-append, Bool-cases, Option-cases, inl, inr, ◌==◌,
}
use relaydock.Protocol.{ServerToClientMessage, job_of}
use relaydock.Viewers.{
  Sockets, ClientSubscription, ClientConnection, Clients, max_queued, on_client, begin_subscription,
  unsubscribe, subscription, finish_subscription, deliver, deliver_client, broadcast_job_locally,
  Call, attaches, detaches, begins, finishes, unsubscribes, replays, broadcasts, announces, call,
  run, attach_client, detach_client,
}

-- A subscription's queue stays within its limit, holds messages of its own job only, and is empty
-- once the replay is over.
pub record IsOrderly (job : ℕ) (sub : ClientSubscription) : Type 0 where
  pub bounded : length sub.queued_messages ≤ max_queued
  pub own : All (λ m. job_of m ≡ some job) sub.queued_messages
  pub drained : sub.replaying ≡ false → sub.queued_messages ≡ []

abbrev pub IsTidy : Dict ClientSubscription → Type 0
IsTidy = Entries IsOrderly

-- The same of every subscription of a client.
abbrev pub Tidy : ℕ → ClientConnection → Type 0
Tidy socket c = IsTidy c.subscriptions

pub record IsWell (clients : Clients) : Type 0 where
  pub distinct : Distinct clients
  pub tidy : Entries Tidy clients

-- A job message is broadcast under the job that it names, and device messages name none.
abbrev pub IsAddressed : Call → Type 0
IsAddressed (broadcasts user job m) = job_of m ≡ some job
IsAddressed (announces user m) = job_of m ≡ none
IsAddressed _ = Unit

on_client-IsWell :
    (clients : Clients) (socket : ℕ) (f : Dict ClientSubscription → Dict ClientSubscription)
    → ((subs : Dict ClientSubscription) → IsTidy subs → IsTidy (f subs))
    → IsWell clients
    → IsWell (on_client clients socket f)
unfolding on_client
on_client-IsWell clients socket f keep w = elim (Option-cases (get clients socket)) [
  | inl absent ↦ rw (absent, on_client) w
  | inr (c, found) ↦
      rw (found, on_client)
        (record {
          distinct = Distinct-put clients socket _ w.distinct;
          tidy =
              Entries-put Tidy clients socket _ w.tidy
                (keep c.subscriptions (Entries-get Tidy clients socket c w.tidy found));
        })
]

-- A message leaves the subscription alone, or joins the end of a queue that has room for it.
pub deliver_sub :
    (sockets : Sockets) (socket : ℕ) (sub : ClientSubscription) (m : ServerToClientMessage)
    → ((deliver sockets socket sub m).0 ≡ sub)
      ⊎ ((sub.replaying ≡ true)
          × (length sub.queued_messages < max_queued)
          × ((deliver sockets socket sub m).0
              ≡ record sub { queued_messages = sub.queued_messages ++ m ∷ [] }))
unfolding deliver
deliver_sub sockets socket sub m = ground arith

deliver-IsOrderly :
    (sockets : Sockets) (socket job : ℕ) (sub : ClientSubscription) (m : ServerToClientMessage)
    → job_of m ≡ some job
    → IsOrderly job sub
    → IsOrderly job (deliver sockets socket sub m).0
deliver-IsOrderly sockets socket job sub m e o = elim (deliver_sub sockets socket sub m) [
  | inl same ↦ rw same o
  | inr (replaying, room, grown) ↦ rw grown (record {
    bounded = omega (arith, length-append sub.queued_messages (m ∷ []));
    own = All-append (λ x. job_of x ≡ some job) sub.queued_messages (m ∷ []) o.own (e, tt);
    drained = λ live. absurd (cc);
  })
]

deliver_client-IsTidy :
    (sockets : Sockets) (user job : ℕ) (m : ServerToClientMessage) (socket : ℕ)
    (c : ClientConnection)
    → job_of m ≡ some job
    → IsTidy c.subscriptions
    → IsTidy (deliver_client sockets user job m socket c).0.subscriptions
unfolding deliver_client
deliver_client-IsTidy sockets user job m socket c e t = elim (Bool-cases (c.user_id == user)) [
  | inr other ↦ rw other t
  | inl mine ↦ elim (Option-cases (get c.subscriptions job)) [
    | inl absent ↦ rw (mine, absent, deliver_client) t
    | inr (sub, found) ↦
        rw (mine, found, deliver_client)
          (Entries-put IsOrderly c.subscriptions job _ t (
            deliver-IsOrderly sockets socket job sub m e
              (Entries-get IsOrderly c.subscriptions job sub t found)))
  ]
]

-- A broadcast changes each client by itself.
pub get-broadcast :
    (sockets : Sockets) (user job : ℕ) (m : ServerToClientMessage) (clients : Clients) (socket : ℕ)
    → get (broadcast_job_locally sockets user job m clients).0 socket ≡ elim (get clients socket) [
      | none ↦ none
      | some c ↦ some (deliver_client sockets user job m socket c).0
    ]
unfolding broadcast_job_locally get
get-broadcast sockets user job m [] socket = refl
get-broadcast sockets user job m ((s, c) ∷ rest) socket =
    ground (arith, get-broadcast sockets user job m rest socket)

broadcast-IsWell :
    (sockets : Sockets) (user job : ℕ) (m : ServerToClientMessage) (clients : Clients)
    → job_of m ≡ some job
    → IsWell clients
    → IsWell (broadcast_job_locally sockets user job m clients).0
unfolding broadcast_job_locally
broadcast-IsWell sockets user job m [] e w = w
broadcast-IsWell sockets user job m ((s, c) ∷ rest) e w =
    let t =
      broadcast-IsWell sockets user job m rest e
        (record { distinct = w.distinct.1; tidy = w.tidy.1 }) in
    record {
      distinct = (rw (get-broadcast sockets user job m rest s, w.distinct.0) refl, t.distinct);
      tidy = (deliver_client-IsTidy sockets user job m s c e w.tidy.0, t.tidy);
    }

finish-IsWell :
    (sockets : Sockets) (clients : Clients) (socket job : ℕ)
    → IsWell clients
    → IsWell (finish_subscription sockets clients socket job).0
unfolding finish_subscription
finish-IsWell sockets clients socket job w = elim (Option-cases (subscription clients socket job)) [
  | inl absent ↦ rw (absent, finish_subscription) w
  | inr (sub, found) ↦
      rw (found, finish_subscription)
        (on_client-IsWell clients socket _
          (λ subs t. Entries-put IsOrderly subs job _ t (ground arith)) w)
]

-- Every call keeps the viewers well: one client to a socket, and each subscription's queue within
-- 1000 messages, of its own job, and empty once the replay is over.
pub call-IsWell :
    (sockets : Sockets) (clients : Clients) (e : Call)
    → IsAddressed e
    → IsWell clients
    → IsWell (call sockets clients e).0
unfolding call attach_client detach_client begin_subscription unsubscribe
call-IsWell sockets clients (attaches user socket) a w = record {
  distinct = Distinct-put clients socket _ w.distinct;
  tidy = Entries-put Tidy clients socket _ w.tidy tt;
}
call-IsWell sockets clients (detaches socket) a w = record {
  distinct = Distinct-delete clients socket w.distinct;
  tidy = Entries-delete Tidy clients socket w.tidy;
}
call-IsWell sockets clients (begins socket job) a w =
    on_client-IsWell clients socket _ (λ subs t. Entries-put IsOrderly subs job _ t (ground arith))
      w
call-IsWell sockets clients (finishes socket job) a w = finish-IsWell sockets clients socket job w
call-IsWell sockets clients (unsubscribes socket job) a w =
    on_client-IsWell clients socket _ (λ subs t. Entries-delete IsOrderly subs job t) w
call-IsWell sockets clients (replays socket m) a w = w
call-IsWell sockets clients (broadcasts user job m) a w =
    broadcast-IsWell sockets user job m clients a w
call-IsWell sockets clients (announces user m) a w = w

pub subscription-IsOrderly :
    (clients : Clients) (socket job : ℕ) (sub : ClientSubscription)
    → IsWell clients
    → subscription clients socket job ≡ some sub
    → IsOrderly job sub
unfolding subscription
subscription-IsOrderly clients socket job sub w e = elim (Option-cases (get clients socket)) [
  | inl absent ↦ absurd (ground arith)
  | inr (c, found) ↦
      Entries-get IsOrderly c.subscriptions job sub (Entries-get Tidy clients socket c w.tidy found)
        (ground arith)
]

-- Any history of addressed calls keeps the viewers well.
pub run-IsWell :
    (clients : Clients) (es : List (Sockets × Call))
    → All (λ e. IsAddressed e.1) es
    → IsWell clients
    → IsWell (run clients es).0
unfolding run
run-IsWell clients [] a w = w
run-IsWell clients ((sockets, e) ∷ es) a w =
    run-IsWell (call sockets clients e).0 es a.1 (call-IsWell sockets clients e a.0 w)
