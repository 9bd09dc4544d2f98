-- ===== src/Viewers/Watching.antt =====
-- What a viewer's subscription receives from one call and from a run of calls.
use relaydock.Prelude.{
  ℕ, ◌+◌, ◌≤◌, Bool, true, false, ◌&&◌, none, some, List, [], ◌∷◌, ◌++◌, ◌≡◌, refl, arith, get,
  get-put, get-delete, All, ◌==◌, if◌then◌else◌, inl, inr, append-nil, append_assoc, Option-cases,
  length, length-append, Dict,
}
use relaydock.Protocol.{ServerToClientMessage, job_of}
use relaydock.Viewers.{
  Sockets, ClientSubscription, ClientConnection, Clients, open_state, max_queued,
  max_client_send_backlog_bytes, attach_client, detach_client, on_client, begin_subscription,
  unsubscribe, subscription, send, finish_subscription, deliver, deliver_client, Call, attaches,
  detaches, begins, finishes, unsubscribes, replays, broadcasts, announces, call, run,
}
use relaydock.Viewers.Invariant.{
  IsWell, IsAddressed, call-IsWell, subscription-IsOrderly, get-broadcast,
}
use relaydock.Viewers.Frames.{
  is_job, frames, frames-append, frames-send, frames-send_all, frames-broadcast_device,
  frames-broadcast,
}

-- The client on `socket` is `user`'s, and `sub` is its subscription to `job`.
pub record Watches (clients : Clients) (user socket job : ℕ) (sub : ClientSubscription)
    : Type 0 where
  pub client : ClientConnection
  pub attached : get clients socket ≡ some client
  pub owner : client.user_id ≡ user
  pub subscribed : get client.subscriptions job ≡ some sub

pub get-on_client :
    (clients : Clients) (s t : ℕ) (f : Dict ClientSubscription → Dict ClientSubscription)
    → get (on_client clients s f) t ≡ elim (get clients t) [
      | none ↦ none
      | some c ↦ some (if s == t then record c { subscriptions = f c.subscriptions } else c)
    ]
unfolding on_client
get-on_client clients s t f = elim (Option-cases (get clients s)) [
  | inl absent ↦ rw (absent, on_client) (ground arith)
  | inr (c, found) ↦ rw (found, on_client) (rw get-put (ground arith))
]

module _ (user socket job : ℕ) where
  -- The frame that the route itself writes, and the message that the hub fans out to the viewer.
  abbrev pub direct : Call → List ServerToClientMessage
  direct (replays s m) = if s == socket && is_job job (job_of m) then m ∷ [] else []
  direct _ = []

  abbrev pub streamed : Call → List ServerToClientMessage
  streamed (broadcasts u k m) = if u == user && k == job then m ∷ [] else []
  streamed _ = []

  -- A call that leaves the viewer and its subscription to the job in place.
  abbrev pub IsCalm : Call → Type 0
  IsCalm (attaches u s) = (s == socket) ≡ false
  IsCalm (detaches s) = (s == socket) ≡ false
  IsCalm (begins s k) = (s == socket && k == job) ≡ false
  IsCalm (finishes s k) = (s == socket && k == job) ≡ false
  IsCalm (unsubscribes s k) = (s == socket && k == job) ≡ false
  IsCalm _ = Unit

  -- The socket is open and has not fallen behind.
  abbrev pub IsReady : Sockets → Type 0
  IsReady sockets =
      (sockets.ready_state socket ≡ open_state)
      × (sockets.buffered_amount socket ≤ max_client_send_backlog_bytes)

  abbrev after : ClientSubscription → List ServerToClientMessage → ClientSubscription
  after sub ms =
      if sub.replaying then record sub { queued_messages = sub.queued_messages ++ ms } else sub

  after-nil : (sub : ClientSubscription) → after sub [] ≡ sub
  after-nil sub = ground (arith, append-nil sub.queued_messages)

  deliver-Watches :
      (sockets : Sockets) (u k : ℕ) (m : ServerToClientMessage) (c : ClientConnection)
      (sub : ClientSubscription)
      → c.user_id ≡ user
      → get c.subscriptions job ≡ some sub
      → (sub.replaying ≡ true
          → length sub.queued_messages + length (streamed (broadcasts u k m)) ≤ max_queued)
      → (get (deliver_client sockets u k m socket c).0.subscriptions job
          ≡ some (after sub (streamed (broadcasts u k m))))
        × ((deliver_client sockets u k m socket c).0.user_id ≡ user)
  unfolding deliver_client deliver
  deliver-Watches sockets u k m c sub o s room = elim (Option-cases (get c.subscriptions k)) [
    | inl absent ↦ ground (arith, after-nil sub)
    | inr (other, found) ↦
        ground
          (arith, after-nil sub, get-put c.subscriptions k job (deliver sockets socket other m).0)
  ]

  deliver-frames :
      (sockets : Sockets) (u k : ℕ) (m : ServerToClientMessage) (c : ClientConnection)
      (sub : ClientSubscription)
      → c.user_id ≡ user
      → get c.subscriptions job ≡ some sub
      → (sub.replaying ≡ true
          → length sub.queued_messages + length (streamed (broadcasts u k m)) ≤ max_queued)
      → job_of m ≡ some k
      → IsReady sockets
      → frames socket job (deliver_client sockets u k m socket c).1
        ≡ (if sub.replaying then [] else streamed (broadcasts u k m))
  unfolding deliver_client deliver send frames
  deliver-frames sockets u k m c sub o s room e ready = ground arith

  pub finish-frames :
      (sockets : Sockets) (clients : Clients) (s k : ℕ)
      → IsWell clients
      → IsReady sockets
      → frames socket job (finish_subscription sockets clients s k).1
        ≡ elim (subscription clients s k) [
          | none ↦ []
          | some found ↦ if s == socket && k == job then found.queued_messages else []
        ]
  unfolding finish_subscription frames
  finish-frames sockets clients s k well ready = elim (Option-cases (subscription clients s k)) [
    | inl absent ↦ rw (absent, finish_subscription) refl
    | inr (found, e) ↦
        rw (e, finish_subscription)
          (frames-send_all socket job sockets s k found.queued_messages
            (subscription-IsOrderly clients s k found well e).own ready.0)
  ]

  module _ {clients : Clients} {sub : ClientSubscription}
      (w : Watches clients user socket job sub) where
    pub on_client-Watches :
        (s : ℕ) (f : Dict ClientSubscription → Dict ClientSubscription) (sub' : ClientSubscription)
        → get (if s == socket then f w.client.subscriptions else w.client.subscriptions) job
          ≡ some sub'
        → Watches (on_client clients s f) user socket job sub'
    on_client-Watches s f sub' kept = record {
      client =
          if s == socket
          then record w.client { subscriptions = f w.client.subscriptions }
          else w.client;
      attached = rw (get-on_client clients s socket f, w.attached) refl;
      owner = ground (arith, w.owner);
      subscribed = ground (arith, kept);
    }

    call-Watches :
        (sockets : Sockets) (e : Call)
        → IsCalm e
        → (sub.replaying ≡ true → length sub.queued_messages + length (streamed e) ≤ max_queued)
        → Watches (call sockets clients e).0 user socket job (after sub (streamed e))
    unfolding call attach_client detach_client begin_subscription unsubscribe finish_subscription
    call-Watches sockets (attaches u s) calm room = rw (after-nil sub) (record {
      client = w.client;
      attached = rw (get-put, calm) w.attached;
      owner = w.owner;
      subscribed = w.subscribed;
    })
    call-Watches sockets (detaches s) calm room = rw (after-nil sub) (record {
      client = w.client;
      attached = rw (get-delete, calm) w.attached;
      owner = w.owner;
      subscribed = w.subscribed;
    })
    call-Watches sockets (begins s k) calm room = rw (after-nil sub) (
        on_client-Watches s _ sub (
          ground (
            arith,
            w.subscribed,
            get-put w.client.subscriptions k job
                (record { replaying = true; queued_messages = [] }),
          )))
    call-Watches sockets (finishes s k) calm room = elim (Option-cases (subscription clients s k)) [
      | inl absent ↦ rw (absent, finish_subscription, after-nil sub) w
      | inr (found, e) ↦
          rw (e, finish_subscription, after-nil sub)
            (on_client-Watches s _ sub (
              ground (
                arith,
                w.subscribed,
                get-put w.client.subscriptions k job
                    (record { replaying = false; queued_messages = [] }),
              )))
    ]
    call-Watches sockets (unsubscribes s k) calm room = rw (after-nil sub) (
        on_client-Watches s _ sub
          (ground (arith, w.subscribed, get-delete w.client.subscriptions k job)))
    call-Watches sockets (replays s m) calm room = rw (after-nil sub) w
    call-Watches sockets (broadcasts u k m) calm room =
        let (kept, owner) = deliver-Watches sockets u k m w.client sub w.owner w.subscribed room in
        record {
          client = (deliver_client sockets u k m socket w.client).0;
          attached = rw (get-broadcast sockets u k m clients socket, w.attached) refl;
          owner = owner;
          subscribed = kept;
        }
    call-Watches sockets (announces u m) calm room = rw (after-nil sub) w

    call-frames :
        (sockets : Sockets) (e : Call)
        → IsCalm e
        → IsAddressed e
        → IsWell clients
        → IsReady sockets
        → (sub.replaying ≡ true → length sub.queued_messages + length (streamed e) ≤ max_queued)
        → frames socket job (call sockets clients e).1
          ≡ direct e ++ (if sub.replaying then [] else streamed e)
    unfolding call frames
    call-frames sockets (attaches u s) calm a well ready room = ground arith
    call-frames sockets (detaches s) calm a well ready room = ground arith
    call-frames sockets (begins s k) calm a well ready room = ground arith
    call-frames sockets (finishes s k) calm a well ready room =
        rw (finish-frames sockets clients s k well ready) (ground arith)
    call-frames sockets (unsubscribes s k) calm a well ready room = ground arith
    call-frames sockets (replays s m) calm a well ready room =
        rw (frames-send socket job sockets s m ready.0)
          (ground (arith, append-nil (direct (replays s m))))
    call-frames sockets (broadcasts u k m) calm a well ready room =
        rw (frames-broadcast socket job sockets u k m clients well.distinct, w.attached)
          (deliver-frames sockets u k m w.client sub w.owner w.subscribed room a ready)
    call-frames sockets (announces u m) calm a well ready room =
        rw (frames-broadcast_device socket job sockets u m clients a) (ground arith)

  -- The frames of a history: what the route writes, and, once live, what the hub fans out.
  abbrev pub expected : Bool → List (Sockets × Call) → List ServerToClientMessage
  expected replaying [] = []
  expected replaying ((sockets, e) ∷ es) =
      (direct e ++ (if replaying then [] else streamed e)) ++ expected replaying es

  abbrev pub all_streamed : List (Sockets × Call) → List ServerToClientMessage
  all_streamed [] = []
  all_streamed ((sockets, e) ∷ es) = streamed e ++ all_streamed es

  -- Each call of a history is calm and addressed, and the socket is ready at it.
  abbrev pub AreGood : List (Sockets × Call) → Type 0
  AreGood = All (λ e. IsReady e.0 × IsCalm e.1 × IsAddressed e.1)

  after-after :
      (sub : ClientSubscription) (xs ys : List ServerToClientMessage)
      → after (after sub xs) ys ≡ after sub (xs ++ ys)
  after-after sub xs ys = ground (arith, append_assoc sub.queued_messages xs ys)

  pub run-Watches :
      (clients : Clients) (sub : ClientSubscription) (es : List (Sockets × Call))
      → AreGood es
      → IsWell clients
      → (sub.replaying ≡ true → length sub.queued_messages + length (all_streamed es) ≤ max_queued)
      → Watches clients user socket job sub
      → Watches (run clients es).0 user socket job (after sub (all_streamed es))
        × (frames socket job (run clients es).1 ≡ expected sub.replaying es)
  unfolding run frames
  run-Watches clients sub [] g well room w = (rw (after-nil sub) w, refl)
  run-Watches clients sub ((sockets, e) ∷ es) g well room w =
      let ((ready, calm, addressed), rest) = g in
      let split = length-append (streamed e) (all_streamed es) in
      let longer = length-append sub.queued_messages (streamed e) in
      let now : sub.replaying ≡ true
          → length sub.queued_messages + length (streamed e) ≤ max_queued =
        λ r. omega (arith, room r, split) in
      let (watches, later) =
        run-Watches (call sockets clients e).0 (after sub (streamed e)) es rest
          (call-IsWell sockets clients e addressed well) (ground (arith, split, longer))
          (call-Watches w sockets e calm now) in
      (
        rw (← after-after sub (streamed e) (all_streamed es)) watches,
        rw
            (
              frames-append socket job (call sockets clients e).1 _,
              call-frames w sockets e calm addressed well ready now,
              later,
            )
            (ground arith),
      )
