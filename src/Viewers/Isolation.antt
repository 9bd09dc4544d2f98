-- ===== src/Viewers/Isolation.antt =====
-- Whom a broadcast may touch.
use relaydock.Prelude.{
  ℕ, some, [], ◌∷◌, ◌≡◌, get, Entries, All, All-append, All-if, leb, ltb, length, ◌==◌, Bool-cases,
  inl, inr, Option-cases, ==_iff, Entries-found,
}
use relaydock.Protocol.{ServerToClientMessage}
use relaydock.Viewers.{
  Sockets, Effect, sends, closes, ClientSubscription, ClientConnection, Clients, send, deliver,
  max_queued, open_state, max_client_send_backlog_bytes, deliver_client, broadcast_job_locally,
  broadcast_device_locally,
}
use relaydock.Viewers.Invariant.{IsWell}

abbrev pub target : Effect → ℕ
target (sends socket m) = socket
target (closes socket code reason) = socket

-- The client attached on `socket` is the user's.
pub record IsOwn (clients : Clients) (user socket : ℕ) : Type 0 where
  pub client : ClientConnection
  pub attached : get clients socket ≡ some client
  pub owner : client.user_id ≡ user

-- The client attached on `socket` is the user's and has subscribed to the job.
pub record IsEntitled (clients : Clients) (user job socket : ℕ) : Type 0 where
  pub client : ClientConnection
  pub attached : get clients socket ≡ some client
  pub owner : client.user_id ≡ user
  pub sub : ClientSubscription
  pub subscribed : get client.subscriptions job ≡ some sub

deliver_to :
    (P : ℕ → Type 0) (sockets : Sockets) (s : ℕ) (sub : ClientSubscription)
    (m : ServerToClientMessage)
    → P s
    → All (λ e. P (target e)) (deliver sockets s sub m).1
unfolding deliver send
deliver_to P sockets s sub m p = elim (Bool-cases sub.replaying) [
  | inl replaying ↦ elim (Bool-cases (leb max_queued (length sub.queued_messages))) [
    | inl full ↦ rw (replaying, full, deliver) (p, tt)
    | inr room ↦ rw (replaying, room, deliver) tt
  ]
  | inr live ↦
      rw (live, deliver)
        (All-if (λ e. P (target e)) (ltb max_client_send_backlog_bytes (sockets.buffered_amount s))
          _ _ (All-if (λ e. P (target e)) (sockets.ready_state s == open_state) _ _ (p, tt) tt)
          (All-if (λ e. P (target e)) (sockets.ready_state s == open_state) _ _ (p, tt) tt))
]

module _ (clients : Clients) (user job : ℕ) where
  deliver_client-IsEntitled :
      (sockets : Sockets) (m : ServerToClientMessage) (s : ℕ) (c : ClientConnection)
      → get clients s ≡ some c
      → All (λ e. IsEntitled clients user job (target e)) (deliver_client sockets user job m s c).1
  unfolding deliver_client
  deliver_client-IsEntitled sockets m s c found = elim (Bool-cases (c.user_id == user)) [
    | inr other ↦ rw other tt
    | inl mine ↦ elim (Option-cases (get c.subscriptions job)) [
      | inl absent ↦ rw (mine, absent, deliver_client) tt
      | inr (sub, subscribed) ↦
          rw (mine, subscribed, deliver_client)
            (deliver_to (λ e. IsEntitled clients user job e) sockets s sub m
              (record {
                client = c;
                attached = found;
                owner = (==_iff _ _).0 mine;
                sub = sub;
                subscribed = subscribed;
              }))
    ]
  ]

  broadcast-IsEntitled :
      (sockets : Sockets) (m : ServerToClientMessage) (entries : Clients)
      → Entries (λ s c. get clients s ≡ some c) entries
      → All
          (λ e. IsEntitled clients user job (target e))
          (broadcast_job_locally sockets user job m entries).1
  unfolding broadcast_job_locally
  broadcast-IsEntitled sockets m [] h = tt
  broadcast-IsEntitled sockets m ((s, c) ∷ rest) h =
      All-append (λ e. IsEntitled clients user job (target e)) _ _
        (deliver_client-IsEntitled sockets m s c h.0) (broadcast-IsEntitled sockets m rest h.1)

  broadcast-IsOwn :
      (sockets : Sockets) (m : ServerToClientMessage) (entries : Clients)
      → Entries (λ s c. get clients s ≡ some c) entries
      → All (λ e. IsOwn clients user (target e)) (broadcast_device_locally sockets user m entries)
  unfolding broadcast_device_locally send
  broadcast-IsOwn sockets m [] h = tt
  broadcast-IsOwn sockets m ((s, c) ∷ rest) h =
      All-append (λ e. IsOwn clients user (target e)) _ _
        (elim (Bool-cases (c.user_id == user)) [
          | inr other ↦ rw other tt
          | inl mine ↦ rw mine (
              All-if (λ e. IsOwn clients user (target e)) (sockets.ready_state s == open_state) _ _
                (record { client = c; attached = h.0; owner = (==_iff _ _).0 mine }, tt) tt)
        ])
        (broadcast-IsOwn sockets m rest h.1)

-- Among well-formed clients, a job message reaches, or closes, only sockets on which its user is attached and has subscribed
-- to the job; a device message reaches only sockets of its user.
pub broadcast_isolated :
    (sockets : Sockets) (user job : ℕ) (m : ServerToClientMessage) (clients : Clients)
    → IsWell clients
    → All
        (λ e. IsEntitled clients user job (target e))
        (broadcast_job_locally sockets user job m clients).1
      × All (λ e. IsOwn clients user (target e)) (broadcast_device_locally sockets user m clients)
broadcast_isolated sockets user job m clients w =
    let found = Entries-found clients w.distinct in
    (
      broadcast-IsEntitled clients user job sockets m clients found,
      broadcast-IsOwn clients user job sockets m clients found,
    )
