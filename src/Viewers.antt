-- ===== src/Viewers.antt =====
-- The viewers' half of `ConnectionHub` (apps/server/src/services/connections.ts): attached browser
-- sockets, their subscriptions, and the fan-out of job and device messages inside one instance.
-- What a socket answers for `readyState` and `bufferedAmount` is an argument of each call; the
-- calls that are made on sockets are returned as a list of effects.
pub mod Invariant
pub mod Frames
pub mod Watching
pub mod Delivery
pub mod Isolation
use relaydock.Prelude.{
  ℕ, String, Bool, true, false, not, ◌*◌, Option, none, some, List, [], ◌∷◌, ◌++◌, Dict, get, put,
  delete, ltb, leb, ◌==◌, if◌then◌else◌, length,
}
use relaydock.Protocol.{ServerToClientMessage}

-- What the sockets report, by socket.
pub record Sockets : Type 0 where
  pub ready_state : ℕ → ℕ
  pub buffered_amount : ℕ → ℕ

pub data Effect : Type 0 where
  sends : (socket : ℕ) → ServerToClientMessage → Effect
  closes : (socket code : ℕ) (reason : String) → Effect

pub record ClientSubscription : Type 0 where
  pub replaying : Bool
  pub queued_messages : List ServerToClientMessage

pub record ClientConnection : Type 0 where
  pub user_id : ℕ
  pub subscriptions : Dict ClientSubscription

-- The field `clients`, by socket.
abbrev pub Clients : Type 0
Clients = Dict ClientConnection

abbrev pub open_state : ℕ
open_state = 1

abbrev pub max_client_send_backlog_bytes : ℕ
max_client_send_backlog_bytes = 8 * 1024 * 1024

abbrev pub max_queued : ℕ
max_queued = 1000

unfoldable pub attach_client : Clients → (user socket : ℕ) → Clients
attach_client clients user socket =
    put clients socket (record { user_id = user; subscriptions = [] })

unfoldable pub detach_client : Clients → (socket : ℕ) → Clients
detach_client clients socket = delete clients socket

-- `this.clients.get(socket)?.…`: a change of the client's subscriptions, if it is attached.
unfoldable pub on_client :
    Clients → (socket : ℕ) → (Dict ClientSubscription → Dict ClientSubscription) → Clients
on_client clients socket f = elim (get clients socket) [
  | none ↦ clients
  | some c ↦ put clients socket (record c { subscriptions = f c.subscriptions })
]

unfoldable pub begin_subscription : Clients → (socket job : ℕ) → Clients
unfolding on_client
begin_subscription clients socket job =
    on_client clients socket
      λ subs. put subs job (record { replaying = true; queued_messages = [] })

unfoldable pub unsubscribe : Clients → (socket job : ℕ) → Clients
unfolding on_client
unsubscribe clients socket job = on_client clients socket λ subs. delete subs job

-- `this.clients.get(socket)?.subscriptions.get(jobId)`
unfoldable pub subscription : Clients → (socket job : ℕ) → Option ClientSubscription
subscription clients socket job = elim (get clients socket) [
  | none ↦ none
  | some c ↦ get c.subscriptions job
]

-- `send`, and `sendClient` of the routes: nothing leaves on a socket that is not open.
unfoldable pub send : Sockets → (socket : ℕ) → ServerToClientMessage → List Effect
send sockets socket message =
    if sockets.ready_state socket == open_state then sends socket message ∷ [] else []

unfoldable pub send_all : Sockets → (socket : ℕ) → List ServerToClientMessage → List Effect
unfolding send
send_all sockets socket [] = []
send_all sockets socket (m ∷ ms) = send sockets socket m ++ send_all sockets socket ms

unfoldable pub finish_subscription : Sockets → Clients → (socket job : ℕ) → Clients × List Effect
unfolding on_client subscription send_all
finish_subscription sockets clients socket job = elim (subscription clients socket job) [
  | none ↦ (clients, [])
  | some sub ↦ (
    on_client clients socket
        (λ subs. put subs job (record { replaying = false; queued_messages = [] })),
    send_all sockets socket sub.queued_messages,
  )
]

-- One turn of the loop of `broadcastJobLocally`, at a client that has subscribed to the job.
unfoldable pub deliver :
    Sockets
    → (socket : ℕ) → ClientSubscription
    → ServerToClientMessage
    → ClientSubscription × List Effect
unfolding send
deliver sockets socket sub message =
    if not sub.replaying
    then (
      sub,
      if ltb max_client_send_backlog_bytes (sockets.buffered_amount socket)
          then (if sockets.ready_state socket == open_state
              then closes socket 1013 "viewer fell behind; reconnect to catch up" ∷ []
              else [])
          else send sockets socket message,
    )
    else if leb max_queued (length sub.queued_messages)
    then (sub, closes socket 1013 "output arrived faster than replay" ∷ [])
    else (record sub { queued_messages = sub.queued_messages ++ message ∷ [] }, [])

-- The same turn with the loop's two `continue`s.
unfoldable pub deliver_client :
    Sockets
    → (user job : ℕ) → ServerToClientMessage
    → (socket : ℕ) → ClientConnection
    → ClientConnection × List Effect
unfolding deliver
deliver_client sockets user job message socket c =
    if not (c.user_id == user) then (c, []) else elim (get c.subscriptions job) [
      | none ↦ (c, [])
      | some sub ↦
          let (sub', out) = deliver sockets socket sub message in
          (record c { subscriptions = put c.subscriptions job sub' }, out)
    ]

unfoldable pub broadcast_job_locally :
    Sockets → (user job : ℕ) → ServerToClientMessage → Clients → Clients × List Effect
broadcast_job_locally sockets user job message [] = ([], [])
broadcast_job_locally sockets user job message ((socket, c) ∷ rest) =
    let (c', out) = deliver_client sockets user job message socket c in
    let (rest', out') = broadcast_job_locally sockets user job message rest in
    ((socket, c') ∷ rest', out ++ out')

unfoldable pub broadcast_device_locally :
    Sockets → (user : ℕ) → ServerToClientMessage → Clients → List Effect
unfolding send
broadcast_device_locally sockets user message [] = []
broadcast_device_locally sockets user message ((socket, c) ∷ rest) =
    (if c.user_id == user then send sockets socket message else [])
    ++ broadcast_device_locally sockets user message rest

-- What the server does to its viewers, one call at a time.
pub data Call : Type 0 where
  attaches : (user socket : ℕ) → Call
  detaches : (socket : ℕ) → Call
  begins : (socket job : ℕ) → Call
  finishes : (socket job : ℕ) → Call
  unsubscribes : (socket job : ℕ) → Call
  replays : (socket : ℕ) → ServerToClientMessage → Call
  broadcasts : (user job : ℕ) → ServerToClientMessage → Call
  announces : (user : ℕ) → ServerToClientMessage → Call

unfoldable pub call : Sockets → Clients → Call → Clients × List Effect
call sockets clients (attaches user socket) = (attach_client clients user socket, [])
call sockets clients (detaches socket) = (detach_client clients socket, [])
call sockets clients (begins socket job) = (begin_subscription clients socket job, [])
call sockets clients (finishes socket job) = finish_subscription sockets clients socket job
call sockets clients (unsubscribes socket job) = (unsubscribe clients socket job, [])
call sockets clients (replays socket message) = (clients, send sockets socket message)
call sockets clients (broadcasts user job message) =
    broadcast_job_locally sockets user job message clients
call sockets clients (announces user message) =
    (clients, broadcast_device_locally sockets user message clients)

-- A history: each call with what the sockets report at that moment.
unfoldable pub run : Clients → List (Sockets × Call) → Clients × List Effect
run clients [] = (clients, [])
run clients ((sockets, e) ∷ rest) =
    let (clients', out) = call sockets clients e in
    let (last, out') = run clients' rest in (last, out ++ out')
