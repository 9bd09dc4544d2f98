-- ===== src/Viewers/Frames.antt =====
-- What one viewer is sent of one job, read off the effects of each call.
use relaydock.Prelude.{
  ℕ, Bool, false, ◌&&◌, Option, none, some, List, [], ◌∷◌, ◌++◌, ◌≡◌, refl, arith, get, Distinct,
  All, ◌==◌, if◌then◌else◌, append-nil,
}
use relaydock.Protocol.{ServerToClientMessage, job_of}
use relaydock.Viewers.{
  Sockets, Effect, sends, closes, ClientConnection, Clients, open_state, send, send_all, deliver,
  deliver_client, broadcast_job_locally, broadcast_device_locally,
}

abbrev pub is_job : ℕ → Option ℕ → Bool
is_job job none = false
is_job job (some k) = k == job

-- The messages about `job` that are sent on `socket`, in order.
unfoldable pub frames : (socket job : ℕ) → List Effect → List ServerToClientMessage
frames socket job [] = []
frames socket job (closes s code reason ∷ es) = frames socket job es
frames socket job (sends s m ∷ es) =
    if s == socket && is_job job (job_of m) then m ∷ frames socket job es else frames socket job es

module _ (socket job : ℕ) where
  pub frames-append :
      (xs ys : List Effect)
      → frames socket job (xs ++ ys) ≡ frames socket job xs ++ frames socket job ys
  unfolding frames
  frames-append [] ys = refl
  frames-append (closes s code reason ∷ xs) ys = frames-append xs ys
  frames-append (sends s m ∷ xs) ys = ground (arith, frames-append xs ys)

  pub frames-send :
      (sockets : Sockets) (s : ℕ) (m : ServerToClientMessage)
      → sockets.ready_state socket ≡ open_state
      → frames socket job (send sockets s m)
        ≡ (if s == socket && is_job job (job_of m) then m ∷ [] else [])
  unfolding frames send
  frames-send sockets s m o = ground arith

  pub frames-send_all :
      (sockets : Sockets) (s k : ℕ) (ms : List ServerToClientMessage)
      → All (λ m. job_of m ≡ some k) ms
      → sockets.ready_state socket ≡ open_state
      → frames socket job (send_all sockets s ms) ≡ (if s == socket && k == job then ms else [])
  unfolding send_all frames
  frames-send_all sockets s k [] h o = ground arith
  frames-send_all sockets s k (m ∷ ms) h o =
      rw
        (
          frames-append (send sockets s m) (send_all sockets s ms),
          frames-send sockets s m o,
          frames-send_all sockets s k ms h.1 o,
          h.0,
        )
        (ground arith)

  pub frames-broadcast_device :
      (sockets : Sockets) (user : ℕ) (m : ServerToClientMessage) (clients : Clients)
      → job_of m ≡ none
      → frames socket job (broadcast_device_locally sockets user m clients) ≡ []
  unfolding broadcast_device_locally frames send
  frames-broadcast_device sockets user m [] e = refl
  frames-broadcast_device sockets user m ((s, c) ∷ rest) e =
      rw (frames-append (if c.user_id == user then send sockets s m else []) _)
        (ground (arith, frames-broadcast_device sockets user m rest e))

  -- A client whose socket is another, or a message about another job, gives no frame.
  frames-deliver_client_off :
      (sockets : Sockets) (user k s : ℕ) (m : ServerToClientMessage) (c : ClientConnection)
      → (s == socket && is_job job (job_of m)) ≡ false
      → frames socket job (deliver_client sockets user k m s c).1 ≡ []
  unfolding deliver_client deliver send frames
  frames-deliver_client_off sockets user k s m c off = ground arith

  pub frames-broadcast :
      (sockets : Sockets) (user k : ℕ) (m : ServerToClientMessage) (clients : Clients)
      → Distinct clients
      → frames socket job (broadcast_job_locally sockets user k m clients).1
        ≡ elim (get clients socket) [
          | none ↦ []
          | some c ↦ frames socket job (deliver_client sockets user k m socket c).1
        ]
  unfolding broadcast_job_locally get frames
  frames-broadcast sockets user k m [] d = refl
  frames-broadcast sockets user k m ((s, c) ∷ rest) d =
      rw (frames-append (deliver_client sockets user k m s c).1 _) (
        ground (
          arith,
          frames-broadcast sockets user k m rest d.1,
          frames-deliver_client_off sockets user k s m c,
          append-nil (frames socket job (deliver_client sockets user k m socket c).1),
        ))
