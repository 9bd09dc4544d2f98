-- ===== src/Viewers/Delivery.antt =====
-- A viewer's stream across a replay: what is replayed and what is broadcast meanwhile.
use relaydock.Prelude.{
  ℕ, ◌≤◌, true, false, some, List, [], ◌∷◌, ◌++◌, ◌≡◌, refl, ap, arith, get, get-put, All,
  append_assoc, length, put, ==_refl,
}
use relaydock.Viewers.{
  Sockets, ClientSubscription, ClientConnection, Clients, max_queued, begin_subscription,
  subscription, finish_subscription, Call, begins, finishes, call, run,
}
use relaydock.Viewers.Invariant.{IsWell, IsAddressed, call-IsWell, run-IsWell}
use relaydock.Viewers.Frames.{frames, frames-append}
use relaydock.Viewers.Watching.{
  Watches, on_client-Watches, get-on_client, IsReady, finish-frames, expected, all_streamed,
  AreGood, run-Watches,
}

frames-run_append :
    (socket job : ℕ) (clients : Clients) (es fs : List (Sockets × Call))
    → frames socket job (run clients (es ++ fs)).1
      ≡ frames socket job (run clients es).1 ++ frames socket job (run (run clients es).0 fs).1
unfolding run frames
frames-run_append socket job clients [] fs = refl
frames-run_append socket job clients ((sockets, e) ∷ es) fs =
    rw
      (
        frames-append socket job (call sockets clients e).1 _,
        frames-append socket job (call sockets clients e).1 (run (call sockets clients e).0 es).1,
        frames-run_append socket job (call sockets clients e).0 es fs,
      )
      (ground (
        arith,
        append_assoc (frames socket job (call sockets clients e).1)
            (frames socket job (run (call sockets clients e).0 es).1)
            (frames socket job (run (run (call sockets clients e).0 es).0 fs).1),
      ))

module _ (user socket job : ℕ) where
  begins-Watches :
      (clients : Clients) (c : ClientConnection)
      → get clients socket ≡ some c
      → c.user_id ≡ user
      → Watches
          (begin_subscription clients socket job)
          user
          socket
          job
          (record { replaying = true; queued_messages = [] })
  unfolding begin_subscription
  begins-Watches clients c found owner = record {
    client = record c {
      subscriptions = put c.subscriptions job (record { replaying = true; queued_messages = [] });
    };
    attached = rw (get-on_client clients socket socket, found, ==_refl socket) refl;
    owner = owner;
    subscribed = rw (get-put, ==_refl job) refl;
  }

  finishes-Watches :
      (sockets : Sockets) (clients : Clients) (sub : ClientSubscription)
      → Watches clients user socket job sub
      → Watches
          (finish_subscription sockets clients socket job).0
          user
          socket
          job
          (record { replaying = false; queued_messages = [] })
  unfolding finish_subscription subscription
  finishes-Watches sockets clients sub w =
      rw (w.attached, w.subscribed, finish_subscription)
        (on_client-Watches user socket job w socket _ _
          (rw (==_refl socket, get-put, ==_refl job) refl))

  Watches-subscription :
      {clients : Clients} {sub : ClientSubscription}
      → Watches clients user socket job sub
      → subscription clients socket job ≡ some sub
  unfolding subscription
  Watches-subscription w = rw (w.attached, subscription) w.subscribed

  AreGood-IsAddressed :
      (es : List (Sockets × Call)) → AreGood user socket job es → All (λ e. IsAddressed e.1) es
  AreGood-IsAddressed [] g = tt
  AreGood-IsAddressed (e ∷ es) g = (g.0.2, AreGood-IsAddressed es g.1)

  -- A viewer among well-formed clients that subscribes, while it stays attached and subscribed, its
  -- socket stays open and keeps up, and all calls are addressed, is sent of the job: what
  -- the route replays, then everything that was broadcast since the subscription began (at most
  -- 1000 messages before it is finished), each once and in order, then the live messages.
  pub catch_up :
      (clients : Clients) (c : ClientConnection) (k₀ k₁ : Sockets) (es fs : List (Sockets × Call))
      → get clients socket ≡ some c
      → c.user_id ≡ user
      → IsWell clients
      → AreGood user socket job es
      → IsReady user socket job k₁
      → AreGood user socket job fs
      → length (all_streamed user socket job es) ≤ max_queued
      → frames socket job
          (run clients ((k₀, begins socket job) ∷ es ++ (k₁, finishes socket job) ∷ fs)).1
        ≡ expected user socket job true es
          ++ (all_streamed user socket job es ++ expected user socket job false fs)
  unfolding run call
  catch_up clients c k₀ k₁ es fs found owner well g ready g' room =
      let fresh : ClientSubscription = record { replaying = true; queued_messages = [] } in
      let begun = begin_subscription clients socket job in
      let well₁ : IsWell begun = call-IsWell k₀ clients (begins socket job) tt well in
      let (watches, replayed) =
        run-Watches user socket job begun fresh es g well₁ (λ r. omega arith)
          (begins-Watches clients c found owner) in
      let middle = (run begun es).0 in
      let well₂ = run-IsWell begun es (AreGood-IsAddressed es g) well₁ in
      let (_, live) =
        run-Watches user socket job (finish_subscription k₁ middle socket job).0
          (record { replaying = false; queued_messages = [] }) fs g'
          (call-IsWell k₁ middle (finishes socket job) tt well₂) (λ r. absurd (cc))
          (finishes-Watches k₁ middle _ watches) in
      rw (frames-run_append socket job begun es ((k₁, finishes socket job) ∷ fs), replayed)
        (ap (λ out. expected user socket job true es ++ out)
          (rw
            (
              frames-append socket job (finish_subscription k₁ middle socket job).1 _,
              live,
              finish-frames user socket job k₁ middle socket job well₂ ready,
              Watches-subscription watches,
              ==_refl socket,
              ==_refl job,
            )
            refl))
