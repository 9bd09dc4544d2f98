-- ===== src/Examples/Viewers.antt =====
-- Two viewers, one of whom watches a job.
use relaydock.Prelude.{ℕ, List, [], ◌∷◌, ◌++◌, ◌≡◌, refl, arith, true, false, get, All}
use relaydock.Protocol.{ServerToClientMessage, stdout}
use relaydock.Viewers.{
  Sockets, Clients, ClientConnection, Call, begins, finishes, replays, broadcasts, run,
  broadcast_job_locally, broadcast_device_locally,
}
use relaydock.Viewers.Invariant.{IsWell, run-IsWell}
use relaydock.Viewers.Frames.{frames}
use relaydock.Viewers.Watching.{expected, all_streamed}
use relaydock.Viewers.Delivery.{catch_up}
use relaydock.Viewers.Isolation.{target, IsEntitled, IsOwn, broadcast_isolated}

abbrev sockets : Sockets
sockets = record { ready_state = λ s. 1; buffered_amount = λ s. 0 }

abbrev output : ℕ → ServerToClientMessage
output n = ServerToClientMessage.job_output 7 (record { sequence = n; stream = stdout; text = "x" })

abbrev viewer : ClientConnection
viewer = record { user_id = 1; subscriptions = [] }

abbrev clients : Clients
clients = (20, viewer) ∷ (21, record { user_id = 2; subscriptions = [] }) ∷ []

clients-IsWell : IsWell clients
unfolding get
clients-IsWell = record { distinct = (refl, (refl, tt)); tidy = (tt, (tt, tt)) }

run-IsWell_example :
    IsWell (run clients ((sockets, begins 20 7) ∷ (sockets, broadcasts 1 7 (output 3)) ∷ [])).0
run-IsWell_example =
    run-IsWell clients ((sockets, begins 20 7) ∷ (sockets, broadcasts 1 7 (output 3)) ∷ [])
      (tt, (refl, tt)) clients-IsWell

broadcast_isolated_example :
    All
      (λ e. IsEntitled clients 1 7 (target e))
      (broadcast_job_locally sockets 1 7 (output 3) clients).1
    × All (λ e. IsOwn clients 1 (target e)) (broadcast_device_locally sockets 1 (output 3) clients)
broadcast_isolated_example = broadcast_isolated sockets 1 7 (output 3) clients clients-IsWell

abbrev during : List (Sockets × Call)
during =
    (sockets, replays 20 (output 1))
    ∷ (sockets, broadcasts 1 7 (output 3))
    ∷ (sockets, replays 20 (output 2))
    ∷ []

abbrev later : List (Sockets × Call)
later = (sockets, broadcasts 1 7 (output 4)) ∷ (sockets, broadcasts 2 7 (output 9)) ∷ []

catch_up_example :
    frames 20 7
      (run clients ((sockets, begins 20 7) ∷ during ++ (sockets, finishes 20 7) ∷ later)).1
    ≡ expected 1 20 7 true during ++ (all_streamed 1 20 7 during ++ expected 1 20 7 false later)
unfolding get
catch_up_example =
    catch_up 1 20 7 clients viewer sockets sockets during later refl refl clients-IsWell
      (
        ((refl, omega arith), tt, tt),
        (((refl, omega arith), tt, refl), (((refl, omega arith), tt, tt), tt)),
      )
      (refl, omega arith) (((refl, omega arith), tt, refl), (((refl, omega arith), tt, refl), tt))
      (omega arith)
