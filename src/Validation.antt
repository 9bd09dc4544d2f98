-- ===== src/Validation.antt =====
-- `RepositoryValidationBroker` (apps/server/src/services/connections.ts): requests that wait for an
-- agent's answer, each with a timer. A request is known by a number of its own, its ticket, which
-- stands for the promise that it returns; `pending` knows requests by repository only.
pub mod Tickets
pub mod Settlement
pub mod Overlap
use relaydock.Prelude.{
  ℕ, suc, Bool, true, false, not, Option, none, some, List, [], ◌∷◌, ◌++◌, Dict, get, put, delete,
  ◌==◌, if◌then◌else◌, is_some,
}
use relaydock.Protocol.{RepositoryValidationResult}
use relaydock.Errors.{
  AppError, Result, ok, err, validation_in_progress, device_offline, validation_timeout,
  server_shutting_down,
}

pub record PendingValidation : Type 0 where
  pub device_id : ℕ
  pub ticket : ℕ

pub record Broker : Type 0 where
  pub pending : Dict PendingValidation
  -- The timers that are set, by ticket, each with the repository that it will drop.
  pub armed : Dict ℕ
  pub next_ticket : ℕ

pub data Answer : Type 0 where
  resolves : (ticket : ℕ) → RepositoryValidationResult → Answer
  rejects : (ticket : ℕ) → AppError → Answer

unfoldable pub no_requests : Broker
no_requests = record { pending = []; armed = []; next_ticket = 0 }

-- `request` up to the promise: the check, and the answer of `isAgentOnline` that it then awaits.
unfoldable pub admit : Broker → (repository : ℕ) → (online : Bool) → Result (Unit {0})
admit b repository online =
    if is_some (get b.pending repository)
    then err validation_in_progress
    else if not online
    then err device_offline
    else ok tt

-- `request` from the promise on: the timer, and the entry, which replaces one that is there.
unfoldable pub accept : Broker → (device repository : ℕ) → Broker
accept b device repository = record {
  pending = put b.pending repository (record { device_id = device; ticket = b.next_ticket });
  armed = put b.armed b.next_ticket repository;
  next_ticket = suc b.next_ticket;
}

-- The entry of a repository goes, its timer with it.
unfoldable pub drop_entry : Broker → (repository : ℕ) → PendingValidation → Broker
drop_entry b repository p = record b {
  pending = delete b.pending repository;
  armed = delete b.armed p.ticket;
}

-- `.then` of `sendToAgent`, when the message was not sent.
unfoldable pub send_failed : Broker → (repository : ℕ) → Broker × List Answer
unfolding drop_entry
send_failed b repository = elim (get b.pending repository) [
  | none ↦ (b, [])
  | some p ↦ (drop_entry b repository p, rejects p.ticket device_offline ∷ [])
]

-- The callback of the timer: the entry of the repository goes, whosever it is.
unfoldable pub time_out : Broker → (ticket : ℕ) → Broker × List Answer
time_out b ticket = elim (get b.armed ticket) [
  | none ↦ (b, [])
  | some repository ↦ (
    record b { pending = delete b.pending repository; armed = delete b.armed ticket },
    rejects ticket validation_timeout ∷ [],
  )
]

unfoldable pub settle_local :
    Broker → (device : ℕ) → RepositoryValidationResult → Broker × List Answer
unfolding drop_entry
settle_local b device result = elim (get b.pending result.repository_id) [
  | none ↦ (b, [])
  | some p ↦
      if not (p.device_id == device)
      then (b, [])
      else (drop_entry b result.repository_id p, resolves p.ticket result ∷ [])
]

-- The loop of `cancelLocalForDevice`, over the entries: those left, the timers left, the answers.
unfoldable pub cancel_entries :
    (device : ℕ)
    → Dict PendingValidation
    → (armed : Dict ℕ) → Dict PendingValidation × Dict ℕ × List Answer
cancel_entries device [] armed = ([], armed, [])
cancel_entries device ((repository, p) ∷ entries) armed =
    let (kept, armed', out) =
      cancel_entries device entries
        (if not (p.device_id == device) then armed else delete armed p.ticket) in
    if not (p.device_id == device)
    then ((repository, p) ∷ kept, armed', out)
    else (kept, armed', rejects p.ticket device_offline ∷ out)

unfoldable pub cancel_local_for_device : Broker → (device : ℕ) → Broker × List Answer
unfolding cancel_entries
cancel_local_for_device b device =
    let (pending, armed, out) = cancel_entries device b.pending b.armed in
    (record b { pending = pending; armed = armed }, out)

-- The loop of `shutdown`: the timers left, and the answers.
unfoldable pub reject_entries : Dict PendingValidation → (armed : Dict ℕ) → Dict ℕ × List Answer
reject_entries [] armed = (armed, [])
reject_entries ((repository, p) ∷ entries) armed =
    let (armed', out) = reject_entries entries (delete armed p.ticket) in
    (armed', rejects p.ticket server_shutting_down ∷ out)

unfoldable pub shutdown : Broker → Broker × List Answer
unfolding reject_entries
shutdown b =
    let (armed, out) = reject_entries b.pending b.armed in
    (record b { pending = []; armed = armed }, out)

-- What happens to a broker. `accepts` is the second part of a request, which may come after any
-- number of other events since its first part passed.
pub data Event : Type 0 where
  accepts : (device repository : ℕ) → Event
  send_fails : (repository : ℕ) → Event
  times_out : (ticket : ℕ) → Event
  settles : (device : ℕ) → RepositoryValidationResult → Event
  cancels : (device : ℕ) → Event
  shuts_down : Event

unfoldable pub handle : Broker → Event → Broker × List Answer
handle b (accepts device repository) = (accept b device repository, [])
handle b (send_fails repository) = send_failed b repository
handle b (times_out ticket) = time_out b ticket
handle b (settles device result) = settle_local b device result
handle b (cancels device) = cancel_local_for_device b device
handle b shuts_down = shutdown b

unfoldable pub handle_all : Broker → List Event → Broker × List Answer
handle_all b [] = (b, [])
handle_all b (e ∷ es) =
    let (b', out) = handle b e in let (b'', out') = handle_all b' es in (b'', out ++ out')
