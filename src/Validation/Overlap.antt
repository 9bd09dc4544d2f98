-- ===== src/Validation/Overlap.antt =====
-- Two requests for one repository that overlap at the await of `request`.
use relaydock.Prelude.{
  ℕ, suc, true, none, some, [], ◌∷◌, ◌≡◌, refl, arith, get, get-put, get-delete, ◌==◌, ==_refl,
}
use relaydock.Protocol.{RepositoryValidationResult}
use relaydock.Errors.{ok, validation_timeout}
use relaydock.Validation.{
  PendingValidation, Broker, resolves, rejects, admit, accept, drop_entry, settle_local, time_out,
  accepts, times_out, settles, handle, handle_all,
}

settle_local-eq :
    (b : Broker) (device : ℕ) (result : RepositoryValidationResult) (p : PendingValidation)
    → get b.pending result.repository_id ≡ some p
    → (p.device_id == device) ≡ true
    → settle_local b device result
      ≡ (drop_entry b result.repository_id p, resolves p.ticket result ∷ [])
unfolding settle_local
settle_local-eq b device result p found own = rw (found, settle_local) (rw own refl)

time_out-answer :
    (b : Broker) (ticket repository : ℕ)
    → get b.armed ticket ≡ some repository
    → (time_out b ticket).1 ≡ rejects ticket validation_timeout ∷ []
unfolding time_out
time_out-answer b ticket repository set = rw (set, time_out) refl

-- Both checks pass before either request is entered. The agent's answer then resolves the later
-- request only: the earlier one, which asked for the same validation, is rejected with
-- `VALIDATION_TIMEOUT` when its timer fires, although the agent has answered.
pub overlapping_request_times_out :
    (b : Broker) (device : ℕ) (result : RepositoryValidationResult)
    → get b.pending result.repository_id ≡ none
    → let repository = result.repository_id in
      (admit b repository true ≡ ok tt)
      × (handle_all b (
          accepts device repository
          ∷ accepts device repository
          ∷ settles device result
          ∷ times_out b.next_ticket
          ∷ [])).1
        ≡ resolves (suc b.next_ticket) result ∷ rejects b.next_ticket validation_timeout ∷ []
unfolding handle_all handle admit accept drop_entry
overlapping_request_times_out b device result free =
    let later : PendingValidation = record { device_id = device; ticket = suc b.next_ticket } in
    let both : Broker = accept (accept b device result.repository_id) device result.repository_id in
    (
      rw free refl,
      rw
          (
            settle_local-eq both device result later
                (rw (get-put, ==_refl result.repository_id) refl) (==_refl device),
            time_out-answer (drop_entry both result.repository_id later) b.next_ticket
                result.repository_id
                (rw (get-delete, get-put, get-put) (ground (arith, ==_refl b.next_ticket))),
          )
          refl,
    )
