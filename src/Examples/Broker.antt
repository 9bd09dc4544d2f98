-- ===== src/Examples/Broker.antt =====
-- Requests for the validation of two repositories.
use relaydock.Prelude.{◌+◌, suc, true, none, List, [], ◌∷◌, ◌≡◌, refl, get, ltb, if◌then◌else◌}
use relaydock.Protocol.{RepositoryValidationResult}
use relaydock.Errors.{ok, validation_timeout}
use relaydock.Validation.{
  Event, accepts, settles, times_out, cancels, resolves, rejects, no_requests, admit, handle_all,
}
use relaydock.Validation.Tickets.{answered, waiting}
use relaydock.Validation.Settlement.{settled_once}
use relaydock.Validation.Overlap.{overlapping_request_times_out}

abbrev result : RepositoryValidationResult
result = record {
  repository_id = 8;
  valid = true;
  canonical_path = none;
  repository_root = none;
  is_git_repository = true;
  branch = none;
  error = none;
}

abbrev events : List Event
events = accepts 5 8 ∷ accepts 5 9 ∷ settles 5 result ∷ settles 5 result ∷ cancels 5 ∷ []

settled_once_example :
    answered 0 (handle_all no_requests events).1 + waiting (handle_all no_requests events).0.armed 0
    ≡ (if ltb 0 (handle_all no_requests events).0.next_ticket then 1 else 0)
settled_once_example = settled_once events 0

overlapping_request_times_out_example :
    (admit no_requests 8 true ≡ ok tt)
    × (handle_all no_requests
        (accepts 5 8 ∷ accepts 5 8 ∷ settles 5 result ∷ times_out no_requests.next_ticket ∷ [])).1
      ≡ resolves (suc no_requests.next_ticket) result
        ∷ rejects no_requests.next_ticket validation_timeout
        ∷ []
unfolding get no_requests
overlapping_request_times_out_example = overlapping_request_times_out no_requests 5 result refl
