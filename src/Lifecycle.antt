-- ===== src/Lifecycle.antt =====
-- Job states and the transition table: packages/shared/src/index.ts, and the status enumeration of
-- packages/protocol/src/index.ts.
pub mod Graph
use relaydock.Prelude.{Bool, true, false, ◌||◌, List, [], ◌∷◌, any}

pub data JobStatus : Type 0 where
  queued dispatched running waiting_for_input completed failed cancelled disconnected : JobStatus

-- `===` on statuses, by their places in the enumeration.
abbrev pub status_eq : JobStatus → JobStatus → Bool
status_eq queued queued = true
status_eq dispatched dispatched = true
status_eq running running = true
status_eq waiting_for_input waiting_for_input = true
status_eq completed completed = true
status_eq failed failed = true
status_eq cancelled cancelled = true
status_eq disconnected disconnected = true
status_eq _ _ = false

unfoldable pub transitions : JobStatus → List JobStatus
transitions queued = dispatched ∷ failed ∷ cancelled ∷ []
transitions dispatched = running ∷ failed ∷ cancelled ∷ disconnected ∷ []
transitions running = waiting_for_input ∷ completed ∷ failed ∷ cancelled ∷ disconnected ∷ []
transitions waiting_for_input = running ∷ completed ∷ failed ∷ cancelled ∷ disconnected ∷ []
transitions disconnected = running ∷ waiting_for_input ∷ completed ∷ failed ∷ cancelled ∷ []
transitions completed = []
transitions failed = []
transitions cancelled = []

unfoldable pub can_transition_job : JobStatus → JobStatus → Bool
unfolding transitions
can_transition_job from to = status_eq from to || any (λ s. status_eq s to) (transitions from)

unfoldable pub is_terminal_job_status : JobStatus → Bool
is_terminal_job_status s = status_eq s completed || status_eq s failed || status_eq s cancelled
