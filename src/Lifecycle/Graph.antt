-- ===== src/Lifecycle/Graph.antt =====
-- The transition table read as a graph: what is reachable, and what is final.
use relaydock.Prelude.{
  Bool, true, false, ◌≡◌, refl, ◌≢◌, ◌↔◌, arith, Bool-cases, inl, inr, subst, not, ◌&&◌, ◌||◌,
}
use relaydock.Lifecycle.{
  JobStatus, queued, dispatched, running, waiting_for_input, completed, failed, cancelled,
  disconnected, status_eq, can_transition_job, is_terminal_job_status,
}

pub status_eq_iff : (s t : JobStatus) → (status_eq s t ≡ true) ↔ (s ≡ t)
status_eq_iff s t = ground arith

-- A sequence of permitted changes.
infixr 5 ◌▸◌
pub data Reaches : JobStatus → JobStatus → Type 0 where
  here : {s : JobStatus} → Reaches s s
  ◌▸◌ : {s t u : JobStatus} → can_transition_job s t ≡ true → Reaches t u → Reaches s u

-- A terminal state changes to itself alone, and every other state can still be cancelled.
terminal_iff :
    (s : JobStatus)
    → (is_terminal_job_status s ≡ true) ↔ ((t : JobStatus) → can_transition_job s t ≡ true → s ≡ t)
unfolding can_transition_job is_terminal_job_status
terminal_iff s = (λ h t e. ground arith, λ all. ground (arith, all failed))

-- Where a job may still get to: a terminal job nowhere else, a live job anywhere but back to
-- `queued`, and to `dispatched` only from `queued`.
abbrev pub may_reach : JobStatus → JobStatus → Bool
may_reach s t =
    status_eq s t
    || (not (is_terminal_job_status s)
        && not (status_eq t queued)
        && (not (status_eq t dispatched) || status_eq s queued))

may_reach-step :
    (s t u : JobStatus)
    → can_transition_job s t ≡ true
    → may_reach t u ≡ true
    → may_reach s u ≡ true
unfolding can_transition_job is_terminal_job_status
may_reach-step s t u e h = ground arith

may_reach_of_Reaches : {s t : JobStatus} → Reaches s t → may_reach s t ≡ true
unfolding is_terminal_job_status
may_reach_of_Reaches {s} here = ground (arith, status_eq_iff s s)
may_reach_of_Reaches {s} {t = u} (◌▸◌ {t} e r) = may_reach-step s t u e (may_reach_of_Reaches r)

pub Reaches-trans : {s t u : JobStatus} → Reaches s t → Reaches t u → Reaches s u
Reaches-trans here q = q
Reaches-trans (e ▸ r) q = e ▸ Reaches-trans r q

Reaches-running : (s : JobStatus) → is_terminal_job_status s ≡ false → Reaches s running
unfolding can_transition_job is_terminal_job_status
Reaches-running queued h = ◌▸◌ {t = dispatched} refl (refl ▸ here)
Reaches-running running h = here
Reaches-running dispatched h = refl ▸ here
Reaches-running waiting_for_input h = refl ▸ here
Reaches-running disconnected h = refl ▸ here
Reaches-running completed h = absurd (cc)
Reaches-running failed h = absurd (cc)
Reaches-running cancelled h = absurd (cc)

running-Reaches : (t : JobStatus) → t ≢ queued → t ≢ dispatched → Reaches running t
unfolding can_transition_job
running-Reaches queued h k = absurd (h refl)
running-Reaches dispatched h k = absurd (k refl)
running-Reaches running h k = here
running-Reaches _ h k = refl ▸ here

Reaches-of_may_reach : (s t : JobStatus) → may_reach s t ≡ true → Reaches s t
unfolding can_transition_job is_terminal_job_status
Reaches-of_may_reach queued dispatched h = refl ▸ here
Reaches-of_may_reach s t h = elim (Bool-cases (status_eq s t)) [
  | inl same ↦ subst (Reaches s) ((status_eq_iff s t).0 same) here
  | inr other ↦ elim (Bool-cases (is_terminal_job_status s)) [
    | inl over ↦ absurd (ground arith)
    | inr live ↦
        Reaches-trans (Reaches-running s live) (running-Reaches t (ground arith) (ground arith))
  ]
]

-- The jobs that a job may still become are exactly those of `may_reach`.
Reaches-iff : (s t : JobStatus) → Reaches s t ↔ (may_reach s t ≡ true)
Reaches-iff s t = (may_reach_of_Reaches, Reaches-of_may_reach s t)
