-- ===== src/Validation/Tickets.antt =====
-- What each piece of the broker does to the requests, their timers and their answers.
use relaydock.Prelude.{
  ℕ, ◌+◌, ◌<◌, ◌≤◌, false, ◌&&◌, none, some, List, [], ◌∷◌, ◌++◌, ◌≡◌, refl, inl, inr, arith, Dict,
  get, delete, get-put, get-delete, Distinct, Distinct-put, Distinct-delete, Entries, Entries-put,
  Entries-get, Entries-map, Entries-delete_other, Entries-absent, Option-cases, Bool-cases, ◌==◌,
  ==_iff, ==_refl, ltb, leb, if◌then◌else◌, is_some,
}
use relaydock.Protocol.{RepositoryValidationResult}
use relaydock.Validation.{
  PendingValidation, Broker, Answer, resolves, rejects, accept, drop_entry, send_failed, time_out,
  settle_local, cancel_entries, reject_entries,
}

abbrev ticket_of : Answer → ℕ
ticket_of (resolves t r) = t
ticket_of (rejects t e) = t

-- How often a request is answered.
abbrev pub answered : ℕ → List Answer → ℕ
answered t [] = 0
answered t (a ∷ out) = (if ticket_of a == t then 1 else 0) + answered t out

pub answered-append :
    (t : ℕ) (xs ys : List Answer) → answered t (xs ++ ys) ≡ answered t xs + answered t ys
answered-append t [] ys = omega arith
answered-append t (x ∷ xs) ys = omega (arith, answered-append t xs ys)

-- Whether a timer is set for it, as a number.
abbrev pub waiting : Dict ℕ → ℕ → ℕ
waiting armed t = if is_some (get armed t) then 1 else 0

-- The timer of each entry drops that entry.
abbrev pub AreTimed : Dict ℕ → Dict PendingValidation → Type 0
AreTimed armed = Entries (λ repository p. get armed p.ticket ≡ some repository)

pub record IsSound (b : Broker) : Type 0 where
  pub distinct : Distinct b.pending
  pub timed : AreTimed b.armed b.pending
  pub issued : (t : ℕ) → waiting b.armed t ≡ 1 → t < b.next_ticket

-- An entry for another repository has another ticket.
disarm :
    (armed : Dict ℕ) (t r r' t' : ℕ)
    → get armed t ≡ some r
    → (r == r') ≡ false
    → get armed t' ≡ some r'
    → get (delete armed t) t' ≡ some r'
disarm armed t r r' t' e other e' = elim (Bool-cases (t == t')) [
  | inl same ↦
      let s : t ≡ t' = (==_iff t t').0 same in let clash : r ≡ r' = cc in absurd (ground arith)
  | inr apart ↦ rw (get-delete, apart) e'
]

AreTimed-delete :
    (armed : Dict ℕ) (pending : Dict PendingValidation) (t r : ℕ)
    → get armed t ≡ some r
    → AreTimed armed pending
    → AreTimed (delete armed t) (delete pending r)
AreTimed-delete armed pending t r e h =
    Entries-delete_other _ _ pending r (λ r' p other e'. disarm armed t r r' p.ticket e other e') h

AreTimed-absent :
    (armed : Dict ℕ) (pending : Dict PendingValidation) (t r : ℕ)
    → get armed t ≡ some r
    → get pending r ≡ none
    → AreTimed armed pending
    → AreTimed (delete armed t) pending
AreTimed-absent armed pending t r e absent h =
    Entries-absent _ _ pending r absent (λ r' p other e'. disarm armed t r r' p.ticket e other e') h

waiting-delete :
    (armed : Dict ℕ) (k r t : ℕ)
    → get armed k ≡ some r
    → (if k == t then 1 else 0) + waiting (delete armed k) t ≡ waiting armed t
waiting-delete armed k r t e = ground (arith, get-delete armed k t, ==_iff k t)

-- What one event does to a request: as many answers as timers that end, and timers only of requests
-- that are new or that waited.
abbrev Settles : Broker → Broker → List Answer → Type 0
Settles b b' out =
    (t : ℕ)
    → answered t out + waiting b'.armed t
      ≡ waiting b.armed t + (if leb b.next_ticket t && ltb t b'.next_ticket then 1 else 0)

-- What one event keeps.
pub record Keeps (b b' : Broker) (out : List Answer) : Type 0 where
  pub settled : Settles b b' out
  pub grown : b.next_ticket ≤ b'.next_ticket
  pub distinct' : Distinct b'.pending
  pub timed' : AreTimed b'.armed b'.pending

pub Keeps-IsSound : {b b' : Broker} {out : List Answer} → IsSound b → Keeps b b' out → IsSound b'
Keeps-IsSound s k = record {
  distinct = k.distinct';
  timed = k.timed';
  issued = λ t e. ground (arith, k.settled t, s.issued t, k.grown);
}

Keeps-same : (b : Broker) → IsSound b → Keeps b b []
Keeps-same b s = record {
  settled = λ t. ground arith;
  grown = omega arith;
  distinct' = s.distinct;
  timed' = s.timed;
}

pub accept-Keeps :
    (b : Broker) (device repository : ℕ) → IsSound b → Keeps b (accept b device repository) []
unfolding accept
accept-Keeps b device repository s = record {
  settled = λ t. rw get-put (ground (arith, s.issued t));
  grown = omega arith;
  distinct' = Distinct-put b.pending repository _ s.distinct;
  timed' =
      Entries-put _ b.pending repository _
        (Entries-map _ _ b.pending
          (λ r (p : PendingValidation) e. rw get-put (ground (arith, s.issued p.ticket))) s.timed)
        (rw (get-put, ==_refl b.next_ticket) refl);
}

drop_entry-Keeps :
    (b : Broker) (repository : ℕ) (p : PendingValidation) (a : Answer)
    → IsSound b
    → get b.pending repository ≡ some p
    → ticket_of a ≡ p.ticket
    → Keeps b (drop_entry b repository p) (a ∷ [])
unfolding drop_entry
drop_entry-Keeps b repository p a s found own =
    let set = Entries-get _ b.pending repository p s.timed found in
    record {
      settled = λ t. ground (arith, waiting-delete b.armed p.ticket repository t set, own);
      grown = omega arith;
      distinct' = Distinct-delete b.pending repository s.distinct;
      timed' = AreTimed-delete b.armed b.pending p.ticket repository set s.timed;
    }

pub time_out-Keeps :
    (b : Broker) (ticket : ℕ) → IsSound b → Keeps b (time_out b ticket).0 (time_out b ticket).1
unfolding time_out
time_out-Keeps b ticket s = elim (Option-cases (get b.armed ticket)) [
  | inl over ↦ rw (over, time_out) (Keeps-same b s)
  | inr (repository, set) ↦
      rw (set, time_out)
        (record {
          settled = λ t. ground (arith, waiting-delete b.armed ticket repository t set);
          grown = omega arith;
          distinct' = Distinct-delete b.pending repository s.distinct;
          timed' = AreTimed-delete b.armed b.pending ticket repository set s.timed;
        })
]

pub send_failed-Keeps :
    (b : Broker) (repository : ℕ)
    → IsSound b
    → Keeps b (send_failed b repository).0 (send_failed b repository).1
unfolding send_failed
send_failed-Keeps b repository s = elim (Option-cases (get b.pending repository)) [
  | inl absent ↦ rw (absent, send_failed) (Keeps-same b s)
  | inr (p, found) ↦ rw (found, send_failed) (drop_entry-Keeps b repository p _ s found refl)
]

pub settle_local-Keeps :
    (b : Broker) (device : ℕ) (result : RepositoryValidationResult)
    → IsSound b
    → Keeps b (settle_local b device result).0 (settle_local b device result).1
unfolding settle_local
settle_local-Keeps b device result s = elim (Option-cases (get b.pending result.repository_id)) [
  | inl absent ↦ rw (absent, settle_local) (Keeps-same b s)
  | inr (p, found) ↦ elim (Bool-cases (p.device_id == device)) [
    | inr foreign ↦ rw (found, settle_local) (rw foreign (Keeps-same b s))
    | inl own ↦
        rw (found, settle_local) (rw own (drop_entry-Keeps b result.repository_id p _ s found refl))
  ]
]

-- What a loop over the entries does to the timers and to the entries that it keeps.
pub record Cancels (entries : Dict PendingValidation) (armed : Dict ℕ)
    (kept : Dict PendingValidation) (armed' : Dict ℕ) (out : List Answer) : Type 0 where
  pub counted : (t : ℕ) → answered t out + waiting armed' t ≡ waiting armed t
  spared : (t r : ℕ) → get entries r ≡ none → get armed t ≡ some r → get armed' t ≡ some r
  smaller : (r : ℕ) → get entries r ≡ none → get kept r ≡ none
  pub distinct' : Distinct kept
  pub timed' : AreTimed armed' kept

pub cancel_entries-Cancels :
    (device : ℕ) (entries : Dict PendingValidation) (armed : Dict ℕ)
    → Distinct entries
    → AreTimed armed entries
    → let (kept, armed', out) = cancel_entries device entries armed in
      Cancels entries armed kept armed' out
unfolding cancel_entries get
cancel_entries-Cancels device [] armed d h = record {
  counted = λ t. omega arith;
  spared = λ t r e e'. e';
  smaller = λ r e. e;
  distinct' = tt;
  timed' = tt;
}
cancel_entries-Cancels device ((repository, p) ∷ entries) armed d h =
    elim (Bool-cases (p.device_id == device)) [
      | inr other ↦
          let c = cancel_entries-Cancels device entries armed d.1 h.1 in
          rw other (record {
            counted = c.counted;
            spared = λ t r e e'. c.spared t r (ground arith) e';
            smaller = λ r e. ground (arith, c.smaller r);
            distinct' = (c.smaller repository d.0, c.distinct');
            timed' = (c.spared p.ticket repository d.0 h.0, c.timed');
          })
      | inl own ↦
          let c =
            cancel_entries-Cancels device entries (delete armed p.ticket) d.1
              (AreTimed-absent armed entries p.ticket repository h.0 d.0 h.1) in
          rw own (record {
            counted =
                λ t. omega (arith, c.counted t, waiting-delete armed p.ticket repository t h.0);
            spared = λ t r e e'.
                c.spared t r (ground arith)
                  (disarm armed p.ticket repository r t h.0 (ground arith) e');
            smaller = λ r e. c.smaller r (ground arith);
            distinct' = c.distinct';
            timed' = c.timed';
          })
    ]

pub reject_entries-counted :
    (entries : Dict PendingValidation) (armed : Dict ℕ) (t : ℕ)
    → Distinct entries
    → AreTimed armed entries
    → answered t (reject_entries entries armed).1 + waiting (reject_entries entries armed).0 t
      ≡ waiting armed t
unfolding reject_entries
reject_entries-counted [] armed t d h = omega arith
reject_entries-counted ((repository, p) ∷ entries) armed t d h = omega (
  arith,
  reject_entries-counted entries (delete armed p.ticket) t d.1
      (AreTimed-absent armed entries p.ticket repository h.0 d.0 h.1),
  waiting-delete armed p.ticket repository t h.0,
)
