-- ===== src/Api/Escalations/Sweep.antt =====
-- escalation.service.ts, sweepCriticalOverrides: whom the sweep reports.
use nestai.Prelude.{
  ◌+◌, ◌*◌, ◌<◌, ◌≡◌, ◌↔◌, refl, sym, subst, inl, inr, true, String, List, [], ◌∷◌, none, some,
  arith, Some, here, there, Some-map, All-Some, Bool-cases, eq_iff, length,
}
use nestai.Prelude.Results.{ok}
use nestai.Contracts.Entities.{IsoDateTime, EscalationEvent}
use nestai.Core.Time.{minute}
use nestai.Core.Escalation.Override.{decide_critical_override_iff}
use nestai.Api.Database.{Database, Store, TenantContext, household_id}
use nestai.Api.TaskRows.{state_of}
use nestai.Api.Tasks.Steps.{Some-const}
use nestai.Api.Escalations.{
  SweepResult, overrides_of, is_unresolved, open_events, sweep_critical_overrides,
}

-- The event has no claimant, is not resolved, and is less than 21 minutes from its deadline.
abbrev pub IsDue : IsoDateTime → EscalationEvent → Type 0
IsDue now e = (e.claimed_by_id ≡ none) × (e.resolved_at ≡ none) × (e.deadline < now + 21 * minute)

there_or :
    {A B : Type 0} {P : A → Type 0} {Q : B → Type 0} {a : A} {b : B} {xs : List A} {ys : List B}
    → (P a → Q b)
    → (Some P xs → Some Q ys)
    → Some P (a ∷ xs)
    → Some Q (b ∷ ys)
there_or f g (here p) = here (f p)
there_or f g (there s) = there (g s)

not_here :
    {A B : Type 0} {P : A → Type 0} {Q : B → Type 0} {b : B} {xs : List A} {ys : List B}
    → (Q b → ⊥)
    → (Some Q ys → Some P xs)
    → Some Q (b ∷ ys)
    → Some P xs
not_here never g (here q) = elim (never q) [ ]
not_here never g (there s) = g s

overrides_of-IsDue :
    (h : String) (now : IsoDateTime) (es : List EscalationEvent)
    → (ids : List String) × (overrides_of h now es ≡ ok ids)
      × ((k : String)
          → Some (λ x. x ≡ k) ids ↔ Some (λ (e : EscalationEvent). (e.id ≡ k) × IsDue now e) es)
unfolding overrides_of
overrides_of-IsDue h now [] = ([], refl, λ k. (λ s. elim s [ ], λ s. elim s [ ]))
overrides_of-IsDue h now (e ∷ es) =
    let (d, decided, due) =
      decide_critical_override_iff (state_of h e.task_id e) e.deadline now refl in
    let (ids, rest, listed) = overrides_of-IsDue h now es in
    elim (Bool-cases d.override) [
      | inl f ↦ (
        e.id ∷ ids,
        rw (decided, rest, f) refl,
        λ k. (
          there_or (λ same. (same, due.0 f)) (listed k).0,
          there_or (λ facts. facts.0) (listed k).1,
        ),
      )
      | inr f ↦ (
        ids,
        rw (decided, rest, f) refl,
        λ k. (
          λ found. there ((listed k).0 found),
          not_here (λ facts. let fires = due.1 facts.1 in cc) (listed k).1,
        ),
      )
    ]

module _ (db : Database) (tenant : TenantContext) (h : String)
    (resolved : household_id tenant ≡ ok h) where
  -- The stored event of the id is the household's, and due.
  abbrev pub IsReported : IsoDateTime → Store db → String → Type 0
  IsReported now s k =
      (e : EscalationEvent) × (db.escalation_event.find_unique k s.escalations ≡ some e)
      × (e.household_id ≡ h)
      × IsDue now e

  reported→ :
      (now : IsoDateTime) (s : Store db) (k : String)
      → Some (λ (e : EscalationEvent). (e.id ≡ k) × IsDue now e) (open_events db tenant h s)
      → IsReported now s k
  reported→ now s k found = Some-const (
      All-Some (open_events db tenant h s)
        (λ e
            (stored : (is_unresolved h e ≡ true)
              × (db.escalation_event.find_unique e.id s.escalations ≡ some e))
            (facts : (e.id ≡ k) × IsDue now e).
          (
            e,
            subst (λ i. db.escalation_event.find_unique i s.escalations ≡ some e) facts.0 stored.1,
            ground (arith, stored.0, eq_iff e.household_id h),
            facts.1,
          ))
        (db.escalation_event.find_many-find_unique (is_unresolved h) s.escalations) found)

  →reported :
      (now : IsoDateTime) (s : Store db) (k : String)
      → IsReported now s k
      → Some (λ (e : EscalationEvent). (e.id ≡ k) × IsDue now e) (open_events db tenant h s)
  →reported now s k (e, found, own, due) =
      Some-map
        (λ x same.
          subst (λ y. (y.id ≡ k) × IsDue now y) (sym same)
            (db.escalation_event.find_unique_id k s.escalations e found, due))
        (db.escalation_event.find_unique-find_many (is_unresolved h) s.escalations k e found
          (ground (arith, due.1, eq_iff e.household_id h)))

  -- At any valid time the sweep returns and changes nothing. It checks the household's unresolved
  -- events, and it reports the id of an event exactly when the event is the household's, neither
  -- claimed nor resolved, and less than 21 minutes from its deadline, or past it.
  pub sweep_critical_overrides_iff :
      (now : IsoDateTime) (s : Store db)
      → (r : SweepResult) × (sweep_critical_overrides db tenant now s ≡ (s, ok r))
        × (r.checked ≡ length (open_events db tenant h s))
        × ((k : String) → Some (λ x. x ≡ k) r.overrides ↔ IsReported now s k)
  unfolding sweep_critical_overrides
  sweep_critical_overrides_iff now s =
      let (ids, out, listed) = overrides_of-IsDue h now (open_events db tenant h s) in
      (
        record { checked = length (open_events db tenant h s); overrides = ids },
        ground (arith, resolved, out),
        refl,
        λ k. (
          λ found. reported→ now s k ((listed k).0 found),
          λ e. (listed k).1 (→reported now s k e),
        ),
      )
