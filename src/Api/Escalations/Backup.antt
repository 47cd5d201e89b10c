-- ===== src/Api/Escalations/Backup.antt =====
-- escalation.service.ts, broadcast: the offer goes to a backup of the household, and only the
-- household's event is written.
use nestai.Prelude.{
  ℕ, ◌+◌, ◌*◌, ◌≡◌, ◌⊎◌, refl, sym, ap, ◌∙◌, subst, inl, inr, true, ◌&&◌, String, List, some, arith,
  All-Some, leb, Bool-cases, str_eq, eq_iff, ◌≢◌, All,
}
use nestai.Prelude.Results.{Fault, ok, throw, Result-cases}
use nestai.Contracts.Enums.{Role}
use nestai.Contracts.Entities.{IsoDateTime, Member, EscalationEvent, AvailabilityBlock}
use nestai.Core.Locale.{Locale}
use nestai.Core.Time.{minute, last_date}
use nestai.Core.Escalation.{SelectBackupResult, select_backup, classify_urgency_cascade}
use nestai.Core.Escalation.Selection.{LeavesFree}
use nestai.Core.Escalation.Best.{select_backup-IsBest}
use nestai.Api.Database.{Database, Store, TenantContext, household_id}
use nestai.Api.Tasks.Steps.{owned-cases, Some-const, update-KeepsForeign}
use nestai.Api.Tasks.Writes.{Spares}
use nestai.Api.Escalations.{BroadcastResult, urgency_of, backup_input, window_start, broadcast}

module _ (db : Database) (h : String) where
  -- The member is stored, is the household's, active and an adult, and not one that is left out.
  pub record IsBackup (s : Store db) (exclude : List String) (m : Member) : Type 0 where
    pub stored : db.member.find_unique m.id s.members ≡ some m
    pub own : m.household_id ≡ h
    pub active : m.active ≡ true
    pub adult : m.role ≢ Role.dependent
    pub not_excluded : All (λ x. x ≢ m.id) exclude

module _ (db : Database) (tenant : TenantContext) (h : String)
    (resolved : household_id tenant ≡ ok h) (locale : Locale) where
  -- Such a member, to whom each stored block of the household leaves the time free.
  abbrev IsFree : Store db → List String → ℕ → Member → Type 0
  IsFree s exclude start m =
      IsBackup db h s exclude m
      × ((c : AvailabilityBlock)
          → db.availability_block.find_unique c.id s.availability ≡ some c
          → c.household_id ≡ h
          → LeavesFree m.id start (start + 120 * minute) c)

  selection-IsFree :
      (s : Store db) (exclude : List String) (start : ℕ) (r : SelectBackupResult) (m : Member)
      → select_backup locale (backup_input db tenant h exclude start (start + 120 * minute) s)
        ≡ ok r
      → r.selected ≡ some m
      → IsFree s exclude start m
  selection-IsFree s exclude start r m e chosen =
      let among = λ (x : Member). x.active && str_eq x.household_id h in
      let its = λ (x : AvailabilityBlock). str_eq x.household_id h in
      let best =
        select_backup-IsBest locale
          (backup_input db tenant h exclude start (start + 120 * minute) s) start
          (start + 120 * minute) refl refl r m e chosen in
      let (found, own) : (db.member.find_unique m.id s.members ≡ some m) × (m.household_id ≡ h) =
        Some-const (
          All-Some (db.member.find_many among s.members)
            (λ x (facts : (among x ≡ true) × (db.member.find_unique x.id s.members ≡ some x))
                (same : x ≡ m).
              (
                subst (λ y. db.member.find_unique y.id s.members ≡ some y) same facts.1,
                subst (λ y. y.household_id ≡ h) same
                    (ground (arith, facts.0, eq_iff x.household_id h)),
              ))
            (db.member.find_many-find_unique among s.members) best.listed) in
      (
        record {
          stored = found;
          own = own;
          active = best.eligible.active;
          adult = best.eligible.adult;
          not_excluded = best.eligible.not_excluded;
        },
        λ c at of_h. Some-const (
            All-Some (db.availability_block.find_many its s.availability)
              (λ x free same. subst (LeavesFree m.id start (start + 120 * minute)) same free)
              best.eligible.cleared
              (db.availability_block.find_unique-find_many its s.availability c.id c at
                ((eq_iff c.household_id h).1 of_h))),
      )

  abbrev start_of : IsoDateTime → Store db → EscalationEvent → IsoDateTime
  start_of now s e = window_start (db.task.find_unique e.task_id s.tasks) now

  abbrev mark : IsoDateTime → EscalationEvent → EscalationEvent
  mark now e = record e { broadcast_at = some now }

  -- A broadcast throws before it writes, or it marks the household's event and returns what the
  -- engine selects.
  Marks : IsoDateTime → String → List String → Store db → Type 0
  Marks now id exclude s =
      (e : EscalationEvent) × (r : SelectBackupResult) × (b : BroadcastResult)
      × (db.escalation_event.find_unique id s.escalations ≡ some e)
      × (e.household_id ≡ h)
      × (select_backup locale (
            backup_input db tenant h exclude (start_of now s e) (start_of now s e + 120 * minute) s)
          ≡ ok r)
      × (b.selected ≡ r.selected)
      × (broadcast db tenant locale now id exclude s ≡ (
        record s { escalations = db.escalation_event.update id (mark now) s.escalations },
        ok b,
      ))

  broadcast-cases :
      (now : IsoDateTime) (id : String) (exclude : List String) (s : Store db)
      → ((f : Fault) × (broadcast db tenant locale now id exclude s ≡ (s, throw f)))
        ⊎ Marks now id exclude s
  unfolding broadcast Marks
  broadcast-cases now id exclude s =
      elim (owned-cases db tenant h resolved (λ e. e.household_id)
        (db.escalation_event.find_unique id s.escalations) s) [
          | inl (f, e) ↦ inl (f, ground (arith, e))
          | inr (event, e, found, own) ↦
              let start : ℕ = start_of now s event in
              elim (Bool-cases (leb (start + 120 * minute) last_date)) [
                | inr late ↦ inl (Fault.range_error, ground (arith, e, resolved, late))
                | inl fits ↦
                    elim (Result-cases (
                      select_backup locale
                        (backup_input db tenant h exclude start (start + 120 * minute) s))) [
                          | inr (f, e') ↦ inl (f, ground (arith, e, resolved, fits, e'))
                          | inl (r, e') ↦ inr (
                            event,
                            r,
                            record {
                              cascade =
                                  classify_urgency_cascade
                                    (urgency_of (db.task.find_unique event.task_id s.tasks));
                              selected = r.selected;
                              candidates = r.candidates;
                              rationale = r.rationale;
                            },
                            found,
                            own,
                            e',
                            refl,
                            ground (arith, e, resolved, fits, e', found),
                          )
                        ]
              ]
        ]

  marked-Spares :
      (now : IsoDateTime) (id : String) (s : Store db) (e : EscalationEvent)
      → db.escalation_event.find_unique id s.escalations ≡ some e
      → e.household_id ≡ h
      → Spares db h s
          (record s { escalations = db.escalation_event.update id (mark now) s.escalations })
  marked-Spares now id s e found own = record {
    tasks = λ k r away. (λ b. b, λ a. a);
    escalations =
        update-KeepsForeign db.escalation_event (λ x. x.household_id) h id (mark now) s.escalations
          e (λ x. refl) (λ x. refl) found own;
    members = refl;
    rules = refl;
    availability = refl;
  }

  -- A member that a broadcast selects for the event of an id is stored, belongs to the request's
  -- household, is active, an adult and not excluded, and every stored block of the household is
  -- another member's, or free time, or lies outside the two hours from the task's due time, or from
  -- now where it has none. The event is the household's, and the rows of other households stay as
  -- they are.
  pub broadcast-IsBackup :
      (now : IsoDateTime) (id : String) (exclude : List String) (s : Store db) (e : EscalationEvent)
      (b : BroadcastResult) (m : Member) (c : AvailabilityBlock)
      → db.escalation_event.find_unique id s.escalations ≡ some e
      → (broadcast db tenant locale now id exclude s).1 ≡ ok b
      → b.selected ≡ some m
      → db.availability_block.find_unique c.id s.availability ≡ some c
      → c.household_id ≡ h
      → IsBackup db h s exclude m
        × LeavesFree m.id
            (window_start (db.task.find_unique e.task_id s.tasks) now)
            (window_start (db.task.find_unique e.task_id s.tasks) now + 120 * minute)
            c
        × (e.household_id ≡ h)
        × Spares db h s (broadcast db tenant locale now id exclude s).0
  unfolding Marks
  broadcast-IsBackup now id exclude s e b m c found out chosen at of_h =
      elim (broadcast-cases now id exclude s) [
        | inl (f, refusal) ↦ let never : throw f ≡ ok b = ap (λ o. o.1) (sym refusal) ∙ out in cc
        | inr (x, r, d, found_x, own, selected, same, outcome) ↦
            let is_d : ok d ≡ ok b = ap (λ o. o.1) (sym outcome) ∙ out in
            let is_b : d ≡ b = ground arith in
            let event : x ≡ e = ground (arith, found_x, found) in
            let (backup, free) =
              subst (λ y. IsFree s exclude (start_of now s y) m) event
                (selection-IsFree s exclude (start_of now s x) r m selected
                  (sym same ∙ ap (λ y. y.selected) is_b ∙ chosen)) in
            (
              backup,
              free c at of_h,
              subst (λ y. y.household_id ≡ h) event own,
              subst (λ o. Spares db h s o.0) (sym outcome) (marked-Spares now id s x found_x own),
            )
      ]
