-- ===== src/Core/Dependencies/Audits.antt =====
-- dependencies.ts, generateChildGearAuditTasks: who is audited, and in what order.
use nestai.Prelude.{
  ℕ, ◌≡◌, refl, Bool, not, ◌&&◌, String, List, [], ◌∷◌, map, Option, none, some, arith, filter,
  if◌then◌else◌, str_eq, Perm,
}
use nestai.Prelude.Results.{ok}
use nestai.Prelude.Sorting.{sort_by, IsSorted, sort_by-perm, sort_by-IsSorted}
use nestai.Contracts.Enums.{is_dependent}
use nestai.Contracts.Entities.{IsoDateTime, Member}
use nestai.Core.Calendar.{civil}
use nestai.Core.Locale.{Locale}
use nestai.Core.Routing.Age.{compute_age, birth_iso, age_between}
use nestai.Core.Time.{date}
use nestai.Core.Dependencies.{
  DependencyTask, ChildGearAuditInput, ceiling_of, is_grown, audit_task, audit_tasks, by_title,
  generate_child_gear_audit_tasks,
}

module _ (parse : String → Option IsoDateTime) (input : ChildGearAuditInput) (t : IsoDateTime) where
  -- The age of a birth date that can be read, which is not the empty text.
  abbrev pub known_age : Option String → Option ℕ
  known_age none = none
  known_age (some text) = if str_eq text "" then none else elim (parse (birth_iso text)) [
    | none ↦ none
    | some born ↦ some (age_between (civil born) (civil t))
  ]

  compute_age-known_age :
      (birth_date : Option String)
      → compute_age parse birth_date (date t) ≡ ok (known_age birth_date)
  unfolding compute_age
  compute_age-known_age none = refl
  compute_age-known_age (some text) = ground arith

  -- Dependents whose age is unknown or at most the ceiling.
  abbrev pub is_audited : Member → Bool
  is_audited member =
      is_dependent member.role
      && not (is_grown (known_age member.birth_date) (ceiling_of input.growth_age_ceiling))

  audit_tasks_lem :
      (members : List Member)
      → input.now ≡ date t
      → audit_tasks parse input members
        ≡ ok (map (audit_task input.project) (filter is_audited members))
  unfolding audit_tasks
  audit_tasks_lem [] now = refl
  audit_tasks_lem (member ∷ members) now =
      rw (now, audit_tasks_lem members now, compute_age-known_age member.birth_date) (ground arith)

  -- At a valid time the audits are returned: one for each dependent whose age is unknown or not
  -- above the ceiling, sorted by their titles.
  pub generate_child_gear_audit_tasks-perm :
      (L : Locale)
      → input.now ≡ date t
      → (tasks : List DependencyTask) × (generate_child_gear_audit_tasks parse L input ≡ ok tasks)
        × Perm tasks (map (audit_task input.project) (filter is_audited input.members))
        × IsSorted (by_title L) tasks
  unfolding generate_child_gear_audit_tasks
  generate_child_gear_audit_tasks-perm L now =
      let found : List DependencyTask =
        map (audit_task input.project) (filter is_audited input.members) in
      let le : DependencyTask → DependencyTask → Bool = by_title L in
      (
        sort_by le found,
        rw (audit_tasks_lem input.members now) refl,
        sort_by-perm le found,
        sort_by-IsSorted le (λ a b. L.le_total _ _) (λ a b c. L.le_trans _ _ _) found,
      )
