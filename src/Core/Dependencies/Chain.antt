-- ===== src/Core/Dependencies/Chain.antt =====
-- dependencies.ts, generateDependencyChain.
use nestai.Prelude.{ℕ, String, List, map, Option, filter, Perm}
use nestai.Prelude.Sorting.{IsSorted}
use nestai.Contracts.Entities.{IsoDateTime}
use nestai.Core.Locale.{Locale}
use nestai.Core.Dependencies.{
  DependencyTask, ChainInput, asset_input, audit_input, asset_task, audit_task, by_title,
}
use nestai.Core.Dependencies.Checks.{needs_check}
use nestai.Core.Dependencies.Audits.{is_audited}

module _ (parse : String → Option IsoDateTime) (lower : String → List ℕ) (L : Locale) where
  -- The checks, one for each asset that needs one, and then the audits, one for each dependent who
  -- is to be audited at the time `t`; each part is sorted by the titles.
  pub record IsChain (input : ChainInput) (t : IsoDateTime) (checks audits : List DependencyTask)
      : Type 0 where
    pub checked : Perm checks (
        map
          (asset_task lower (asset_input input))
          (filter (needs_check lower (asset_input input)) input.assets))
    pub audited : Perm audits (
        map
          (audit_task input.project)
          (filter (is_audited parse (audit_input input) t) input.members))
    pub checks_sorted : IsSorted (by_title L) checks
    pub audits_sorted : IsSorted (by_title L) audits
