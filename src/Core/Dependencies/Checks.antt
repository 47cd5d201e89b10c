-- ===== src/Core/Dependencies/Checks.antt =====
-- dependencies.ts, generateAssetDependencyTasks: which assets are checked, and in what order.
use nestai.Prelude.{
  ℕ, ◌≡◌, refl, subst, inl, inr, Bool, true, false, not, ◌&&◌, ◌||◌, String, List, [], ◌∷◌, map,
  arith, filter, find, any, if◌then◌else◌, Bool-cases, Perm,
}
use nestai.Prelude.Sorting.{sort_by, IsSorted, sort_by-perm, sort_by-IsSorted}
use nestai.Contracts.Entities.{HouseholdAsset, object}
use nestai.Core.Json.{stringify}
use nestai.Core.Locale.{Locale}
use nestai.Core.Text.{◌+++◌, codes, contains}
use nestai.Core.Dependencies.{
  AssetDependencyInput, is_match, hint_match, is_empty, is_vehicle, is_considered, kind_asset_hints,
  asset_matches_kind, asset_task, asset_tasks, by_title, generate_asset_dependency_tasks,
}

is_match-hint_match :
    (p : String → Bool) (xs : List String) (driven : Bool)
    → is_match (hint_match (find p xs) driven) ≡ (any p xs || driven)
is_match-hint_match p [] true = refl
is_match-hint_match p [] false = refl
is_match-hint_match p (x ∷ xs) driven = elim (Bool-cases (p x)) [
  | inl e ↦ rw e refl
  | inr e ↦ rw (e, is_match-hint_match p xs driven) refl
]

module _ (lower : String → List ℕ) (input : AssetDependencyInput) where
  -- The word occurs in the asset's name or attributes, in lower case.
  abbrev pub mention : HouseholdAsset → String → Bool
  mention asset word =
      contains (codes word) (lower (asset.name +++ " " +++ stringify (object asset.attrs)))

  -- An asset of a kind that is asked for: a vehicle, when the project's kind has words for
  -- vehicles, or gear that mentions a word for gear.
  abbrev pub needs_check : HouseholdAsset → Bool
  needs_check asset =
      let hints = kind_asset_hints input.project.kind in
      is_considered input.kinds asset.kind
      && (if is_vehicle asset.kind
          then not (is_empty hints.vehicle)
          else any (mention asset) hints.gear)

  any_nonempty :
      (p : String → Bool) (xs : List String) → (any p xs || not (is_empty xs)) ≡ not (is_empty xs)
  any_nonempty p [] = refl
  any_nonempty p (x ∷ xs) = ground arith

  matches_lem :
      (asset : HouseholdAsset)
      → (is_considered input.kinds asset.kind
          && is_match (asset_matches_kind lower asset input.project.kind))
        ≡ needs_check asset
  matches_lem asset =
      let hints = kind_asset_hints input.project.kind in
      let p : String → Bool = mention asset in
      elim (Bool-cases (is_vehicle asset.kind)) [
        | inl e ↦
            rw
              (
                e,
                is_match-hint_match p hints.vehicle (not (is_empty hints.vehicle)),
                any_nonempty p hints.vehicle,
              )
              refl
        | inr e ↦ rw (e, is_match-hint_match p hints.gear false) (ground arith)
      ]

  asset_tasks_lem :
      (assets : List HouseholdAsset)
      → asset_tasks lower input assets ≡ map (asset_task lower input) (filter needs_check assets)
  unfolding asset_tasks
  asset_tasks_lem [] = refl
  asset_tasks_lem (asset ∷ assets) = ground (arith, asset_tasks_lem assets, matches_lem asset)

  -- The tasks are those of the assets that need a check, one for each, sorted by their titles.
  pub generate_asset_dependency_tasks-perm :
      (L : Locale)
      → Perm
          (generate_asset_dependency_tasks lower L input)
          (map (asset_task lower input) (filter needs_check input.assets))
        × IsSorted (by_title L) (generate_asset_dependency_tasks lower L input)
  unfolding generate_asset_dependency_tasks
  generate_asset_dependency_tasks-perm L = (
    subst (λ xs. Perm (sort_by (by_title L) (asset_tasks lower input input.assets)) xs)
        (asset_tasks_lem input.assets)
        (sort_by-perm (by_title L) (asset_tasks lower input input.assets)),
    sort_by-IsSorted (by_title L) (λ a b. L.le_total _ _) (λ a b c. L.le_trans _ _ _)
        (asset_tasks lower input input.assets),
  )
