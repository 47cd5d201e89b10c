-- ===== src/Core/Dependencies/Tests.antt =====
-- Runs of dependencies.ts, and its theorems at concrete inputs.
use nestai.Prelude.{◌≡◌, refl, String, List, [], ◌∷◌, map, Option, none, some, all, not, true}
use nestai.Prelude.Results.{ok}
use nestai.Prelude.Sorting.{sort_by}
use nestai.Contracts.Enums.{SeasonalKind, SeasonalStatus, AssetKind}
use nestai.Contracts.Entities.{
  IsoDateTime, SeasonalProject, HouseholdAsset, JsonRecord, text, number, empty, entry,
}
use nestai.Core.Calendar.{civil}
use nestai.Core.Routing.Age.{compute_age}
use nestai.Core.Samples.{code_points, noon, family, kid}
use nestai.Core.Text.{codes}
use nestai.Core.Time.{date}
use nestai.Core.Dependencies.{
  DependencyTask, AssetDependencyInput, ChainInput, kind_asset_hints, is_fitted, asset_task,
  asset_tasks, audit_task, audit_tasks, generate_asset_dependency_tasks,
  generate_child_gear_audit_tasks, generate_dependency_chain,
}

dependencies : Unit {0}
unfolding asset_tasks audit_tasks generate_asset_dependency_tasks generate_child_gear_audit_tasks
    generate_dependency_chain sort_by compute_age civil
dependencies = tt

abbrev ski_week : SeasonalProject
ski_week = record {
  id = "p-1";
  household_id = "h-1";
  kind = SeasonalKind.ski_trip;
  status = SeasonalStatus.confirmed;
  title = "Ski week";
  target_window = none;
}

abbrev asset : String → AssetKind → String → JsonRecord → HouseholdAsset
asset id kind name attrs = record {
  id = id;
  household_id = "h-1";
  kind = kind;
  name = name;
  attrs = attrs;
  last_checked_at = none;
}

abbrev car : HouseholdAsset
car = asset "a-1" AssetKind.vehicle "car" (
    entry "year" (number "2019") (entry "make" (text "Honda") (entry "model" (text "Pilot") empty)))

abbrev boots : HouseholdAsset
boots = asset "a-2" AssetKind.gear "old boots" empty

abbrev bike : HouseholdAsset
bike = asset "a-3" AssetKind.gear "bike" empty

abbrev garage : AssetDependencyInput
garage = record { project = ski_week; assets = car ∷ bike ∷ boots ∷ []; kinds = none }

abbrev titles : List DependencyTask → List String
titles tasks = map (λ d. d.task.title) tasks

garage_run :
    titles (generate_asset_dependency_tasks codes code_points garage)
    ≡ "Check old boots for \"Ski week\"" ∷ "Verify tire chains fit the 2019 Honda Pilot" ∷ []
unfolding dependencies
garage_run = refl

-- No gear is said to fit a vehicle: the words for gear name no chain, rack or hitch.
never_fitted :
    all
      (λ kind. all (λ hint. not (is_fitted hint)) (kind_asset_hints kind).gear)
      (SeasonalKind.camp ∷ SeasonalKind.sports ∷ SeasonalKind.campsite ∷ SeasonalKind.ski_trip
        ∷ SeasonalKind.trip ∷ [])
    ≡ true
never_fitted = refl

abbrev no_dates : String → Option IsoDateTime
no_dates s = none

abbrev chain : ChainInput
chain = record {
  project = ski_week;
  assets = boots ∷ [];
  members = family;
  now = date noon;
  growth_age_ceiling = some 12;
}

chain_runs :
    generate_dependency_chain no_dates codes code_points chain
    ≡ ok (
        asset_task codes (record garage { assets = boots ∷ [] }) boots
        ∷ audit_task ski_week kid
        ∷ [])
unfolding dependencies
chain_runs = refl
