-- ===== src/Core/Dependencies.antt =====
-- packages/core/src/dependencies/dependencies.ts. `lower` is a text in lower case, by the host's
-- tables of characters, as the codes of its characters.
pub mod Checks
pub mod Audits
pub mod Chain
mod Tests
use nestai.Prelude.{
  ℕ, Bool, true, false, not, ◌&&◌, ◌||◌, String, List, [], ◌∷◌, ◌++◌, map, Option, none, some, ltb,
  leb, str_eq, if◌then◌else◌, filter, find, any, take, head?,
}
use nestai.Prelude.Results.{Result, ok, ◌>>=◌}
use nestai.Prelude.Sorting.{sort_by}
use nestai.Contracts.Enums.{SeasonalKind, AssetKind, TaskUrgency, TaskCategory, is_dependent}
use nestai.Contracts.Enums.SeasonalKind.{camp, sports, campsite, ski_trip, trip}
use nestai.Contracts.Entities.{
  IsoDateTime, Member, SeasonalProject, HouseholdAsset, TaskDraft, JsonValue, object, text, null,
}
use nestai.Core.Json.{shown, stringify, field}
use nestai.Core.Locale.{Locale}
use nestai.Core.Routing.Age.{compute_age}
use nestai.Core.Text.{◌+++◌, codes, contains, trim}
use nestai.Core.Time.{Clock}

pub record DependencyEdge : Type 0 where
  pub depends_on_asset_id : Option String
  pub depends_on_child_id : Option String
  pub reason : String

pub record DependencyTask : Type 0 where
  pub task : TaskDraft
  pub edge : DependencyEdge

pub record AssetHints : Type 0 where
  pub vehicle : List String
  pub gear : List String

abbrev pub kind_asset_hints : SeasonalKind → AssetHints
kind_asset_hints ski_trip = record {
  vehicle = "tire chains" ∷ "snow tires" ∷ "roof rack" ∷ "antifreeze" ∷ [];
  gear = "skis" ∷ "snowboard" ∷ "boots" ∷ "helmet" ∷ "goggles" ∷ "snow jacket" ∷ [];
}
kind_asset_hints campsite = record {
  vehicle = "roof rack" ∷ "hitch" ∷ "spare tire" ∷ [];
  gear = "tent" ∷ "sleeping bag" ∷ "stove" ∷ "cooler" ∷ "headlamp" ∷ [];
}
kind_asset_hints trip = record {
  vehicle = "spare tire" ∷ "roof rack" ∷ [];
  gear = "luggage" ∷ "car seat" ∷ [];
}
kind_asset_hints camp = record {
  vehicle = [];
  gear = "backpack" ∷ "water bottle" ∷ "sleeping bag" ∷ [];
}
kind_asset_hints sports = record {
  vehicle = [];
  gear = "cleats" ∷ "shin guards" ∷ "jersey" ∷ "mouthguard" ∷ [];
}

abbrev kind_value : SeasonalKind → String
kind_value camp = "CAMP"
kind_value sports = "SPORTS"
kind_value campsite = "CAMPSITE"
kind_value ski_trip = "SKI_TRIP"
kind_value trip = "TRIP"

abbrev pub is_vehicle : AssetKind → Bool
is_vehicle AssetKind.vehicle = true
is_vehicle AssetKind.gear = false

abbrev pub same_kind : AssetKind → AssetKind → Bool
same_kind AssetKind.vehicle k = is_vehicle k
same_kind AssetKind.gear k = not (is_vehicle k)

abbrev join : String → List String → String
join sep [] = ""
join sep (x ∷ []) = x
join sep (x ∷ y ∷ rest) = x +++ sep +++ join sep (y ∷ rest)

-- `[v]`, unless it is missing, null or the empty text.
abbrev part : Option JsonValue → List String
part none = []
part (some null) = []
part (some v) = if str_eq (shown v) "" && is_text v then [] else shown v ∷ []
  where
    is_text : JsonValue → Bool
    is_text (text s) = true
    is_text other = false

abbrev pub describe_asset : HouseholdAsset → String
describe_asset asset =
    let built : String = trim (
      join " " (
        part (field "year" asset.attrs)
        ++ part (field "make" asset.attrs)
        ++ part (field "model" asset.attrs))) in
    if str_eq built "" then asset.name else built

-- A match, with the hint that is found, if one is.
pub data Match : Type 0 where
  unmatched : Match
  matched : Option String → Match

abbrev hint_match : Option String → Bool → Match
hint_match (some hint) driven = matched (some hint)
hint_match none true = matched none
hint_match none false = unmatched

abbrev is_empty : List String → Bool
is_empty [] = true
is_empty (x ∷ xs) = false

abbrev pub is_match : Match → Bool
is_match unmatched = false
is_match (matched hint) = true

-- The fields that the two kinds of tasks share.
abbrev readiness_task : String → String → TaskDraft
readiness_task title description = record {
  title = title;
  description = some description;
  due_at = none;
  urgency = TaskUrgency.med;
  category = TaskCategory.seasonal;
  required_skills = [];
  min_age = none;
  max_age = none;
  requires_approval = false;
}

abbrev quoted : String → String
quoted s = "\"" +++ s +++ "\""

abbrev or_text : Option String → String → String
or_text none other = other
or_text (some s) other = s

-- /chain|rack|hitch/
abbrev pub is_fitted : String → Bool
is_fitted hint = any (λ word. contains (codes word) (codes hint)) ("chain" ∷ "rack" ∷ "hitch" ∷ [])

abbrev gear_title : HouseholdAsset → SeasonalProject → Option HouseholdAsset → String → String
gear_title asset project none hint = "Check " +++ asset.name +++ " for " +++ quoted project.title
gear_title asset project (some vehicle) hint =
    if is_fitted hint
    then "Verify " +++ asset.name +++ " fit the " +++ describe_asset vehicle
    else "Check " +++ asset.name +++ " for " +++ quoted project.title

abbrev vehicle_title : HouseholdAsset → SeasonalProject → String
vehicle_title asset project =
    "Verify "
    +++ or_text (head? (kind_asset_hints project.kind).vehicle) "winter readiness"
    +++ " fit the "
    +++ describe_asset asset

abbrev title_of :
    AssetKind → Option String → HouseholdAsset → SeasonalProject → Option HouseholdAsset → String
title_of AssetKind.gear (some hint) asset project vehicle = gear_title asset project vehicle hint
title_of AssetKind.vehicle hint asset project vehicle = vehicle_title asset project
title_of AssetKind.gear none asset project vehicle =
    "Ready " +++ asset.name +++ " for " +++ quoted project.title

abbrev hint_of : Match → Option String
hint_of unmatched = none
hint_of (matched hint) = hint

abbrev first_vehicle : List HouseholdAsset → Option HouseholdAsset
first_vehicle assets = head? (filter (λ a. is_vehicle a.kind) assets)

pub record AssetDependencyInput : Type 0 where
  pub project : SeasonalProject
  pub assets : List HouseholdAsset
  pub kinds : Option (List AssetKind)

abbrev pub is_considered : Option (List AssetKind) → AssetKind → Bool
is_considered none kind = true
is_considered (some kinds) kind = any (λ k. same_kind k kind) kinds

abbrev pub by_title : Locale → DependencyTask → DependencyTask → Bool
by_title L a b = L.le a.task.title b.task.title

module _ (lower : String → List ℕ) where
  abbrev pub asset_matches_kind : HouseholdAsset → SeasonalKind → Match
  asset_matches_kind asset kind =
      let hints : AssetHints = kind_asset_hints kind in
      let pool : List String = if is_vehicle asset.kind then hints.vehicle else hints.gear in
      let hay : List ℕ = lower (asset.name +++ " " +++ stringify (object asset.attrs)) in
      hint_match (find (λ hint. contains (codes hint) hay) pool)
        (is_vehicle asset.kind && not (is_empty hints.vehicle))

  abbrev pub asset_task : AssetDependencyInput → HouseholdAsset → DependencyTask
  asset_task input asset =
      let project : SeasonalProject = input.project in
      record {
        task =
            readiness_task
              (title_of asset.kind (hint_of (asset_matches_kind asset project.kind)) asset project
                (first_vehicle input.assets))
              ("Asset readiness check ahead of " +++ quoted project.title +++ ".");
        edge = record {
          depends_on_asset_id = some asset.id;
          depends_on_child_id = none;
          reason = kind_value project.kind +++ " readiness for " +++ asset.name;
        };
      }

  -- The loop over the assets.
  unfoldable pub asset_tasks : AssetDependencyInput → List HouseholdAsset → List DependencyTask
  asset_tasks input [] = []
  asset_tasks input (asset ∷ assets) =
      let rest : List DependencyTask = asset_tasks input assets in
      if not (is_considered input.kinds asset.kind)
      then rest
      else if not (is_match (asset_matches_kind asset input.project.kind))
      then rest
      else asset_task input asset ∷ rest

  unfoldable pub generate_asset_dependency_tasks :
      Locale → AssetDependencyInput → List DependencyTask
  generate_asset_dependency_tasks L input = sort_by (by_title L) (asset_tasks input input.assets)

pub record ChildGearAuditInput : Type 0 where
  pub project : SeasonalProject
  pub members : List Member
  pub now : Clock
  pub growth_age_ceiling : Option ℕ

abbrev pub ceiling_of : Option ℕ → ℕ
ceiling_of none = 14
ceiling_of (some n) = n

abbrev gear_items : SeasonalKind → String
gear_items kind =
    let gear : List String = (kind_asset_hints kind).gear in
    if is_empty gear then "gear" else join ", " (take 3 gear)

abbrev ski_word : SeasonalKind → String
ski_word ski_trip = "ski "
ski_word other = ""

abbrev pub audit_task : SeasonalProject → Member → DependencyTask
audit_task project member = record {
  task =
      readiness_task
        ("Size check "
          +++ member.display_name
          +++ "'s "
          +++ ski_word project.kind
          +++ "gear ("
          +++ gear_items project.kind
          +++ ")")
        ("Confirm "
          +++ member.display_name
          +++ "'s seasonal gear still fits before "
          +++ quoted project.title
          +++ "; kids outgrow gear season to season.");
  edge = record {
    depends_on_asset_id = none;
    depends_on_child_id = some member.id;
    reason =
        "Gear sizing audit for "
        +++ member.display_name
        +++ " ("
        +++ kind_value project.kind
        +++ ")";
  };
}

-- A known age above the ceiling.
abbrev pub is_grown : Option ℕ → ℕ → Bool
is_grown none ceiling = false
is_grown (some age) ceiling = ltb ceiling age

module _ (parse : String → Option IsoDateTime) where
  abbrev audit_age :
      ChildGearAuditInput → Member → List DependencyTask → Option ℕ → List DependencyTask
  audit_age input member rest age =
      if is_grown age (ceiling_of input.growth_age_ceiling)
      then rest
      else audit_task input.project member ∷ rest

  -- The loop over the members.
  unfoldable pub audit_tasks : ChildGearAuditInput → List Member → Result (List DependencyTask)
  audit_tasks input [] = ok []
  audit_tasks input (member ∷ members) =
      let rest : Result (List DependencyTask) = audit_tasks input members in
      if not (is_dependent member.role)
      then rest
      else (compute_age parse member.birth_date input.now >>= λ age.
          rest >>= λ tasks. ok (audit_age input member tasks age))

  unfoldable pub generate_child_gear_audit_tasks :
      Locale → ChildGearAuditInput → Result (List DependencyTask)
  generate_child_gear_audit_tasks L input =
      audit_tasks input input.members >>= λ tasks. ok (sort_by (by_title L) tasks)

pub record ChainInput : Type 0 where
  pub project : SeasonalProject
  pub assets : List HouseholdAsset
  pub members : List Member
  pub now : Clock
  pub growth_age_ceiling : Option ℕ

-- The inputs of the two parts.
abbrev pub asset_input : ChainInput → AssetDependencyInput
asset_input input = record { project = input.project; assets = input.assets; kinds = none }

abbrev pub audit_input : ChainInput → ChildGearAuditInput
audit_input input = record {
  project = input.project;
  members = input.members;
  now = input.now;
  growth_age_ceiling = input.growth_age_ceiling;
}

unfoldable pub generate_dependency_chain :
    (String → Option IsoDateTime)
    → (String → List ℕ)
    → Locale
    → ChainInput
    → Result (List DependencyTask)
generate_dependency_chain parse lower L input =
    generate_child_gear_audit_tasks parse L (audit_input input) >>= λ audits.
    ok (generate_asset_dependency_tasks lower L (asset_input input) ++ audits)
