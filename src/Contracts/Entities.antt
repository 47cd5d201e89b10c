-- ===== src/Contracts/Entities.antt =====
-- packages/contracts/src/entities.ts and providers.ts: the records that the engines and the API
-- exchange. A timestamp that the schemas validate is held by its time value. Numbers that may have
-- a fraction are counted in a small unit, which the field's comment names.
use nestai.Prelude.{ℕ, Bool, List, Option, String}
use nestai.Prelude.Int.{ℤ}
use nestai.Contracts.Enums.{
  Role, AvailabilityState, TaskUrgency, TaskStatus, TaskCategory, ApprovalReason, ApprovalStatus,
  SeasonalKind, SeasonalStatus, MilestoneStage, AvailabilitySource, WellnessKind, WellnessPeriod,
  WellnessWindowStatus, AssetKind, IngestionKind, IngestionSourceStatus, NotificationChannel,
  NotificationType, NotificationStatus, ConflictType, ConflictSeverity, PiiTokenType,
  ProcessingStatus,
}

-- The milliseconds since the earliest date of the language, 8.64e15 before 1970: no valid date has
-- a negative count, and differences and order are those of the time values.
abbrev pub IsoDateTime : Type 0
IsoDateTime = ℕ

-- A JSON value, a number by its text; an array and an object by their elements in order.
mutual
  pub data JsonValue : Type 0 where
    text : String → JsonValue
    number : String → JsonValue
    boolean : Bool → JsonValue
    null : JsonValue
    array : JsonArray → JsonValue
    object : JsonRecord → JsonValue

  pub data JsonArray : Type 0 where
    nil : JsonArray
    cons : JsonValue → JsonArray → JsonArray

  pub data JsonRecord : Type 0 where
    empty : JsonRecord
    entry : String → JsonValue → JsonRecord → JsonRecord

-- Coordinates in millionths of a degree.
pub record Location : Type 0 where
  pub label : String
  pub address : Option String
  pub lat : Option ℤ
  pub lng : Option ℤ

pub record TimeWindow : Type 0 where
  pub start : IsoDateTime
  pub end : IsoDateTime

pub record Household : Type 0 where
  pub id : String
  pub name : String
  pub timezone : String
  pub digest_time_local : String
  pub sunday_checkin_time_local : String

pub record Member : Type 0 where
  pub id : String
  pub household_id : String
  pub display_name : String
  pub role : Role
  pub birth_date : Option String
  pub skills : List String
  pub driving_privileges : Bool
  pub home_location : Option Location
  pub office_location : Option Location
  pub commute_minutes : Option ℕ
  pub availability_state : AvailabilityState
  pub contact_email : Option String
  pub contact_phone : Option String
  pub messaging_handle : Option String
  pub active : Bool

pub record IngestionSource : Type 0 where
  pub id : String
  pub household_id : String
  pub kind : IngestionKind
  pub provider : String
  pub external_ref : Option String
  pub config : JsonRecord
  pub last_synced_at : Option IsoDateTime
  pub status : IngestionSourceStatus

pub record PiiToken : Type 0 where
  pub token : String
  pub type : PiiTokenType
  pub original : Option String

pub record RawMessage : Type 0 where
  pub id : String
  pub household_id : String
  pub source_id : Option String
  pub raw_text : String
  pub scrubbed_text : Option String
  pub token_map : Option (List PiiToken)
  pub media_url : Option String
  pub media_type : Option String
  pub received_at : IsoDateTime
  pub processed_at : Option IsoDateTime
  pub purge_after : Option IsoDateTime
  pub status : ProcessingStatus

pub record Event : Type 0 where
  pub id : String
  pub household_id : String
  pub title : String
  pub starts_at : IsoDateTime
  pub ends_at : Option IsoDateTime
  pub location : Option Location
  pub all_day : Bool
  pub source_id : Option String
  pub owner_member_id : Option String
  pub color_tag : Option String
  pub external_id : Option String

-- The confidence in hundredths.
pub record Task : Type 0 where
  pub id : String
  pub household_id : String
  pub title : String
  pub description : Option String
  pub due_at : Option IsoDateTime
  pub urgency : TaskUrgency
  pub status : TaskStatus
  pub category : TaskCategory
  pub assigned_member_id : Option String
  pub required_skills : List String
  pub min_age : Option ℕ
  pub max_age : Option ℕ
  pub recurrence_rule : Option String
  pub source_message_id : Option String
  pub requires_approval : Bool
  pub confidence : ℕ
  pub created_at : IsoDateTime

-- The amount in cents.
pub record Approval : Type 0 where
  pub id : String
  pub household_id : String
  pub task_id : String
  pub requested_by_id : String
  pub status : ApprovalStatus
  pub decided_by_id : Option String
  pub decided_at : Option IsoDateTime
  pub reason : ApprovalReason
  pub amount : Option ℕ

pub record Notification : Type 0 where
  pub id : String
  pub household_id : String
  pub member_id : String
  pub channel : NotificationChannel
  pub type : NotificationType
  pub payload : JsonRecord
  pub scheduled_for : IsoDateTime
  pub sent_at : Option IsoDateTime
  pub status : NotificationStatus
  pub provider_ref : Option String

pub record RoutingRule : Type 0 where
  pub id : String
  pub household_id : String
  pub name : String
  pub match_category : Option TaskCategory
  pub match_skills : List String
  pub min_age : Option ℕ
  pub max_age : Option ℕ
  pub assign_to_member_id : Option String
  pub priority : ℤ

pub record SeasonalProject : Type 0 where
  pub id : String
  pub household_id : String
  pub kind : SeasonalKind
  pub status : SeasonalStatus
  pub title : String
  pub target_window : Option TimeWindow

pub record RegistrationTimeline : Type 0 where
  pub id : String
  pub household_id : String
  pub kind : SeasonalKind
  pub region : Option String
  pub label : String
  pub opens_rule : String
  pub lead_days : ℕ

pub record Milestone : Type 0 where
  pub id : String
  pub household_id : String
  pub seasonal_project_id : String
  pub stage : MilestoneStage
  pub fire_at : IsoDateTime
  pub content : String
  pub fired : Bool

pub record HouseholdAsset : Type 0 where
  pub id : String
  pub household_id : String
  pub kind : AssetKind
  pub name : String
  pub attrs : JsonRecord
  pub last_checked_at : Option IsoDateTime

pub record TaskDependency : Type 0 where
  pub id : String
  pub household_id : String
  pub task_id : String
  pub depends_on_asset_id : Option String
  pub depends_on_child_id : Option String
  pub reason : Option String

pub record ClaimToken : Type 0 where
  pub token : String
  pub task_id : String
  pub escalation_event_id : Option String
  pub member_id : Option String
  pub expires_at : IsoDateTime
  pub redeemed_at : Option IsoDateTime

pub record EscalationEvent : Type 0 where
  pub id : String
  pub household_id : String
  pub task_id : String
  pub tier : ℕ
  pub broadcast_at : Option IsoDateTime
  pub claimed_by_id : Option String
  pub resolved_at : Option IsoDateTime
  pub deadline : IsoDateTime
  pub created_at : IsoDateTime

pub record AvailabilityBlock : Type 0 where
  pub id : String
  pub household_id : String
  pub member_id : String
  pub kind : AvailabilityState
  pub starts_at : IsoDateTime
  pub ends_at : IsoDateTime
  pub source : AvailabilitySource
  pub purge_raw_after : Option IsoDateTime

pub record Conflict : Type 0 where
  pub id : String
  pub household_id : String
  pub type : ConflictType
  pub severity : ConflictSeverity
  pub description : String
  pub mitigation : String
  pub window_start : Option IsoDateTime
  pub window_end : Option IsoDateTime
  pub related_task_id : Option String

pub record WellnessGoal : Type 0 where
  pub id : String
  pub household_id : String
  pub member_id : String
  pub kind : WellnessKind
  pub target_count : ℕ
  pub duration_min : ℕ
  pub period : WellnessPeriod

pub record WellnessWindow : Type 0 where
  pub id : String
  pub household_id : String
  pub member_id : String
  pub goal_id : Option String
  pub starts_at : IsoDateTime
  pub ends_at : IsoDateTime
  pub status : WellnessWindowStatus

-- Percentages in tenths.
pub record BalanceBattery : Type 0 where
  pub member_id : String
  pub goal_completion_pct : ℕ
  pub logistics_load_pct : ℕ

pub record LoadEquity : Type 0 where
  pub member_id : String
  pub share_pct : ℕ
  pub task_load : ℕ

pub record TaskDraft : Type 0 where
  pub title : String
  pub description : Option String
  pub due_at : Option IsoDateTime
  pub urgency : TaskUrgency
  pub category : TaskCategory
  pub required_skills : List String
  pub min_age : Option ℕ
  pub max_age : Option ℕ
  pub requires_approval : Bool
