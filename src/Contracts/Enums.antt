-- ===== src/Contracts/Enums.antt =====
-- packages/contracts/src/enums.ts: the enumerations, with the source's values as constructors.
-- Two enumerations may share a value; `Type.value` tells them apart.
use nestai.Prelude.{ℕ, Bool, true, false, ◌==◌}

-- Member's relationship/authority within the household.
pub data Role : Type 0 where
  head dependent third_party : Role

-- Coarse availability state of a member right now.
pub data AvailabilityState : Type 0 where
  available busy travel : AvailabilityState

-- How time-sensitive a task is.
pub data TaskUrgency : Type 0 where
  low med high critical : TaskUrgency

-- Lifecycle state of a task.
pub data TaskStatus : Type 0 where
  opened assigned claimed dropped done blocked : TaskStatus

-- Domain category used for routing and reporting.
pub data TaskCategory : Type 0 where
  maintenance school errand admin event seasonal wellness logistics : TaskCategory

-- Source channel a raw message / event was ingested from.
pub data IngestionKind : Type 0 where
  calendar whatsapp email upload screenshot : IngestionKind

-- Why a task requires human approval before it can proceed.
pub data ApprovalReason : Type 0 where
  permission_slip fee quote assignment other : ApprovalReason

-- Decision state of an approval request.
pub data ApprovalStatus : Type 0 where
  pending approved rejected cancelled : ApprovalStatus

-- Outbound notification delivery channel.
pub data NotificationChannel : Type 0 where
  email sms whatsapp : NotificationChannel

-- The kind of notification being sent.
pub data NotificationType : Type 0 where
  daily_digest jit_reminder approval_request escalation_broadcast critical_override sunday_checkin
        milestone wellness_suggestion claim_window :
      NotificationType

-- Category of a seasonal/recurring household project.
pub data SeasonalKind : Type 0 where
  camp sports campsite ski_trip trip : SeasonalKind

-- Tracking state of a seasonal project.
pub data SeasonalStatus : Type 0 where
  searching tracking confirmed : SeasonalStatus

-- Lead-time stage of a milestone relative to an event.
pub data MilestoneStage : Type 0 where
  prep_30d asset_check_14d final_48h jit_15m : MilestoneStage

-- Kind of household asset tracked for readiness checks.
pub data AssetKind : Type 0 where
  vehicle gear : AssetKind

-- Where an availability block was derived from.
pub data AvailabilitySource : Type 0 where
  nl_text sunday_checkin screenshot_ocr : AvailabilitySource

-- Kind of scheduling conflict detected by the planner.
pub data ConflictType : Type 0 where
  sole_driver ripple_shift buffer_squeeze : ConflictType

-- Severity of a detected conflict.
pub data ConflictSeverity : Type 0 where
  low medium high : ConflictSeverity

-- Type of well-being goal a member can set.
pub data WellnessKind : Type 0 where
  gym quiet date_night custom : WellnessKind

-- Cadence over which a wellness goal is measured.
pub data WellnessPeriod : Type 0 where
  weekly biweekly : WellnessPeriod

-- Status of a single suggested wellness window.
pub data WellnessWindowStatus : Type 0 where
  suggested claimed slid missed : WellnessWindowStatus

-- PII token classes used when scrubbing raw inbound content.
pub data PiiTokenType : Type 0 where
  address ssn phone email financial corp_logo name : PiiTokenType

-- Generic sync/processing status shared by ingestion sources and messages.
pub data ProcessingStatus : Type 0 where
  pending processing processed failed : ProcessingStatus

-- Delivery status of an outbound notification.
pub data NotificationStatus : Type 0 where
  scheduled sent failed cancelled : NotificationStatus

-- Connection/sync status of an ingestion source.
pub data IngestionSourceStatus : Type 0 where
  active paused error disconnected : IngestionSourceStatus

-- `===` on the values that the program compares.
abbrev pub is_dependent : Role → Bool
is_dependent Role.dependent = true
is_dependent _ = false

abbrev pub is_head : Role → Bool
is_head Role.head = true
is_head _ = false

abbrev pub is_available : AvailabilityState → Bool
is_available AvailabilityState.available = true
is_available _ = false

abbrev pub category_index : TaskCategory → ℕ
category_index maintenance = 0
category_index school = 1
category_index errand = 2
category_index admin = 3
category_index event = 4
category_index seasonal = 5
category_index wellness = 6
category_index logistics = 7

abbrev pub same_category : TaskCategory → TaskCategory → Bool
same_category a b = category_index a == category_index b

abbrev pub is_claimed : WellnessWindowStatus → Bool
is_claimed WellnessWindowStatus.claimed = true
is_claimed _ = false
