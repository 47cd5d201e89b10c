-- ===== src/Lib.antt =====
-- NestAI: the deterministic engines of a household coordinator, and the state that they work on.
--
-- The program. Inbound messages become task drafts; the routing engine picks the member for a task;
-- a dropped task is escalated to a backup adult and can be claimed once; the wellbeing engine finds
-- free windows for a member and measures who carries the load. The engines are pure: the clock, the
-- members and the rules are arguments, and the API's services call them between reads and writes of
-- the database.
--
-- Files and what they model (paths from the repository's root):
--   Prelude         lists, Boolean tests, integers, stable sorting, results of code that throws
--   Contracts       packages/contracts/src: enums.ts (one data type per enum), entities.ts (one record
--                   per entity), the drafts of providers.ts
--   Core/Time       packages/core/src/time.ts: toDate, addMinutes, diffMinutes, windowsOverlap, ...
--   Core/Locale     String.prototype.localeCompare, which the engines sort ids with
--   Core/Calendar   the UTC year, month and day of a Date
--   Core/Routing    packages/core/src/routing: age.ts (computeAge), engine.ts (isEligible,
--                   ruleMatchesTask, ruleAppliesToMember, scoreCandidate, route)
--   Core/Escalation packages/core/src/escalation/escalation.ts: classifyUrgencyCascade, selectBackup,
--                   claim, reject, decideCriticalOverride
--   Core/Text, Core/Json
--                   what the engines use of the language's texts, regular expressions and JSON
--   Core/Seasonal   packages/core/src/seasonal/seasonal.ts: resolveGoalDate, computeMilestones;
--                   parseOpensRule in OpensRule, classifySeasonalIntent in Intent
--   Core/Recurrence packages/core/src/recurrence/recurrence.ts: expandRecurrence,
--                   generateMaintenanceTasks
--   Core/Dependencies
--                   packages/core/src/dependencies/dependencies.ts: generateAssetDependencyTasks,
--                   generateChildGearAuditTasks, generateDependencyChain
--   Core/Commute    packages/core/src/commute/commute.ts: filterByCommute, detectConflicts
--   Core/Wellbeing  packages/core/src/wellbeing/wellbeing.ts: computeGaps, findMicroWindows,
--                   computeLoadEquity, computeBalanceBattery
--   Api/Table       a table of the database, as the services call its client; Api/Table/Rows is one
--   Api/Database    the tables and the client's calls; services/api/src/tenant: tenant-context.ts and
--                   assertOwned of tenant-prisma.ts
--   Api/Action      what a service does to the stored state, and what it returns or throws
--   Api/TaskRows    the inputs, rows and answers of the tasks service
--   Api/Tasks       services/api/src/modules/tasks: tasks.service.ts (create, routeAndAssign, assign,
--                   drop, claim, setStatus), and the calls of tasks.controller.ts in Tasks/Tenancy
--   Api/Escalations services/api/src/modules/escalation/escalation.service.ts: broadcast and
--                   sweepCriticalOverrides
--   Api/Guard       services/api/src/tenant/household.guard.ts
--   Api/Owned       what these services share: the row of an id, which is a 404 when another household's,
--                   and the writes of one household
--   Api/Members     services/api/src/modules/members: members.service.ts and members.controller.ts
--   Api/Approvals   services/api/src/modules/approvals/approvals.service.ts
--   Api/Events      services/api/src/modules/events: events.service.ts and events.controller.ts
--   Api/Households  services/api/src/modules/household/household.service.ts
--   Api/Availability  services/api/src/modules/availability/availability.service.ts, without the
--                   screenshots
--   Api/Wellbeing   services/api/src/modules/wellbeing/wellbeing.service.ts
--   Api/Queue       services/api/src/queue: job-queue.ts, in-memory-job-queue.ts, with the timers that the
--                   host sets and runs
--   Api/Scheduler   services/api/src/scheduler/scheduler.service.ts: start, shutdown and every sweep
-- Each component's definitions are in its own file, and its proofs in the files below it, which are
-- named for what they prove. The files called Tests hold runs at concrete inputs.
--
-- Correspondence. A function of the source is the function of the same name, in this language's
-- spelling; a loop that pushes or continues is a structural recursion over the same list, and a helper
-- is split off where the source has one test or one addition. Code that throws returns a Result. Text
-- that only explains a decision (a rationale) is a value of a data type that has the same parts.
-- A time is a number of milliseconds since the earliest date that a Date can hold, so that it is never
-- negative; a Clock is such a time or an invalid date. Array.prototype.sort is a stable insertion
-- sort, which gives the same list for the comparators of the source. The source uses floating-point
-- numbers only for confidences, which are counted in hundredths, and for percentages, which are
-- computed as doubles (Prelude/Doubles) and counted in tenths of a per cent. Every loop is over a list
-- or a text; only the digits of a number are written with fuel, one more than the number, and the
-- scale of a double is found with fuel, each of which is shown to be enough.
-- The queue is a state with its calls as functions; a step is a call, a timer that is due, or time
-- that goes by, and the theorems are over all sequences of steps.
-- A service's operation takes the store, the request's household, the time and the ids that the
-- database draws, and returns the store and a result; what it throws leaves its earlier writes in
-- place, as in the source, which opens no transaction. The operations run one after the other.
--
-- Parameters. The host's parser of dates, a function from texts to times, and localeCompare, a record
-- with the order laws that a collation has. The host's lower-case tables, its Number and its
-- Intl, and the rrule library, a record whose occurrences keep to the window that is asked for. The
-- tables of the database, with the documented behaviour of the client's calls as laws (Api/Table);
-- Api/Table/Rows shows that the laws can hold. A service over one table takes that table, and what
-- draws the ids of new rows where it writes several. The bodies of requests have the fields of their
-- declared types, but for the update of a member, which may also send a household; and references
-- between tables are not checked.
--
-- Not modelled: the web application, the database schema and its migrations, the adapters to external
-- services, with the BullMQ driver, which are input and output; the ingestion, seasonal, school
-- and notifications services, the scrubber and the extractor; the distances
-- of assignByRouteSynergy, which are real numbers.
pub mod Api
pub mod Contracts
pub mod Core
pub mod Prelude
