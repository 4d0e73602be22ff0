-- ===== src/Dispatch.antt =====
-- netbox_config_backup/services/dispatcher.py and services/queueing.py: how runs are queued, one
-- target after another (Round has the whole dispatch, Cancel services/run_cancellation.py). The rows of targets and runs change one transaction at a time;
-- what raises leaves them as they were. The job queue of NetBox is a parameter: the jobs that it
-- makes, whether a worker serves it, and how a job's removal ends.
pub mod Round
pub mod Cancel
pub mod Laws
pub mod Turns
pub mod Live
pub mod Released
pub mod Served
pub mod Candidates
mod Tests
use netbox_plugin_backup.Prelude.{
  ℕ, suc, ◌+◌, Bool, true, false, not, ◌&&◌, ◌||◌, Option, none, some, is_some, List, [], ◌∷◌, ◌++◌,
  map, String, Result, ok, err, ◌>>=◌, ◌>>◌, require, any_of, keep_if, length, take, nat_beq, ltb,
  leb, ◌==◌, if◌then◌else◌,
}
use netbox_plugin_backup.Choices.{
  RunStatus, is_active_run, RunSource, TargetStatus, target_status_eq,
}
use netbox_plugin_backup.Clock.{PyError}
use netbox_plugin_backup.Records.{BackupPolicy, BackupTarget, DedupeKey, BackupRun}
use netbox_plugin_backup.Scheduling.{
  Services, aware, is_retry_scheduled, target_timezone_name, calculate_next_run,
  apply_target_schedule,
}

-- The rows of all targets and of all runs, the newest run first, and the key of the next run.
pub record Ledger : Type 0 where
  pub targets : List BackupTarget
  pub runs : List BackupRun
  pub next_run_id : ℕ

-- IntegrityError of a unique constraint, a row that is gone, or another exception.
pub data DispatchError : Type 0 where
  integrity_error target_gone run_gone enqueue_failed : DispatchError
  schedule_error : PyError → DispatchError

abbrev source_code : RunSource → ℕ
source_code RunSource.scheduled = 0
source_code RunSource.manual = 1
source_code RunSource.retry = 2
source_code RunSource.pre_change = 3

-- Two texts of `dedupe_key` are the same; a null is the same as nothing.
abbrev pub same_dedupe_key : Option DedupeKey → Option DedupeKey → Bool
same_dedupe_key none k = false
same_dedupe_key (some a) none = false
same_dedupe_key (some a) (some b) =
    nat_beq (source_code a.source) (source_code b.source) && nat_beq a.scheduled_for b.scheduled_for

abbrev pub is_active_of : ℕ → BackupRun → Bool
is_active_of target r = nat_beq r.target target && is_active_run r.status

-- `BackupRun.objects.filter(target=target, status__in=ACTIVE_RUN_STATUSES).exists()`
unfoldable pub has_active : ℕ → List BackupRun → Bool
has_active target = any_of (is_active_of target)

-- The target has a run with this key: ncb_run_target_dedupe.
unfoldable pub has_key : ℕ → Option DedupeKey → List BackupRun → Bool
has_key target key = any_of (λ r. nat_beq r.target target && same_dedupe_key r.dedupe_key key)

-- `BackupRun.objects.create`: a queued run, if the two unique constraints of the model allow it.
abbrev pub queued_run : Ledger → ℕ → RunSource → Option ℕ → Option DedupeKey → ℕ → BackupRun
queued_run l target source scheduled_for dedupe_key now = record {
  id = l.next_run_id;
  target = target;
  status = RunStatus.queued;
  source = source;
  scheduled_for = scheduled_for;
  dedupe_key = dedupe_key;
  job_id = none;
  queued_at = now;
  started_at = none;
  finished_at = none;
  changed = false;
  raw_changed = false;
  revision = none;
  error_code = "";
  error_message = "";
}

-- The job of a run, or nothing if it could not be enqueued.
abbrev pub JobQueue : Type 0
JobQueue = ℕ → Option ℕ

abbrev pub add_run : BackupRun → ℕ → Ledger → Ledger
add_run r job l = record l {
  runs = record r { job_id = some job } ∷ l.runs;
  next_run_id = l.next_run_id + 1;
}

abbrev pub enqueued : BackupRun → Ledger → Option ℕ → Result DispatchError Ledger
enqueued r l none = err enqueue_failed
enqueued r l (some job) = ok (add_run r job l)

unfoldable pub enqueue_backup_run :
    JobQueue
    → ℕ
    → RunSource
    → Option ℕ
    → Option DedupeKey
    → ℕ
    → Ledger
    → Result DispatchError Ledger
unfolding has_active has_key
enqueue_backup_run enqueue target source scheduled_for dedupe_key now l =
    if has_active target l.runs || has_key target dedupe_key l.runs
    then err integrity_error
    else enqueued (queued_run l target source scheduled_for dedupe_key now) l
        (enqueue l.next_run_id)

unfoldable pub find_target : ℕ → List BackupTarget → Option BackupTarget
find_target i [] = none
find_target i (t ∷ ts) = let rest = find_target i ts in if nat_beq t.id i then some t else rest

-- `target.save(update_fields=("next_run_at", ...))`
unfoldable pub save_next_run : ℕ → Option ℕ → List BackupTarget → List BackupTarget
save_next_run i next ts =
    map (λ (t : BackupTarget). if nat_beq t.id i then record t { next_run_at = next } else t) ts

-- The policy of a target that is enabled with it.
abbrev pub enabled_policy : BackupTarget → Option BackupPolicy
enabled_policy t = elim t.policy_override [
  | none ↦ none
  | some p ↦ if t.enabled && p.enabled then some p else none
]

-- The policy and the time of a target that is due.
abbrev due_time : ℕ → BackupPolicy → Option ℕ → Option (BackupPolicy × ℕ)
due_time now p none = none
due_time now p (some t) = if leb t now then some (p, t) else none

abbrev due_policy : ℕ → Option BackupPolicy → Option ℕ → Option (BackupPolicy × ℕ)
due_policy now none next = none
due_policy now (some p) next = due_time now p next

unfoldable pub due_of : ℕ → BackupTarget → Option (BackupPolicy × ℕ)
due_of now t = due_policy now (enabled_policy t) t.next_run_at

-- `retry` and `source`
unfoldable pub dispatch_source : BackupTarget → RunSource
dispatch_source t =
    if t.status == TargetStatus.failed
      && is_retry_scheduled t.policy_override t.consecutive_failures
    then RunSource.retry
    else RunSource.scheduled

abbrev pub dispatch_key : BackupTarget → ℕ → DedupeKey
dispatch_key t scheduled_for = record { source = dispatch_source t; scheduled_for = scheduled_for }

pub record DispatchSummary : Type 0 where
  pub initialized : ℕ
  pub due : ℕ
  pub queued : ℕ
  pub skipped_active : ℕ
  pub conflicts : ℕ
  pub worker_unavailable : Bool
  pub worker_state_unknown : Bool

-- What one turn of the loop comes to.
pub data Turn : Type 0 where
  passed_over skipped conflict : Turn
  queued_in : Ledger → Turn
  raised : DispatchError → Turn

abbrev pub scheduled_at : Result PyError ℕ → Result DispatchError ℕ
scheduled_at (ok t) = ok t
scheduled_at (err e) = err (schedule_error e)

abbrev pub turn_of : Result DispatchError Ledger → Turn
turn_of (ok m) = queued_in m
turn_of (err integrity_error) = conflict
turn_of (err e) = raised e

module _ (env : Services) (enqueue : JobQueue) (now : ℕ) where
  -- The transaction from the choice of the source on.
  unfoldable pub queue_target :
      BackupTarget → BackupPolicy → ℕ → Ledger → Result DispatchError Ledger
  queue_target t p scheduled_for l = do
    next ← scheduled_at (
        calculate_next_run env p (aware scheduled_for) t.key (target_timezone_name env t)
          (some (aware now)))
    enqueue_backup_run enqueue t.id (dispatch_source t) (some scheduled_for)
        (some (dispatch_key t scheduled_for)) now
        (record l { targets = save_next_run t.id (some next) l.targets })

  abbrev pub dispatch_due : BackupTarget → Ledger → Option (BackupPolicy × ℕ) → Turn
  dispatch_due t l none = passed_over
  dispatch_due t l (some (p, scheduled_for)) =
      if has_active t.id l.runs then skipped else turn_of (queue_target t p scheduled_for l)

  abbrev pub dispatch_found : Ledger → Option BackupTarget → Turn
  dispatch_found l none = raised target_gone
  dispatch_found l (some t) = dispatch_due t l (due_of now t)

  unfoldable pub dispatch_one : ℕ → Ledger → Turn
  dispatch_one i l = dispatch_found l (find_target i l.targets)

  -- The loop: the rows and the counts after it, and the exception that ended it.
  pub record Dispatched : Type 0 where
    pub ledger : Ledger
    pub summary : DispatchSummary
    pub outcome : Result DispatchError (Unit {0})

  abbrev pub after_turn :
      Turn → Ledger → DispatchSummary → (Ledger → DispatchSummary → Dispatched) → Dispatched
  after_turn passed_over l s next = next l s
  after_turn skipped l s next = next l (record s { skipped_active = s.skipped_active + 1 })
  after_turn (queued_in m) l s next = next m (record s { queued = s.queued + 1 })
  after_turn conflict l s next = next l (record s { conflicts = s.conflicts + 1 })
  after_turn (raised e) l s next = record { ledger = l; summary = s; outcome = err e }

  unfoldable pub dispatch_each : List ℕ → Ledger → DispatchSummary → Dispatched
  dispatch_each [] l s = record { ledger = l; summary = s; outcome = ok tt }
  dispatch_each (i ∷ ids) l s = after_turn (dispatch_one i l) l s (λ m u. dispatch_each ids m u)
