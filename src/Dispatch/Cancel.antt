-- ===== src/Dispatch/Cancel.antt =====
-- netbox_config_backup/services/run_cancellation.py: the cancellation of a queued run. The job of the
-- run is a parameter: whether NetBox has it, whether it runs, and whether its removal raises.
use netbox_plugin_backup.Prelude.{
  ℕ, Bool, true, false, not, Option, none, some, is_some, List, [], ◌∷◌, map, String, Result, ok,
  err, ◌>>=◌, ◌>>◌, require, nat_beq, if◌then◌else◌,
}
use netbox_plugin_backup.Choices.{RunStatus}
use netbox_plugin_backup.Records.{BackupRun}
use netbox_plugin_backup.Dispatch.{Ledger}

pub record CoreJob : Type 0 where
  pub is_running : Bool
  pub is_removable : Bool

-- BackupRunCancellationError with its message, or BackupRun.DoesNotExist.
pub data CancellationError : Type 0 where
  cancellation_error : String → CancellationError
  no_such_run : CancellationError

unfoldable pub find_run : ℕ → List BackupRun → Option BackupRun
find_run i [] = none
find_run i (r ∷ rs) = let rest = find_run i rs in if nat_beq r.id i then some r else rest

abbrev pub found_run : Option BackupRun → Result CancellationError BackupRun
found_run none = err no_such_run
found_run (some r) = ok r

abbrev pub is_queued : RunStatus → Bool
is_queued RunStatus.queued = true
is_queued _ = false

abbrev pub job_of : (ℕ → Option CoreJob) → BackupRun → Option CoreJob
job_of jobs r = elim r.job_id [ none ↦ none | some i ↦ jobs i ]

abbrev pub is_started : Option CoreJob → Bool
is_started none = false
is_started (some job) = job.is_running

-- Without a job there is nothing to remove.
abbrev pub can_remove : Option CoreJob → Bool
can_remove none = true
can_remove (some job) = job.is_removable

abbrev cancelled : ℕ → BackupRun → BackupRun
cancelled now r = record r {
  status = RunStatus.skipped;
  finished_at = some now;
  error_code = "CANCELLED";
  error_message = "Queued backup was cancelled before execution.";
}

unfoldable pub save_cancelled : ℕ → ℕ → List BackupRun → List BackupRun
save_cancelled i now rs = map (λ (r : BackupRun). if nat_beq r.id i then cancelled now r else r) rs

-- The rows after it, and whether a job was removed.
unfoldable pub cancel_queued_backup_run :
    (ℕ → Option CoreJob) → ℕ → ℕ → Ledger → Result CancellationError (Ledger × Bool)
cancel_queued_backup_run jobs now i l = do
  r ← found_run (find_run i l.runs)
  require (is_queued r.status)
      (cancellation_error "Only a backup run which is still queued can be cancelled.")
  require (not (is_started (job_of jobs r))) (
      cancellation_error
        "The worker has already started this backup; wait for it to finish or become stale.")
  require (can_remove (job_of jobs r))
      (cancellation_error "The queued Redis job could not be cancelled. Nothing was changed.")
  ok (record l { runs = save_cancelled i now l.runs }, is_some (job_of jobs r))
