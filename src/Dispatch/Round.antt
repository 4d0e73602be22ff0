-- ===== src/Dispatch/Round.antt =====
-- netbox_config_backup/services/dispatcher.py: `initialize_target_schedules` and `dispatch_due_targets`.
use netbox_plugin_backup.Prelude.{
  ℕ, ◌+◌, Bool, true, false, not, ◌&&◌, none, some, is_some, List, [], ◌∷◌, map, Result, ok, err,
  keep_if, length, take, leb, if◌then◌else◌,
}
use netbox_plugin_backup.Clock.{PyError}
use netbox_plugin_backup.Records.{BackupTarget}
use netbox_plugin_backup.Scheduling.{Services, apply_target_schedule}
use netbox_plugin_backup.Dispatch.{
  Ledger, DispatchError, schedule_error, JobQueue, enabled_policy, due_of, DispatchSummary,
  Dispatched, dispatch_each,
}

-- The schedules of targets that are not enabled, or whose policy is not, are cleared.
unfoldable pub clear_inactive : List BackupTarget → List BackupTarget
clear_inactive ts =
    map
      (λ (t : BackupTarget).
        if is_some (enabled_policy t) then t else record t { next_run_at = none })
      ts

abbrev pub needs_schedule : BackupTarget → Bool
needs_schedule t = is_some (enabled_policy t) && not (is_some t.next_run_at)

-- The targets after the loop, how many were given a schedule, and the exception that ended it.
pub record Initialized : Type 0 where
  pub targets : List BackupTarget
  pub count : ℕ
  pub outcome : Result PyError (Unit {0})

abbrev pub kept_first : BackupTarget → Initialized → Initialized
kept_first t rest = record rest { targets = t ∷ rest.targets }

abbrev pub applied_first :
    BackupTarget → List BackupTarget → Result PyError BackupTarget → Initialized → Initialized
applied_first t ts (ok u) rest = record rest { targets = u ∷ rest.targets; count = rest.count + 1 }
applied_first t ts (err e) rest = record { targets = t ∷ ts; count = 0; outcome = err e }

unfoldable pub apply_schedules : Services → ℕ → List BackupTarget → Initialized
apply_schedules env now [] = record { targets = []; count = 0; outcome = ok tt }
apply_schedules env now (t ∷ ts) =
    let rest = apply_schedules env now ts in
    if needs_schedule t
    then applied_first t ts (apply_target_schedule env t now) rest
    else kept_first t rest

unfoldable pub initialize_target_schedules : Services → ℕ → List BackupTarget → Initialized
initialize_target_schedules env now ts = apply_schedules env now (clear_inactive ts)

-- `next_run_at` of a target that is due, for the order.
abbrev pub time_of : BackupTarget → ℕ
time_of t = elim t.next_run_at [ none ↦ 0 | some at ↦ at ]

unfoldable pub insert_due : BackupTarget → List BackupTarget → List BackupTarget
insert_due t [] = t ∷ []
insert_due t (u ∷ us) =
    let rest = insert_due t us in if leb (time_of t) (time_of u) then t ∷ u ∷ us else u ∷ rest

-- `.order_by("next_run_at")`
unfoldable pub order_due : List BackupTarget → List BackupTarget
unfolding insert_due
order_due [] = []
order_due (t ∷ ts) = insert_due t (order_due ts)

-- `candidate_ids`
unfoldable pub candidate_ids : ℕ → ℕ → List BackupTarget → List ℕ
unfolding order_due
candidate_ids now limit ts =
    map (λ (t : BackupTarget). t.id)
      (take limit (order_due (keep_if (λ t. is_some (due_of now t)) ts)))

-- `any_workers_for_queue`, or the exception that it raised.
pub data Workers : Type 0 where
  live absent unknown : Workers

abbrev pub started : ℕ → ℕ → DispatchSummary
started initialized due = record {
  initialized = initialized;
  due = due;
  queued = 0;
  skipped_active = 0;
  conflicts = 0;
  worker_unavailable = false;
  worker_state_unknown = false;
}

module _ (env : Services) (enqueue : JobQueue) (now : ℕ) where
  abbrev pub stopped :
      Ledger → DispatchSummary → Result DispatchError (Unit {0}) → Dispatched env enqueue now
  stopped l s outcome = record { ledger = l; summary = s; outcome = outcome }

  abbrev pub dispatch_by : Workers → List ℕ → Ledger → DispatchSummary → Dispatched env enqueue now
  dispatch_by workers [] l s = stopped l s (ok tt)
  dispatch_by live (i ∷ ids) l s = dispatch_each env enqueue now (i ∷ ids) l s
  dispatch_by absent (i ∷ ids) l s = stopped l (record s { worker_unavailable = true }) (ok tt)
  dispatch_by unknown (i ∷ ids) l s = stopped l (record s { worker_state_unknown = true }) (ok tt)

  abbrev pub dispatch_initialized :
      Workers → ℕ → Ledger → Initialized → Result PyError (Unit {0}) → Dispatched env enqueue now
  dispatch_initialized workers limit l begun (err e) =
      stopped (record l { targets = begun.targets }) (started 0 0) (err (schedule_error e))
  dispatch_initialized workers limit l begun (ok u) =
      let ids = candidate_ids now limit begun.targets in
      dispatch_by workers ids (record l { targets = begun.targets })
        (started begun.count (length ids))

  unfoldable pub dispatch_due_targets : Workers → ℕ → Ledger → Dispatched env enqueue now
  unfolding initialize_target_schedules
  dispatch_due_targets workers limit l =
      let begun = initialize_target_schedules env now l.targets in
      dispatch_initialized workers limit l begun begun.outcome
