-- ===== src/Choices.antt =====
-- The enumerations of netbox_config_backup/choices.py: run, target and replica states, storage
-- protocols and run sources. A status column holds text, so a run status may also be any other
-- text, which the retention planner has to face.
use netbox_plugin_backup.Prelude.{ℕ, String, Bool, true, false, ◌≡◌, ◌↔◌, Key, arith, nat_beq}

pub data RunStatus : Type 0 where
  queued running success_changed success_unchanged partial failed errored skipped : RunStatus
  other : String → RunStatus

-- `status in (QUEUED, RUNNING)`
abbrev pub is_active_run : RunStatus → Bool
is_active_run RunStatus.queued = true
is_active_run RunStatus.running = true
is_active_run _ = false

pub data TargetStatus : Type 0 where
  never healthy failed stale disabled : TargetStatus

abbrev pub target_status_code : TargetStatus → ℕ
target_status_code TargetStatus.never = 0
target_status_code TargetStatus.healthy = 1
target_status_code TargetStatus.failed = 2
target_status_code TargetStatus.stale = 3
target_status_code TargetStatus.disabled = 4

abbrev pub target_status_beq : TargetStatus → TargetStatus → Bool
target_status_beq a b = nat_beq (target_status_code a) (target_status_code b)

pub target_status_beq_iff : (a b : TargetStatus) → (target_status_beq a b ≡ true) ↔ (a ≡ b)
target_status_beq_iff a b = ground arith

instance abbrev pub target_status_eq : Key TargetStatus
target_status_eq = record { same = target_status_beq; same_iff = target_status_beq_iff }

pub data ReplicaStatus : Type 0 where
  pending queued running success failed : ReplicaStatus

pub data Protocol : Type 0 where
  local sftp ftp nfs smb : Protocol

pub data RunSource : Type 0 where
  scheduled manual retry pre_change : RunSource
