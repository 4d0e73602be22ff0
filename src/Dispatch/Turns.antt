-- ===== src/Dispatch/Turns.antt =====
-- The loop of services/dispatcher.py: the turn of a target that is due.
use netbox_plugin_backup.Prelude.{ℕ, ◌≡◌, ◌≢◌, true, false, some, Result, ok, err, count_if}
use netbox_plugin_backup.Clock.{PyError}
use netbox_plugin_backup.Records.{BackupTarget}
use netbox_plugin_backup.Dispatch.{
  Ledger, Turn, passed_over, raised, is_active_of, has_active, has_key, dispatch_key, skipped,
  conflict, queued_in, integrity_error, scheduled_at,
}
use netbox_plugin_backup.Dispatch.Laws.{IsExclusive}

scheduled_at-conflict : (r : Result PyError ℕ) → scheduled_at r ≢ err integrity_error
scheduled_at-conflict (ok t) h = cc
scheduled_at-conflict (err e) h = cc

-- What the turn of a target that is due may come to.
pub IsRightTurn : BackupTarget → ℕ → Ledger → Turn → Type 0
IsRightTurn t scheduled_for l passed_over = ⊥
IsRightTurn t scheduled_for l skipped = has_active t.id l.runs ≡ true
IsRightTurn t scheduled_for l conflict =
    (has_active t.id l.runs ≡ false)
    × (has_key t.id (some (dispatch_key t scheduled_for)) l.runs ≡ true)
IsRightTurn t scheduled_for l (queued_in m) =
    (has_active t.id l.runs ≡ false)
    × (has_key t.id (some (dispatch_key t scheduled_for)) l.runs ≡ false)
    × (count_if (is_active_of t.id) m.runs ≡ 1)
    × IsExclusive m.runs
IsRightTurn t scheduled_for l (raised e) = has_active t.id l.runs ≡ false
