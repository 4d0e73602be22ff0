-- ===== src/Storage/Quarantine.antt =====
-- The reversible deletion of services/retention_cleanup.py, services/revision_deletion.py and
-- services/target_deletion.py: the loop that stages objects, `_restore_staged`, and the final purge.
use netbox_plugin_backup.Prelude.{
  ℕ, ◌+◌, Bool, true, Option, none, some, List, [], ◌∷◌, Result, ok, err, Text,
}
use netbox_plugin_backup.Storage.{Fault, storage_error, unexpected, ConfigStorage}

module _ {Store K : Type 0} (storage : ConfigStorage Store K) where
  -- What the loop has done: the staged pairs, newest first, how many objects were missing, and the
  -- exception that ended it.
  pub record Staging : Type 0 where
    pub store : Store
    pub staged : List (K × K)
    pub missing : ℕ
    pub outcome : Result Fault (Unit {0})

  abbrev pub staged_one : Store × Result Fault (Option K) → K → List (K × K) → ℕ → Staging
  staged_one (s, ok none) k staged missing = record {
    store = s;
    staged = staged;
    missing = missing + 1;
    outcome = ok tt;
  }
  staged_one (s, ok (some t)) k staged missing = record {
    store = s;
    staged = (k, t) ∷ staged;
    missing = missing;
    outcome = ok tt;
  }
  staged_one (s, err e) k staged missing = record {
    store = s;
    staged = staged;
    missing = missing;
    outcome = err e;
  }

  abbrev pub continue_with : Result Fault (Unit {0}) → Staging → Staging → Staging
  continue_with (ok u) now later = later
  continue_with (err e) now later = now

  -- `for artifact in artifacts: staged_key = storage.stage_delete(artifact.storage_key, namespace)`
  unfoldable pub stage_each : Text → List K → Store → List (K × K) → ℕ → Staging
  stage_each namespace [] s staged missing = record {
    store = s;
    staged = staged;
    missing = missing;
    outcome = ok tt;
  }
  stage_each namespace (k ∷ keys) s staged missing =
      let now = staged_one (storage.stage_delete s k namespace) k staged missing in
      continue_with now.outcome now (stage_each namespace keys now.store now.staged now.missing)

  -- `_restore_staged`: whether a restore failed, or the exception that it let through.
  abbrev pub restored_one :
      Store × Result Fault (Unit {0})
      → (Bool → Store → Store × Result Fault Bool)
      → Bool
      → Store × Result Fault Bool
  restored_one (s, ok u) rest failed = rest failed s
  restored_one (s, err (storage_error message)) rest failed = rest true s
  restored_one (s, err unexpected) rest failed = (s, err unexpected)

  unfoldable pub restore_staged : List (K × K) → Bool → Store → Store × Result Fault Bool
  restore_staged [] failed s = (s, ok failed)
  restore_staged ((k, t) ∷ staged) failed s =
      restored_one (storage.restore_staged_delete s k t) (λ f u. restore_staged staged f u) failed

  -- The purge after the commit, with the number of objects that it could not purge.
  abbrev purged_one :
      Store × Result Fault (Unit {0})
      → (ℕ → Store → Store × Result Fault ℕ)
      → ℕ
      → Store × Result Fault ℕ
  purged_one (s, ok u) rest failures = rest failures s
  purged_one (s, err (storage_error message)) rest failures = rest (failures + 1) s
  purged_one (s, err unexpected) rest failures = (s, err unexpected)

  unfoldable pub purge_staged : List (K × K) → ℕ → Store → Store × Result Fault ℕ
  purge_staged [] failures s = (s, ok failures)
  purge_staged ((k, t) ∷ staged) failures s =
      purged_one (storage.purge_staged_delete s t) (λ f u. purge_staged staged f u) failures
