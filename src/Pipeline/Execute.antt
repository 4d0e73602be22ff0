-- ===== src/Pipeline/Execute.antt =====
-- `execute` of services/backup.py: the marks of the run, the storage of the artifacts with the list
-- of stored keys, the commit, and the two `except` clauses with their rollback.
use netbox_plugin_backup.Prelude.{
  ℕ, Bool, false, not, ◌&&◌, Option, none, List, [], ◌∷◌, String, Result, ok, err, if◌then◌else◌,
}
use netbox_plugin_backup.Pipeline.{
  Failure, storage_error, is_expected, expected_error, PreparedArtifact, ExecutionContext,
  StorageKey, StoredArtifactRecord, RunOutcome, BackupResult, Call, Env, World,
}
use netbox_plugin_backup.Pipeline.Gather.{Gathered, gather, is_content_changed, is_raw_changed}

-- Code that may raise keeps the state that it reached.
abbrev pub Run : Type 0 → Type 0 → Type 0
Run Store A = World Store → Result Failure A × World Store

abbrev pub after :
    {Store A B : Type 0}
    → Result Failure A × World Store
    → (A → Run Store B)
    → Result Failure B × World Store
after (err e, w) next = (err e, w)
after (ok a, w) next = next a w

infixl 5 ◌>>=◌ ◌>>◌
abbrev pub ◌>>=◌ : {Store A B : Type 0} → Run Store A → (A → Run Store B) → Run Store B
(m >>= next) w = after (m w) next

abbrev pub ◌>>◌ : {Store B : Type 0} → Run Store (Unit {0}) → Run Store B → Run Store B
first >> rest = first >>= λ _. rest

abbrev pub lift : {Store A : Type 0} → Result Failure A → Run Store A
lift r w = (r, w)

module _ {Store : Type 0} (env : Env Store) where
  -- A call that raises changes nothing in the database: each is one transaction.
  unfoldable pub logged : Result Failure (Option ℕ) → Call → Run Store (Option ℕ)
  logged (ok revision) c w = (ok revision, record w { calls = c ∷ w.calls })
  logged (err e) c w = (err e, w)

  unfoldable pub call : Call → Run Store (Option ℕ)
  unfolding logged
  call c = logged (env.repository c) c

  -- The key is remembered only once `put` has returned.
  unfoldable pub remembered : Store × Result Failure ℕ → StorageKey → Run Store ℕ
  remembered (s, ok size) key w =
      (ok size, record w { store = s; stored_keys = key ∷ w.stored_keys })
  remembered (s, err e) key w = (err e, record w { store = s })

  unfoldable pub put : StorageKey → String → Run Store ℕ
  unfolding remembered
  put key content w = remembered (env.put w.store key content) key w

  abbrev pub key_of : ExecutionContext → PreparedArtifact → StorageKey
  key_of c item = record {
    device_id = c.device_id;
    revision_uuid = env.revision_uuid;
    filename = item.artifact.filename;
  }

  abbrev pub record_of : StorageKey → ℕ → PreparedArtifact → StoredArtifactRecord
  record_of key size item = record {
    artifact_type = item.artifact.artifact_type;
    format = item.artifact.format;
    storage_key = key;
    size = size;
    raw_hash = item.raw_hash;
    normalized_hash = item.normalized_hash;
    is_primary = item.is_primary;
  }

  -- The loop over the prepared artifacts.
  unfoldable pub store_each :
      ExecutionContext → List PreparedArtifact → Run Store (List StoredArtifactRecord)
  unfolding put
  store_each c [] = lift (ok [])
  store_each c (item ∷ rest) = do
    size ← put (key_of c item) item.artifact.content
    records ← store_each c rest
    lift (ok (record_of (key_of c item) size item ∷ records))

  abbrev pub success : RunOutcome → Bool → Bool → Option ℕ → BackupResult
  success status changed raw_changed revision = record {
    status = status;
    changed = changed;
    raw_changed = raw_changed;
    revision_id = revision;
    error_code = "";
  }

  unfoldable pub finish_unchanged : Bool → Run Store BackupResult
  unfolding call
  finish_unchanged raw_changed = do
    revision ← call (Call.commit_unchanged raw_changed)
    lift (ok (success RunOutcome.success_unchanged false raw_changed revision))

  unfoldable pub finish_revision : Gathered → Bool → Bool → Run Store BackupResult
  unfolding call store_each
  finish_revision g content_changed raw_changed = do
    records ← store_each g.context g.prepared
    revision ←
        call (Call.commit_revision g.primary.normalized_hash content_changed raw_changed records)
    lift (
        ok (
          success
            (if content_changed then RunOutcome.success_changed else RunOutcome.success_unchanged)
            content_changed raw_changed revision))

  unfoldable pub finish : Gathered → Run Store BackupResult
  unfolding finish_unchanged finish_revision
  finish g =
      let content_changed = is_content_changed g.latest g.primary in
      let raw_changed = is_raw_changed g.latest g.primary in
      if not content_changed && g.context.is_changed_only
      then finish_unchanged raw_changed
      else finish_revision g content_changed raw_changed

  -- The body of the `try`.
  unfoldable pub attempt : Run Store BackupResult
  unfolding call finish
  attempt = do
    context ← lift env.context
    _ ← call Call.mark_running
    gathered ← lift (gather env context)
    finish gathered

  -- `_rollback_storage`: a storage error is passed over, any other exception is not.
  unfoldable pub deleted :
      Store × Result Failure (Unit {0})
      → (Store → Result Failure (Unit {0}) × Store)
      → Result Failure (Unit {0}) × Store
  deleted (s, ok u) rest = rest s
  deleted (s, err (storage_error message)) rest = rest s
  deleted (s, err e) rest = (err e, s)

  unfoldable pub rollback : List StorageKey → Store → Result Failure (Unit {0}) × Store
  unfolding deleted
  rollback [] s = (ok tt, s)
  rollback (key ∷ keys) s = deleted (env.delete s key) (λ t. rollback keys t)

  unfoldable pub rollback_storage : Run Store (Unit {0})
  unfolding rollback
  rollback_storage w = let (r, s) = rollback w.stored_keys w.store in (r, record w { store = s })

  abbrev pub failed_result : String → BackupResult
  failed_result code = record {
    status = RunOutcome.failed;
    changed = false;
    raw_changed = false;
    revision_id = none;
    error_code = code;
  }

  -- The first `except` clause, and the second.
  unfoldable pub settle_expected : String × String → Run Store BackupResult
  unfolding call rollback_storage
  settle_expected (code, message) = do
    rollback_storage
    _ ← call (Call.mark_failed RunOutcome.failed code (env.truncate message))
    lift (ok (failed_result code))

  unfoldable pub settle_unexpected : Failure → Run Store BackupResult
  unfolding call rollback_storage
  settle_unexpected e = do
    rollback_storage
    _ ←
        call
          (Call.mark_failed RunOutcome.errored "INTERNAL_ERROR" "Unexpected internal backup error.")
    lift (err e)

  unfoldable pub handle :
      Result Failure BackupResult × World Store → Result Failure BackupResult × World Store
  unfolding settle_expected settle_unexpected
  handle (ok r, w) = (ok r, w)
  handle (err e, w) =
      if is_expected e then settle_expected (expected_error e) w else settle_unexpected e w

  -- A run starts with an empty list of stored keys.
  unfoldable pub execute : Store → Result Failure BackupResult × World Store
  unfolding attempt handle
  execute s = handle (attempt (record { store = s; calls = []; stored_keys = [] }))
