-- ===== src/Storage.antt =====
-- netbox_config_backup/storage/base.py: the interface of a storage of configuration files. A call
-- gives the storage after it with its result, or with the exception that it raised. The children
-- are the file system's implementation (Local) and the reversible deletion that the retention
-- cleanup and the deletion of revisions and targets share (Quarantine).
pub mod Local
pub mod Quarantine
pub mod Trail
pub mod Roundtrip
pub mod Undo
mod Tests
use netbox_plugin_backup.Prelude.{
  ℕ, ◌≡◌, Bool, true, false, Option, none, some, is_some, List, String, Result, ok, err, Text,
  if◌then◌else◌,
}

-- StorageError, or any other exception.
pub data Fault : Type 0 where
  storage_error : String → Fault
  unexpected : Fault

-- The stored bytes.
abbrev pub Bytes : Type 0
Bytes = List ℕ

pub record ConfigStorage (Store K : Type 0) : Type 0 where
  pub put : Store → K → Bytes → Store × Result Fault ℕ
  pub get : Store → K → Result Fault Bytes
  pub exists : Store → K → Result Fault Bool
  pub delete : Store → K → Store × Result Fault (Unit {0})
  -- The quarantine's key, or nothing if the object is missing.
  pub stage_delete : Store → K → Text → Store × Result Fault (Option K)
  pub restore_staged_delete : Store → K → K → Store × Result Fault (Unit {0})
  pub purge_staged_delete : Store → K → Store × Result Fault (Unit {0})

-- What a storage holds, by key.
abbrev pub View : Type 0 → Type 0
View K = K → Option Bytes

-- The object at `k` is moved to `t`.
abbrev pub moved : {K : Type 0} → (K → K → Bool) → K → K → View K → View K
moved same k t view x = if same x t then view k else if same x k then none else view x

abbrev pub removed : {K : Type 0} → (K → K → Bool) → K → View K → View K
removed same k view x = if same x k then none else view x

-- What the docstrings of the interface promise of the reversible deletion: staging moves an object
-- to a free key, restoring moves it back to a key that is free, purging removes it, and a call of
-- these three that raises changes nothing.
pub record IsReversible {Store K : Type 0} (storage : ConfigStorage Store K)
    (objects : Store → View K) (same : K → K → Bool) : Type 0 where
  pub same_refl : (k : K) → same k k ≡ true
  pub same_objects : (s : Store) (k l : K) → same k l ≡ true → objects s k ≡ objects s l
  pub stage_moves :
      (s : Store) (k t : K) (namespace : Text)
      → (storage.stage_delete s k namespace).1 ≡ ok (some t)
      → (objects s t ≡ none)
        × ((x : K)
            → objects (storage.stage_delete s k namespace).0 x ≡ moved same k t (objects s) x)
  pub stage_misses :
      (s : Store) (k : K) (namespace : Text)
      → (storage.stage_delete s k namespace).1 ≡ ok none
      → (x : K) → objects (storage.stage_delete s k namespace).0 x ≡ objects s x
  pub stage_raises :
      (s : Store) (k : K) (namespace : Text) (e : Fault)
      → (storage.stage_delete s k namespace).1 ≡ err e
      → (x : K) → objects (storage.stage_delete s k namespace).0 x ≡ objects s x
  pub restore_moves :
      (s : Store) (k t : K)
      → (storage.restore_staged_delete s k t).1 ≡ ok tt
      → (x : K) → objects (storage.restore_staged_delete s k t).0 x ≡ moved same t k (objects s) x
  pub restore_frees :
      (s : Store) (k t : K)
      → (storage.restore_staged_delete s k t).1 ≡ ok tt
      → (is_some (objects s t) ≡ true) × (objects s k ≡ none)
  pub restore_raises :
      (s : Store) (k t : K) (e : Fault)
      → (storage.restore_staged_delete s k t).1 ≡ err e
      → (x : K) → objects (storage.restore_staged_delete s k t).0 x ≡ objects s x
  pub purge_removes :
      (s : Store) (t : K)
      → (storage.purge_staged_delete s t).1 ≡ ok tt
      → (x : K) → objects (storage.purge_staged_delete s t).0 x ≡ removed same t (objects s) x
  pub purge_raises :
      (s : Store) (t : K) (e : Fault)
      → (storage.purge_staged_delete s t).1 ≡ err e
      → (x : K) → objects (storage.purge_staged_delete s t).0 x ≡ objects s x

-- A reversible deletion that says where the objects go: a staged object is moved to a key that
-- `placed` allows for its namespace and its own key.
pub record IsQuarantine {Store K : Type 0} (storage : ConfigStorage Store K)
    (objects : Store → View K) (same : K → K → Bool) (placed : Text → K → K → Type 0) : Type 0 where
  pub reversible : IsReversible storage objects same
  pub stage_places :
      (s : Store) (k t : K) (namespace : Text)
      → (storage.stage_delete s k namespace).1 ≡ ok (some t)
      → placed namespace k t
