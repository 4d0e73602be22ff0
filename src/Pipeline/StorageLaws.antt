-- ===== src/Pipeline/StorageLaws.antt =====
-- services/backup.py with storage/base.py: what a run relies on of its storage.
use netbox_plugin_backup.Prelude.{
  ℕ, ◌≡◌, ◌⊎◌, Bool, true, Option, none, some, String, ok, err, if◌then◌else◌,
}
use netbox_plugin_backup.Pipeline.{Failure, storage_error, StorageKey, Env}

-- What a storage promises, by the objects that it holds as a content of type `V` under a key, where
-- several keys may name one object. `put` writes the object at its key; when it raises, that object is
-- as it was or written. `delete` removes the object at its key; when it raises, it raises StorageError
-- and nothing has changed.
pub record IsStorage {Store V : Type 0} (env : Env Store) (objects : Store → StorageKey → Option V)
    (encode : String → V) (same : StorageKey → StorageKey → Bool) : Type 0 where
  pub same_refl : (k : StorageKey) → same k k ≡ true
  pub same_objects : (s : Store) (k l : StorageKey) → same k l ≡ true → objects s k ≡ objects s l
  pub put_writes :
      (s : Store) (key : StorageKey) (content : String) (n : ℕ) (k : StorageKey)
      → (env.put s key content).1 ≡ ok n
      → objects (env.put s key content).0 k
        ≡ (if same k key then some (encode content) else objects s k)
  pub put_raises :
      (s : Store) (key : StorageKey) (content : String) (e : Failure) (k : StorageKey)
      → (env.put s key content).1 ≡ err e
      → (objects (env.put s key content).0 k ≡ objects s k)
        ⊎ ((same k key ≡ true) × (objects (env.put s key content).0 k ≡ some (encode content)))
  pub delete_removes :
      (s : Store) (key k : StorageKey)
      → (env.delete s key).1 ≡ ok tt
      → objects (env.delete s key).0 k ≡ (if same k key then none else objects s k)
  pub delete_raises :
      (s : Store) (key k : StorageKey) (e : Failure)
      → (env.delete s key).1 ≡ err e
      → ((message : String) × (e ≡ storage_error message))
        × (objects (env.delete s key).0 k ≡ objects s k)
