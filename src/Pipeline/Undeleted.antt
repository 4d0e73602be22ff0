-- ===== src/Pipeline/Undeleted.antt =====
-- `_rollback_storage` of services/backup.py: what it removes and what it leaves.
use netbox_plugin_backup.Prelude.{
  ◌≡◌, refl, sym, ap, ◌∙◌, ◌⊎◌, inl, inr, Bool, true, Option, none, List, [], ◌∷◌, String, Result,
  ok, err, any_of, string_eq, Bool-cases, arith, if◌then◌else◌,
}
use netbox_plugin_backup.Pipeline.{Failure, StorageKey, Env}
use netbox_plugin_backup.Pipeline.Execute.{deleted, rollback}
use netbox_plugin_backup.Pipeline.StorageLaws.{IsStorage}

-- One of the keys names the object of `k`.
abbrev pub names : (StorageKey → StorageKey → Bool) → StorageKey → List StorageKey → Bool
names same k keys = any_of (same k) keys

-- What a deletion adds to the keys that are left: its key, if it raised.
abbrev pub or_left :
    {Store : Type 0}
    → Store × Result Failure (Unit {0})
    → StorageKey
    → List StorageKey
    → List StorageKey
or_left (s, ok u) key rest = rest
or_left (s, err e) key rest = key ∷ rest

module _ {Store : Type 0} (env : Env Store) where
  -- The keys whose own deletion raises when all of the keys are deleted in turn.
  unfoldable pub undeleted : List StorageKey → Store → List StorageKey
  undeleted [] s = []
  undeleted (key ∷ keys) s = or_left (env.delete s key) key (undeleted keys (env.delete s key).0)

module _ {Store V : Type 0} (env : Env Store) (objects : Store → StorageKey → Option V)
    (encode : String → V) (same : StorageKey → StorageKey → Bool)
    (laws : IsStorage env objects encode same) where
  -- One step of the rollback, whatever its deletion came to.
  rollback_step :
      (x : Store × Result Failure (Unit {0})) (s : Store) (key : StorageKey)
      (keys : List StorageKey) (k : StorageKey)
      → x ≡ env.delete s key
      → ((t : Store)
          → ((rollback env keys t).0 ≡ ok tt)
            × ((objects (rollback env keys t).1 k
                  ≡ (if names same k keys then none else objects t k))
                ⊎ (names same k (undeleted env keys t) ≡ true)))
      → ((deleted env x (λ t. rollback env keys t)).0 ≡ ok tt)
        × ((objects (deleted env x (λ t. rollback env keys t)).1 k
              ≡ (if names same k (key ∷ keys) then none else objects s k))
            ⊎ (names same k (or_left x key (undeleted env keys x.0)) ≡ true))
  unfolding deleted
  rollback_step (t, ok u) s key keys k h ih =
      let removes : objects t k ≡ (if same k key then none else objects s k) =
        ap (λ p. objects p.0 k) h ∙ laws.delete_removes s key k (sym (ap (λ p. p.1) h)) in
      ((ih t).0, elim (ih t).1 [ inl e ↦ inl (e ∙ rw removes (ground arith)) | inr e ↦ inr e ])
  rollback_step (t, err e) s key keys k h ih =
      let ((message, same_error), keeps) = laws.delete_raises s key k e (sym (ap (λ p. p.1) h)) in
      let kept : objects t k ≡ objects s k = ap (λ p. objects p.0 k) h ∙ keeps in
      rw same_error (
        (ih t).0,
        elim (ih t).1 [
          | inr l ↦ inr (ground (arith, l))
          | inl r ↦ elim (Bool-cases (same k key)) [
            | inl b ↦ inr (ground (arith, b))
            | inr b ↦ inl (r ∙ rw kept (ground (arith, b)))
          ]
        ],
      )

  -- The rollback succeeds. It removes the objects of all keys that it is given, but for those whose
  -- deletion raises, and nothing else.
  pub rollback_removes :
      (keys : List StorageKey) (s : Store) (k : StorageKey)
      → ((rollback env keys s).0 ≡ ok tt)
        × ((objects (rollback env keys s).1 k ≡ (if names same k keys then none else objects s k))
            ⊎ (names same k (undeleted env keys s) ≡ true))
  unfolding rollback undeleted
  rollback_removes [] s k = (refl, inl refl)
  rollback_removes (key ∷ keys) s k =
      rollback_step (env.delete s key) s key keys k refl (λ t. rollback_removes keys t k)
