-- ===== src/Storage/Undo.antt =====
-- The `except Exception` clauses of services/retention_cleanup.py, services/revision_deletion.py and
-- services/target_deletion.py, which move staged objects back and choose what to raise.
use netbox_plugin_backup.Prelude.{◌≡◌, ◌≢◌, refl, ap, ◌∙◌, Bool, true, false, List, Result, ok, err}
use netbox_plugin_backup.Storage.{Fault, ConfigStorage, View, IsReversible}
use netbox_plugin_backup.Storage.Quarantine.{restore_staged}
use netbox_plugin_backup.Storage.Trail.{Trail, restore_staged-Trail}

-- The exceptions that such a clause raises: objects are left behind, or an exception other than
-- StorageError came out of a restore, or all is restored and `cause` is translated.
pub record Raises (E : Type 0) : Type 0 where
  pub not_restored : E
  pub escaped : E
  pub cause : E

module _ {Store E : Type 0} where
  abbrev pub undone : Raises E → Store × Result Fault Bool → Store × E
  undone raises (s, err e) = (s, raises.escaped)
  undone raises (s, ok true) = (s, raises.not_restored)
  undone raises (s, ok false) = (s, raises.cause)

  -- A clause that raises its cause has restored all.
  undone-cause :
      (raises : Raises E) (x : Store × Result Fault Bool)
      → (undone raises x).1 ≢ raises.not_restored
      → (undone raises x).1 ≢ raises.escaped
      → (x.1 ≡ ok false) × ((undone raises x).0 ≡ x.0)
  undone-cause raises (s, err e) h g = absurd (g refl)
  undone-cause raises (s, ok true) h g = absurd (h refl)
  undone-cause raises (s, ok false) h g = (refl, refl)

module _ {Store K E : Type 0} (storage : ConfigStorage Store K) (objects : Store → View K)
    (same : K → K → Bool) (laws : IsReversible storage objects same) (raises : Raises E) where
  pub undone-Trail :
      (base : View K) (staged : List (K × K)) (s : Store)
      → Trail same base staged (objects s)
      → let r = undone raises (restore_staged storage staged false s) in
        r.1 ≢ raises.not_restored → r.1 ≢ raises.escaped → (x : K) → objects r.0 x ≡ base x
  undone-Trail base staged s trail h g x =
      let (all_back, same_store) =
        undone-cause raises (restore_staged storage staged false s) h g in
      ap (λ u. objects u x) same_store
      ∙ restore_staged-Trail storage objects same laws base (objects s) staged s trail (λ y. refl)
          all_back x
