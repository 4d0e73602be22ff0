-- ===== src/Storage/Roundtrip.antt =====
-- Proofs on the reversible deletion of services/retention_cleanup.py and the services like it: the
-- staging loop and `_restore_staged` one after the other.
use netbox_plugin_backup.Prelude.{◌≡◌, refl, Bool, false, List, [], ok, Text}
use netbox_plugin_backup.Storage.{ConfigStorage, View, IsReversible}
use netbox_plugin_backup.Storage.Quarantine.{stage_each, restore_staged}
use netbox_plugin_backup.Storage.Trail.{start, stage_each-Trail, restore_staged-Trail}

module _ {Store K : Type 0} (storage : ConfigStorage Store K) (objects : Store → View K)
    (same : K → K → Bool) (laws : IsReversible storage objects same) where
  -- On a storage that keeps the promises of its interface, whatever keys are staged and however the
  -- loop over them ends, a restore of what it staged that reports no failure gives back every object.
  pub restore_staged-stage_each :
      (namespace : Text) (keys : List K) (s : Store)
      → let staging = stage_each storage namespace keys s [] 0 in
        (restore_staged storage staging.staged false staging.store).1 ≡ ok false
        → (x : K)
        → objects (restore_staged storage staging.staged false staging.store).0 x ≡ objects s x
  restore_staged-stage_each namespace keys s h x =
      let staging = stage_each storage namespace keys s [] 0 in
      restore_staged-Trail storage objects same laws (objects s) (objects staging.store)
        staging.staged staging.store
        (stage_each-Trail storage objects same laws (objects s) namespace keys s [] 0
          (start (objects s) (λ y. refl)))
        (λ y. refl) h x
