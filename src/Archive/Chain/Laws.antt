-- ===== src/Archive/Chain/Laws.antt =====
-- Proofs on `relink_kept_revisions` of netbox_config_backup/services/revision_chain.py.
use netbox_plugin_backup.Prelude.{◌≡◌, List, [], ◌∷◌}
use netbox_plugin_backup.Archive.{ConfigRevision, Archive}
use netbox_plugin_backup.Archive.Chain.{first_id}

module _ {K : Type 0} where
  -- Newest first, each revision names the next older one, and the oldest names none.
  pub IsChain : List (ConfigRevision K) → Type 0
  IsChain [] = Unit
  IsChain (r ∷ rs) = (r.previous_revision ≡ first_id rs) × IsChain rs
