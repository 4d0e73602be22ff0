-- ===== src/Archive/Tests.antt =====
-- The theorem on the chain of revisions, applied to three revisions of which one is removed.
use netbox_plugin_backup.Prelude.{ℕ, ◌*◌, ◌≡◌, true, false, Option, none, some, [], ◌∷◌, refl}
use netbox_plugin_backup.Retention.Order.{order_newest, insert_newest}
use netbox_plugin_backup.Archive.{ConfigRevision, Archive}
use netbox_plugin_backup.Archive.Chain.{relink_from, relinked}

abbrev revision : ℕ → Option ℕ → ConfigRevision ℕ
revision i previous = record {
  id = i;
  created = 10 * i;
  is_protected = false;
  content_changed = true;
  previous_revision = previous;
  artifacts = [];
  replicas = [];
}

abbrev archive : Archive ℕ
archive = record {
  target_id = 1;
  last_revision = some 3;
  revisions = revision 3 (some 2) ∷ revision 1 none ∷ revision 2 (some 1) ∷ [];
  runs = [];
}

-- Without the second revision the third follows the first.
second_removed : relinked (2 ∷ []) archive.revisions ≡ revision 3 (some 1) ∷ revision 1 none ∷ []
unfolding order_newest insert_newest relink_from
second_removed = refl
