-- ===== src/Archive/Chain.antt =====
-- netbox_config_backup/services/revision_chain.py: the chain of revisions after a removal.
pub mod Laws
use netbox_plugin_backup.Prelude.{
  ℕ, ◌≡◌, refl, ap, ◌∙◌, Bool, true, false, not, ◌&&◌, ◌||◌, Option, none, some, List, [], ◌∷◌,
  ◌++◌, map, reverse, keep_if, any_of, nat_beq, All, All-append, All-map, All-of_All, Bool-cases,
  inl, inr, arith, if◌then◌else◌,
}
use netbox_plugin_backup.Clock.{DateTime}
use netbox_plugin_backup.Retention.Order.{order_newest, order_newest-All}
use netbox_plugin_backup.Scheduling.{aware}
use netbox_plugin_backup.Archive.{ConfigRevision, Archive, is_in, set_null, delete_revisions}

module _ {K : Type 0} where
  abbrev pub revision_created : ConfigRevision K → DateTime
  revision_created r = aware r.created

  abbrev pub revision_id : ConfigRevision K → ℕ
  revision_id r = r.id

  -- The loop, oldest first.
  unfoldable pub relink_from : Option ℕ → List (ConfigRevision K) → List (ConfigRevision K)
  relink_from previous [] = []
  relink_from previous (r ∷ rs) =
      record r { previous_revision = previous } ∷ relink_from (some r.id) rs

  abbrev pub first_id : List (ConfigRevision K) → Option ℕ
  first_id [] = none
  first_id (r ∷ rs) = some r.id

  -- The revisions that are not deleted, newest first by time and key.
  abbrev pub kept_newest : List ℕ → List (ConfigRevision K) → List (ConfigRevision K)
  kept_newest deleted revisions =
      order_newest revision_created revision_id (keep_if (λ r. not (is_in deleted r.id)) revisions)

  -- The kept revisions after the loop, newest first.
  abbrev pub relinked : List ℕ → List (ConfigRevision K) → List (ConfigRevision K)
  relinked deleted revisions = reverse (relink_from none (reverse (kept_newest deleted revisions)))

  -- `relink_kept_revisions`; the rows of the deleted ids are left as they are.
  unfoldable pub relink_kept_revisions : List ℕ → Archive K → Archive K
  relink_kept_revisions deleted a = record a {
    last_revision = first_id (kept_newest deleted a.revisions);
    revisions = relinked deleted a.revisions ++ keep_if (λ r. is_in deleted r.id) a.revisions;
  }
