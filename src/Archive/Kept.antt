-- ===== src/Archive/Kept.antt =====
-- Proofs on the changes of the rows: what the removal of other revisions leaves of a revision.
use netbox_plugin_backup.Prelude.{
  ℕ, ◌≡◌, ap, ◌∙◌, Bool, true, false, not, Option, none, some, List, [], ◌∷◌, reverse, keep_if, Any,
  Any-map, Any-append_left, Any-append_right, Any-reverse, Any-keep_if, Any-of_map, Bool-cases, inl,
  inr,
}
use netbox_plugin_backup.Retention.Order.{order_newest-Any}
use netbox_plugin_backup.Archive.{ConfigRevision, Archive, is_in, delete_revisions, delete_runs}
use netbox_plugin_backup.Archive.Chain.{
  revision_created, revision_id, relink_from, kept_newest, relink_kept_revisions,
}

module _ {K : Type 0} where
  -- A revision without its place in the chain.
  abbrev pub contents : ConfigRevision K → ConfigRevision K
  contents r = record r { previous_revision = none }

  -- The revision `x` is there, at whatever place in the chain.
  abbrev pub Holds : ConfigRevision K → List (ConfigRevision K) → Type 0
  Holds x rs = Any (λ r. contents r ≡ contents x) rs

module _ {K : Type 0} (x : ConfigRevision K) where
  relink_from-Holds :
      (previous : Option ℕ) (rs : List (ConfigRevision K))
      → Holds x rs
      → Holds x (relink_from previous rs)
  unfolding relink_from
  relink_from-Holds previous [] n = n
  relink_from-Holds previous (r ∷ rs) (inl p) = inl p
  relink_from-Holds previous (r ∷ rs) (inr n) = inr (relink_from-Holds (some r.id) rs n)

  -- The test on the id passes at the revision that is looked for.
  keep_if-Holds :
      (test : ℕ → Bool) (rs : List (ConfigRevision K))
      → test x.id ≡ true
      → Holds x rs
      → Holds x (keep_if (λ (r : ConfigRevision K). test r.id) rs)
  keep_if-Holds test rs t n =
      Any-keep_if (λ r. contents r ≡ contents x) (λ (r : ConfigRevision K). test r.id) rs
        (Any-map _ _ (λ r p. (p, ap (λ (q : ConfigRevision K). test q.id) p ∙ t)) rs n)

  kept_newest-Holds :
      (deleted : List ℕ) (rs : List (ConfigRevision K))
      → is_in deleted x.id ≡ false
      → Holds x rs
      → Holds x (kept_newest deleted rs)
  kept_newest-Holds deleted rs e n =
      order_newest-Any revision_created revision_id (λ r. contents r ≡ contents x) _
        (keep_if-Holds (λ i. not (is_in deleted i)) rs (ap not e) n)

  -- Reconnecting the chain changes the places in it alone.
  pub relink-Holds :
      (deleted : List ℕ) (a : Archive K)
      → Holds x a.revisions
      → Holds x (relink_kept_revisions deleted a).revisions
  unfolding relink_kept_revisions
  relink-Holds deleted a n =
      let P : ConfigRevision K → Type 0 = λ r. contents r ≡ contents x in
      let kept = reverse (kept_newest deleted a.revisions) in
      elim (Bool-cases (is_in deleted x.id)) [
        | inl e ↦
            Any-append_right P (reverse (relink_from none kept)) _
              (keep_if-Holds (λ i. is_in deleted i) a.revisions e n)
        | inr e ↦ Any-append_left P (reverse (relink_from none kept)) _ (
            Any-reverse P (relink_from none kept) (
              relink_from-Holds none kept
                (Any-reverse P _ (kept_newest-Holds deleted a.revisions e n))))
      ]

  pub delete_revisions-Holds :
      (gone : List ℕ) (a : Archive K)
      → is_in gone x.id ≡ false
      → Holds x a.revisions
      → Holds x (delete_revisions gone a).revisions
  unfolding delete_revisions
  delete_revisions-Holds gone a e n =
      Any-of_map _ _ _ (λ r p. p) _
        (keep_if-Holds (λ i. not (is_in gone i)) a.revisions (ap not e) n)

  pub delete_runs-Holds :
      (gone : List ℕ) (a : Archive K) → Holds x a.revisions → Holds x (delete_runs gone a).revisions
  unfolding delete_runs
  delete_runs-Holds gone a n = n
