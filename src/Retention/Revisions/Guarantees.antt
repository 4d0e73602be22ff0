-- ===== src/Retention/Revisions/Guarantees.antt =====
-- `_plan_revisions` of services/retention.py against the rules of its profile and its cap.
use netbox_plugin_backup.Prelude.{
  ℕ, suc, ◌*◌, ◌≤◌, ◌≡◌, refl, ◌∙◌, ap, ◌↔◌, true, false, ◌||◌, none, some, List, [], ◌∷◌, map, ok,
  max, length, All, Bool-cases, inl, inr, nat_beq, arith,
}
use netbox_plugin_backup.Clock.{DateTime, day_us}
use netbox_plugin_backup.Retention.{
  RetentionSettings, RevisionCandidate, RetentionDecision, Reason, count_kept,
}
use netbox_plugin_backup.Retention.Order.{insert_newest, order_newest, precedes}
use netbox_plugin_backup.Retention.Revisions.{
  created_of, id_of, decide_revision, mandatory_ids, over_limit, apply_cap, plan_revisions,
}
use netbox_plugin_backup.Retention.Revisions.Wanted.{Wanted}
use netbox_plugin_backup.Retention.Revisions.Cap.{
  contains, IsDistinct, map-apply_cap, count_kept-apply_cap,
}
use netbox_plugin_backup.Retention.Revisions.Plan.{
  AllAware, newest_revisions, cutoff, reasons_of, uncapped, plan_revisions-ok, decide_revision_iff,
}

contains-insert_newest :
    (i : ℕ) (x : RevisionCandidate) (ys : List RevisionCandidate)
    → contains i (map id_of (insert_newest created_of id_of x ys))
      ≡ (nat_beq i x.object_id || contains i (map id_of ys))
unfolding insert_newest
contains-insert_newest i x [] = refl
contains-insert_newest i x (y ∷ ys) = elim (Bool-cases (precedes created_of id_of x y)) [
  | inl e ↦ rw e refl
  | inr e ↦ rw e (ground (arith, contains-insert_newest i x ys))
]

insert_newest-IsDistinct :
    (x : RevisionCandidate) (ys : List RevisionCandidate)
    → contains x.object_id (map id_of ys) ≡ false
    → IsDistinct (map id_of ys)
    → IsDistinct (map id_of (insert_newest created_of id_of x ys))
unfolding insert_newest
insert_newest-IsDistinct x [] c h = (refl, tt)
insert_newest-IsDistinct x (y ∷ ys) c h = elim (Bool-cases (precedes created_of id_of x y)) [
  | inl e ↦ rw e (c, h)
  | inr e ↦ rw e (
    contains-insert_newest y.object_id x ys ∙ ground arith,
    insert_newest-IsDistinct x ys (ground arith) h.1,
  )
]

contains-order_newest :
    (i : ℕ) (xs : List RevisionCandidate)
    → contains i (map id_of (newest_revisions xs)) ≡ contains i (map id_of xs)
unfolding order_newest
contains-order_newest i [] = refl
contains-order_newest i (x ∷ xs) =
    contains-insert_newest i x (newest_revisions xs)
    ∙ ap (λ b. nat_beq i x.object_id || b) (contains-order_newest i xs)

order_newest-IsDistinct :
    (xs : List RevisionCandidate)
    → IsDistinct (map id_of xs)
    → IsDistinct (map id_of (newest_revisions xs))
unfolding order_newest
order_newest-IsDistinct [] h = tt
order_newest-IsDistinct (x ∷ xs) h =
    insert_newest-IsDistinct x (newest_revisions xs) (contains-order_newest x.object_id xs ∙ h.0)
      (order_newest-IsDistinct xs h.1)

map-decide_revision :
    (reasons : ℕ → List Reason) (xs : List RevisionCandidate)
    → map (λ d. d.object_id) (map (decide_revision reasons) xs) ≡ map id_of xs
unfolding decide_revision
map-decide_revision reasons [] = refl
map-decide_revision reasons (x ∷ xs) = ap (λ l. x.object_id ∷ l) (map-decide_revision reasons xs)

module _ (s : RetentionSettings) (revisions : List RevisionCandidate) (now : DateTime) where
  abbrev pub WantedBy : ℕ → Type 0
  WantedBy j = Wanted s now.micros (cutoff s revisions now) (newest_revisions revisions) j

  decisions_exact :
      (xs : List RevisionCandidate)
      → All
          (λ d. (d.keep ≡ true) ↔ WantedBy d.object_id)
          (map (decide_revision (reasons_of s revisions now)) xs)
  unfolding decide_revision
  decisions_exact [] = tt
  decisions_exact (x ∷ xs) = (decide_revision_iff s revisions now x, decisions_exact xs)

  -- Without a cap, for aware times and a window within range, the plan lists every revision once,
  -- newest first, and it keeps a revision exactly if one of the seven rules of the profile wants it:
  -- newest, protected, among the newest changed, recent, or the newest of its day, week or month.
  pub plan_exact :
      AllAware revisions
      → s.keep_all_days * day_us ≤ now.micros
      → s.max_revisions_per_target ≡ none
      → (ds : List RetentionDecision) × (plan_revisions s revisions now ≡ ok ds)
        × (map (λ d. d.object_id) ds ≡ map id_of (newest_revisions revisions))
        × All (λ d. (d.keep ≡ true) ↔ WantedBy d.object_id) ds
  plan_exact h w c = (
    uncapped s revisions now,
    plan_revisions-ok s revisions now h w ∙ rw c (unfold apply_cap in refl),
    map-decide_revision (reasons_of s revisions now) (newest_revisions revisions),
    decisions_exact (newest_revisions revisions),
  )

  -- With a cap of `n + 1`, distinct ids, aware times and a window within range, the plan keeps at
  -- most `n + 1` revisions, or as many as are mandatory where these are more; it still lists every
  -- revision, newest first.
  pub plan_within_cap :
      (n : ℕ)
      → AllAware revisions
      → s.keep_all_days * day_us ≤ now.micros
      → s.max_revisions_per_target ≡ some (suc n)
      → IsDistinct (map id_of revisions)
      → (ds : List RetentionDecision) × (plan_revisions s revisions now ≡ ok ds)
        × (count_kept ds ≤ max (suc n) (length (mandatory_ids (uncapped s revisions now))))
        × (map (λ d. d.object_id) ds ≡ map id_of (newest_revisions revisions))
  plan_within_cap n h w c u =
      let ids = map-decide_revision (reasons_of s revisions now) (newest_revisions revisions) in
      (
        apply_cap s.max_revisions_per_target (uncapped s revisions now),
        plan_revisions-ok s revisions now h w,
        simp c (
            count_kept-apply_cap n (uncapped s revisions now)
              (rw ids (order_newest-IsDistinct revisions u))),
        map-apply_cap (λ d. d.object_id) (λ d. unfold over_limit in refl) s.max_revisions_per_target
              (uncapped s revisions now)
            ∙ ids,
      )
