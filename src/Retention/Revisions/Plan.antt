-- ===== src/Retention/Revisions/Plan.antt =====
-- `_plan_revisions` of services/retention.py as a whole.
use netbox_plugin_backup.Prelude.{
  ℕ, ◌-◌, ◌*◌, ◌≤◌, ◌<◌, ◌≡◌, refl, ap, subst, ◌↔◌, ◌⊎◌, inl, inr, Bool, true, false, not, ◌&&◌,
  List, [], ◌∷◌, map, ok, any_of, All, Any, Any-map, nat_beq, arith,
}
use netbox_plugin_backup.Clock.{DateTime, minus_delta-ok, day_us}
use netbox_plugin_backup.Retention.{
  RetentionSettings, RevisionCandidate, RetentionDecision, Reason, has_reason, require_all_aware,
}
use netbox_plugin_backup.Retention.Order.{
  order_newest, order_newest-All, sort_newest-ok, order_newest-Any, precedes, precedes-IsNoNewer,
  IsNewestFirst, IsNoNewer, order_newest-IsNewestFirst,
}
use netbox_plugin_backup.Retention.Revisions.{
  created_of, id_of, revision_reasons, is_empty, or_outside, decide_revision, is_mandatory_decision,
  mandatory_ids, apply_cap, plan_revisions,
}
use netbox_plugin_backup.Retention.Revisions.Wanted.{Wanted, reasons-Wanted}
use netbox_plugin_backup.Retention.Revisions.Kept.{
  Wanted-nonempty, nonempty_of_reason, latest-has, protected-has,
}
use netbox_plugin_backup.Retention.Revisions.Cap.{
  contains, mandatory_ids-All, mandatory_ids-grow, apply_cap-keeps,
}

-- Every `created` is aware.
abbrev pub AllAware : List RevisionCandidate → Type 0
AllAware revisions = All (λ r. r.created.is_aware ≡ true) revisions

abbrev pub newest_revisions : List RevisionCandidate → List RevisionCandidate
newest_revisions = order_newest created_of id_of

aware_passes :
    (xs : List RevisionCandidate) → AllAware xs → require_all_aware (map created_of xs) ≡ ok tt
unfolding require_all_aware
aware_passes [] h = refl
aware_passes (x ∷ xs) h = rw h.0 (aware_passes xs h.1)

module _ (s : RetentionSettings) (revisions : List RevisionCandidate) (now : DateTime) where
  abbrev pub cutoff : ℕ
  cutoff = now.micros - s.keep_all_days * day_us

  abbrev pub reasons_of : ℕ → List Reason
  reasons_of = revision_reasons s (newest_revisions revisions) now.micros cutoff

  abbrev pub uncapped : List RetentionDecision
  uncapped = map (decide_revision reasons_of) (newest_revisions revisions)

  -- With aware times and a window that reaches back no further than `datetime.min` there is a plan.
  pub plan_revisions-ok :
      AllAware revisions
      → s.keep_all_days * day_us ≤ now.micros
      → plan_revisions s revisions now ≡ ok (apply_cap s.max_revisions_per_target uncapped)
  unfolding plan_revisions
  plan_revisions-ok h w = rw (
    sort_newest-ok created_of id_of revisions h,
    aware_passes (newest_revisions revisions)
        (order_newest-All created_of id_of (λ r. r.created.is_aware ≡ true) revisions h),
    minus_delta-ok now.micros (s.keep_all_days * day_us) w,
  )

  -- Before the cap a decision keeps its revision exactly if a rule of the profile wants it.
  pub decide_revision_iff :
      (r : RevisionCandidate)
      → ((decide_revision reasons_of r).keep ≡ true)
        ↔ Wanted s now.micros cutoff (newest_revisions revisions) r.object_id
  unfolding decide_revision
  decide_revision_iff r = (
    λ k. reasons-Wanted s now.micros cutoff (newest_revisions revisions) r.object_id (ground arith),
    λ w. rw (Wanted-nonempty s now.micros cutoff (newest_revisions revisions) r.object_id w),
  )

or_outside-id : (rs : List Reason) → is_empty rs ≡ false → or_outside rs ≡ rs
or_outside-id [] h = cc
or_outside-id (r ∷ rs) h = refl

-- Some decision on `j` is to delete it.
unfoldable pub deletes : ℕ → List RetentionDecision → Bool
deletes j = any_of (λ d. nat_beq d.object_id j && not d.keep)

not_deleted :
    (j : ℕ) (ds : List RetentionDecision)
    → All (λ d. d.object_id ≡ j → d.keep ≡ true) ds
    → deletes j ds ≡ false
unfolding deletes
not_deleted j [] h = refl
not_deleted j (d ∷ ds) h = ground (arith, h.0, not_deleted j ds h.1)

-- What makes a decision mandatory.
abbrev pub IsMandatory : List Reason → Type 0
IsMandatory rs =
    (has_reason Reason.latest_revision rs ≡ true) ⊎ (has_reason Reason.protected_revision rs ≡ true)

decide_mandatory :
    (reasons : ℕ → List Reason) (r : RevisionCandidate)
    → IsMandatory (reasons r.object_id)
    → ((decide_revision reasons r).keep ≡ true)
      × (is_mandatory_decision (decide_revision reasons r) ≡ true)
unfolding decide_revision is_mandatory_decision
decide_mandatory reasons r (inl h) =
    let e = nonempty_of_reason _ (reasons r.object_id) h in
    (rw e, rw (or_outside-id (reasons r.object_id) e, h))
decide_mandatory reasons r (inr h) =
    let e = nonempty_of_reason _ (reasons r.object_id) h in
    (rw e, rw (or_outside-id (reasons r.object_id) e) (ground arith))

mandatory_id :
    (reasons : ℕ → List Reason) (j : ℕ) (xs : List RevisionCandidate)
    → IsMandatory (reasons j)
    → Any (λ r. r.object_id ≡ j) xs
    → contains j (mandatory_ids (map (decide_revision reasons) xs)) ≡ true
unfolding decide_revision
mandatory_id reasons j [] m n = elim n [ ]
mandatory_id reasons j (x ∷ xs) m (inl i) = rw (← i) (
    (mandatory_ids-All (map (decide_revision reasons) (x ∷ xs))).0
      (decide_mandatory reasons x (rw i m)).1)
mandatory_id reasons j (x ∷ xs) m (inr n) =
    mandatory_ids-grow j (decide_revision reasons x) (map (decide_revision reasons) xs)
      (mandatory_id reasons j xs m n)

mandatory_kept :
    (reasons : ℕ → List Reason) (j : ℕ) (xs : List RevisionCandidate)
    → IsMandatory (reasons j)
    → All (λ d. d.object_id ≡ j → d.keep ≡ true) (map (decide_revision reasons) xs)
unfolding decide_revision
mandatory_kept reasons j [] m = tt
mandatory_kept reasons j (x ∷ xs) m =
    (λ i. (decide_mandatory reasons x (rw i m)).0, mandatory_kept reasons j xs m)

member_has :
    (P : RevisionCandidate → Type 0) (x : RevisionCandidate) (xs : List RevisionCandidate)
    → All P xs
    → Any (λ r. r ≡ x) xs
    → P x
member_has P x [] h n = elim n [ ]
member_has P x (y ∷ xs) h (inl e) = subst P e h.0
member_has P x (y ∷ xs) h (inr n) = member_has P x xs h.1 n

-- The head of the sorted list has the id of the newest revision.
newest_head :
    (x : RevisionCandidate) (xs : List RevisionCandidate)
    → IsNewestFirst created_of id_of xs
    → Any (λ r. r ≡ x) xs
    → All (IsNoNewer created_of id_of x) xs
    → (y : RevisionCandidate) × (rest : List RevisionCandidate) × (xs ≡ y ∷ rest)
      × (y.object_id ≡ x.object_id)
newest_head x [] h n a = elim n [ ]
newest_head x (y ∷ rest) h (inl e) a = (y, rest, refl, ap (λ r. r.object_id) e)
newest_head x (y ∷ rest) h (inr n) a =
    let first = member_has (λ z. precedes created_of id_of y z ≡ true) x rest h.0 n in
    (y, rest, refl, ground (arith, precedes-IsNoNewer created_of id_of y x first, a.0))

module _ (s : RetentionSettings) (revisions : List RevisionCandidate) (now : DateTime) where
  keeps_mandatory :
      (j : ℕ)
      → AllAware revisions
      → s.keep_all_days * day_us ≤ now.micros
      → IsMandatory (reasons_of s revisions now j)
      → Any (λ r. r.object_id ≡ j) (newest_revisions revisions)
      → (ds : List RetentionDecision) × (plan_revisions s revisions now ≡ ok ds)
        × (deletes j ds ≡ false)
  keeps_mandatory j h w m n = (
    apply_cap s.max_revisions_per_target (uncapped s revisions now),
    plan_revisions-ok s revisions now h w,
    not_deleted j (apply_cap s.max_revisions_per_target (uncapped s revisions now)) (
        apply_cap-keeps s.max_revisions_per_target j (uncapped s revisions now)
          (mandatory_id (reasons_of s revisions now) j (newest_revisions revisions) m n)
          (mandatory_kept (reasons_of s revisions now) j (newest_revisions revisions) m)),
  )

  -- With aware times and a window within range there is a plan, and it deletes no protected
  -- revision, whatever the windows and the cap.
  pub plan_keeps_protected :
      (j : ℕ)
      → AllAware revisions
      → s.keep_all_days * day_us ≤ now.micros
      → Any (λ r. (r.is_protected ≡ true) × (r.object_id ≡ j)) revisions
      → (ds : List RetentionDecision) × (plan_revisions s revisions now ≡ ok ds)
        × (deletes j ds ≡ false)
  plan_keeps_protected j h w a =
      let b = order_newest-Any created_of id_of _ revisions a in
      keeps_mandatory j h w
        (inr (protected-has s now.micros (cutoff s revisions now) (newest_revisions revisions) j b))
        (Any-map _ _ (λ r p. p.1) (newest_revisions revisions) b)

  plan_keeps_head :
      (x : RevisionCandidate) (rest : List RevisionCandidate)
      → AllAware revisions
      → s.keep_all_days * day_us ≤ now.micros
      → newest_revisions revisions ≡ x ∷ rest
      → (ds : List RetentionDecision) × (plan_revisions s revisions now ≡ ok ds)
        × (deletes x.object_id ds ≡ false)
  plan_keeps_head x rest h w e =
      keeps_mandatory x.object_id h w
        (inl
          (latest-has s now.micros (cutoff s revisions now) (newest_revisions revisions) x rest e))
        (rw e (inl refl))

  -- With aware times and a window within range there is a plan, and it does not delete the newest
  -- revision, whatever the windows and the cap: a given revision such that every given one was
  -- created before it, or at the same time with an id that is not larger.
  pub plan_keeps_newest :
      (x : RevisionCandidate)
      → AllAware revisions
      → s.keep_all_days * day_us ≤ now.micros
      → Any (λ r. r ≡ x) revisions
      → All
          (λ r.
            (r.created.micros < x.created.micros)
            ⊎ ((r.created.micros ≡ x.created.micros) × (r.object_id ≤ x.object_id)))
          revisions
      → (ds : List RetentionDecision) × (plan_revisions s revisions now ≡ ok ds)
        × (deletes x.object_id ds ≡ false)
  plan_keeps_newest x h w there newest =
      let (y, rest, e, same) =
        newest_head x (newest_revisions revisions)
          (order_newest-IsNewestFirst created_of id_of revisions)
          (order_newest-Any created_of id_of _ revisions there)
          (order_newest-All created_of id_of _ revisions newest) in
      let (ds, made, kept) = plan_keeps_head y rest h w e in
      (ds, made, subst (λ j. deletes j ds ≡ false) same kept)
