-- ===== src/Retention/Plan.antt =====
-- `build_retention_plan` of services/retention.py, its error paths and its totals, and the test for
-- a recorded remote copy that the cleanup uses.
use netbox_plugin_backup.Prelude.{
  ℕ, suc, ◌+◌, ◌*◌, ◌≤◌, ◌≡◌, refl, ap, sym, ◌∙◌, Bool, true, false, not, ◌&&◌, ◌||◌, Option,
  is_some, List, [], ◌∷◌, map, String, Result, ok, err, ◌>>=◌, ◌>>◌, any_of, length, length-map,
  count_if-le-length, All, Bool-cases, inl, inr, arith, string_eq, ◌==◌, All₂,
}
use netbox_plugin_backup.Clock.{DateTime, PyError, day_us}
use netbox_plugin_backup.Retention.{
  RetentionSettings, RevisionCandidate, RunCandidate, RetentionDecision, RetentionPlan,
  require_aware, revisions_to_keep, revisions_to_delete, runs_to_keep, runs_to_delete,
}
use netbox_plugin_backup.Retention.Order.{insert_newest, order_newest, precedes}
use netbox_plugin_backup.Retention.Revisions.{
  created_of, id_of, apply_cap, over_limit, plan_revisions,
}
use netbox_plugin_backup.Retention.Revisions.Cap.{map-apply_cap}
use netbox_plugin_backup.Retention.Revisions.Plan.{
  AllAware, newest_revisions, uncapped, plan_revisions-ok,
}
use netbox_plugin_backup.Retention.Runs.{timestamp_of, run_id_of, plan_runs}
use netbox_plugin_backup.Retention.Runs.Laws.{InRange, Judged, require_aware-ok, plan_runs_exact}

unfoldable pub build_retention_plan :
    RetentionSettings
    → List RevisionCandidate
    → List RunCandidate
    → DateTime
    → Result PyError RetentionPlan
build_retention_plan s revisions runs now = do
  require_aware now
  revision_decisions ← plan_revisions s revisions now
  run_decisions ← plan_runs s runs now
  ok (record {
    generated_at = now;
    revision_decisions = revision_decisions;
    run_decisions = run_decisions;
  })

-- The fields of a replica that the test reads.
pub record ReplicaPointer : Type 0 where
  pub remote_deleted_at : Option ℕ
  pub remote_available : Bool
  pub remote_path : String

unfoldable pub has_recorded_remote_copy : List ReplicaPointer → Bool
has_recorded_remote_copy =
    any_of
      λ r. not (is_some r.remote_deleted_at) && (r.remote_available || not (r.remote_path == ""))

length-insert_newest :
    {A : Type 0} (stamp : A → DateTime) (ident : A → ℕ) (x : A) (ys : List A)
    → length (insert_newest stamp ident x ys) ≡ suc (length ys)
unfolding insert_newest
length-insert_newest stamp ident x [] = refl
length-insert_newest stamp ident x (y ∷ ys) = elim (Bool-cases (precedes stamp ident x y)) [
  | inl e ↦ rw e refl
  | inr e ↦ rw e (ap suc (length-insert_newest stamp ident x ys))
]

length-order_newest :
    {A : Type 0} (stamp : A → DateTime) (ident : A → ℕ) (xs : List A)
    → length (order_newest stamp ident xs) ≡ length xs
unfolding order_newest
length-order_newest stamp ident [] = refl
length-order_newest stamp ident (x ∷ xs) =
    length-insert_newest stamp ident x (order_newest stamp ident xs)
    ∙ ap suc (length-order_newest stamp ident xs)

length-of_map :
    {A B C : Type 0} (f : A → C) (g : B → C) (xs : List A) (ys : List B)
    → map f xs ≡ map g ys
    → length xs ≡ length ys
length-of_map f g xs ys e = sym (length-map f xs) ∙ ap length e ∙ length-map g ys

length-of_All₂ :
    {A B : Type 0} (R : A → B → Type 0) (xs : List A) (ys : List B)
    → All₂ R xs ys
    → length xs ≡ length ys
length-of_All₂ R [] [] h = refl
length-of_All₂ R [] (y ∷ ys) h = elim h [ ]
length-of_All₂ R (x ∷ xs) [] h = elim h [ ]
length-of_All₂ R (x ∷ xs) (y ∷ ys) h = ap suc (length-of_All₂ R xs ys h.1)

length-uncapped :
    (s : RetentionSettings) (revisions : List RevisionCandidate) (now : DateTime)
    → length (apply_cap s.max_revisions_per_target (uncapped s revisions now)) ≡ length revisions
length-uncapped s revisions now =
    length-of_map (λ d. d.object_id) (λ d. d.object_id) _ (uncapped s revisions now)
      (map-apply_cap (λ d. d.object_id) (λ d. unfold over_limit in refl) s.max_revisions_per_target
        (uncapped s revisions now))
    ∙ length-map _ (newest_revisions revisions)
    ∙ length-order_newest created_of id_of revisions

-- For aware times and windows within range there is a plan, made for `now`, in which the revisions
-- to keep and to delete add up to the revisions given, and the runs to the runs given.
pub build_retention_plan_total :
    (s : RetentionSettings) (revisions : List RevisionCandidate) (runs : List RunCandidate)
    (now : DateTime)
    → now.is_aware ≡ true
    → AllAware revisions
    → All (λ r. r.timestamp.is_aware ≡ true) runs
    → s.keep_all_days * day_us ≤ now.micros
    → InRange s now.micros
    → (p : RetentionPlan) × (build_retention_plan s revisions runs now ≡ ok p)
      × (p.generated_at ≡ now)
      × (revisions_to_keep p + revisions_to_delete p ≡ length revisions)
      × (runs_to_keep p + runs_to_delete p ≡ length runs)
unfolding build_retention_plan revisions_to_delete runs_to_delete
build_retention_plan_total s revisions runs now a ar an w h =
    let (ds, planned, judged, _) = plan_runs_exact s runs now an h in
    let rs = apply_cap s.max_revisions_per_target (uncapped s revisions now) in
    let n1 = length-uncapped s revisions now in
    let n2 =
      length-of_All₂ (Judged s now.micros) (order_newest timestamp_of run_id_of runs) ds judged in
    (
      record { generated_at = now; revision_decisions = rs; run_decisions = ds },
      rw (require_aware-ok now a, plan_revisions-ok s revisions now ar w, planned),
      refl,
      omega (arith, n1, count_if-le-length (λ (d : RetentionDecision). d.keep) rs),
      omega (
        arith,
        n2,
        length-order_newest timestamp_of run_id_of runs,
        count_if-le-length (λ (d : RetentionDecision). d.keep) ds,
      ),
    )

-- A naive `now` is refused before anything is planned.
pub build_retention_plan_naive :
    (s : RetentionSettings) (revisions : List RevisionCandidate) (runs : List RunCandidate)
    (now : DateTime)
    → now.is_aware ≡ false
    → build_retention_plan s revisions runs now ≡ err PyError.value_error
unfolding build_retention_plan require_aware
build_retention_plan_naive s revisions runs now h = rw h
