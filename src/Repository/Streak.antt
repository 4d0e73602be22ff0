-- ===== src/Repository/Streak.antt =====
-- services/django_repository.py over a sequence of runs of one target: the count of failures, the
-- health, and the notifications.
use netbox_plugin_backup.Prelude.{
  ℕ, suc, ◌+◌, ◌≡◌, refl, ap, ◌∙◌, subst, Bool, true, false, not, ◌&&◌, ◌||◌, Option, none, some,
  is_some, List, [], ◌∷◌, String, ok, >>=-eq-ok, ok-injective, count_if, nat_beq, ◌==◌, string_eq,
  Bool-cases, inl, inr, arith, if◌then◌else◌,
}
use netbox_plugin_backup.Choices.{RunStatus, target_status_eq}
use netbox_plugin_backup.Records.{BackupTarget, BackupRun}
use netbox_plugin_backup.Scheduling.{calculate_target_next_run}
use netbox_plugin_backup.Pipeline.{StoredArtifactRecord}
use netbox_plugin_backup.Repository.{
  EventType, backup_recovered, backup_failed, backup_stuck, Queued, run_event, Database, Controls,
  queue_run_event, target_was_unhealthy, latest_of, succeeded, mark_target_success, ensure_latest,
  commit_unchanged, commit_revision, failure_next_run, mark_failed,
}

-- The notification of a failure.
abbrev pub is_alert : Queued → Bool
is_alert (run_event backup_recovered run) = false
is_alert (run_event event run) = true
is_alert q = false

abbrev pub alerts : Database → ℕ
alerts db = count_if is_alert db.queued

-- The runs of a target from `start` on, with their outcomes, newest first: true for a success.
pub data History (c : Controls) (start : Database) : List Bool → Database → Type 0 where
  begin : History c start [] start
  next_run :
      (run : BackupRun) (bs : List Bool) (db : Database)
      → History c start bs db
      → History c start bs (record db { run = run })
  unchanged :
      (raw : Bool) (at : ℕ) (bs : List Bool) (db after : Database)
      → History c start bs db
      → commit_unchanged c raw at db ≡ ok after
      → History c start (true ∷ bs) after
  revised :
      (id : ℕ) (hash : String) (changed raw : Bool) (artifacts : List StoredArtifactRecord) (at : ℕ)
      (bs : List Bool) (db after : Database)
      → History c start bs db
      → commit_revision c id hash changed raw artifacts at db ≡ ok after
      → History c start (true ∷ bs) after
  failed :
      (status : RunStatus) (code message : String) (at : ℕ) (bs : List Bool) (db after : Database)
      → History c start bs db
      → mark_failed c status code message at db ≡ ok after
      → History c start (false ∷ bs) after

-- The failures since the last success.
abbrev pub streak : List Bool → ℕ → ℕ
streak [] n = n
streak (true ∷ bs) n = 0
streak (false ∷ bs) n = suc (streak bs n)

-- The failures that follow no other failure.
abbrev pub first_failures : List Bool → ℕ → ℕ
first_failures [] n = 0
first_failures (true ∷ bs) n = first_failures bs n
first_failures (false ∷ bs) n =
    let earlier = first_failures bs n in if nat_beq (streak bs n) 0 then suc earlier else earlier

-- What a success leaves.
record IsHealthy (t : BackupTarget) : Type 0 where
  none_counted : t.consecutive_failures ≡ 0
  healthy : target_was_unhealthy t ≡ false

mark_target_success-IsHealthy :
    (c : Controls) (t u : BackupTarget) (revision : Option ℕ) (at : ℕ) (changed : Bool)
    → mark_target_success c t revision at changed ≡ ok u
    → IsHealthy u
unfolding mark_target_success target_was_unhealthy
mark_target_success-IsHealthy c t u revision at changed h =
    elim (Bool-cases (is_some t.next_run_at)) [
      | inl e ↦
          subst IsHealthy (ok-injective (rw e at h))
            (record { none_counted = refl; healthy = refl })
      | inr e ↦
          let (next, h0, h1) =
            >>=-eq-ok (calculate_target_next_run c.services (succeeded t revision at changed) at) _
              (rw e at h) in
          subst IsHealthy (ok-injective h1) (record { none_counted = refl; healthy = refl })
    ]

queue_run_event_target :
    (c : Controls) (called : Bool) (e : EventType) (db : Database)
    → (queue_run_event c called e db).target ≡ db.target
unfolding queue_run_event
queue_run_event_target c called e db = ground arith

recovered_alerts :
    (c : Controls) (called : Bool) (db : Database)
    → alerts (queue_run_event c called backup_recovered db) ≡ alerts db
unfolding queue_run_event
recovered_alerts c called db = elim (Bool-cases (called && c.events_enabled)) [
  | inl e ↦ rw e refl
  | inr e ↦ rw e refl
]

ensure_latest_alerts :
    (o : Option ℕ) (qs : List Queued)
    → count_if is_alert (ensure_latest o qs) ≡ count_if is_alert qs
ensure_latest_alerts none qs = refl
ensure_latest_alerts (some r) qs = refl

-- The state after a success, seen from the one before.
record Succeeds (db after : Database) : Type 0 where
  healthy : IsHealthy after.target
  silent : alerts after ≡ alerts db

commit_unchanged-Succeeds :
    (c : Controls) (raw : Bool) (at : ℕ) (db after : Database)
    → commit_unchanged c raw at db ≡ ok after
    → Succeeds db after
unfolding commit_unchanged
commit_unchanged-Succeeds c raw at db after h =
    let (t, h0, h1) =
      >>=-eq-ok (mark_target_success c db.target (latest_of db.revisions) at false) _ h in
    subst (Succeeds db) (ok-injective h1) (record {
      healthy =
          rw queue_run_event_target
            (mark_target_success-IsHealthy c db.target t (latest_of db.revisions) at false h0);
      silent =
          ensure_latest_alerts (latest_of db.revisions) _
          ∙ recovered_alerts c (target_was_unhealthy db.target) _;
    })

commit_revision-Succeeds :
    (c : Controls) (id : ℕ) (hash : String) (changed raw : Bool)
    (artifacts : List StoredArtifactRecord) (at : ℕ) (db after : Database)
    → commit_revision c id hash changed raw artifacts at db ≡ ok after
    → Succeeds db after
unfolding commit_revision
commit_revision-Succeeds c id hash changed raw artifacts at db after h =
    let (t, h0, h1) = >>=-eq-ok (mark_target_success c db.target (some id) at changed) _ h in
    subst (Succeeds db) (ok-injective h1) (record {
      healthy =
          rw queue_run_event_target
            (mark_target_success-IsHealthy c db.target t (some id) at changed h0);
      silent = recovered_alerts c (target_was_unhealthy db.target) _;
    })

-- The state after a failure, where the operator is told of the first of a streak only.
record Fails (c : Controls) (db after : Database) : Type 0 where
  counted : after.target.consecutive_failures ≡ suc db.target.consecutive_failures
  unhealthy : target_was_unhealthy after.target ≡ true
  told : alerts after ≡ (
      if c.events_enabled && (nat_beq db.target.consecutive_failures 0 || c.notify_on_every_failure)
      then suc (alerts db)
      else alerts db)

failed_alerts :
    (c : Controls) (called stuck : Bool) (db : Database)
    → alerts (queue_run_event c called (if stuck then backup_stuck else backup_failed) db)
      ≡ (if c.events_enabled && called then suc (alerts db) else alerts db)
unfolding queue_run_event
failed_alerts c called true db = elim (Bool-cases (called && c.events_enabled)) [
  | inl e ↦ rw e (ground arith)
  | inr e ↦ rw e (ground arith)
]
failed_alerts c called false db = elim (Bool-cases (called && c.events_enabled)) [
  | inl e ↦ rw e (ground arith)
  | inr e ↦ rw e (ground arith)
]

announced-Fails :
    (c : Controls) (stuck : Bool) (db saved : Database)
    → saved.target.consecutive_failures ≡ suc db.target.consecutive_failures
    → target_was_unhealthy saved.target ≡ true
    → saved.queued ≡ db.queued
    → Fails c db (
        queue_run_event c
          (nat_beq db.target.consecutive_failures 0 || c.notify_on_every_failure)
          (if stuck then backup_stuck else backup_failed)
          saved)
announced-Fails c stuck db saved n u q =
    let called = nat_beq db.target.consecutive_failures 0 || c.notify_on_every_failure in
    let same =
      queue_run_event_target c called (if stuck then backup_stuck else backup_failed) saved in
    record {
      counted = rw same n;
      unhealthy = rw same u;
      told =
          failed_alerts c called stuck saved
          ∙ ap
              (λ l.
                if c.events_enabled && called
                then suc (count_if is_alert l)
                else count_if is_alert l)
              q;
    }

mark_failed-Fails :
    (c : Controls) (status : RunStatus) (code message : String) (at : ℕ) (db after : Database)
    → mark_failed c status code message at db ≡ ok after
    → Fails c db after
unfolding mark_failed target_was_unhealthy
mark_failed-Fails c status code message at db after h =
    let (next, h0, h1) =
      >>=-eq-ok (failure_next_run c db.target at (db.target.consecutive_failures + 1)) _ h in
    subst (Fails c db) (ok-injective h1)
      (announced-Fails c (code == "STALE_RUN") db _ (omega arith) (ground arith) refl)

-- Over any sequence of runs, the target counts the failures since its last success.
pub streak_lem :
    (c : Controls) (start db : Database) (bs : List Bool)
    → History c start bs db
    → db.target.consecutive_failures ≡ streak bs start.target.consecutive_failures
streak_lem c start db bs begin = refl
streak_lem c start db bs (next_run run bs' before h) = streak_lem c start before bs' h
streak_lem c start db bs (unchanged raw at bs' before after h e) =
    (commit_unchanged-Succeeds c raw at before after e).healthy.none_counted
streak_lem c start db bs (revised id hash changed raw artifacts at bs' before after h e) =
    (commit_revision-Succeeds c id hash changed raw artifacts at before after
      e).healthy.none_counted
streak_lem c start db bs (failed status code message at bs' before after h e) =
    (mark_failed-Fails c status code message at before after e).counted
    ∙ ap suc (streak_lem c start before bs' h)

-- Where notifications are on and not sent for every failure, the operator is told once for each
-- streak of failures, however many runs of it fail.
pub alerts_lem :
    (c : Controls) (start db : Database) (bs : List Bool)
    → c.events_enabled ≡ true
    → c.notify_on_every_failure ≡ false
    → History c start bs db
    → alerts db ≡ first_failures bs start.target.consecutive_failures + alerts start
alerts_lem c start db bs on once begin = omega arith
alerts_lem c start db bs on once (next_run run bs' before h) =
    alerts_lem c start before bs' on once h
alerts_lem c start db bs on once (unchanged raw at bs' before after h e) =
    (commit_unchanged-Succeeds c raw at before after e).silent
    ∙ alerts_lem c start before bs' on once h
alerts_lem c start db bs on once (revised id hash changed raw artifacts at bs' before after h e) =
    (commit_revision-Succeeds c id hash changed raw artifacts at before after e).silent
    ∙ alerts_lem c start before bs' on once h
alerts_lem c start db bs on once (failed status code message at bs' before after h e) = ground (
  arith,
  (mark_failed-Fails c status code message at before after e).told,
  streak_lem c start before bs' h,
  alerts_lem c start before bs' on once h,
)

-- After a sequence of at least one run, the target counts as unhealthy exactly if the last one failed.
pub last_outcome_lem :
    (c : Controls) (start db : Database) (last : Bool) (bs : List Bool)
    → History c start (last ∷ bs) db
    → target_was_unhealthy db.target ≡ not last
last_outcome_lem c start db last bs (next_run run bs' before h) =
    last_outcome_lem c start before last bs h
last_outcome_lem c start db last bs (unchanged raw at bs' before after h e) =
    (commit_unchanged-Succeeds c raw at before after e).healthy.healthy
last_outcome_lem c start db last bs
      (revised id hash changed raw artifacts at bs' before after h e) =
    (commit_revision-Succeeds c id hash changed raw artifacts at before after e).healthy.healthy
last_outcome_lem c start db last bs (failed status code message at bs' before after h e) =
    (mark_failed-Fails c status code message at before after e).unhealthy
