-- ===== src/Dispatch/Released.antt =====
-- Proofs on netbox_config_backup/services/run_cancellation.py: what a cancellation does to the runs.
use netbox_plugin_backup.Prelude.{
  ℕ, ◌+◌, ◌≤◌, ◌≡◌, refl, sym, ap, ◌∙◌, subst, Bool, true, false, not, Option, none, some, is_some,
  List, [], ◌∷◌, ok, >>=-eq-ok, require-eq-ok, ok-injective, count_if, nat_beq, Bool-cases, inl,
  inr, arith,
}
use netbox_plugin_backup.Choices.{RunStatus, is_active_run}
use netbox_plugin_backup.Records.{BackupRun}
use netbox_plugin_backup.Dispatch.{Ledger, is_active_of, has_active}
use netbox_plugin_backup.Dispatch.Cancel.{
  CoreJob, find_run, found_run, is_queued, is_started, can_remove, job_of, save_cancelled,
  cancel_queued_backup_run,
}
use netbox_plugin_backup.Dispatch.Laws.{IsExclusive}

no_active :
    (j : ℕ) (runs : List BackupRun) → count_if (is_active_of j) runs ≡ 0 → has_active j runs ≡ false
unfolding has_active
no_active j [] h = refl
no_active j (r ∷ rs) h = ground (arith, no_active j rs)

queued_active : (status : RunStatus) → is_queued status ≡ true → is_active_run status ≡ true
queued_active status h = ground arith

save_cancelled-le :
    (i now j : ℕ) (rs : List BackupRun)
    → count_if (is_active_of j) (save_cancelled i now rs) ≤ count_if (is_active_of j) rs
unfolding save_cancelled
save_cancelled-le i now j [] = omega arith
save_cancelled-le i now j (r ∷ rs) = ground (arith, save_cancelled-le i now j rs)

-- The cancelled run is one active run less.
save_cancelled-lt :
    (i now : ℕ) (rs : List BackupRun) (r : BackupRun)
    → find_run i rs ≡ some r
    → is_queued r.status ≡ true
    → count_if (is_active_of r.target) (save_cancelled i now rs) + 1
      ≤ count_if (is_active_of r.target) rs
unfolding save_cancelled find_run
save_cancelled-lt i now [] r h q = cc
save_cancelled-lt i now (x ∷ rs) r h q = elim (Bool-cases (nat_beq x.id i)) [
  | inl e ↦
      let found : some x ≡ some r = rw e at h in
      let same : r ≡ x = cc in
      let active =
        queued_active x.status (sym (ap (λ (y : BackupRun). is_queued y.status) same) ∙ q) in
      subst
        (λ (y : BackupRun).
          count_if (is_active_of y.target) (save_cancelled i now (x ∷ rs)) + 1
          ≤ count_if (is_active_of y.target) (x ∷ rs))
        (sym same) (ground (arith, active, save_cancelled-le i now x.target rs))
  | inr e ↦
      let there : find_run i rs ≡ some r = rw e at h in
      ground (arith, save_cancelled-lt i now rs r there q)
]

found_run-ok : (x : Option BackupRun) (r : BackupRun) → found_run x ≡ ok r → x ≡ some r
found_run-ok none r h = cc
found_run-ok (some q) r h = ap some (ok-injective h)

-- A cancellation that succeeds was asked for a run that is queued and whose job, if it has one, does
-- not run and is removed. It leaves the target of the run without an active run, no target with
-- two, and all rows of targets as they were.
pub cancel_releases :
    (jobs : ℕ → Option CoreJob) (now i : ℕ) (l m : Ledger) (job_removed : Bool)
    → cancel_queued_backup_run jobs now i l ≡ ok (m, job_removed)
    → IsExclusive l.runs
    → (r : BackupRun) × (find_run i l.runs ≡ some r)
      × (is_queued r.status ≡ true)
      × (is_started (job_of jobs r) ≡ false)
      × (can_remove (job_of jobs r) ≡ true)
      × (job_removed ≡ is_some (job_of jobs r))
      × (has_active r.target m.runs ≡ false)
      × IsExclusive m.runs
      × (m.targets ≡ l.targets)
unfolding cancel_queued_backup_run IsExclusive
cancel_releases jobs now i l m job_removed h e =
    let (r, found, h1) = >>=-eq-ok (found_run (find_run i l.runs)) _ h in
    let (queued, h2) = require-eq-ok (is_queued r.status) _ _ h1 in
    let (idle, h3) = require-eq-ok (not (is_started (job_of jobs r))) _ _ h2 in
    let (removed, h4) = require-eq-ok (can_remove (job_of jobs r)) _ _ h3 in
    let there = found_run-ok (find_run i l.runs) r found in
    let last = ok-injective h4 in
    let runs : save_cancelled i now l.runs ≡ m.runs = ap (λ (p : Ledger × Bool). p.0.runs) last in
    (
      r,
      there,
      queued,
      ground arith,
      removed,
      sym (ap (λ (p : Ledger × Bool). p.1) last),
      rw (← runs) (
          no_active r.target (save_cancelled i now l.runs)
            (omega (arith, save_cancelled-lt i now l.runs r there queued, e r.target))),
      λ j. rw (← runs) (omega (arith, save_cancelled-le i now j l.runs, e j)),
      sym (ap (λ (p : Ledger × Bool). p.0.targets) last),
    )
