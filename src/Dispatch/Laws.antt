-- ===== src/Dispatch/Laws.antt =====
-- Proofs on services/queueing.py, services/dispatcher.py and services/run_cancellation.py: how many
-- runs of a target are active.
use netbox_plugin_backup.Prelude.{
  ℕ, ◌≤◌, ◌≡◌, ◌≢◌, refl, sym, ap, ◌∙◌, subst, false, ◌||◌, Option, none, some, List, [], ◌∷◌,
  Result, ok, err, >>=-eq-ok, ok-injective, count_if, nat_beq, nat_beq_iff, Bool-cases, inl, inr,
  arith,
}
use netbox_plugin_backup.Choices.{RunSource}
use netbox_plugin_backup.Clock.{PyError}
use netbox_plugin_backup.Records.{BackupPolicy, BackupTarget, DedupeKey, BackupRun}
use netbox_plugin_backup.Scheduling.{Services, aware, target_timezone_name, calculate_next_run}
use netbox_plugin_backup.Dispatch.{
  Ledger, DispatchError, is_active_of, has_active, has_key, JobQueue, enqueue_backup_run,
  queued_run, add_run, enqueued, find_target, due_of, dispatch_source, dispatch_key,
  DispatchSummary, Turn, passed_over, skipped, conflict, queued_in, raised, integrity_error,
  target_gone, run_gone, enqueue_failed, schedule_error, turn_of, queue_target, dispatch_due,
  dispatch_found, dispatch_one, after_turn, dispatch_each, Dispatched, scheduled_at, save_next_run,
}

-- No target has two active runs.
unfoldable pub IsExclusive : List BackupRun → Type 0
IsExclusive runs = (j : ℕ) → count_if (is_active_of j) runs ≤ 1

pub not-has_active :
    (j : ℕ) (runs : List BackupRun) → has_active j runs ≡ false → count_if (is_active_of j) runs ≡ 0
unfolding has_active
not-has_active j [] h = refl
not-has_active j (r ∷ rs) h = ground (arith, not-has_active j rs)

pub cons-IsExclusive :
    (r : BackupRun) (runs : List BackupRun)
    → has_active r.target runs ≡ false
    → IsExclusive runs
    → IsExclusive (r ∷ runs)
unfolding IsExclusive
cons-IsExclusive r runs h e j = elim (Bool-cases (nat_beq r.target j)) [
  | inl t ↦
      let same : r.target ≡ j = (nat_beq_iff r.target j).0 t in
      ground (arith, not-has_active j runs (ap (λ k. has_active k runs) (sym same) ∙ h))
  | inr t ↦ ground (arith, e j)
]

enqueued-ok :
    (r : BackupRun) (l m : Ledger) (x : Option ℕ)
    → enqueued r l x ≡ ok m
    → (job : ℕ) × (m ≡ add_run r job l)
enqueued-ok r l m none h = cc
enqueued-ok r l m (some job) h = (job, sym (ok-injective h))

-- What a queued run adds: one run, at the head, of a target that had no active run.
pub enqueue_backup_run-ok :
    (enqueue : JobQueue) (target : ℕ) (source : RunSource) (scheduled_for : Option ℕ)
    (key : Option DedupeKey) (now : ℕ) (l m : Ledger)
    → enqueue_backup_run enqueue target source scheduled_for key now l ≡ ok m
    → (has_active target l.runs ≡ false)
      × (job : ℕ) × (m ≡ add_run (queued_run l target source scheduled_for key now) job l)
unfolding enqueue_backup_run
enqueue_backup_run-ok enqueue target source scheduled_for key now l m h =
    elim (Bool-cases (has_active target l.runs || has_key target key l.runs)) [
      | inl e ↦ absurd (ground (arith, rw e at h))
      | inr e ↦
          let (job, added) =
            enqueued-ok (queued_run l target source scheduled_for key now) l m
              (enqueue l.next_run_id) (rw e at h) in
          (ground arith, job, added)
    ]

-- A queued run keeps the runs exclusive.
pub enqueue-IsExclusive :
    (enqueue : JobQueue) (target : ℕ) (source : RunSource) (scheduled_for : Option ℕ)
    (key : Option DedupeKey) (now : ℕ) (l m : Ledger)
    → enqueue_backup_run enqueue target source scheduled_for key now l ≡ ok m
    → IsExclusive l.runs
    → IsExclusive m.runs
enqueue-IsExclusive enqueue target source scheduled_for key now l m h e =
    let (free, job, added) =
      enqueue_backup_run-ok enqueue target source scheduled_for key now l m h in
    subst (λ (x : Ledger). IsExclusive x.runs) (sym added)
      (cons-IsExclusive
        (record (queued_run l target source scheduled_for key now) { job_id = some job }) l.runs
        free e)

scheduled_at-ok : (r : Result PyError ℕ) (next : ℕ) → scheduled_at r ≡ ok next → r ≡ ok next
scheduled_at-ok (ok t) next h = ap ok (ok-injective h)
scheduled_at-ok (err e) next h = cc

not_queued : (e : DispatchError) (m : Ledger) → turn_of (err e) ≢ queued_in m
not_queued integrity_error m = λ h. cc
not_queued target_gone m = λ h. cc
not_queued run_gone m = λ h. cc
not_queued enqueue_failed m = λ h. cc
not_queued (schedule_error e) m = λ h. cc

pub not_skipped : (m : Ledger) → skipped ≢ queued_in m
not_skipped m h = cc

module _ (env : Services) (enqueue : JobQueue) (now : ℕ) where
  -- The turn that queued a run came from these steps.
  pub queue_target-ok :
      (t : BackupTarget) (p : BackupPolicy) (scheduled_for : ℕ) (l m : Ledger)
      → queue_target env enqueue now t p scheduled_for l ≡ ok m
      → (has_active t.id l.runs ≡ false)
        × (next job : ℕ) × (calculate_next_run env p
              (aware scheduled_for)
              t.key
              (target_timezone_name env t)
              (some (aware now))
            ≡ ok next)
        × (m
            ≡ add_run
                (queued_run l t.id
                  (dispatch_source t)
                  (some scheduled_for)
                  (some (dispatch_key t scheduled_for))
                  now)
                job
                (record l { targets = save_next_run t.id (some next) l.targets }))
  unfolding queue_target
  queue_target-ok t p scheduled_for l m h =
      let next_run =
        calculate_next_run env p (aware scheduled_for) t.key (target_timezone_name env t)
          (some (aware now)) in
      let (next, timed, h1) = >>=-eq-ok (scheduled_at next_run) _ h in
      let (free, job, added) =
        enqueue_backup_run-ok enqueue t.id (dispatch_source t) (some scheduled_for)
          (some (dispatch_key t scheduled_for)) now
          (record l { targets = save_next_run t.id (some next) l.targets }) m h1 in
      (free, next, job, scheduled_at-ok next_run next timed, added)

  pub after_turn-keeps :
      (P : Ledger → Type 0) (next : Ledger → DispatchSummary → Dispatched env enqueue now)
      (turn : Turn) (l : Ledger) (s : DispatchSummary)
      → ((m : Ledger) → turn ≡ queued_in m → P m)
      → P l
      → ((m : Ledger) (u : DispatchSummary) → P m → P (next m u).ledger)
      → P (after_turn env enqueue now turn l s next).ledger
  after_turn-keeps P next passed_over l s h a k = k l s a
  after_turn-keeps P next skipped l s h a k = k l _ a
  after_turn-keeps P next conflict l s h a k = k l _ a
  after_turn-keeps P next (queued_in m) l s h a k = k m _ (h m refl)
  after_turn-keeps P next (raised e) l s h a k = a

  pub turn_of-queued :
      (r : Result DispatchError Ledger) (m : Ledger) → turn_of r ≡ queued_in m → r ≡ ok m
  turn_of-queued (ok l) m h = cc
  turn_of-queued (err e) m h = absurd (not_queued e m h)

  dispatch_due-queued :
      (t : BackupTarget) (l m : Ledger) (x : Option (BackupPolicy × ℕ))
      → dispatch_due env enqueue now t l x ≡ queued_in m
      → (p : BackupPolicy) × (scheduled_for : ℕ) × (x ≡ some (p, scheduled_for))
        × (queue_target env enqueue now t p scheduled_for l ≡ ok m)
  dispatch_due-queued t l m none h = cc
  dispatch_due-queued t l m (some (p, scheduled_for)) h =
      elim (Bool-cases (has_active t.id l.runs)) [
        | inl e ↦ absurd (not_skipped m (rw e at h))
        | inr e ↦ (
          p,
          scheduled_for,
          refl,
          turn_of-queued (queue_target env enqueue now t p scheduled_for l) m (rw e at h),
        )
      ]

  dispatch_found-queued :
      (l m : Ledger) (x : Option BackupTarget)
      → dispatch_found env enqueue now l x ≡ queued_in m
      → (t : BackupTarget) × (p : BackupPolicy) × (scheduled_for : ℕ) × (x ≡ some t)
        × (due_of now t ≡ some (p, scheduled_for))
        × (queue_target env enqueue now t p scheduled_for l ≡ ok m)
  dispatch_found-queued l m none h = cc
  dispatch_found-queued l m (some t) h =
      let (p, scheduled_for, due, made) = dispatch_due-queued t l m (due_of now t) h in
      (t, p, scheduled_for, refl, due, made)

  pub dispatch_one-queued :
      (i : ℕ) (l m : Ledger)
      → dispatch_one env enqueue now i l ≡ queued_in m
      → (t : BackupTarget) × (p : BackupPolicy) × (scheduled_for : ℕ) × (find_target i l.targets
          ≡ some t)
        × (due_of now t ≡ some (p, scheduled_for))
        × (queue_target env enqueue now t p scheduled_for l ≡ ok m)
  unfolding dispatch_one
  dispatch_one-queued i l m h = dispatch_found-queued l m (find_target i l.targets) h

  -- What every turn that queues a run keeps is kept by the loop, however it ends.
  pub dispatch_each-keeps :
      (P : Ledger → Type 0)
      → ((i : ℕ) (l m : Ledger) → dispatch_one env enqueue now i l ≡ queued_in m → P l → P m)
      → (ids : List ℕ) (l : Ledger) (s : DispatchSummary) → P l
      → P (dispatch_each env enqueue now ids l s).ledger
  unfolding dispatch_each
  dispatch_each-keeps P h [] l s a = a
  dispatch_each-keeps P h (i ∷ ids) l s a =
      after_turn-keeps P (λ m u. dispatch_each env enqueue now ids m u)
        (dispatch_one env enqueue now i l) l s (λ m e. h i l m e a) a
        (λ m u b. dispatch_each-keeps P h ids m u b)

  pub dispatch_each-IsExclusive :
      (ids : List ℕ) (l : Ledger) (s : DispatchSummary)
      → IsExclusive l.runs
      → IsExclusive (dispatch_each env enqueue now ids l s).ledger.runs
  dispatch_each-IsExclusive ids l s e =
      dispatch_each-keeps (λ x. IsExclusive x.runs)
        (λ i x m h a.
          let (t, p, scheduled_for, there, due, made) = dispatch_one-queued i x m h in
          let (free, next, job, timed, added) = queue_target-ok t p scheduled_for x m made in
          subst (λ (y : Ledger). IsExclusive y.runs) (sym added) (cons-IsExclusive _ x.runs free a))
        ids l s e
