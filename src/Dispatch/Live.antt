-- ===== src/Dispatch/Live.antt =====
-- Proofs on services/dispatcher.py: what a dispatch does for the targets that are due.
use netbox_plugin_backup.Prelude.{
  ℕ, ◌≡◌, ◌≢◌, refl, sym, ap, ◌∙◌, subst, true, false, Option, none, some, List, [], ◌∷◌, Result,
  ok, err, ◌>>=◌, nat_beq, nat_beq_iff, Bool-cases, inl, inr, arith,
}
use netbox_plugin_backup.Choices.{is_active_run, RunSource}
use netbox_plugin_backup.Clock.{PyError}
use netbox_plugin_backup.Records.{BackupPolicy, BackupTarget, DedupeKey, BackupRun}
use netbox_plugin_backup.Scheduling.{Services}
use netbox_plugin_backup.Dispatch.{
  Ledger, DispatchError, integrity_error, target_gone, run_gone, enqueue_failed, schedule_error,
  has_active, has_key, JobQueue, enqueue_backup_run, queued_run, enqueued, find_target, due_of,
  dispatch_source, dispatch_key, DispatchSummary, Turn, passed_over, skipped, conflict, queued_in,
  raised, turn_of, queue_target, dispatch_due, dispatch_one, dispatch_each, scheduled_at,
  save_next_run,
}
use netbox_plugin_backup.Dispatch.Laws.{queue_target-ok, dispatch_one-queued, dispatch_each-keeps}

find_target-id :
    (i : ℕ) (ts : List BackupTarget) (t : BackupTarget) → find_target i ts ≡ some t → t.id ≡ i
unfolding find_target
find_target-id i [] t h = cc
find_target-id i (x ∷ ts) t h = elim (Bool-cases (nat_beq x.id i)) [
  | inl e ↦
      let found : some x ≡ some t = rw e at h in
      let same : t ≡ x = cc in ap (λ (y : BackupTarget). y.id) same ∙ (nat_beq_iff x.id i).0 e
  | inr e ↦ find_target-id i ts t (rw e at h)
]

-- A write to one target leaves the others.
find_target-save :
    (i j : ℕ) (next : Option ℕ) (ts : List BackupTarget)
    → nat_beq i j ≡ false
    → find_target j (save_next_run i next ts) ≡ find_target j ts
unfolding find_target save_next_run
find_target-save i j next [] h = refl
find_target-save i j next (t ∷ ts) h = elim (Bool-cases (nat_beq t.id i)) [
  | inl e ↦
      let other : nat_beq t.id j ≡ false = ground arith in
      simp (e, other, find_target-save i j next ts h)
  | inr e ↦ simp (e, find_target-save i j next ts h)
]

enqueued_refused :
    (r : BackupRun) (l : Ledger) (x : Option ℕ) → enqueued r l x ≢ err integrity_error
enqueued_refused r l none = λ h. cc
enqueued_refused r l (some job) = λ h. cc

-- A target without an active run and without the key is not refused for a constraint.
enqueue-refused :
    (enqueue : JobQueue) (target : ℕ) (source : RunSource) (scheduled_for : Option ℕ)
    (key : Option DedupeKey) (now : ℕ) (l : Ledger)
    → has_active target l.runs ≡ false
    → has_key target key l.runs ≡ false
    → enqueue_backup_run enqueue target source scheduled_for key now l ≢ err integrity_error
unfolding enqueue_backup_run
enqueue-refused enqueue target source scheduled_for key now l a k h =
    enqueued_refused (queued_run l target source scheduled_for key now) l (enqueue l.next_run_id)
      (rw (a, k) at h)

active_head :
    (r : BackupRun) (rs : List BackupRun)
    → is_active_run r.status ≡ true
    → has_active r.target (r ∷ rs) ≡ true
unfolding has_active
active_head r rs h = ground (arith, (nat_beq_iff r.target r.target).1 refl)

active_tail :
    (j : ℕ) (r : BackupRun) (rs : List BackupRun)
    → has_active j rs ≡ true
    → has_active j (r ∷ rs) ≡ true
unfolding has_active
active_tail j r rs h = ground arith

other_key :
    (j : ℕ) (key : Option DedupeKey) (r : BackupRun) (rs : List BackupRun)
    → nat_beq r.target j ≡ false
    → has_key j key rs ≡ false
    → has_key j key (r ∷ rs) ≡ false
unfolding has_key
other_key j key r rs h k = rw (h, k) refl

module _ (env : Services) (enqueue : JobQueue) (now : ℕ) where
  queue_refused :
      (t : BackupTarget) (p : BackupPolicy) (scheduled_for : ℕ) (l : Ledger) (x : Result PyError ℕ)
      → has_active t.id l.runs ≡ false
      → has_key t.id (some (dispatch_key t scheduled_for)) l.runs ≡ false
      → (scheduled_at x >>= λ next.
          enqueue_backup_run enqueue t.id
            (dispatch_source t)
            (some scheduled_for)
            (some (dispatch_key t scheduled_for))
            now
            (record l { targets = save_next_run t.id (some next) l.targets }))
        ≢ err integrity_error
  queue_refused t p scheduled_for l (ok next) a k =
      enqueue-refused enqueue t.id (dispatch_source t) (some scheduled_for)
        (some (dispatch_key t scheduled_for)) now
        (record l { targets = save_next_run t.id (some next) l.targets }) a k
  queue_refused t p scheduled_for l (err e) a k = λ h. cc

  -- What a turn has to come to for the target `j`.
  abbrev pub Served : ℕ → Ledger → Turn → Type 0
  Served j l passed_over = ⊥
  Served j l skipped = has_active j l.runs ≡ true
  Served j l conflict = ⊥
  Served j l (queued_in m) = has_active j m.runs ≡ true
  Served j l (raised e) = Unit

  turn_of-Served :
      (t : BackupTarget) (p : BackupPolicy) (scheduled_for : ℕ) (l : Ledger)
      (x : Result DispatchError Ledger)
      → x ≡ queue_target env enqueue now t p scheduled_for l
      → x ≢ err integrity_error
      → Served t.id l (turn_of x)
  turn_of-Served t p scheduled_for l (ok m) h n =
      let (free, next, job, timed, added) =
        queue_target-ok env enqueue now t p scheduled_for l m (sym h) in
      subst (λ (x : Ledger). has_active t.id x.runs ≡ true) (sym added)
        (active_head
          (record (queued_run l t.id (dispatch_source t) (some scheduled_for)
            (some (dispatch_key t scheduled_for)) now) { job_id = some job })
          l.runs refl)
  turn_of-Served t p scheduled_for l (err integrity_error) h n = n refl
  turn_of-Served t p scheduled_for l (err target_gone) h n = tt
  turn_of-Served t p scheduled_for l (err run_gone) h n = tt
  turn_of-Served t p scheduled_for l (err enqueue_failed) h n = tt
  turn_of-Served t p scheduled_for l (err (schedule_error e)) h n = tt

  dispatch_due-Served :
      (t : BackupTarget) (p : BackupPolicy) (scheduled_for : ℕ) (l : Ledger)
      → has_key t.id (some (dispatch_key t scheduled_for)) l.runs ≡ false
      → Served t.id l (dispatch_due env enqueue now t l (some (p, scheduled_for)))
  unfolding queue_target
  dispatch_due-Served t p scheduled_for l k = elim (Bool-cases (has_active t.id l.runs)) [
    | inl e ↦ rw e e
    | inr e ↦ rw e (
        turn_of-Served t p scheduled_for l (queue_target env enqueue now t p scheduled_for l) refl
          (queue_refused t p scheduled_for l _ e k))
  ]

  -- The turn of a target that is due.
  pub dispatch_one-Served :
      (j : ℕ) (l : Ledger) (t : BackupTarget) (p : BackupPolicy) (scheduled_for : ℕ)
      → find_target j l.targets ≡ some t
      → due_of now t ≡ some (p, scheduled_for)
      → has_key j (some (dispatch_key t scheduled_for)) l.runs ≡ false
      → Served j l (dispatch_one env enqueue now j l)
  unfolding dispatch_one
  dispatch_one-Served j l t p scheduled_for there due k =
      let e = find_target-id j l.targets t there in
      rw (there, due)
        (subst (λ i. Served i l (dispatch_due env enqueue now t l (some (p, scheduled_for)))) e
          (dispatch_due-Served t p scheduled_for l
            (ap (λ i. has_key i (some (dispatch_key t scheduled_for)) l.runs) e ∙ k)))

  -- An active run stays, whatever else is dispatched.
  pub still_active :
      (j : ℕ) (ids : List ℕ) (l : Ledger) (s : DispatchSummary)
      → has_active j l.runs ≡ true
      → has_active j (dispatch_each env enqueue now ids l s).ledger.runs ≡ true
  still_active j ids l s a =
      dispatch_each-keeps env enqueue now (λ x. has_active j x.runs ≡ true)
        (λ i x m h b.
          let (t, p, scheduled_for, there, due, made) =
            dispatch_one-queued env enqueue now i x m h in
          let (free, next, job, timed, added) =
            queue_target-ok env enqueue now t p scheduled_for x m made in
          subst (λ (y : Ledger). has_active j y.runs ≡ true) (sym added)
            (active_tail j
              (record (queued_run x t.id (dispatch_source t) (some scheduled_for)
                (some (dispatch_key t scheduled_for)) now) { job_id = some job })
              x.runs b))
        ids l s a

  -- What a target that is due looks like in the rows.
  abbrev pub IsWaiting : ℕ → BackupTarget → BackupPolicy → ℕ → Ledger → Type 0
  IsWaiting j t p scheduled_for l =
      (find_target j l.targets ≡ some t)
      × (due_of now t ≡ some (p, scheduled_for))
      × (has_key j (some (dispatch_key t scheduled_for)) l.runs ≡ false)

  -- The turn of another target leaves it waiting.
  pub still-IsWaiting :
      (i j : ℕ) (l m : Ledger) (t : BackupTarget) (p : BackupPolicy) (scheduled_for : ℕ)
      → nat_beq i j ≡ false
      → dispatch_one env enqueue now i l ≡ queued_in m
      → IsWaiting j t p scheduled_for l
      → IsWaiting j t p scheduled_for m
  still-IsWaiting i j l m t p scheduled_for other h (there, due, k) =
      let (u, q, at, found, due_u, made) = dispatch_one-queued env enqueue now i l m h in
      let (free, next, job, timed, added) = queue_target-ok env enqueue now u q at l m made in
      let e = find_target-id i l.targets u found in
      let differs : nat_beq u.id j ≡ false = rw e other in
      subst (λ (y : Ledger). IsWaiting j t p scheduled_for y) (sym added)
        (
          find_target-save u.id j (some next) l.targets differs ∙ there,
          due,
          other_key j (some (dispatch_key t scheduled_for))
              (record (queued_run l u.id (dispatch_source u) (some at) (some (dispatch_key u at))
                now) { job_id = some job })
              l.runs differs k,
        )
