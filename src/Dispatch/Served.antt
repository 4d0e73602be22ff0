-- ===== src/Dispatch/Served.antt =====
-- Proofs on services/dispatcher.py: every due target, over the loop and over the whole dispatch.
use netbox_plugin_backup.Prelude.{
  ℕ, ◌≤◌, ◌≡◌, refl, sym, ap, subst, true, false, some, is_some, List, [], ◌∷◌, Result, ok, err,
  length, Any, nat_beq, nat_beq_iff, Bool-cases, ◌⊎◌, inl, inr, arith,
}
use netbox_plugin_backup.Records.{BackupPolicy, BackupTarget}
use netbox_plugin_backup.Scheduling.{Services}
use netbox_plugin_backup.Dispatch.{
  Ledger, has_active, has_key, JobQueue, find_target, due_of, dispatch_key, DispatchSummary, Turn,
  passed_over, skipped, conflict, queued_in, raised, dispatch_one, after_turn, dispatch_each,
}
use netbox_plugin_backup.Dispatch.Round.{
  Initialized, initialize_target_schedules, candidate_ids, live, dispatch_by, dispatch_initialized,
  dispatch_due_targets,
}
use netbox_plugin_backup.Clock.{PyError}
use netbox_plugin_backup.Dispatch.Candidates.{
  find_target-initialize, due_targets, candidate_ids-Any,
}
use netbox_plugin_backup.Dispatch.Live.{
  Served, IsWaiting, dispatch_one-Served, still_active, still-IsWaiting,
}

module _ (env : Services) (enqueue : JobQueue) (now j : ℕ) where
  -- The turn of the target itself, and the rest of the loop.
  own_turn_serves :
      (turn : Turn) (ids : List ℕ) (l : Ledger) (s : DispatchSummary)
      → Served env enqueue now j l turn
      → (after_turn env enqueue now turn l s (λ m u. dispatch_each env enqueue now ids m u)).outcome
        ≡ ok tt
      → has_active j
          (after_turn env enqueue now turn l s
            (λ m u. dispatch_each env enqueue now ids m u)).ledger.runs
        ≡ true
  own_turn_serves passed_over ids l s h ends = absurd h
  own_turn_serves skipped ids l s h ends = still_active env enqueue now j ids l _ h
  own_turn_serves conflict ids l s h ends = absurd h
  own_turn_serves (queued_in m) ids l s h ends = still_active env enqueue now j ids m _ h
  own_turn_serves (raised e) ids l s h ends = absurd (cc)

  -- The turn of another target, given that the rest of the loop serves this one.
  other_turn_serves :
      (turn : Turn) (ids : List ℕ) (l : Ledger) (s : DispatchSummary)
      → ((m : Ledger) (u : DispatchSummary)
          → ((turn ≡ queued_in m) ⊎ (m ≡ l))
          → (dispatch_each env enqueue now ids m u).outcome ≡ ok tt
          → has_active j (dispatch_each env enqueue now ids m u).ledger.runs ≡ true)
      → (after_turn env enqueue now turn l s (λ m u. dispatch_each env enqueue now ids m u)).outcome
        ≡ ok tt
      → has_active j
          (after_turn env enqueue now turn l s
            (λ m u. dispatch_each env enqueue now ids m u)).ledger.runs
        ≡ true
  other_turn_serves passed_over ids l s h ends = h l _ (inr refl) ends
  other_turn_serves skipped ids l s h ends = h l _ (inr refl) ends
  other_turn_serves conflict ids l s h ends = h l _ (inr refl) ends
  other_turn_serves (queued_in m) ids l s h ends = h m _ (inl refl) ends
  other_turn_serves (raised e) ids l s h ends = absurd (cc)

  dispatch_each-serves :
      (t : BackupTarget) (p : BackupPolicy) (scheduled_for : ℕ) (ids : List ℕ) (l : Ledger)
      (s : DispatchSummary)
      → IsWaiting env enqueue now j t p scheduled_for l
      → Any (λ i. i ≡ j) ids
      → (dispatch_each env enqueue now ids l s).outcome ≡ ok tt
      → has_active j (dispatch_each env enqueue now ids l s).ledger.runs ≡ true
  unfolding dispatch_each
  dispatch_each-serves t p scheduled_for [] l s w n ends = elim n [ ]
  dispatch_each-serves t p scheduled_for (i ∷ ids) l s w n ends = elim (Bool-cases (nat_beq i j)) [
    | inl e ↦
        let same : i ≡ j = (nat_beq_iff i j).0 e in
        let (there, due, k) = w in
        own_turn_serves (dispatch_one env enqueue now i l) ids l s
          (subst (λ x. Served env enqueue now j l (dispatch_one env enqueue now x l)) (sym same)
            (dispatch_one-Served env enqueue now j l t p scheduled_for there due k))
          ends
    | inr e ↦
        other_turn_serves (dispatch_one env enqueue now i l) ids l s
          (λ m u h again.
            dispatch_each-serves t p scheduled_for ids m u
              (elim h [
                | inl q ↦ still-IsWaiting env enqueue now i j l m t p scheduled_for e q w
                | inr q ↦ subst (λ x. IsWaiting env enqueue now j t p scheduled_for x) (sym q) w
              ])
              (elim n [ inl q ↦ absurd (ground (arith, q, e)) | inr r ↦ r ]) again)
          ends
  ]

  dispatch_by-serves :
      (t : BackupTarget) (p : BackupPolicy) (scheduled_for : ℕ) (ids : List ℕ) (l : Ledger)
      (s : DispatchSummary)
      → IsWaiting env enqueue now j t p scheduled_for l
      → Any (λ i. i ≡ j) ids
      → (dispatch_by env enqueue now live ids l s).outcome ≡ ok tt
      → has_active j (dispatch_by env enqueue now live ids l s).ledger.runs ≡ true
  dispatch_by-serves t p scheduled_for [] l s w n ends = elim n [ ]
  dispatch_by-serves t p scheduled_for (i ∷ ids) l s w n ends =
      dispatch_each-serves t p scheduled_for (i ∷ ids) l s w n ends

  dispatch_initialized-serves :
      (t : BackupTarget) (p : BackupPolicy) (scheduled_for limit : ℕ) (l : Ledger)
      (begun : Initialized) (outcome : Result PyError (Unit {0}))
      → find_target j begun.targets ≡ some t
      → due_of now t ≡ some (p, scheduled_for)
      → has_key j (some (dispatch_key t scheduled_for)) l.runs ≡ false
      → length (due_targets now begun.targets) ≤ limit
      → (dispatch_initialized env enqueue now live limit l begun outcome).outcome ≡ ok tt
      → has_active j (dispatch_initialized env enqueue now live limit l begun outcome).ledger.runs
        ≡ true
  dispatch_initialized-serves t p scheduled_for limit l begun (err e) there due k small ends =
      absurd (cc)
  dispatch_initialized-serves t p scheduled_for limit l begun (ok u) there due k small ends =
      dispatch_by-serves t p scheduled_for (candidate_ids now limit begun.targets)
        (record l { targets = begun.targets }) _ (there, due, k)
        (candidate_ids-Any now limit j begun.targets t (ap is_some due) there small) ends

  -- A dispatch with a live worker and a limit that all due targets fit in, once it ends without an
  -- exception, leaves no due target behind: each has an active run, whether it was queued now or
  -- before, unless a run with the same source and time was there already.
  pub dispatch_serves_due :
      (t : BackupTarget) (p : BackupPolicy) (scheduled_for limit : ℕ) (l : Ledger)
      → find_target j l.targets ≡ some t
      → due_of now t ≡ some (p, scheduled_for)
      → has_key j (some (dispatch_key t scheduled_for)) l.runs ≡ false
      → length (due_targets now (initialize_target_schedules env now l.targets).targets) ≤ limit
      → (dispatch_due_targets env enqueue now live limit l).outcome ≡ ok tt
      → has_active j (dispatch_due_targets env enqueue now live limit l).ledger.runs ≡ true
  unfolding dispatch_due_targets
  dispatch_serves_due t p scheduled_for limit l there due k small ends =
      let begun = initialize_target_schedules env now l.targets in
      dispatch_initialized-serves t p scheduled_for limit l begun begun.outcome
        (find_target-initialize env now j l.targets t (ap is_some due) there) due k small ends
