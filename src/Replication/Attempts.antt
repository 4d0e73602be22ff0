-- ===== src/Replication/Attempts.antt =====
-- services/replication.py without an operator: the attempts at a replica by the dispatcher, the worker
-- and the reconciliation of lost jobs. A request that an operator forces, and a repair, are not part of it.
use netbox_plugin_backup.Prelude.{
  ℕ, ◌+◌, ◌≤◌, ◌≡◌, refl, subst, inl, inr, Bool, true, false, not, Option, none, some, is_some,
  String, ok, >>=-eq-ok, ok-injective, require, leb, leb→le, Bool-cases, string_eq, arith,
}
use netbox_plugin_backup.Choices.{ReplicaStatus}
use netbox_plugin_backup.Replication.{
  DestinationError, Copy, Transfer, sent, refused, crashed, enqueue_revision_replica,
  mark_replica_running, mark_replica_success, mark_replica_failed, settle_transfer, is_due_replica,
  is_active, is_ready,
}

-- The states that a new copy reaches by the dispatcher, by the worker that runs the job that the
-- dispatcher queued, and by the reconciliation of a job that was lost.
pub data Automatic (truncate : ℕ → String → String) (start : Copy) : Copy → Type 0 where
  begin : Automatic truncate start start
  dispatched :
      (job now : ℕ) (c d : Copy)
      → Automatic truncate start c
      → is_due_replica now c ≡ true
      → enqueue_revision_replica false job now c ≡ some d
      → Automatic truncate start d
  started :
      (new_path : String) (now : ℕ) (c d : Copy)
      → Automatic truncate start c
      → c.replica.status ≡ ReplicaStatus.queued
      → mark_replica_running new_path now c ≡ ok d
      → Automatic truncate start d
  ended :
      (transfer : Transfer) (now : ℕ) (c : Copy)
      → Automatic truncate start c
      → c.replica.status ≡ ReplicaStatus.running
      → Automatic truncate start (settle_transfer truncate transfer now c).1
  lost :
      (e : DestinationError) (now : ℕ) (c : Copy)
      → Automatic truncate start c
      → is_active c.replica.status ≡ true
      → Automatic truncate start (mark_replica_failed truncate e now c)

-- The attempts that a status leaves room for.
abbrev allowed : ReplicaStatus → Option ℕ → ℕ → ℕ
allowed ReplicaStatus.pending retry m = m
allowed ReplicaStatus.queued retry m = m
allowed ReplicaStatus.running retry m = m + 1
allowed ReplicaStatus.success retry m = m + 1
allowed ReplicaStatus.failed none m = m + 1
allowed ReplicaStatus.failed (some t) m = m

record IsBounded (m : ℕ) (c : Copy) : Type 0 where
  retries : c.destination.max_retries ≡ m
  room : c.replica.attempts ≤ allowed c.replica.status c.replica.next_retry_at m

allowed_le : (s : ReplicaStatus) (retry : Option ℕ) (m : ℕ) → allowed s retry m ≤ m + 1
allowed_le ReplicaStatus.pending retry m = omega arith
allowed_le ReplicaStatus.queued retry m = omega arith
allowed_le ReplicaStatus.running retry m = omega arith
allowed_le ReplicaStatus.success retry m = omega arith
allowed_le ReplicaStatus.failed none m = omega arith
allowed_le ReplicaStatus.failed (some t) m = omega arith

failed-IsBounded :
    (truncate : ℕ → String → String) (e : DestinationError) (now m : ℕ) (c : Copy)
    → IsBounded m c
    → IsBounded m (mark_replica_failed truncate e now c)
unfolding mark_replica_failed
failed-IsBounded truncate e now m c h =
    elim (Bool-cases (leb c.replica.attempts c.destination.max_retries)) [
      | inl b ↦ record {
        retries = h.retries;
        room =
            rw b (omega (arith, leb→le c.replica.attempts c.destination.max_retries b, h.retries));
      }
      | inr b ↦ record {
        retries = h.retries;
        room = rw b (omega (arith, h.room, allowed_le c.replica.status c.replica.next_retry_at m));
      }
    ]

success-IsBounded :
    (path : String) (bytes now m : ℕ) (c : Copy)
    → IsBounded m c
    → IsBounded m (mark_replica_success path bytes now c)
unfolding mark_replica_success
success-IsBounded path bytes now m c h = record {
  retries = h.retries;
  room = omega (arith, h.room, allowed_le c.replica.status c.replica.next_retry_at m);
}

settled-IsBounded :
    (truncate : ℕ → String → String) (t : Transfer) (now m : ℕ) (c : Copy)
    → IsBounded m c
    → IsBounded m (settle_transfer truncate t now c).1
unfolding settle_transfer
settled-IsBounded truncate (sent path bytes) now m c h = success-IsBounded path bytes now m c h
settled-IsBounded truncate (refused e) now m c h = failed-IsBounded truncate e now m c h
settled-IsBounded truncate crashed now m c h = failed-IsBounded truncate _ now m c h

due_room :
    (now m : ℕ) (c : Copy) (s : ReplicaStatus) (retry : Option ℕ)
    → c.replica.status ≡ s
    → c.replica.next_retry_at ≡ retry
    → is_due_replica now c ≡ true
    → allowed s retry m ≡ m
unfolding is_due_replica
due_room now m c ReplicaStatus.pending retry e f h = refl
due_room now m c ReplicaStatus.queued retry e f h = refl
due_room now m c ReplicaStatus.failed (some t) e f h = refl
due_room now m c ReplicaStatus.failed none e f h = absurd (ground (arith, simp (e, f) at h))
due_room now m c s retry e f h = absurd (ground (arith, simp e at h))

enqueued-IsBounded :
    (force : Bool) (job now m : ℕ) (c d : Copy)
    → c.destination.max_retries ≡ m
    → c.replica.attempts ≤ m
    → enqueue_revision_replica force job now c ≡ some d
    → IsBounded m d
unfolding enqueue_revision_replica
enqueued-IsBounded force job now m c d e a h = record {
  retries = ground arith;
  room = ground arith;
}

started-IsBounded :
    (new_path : String) (now m : ℕ) (c d : Copy)
    → c.destination.max_retries ≡ m
    → c.replica.attempts ≤ m
    → mark_replica_running new_path now c ≡ ok d
    → IsBounded m d
unfolding mark_replica_running
started-IsBounded new_path now m c d e a h =
    let (u0, h0, r0) = >>=-eq-ok (require c.destination.enabled _) _ h in
    let (u1, h1, r1) = >>=-eq-ok (require (not (is_some c.replica.remote_deleted_at)) _) _ r0 in
    let (u2, h2, r2) = >>=-eq-ok (require (is_ready c.replica.status) _) _ r1 in
    subst (IsBounded m) (ok-injective r2) (record { retries = e; room = omega arith })

Automatic-IsBounded :
    (truncate : ℕ → String → String) (start c : Copy) (m : ℕ)
    → IsBounded m start
    → Automatic truncate start c
    → IsBounded m c
Automatic-IsBounded truncate start c m s begin = s
Automatic-IsBounded truncate start c m s (dispatched job now b d h due e) =
    let k = Automatic-IsBounded truncate start b m s h in
    enqueued-IsBounded false job now m b d k.retries
      (omega
        (arith, k.room, due_room now m b b.replica.status b.replica.next_retry_at refl refl due))
      e
Automatic-IsBounded truncate start c m s (started new_path now b d h q e) =
    let k = Automatic-IsBounded truncate start b m s h in
    started-IsBounded new_path now m b d k.retries (rw q at k.room) e
Automatic-IsBounded truncate start c m s (ended t now b h r) =
    settled-IsBounded truncate t now m b (Automatic-IsBounded truncate start b m s h)
Automatic-IsBounded truncate start c m s (lost e now b h r) =
    failed-IsBounded truncate e now m b (Automatic-IsBounded truncate start b m s h)

-- From a pending copy that was never tried, the dispatcher and the worker attempt at most
-- `max_retries + 1` transfers, whatever the transfers do and however often a job is lost.
pub attempts_bounded :
    (truncate : ℕ → String → String) (start c : Copy)
    → start.replica.status ≡ ReplicaStatus.pending
    → start.replica.attempts ≡ 0
    → Automatic truncate start c
    → c.replica.attempts ≤ start.destination.max_retries + 1
attempts_bounded truncate start c p z h =
    let k =
      Automatic-IsBounded truncate start c start.destination.max_retries
        (record { retries = refl; room = rw p (omega arith) }) h in
    omega (
      arith,
      k.room,
      allowed_le c.replica.status c.replica.next_retry_at start.destination.max_retries,
    )
