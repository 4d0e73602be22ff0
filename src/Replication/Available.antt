-- ===== src/Replication/Available.antt =====
-- services/replication.py with services/remote_retention_cleanup.py: when a copy is marked available.
use netbox_plugin_backup.Prelude.{
  ℕ, ◌≡◌, refl, subst, Bool, true, false, not, ◌&&◌, ◌||◌, none, some, is_some, String, ok,
  >>=-eq-ok, ok-injective, require, string_eq, ◌==◌, arith,
}
use netbox_plugin_backup.Choices.{ReplicaStatus}
use netbox_plugin_backup.Replication.{
  DestinationError, Copy, Transfer, sent, refused, crashed, enqueue_revision_replica,
  mark_replica_running, mark_replica_success, mark_replica_failed, settle_transfer, is_active,
  is_success, is_ready,
}

abbrev is_failed : ReplicaStatus → Bool
is_failed ReplicaStatus.failed = true
is_failed status = false

-- The copies that the remote retention removes: one that is there, and a failed one with a recorded
-- path that is not tried again.
unfoldable pub is_expirable : Copy → Bool
is_expirable c =
    (is_success c.replica.status && c.replica.remote_available)
    || (is_failed c.replica.status
        && not (c.replica.remote_path == "")
        && not (is_some c.replica.next_retry_at))

-- The row of a copy that the remote retention has removed.
unfoldable pub expire_replica : ℕ → Copy → Copy
expire_replica now c = record c {
  replica = record c.replica {
    remote_available = false;
    remote_deleted_at = some now;
    next_retry_at = none;
    job_id = none;
  };
}

-- The states that a copy reaches by the writes of the replication, in any order that their own guards
-- allow, with enqueueing by an operator or for a repair, and by the remote retention.
pub data Reachable (truncate : ℕ → String → String) (origin : Copy) : Copy → Type 0 where
  begin : Reachable truncate origin origin
  enqueued :
      (force : Bool) (job now : ℕ) (c d : Copy)
      → Reachable truncate origin c
      → enqueue_revision_replica force job now c ≡ some d
      → Reachable truncate origin d
  started :
      (new_path : String) (now : ℕ) (c d : Copy)
      → Reachable truncate origin c
      → mark_replica_running new_path now c ≡ ok d
      → Reachable truncate origin d
  ended :
      (transfer : Transfer) (now : ℕ) (c : Copy)
      → Reachable truncate origin c
      → c.replica.status ≡ ReplicaStatus.running
      → Reachable truncate origin (settle_transfer truncate transfer now c).1
  lost :
      (e : DestinationError) (now : ℕ) (c : Copy)
      → Reachable truncate origin c
      → is_active c.replica.status ≡ true
      → Reachable truncate origin (mark_replica_failed truncate e now c)
  expired :
      (now : ℕ) (c : Copy)
      → Reachable truncate origin c
      → is_expirable c ≡ true
      → Reachable truncate origin (expire_replica now c)

abbrev Agrees : Copy → Type 0
Agrees c =
    c.replica.remote_available
    ≡ (is_success c.replica.status && not (is_some c.replica.remote_deleted_at))

settled-Agrees :
    (truncate : ℕ → String → String) (t : Transfer) (now : ℕ) (c : Copy)
    → Agrees (settle_transfer truncate t now c).1
unfolding settle_transfer mark_replica_success mark_replica_failed
settled-Agrees truncate (sent path bytes) now c = refl
settled-Agrees truncate (refused e) now c = refl
settled-Agrees truncate crashed now c = refl

enqueued-Agrees :
    (force : Bool) (job now : ℕ) (c d : Copy)
    → enqueue_revision_replica force job now c ≡ some d
    → Agrees d
unfolding enqueue_revision_replica
enqueued-Agrees force job now c d h = ground arith

started-Agrees :
    (new_path : String) (now : ℕ) (c d : Copy)
    → mark_replica_running new_path now c ≡ ok d
    → Agrees d
unfolding mark_replica_running
started-Agrees new_path now c d h =
    let (u0, h0, r0) = >>=-eq-ok (require c.destination.enabled _) _ h in
    let (u1, h1, r1) = >>=-eq-ok (require (not (is_some c.replica.remote_deleted_at)) _) _ r0 in
    let (u2, h2, r2) = >>=-eq-ok (require (is_ready c.replica.status) _) _ r1 in
    subst Agrees (ok-injective r2) refl

-- A copy starts out pending and not available. In every state that the writes of the replication and
-- the tombstones of the remote retention lead to, it is marked available exactly if its status is
-- success and it has no tombstone.
pub available_lem :
    (truncate : ℕ → String → String) (origin c : Copy)
    → origin.replica.status ≡ ReplicaStatus.pending
    → origin.replica.remote_available ≡ false
    → Reachable truncate origin c
    → c.replica.remote_available
      ≡ (is_success c.replica.status && not (is_some c.replica.remote_deleted_at))
available_lem truncate origin c p a begin = rw (a, p) refl
available_lem truncate origin c p a (enqueued force job now b d h e) =
    enqueued-Agrees force job now b d e
available_lem truncate origin c p a (started new_path now b d h e) =
    started-Agrees new_path now b d e
available_lem truncate origin c p a (ended t now b h r) = settled-Agrees truncate t now b
available_lem truncate origin c p a (lost e now b h r) = unfold mark_replica_failed in refl
available_lem truncate origin c p a (expired now b h e) = unfold expire_replica in ground arith
