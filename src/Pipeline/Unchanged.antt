-- ===== src/Pipeline/Unchanged.antt =====
-- `execute` of services/backup.py on an unchanged configuration, in the mode that stores changed
-- ones only.
use netbox_plugin_backup.Prelude.{
  ℕ, ◌≡◌, refl, inl, inr, Bool, true, false, not, ◌&&◌, ◌||◌, Option, [], Result, ok, err,
  Bool-cases, arith,
}
use netbox_plugin_backup.Pipeline.{
  Failure, is_expected, expected_error, failed, errored, ExecutionContext, BackupResult, Call, Env,
  World,
}
use netbox_plugin_backup.Pipeline.Gather.{Gathered, gather, is_content_changed, is_raw_changed}
use netbox_plugin_backup.Pipeline.Execute.{
  Run, after, logged, call, finish_unchanged, finish, attempt, handle, execute, settle_expected,
  settle_unexpected, rollback_storage, rollback,
}

-- The gathered configuration is to be stored.
abbrev pub is_to_store : Gathered → Bool
is_to_store g = is_content_changed g.latest g.primary || not g.context.is_changed_only

module _ {Store : Type 0} (env : Env Store) (start : Store) where
  -- No key has been stored, and the storage is as it was.
  record Idle (w : World Store) : Type 0 where
    store : w.store ≡ start
    keys : w.stored_keys ≡ []

  after-Idle :
      {A B : Type 0} (x : Result Failure A × World Store) (next : A → Run Store B)
      → Idle x.1
      → ((a : A) (w : World Store) → Idle w → Idle (next a w).1)
      → Idle (after x next).1
  after-Idle (ok a, w) next h k = k a w h
  after-Idle (err e, w) next h k = h

  logged-Idle :
      (r : Result Failure (Option ℕ)) (c : Call) (w : World Store)
      → Idle w
      → Idle (logged env r c w).1
  unfolding logged
  logged-Idle (ok o) c w h = record { store = h.store; keys = h.keys }
  logged-Idle (err e) c w h = h

  finish-Idle :
      (g : Gathered) (w : World Store) → is_to_store g ≡ false → Idle w → Idle (finish env g w).1
  unfolding finish finish_unchanged call
  finish-Idle g w u h =
      let same : (not (is_content_changed g.latest g.primary) && g.context.is_changed_only) ≡ true =
        ground arith in
      simp same (
        after-Idle
          (logged env (env.repository (Call.commit_unchanged (is_raw_changed g.latest g.primary))) _
            w)
          _
          (logged-Idle (env.repository (Call.commit_unchanged (is_raw_changed g.latest g.primary)))
            _ w h)
          (λ o v k. k))

  rollback-Idle : (w : World Store) → Idle w → Idle (rollback_storage env w).1
  unfolding rollback_storage rollback
  rollback-Idle w h = record { store = rw h.keys h.store; keys = h.keys }

  attempt-Idle :
      (c : ExecutionContext) (g : Gathered) (w : World Store)
      → env.context ≡ ok c
      → gather env c ≡ ok g
      → is_to_store g ≡ false
      → Idle w
      → Idle (attempt env w).1
  unfolding attempt call
  attempt-Idle c g w hc hg u h =
      simp (hc, hg)
        (after-Idle (logged env (env.repository Call.mark_running) Call.mark_running w) _
          (logged-Idle (env.repository Call.mark_running) Call.mark_running w h)
          (λ o v k. finish-Idle g v u k))

  handle-Idle : (x : Result Failure BackupResult × World Store) → Idle x.1 → Idle (handle env x).1
  unfolding handle settle_expected settle_unexpected call
  handle-Idle (ok r, w) h = h
  handle-Idle (err e, w) h = elim (Bool-cases (is_expected e)) [
    | inl b ↦ simp b (
        after-Idle (rollback_storage env w) _ (rollback-Idle w h) (λ u v k.
          after-Idle
            (logged env
              (env.repository
                (Call.mark_failed failed (expected_error e).0 (env.truncate (expected_error e).1)))
              _ v)
            _
            (logged-Idle
              (env.repository
                (Call.mark_failed failed (expected_error e).0 (env.truncate (expected_error e).1)))
              _ v k)
            (λ o v' k'. k')))
    | inr b ↦ simp b (
        after-Idle (rollback_storage env w) _ (rollback-Idle w h) (λ u v k.
          after-Idle
            (logged env
              (env.repository
                (Call.mark_failed errored "INTERNAL_ERROR" "Unexpected internal backup error."))
              _ v)
            _
            (logged-Idle
              (env.repository
                (Call.mark_failed errored "INTERNAL_ERROR" "Unexpected internal backup error."))
              _ v k)
            (λ o v' k'. k')))
  ]

  -- If the run gathers a configuration whose normalized hash is that of the latest revision, and
  -- only changed ones are stored, then the storage ends as it began, even if the commit raises.
  pub execute_unchanged :
      (c : ExecutionContext) (g : Gathered)
      → env.context ≡ ok c
      → gather env c ≡ ok g
      → is_to_store g ≡ false
      → (execute env start).1.store ≡ start
  unfolding execute
  execute_unchanged c g hc hg u =
      let w : World Store = record { store = start; calls = []; stored_keys = [] } in
      (handle-Idle (attempt env w)
        (attempt-Idle c g w hc hg u (record { store = refl; keys = refl }))).store
