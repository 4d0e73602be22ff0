-- ===== src/Pipeline/Rollback.antt =====
-- `execute` and `_rollback_storage` of services/backup.py: the storage after a run that fails.
use netbox_plugin_backup.Prelude.{
  ℕ, ◌≡◌, refl, sym, ap, ◌∙◌, ◌⊎◌, inl, inr, Bool, true, false, not, ◌&&◌, Option, none, some, List,
  [], ◌∷◌, String, Result, ok, err, ◌==◌, string_eq, Bool-cases, arith, if◌then◌else◌,
}
use netbox_plugin_backup.Pipeline.{
  Failure, is_expected, PreparedArtifact, ExecutionContext, StorageKey, success_unchanged,
  success_changed, failed, errored, BackupResult, Call, Env, World,
}
use netbox_plugin_backup.Pipeline.Gather.{Gathered, gather, is_content_changed, is_raw_changed}
use netbox_plugin_backup.Pipeline.Execute.{
  Run, after, lift, logged, call, remembered, put, key_of, store_each, finish_unchanged,
  finish_revision, finish, attempt, record_of, rollback_storage, settle_expected, settle_unexpected,
  handle, execute,
}
use netbox_plugin_backup.Pipeline.StorageLaws.{IsStorage}
use netbox_plugin_backup.Pipeline.Undeleted.{names, undeleted, rollback_removes}

-- The run reports a failure, or raises.
abbrev pub is_failure : Result Failure BackupResult → Bool
is_failure (err e) = true
is_failure (ok r) = elim r.status [ failed ↦ true | errored ↦ true | _ ↦ false ]

-- The key is one of the revision that the run makes.
abbrev pub is_own : {Store : Type 0} → Env Store → StorageKey → Bool
is_own env k = k.revision_uuid == env.revision_uuid

module _ {Store V : Type 0} (env : Env Store) (objects : Store → StorageKey → Option V)
    (encode : String → V) (same : StorageKey → StorageKey → Bool)
    (laws : IsStorage env objects encode same) where
  module _ (start : Store) where
    -- The last write of the run was a `put` of this revision at the object of `k`, which raised and yet
    -- wrote it.
    pub IsInterrupted : StorageKey → World Store → Type 0
    IsInterrupted k w =
        (o : StorageKey) × (is_own env o ≡ true)
        × (same k o ≡ true)
        × (s : Store) × (content : String) × (e : Failure) × (env.put s o content
            ≡ (w.store, err e))
        × (objects w.store k ≡ some (encode content))

    -- A key of this run's revision that names the object of `k`.
    Own : StorageKey → Type 0
    Own k = (o : StorageKey) × (is_own env o ≡ true) × (same k o ≡ true)

    -- Away from the stored keys nothing has changed, and the stored keys are of this run's revision.
    record Tracks (w : World Store) : Type 0 where
      untouched :
          (k : StorageKey)
          → names same k w.stored_keys ≡ false
          → objects w.store k ≡ objects start k
      own : (k : StorageKey) → names same k w.stored_keys ≡ true → Own k

    -- The same after an exception, which may have come from a `put`.
    record Ended (w : World Store) : Type 0 where
      untouched :
          (k : StorageKey)
          → names same k w.stored_keys ≡ false
          → (objects w.store k ≡ objects start k) ⊎ IsInterrupted k w
      own : (k : StorageKey) → names same k w.stored_keys ≡ true → Own k

    Tracks-Ended : (w : World Store) → Tracks w → Ended w
    Tracks-Ended w t = record { untouched = λ k free. inl (t.untouched k free); own = t.own }

    Tracked : {A : Type 0} → Result Failure A × World Store → Type 0
    Tracked (ok a, w) = Tracks w
    Tracked (err e, w) = Ended w

    remembered-Tracked :
        (o : StorageKey) (content : String) (w : World Store) (x : Store × Result Failure ℕ)
        → x ≡ env.put w.store o content
        → is_own env o ≡ true
        → Tracks w
        → Tracked (remembered env x o w)
    unfolding remembered Tracked IsInterrupted Own
    remembered-Tracked o content w (s, ok n) h mine t = record {
      untouched = λ k free.
          ap (λ p. objects p.0 k) h
          ∙ laws.put_writes w.store o content n k (sym (ap (λ p. p.1) h))
          ∙ ground (arith, t.untouched k);
      own = λ k taken. elim (Bool-cases (same k o)) [
        | inl e ↦ (o, mine, e)
        | inr e ↦ t.own k (ground (arith, e, taken))
      ];
    }
    remembered-Tracked o content w (s, err e) h mine t = record {
      untouched = λ k free. elim (laws.put_raises w.store o content e k (sym (ap (λ p. p.1) h))) [
        | inl keeps ↦ inl (ap (λ p. objects p.0 k) h ∙ keeps ∙ t.untouched k free)
        | inr (there, written) ↦
            inr (o, mine, there, w.store, content, e, sym h, ap (λ p. objects p.0 k) h ∙ written)
      ];
      own = t.own;
    }

    after-Tracked :
        {A B : Type 0} (x : Result Failure A × World Store) (next : A → Run Store B)
        → Tracked x
        → ((a : A) (w : World Store) → Tracks w → Tracked (next a w))
        → Tracked (after x next)
    unfolding Tracked
    after-Tracked (ok a, w) next h k = k a w h
    after-Tracked (err e, w) next h k = h

    lifted-Tracked :
        {A : Type 0} (r : Result Failure A) (w : World Store) → Tracks w → Tracked (r, w)
    unfolding Tracked
    lifted-Tracked (ok a) w t = t
    lifted-Tracked (err e) w t = Tracks-Ended w t

    store_each-Tracked :
        (c : ExecutionContext) (items : List PreparedArtifact) (w : World Store)
        → Tracks w
        → Tracked (store_each env c items w)
    unfolding store_each put
    store_each-Tracked c [] w t = lifted-Tracked (ok []) w t
    store_each-Tracked c (item ∷ rest) w t =
        let x = env.put w.store (key_of env c item) item.artifact.content in
        after-Tracked (remembered env x (key_of env c item) w) _
          (remembered-Tracked (key_of env c item) item.artifact.content w x refl
            ((string_eq.same_iff env.revision_uuid env.revision_uuid).1 refl) t)
          (λ size v u.
            after-Tracked (store_each env c rest v) _ (store_each-Tracked c rest v u)
              (λ records v' u'.
                lifted-Tracked (ok (record_of env (key_of env c item) size item ∷ records)) v' u'))

    -- After the body of the `try`.
    Tried : Result Failure BackupResult × World Store → Type 0
    Tried (ok r, w) = is_failure (ok r) ≡ false
    Tried (err e, w) = Ended w

    logged-Tried :
        (r : Result Failure (Option ℕ)) (c : Call) (w : World Store)
        (next : Option ℕ → BackupResult)
        → ((o : Option ℕ) → is_failure (ok (next o)) ≡ false)
        → Tracks w
        → Tried (after (logged env r c w) (λ o. lift (ok (next o))))
    unfolding Tried logged
    logged-Tried (ok o) c w next h t = h o
    logged-Tried (err e) c w next h t = Tracks-Ended w t

    after-Tried :
        {A : Type 0} (x : Result Failure A × World Store) (next : A → Run Store BackupResult)
        → Tracked x
        → ((a : A) (w : World Store) → Tracks w → Tried (next a w))
        → Tried (after x next)
    unfolding Tried Tracked
    after-Tried (ok a, w) next h k = k a w h
    after-Tried (err e, w) next h k = h

    logged-Tracked :
        (r : Result Failure (Option ℕ)) (c : Call) (w : World Store)
        → Tracks w
        → Tracked (logged env r c w)
    unfolding logged Tracked
    logged-Tracked (ok o) c w t = record { untouched = t.untouched; own = t.own }
    logged-Tracked (err e) c w t = Tracks-Ended w t

    success_is_no_failure :
        (changed raw : Bool) (o : Option ℕ)
        → is_failure (
            ok (record {
              status = if changed then success_changed else success_unchanged;
              changed = changed;
              raw_changed = raw;
              revision_id = o;
              error_code = "";
            }))
          ≡ false
    success_is_no_failure true raw o = refl
    success_is_no_failure false raw o = refl

    finish-Tried : (g : Gathered) (w : World Store) → Tracks w → Tried (finish env g w)
    unfolding finish finish_unchanged finish_revision call
    finish-Tried g w t =
        elim (Bool-cases
          (not (is_content_changed g.latest g.primary) && g.context.is_changed_only)) [
            | inl e ↦ simp e (
                logged-Tried
                  (env.repository (Call.commit_unchanged (is_raw_changed g.latest g.primary))) _ w _
                  (λ o. refl) t)
            | inr e ↦ simp e (
                after-Tried (store_each env g.context g.prepared w) _
                  (store_each-Tracked g.context g.prepared w t)
                  (λ records v u.
                    logged-Tried
                      (env.repository (
                        Call.commit_revision g.primary.normalized_hash
                          (is_content_changed g.latest g.primary)
                          (is_raw_changed g.latest g.primary) records))
                      _ v _
                      (λ o.
                        success_is_no_failure (is_content_changed g.latest g.primary)
                          (is_raw_changed g.latest g.primary) o)
                      u))
          ]

    attempt-Tried : (w : World Store) → Tracks w → Tried (attempt env w)
    unfolding attempt call
    attempt-Tried w t =
        after-Tried (env.context, w) _ (lifted-Tracked env.context w t)
          (λ c v u.
            after-Tried (logged env (env.repository Call.mark_running) Call.mark_running v) _
              (logged-Tracked (env.repository Call.mark_running) Call.mark_running v u)
              (λ o v' u'.
                after-Tried (gather env c, v') _ (lifted-Tracked (gather env c) v' u')
                  finish-Tried))

    -- What the rollback after `v` may leave at `k`: the object of a deletion that raises, or of the
    -- `put` that ended the run.
    abbrev pub IsLeft : World Store → StorageKey → Type 0
    IsLeft v k = (names same k (undeleted env v.stored_keys v.store) ≡ true) ⊎ IsInterrupted k v

    -- The storage is what it was, object by object, but for what is left.
    abbrev Restored : World Store → World Store → Type 0
    Restored v w = (k : StorageKey) → (objects w.store k ≡ objects start k) ⊎ IsLeft v k

    logged-Restored :
        (r : Result Failure (Option ℕ)) (c : Call) (v w : World Store)
        → Restored v w
        → Restored v (logged env r c w).1
    unfolding logged
    logged-Restored (ok o) c v w h = h
    logged-Restored (err e) c v w h = h

    after-Restored :
        {A B : Type 0} (v : World Store) (x : Result Failure A × World Store)
        (next : A → Run Store B)
        → Restored v x.1
        → ((a : A) (w : World Store) → Restored v w → Restored v (next a w).1)
        → Restored v (after x next).1
    after-Restored v (ok a, w) next h k = k a w h
    after-Restored v (err e, w) next h k = h

    module _ (fresh : (o : StorageKey) → is_own env o ≡ true → objects start o ≡ none) where
      fresh_at : (k : StorageKey) → Own k → objects start k ≡ none
      unfolding Own
      fresh_at k (o, mine, there) = laws.same_objects start k o there ∙ fresh o mine

      rollback-Restored : (w : World Store) → Ended w → Restored w (rollback_storage env w).1
      unfolding rollback_storage
      rollback-Restored w t k =
          elim (rollback_removes env objects encode same laws w.stored_keys w.store k).1 [
            | inr left ↦ inr (inl left)
            | inl removed ↦ elim (Bool-cases (names same k w.stored_keys)) [
              | inl taken ↦ inl (removed ∙ rw taken (sym (fresh_at k (t.own k taken))))
              | inr free ↦ elim (t.untouched k free) [
                | inl kept ↦ inl (removed ∙ rw free kept)
                | inr put ↦ inr (inr put)
              ]
            ]
          ]

      -- The call after the rollback changes no object.
      marked-Restored :
          (w : World Store) (c : Call) (r : Result Failure BackupResult)
          → Ended w
          → Restored w
              (after
                (rollback_storage env w)
                (λ u v. after (logged env (env.repository c) c v) (λ o. lift r))).1
      marked-Restored w c r t =
          after-Restored w (rollback_storage env w) _ (rollback-Restored w t) (λ u v h.
            after-Restored w (logged env (env.repository c) c v) _
              (logged-Restored (env.repository c) c w v h) (λ o v' h'. h'))

      handle-Restored :
          (x : Result Failure BackupResult × World Store)
          → Tried x
          → is_failure (handle env x).0 ≡ true
          → Restored x.1 (handle env x).1
      unfolding handle Tried settle_expected settle_unexpected call
      handle-Restored (ok r, w) h f = absurd (ground (arith, h, f))
      handle-Restored (err e, w) t f = elim (Bool-cases (is_expected e)) [
        | inl b ↦ simp b (marked-Restored w _ _ t)
        | inr b ↦ simp b (marked-Restored w _ _ t)
      ]

      -- A run that fails or raises leaves every object of the storage as it was, wherever it stopped,
      -- if the storage keeps its promises and holds nothing under the new revision's identifier. Only
      -- two kinds of objects may be left: those of stored keys whose own deletion raises in the
      -- rollback, and that of the `put` that ended the run, when it raised and yet wrote its object.
      pub execute_failure_restores :
          (k : StorageKey)
          → is_failure (execute env start).0 ≡ true
          → (objects (execute env start).1.store k ≡ objects start k)
            ⊎ IsLeft (attempt env (record { store = start; calls = []; stored_keys = [] })).1 k
      unfolding execute
      execute_failure_restores k f =
          let w : World Store = record { store = start; calls = []; stored_keys = [] } in
          handle-Restored (attempt env w)
            (attempt-Tried w
              (record { untouched = λ x free. refl; own = λ x taken. absurd (ground arith) }))
            f k
