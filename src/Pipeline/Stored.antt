-- ===== src/Pipeline/Stored.antt =====
-- `execute` of services/backup.py and the objects in the storage, for a run that does not fail.
use netbox_plugin_backup.Prelude.{
  ℕ, ◌≡◌, refl, sym, ap, ◌∙◌, inl, inr, Bool, true, false, not, ◌&&◌, Option, is_some, List, [],
  ◌∷◌, String, Result, ok, err, All, string_eq, Bool-cases, arith,
}
use netbox_plugin_backup.Pipeline.{
  Failure, is_expected, expected_error, failed, errored, PreparedArtifact, ExecutionContext,
  StorageKey, StoredArtifactRecord, BackupResult, Call, Env, World,
}
use netbox_plugin_backup.Pipeline.Gather.{Gathered, gather, is_content_changed, is_raw_changed}
use netbox_plugin_backup.Pipeline.Execute.{
  Run, after, lift, logged, call, remembered, put, key_of, record_of, store_each, finish_unchanged,
  finish_revision, finish, attempt, handle, execute, settle_expected, settle_unexpected,
  rollback_storage,
}
use netbox_plugin_backup.Pipeline.StorageLaws.{IsStorage}
use netbox_plugin_backup.Pipeline.Rollback.{is_failure}

module _ {Store V : Type 0} (env : Env Store) (objects : Store → StorageKey → Option V)
    (encode : String → V) (same : StorageKey → StorageKey → Bool)
    (laws : IsStorage env objects encode same) where
  abbrev Holds : World Store → StorageKey → Type 0
  Holds w k = is_some (objects w.store k) ≡ true

  abbrev put_at : ExecutionContext → PreparedArtifact → World Store → Store × Result Failure ℕ
  put_at c item w = env.put w.store (key_of env c item) item.artifact.content

  remembered-Holds :
      (c : ExecutionContext) (item : PreparedArtifact) (w : World Store)
      (x : Store × Result Failure ℕ) (k : StorageKey)
      → x ≡ put_at c item w
      → Holds w k
      → Holds (remembered env x (key_of env c item) w).1 k
  unfolding remembered
  remembered-Holds c item w (s, ok n) k h t =
      ap is_some (
        ap (λ p. objects p.0 k) h
        ∙ laws.put_writes w.store (key_of env c item) item.artifact.content n k
            (sym (ap (λ p. p.1) h)))
      ∙ ground (arith, t)
  remembered-Holds c item w (s, err e) k h t =
      elim (laws.put_raises w.store (key_of env c item) item.artifact.content e k
        (sym (ap (λ p. p.1) h))) [
          | inl keeps ↦ ap is_some (ap (λ p. objects p.0 k) h ∙ keeps) ∙ t
          | inr (there, written) ↦ ap is_some (ap (λ p. objects p.0 k) h ∙ written)
        ]

  after-Holds :
      {A B : Type 0} (x : Result Failure A × World Store) (next : A → Run Store B) (k : StorageKey)
      → Holds x.1 k
      → ((a : A) (w : World Store) → Holds w k → Holds (next a w).1 k)
      → Holds (after x next).1 k
  after-Holds (ok a, w) next k h t = t a w h
  after-Holds (err e, w) next k h t = h

  store_each-Holds :
      (c : ExecutionContext) (items : List PreparedArtifact) (w : World Store) (k : StorageKey)
      → Holds w k
      → Holds (store_each env c items w).1 k
  unfolding store_each put
  store_each-Holds c [] w k t = t
  store_each-Holds c (item ∷ rest) w k t =
      after-Holds (remembered env (put_at c item w) (key_of env c item) w) _ k
        (remembered-Holds c item w (put_at c item w) k refl t)
        (λ size v u.
          after-Holds (store_each env c rest v) _ k (store_each-Holds c rest v k u)
            (λ records v' u'. u'))

  -- When the loop returns, each of its records is of an object in the storage.
  Complete : Result Failure (List StoredArtifactRecord) × World Store → Type 0
  Complete (ok records, w) = All (λ r. Holds w r.storage_key) records
  Complete (err e, w) = Unit

  rest-Complete :
      (c : ExecutionContext) (item : PreparedArtifact) (size : ℕ)
      (x : Result Failure (List StoredArtifactRecord) × World Store)
      → Holds x.1 (key_of env c item)
      → Complete x
      → Complete
          (after x (λ records. lift (ok (record_of env (key_of env c item) size item ∷ records))))
  unfolding Complete
  rest-Complete c item size (ok records, w) h k = (h, k)
  rest-Complete c item size (err e, w) h k = tt

  put-Complete :
      (c : ExecutionContext) (item : PreparedArtifact) (rest : List PreparedArtifact)
      (w : World Store) (x : Store × Result Failure ℕ)
      → x ≡ put_at c item w
      → ((v : World Store) → Complete (store_each env c rest v))
      → Complete (
          after (remembered env x (key_of env c item) w) (λ size v.
            after
              (store_each env c rest v)
              (λ records. lift (ok (record_of env (key_of env c item) size item ∷ records)))))
  unfolding remembered
  put-Complete c item rest w (s, err e) h ih = unfold Complete in tt
  put-Complete c item rest w (s, ok n) h ih =
      let v : World Store = record w {
        store = s;
        stored_keys = key_of env c item ∷ w.stored_keys;
      } in
      let held : Holds v (key_of env c item) =
        ap is_some (
          ap (λ p. objects p.0 (key_of env c item)) h
          ∙ laws.put_writes w.store (key_of env c item) item.artifact.content n (key_of env c item)
              (sym (ap (λ p. p.1) h)))
        ∙ rw (laws.same_refl (key_of env c item)) refl in
      rest-Complete c item n (store_each env c rest v)
        (store_each-Holds c rest v (key_of env c item) held) (ih v)

  store_each-Complete :
      (c : ExecutionContext) (items : List PreparedArtifact) (w : World Store)
      → Complete (store_each env c items w)
  unfolding store_each put
  store_each-Complete c [] w = unfold Complete in tt
  store_each-Complete c (item ∷ rest) w =
      put-Complete c item rest w (put_at c item w) refl (λ v. store_each-Complete c rest v)

  -- Every artifact that the call records is in the storage.
  abbrev pub Backed : List Call → World Store → Type 0
  Backed (Call.commit_revision hash changed raw records ∷ calls) w =
      All (λ r. Holds w r.storage_key) records
  Backed calls w = Unit

  Finished : Result Failure BackupResult × World Store → Type 0
  Finished (ok r, w) = Backed w.calls w
  Finished (err e, w) = Unit

  after-Finished :
      {A : Type 0} (x : Result Failure A × World Store) (next : A → Run Store BackupResult)
      → ((a : A) (w : World Store) → Finished (next a w))
      → Finished (after x next)
  unfolding Finished
  after-Finished (ok a, w) next h = h a w
  after-Finished (err e, w) next h = tt

  unchanged-Finished :
      (r : Result Failure (Option ℕ)) (raw : Bool) (w : World Store)
      (next : Option ℕ → BackupResult)
      → Finished (after (logged env r (Call.commit_unchanged raw) w) (λ o. lift (ok (next o))))
  unfolding Finished logged
  unchanged-Finished (ok o) raw w next = tt
  unchanged-Finished (err e) raw w next = tt

  answered-Finished :
      (r : Result Failure (Option ℕ)) (hash : String) (changed raw : Bool)
      (records : List StoredArtifactRecord) (w : World Store) (next : Option ℕ → BackupResult)
      → All (λ r. Holds w r.storage_key) records
      → Finished (
          after
            (logged env r (Call.commit_revision hash changed raw records) w)
            (λ o. lift (ok (next o))))
  unfolding Finished logged
  answered-Finished (ok o) hash changed raw records w next h = h
  answered-Finished (err e) hash changed raw records w next h = tt

  committed-Finished :
      (answer : Call → Result Failure (Option ℕ)) (hash : String) (changed raw : Bool)
      (x : Result Failure (List StoredArtifactRecord) × World Store)
      (next : Option ℕ → BackupResult)
      → Complete x
      → Finished (
          after x (λ records v.
            after
              (logged env
                (answer (Call.commit_revision hash changed raw records))
                (Call.commit_revision hash changed raw records)
                v)
              (λ o. lift (ok (next o)))))
  unfolding Complete
  committed-Finished answer hash changed raw (err e, w) next h = unfold Finished in tt
  committed-Finished answer hash changed raw (ok records, w) next h =
      answered-Finished (answer (Call.commit_revision hash changed raw records)) hash changed raw
        records w next h

  finish-Finished : (g : Gathered) (w : World Store) → Finished (finish env g w)
  unfolding finish finish_unchanged finish_revision call
  finish-Finished g w =
      elim (Bool-cases (not (is_content_changed g.latest g.primary) && g.context.is_changed_only)) [
        | inl e ↦ simp e (
            unchanged-Finished
              (env.repository (Call.commit_unchanged (is_raw_changed g.latest g.primary)))
              (is_raw_changed g.latest g.primary) w _)
        | inr e ↦ simp e (
            committed-Finished (λ c. env.repository c) g.primary.normalized_hash
              (is_content_changed g.latest g.primary) (is_raw_changed g.latest g.primary)
              (store_each env g.context g.prepared w) _
              (store_each-Complete g.context g.prepared w))
      ]

  attempt-Finished : (w : World Store) → Finished (attempt env w)
  unfolding attempt call
  attempt-Finished w =
      after-Finished (env.context, w) _
        (λ c v.
          after-Finished (logged env (env.repository Call.mark_running) Call.mark_running v) _
            (λ o v'. after-Finished (gather env c, v') _ finish-Finished))

  raised_is_failure :
      {A : Type 0} (x : Result Failure A × World Store) (next : A → Run Store BackupResult)
      → ((a : A) (w : World Store) → is_failure (next a w).0 ≡ true)
      → is_failure (after x next).0 ≡ true
  raised_is_failure (ok a, w) next h = h a w
  raised_is_failure (err e, w) next h = refl

  handled_is_failure : (e : Failure) (w : World Store) → is_failure (handle env (err e, w)).0 ≡ true
  unfolding handle settle_expected settle_unexpected call
  handled_is_failure e w = elim (Bool-cases (is_expected e)) [
    | inl b ↦ simp b (
        raised_is_failure (rollback_storage env w) _ (λ u v.
          raised_is_failure
            (logged env
              (env.repository
                (Call.mark_failed failed (expected_error e).0 (env.truncate (expected_error e).1)))
              _ v)
            _ (λ o v'. refl)))
    | inr b ↦ simp b (
        raised_is_failure (rollback_storage env w) _ (λ u v.
          raised_is_failure
            (logged env
              (env.repository
                (Call.mark_failed errored "INTERNAL_ERROR" "Unexpected internal backup error."))
              _ v)
            _ (λ o v'. refl)))
  ]

  handle-Backed :
      (x : Result Failure BackupResult × World Store)
      → Finished x
      → is_failure (handle env x).0 ≡ false
      → Backed (handle env x).1.calls (handle env x).1
  unfolding handle Finished
  handle-Backed (ok r, w) h f = h
  handle-Backed (err e, w) h f = absurd (ground (arith, handled_is_failure e w, f))

  -- When a run does not fail and its last call committed a revision, every artifact that the call
  -- recorded has an object in the storage, if the storage keeps its promises.
  pub execute-Backed :
      (s : Store)
      → is_failure (execute env s).0 ≡ false
      → Backed (execute env s).1.calls (execute env s).1
  unfolding execute
  execute-Backed s f =
      let w : World Store = record { store = s; calls = []; stored_keys = [] } in
      handle-Backed (attempt env w) (attempt-Finished w) f
