-- ===== src/Pipeline/Outcome.antt =====
-- `execute` of services/backup.py and the records that it leaves in the database.
use netbox_plugin_backup.Prelude.{
  ℕ, ◌≤◌, ◌≡◌, refl, ap, ◌∙◌, ◌⊎◌, inl, inr, Bool, true, false, not, ◌&&◌, Option, List, [], ◌∷◌,
  String, Result, ok, err, count_if, Bool-cases, arith, if◌then◌else◌,
}
use netbox_plugin_backup.Pipeline.{
  Failure, is_expected, expected_error, PreparedArtifact, ExecutionContext, StorageKey,
  StoredArtifactRecord, RunOutcome, BackupResult, Call, Env, World,
}
use netbox_plugin_backup.Pipeline.Gather.{Gathered, gather, is_content_changed, is_raw_changed}
use netbox_plugin_backup.Pipeline.Execute.{
  Run, after, lift, logged, call, remembered, put, key_of, store_each, finish_unchanged,
  finish_revision, finish, attempt, rollback_storage, settle_expected, settle_unexpected, handle,
  execute, failed_result,
}

abbrev pub is_commit : Call → Bool
is_commit (Call.commit_unchanged raw) = true
is_commit (Call.commit_revision h changed raw artifacts) = true
is_commit c = false

abbrev pub is_final : Call → Bool
is_final Call.mark_running = false
is_final c = true

-- A final call records what the result of the run says.
pub data Records : Call → BackupResult → Type 0 where
  unchanged :
      (r : BackupResult)
      → r.status ≡ RunOutcome.success_unchanged
      → r.changed ≡ false
      → Records (Call.commit_unchanged r.raw_changed) r
  revision :
      (hash : String) (artifacts : List StoredArtifactRecord) (r : BackupResult)
      → r.status ≡ (if r.changed then RunOutcome.success_changed else RunOutcome.success_unchanged)
      → Records (Call.commit_revision hash r.changed r.raw_changed artifacts) r
  failure :
      (message : String) (r : BackupResult)
      → r.status ≡ RunOutcome.failed
      → Records (Call.mark_failed RunOutcome.failed r.error_code message) r

module _ {Store : Type 0} (env : Env Store) where
  abbrev running : List Call
  running = Call.mark_running ∷ []

  -- After the body of the `try`.
  Attempted : Result Failure BackupResult × World Store → Type 0
  Attempted (ok r, w) = (c : Call) × (w.calls ≡ c ∷ running) × Records c r
  Attempted (err e, w) = (w.calls ≡ []) ⊎ (w.calls ≡ running)

  logged_ends :
      (r : Result Failure (Option ℕ)) (c : Call) (w : World Store) (next : Option ℕ → BackupResult)
      → ((o : Option ℕ) → Records c (next o))
      → w.calls ≡ running
      → Attempted (after (logged env r c w) (λ o. lift (ok (next o))))
  unfolding Attempted logged
  logged_ends (ok o) c w next h k = (c, ap (λ l. c ∷ l) k, h o)
  logged_ends (err e) c w next h k = inr k

  after-Attempted :
      {A : Type 0} (x : Result Failure A × World Store) (next : A → Run Store BackupResult)
      → x.1.calls ≡ running
      → ((a : A) (w : World Store) → w.calls ≡ running → Attempted (next a w))
      → Attempted (after x next)
  unfolding Attempted
  after-Attempted (ok a, w) next h k = k a w h
  after-Attempted (err e, w) next h k = inr h

  after_calls :
      {A B : Type 0} (x : Result Failure A × World Store) (next : A → Run Store B)
      → ((a : A) (w : World Store) → (next a w).1.calls ≡ w.calls)
      → (after x next).1.calls ≡ x.1.calls
  after_calls (ok a, w) next h = h a w
  after_calls (err e, w) next h = refl

  remembered_calls :
      (x : Store × Result Failure ℕ) (key : StorageKey) (w : World Store)
      → (remembered env x key w).1.calls ≡ w.calls
  unfolding remembered
  remembered_calls (s, ok n) key w = refl
  remembered_calls (s, err e) key w = refl

  store_each_calls :
      (c : ExecutionContext) (items : List PreparedArtifact) (w : World Store)
      → (store_each env c items w).1.calls ≡ w.calls
  unfolding store_each put
  store_each_calls c [] w = refl
  store_each_calls c (item ∷ rest) w =
      after_calls
        (remembered env (env.put w.store (key_of env c item) item.artifact.content)
          (key_of env c item) w)
        _
        (λ size v.
          after_calls (store_each env c rest v) _ (λ records u. refl) ∙ store_each_calls c rest v)
      ∙ remembered_calls (env.put w.store (key_of env c item) item.artifact.content)
          (key_of env c item) w

  finish_unchanged-Attempted :
      (raw : Bool) (w : World Store) → w.calls ≡ running → Attempted (finish_unchanged env raw w)
  unfolding finish_unchanged call
  finish_unchanged-Attempted raw w h =
      logged_ends (env.repository (Call.commit_unchanged raw)) (Call.commit_unchanged raw) w _
        (λ o. Records.unchanged _ refl refl) h

  finish_revision-Attempted :
      (g : Gathered) (changed raw : Bool) (w : World Store)
      → w.calls ≡ running
      → Attempted (finish_revision env g changed raw w)
  unfolding finish_revision call
  finish_revision-Attempted g changed raw w h =
      after-Attempted (store_each env g.context g.prepared w) _
        (store_each_calls g.context g.prepared w ∙ h)
        (λ records v k.
          logged_ends
            (env.repository (Call.commit_revision g.primary.normalized_hash changed raw records))
            (Call.commit_revision g.primary.normalized_hash changed raw records) v _
            (λ o. Records.revision _ _ _ refl) k)

  finish-Attempted :
      (g : Gathered) (w : World Store) → w.calls ≡ running → Attempted (finish env g w)
  unfolding finish
  finish-Attempted g w h =
      elim (Bool-cases (not (is_content_changed g.latest g.primary) && g.context.is_changed_only)) [
        | inl e ↦ simp e (finish_unchanged-Attempted (is_raw_changed g.latest g.primary) w h)
        | inr e ↦ simp e (
            finish_revision-Attempted g (is_content_changed g.latest g.primary)
              (is_raw_changed g.latest g.primary) w h)
      ]

  gathered_ends :
      (r : Result Failure Gathered) (w : World Store)
      → w.calls ≡ running
      → Attempted (after (r, w) (finish env))
  gathered_ends r w h = after-Attempted (r, w) (finish env) h finish-Attempted

  marked_ends :
      (r : Result Failure (Option ℕ)) (g : Result Failure Gathered) (w : World Store)
      → w.calls ≡ []
      → Attempted (after (logged env r Call.mark_running w) (λ _ v. after (g, v) (finish env)))
  unfolding logged
  marked_ends (ok o) g w h = gathered_ends g _ (ap (λ l. Call.mark_running ∷ l) h)
  marked_ends (err e) g w h = unfold Attempted in inl h

  attempt_ends :
      (r : Result Failure ExecutionContext) (w : World Store)
      → w.calls ≡ []
      → Attempted (
          after
            (r, w)
            (λ c v.
              after
                (logged env (env.repository Call.mark_running) Call.mark_running v)
                (λ _ u. after (gather env c, u) (finish env))))
  attempt_ends (ok c) w h = marked_ends (env.repository Call.mark_running) (gather env c) w h
  attempt_ends (err e) w h = unfold Attempted in inl h

  attempt-Attempted : (w : World Store) → w.calls ≡ [] → Attempted (attempt env w)
  unfolding attempt call
  attempt-Attempted w h = attempt_ends env.context w h

  -- After the whole run.
  abbrev pub Settled : Result Failure BackupResult × World Store → Type 0
  Settled (ok r, w) =
      (c : Call) × (rest : List Call) × (w.calls ≡ c ∷ rest)
      × Records c r
      × (count_if is_final rest ≡ 0)
  Settled (err e, w) = (count_if is_commit w.calls ≡ 0) × (count_if is_final w.calls ≤ 1)

  -- The final mark of an `except` clause, on either way into it.
  abbrev Unfinished : List Call → Type 0
  Unfinished cs = (count_if is_final cs ≡ 0) × (count_if is_commit cs ≡ 0)

  unfinished : (cs : List Call) → (cs ≡ []) ⊎ (cs ≡ running) → Unfinished cs
  unfinished cs (inl h) = rw h (refl, refl)
  unfinished cs (inr h) = rw h (refl, refl)

  failed-Settled :
      (r : Result Failure (Option ℕ)) (code message : String) (w : World Store)
      → Unfinished w.calls
      → Settled (
          after
            (logged env r (Call.mark_failed RunOutcome.failed code message) w)
            (λ _. lift (ok (failed_result env code))))
  unfolding logged
  failed-Settled (ok o) code message w h = (_, w.calls, refl, Records.failure message _ refl, h.0)
  failed-Settled (err e) code message w h = (h.1, omega (arith, h.0))

  errored-Settled :
      (r : Result Failure (Option ℕ)) (e : Failure) (message : String) (w : World Store)
      → Unfinished w.calls
      → Settled (
          after
            (logged env r (Call.mark_failed RunOutcome.errored "INTERNAL_ERROR" message) w)
            (λ _. lift (err e)))
  unfolding logged
  errored-Settled (ok o) e message w h = (h.1, omega (arith, h.0))
  errored-Settled (err x) e message w h = (h.1, omega (arith, h.0))

  after-Settled :
      {A : Type 0} (x : Result Failure A × World Store) (next : A → Run Store BackupResult)
      → Unfinished x.1.calls
      → ((a : A) (w : World Store) → Unfinished w.calls → Settled (next a w))
      → Settled (after x next)
  after-Settled (ok a, w) next h k = k a w h
  after-Settled (err e, w) next h k = (h.1, omega (arith, h.0))

  expected-Settled :
      (code message : String) (w : World Store)
      → Unfinished w.calls
      → Settled (settle_expected env (code, message) w)
  unfolding settle_expected call rollback_storage
  expected-Settled code message w h = after-Settled (rollback_storage env w) _ h (λ u v k.
      failed-Settled
        (env.repository (Call.mark_failed RunOutcome.failed code (env.truncate message))) code
        (env.truncate message) v k)

  unexpected-Settled :
      (e : Failure) (w : World Store) → Unfinished w.calls → Settled (settle_unexpected env e w)
  unfolding settle_unexpected call rollback_storage
  unexpected-Settled e w h = after-Settled (rollback_storage env w) _ h (λ u v k.
      errored-Settled (env.repository (Call.mark_failed RunOutcome.errored "INTERNAL_ERROR" _)) e _
        v k)

  handle-Settled :
      (x : Result Failure BackupResult × World Store) → Attempted x → Settled (handle env x)
  unfolding handle Attempted
  handle-Settled (ok r, w) (c, h, records) = (c, running, h, records, refl)
  handle-Settled (err e, w) h = elim (Bool-cases (is_expected e)) [
    | inl t ↦
        simp t (expected-Settled (expected_error e).0 (expected_error e).1 w (unfinished w.calls h))
    | inr t ↦ simp t (unexpected-Settled e w (unfinished w.calls h))
  ]

  -- A run that returns has exactly one final record in the database, its last call, and that record
  -- says what the result says: unchanged, a new revision with the same two flags, or a failure with
  -- the same code. A run that raises has committed nothing, and has at most one final record.
  pub execute-Settled : (s : Store) → Settled (execute env s)
  unfolding execute
  execute-Settled s =
      handle-Settled (attempt env (record { store = s; calls = []; stored_keys = [] }))
        (attempt-Attempted _ refl)
