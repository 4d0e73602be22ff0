-- ===== src/Storage/Trail.antt =====
-- Proofs on the reversible deletion of services/retention_cleanup.py and the services like it: how the
-- objects move while they are staged and restored.
use netbox_plugin_backup.Prelude.{
  ℕ, ◌≡◌, ◌≢◌, refl, sym, ap, ◌∙◌, Bool, true, false, Option, none, some, List, [], ◌∷◌, Result, ok,
  err, Text, Bool-cases, inl, inr,
}
use netbox_plugin_backup.Storage.{
  Fault, storage_error, unexpected, ConfigStorage, View, moved, IsReversible,
}
use netbox_plugin_backup.Storage.Quarantine.{
  Staging, staged_one, continue_with, stage_each, restored_one, restore_staged,
}

-- The views that a list of staged pairs went through, from `base` on; the newest pair stands first.
pub data Trail {K : Type 0} (same : K → K → Bool) (base : View K)
    : List (K × K) → View K → Type 0 where
  start : (view : View K) → ((x : K) → view x ≡ base x) → Trail same base [] view
  step :
      (k t : K) (staged : List (K × K)) (before view : View K)
      → Trail same base staged before
      → before t ≡ none
      → ((x y : K) → same x y ≡ true → before x ≡ before y)
      → ((x : K) → view x ≡ moved same k t before x)
      → Trail same base ((k, t) ∷ staged) view

module _ {Store K : Type 0} (storage : ConfigStorage Store K) (objects : Store → View K)
    (same : K → K → Bool) (laws : IsReversible storage objects same) where
  Trail-eq :
      (base : View K) (staged : List (K × K)) (view view' : View K)
      → ((x : K) → view' x ≡ view x)
      → Trail same base staged view
      → Trail same base staged view'
  Trail-eq base staged view view' e (start v h) = start view' (λ x. e x ∙ h x)
  Trail-eq base staged view view' e (step k t rest before v trail free congruent moves) =
      step k t rest before view' trail free congruent (λ x. e x ∙ moves x)

  -- Moving back to where it came from undoes the move of an object to a free key.
  moved_back :
      (k t x : K) (before view : View K)
      → before t ≡ none
      → ((x y : K) → same x y ≡ true → before x ≡ before y)
      → ((x : K) → view x ≡ moved same k t before x)
      → moved same t k view x ≡ before x
  moved_back k t x before view free congruent moves = elim (Bool-cases (same x k)) [
    | inl e ↦ rw e (moves t ∙ rw (laws.same_refl t) (sym (congruent x k e)))
    | inr e ↦ elim (Bool-cases (same x t)) [
      | inl f ↦ rw (e, f) (sym (congruent x t f ∙ free))
      | inr f ↦ rw (e, f) (moves x ∙ rw (e, f) refl)
    ]
  ]

  staged_one-Trail :
      (base : View K) (s : Store) (k : K) (namespace : Text) (staged : List (K × K)) (missing : ℕ)
      (x : Store × Result Fault (Option K))
      → x ≡ storage.stage_delete s k namespace
      → Trail same base staged (objects s)
      → let now = staged_one storage x k staged missing in
        Trail same base now.staged (objects now.store)
  staged_one-Trail base s k namespace staged missing (u, ok none) h trail =
      Trail-eq base staged (objects s) (objects u)
        (λ x. ap (λ p. objects p.0 x) h ∙ laws.stage_misses s k namespace (sym (ap (λ p. p.1) h)) x)
        trail
  staged_one-Trail base s k namespace staged missing (u, ok (some t)) h trail =
      let (free, moves) = laws.stage_moves s k t namespace (sym (ap (λ p. p.1) h)) in
      step k t staged (objects s) (objects u) trail free (laws.same_objects s)
        (λ x. ap (λ p. objects p.0 x) h ∙ moves x)
  staged_one-Trail base s k namespace staged missing (u, err e) h trail =
      Trail-eq base staged (objects s) (objects u)
        (λ x.
          ap (λ p. objects p.0 x) h ∙ laws.stage_raises s k namespace e (sym (ap (λ p. p.1) h)) x)
        trail

  continue_with-Trail :
      (base : View K) (r : Result Fault (Unit {0})) (now later : Staging storage)
      → Trail same base now.staged (objects now.store)
      → Trail same base later.staged (objects later.store)
      → Trail same base
          (continue_with storage r now later).staged
          (objects (continue_with storage r now later).store)
  continue_with-Trail base (ok u) now later a b = b
  continue_with-Trail base (err e) now later a b = a

  -- However the loop ends, its list of staged pairs tells how the objects were moved.
  pub stage_each-Trail :
      (base : View K) (namespace : Text) (keys : List K) (s : Store) (staged : List (K × K))
      (missing : ℕ)
      → Trail same base staged (objects s)
      → let r = stage_each storage namespace keys s staged missing in
        Trail same base r.staged (objects r.store)
  unfolding stage_each
  stage_each-Trail base namespace [] s staged missing trail = trail
  stage_each-Trail base namespace (k ∷ keys) s staged missing trail =
      let now = staged_one storage (storage.stage_delete s k namespace) k staged missing in
      let here =
        staged_one-Trail base s k namespace staged missing (storage.stage_delete s k namespace) refl
          trail in
      continue_with-Trail base now.outcome now _ here
        (stage_each-Trail base namespace keys now.store now.staged now.missing here)

  failed_one :
      (rest : Bool → Store → Store × Result Fault Bool) (x : Store × Result Fault (Unit {0}))
      → ((u : Store) → (rest true u).1 ≢ ok false)
      → (restored_one storage x rest true).1 ≢ ok false
  failed_one rest (s, ok u) h = h s
  failed_one rest (s, err (storage_error message)) h = h s
  failed_one rest (s, err unexpected) h = λ e. cc

  -- A restore that failed is reported.
  failed_stays :
      (staged : List (K × K)) (s : Store) → (restore_staged storage staged true s).1 ≢ ok false
  unfolding restore_staged
  failed_stays [] s = λ e. cc
  failed_stays ((k, t) ∷ staged) s =
      failed_one (λ f u. restore_staged storage staged f u) (storage.restore_staged_delete s k t)
        (λ u. failed_stays staged u)

  restored_one_ok :
      (rest : Bool → Store → Store × Result Fault Bool) (x : Store × Result Fault (Unit {0}))
      → ((u : Store) → (rest true u).1 ≢ ok false)
      → (restored_one storage x rest false).1 ≡ ok false
      → (x.1 ≡ ok tt) × (restored_one storage x rest false ≡ rest false x.0)
  restored_one_ok rest (s, ok u) h e = (refl, refl)
  restored_one_ok rest (s, err (storage_error message)) h e = absurd (h s e)
  restored_one_ok rest (s, err unexpected) h e = absurd (cc)

  -- A restore of all that was staged, none of which failed, gives every object back.
  pub restore_staged-Trail :
      (base view : View K) (staged : List (K × K)) (s : Store)
      → Trail same base staged view
      → ((x : K) → objects s x ≡ view x)
      → (restore_staged storage staged false s).1 ≡ ok false
      → (x : K) → objects (restore_staged storage staged false s).0 x ≡ base x
  unfolding restore_staged
  restore_staged-Trail base view [] s (start v h) e r x = e x ∙ h x
  restore_staged-Trail base view ((k, t) ∷ staged) s
        (step k' t' rest before v trail free congruent moves) e r x =
      let next = storage.restore_staged_delete s k t in
      let (done, goes_on) =
        restored_one_ok (λ f u. restore_staged storage staged f u) next (λ u. failed_stays staged u)
          r in
      let back : (y : K) → objects next.0 y ≡ before y = λ y.
        laws.restore_moves s k t done y
        ∙ moved_back k t y before (objects s) free congruent (λ z. e z ∙ moves z) in
      rw goes_on (restore_staged-Trail base before staged next.0 trail back (rw goes_on at r) x)
