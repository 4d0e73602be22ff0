-- ===== src/Dispatch/Candidates.antt =====
-- Proofs on services/dispatcher.py: the targets that the first steps of a dispatch pass on to its loop.
use netbox_plugin_backup.Prelude.{
  ℕ, zero, suc, ◌+◌, ◌≤◌, ◌≡◌, refl, sym, ap, ◌∙◌, true, false, Option, none, some, is_some, List,
  [], ◌∷◌, Result, ok, err, >>=-eq-ok, ok-injective, keep_if, length, take, Any, Any-map,
  Any-of_map, Any-keep_if, nat_beq, nat_beq_iff, leb, Bool-cases, inl, inr, ◌⊎◌, arith,
}
use netbox_plugin_backup.Clock.{PyError}
use netbox_plugin_backup.Records.{BackupTarget}
use netbox_plugin_backup.Scheduling.{Services, calculate_target_next_run, apply_target_schedule}
use netbox_plugin_backup.Dispatch.{find_target, due_of, enabled_policy}
use netbox_plugin_backup.Dispatch.Round.{
  clear_inactive, needs_schedule, applied_first, Initialized, apply_schedules,
  initialize_target_schedules, insert_due, order_due, time_of, candidate_ids,
}

due-enabled :
    (now : ℕ) (t : BackupTarget) → is_some (due_of now t) ≡ true → is_some (enabled_policy t) ≡ true
unfolding due_of
due-enabled now t h = ground arith

due-timed :
    (now : ℕ) (t : BackupTarget) → is_some (due_of now t) ≡ true → is_some t.next_run_at ≡ true
unfolding due_of
due-timed now t h = ground arith

apply_target_schedule-id :
    (env : Services) (t u : BackupTarget) (now : ℕ)
    → apply_target_schedule env t now ≡ ok u
    → u.id ≡ t.id
unfolding apply_target_schedule
apply_target_schedule-id env t u now h =
    let (next, timed, made) = >>=-eq-ok (calculate_target_next_run env t now) _ h in
    sym (ap (λ (x : BackupTarget). x.id) (ok-injective made))

-- The search for a target goes past another one, and stops at the target itself.
find_other :
    (j : ℕ) (u : BackupTarget) (us : List BackupTarget)
    → nat_beq u.id j ≡ false
    → find_target j (u ∷ us) ≡ find_target j us
unfolding find_target
find_other j u us h = rw h refl

find_first :
    (j : ℕ) (u : BackupTarget) (us : List BackupTarget)
    → nat_beq u.id j ≡ true
    → find_target j (u ∷ us) ≡ some u
unfolding find_target
find_first j u us h = rw h refl

some-injective : (x t : BackupTarget) → ◌≡◌ {A = Option BackupTarget} (some x) (some t) → x ≡ t
some-injective x t h = cc

none_found : (j : ℕ) (t : BackupTarget) → find_target j [] ≡ some t → ⊥
unfolding find_target
none_found j t h = absurd (cc)

find_target-clear :
    (j : ℕ) (ts : List BackupTarget) (t : BackupTarget)
    → is_some (enabled_policy t) ≡ true
    → find_target j ts ≡ some t
    → find_target j (clear_inactive ts) ≡ some t
unfolding clear_inactive
find_target-clear j [] t enabled h = h
find_target-clear j (x ∷ ts) t enabled h = elim (Bool-cases (nat_beq x.id j)) [
  | inl e ↦
      let same = some-injective x t (sym (find_first j x ts e) ∙ h) in
      let on = ap (λ (y : BackupTarget). is_some (enabled_policy y)) same ∙ enabled in
      rw on (find_first j x _ e ∙ ap some same)
  | inr e ↦
      let rest = find_target-clear j ts t enabled (sym (find_other j x ts e) ∙ h) in
      elim (Bool-cases (is_some (enabled_policy x))) [
        | inl a ↦ rw a (find_other j x _ e ∙ rest)
        | inr a ↦ rw a (find_other j (record x { next_run_at = none }) _ e ∙ rest)
      ]
]

applied_first-find :
    (j : ℕ) (x t : BackupTarget) (ts : List BackupTarget) (r : Result PyError BackupTarget)
    (rest : Initialized)
    → ((u : BackupTarget) → r ≡ ok u → u.id ≡ x.id)
    → nat_beq x.id j ≡ false
    → find_target j (x ∷ ts) ≡ some t
    → find_target j rest.targets ≡ some t
    → find_target j (applied_first x ts r rest).targets ≡ some t
applied_first-find j x t ts (ok u) rest same other h k =
    find_other j u rest.targets (ap (λ i. nat_beq i j) (same u refl) ∙ other) ∙ k
applied_first-find j x t ts (err e) rest same other h k = h

find_target-apply :
    (env : Services) (now j : ℕ) (ts : List BackupTarget) (t : BackupTarget)
    → is_some t.next_run_at ≡ true
    → find_target j ts ≡ some t
    → find_target j (apply_schedules env now ts).targets ≡ some t
unfolding apply_schedules
find_target-apply env now j [] t timed h = h
find_target-apply env now j (x ∷ ts) t timed h = elim (Bool-cases (nat_beq x.id j)) [
  | inl e ↦
      let same = some-injective x t (sym (find_first j x ts e) ∙ h) in
      let kept : needs_schedule x ≡ false =
        ap (λ (y : BackupTarget). needs_schedule y) same ∙ ground (arith, timed) in
      rw kept (find_first j x _ e ∙ ap some same)
  | inr e ↦
      let rest = find_target-apply env now j ts t timed (sym (find_other j x ts e) ∙ h) in
      elim (Bool-cases (needs_schedule x)) [
        | inl a ↦ rw a (
            applied_first-find j x t ts (apply_target_schedule env x now)
              (apply_schedules env now ts) (λ u r. apply_target_schedule-id env x u now r) e h rest)
        | inr a ↦ rw a (find_other j x _ e ∙ rest)
      ]
]

-- A target that is due is left as it is by the initialization of schedules.
pub find_target-initialize :
    (env : Services) (now j : ℕ) (ts : List BackupTarget) (t : BackupTarget)
    → is_some (due_of now t) ≡ true
    → find_target j ts ≡ some t
    → find_target j (initialize_target_schedules env now ts).targets ≡ some t
unfolding initialize_target_schedules
find_target-initialize env now j ts t due h =
    find_target-apply env now j (clear_inactive ts) t (due-timed now t due)
      (find_target-clear j ts t (due-enabled now t due) h)

find_target-Any :
    (j : ℕ) (ts : List BackupTarget) (t : BackupTarget)
    → find_target j ts ≡ some t
    → Any (λ u. (u ≡ t) × (u.id ≡ j)) ts
find_target-Any j [] t h = none_found j t h
find_target-Any j (x ∷ ts) t h = elim (Bool-cases (nat_beq x.id j)) [
  | inl e ↦ inl (some-injective x t (sym (find_first j x ts e) ∙ h), (nat_beq_iff x.id j).0 e)
  | inr e ↦ inr (find_target-Any j ts t (sym (find_other j x ts e) ∙ h))
]

insert_due-Any :
    (P : BackupTarget → Type 0) (t : BackupTarget) (us : List BackupTarget)
    → P t ⊎ Any P us
    → Any P (insert_due t us)
unfolding insert_due
insert_due-Any P t [] h = h
insert_due-Any P t (u ∷ us) h = elim (Bool-cases (leb (time_of t) (time_of u))) [
  | inl e ↦ rw e h
  | inr e ↦ rw e (elim h [
    | inl p ↦ inr (insert_due-Any P t us (inl p))
    | inr n ↦ elim n [ inl q ↦ inl q | inr r ↦ inr (insert_due-Any P t us (inr r)) ]
  ])
]

order_due-Any :
    (P : BackupTarget → Type 0) (ts : List BackupTarget) → Any P ts → Any P (order_due ts)
unfolding order_due
order_due-Any P [] n = n
order_due-Any P (t ∷ ts) n =
    insert_due-Any P t (order_due ts)
      (elim n [ inl p ↦ inl p | inr m ↦ inr (order_due-Any P ts m) ])

length-insert_due :
    (t : BackupTarget) (us : List BackupTarget) → length (insert_due t us) ≡ length us + 1
unfolding insert_due
length-insert_due t [] = refl
length-insert_due t (u ∷ us) = ground (arith, length-insert_due t us)

length-order_due : (ts : List BackupTarget) → length (order_due ts) ≡ length ts
unfolding order_due
length-order_due [] = refl
length-order_due (t ∷ ts) = omega (arith, length-insert_due t (order_due ts), length-order_due ts)

take_all : {A : Type 0} (n : ℕ) (xs : List A) → length xs ≤ n → take n xs ≡ xs
take_all zero [] h = refl
take_all zero (x ∷ xs) h = absurd (omega (arith, h))
take_all (suc n) [] h = refl
take_all (suc n) (x ∷ xs) h = ap (λ ys. x ∷ ys) (take_all n xs (omega (arith, h)))

-- The targets that are due.
abbrev pub due_targets : ℕ → List BackupTarget → List BackupTarget
due_targets now ts = keep_if (λ t. is_some (due_of now t)) ts

-- Where the limit is large enough, every target that is due is a candidate.
pub candidate_ids-Any :
    (now limit j : ℕ) (ts : List BackupTarget) (t : BackupTarget)
    → is_some (due_of now t) ≡ true
    → find_target j ts ≡ some t
    → length (due_targets now ts) ≤ limit
    → Any (λ i. i ≡ j) (candidate_ids now limit ts)
unfolding candidate_ids
candidate_ids-Any now limit j ts t due h small =
    let found =
      Any-keep_if (λ u. u.id ≡ j) (λ u. is_some (due_of now u)) ts
        (Any-map _ _ (λ u p. (p.1, ap (λ (y : BackupTarget). is_some (due_of now y)) p.0 ∙ due)) ts
          (find_target-Any j ts t h)) in
    let all =
      take_all limit (order_due (due_targets now ts))
        (omega (arith, small, length-order_due (due_targets now ts))) in
    rw all (
      Any-of_map (λ u. u.id ≡ j) (λ i. i ≡ j) _ (λ u p. p) _
        (order_due-Any _ (due_targets now ts) found))
