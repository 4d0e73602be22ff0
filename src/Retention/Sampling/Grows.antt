-- ===== src/Retention/Sampling/Grows.antt =====
-- The marks of `_plan_revisions` of services/retention.py as additions to the dictionary.
use netbox_plugin_backup.Prelude.{
  ℕ, ◌≡◌, ◌⊎◌, inl, inr, Bool, true, false, ◌||◌, List, [], ◌∷◌, ◌++◌, nat_eq, Any, any_of-append,
  nat_beq, All, arith, if◌then◌else◌,
}
use netbox_plugin_backup.Retention.{RevisionCandidate, Reason, has_reason, reason_code}
use netbox_plugin_backup.Retention.Sampling.{Reasons, append_reason, mark_each}

-- Every reason of `d` is still there in `e`.
pub record Grows (d e : Reasons) : Type 0 where
  pub at : (j : ℕ) (q : Reason) → has_reason q (d j) ≡ true → has_reason q (e j) ≡ true

pub Grows-refl : (d : Reasons) → Grows d d
Grows-refl d = record { at = λ j q h. h }

pub Grows-trans : {d e f : Reasons} → Grows d e → Grows e f → Grows d f
Grows-trans g h = record { at = λ j q k. h.at j q (g.at j q k) }

pub has_reason-append :
    (q : Reason) (rs ss : List Reason)
    → has_reason q (rs ++ ss) ≡ (has_reason q rs || has_reason q ss)
unfolding has_reason
has_reason-append q rs ss = any_of-append (λ r. nat_beq (reason_code q) (reason_code r)) rs ss

pub has_reason_self : (q : Reason) → has_reason q (q ∷ []) ≡ true
unfolding has_reason
has_reason_self q = ground arith

pub append_reason-Grows : (i : ℕ) (r : Reason) (d : Reasons) → Grows d (append_reason i r d)
unfolding append_reason
append_reason-Grows i r d = record {
  at = λ j q h. ground (arith, has_reason-append q (d j) (r ∷ []));
}

pub append_reason-has :
    (i : ℕ) (r : Reason) (d : Reasons) → has_reason r (append_reason i r d i) ≡ true
unfolding append_reason
append_reason-has i r d = ground (arith, has_reason-append r (d i) (r ∷ []), has_reason_self r)

pub append_if-Grows :
    (b : Bool) (i : ℕ) (r : Reason) (d : Reasons) → Grows d (if b then append_reason i r d else d)
append_if-Grows true i r d = append_reason-Grows i r d
append_if-Grows false i r d = Grows-refl d

pub append_if-only :
    (Q : List Reason → Bool) (b : Bool) (i j : ℕ) (r : Reason) (d : Reasons)
    → Q ((if b then append_reason i r d else d) j) ≡ true
    → (Q (d j) ≡ true) ⊎ ((b ≡ true) × (i ≡ j))
append_if-only Q false i j r d h = inl h
append_if-only Q true i j r d h = unfold append_reason in ground arith

module _ (r : Reason) (test : RevisionCandidate → Bool) where
  pub mark_each-Grows :
      (xs : List RevisionCandidate) (d : Reasons) → Grows d (mark_each r test xs d)
  unfolding mark_each
  mark_each-Grows [] d = Grows-refl d
  mark_each-Grows (x ∷ xs) d =
      Grows-trans (append_if-Grows (test x) x.object_id r d) (mark_each-Grows xs _)

  pub mark_each-has :
      (xs : List RevisionCandidate) (d : Reasons)
      → All (λ x. test x ≡ true → has_reason r (mark_each r test xs d x.object_id) ≡ true) xs
  unfolding mark_each
  mark_each-has [] d = tt
  mark_each-has (x ∷ xs) d = (
    λ h. (mark_each-Grows xs _).at x.object_id r (rw h (append_reason-has x.object_id r d)),
    mark_each-has xs _,
  )

  -- A list of reasons has `Q` after the marks only if it had, or if the id is that of a marked item.
  pub mark_each-only :
      (Q : List Reason → Bool) (xs : List RevisionCandidate) (d : Reasons) (j : ℕ)
      → Q (mark_each r test xs d j) ≡ true
      → (Q (d j) ≡ true) ⊎ Any (λ x. (test x ≡ true) × (x.object_id ≡ j)) xs
  unfolding mark_each
  mark_each-only Q [] d j h = inl h
  mark_each-only Q (x ∷ xs) d j h =
      elim (mark_each-only Q xs (if test x then append_reason x.object_id r d else d) j h) [
        | inl k ↦ elim (append_if-only Q (test x) x.object_id j r d k) [
          | inl old ↦ inl old
          | inr new ↦ inr (inl new)
        ]
        | inr n ↦ inr (inr n)
      ]
