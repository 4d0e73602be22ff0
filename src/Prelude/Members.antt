-- ===== src/Prelude/Members.antt =====
-- Membership: the lemmas on `Any` for the list operations of the library.
use mathlib.Core.Path.{◌≡◌}
use mathlib.Core.Logic.{◌⊎◌, inl, inr}
use mathlib.Core.Bool.{Bool, true}
use mathlib.Core.List.{List, [], ◌∷◌, ◌++◌, map, reverse, reverse_aux}
use netbox_plugin_backup.Prelude.Tests.{Bool-cases}
use netbox_plugin_backup.Prelude.Lists.{Any, keep_if}

module _ {ℓ} {A : Type ℓ} (P : A → Type 0) where
  pub Any-append_left : (xs ys : List A) → Any P xs → Any P (xs ++ ys)
  Any-append_left [] ys n = elim n [ ]
  Any-append_left (x ∷ xs) ys (inl p) = inl p
  Any-append_left (x ∷ xs) ys (inr n) = inr (Any-append_left xs ys n)

  pub Any-append_right : (xs ys : List A) → Any P ys → Any P (xs ++ ys)
  Any-append_right [] ys n = n
  Any-append_right (x ∷ xs) ys n = inr (Any-append_right xs ys n)

  Any-reverse_aux : (xs ys : List A) → Any P xs ⊎ Any P ys → Any P (reverse_aux xs ys)
  Any-reverse_aux [] ys (inl n) = elim n [ ]
  Any-reverse_aux [] ys (inr n) = n
  Any-reverse_aux (x ∷ xs) ys (inl (inl p)) = Any-reverse_aux xs (x ∷ ys) (inr (inl p))
  Any-reverse_aux (x ∷ xs) ys (inl (inr n)) = Any-reverse_aux xs (x ∷ ys) (inl n)
  Any-reverse_aux (x ∷ xs) ys (inr n) = Any-reverse_aux xs (x ∷ ys) (inr (inr n))

  pub Any-reverse : (xs : List A) → Any P xs → Any P (reverse xs)
  Any-reverse xs n = Any-reverse_aux xs [] (inl n)

  -- A member that passes the test is kept.
  pub Any-keep_if :
      (test : A → Bool) (xs : List A)
      → Any (λ x. P x × (test x ≡ true)) xs
      → Any P (keep_if test xs)
  Any-keep_if test [] n = elim n [ ]
  Any-keep_if test (x ∷ xs) (inl p) = rw p.1 (inl p.0)
  Any-keep_if test (x ∷ xs) (inr n) = elim (Bool-cases (test x)) [
    | inl e ↦ rw e (inr (Any-keep_if test xs n))
    | inr e ↦ rw e (Any-keep_if test xs n)
  ]

pub Any-of_map {ℓ κ} :
    {A : Type ℓ} {B : Type κ} (P : A → Type 0) (Q : B → Type 0) (f : A → B)
    → ((a : A) → P a → Q (f a))
    → (xs : List A) → Any P xs
    → Any Q (map f xs)
Any-of_map P Q f h [] n = elim n [ ]
Any-of_map P Q f h (x ∷ xs) (inl p) = inl (h x p)
Any-of_map P Q f h (x ∷ xs) (inr n) = inr (Any-of_map P Q f h xs n)

-- A member of one of two kinds is found as the one or the other.
pub Any-either {ℓ} :
    {A : Type ℓ} (P Q : A → Type 0) (xs : List A) → Any (λ x. P x ⊎ Q x) xs → Any P xs ⊎ Any Q xs
Any-either P Q [] n = elim n [ ]
Any-either P Q (x ∷ xs) (inl (inl p)) = inl (inl p)
Any-either P Q (x ∷ xs) (inl (inr q)) = inr (inl q)
Any-either P Q (x ∷ xs) (inr n) = elim (Any-either P Q xs n) [
  | inl p ↦ inl (inr p)
  | inr q ↦ inr (inr q)
]
