-- ===== src/Prelude/Texts.antt =====
-- Texts that the program walks, as their code points; whole texts that it only compares stay native.
use Prim.Native.Char.{code}
use Prim.Native.Nat.{ℕ}
use Prim.Native.String.{String}
use mathlib.Core.Path.{◌≡◌, refl}
use mathlib.Core.Logic.{◌↔◌, inl, inr}
use mathlib.Core.Bool.{Bool, true, false, ◌&&◌}
use mathlib.Core.List.{List, [], ◌∷◌, ◌++◌}
use native.Mathlib.Omega.{arith}
use netbox_plugin_backup.Prelude.Equality.{Key, ◌==◌, nat_eq}
use netbox_plugin_backup.Prelude.Tests.{nat_beq, nat_beq_iff, if◌then◌else◌, Bool-cases}
use netbox_plugin_backup.Prelude.Lists.{any_of, All}

abbrev pub Text : Type 0
Text = List ℕ

-- A literal, as the program walks it.
abbrev pub codes : String → Text
codes String.[] = []
codes (String.◌∷◌ c s) = code c ∷ codes s

module _ {A : Type 0} ⦃e : Key A⦄ where
  abbrev pub list_beq : List A → List A → Bool
  list_beq [] [] = true
  list_beq [] (y ∷ ys) = false
  list_beq (x ∷ xs) [] = false
  list_beq (x ∷ xs) (y ∷ ys) = x == y && list_beq xs ys

  pub list_beq_iff : (xs ys : List A) → (list_beq xs ys ≡ true) ↔ (xs ≡ ys)
  list_beq_iff [] [] = (λ h. refl, λ h. refl)
  list_beq_iff [] (y ∷ ys) = (λ h. cc, λ h. cc)
  list_beq_iff (x ∷ xs) [] = (λ h. cc, λ h. cc)
  list_beq_iff (x ∷ xs) (y ∷ ys) =
      let (a, b) = list_beq_iff xs ys in
      let (c, d) = e.same_iff x y in (λ h. ground (arith, a, c), λ h. ground (arith, b, d))

-- Sequences, such as the segments of a path.
instance abbrev pub list_eq : {A : Type 0} ⦃e : Key A⦄ → Key (List A)
list_eq ⦃e⦄ = record { same = list_beq; same_iff = list_beq_iff }

abbrev pub extend : ℕ → List Text → List Text
extend x [] = (x ∷ []) ∷ []
extend x (part ∷ parts) = (x ∷ part) ∷ parts

-- `text.split(separator)`; there is always a first part.
unfoldable pub split : ℕ → Text → List Text
split c [] = [] ∷ []
split c (x ∷ xs) = let rest = split c xs in if nat_beq x c then [] ∷ rest else extend x rest

-- `separator in text`
abbrev pub has_char : ℕ → Text → Bool
has_char c text = any_of (λ x. nat_beq x c) text

extend-All :
    (c x : ℕ) (parts : List Text)
    → nat_beq x c ≡ false
    → All (λ part. has_char c part ≡ false) parts
    → All (λ part. has_char c part ≡ false) (extend x parts)
extend-All c x [] e h = (ground arith, tt)
extend-All c x (part ∷ parts) e h = (ground (arith, h.0), h.1)

-- No part of a split holds the separator.
pub split-All : (c : ℕ) (text : Text) → All (λ part. has_char c part ≡ false) (split c text)
unfolding split
split-All c [] = (refl, tt)
split-All c (x ∷ xs) = elim (Bool-cases (nat_beq x c)) [
  | inl e ↦ rw e (refl, split-All c xs)
  | inr e ↦ rw e (extend-All c x (split c xs) e (split-All c xs))
]

pub split-nil : (c : ℕ) → split c [] ≡ [] ∷ []
unfolding split
split-nil c = refl

pub split-cons :
    (c x : ℕ) (xs : Text)
    → split c (x ∷ xs) ≡ (if nat_beq x c then [] ∷ split c xs else extend x (split c xs))
unfolding split
split-cons c x xs = refl

-- The first separator ends the first part.
pub split-append :
    (c : ℕ) (part rest : Text)
    → has_char c part ≡ false
    → split c (part ++ (c ∷ rest)) ≡ part ∷ split c rest
unfolding split
split-append c [] rest h = rw ((nat_beq_iff c c).1 refl) refl
split-append c (x ∷ part) rest h =
    let e : nat_beq x c ≡ false = ground arith in
    rw (e, split-append c part rest (ground arith)) refl
