-- ===== src/Prelude/Equality.antt =====
-- Equality tests as an interface: dictionary keys, bucket keys and enumerations.
use mathlib.Core.Path.{◌≡◌, sym, ◌∙◌}
use mathlib.Core.Logic.{◌↔◌, ◌≢◌}
use mathlib.Core.Bool.{Bool, true, false, ◌&&◌, true≢false}
use Prim.Native.Nat.{ℕ}
use Prim.Native.String.{String}
use native.Mathlib.Omega.{arith}
use text.Mathlib.Text.{◌==◌ as str_eq}
use text.Mathlib.TextEquality.{eq_iff}
use netbox_plugin_backup.Prelude.Tests.{nat_beq, nat_beq_iff}

pub record Key {ℓ} (A : Type ℓ) : Type ℓ where
  pub same : A → A → Bool
  pub same_iff : (x y : A) → (same x y ≡ true) ↔ (x ≡ y)

infix 50 ◌==◌
abbrev pub ◌==◌ {ℓ} : {A : Type ℓ} ⦃e : Key A⦄ → A → A → Bool
◌==◌ ⦃e⦄ = e.same

-- A test that fails tells two values apart.
pub key_ne {ℓ} : {A : Type ℓ} ⦃e : Key A⦄ (x y : A) → (x == y) ≡ false → x ≢ y
key_ne ⦃e⦄ x y h p = true≢false (sym ((e.same_iff x y).1 p) ∙ h)

abbrev pub pair_beq : ℕ × ℕ → ℕ × ℕ → Bool
pair_beq p q = nat_beq p.0 q.0 && nat_beq p.1 q.1

pub pair_beq_iff : (p q : ℕ × ℕ) → (pair_beq p q ≡ true) ↔ (p ≡ q)
pair_beq_iff p q = ground arith

-- Pairs of numbers, such as a year with a week or a month.
instance abbrev pub pair_eq : Key (ℕ × ℕ)
pair_eq = record { same = pair_beq; same_iff = pair_beq_iff }

-- Texts, such as artifact types.
instance abbrev pub string_eq : Key String
string_eq = record { same = str_eq; same_iff = eq_iff }

-- Numbers, such as days.
instance abbrev pub nat_eq : Key ℕ
nat_eq = record { same = nat_beq; same_iff = nat_beq_iff }
