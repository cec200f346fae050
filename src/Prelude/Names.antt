-- ===== src/Prelude/Names.antt =====
-- Equality as a test, and lists without repetition.
use Prim.Native.String.{String}
use mathlib.Core.Path.{◌≡◌, refl, sym, ap, subst}
use mathlib.Core.Logic.{◌≢◌, ◌↔◌, inl, inr}
use mathlib.Core.Bool.{Bool, true, false, ◌||◌}
use mathlib.Core.List.{List, [], ◌∷◌}
use native.Mathlib.Omega.{arith}
use text.Mathlib.Text.{◌==◌ as str_eq}
use text.Mathlib.TextEquality.{eq_iff}
use thriftgo.Prelude.Tests.{Bool-cases}
use thriftgo.Prelude.Ints.{ℤ, pos, negsuc, eq_ℤ}

pub record Equality {ℓ} (A : Type ℓ) : Type ℓ where
  pub same : A → A → Bool
  pub same_iff : (a b : A) → (same a b ≡ true) ↔ (a ≡ b)

instance abbrev pub string_eq : Equality String
string_eq = record { same = str_eq; same_iff = eq_iff }

eq_ℤ-refl : (a : ℤ) → eq_ℤ a a ≡ true
eq_ℤ-refl (pos n) = ground arith
eq_ℤ-refl (negsuc n) = ground arith

eq_ℤ-sound : (a b : ℤ) → eq_ℤ a b ≡ true → a ≡ b
eq_ℤ-sound (pos m) (pos n) h = let e : m ≡ n = ground arith in ap pos e
eq_ℤ-sound (negsuc m) (negsuc n) h = let e : m ≡ n = ground arith in ap negsuc e
eq_ℤ-sound (pos m) (negsuc n) h = ground arith
eq_ℤ-sound (negsuc m) (pos n) h = ground arith

pub eq_ℤ_iff : (a b : ℤ) → (eq_ℤ a b ≡ true) ↔ (a ≡ b)
eq_ℤ_iff a b = (eq_ℤ-sound a b, λ e. subst (λ c. eq_ℤ a c ≡ true) e (eq_ℤ-refl a))

instance abbrev pub int_eq : Equality ℤ
int_eq = record { same = eq_ℤ; same_iff = eq_ℤ_iff }

module _ {ℓ} {A : Type ℓ} where
  -- `a` is not in the list.
  abbrev pub Absent : A → List A → Type ℓ
  Absent a [] = Unit
  Absent a (x ∷ xs) = (a ≢ x) × Absent a xs

  -- No two places of the list hold the same.
  abbrev pub Distinct : List A → Type ℓ
  Distinct [] = Unit
  Distinct (x ∷ xs) = Absent x xs × Distinct xs

  -- No two places of the list hold the same, and none holds what was seen before.
  abbrev pub Fresh : List A → List A → Type ℓ
  Fresh seen [] = Unit
  Fresh seen (x ∷ xs) = Absent x seen × Fresh (x ∷ seen) xs

  abbrev Apart : List A → List A → Type ℓ
  Apart seen [] = Unit
  Apart seen (x ∷ xs) = Absent x seen × Apart seen xs

  Apart-cons : (x : A) (seen xs : List A) → Absent x xs → Apart seen xs → Apart (x ∷ seen) xs
  Apart-cons x seen [] h k = tt
  Apart-cons x seen (y ∷ ys) h k = (((λ e. h.0 (sym e)), k.0), Apart-cons x seen ys h.1 k.1)

  Apart-tail : (x : A) (seen xs : List A) → Apart (x ∷ seen) xs → Apart seen xs
  Apart-tail x seen [] k = tt
  Apart-tail x seen (y ∷ ys) k = (k.0.1, Apart-tail x seen ys k.1)

  Apart-head : (x : A) (seen xs : List A) → Apart (x ∷ seen) xs → Absent x xs
  Apart-head x seen [] k = tt
  Apart-head x seen (y ∷ ys) k = ((λ e. k.0.0 (sym e)), Apart-head x seen ys k.1)

  Apart-nil : (xs : List A) → Apart [] xs
  Apart-nil [] = tt
  Apart-nil (x ∷ xs) = (tt, Apart-nil xs)

  Fresh-iff : (xs seen : List A) → Fresh seen xs ↔ (Distinct xs × Apart seen xs)
  Fresh-iff [] seen = ((λ h. (tt, tt)), (λ h. tt))
  Fresh-iff (x ∷ xs) seen = (
    (λ h.
        let (d, a) = (Fresh-iff xs (x ∷ seen)).0 h.1 in
        ((Apart-head x seen xs a, d), (h.0, Apart-tail x seen xs a))),
    (λ h. (h.1.0, (Fresh-iff xs (x ∷ seen)).1 (h.0.1, Apart-cons x seen xs h.0.0 h.1.1))),
  )

  pub Fresh-Distinct : (xs : List A) → Fresh [] xs ↔ Distinct xs
  Fresh-Distinct xs =
      ((λ h. ((Fresh-iff xs []).0 h).0), (λ h. (Fresh-iff xs []).1 (h, Apart-nil xs)))

module _ {ℓ} {A : Type ℓ} ⦃e : Equality A⦄ where
  abbrev pub contains : A → List A → Bool
  contains a [] = false
  contains a (x ∷ xs) = e.same a x || contains a xs

  pub contains-Absent : (a : A) (xs : List A) → contains a xs ≡ false → Absent a xs
  contains-Absent a [] h = tt
  contains-Absent a (x ∷ xs) h = elim (Bool-cases (e.same a x)) [
    | inl same ↦ ground (arith, same, h)
    | inr other ↦ (
      (λ k. ground (arith, other, (e.same_iff a x).1 k)),
      contains-Absent a xs (ground (arith, other, h)),
    )
  ]

  pub Absent-contains : (a : A) (xs : List A) → Absent a xs → contains a xs ≡ false
  Absent-contains a [] h = refl
  Absent-contains a (x ∷ xs) h = elim (Bool-cases (e.same a x)) [
    | inl same ↦ elim (h.0 ((e.same_iff a x).0 same)) [ ]
    | inr other ↦ rw other (Absent-contains a xs h.1)
  ]
