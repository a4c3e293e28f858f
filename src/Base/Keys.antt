-- ===== src/Base/Keys.antt =====
-- Equality tests of the key types (`==` of Python), and membership in a list (`x in xs`).
use Prim.Native.Nat.{ℕ}
use Prim.Native.String.{String}
use mathlib.Core.Path.{◌≡◌, refl, ap, ap₂}
use mathlib.Core.Logic.{inl, inr, ◌↔◌, inl, inr}
use mathlib.Core.Bool.{Bool, true, false, ◌||◌}
use mathlib.Core.List.{map, List, [], ◌∷◌, ◌++◌}
use native.Mathlib.Omega.{arith}
use text.Mathlib.Text.{◌==◌ as str_eq}
use text.Mathlib.TextEquality.{eq_iff}
use peer_cache.Base.Lists.{any}
use peer_cache.Base.Tests.{Bool-cases, nat_eq, nat_eq_iff}

-- A type whose values are dict keys.
pub record Key {ℓ} (K : Type ℓ) : Type ℓ where
  pub same : K → K → Bool
  pub same_iff : (j k : K) → (same j k ≡ true) ↔ (j ≡ k)

instance abbrev pub eq_string : Key String
eq_string = record { same = str_eq; same_iff = eq_iff }

instance abbrev pub eq_ℕ : Key ℕ
eq_ℕ = record { same = nat_eq; same_iff = nat_eq_iff }

infix 50 ◌==◌
abbrev pub ◌==◌ {ℓ} : {K : Type ℓ} ⦃k : Key K⦄ → K → K → Bool
◌==◌ ⦃k⦄ = k.same

pub str_eq_iff : (s t : String) → ((s == t) ≡ true) ↔ (s ≡ t)
str_eq_iff = eq_iff

module _ {ℓ} {A : Type ℓ} ⦃e : Key A⦄ where
  pub ==_iff : (a b : A) → ((a == b) ≡ true) ↔ (a ≡ b)
  ==_iff = e.same_iff

  pub ==_refl : (a : A) → (a == a) ≡ true
  ==_refl a = (e.same_iff a a).1 refl

  -- `a in xs`
  abbrev pub elem : A → List A → Bool
  elem a [] = false
  elem a (x ∷ xs) = x == a || elem a xs

  -- No element occurs twice.
  abbrev pub Distinct : List A → Type 0
  Distinct [] = Unit
  Distinct (x ∷ xs) = (elem x xs ≡ false) × Distinct xs

  pub elem-append : (a : A) (xs ys : List A) → elem a (xs ++ ys) ≡ (elem a xs || elem a ys)
  elem-append a [] ys = refl
  elem-append a (x ∷ xs) ys = ground (arith, elem-append a xs ys)

  pub any_of_elem :
      (p : A → Bool) (o : A) (os : List A) → elem o os ≡ true → p o ≡ true → any p os ≡ true
  any_of_elem p o [] m h = absurd (cc)
  any_of_elem p o (x ∷ os) m h = elim (Bool-cases (x == o)) [
    | inl same ↦ ground (arith, ap p ((==_iff x o).0 same))
    | inr other ↦ ground (arith, any_of_elem p o os)
  ]

  pub elem_of_any :
      (p : A → Bool) (os : List A) → any p os ≡ true → (o : A) × (elem o os ≡ true) × (p o ≡ true)
  elem_of_any p [] h = absurd (cc)
  elem_of_any p (x ∷ os) h = elim (Bool-cases (p x)) [
    | inl here ↦ (x, ground (arith, ==_refl x), here)
    | inr other ↦
        let (o, m, there) = elem_of_any p os (ground arith) in (o, ground (arith, m), there)
  ]

  pub map-ext_elem {κ} :
      {B : Type κ} (f g : A → B) (xs : List A)
      → ((x : A) → elem x xs ≡ true → f x ≡ g x)
      → map f xs ≡ map g xs
  map-ext_elem f g [] h = refl
  map-ext_elem f g (x ∷ xs) h =
      ap₂ (◌∷◌) (h x (ground (arith, ==_refl x))) (map-ext_elem f g xs (λ y m. h y (ground arith)))
