-- ===== src/Base/Map.antt =====
-- Go maps with integer keys, as association lists that hold a key once.
pub mod Values
use bacnet_go.Base.{
  ℕ, ◌≡◌, refl, List, [], ◌∷◌, Option, none, some, ◌⊎◌, inl, inr, ◌==◌, if◌then◌else◌, arith,
}

unfoldable pub lookup {ℓ} : {A : Type ℓ} → ℕ → List (ℕ × A) → Option A
lookup k [] = none
lookup k ((k', a) ∷ m) = if k == k' then some a else lookup k m

unfoldable pub delete {ℓ} : {A : Type ℓ} → ℕ → List (ℕ × A) → List (ℕ × A)
delete k [] = []
delete k ((k', a) ∷ m) = let rest = delete k m in if k == k' then rest else (k', a) ∷ rest

abbrev pub insert {ℓ} : {A : Type ℓ} → ℕ → A → List (ℕ × A) → List (ℕ × A)
insert k a m = (k, a) ∷ delete k m

pub lookup-delete {ℓ} :
    {A : Type ℓ} (j k : ℕ) (m : List (ℕ × A))
    → lookup j (delete k m) ≡ (if j == k then none else lookup j m)
unfolding lookup delete
lookup-delete j k [] = ground arith
lookup-delete j k ((k', a) ∷ m) = ground (arith, lookup-delete j k m)

pub lookup-insert {ℓ} :
    {A : Type ℓ} (j k : ℕ) (a : A) (m : List (ℕ × A))
    → lookup j (insert k a m) ≡ (if j == k then some a else lookup j m)
unfolding lookup
lookup-insert j k a m = ground (arith, lookup-delete j k m)

-- The two answers of a lookup, with the equation.
pub option_cases {ℓ} : {A : Type ℓ} (o : Option A) → (o ≡ none) ⊎ ((a : A) × (o ≡ some a))
option_cases none = inl refl
option_cases (some a) = inr (a, refl)
