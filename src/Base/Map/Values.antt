-- ===== src/Base/Map/Values.antt =====
-- The values of a Go map, as a range over it yields them.
use mathlib.Core.List.{Mem, mem-cons_self, mem-cons_of_mem}
use bacnet_go.Base.{
  ℕ, ◌≡◌, ◌≢◌, refl, List, [], ◌∷◌, map, some, true, ◌==◌, All, inl, inr, arith, eq_or_ne, ==_self,
  ne→==_false, sym, ◌∙◌,
}
use bacnet_go.Base.Map
use bacnet_go.Base.Map.{lookup, delete, lookup-insert}

abbrev values {ℓ} : {A : Type ℓ} → List (ℕ × A) → List A
values m = map (λ entry. entry.1) m

-- Each entry is the one that its key finds: no key stands twice.
abbrev IsFound : {A : Type 0} → List (ℕ × A) → ℕ × A → Type 0
IsFound m entry = lookup entry.0 m ≡ some entry.1

abbrev pub IsKeyed : {A : Type 0} → List (ℕ × A) → Type 0
IsKeyed m = All (IsFound m) m

All-delete :
    {A : Type 0} (P Q : ℕ × A → Type 0) (k : ℕ) (m : List (ℕ × A))
    → ((entry : ℕ × A) → entry.0 ≢ k → P entry → Q entry)
    → All P m
    → All Q (delete k m)
unfolding delete
All-delete P Q k [] f h = tt
All-delete P Q k ((k', a) ∷ m) f h = elim (eq_or_ne k k') [
  | inl same ↦
      let found : (k == k') ≡ true = rw same (==_self k') in rw found (All-delete P Q k m f h.1)
  | inr differ ↦
      rw (ne→==_false k k' differ) (f (k', a) (λ e. differ (sym e)) h.0, All-delete P Q k m f h.1)
]

pub IsKeyed-insert :
    {A : Type 0} (k : ℕ) (a : A) (m : List (ℕ × A)) → IsKeyed m → IsKeyed (Map.insert k a m)
unfolding lookup
IsKeyed-insert k a m h = (
  rw (==_self k) refl,
  All-delete (IsFound m) (IsFound (Map.insert k a m)) k m
      (λ entry differ found. lookup-insert entry.0 k a m ∙ rw (ne→==_false entry.0 k differ) found)
      h,
)

pub lookup-values :
    {A : Type 0} (k : ℕ) (a : A) (m : List (ℕ × A)) → lookup k m ≡ some a → Mem a (values m)
unfolding lookup
lookup-values k a [] e = ground arith
lookup-values k a ((k', a') ∷ m) e = elim (eq_or_ne k k') [
  | inl same ↦
      let here : a' ≡ a = let found : (k == k') ≡ true = rw same (==_self k') in ground arith in
      rw here mem-cons_self
  | inr differ ↦ mem-cons_of_mem a' (lookup-values k a m (rw (ne→==_false k k' differ) at e))
]

-- A property of the entries is one of the values.
pub All-values :
    {A : Type 0} (P : A → Type 0) (m : List (ℕ × A))
    → ((k : ℕ) (a : A) → lookup k m ≡ some a → P a)
    → IsKeyed m
    → All P (values m)
All-values {A = A} P m f h = values_of m h
  where
    values_of : (entries : List (ℕ × A)) → All (IsFound m) entries → All P (values entries)
    values_of [] h = tt
    values_of (entry ∷ entries) h = (f entry.0 entry.1 h.0, values_of entries h.1)
