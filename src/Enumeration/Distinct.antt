-- ===== src/Enumeration/Distinct.antt =====
-- When the `String` method of an enumeration tells its values apart.
use Prim.Native.String.{String, ◌++◌}
use text.Mathlib.Text as Text
use text.Mathlib.TextEquality.{eq_iff, starts_with_iff}
use text.Mathlib.TextLemmas.{append_cancel_left, append_cancel_right, prefix-append, append_assoc}
use bacnet_go.Base.{
  ℕ, ◌≡◌, ◌≢◌, Bool, true, false, not, ◌&&◌, List, [], ◌∷◌, none, some, ◌⊎◌, inl, inr, arith,
}
use bacnet_go.Base.Map.{lookup, option_cases}
use bacnet_go.Enumeration.{Enumeration, name}
use bacnet_go.Enumeration.Decimal.{decimal, decimal-injective}

absent : String → List (ℕ × String) → Bool
absent s [] = true
absent s ((n, t) ∷ table) = not (Text.◌==◌ s t) && absent s table

all_differ : List (ℕ × String) → Bool
all_differ [] = true
all_differ ((n, s) ∷ table) = absent s table && all_differ table

none_starts_with : String → List (ℕ × String) → Bool
none_starts_with p [] = true
none_starts_with p ((n, s) ∷ table) = not (Text.starts_with s p) && none_starts_with p table

-- No two names are the same, and none looks like the number of a value without a name.
unfoldable pub has_distinct_names : Enumeration → Bool
unfolding absent all_differ none_starts_with
has_distinct_names e = all_differ e.names && none_starts_with (e.word ++ "(") e.names

lookup-absent :
    (n : ℕ) (s : String) (table : List (ℕ × String))
    → absent s table ≡ true
    → lookup n table ≢ some s
unfolding lookup absent
lookup-absent n s [] h = ground arith
lookup-absent n s ((k, t) ∷ table) h = ground (arith, eq_iff s t, lookup-absent n s table)

lookup-all_differ :
    (a b : ℕ) (s : String) (table : List (ℕ × String))
    → all_differ table ≡ true
    → lookup a table ≡ some s
    → lookup b table ≡ some s
    → a ≡ b
unfolding lookup all_differ
lookup-all_differ a b s [] h p q = ground arith
lookup-all_differ a b s ((k, t) ∷ table) h p q = ground (
  arith,
  eq_iff s t,
  lookup-absent a s table,
  lookup-absent b s table,
  lookup-all_differ a b s table,
)

lookup-none_starts_with :
    (n : ℕ) (p s : String) (table : List (ℕ × String))
    → none_starts_with p table ≡ true
    → lookup n table ≡ some s
    → Text.starts_with s p ≡ false
unfolding lookup none_starts_with
lookup-none_starts_with n p s [] h q = ground arith
lookup-none_starts_with n p s ((k, t) ∷ table) h q =
    ground (arith, lookup-none_starts_with n p s table)

-- A name in the table is no number of another value.
lookup-numbered :
    (e : Enumeration) (n : ℕ) (s : String)
    → none_starts_with (e.word ++ "(") e.names ≡ true
    → lookup n e.names ≢ some (e.word ++ ("(" ++ s))
lookup-numbered e n s h q = ground (
  arith,
  lookup-none_starts_with n (e.word ++ "(") (e.word ++ ("(" ++ s)) e.names,
  starts_with_iff (e.word ++ ("(" ++ s)) (e.word ++ "("),
  append_assoc e.word "(" s,
  prefix-append (e.word ++ "(") s,
)

name-injective_cases :
    (e : Enumeration) (a b : ℕ)
    → has_distinct_names e ≡ true
    → name e a ≡ name e b
    → (lookup a e.names ≡ none) ⊎ ((s : String) × (lookup a e.names ≡ some s))
    → (lookup b e.names ≡ none) ⊎ ((s : String) × (lookup b e.names ≡ some s))
    → a ≡ b
unfolding name has_distinct_names
name-injective_cases e a b h q (inl p) (inl p') = decimal-injective a b (
    append_cancel_right (decimal a) (decimal b) ")" (
      append_cancel_left "(" (decimal a ++ ")") (decimal b ++ ")") (
        append_cancel_left e.word ("(" ++ (decimal a ++ ")")) ("(" ++ (decimal b ++ ")"))
          (ground (arith, p, p', q)))))
name-injective_cases e a b h q (inl p) (inr (s, p')) =
    ground (arith, q, p, p', lookup-numbered e b (decimal a ++ ")"))
name-injective_cases e a b h q (inr (s, p)) (inl p') =
    ground (arith, q, p, p', lookup-numbered e a (decimal b ++ ")"))
name-injective_cases e a b h q (inr (s, p)) (inr (t, p')) =
    ground (arith, q, p, p', lookup-all_differ a b s e.names)

-- An enumeration with distinct names prints two values alike only when they are one.
pub name-injective :
    (e : Enumeration) (a b : ℕ) → has_distinct_names e ≡ true → name e a ≡ name e b → a ≡ b
name-injective e a b h q =
    name-injective_cases e a b h q (option_cases (lookup a e.names))
      (option_cases (lookup b e.names))
