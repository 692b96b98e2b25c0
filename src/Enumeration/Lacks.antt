-- ===== src/Enumeration/Lacks.antt =====
-- A character that no name of an enumeration has.
use Prim.Native.String.{String, ◌++◌}
use text.Mathlib.TextLemmas.{append_assoc}
use bacnet_go.Base.{ℕ, ◌≡◌, Bool, true, ◌&&◌, List, [], ◌∷◌, some, inl, inr, arith}
use bacnet_go.Base.Map.{lookup, option_cases}
use bacnet_go.Enumeration.{Enumeration, name}
use bacnet_go.Enumeration.Decimal.{decimal, IsNoDigit, lacks-decimal}
use bacnet_go.Enumeration.Separator.{lacks, lacks-append}

unfoldable pub all_lack : ℕ → List (ℕ × String) → Bool
all_lack c [] = true
all_lack c ((n, s) ∷ table) = lacks c s && all_lack c table

lookup-all_lack :
    (c n : ℕ) (s : String) (table : List (ℕ × String))
    → all_lack c table ≡ true
    → lookup n table ≡ some s
    → lacks c s ≡ true
unfolding all_lack lookup
lookup-all_lack c n s [] h e = ground arith
lookup-all_lack c n s ((k, t) ∷ table) h e = ground (arith, lookup-all_lack c n s table)

lacks-numbered :
    (c : ℕ) (word : String) (n : ℕ)
    → IsNoDigit c
    → lacks c (word ++ "(") ≡ true
    → lacks c ")" ≡ true
    → lacks c (word ++ ("(" ++ (decimal n ++ ")"))) ≡ true
lacks-numbered c word n d w h = ground (
  arith,
  append_assoc word "(" (decimal n ++ ")"),
  lacks-append c (word ++ "(") (decimal n ++ ")"),
  lacks-append c (decimal n) ")",
  lacks-decimal c n d,
)

pub lacks-name :
    (c : ℕ) (e : Enumeration) (n : ℕ)
    → IsNoDigit c
    → lacks c (e.word ++ "(") ≡ true
    → lacks c ")" ≡ true
    → all_lack c e.names ≡ true
    → lacks c (name e n) ≡ true
unfolding name
lacks-name c e n d w h k = elim (option_cases (lookup n e.names)) [
  | inl q ↦ ground (arith, q, lacks-numbered c e.word n d w h)
  | inr (s, q) ↦ ground (arith, q, lookup-all_lack c n s e.names k q)
]
