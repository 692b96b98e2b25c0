-- ===== src/Enumeration.antt =====
-- types.go and errors.go: what the `String` methods of the enumerations and the parsers of their
-- names share. An enumeration is a table of names and the word before the number of a value that the
-- table does not have.
pub mod Decimal
pub mod Distinct
pub mod Spelling
pub mod Separator
pub mod Lacks
use Prim.Native.String.{String, ◌++◌}
use text.Mathlib.Text as Text
use bacnet_go.Base.{ℕ, List, [], ◌∷◌, Option, none, some, if◌then◌else◌}
use bacnet_go.Base.Map.{lookup}
use bacnet_go.Enumeration.Decimal.{decimal}

pub record Enumeration : Type 0 where
  -- The format `word(%d)`.
  pub word : String
  pub names : List (ℕ × String)

-- `if name, ok := names[n]; ok { return name }; return fmt.Sprintf("word(%d)", n)`
unfoldable pub name : Enumeration → ℕ → String
unfolding decimal lookup
name e n = elim (lookup n e.names) [ none ↦ e.word ++ ("(" ++ (decimal n ++ ")")) | some s ↦ s ]

-- `if t, ok := table[s]; ok { return t, true }; return 0, false`
unfoldable pub parse : List (String × ℕ) → String → Option ℕ
parse [] s = none
parse ((t, n) ∷ table) s = if Text.◌==◌ s t then some n else parse table s
