-- ===== src/Enumeration/Spelling.antt =====
-- When the parser of an enumeration reads back the name that its `String` method prints.
use Prim.Native.String.{String}
use bacnet_go.Base.{ℕ, ◌≡◌, Bool, true, false, ◌&&◌, List, [], ◌∷◌, Option, none, some, ◌==◌, arith}
use bacnet_go.Enumeration.{Enumeration, name, parse}

is_some : ℕ → Option ℕ → Bool
is_some n none = false
is_some n (some m) = n == m

reads_back : Enumeration → List (String × ℕ) → List (String × ℕ) → Bool
unfolding is_some
reads_back e table [] = true
reads_back e table ((s, n) ∷ rest) = is_some n (parse table (name e n)) && reads_back e table rest

-- Every value that the parser has a text for is read back from its own name.
unfoldable pub has_parsed_names : Enumeration → List (String × ℕ) → Bool
unfolding reads_back
has_parsed_names e table = reads_back e table table

parse-reads_back :
    (e : Enumeration) (table rest : List (String × ℕ)) (s : String) (n : ℕ)
    → reads_back e table rest ≡ true
    → parse rest s ≡ some n
    → parse table (name e n) ≡ some n
unfolding reads_back parse is_some
parse-reads_back e table [] s n h p = ground arith
parse-reads_back e table ((t, m) ∷ rest) s n h p = ground (arith, parse-reads_back e table rest s n)

pub parse-name :
    (e : Enumeration) (table : List (String × ℕ)) (s : String) (n : ℕ)
    → has_parsed_names e table ≡ true
    → parse table s ≡ some n
    → parse table (name e n) ≡ some n
unfolding has_parsed_names
parse-name e table s n h p = parse-reads_back e table table s n h p
