-- ===== src/Enumeration/Separator.antt =====
-- Texts that are joined by a character which none of them has.
use Prim.Native.Char.{Char, code}
use Prim.Native.String.{String, ◌++◌}
use text.Mathlib.TextLemmas as Laws
use bacnet_go.Base.{ℕ, ◌≡◌, refl, sym, ap, ◌∙◌, Bool, true, not, ◌&&◌, ◌==◌, arith}

unfoldable pub lacks : ℕ → String → Bool
lacks c String.[] = true
lacks c (String.◌∷◌ d s) = not (code d == c) && lacks c s

pub lacks-append : (c : ℕ) (s t : String) → lacks c (s ++ t) ≡ (lacks c s && lacks c t)
unfolding lacks
lacks-append c String.[] t = ap (lacks c) (Laws.nil-append t)
lacks-append c (String.◌∷◌ d s) t =
    ap (lacks c) (Laws.cons-append d s t) ∙ ground (arith, lacks-append c s t)

-- The text before the first separator, and the one behind it.
pub append-separated :
    (c : Char) (s s' t t' : String)
    → lacks (code c) s ≡ true
    → lacks (code c) s' ≡ true
    → s ++ (String.◌∷◌ c t) ≡ s' ++ (String.◌∷◌ c t')
    → (s ≡ s') × (t ≡ t')
unfolding lacks
append-separated c String.[] String.[] t t' h h' e = (
  refl,
  Laws.tail-eq_of_cons-eq
      (sym (Laws.nil-append (String.◌∷◌ c t)) ∙ e ∙ Laws.nil-append (String.◌∷◌ c t')),
)
append-separated c String.[] (String.◌∷◌ d s') t t' h h' e =
    let q = sym (Laws.nil-append (String.◌∷◌ c t)) ∙ e ∙ Laws.cons-append d s' (String.◌∷◌ c t') in
    absurd (ground (arith, ap code (Laws.head-eq_of_cons-eq q), h'))
append-separated c (String.◌∷◌ d s) String.[] t t' h h' e =
    let q = sym (Laws.cons-append d s (String.◌∷◌ c t)) ∙ e ∙ Laws.nil-append (String.◌∷◌ c t') in
    absurd (ground (arith, ap code (Laws.head-eq_of_cons-eq q), h))
append-separated c (String.◌∷◌ d s) (String.◌∷◌ d' s') t t' h h' e =
    let q =
      sym (Laws.cons-append d s (String.◌∷◌ c t)) ∙ e ∙ Laws.cons-append d' s' (String.◌∷◌ c t') in
    let (same, rest) =
      append-separated c s s' t t' (ground (arith, h)) (ground (arith, h'))
        (Laws.tail-eq_of_cons-eq q) in
    (cc (Laws.head-eq_of_cons-eq q, same), rest)
