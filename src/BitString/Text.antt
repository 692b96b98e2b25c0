-- ===== src/BitString/Text.antt =====
-- bitstring.go: `(BitString).String`. A Go string is the list of its bytes.
use bacnet_go.Base.{
  ℕ, zero, suc, ◌+◌, ◌≡◌, refl, ap, ◌∙◌, Bool, false, List, [], ◌∷◌, ◌++◌, ◌==◌, if◌then◌else◌,
  length, get_or, arith, ne→==_false,
}
use native.Mathlib.Numerals.{add-one}
use bacnet_go.Base.Int.{ℤ, pos, negsuc}
use bacnet_go.BitString.{BitString, len, bit, new_bit_string_from_bits}
use bacnet_go.BitString.FromBits.{new_bit_string_from_bits-bit}
use bacnet_go.Go.{Result, ok, ◌>>=◌}

abbrev digit : Bool → ℕ
digit v = if v then 0x31 else 0x30

abbrev comma : ℕ
comma = 0x2C

-- The loop at index `i`, with `n` bits left.
unfoldable pub bits_text : BitString → ℕ → ℕ → Result (List ℕ)
bits_text b i zero = ok []
bits_text b i (suc n) = do
  v ← bit b (pos i)
  rest ← bits_text b (i + 1) n
  ok ((if i == 0 then [] else comma ∷ []) ++ (digit v ∷ rest))

in_braces : BitString → ℤ → Result (List ℕ)
in_braces b (negsuc n) = ok (0x7B ∷ 0x7D ∷ [])
in_braces b (pos zero) = ok (0x7B ∷ 0x7D ∷ [])
in_braces b (pos (suc n)) = do inner ← bits_text b 0 (suc n); ok (0x7B ∷ (inner ++ (0x7D ∷ [])))

unfoldable pub to_text : BitString → Result (List ℕ)
unfolding in_braces
to_text b = in_braces b (len b)

-- The bits as digits, with commas between them.
tail_text : List Bool → List ℕ
tail_text [] = []
tail_text (v ∷ vs) = comma ∷ digit v ∷ tail_text vs

separated : List Bool → List ℕ
unfolding tail_text
separated [] = []
separated (v ∷ vs) = digit v ∷ tail_text vs

bits_text-tail_text :
    (b : BitString) (i : ℕ) (vs : List Bool)
    → ((j k : ℕ) → k ≡ suc i + j → bit b (pos k) ≡ ok (get_or vs j false))
    → bits_text b (suc i) (length vs) ≡ ok (tail_text vs)
unfolding bits_text tail_text
bits_text-tail_text b i [] h = refl
bits_text-tail_text b i (v ∷ vs) h =
    rw
      (
        h 0 (suc i) (omega arith),
        add-one (suc i),
        bits_text-tail_text b (suc i) vs (λ j k e. h (suc j) k (omega (arith, e))),
        ne→==_false (suc i) 0 (omega arith),
      )
      refl

-- `String` of the bit string that `NewBitStringFromBits` returns writes the bits that it was given,
-- as digits with commas between them, in braces.
to_text-new_bit_string_from_bits :
    (bits : List Bool)
    → (b : BitString) × (new_bit_string_from_bits bits ≡ ok b)
      × (to_text b ≡ ok (0x7B ∷ (separated bits ++ (0x7D ∷ []))))
unfolding to_text bits_text separated
to_text-new_bit_string_from_bits [] =
    let (b, e, _, size, reads) = new_bit_string_from_bits-bit [] in (b, e, rw size refl)
to_text-new_bit_string_from_bits (v ∷ vs) =
    let (b, e, _, size, reads) = new_bit_string_from_bits-bit (v ∷ vs) in
    (
      b,
      e,
      rw
          (
            size,
            reads 0,
            bits_text-tail_text b 0 vs (λ j k e.
                let next : k ≡ suc j = omega (arith, e) in
                ap (λ n. bit b (pos n)) next ∙ reads (suc j)),
          )
          refl,
    )
