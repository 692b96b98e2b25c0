-- ===== src/Text/Utf8.antt =====
-- The strings that are built from runes are well-formed UTF-8.
use bacnet_go.Base.{
  ℕ, ◌+◌, ◌-◌, ◌*◌, ◌/◌, ◌%◌, ◌^◌, ◌≤◌, ◌<◌, ◌≡◌, refl, false, ◌||◌, List, [], ◌∷◌, ◌++◌, map, All,
  ltb, if◌then◌else◌, ◌⊎◌, inl, inr, arith,
}
use bacnet_go.Text.{
  ucs2, ucs4, iso_8859_1, is_surrogate, utf8_bytes, encode_rune, string_of_runes, utf16_decode,
  units16, units32, decode_character_string,
}
use bacnet_go.Text.Utf16.{IsCodePoint, utf16_units, big_endian, decode_character_string-utf16_units}

-- The rune of a sequence of two, three and four bytes.
abbrev rune_of_two : ℕ → ℕ → ℕ
rune_of_two a b = (a - 0xC0) * 2 ^ 6 + (b - 0x80)

abbrev rune_of_three : ℕ → ℕ → ℕ → ℕ
rune_of_three a b c = (a - 0xE0) * 2 ^ 12 + (b - 0x80) * 2 ^ 6 + (c - 0x80)

abbrev rune_of_four : ℕ → ℕ → ℕ → ℕ → ℕ
rune_of_four a b c d = (a - 0xF0) * 2 ^ 18 + (b - 0x80) * 2 ^ 12 + (c - 0x80) * 2 ^ 6 + (d - 0x80)

abbrev IsTail : ℕ → Type 0
IsTail b = (0x80 ≤ b) × (b < 0xC0)

-- RFC 3629: the bytes, and the runes that they stand for. No rune is written longer than it has to
-- be, none is a surrogate, and none lies past U+10FFFF.
pub data IsUtf8 : List ℕ → List ℕ → Type 0 where
  done : IsUtf8 [] []
  one :
      {bytes runes : List ℕ} (r : ℕ)
      → r < 0x80
      → IsUtf8 bytes runes
      → IsUtf8 (r ∷ bytes) (r ∷ runes)
  two :
      {bytes runes : List ℕ} (a b r : ℕ)
      → (0xC0 ≤ a) × (a < 0xE0)
      → IsTail b
      → r ≡ rune_of_two a b
      → 0x80 ≤ r
      → IsUtf8 bytes runes
      → IsUtf8 (a ∷ b ∷ bytes) (r ∷ runes)
  three :
      {bytes runes : List ℕ} (a b c r : ℕ)
      → (0xE0 ≤ a) × (a < 0xF0)
      → IsTail b × IsTail c
      → r ≡ rune_of_three a b c
      → (0x800 ≤ r) × (is_surrogate r ≡ false)
      → IsUtf8 bytes runes
      → IsUtf8 (a ∷ b ∷ c ∷ bytes) (r ∷ runes)
  four :
      {bytes runes : List ℕ} (a b c d r : ℕ)
      → (0xF0 ≤ a) × (a < 0xF8)
      → IsTail b × IsTail c × IsTail d
      → r ≡ rune_of_four a b c d
      → (0x10000 ≤ r) × (r ≤ 0x10FFFF)
      → IsUtf8 bytes runes
      → IsUtf8 (a ∷ b ∷ c ∷ d ∷ bytes) (r ∷ runes)

-- What is no code point becomes U+FFFD.
abbrev code_point : ℕ → ℕ
code_point r = if is_surrogate r || ltb 0x10FFFF r then 0xFFFD else r

code_point-valid : (r : ℕ) → (code_point r ≤ 0x10FFFF) × (is_surrogate (code_point r) ≡ false)
code_point-valid r = ground arith

-- The four sizes of a rune.
size_cases :
    (r : ℕ)
    → (r < 0x80) ⊎ (((0x80 ≤ r) × (r < 0x800)) ⊎ (((0x800 ≤ r) × (r < 0x10000)) ⊎ (0x10000 ≤ r)))
size_cases r = ground arith

utf8_bytes-IsUtf8 :
    (r : ℕ) (bytes runes : List ℕ)
    → r ≤ 0x10FFFF
    → is_surrogate r ≡ false
    → IsUtf8 bytes runes
    → IsUtf8 (utf8_bytes r ++ bytes) (r ∷ runes)
utf8_bytes-IsUtf8 r bytes runes h k u = elim (size_cases r) [
  | inl l ↦ let e : utf8_bytes r ≡ r ∷ [] = ground (arith, l) in rw e (one r l u)
  | inr (inl l) ↦
      let e : utf8_bytes r ≡ (0xC0 + r / 2 ^ 6) ∷ (0x80 + r % 64) ∷ [] = ground (arith, l) in
      rw e (
        two (0xC0 + r / 2 ^ 6) (0x80 + r % 64) r (omega (arith, l)) (omega arith) (omega arith) l.0
          u)
  | inr (inr (inl l)) ↦
      let e : utf8_bytes r ≡ (0xE0 + r / 2 ^ 12) ∷ (0x80 + r / 2 ^ 6 % 64) ∷ (0x80 + r % 64) ∷ [] =
        ground (arith, l) in
      rw e (
        three (0xE0 + r / 2 ^ 12) (0x80 + r / 2 ^ 6 % 64) (0x80 + r % 64) r (omega (arith, l))
          (omega arith) (omega arith) (l.0, k) u)
  | inr (inr (inr l)) ↦
      let e : utf8_bytes r
          ≡ (0xF0 + r / 2 ^ 18)
            ∷ (0x80 + r / 2 ^ 12 % 64)
            ∷ (0x80 + r / 2 ^ 6 % 64)
            ∷ (0x80 + r % 64)
            ∷ [] =
        ground (arith, l) in
      rw e (
        four (0xF0 + r / 2 ^ 18) (0x80 + r / 2 ^ 12 % 64) (0x80 + r / 2 ^ 6 % 64) (0x80 + r % 64) r
          (omega (arith, h)) (omega arith) (omega arith) (l, h) u)
]

-- The conversion `string(runes)` writes well-formed UTF-8 for any numbers: the runes that it stands
-- for are the code points among them, and U+FFFD for each other one.
string_of_runes-IsUtf8 : (rs : List ℕ) → IsUtf8 (string_of_runes rs) (map code_point rs)
unfolding string_of_runes encode_rune
string_of_runes-IsUtf8 [] = done
string_of_runes-IsUtf8 (r ∷ rs) =
    let (h, k) = code_point-valid r in
    utf8_bytes-IsUtf8 (code_point r) (string_of_runes rs) (map code_point rs) h k
      (string_of_runes-IsUtf8 rs)

-- A string that arrives in UCS-2, UCS-4 or Latin-1 is read as well-formed UTF-8, whatever its bytes
-- are.
pub decode_character_string-IsUtf8 :
    (encoding : ℕ) (payload : List ℕ)
    → ((encoding ≡ ucs2) ⊎ ((encoding ≡ ucs4) ⊎ (encoding ≡ iso_8859_1)))
    → (runes : List ℕ) × IsUtf8 (decode_character_string (encoding ∷ payload)) runes
unfolding decode_character_string
decode_character_string-IsUtf8 encoding payload (inl e) = (
  map code_point (utf16_decode (units16 payload)),
  rw e (string_of_runes-IsUtf8 (utf16_decode (units16 payload))),
)
decode_character_string-IsUtf8 encoding payload (inr (inl e)) =
    (map code_point (units32 payload), rw e (string_of_runes-IsUtf8 (units32 payload)))
decode_character_string-IsUtf8 encoding payload (inr (inr e)) =
    (map code_point payload, rw e (string_of_runes-IsUtf8 payload))

-- A UTF-16 text of code points comes back as UTF-8 of the same code points.
code_point_self : (rs : List ℕ) → All IsCodePoint rs → map code_point rs ≡ rs
code_point_self [] h = refl
code_point_self (r ∷ rs) (h, hs) =
    let e : code_point r ≡ r = ground (arith, h.in_range, h.no_surrogate) in
    rw (e, code_point_self rs hs) refl

-- A text of code points that arrives in big-endian UTF-16 is read as the UTF-8 of the same code
-- points.
pub decode_character_string-utf16_units-IsUtf8 :
    (rs : List ℕ)
    → All IsCodePoint rs
    → IsUtf8 (decode_character_string (ucs2 ∷ big_endian (utf16_units rs))) rs
decode_character_string-utf16_units-IsUtf8 rs h =
    rw (decode_character_string-utf16_units rs h)
      (rw (code_point_self rs h) at (string_of_runes-IsUtf8 rs))
