-- ===== src/Text/Utf16.antt =====
-- Character strings in UTF-16, as a device that uses the set `CharSetUCS2` sends them.
use bacnet_go.Base.{
  ℕ, ◌+◌, ◌-◌, ◌/◌, ◌%◌, ◌^◌, ◌≤◌, ◌<◌, ◌≡◌, refl, false, List, [], ◌∷◌, ◌++◌, All, ltb,
  if◌then◌else◌, arith,
}
use bacnet_go.Text.{
  ucs2, is_surrogate, string_of_runes, utf16_decode, units16, decode_character_string,
}

pub record IsCodePoint (r : ℕ) : Type 0 where
  pub in_range : r ≤ 0x10FFFF
  pub no_surrogate : is_surrogate r ≡ false

-- The 16-bit units of a code point, and a text of code points as big-endian bytes.
abbrev rune_units : ℕ → List ℕ
rune_units r =
    if ltb r 0x10000
    then r ∷ []
    else (0xD800 + (r - 0x10000) / 2 ^ 10) ∷ (0xDC00 + (r - 0x10000) % 2 ^ 10) ∷ []

unfoldable pub utf16_units : List ℕ → List ℕ
utf16_units [] = []
utf16_units (r ∷ rs) = rune_units r ++ utf16_units rs

unfoldable pub big_endian : List ℕ → List ℕ
big_endian [] = []
big_endian (u ∷ us) = (u / 256) ∷ (u % 256) ∷ big_endian us

units16-big_endian : (us : List ℕ) → units16 (big_endian us) ≡ us
unfolding units16 big_endian
units16-big_endian [] = refl
units16-big_endian (u ∷ us) = ground (arith, units16-big_endian us)

utf16_decode-one_unit :
    (r : ℕ) (us : List ℕ) → is_surrogate r ≡ false → utf16_decode (r ∷ us) ≡ r ∷ utf16_decode us
unfolding utf16_decode
utf16_decode-one_unit r [] h = ground arith
utf16_decode-one_unit r (v ∷ us) h = ground arith

utf16_decode-two_units :
    (d : ℕ) (us : List ℕ)
    → d < 0x100000
    → utf16_decode ((0xD800 + d / 2 ^ 10) ∷ (0xDC00 + d % 2 ^ 10) ∷ us)
      ≡ (d + 0x10000) ∷ utf16_decode us
unfolding utf16_decode
utf16_decode-two_units d us h = ground arith

utf16_decode-rune_units :
    (r : ℕ) (us : List ℕ) → IsCodePoint r → utf16_decode (rune_units r ++ us) ≡ r ∷ utf16_decode us
utf16_decode-rune_units r us h =
    ground (arith, utf16_decode-one_unit r us, utf16_decode-two_units (r - 0x10000) us)

utf16_decode-utf16_units : (rs : List ℕ) → All IsCodePoint rs → utf16_decode (utf16_units rs) ≡ rs
unfolding utf16_units utf16_decode
utf16_decode-utf16_units [] h = refl
utf16_decode-utf16_units (r ∷ rs) (h, hs) =
    rw (utf16_decode-rune_units r (utf16_units rs) h, utf16_decode-utf16_units rs hs) refl

-- A text of code points that arrives in big-endian UTF-16 is read as its UTF-8: a code point beyond
-- U+FFFF from its two surrogates, every other one from its unit.
pub decode_character_string-utf16_units :
    (rs : List ℕ)
    → All IsCodePoint rs
    → decode_character_string (ucs2 ∷ big_endian (utf16_units rs)) ≡ string_of_runes rs
unfolding decode_character_string
decode_character_string-utf16_units rs h =
    rw (units16-big_endian (utf16_units rs), utf16_decode-utf16_units rs h) refl
