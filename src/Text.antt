-- ===== src/Text.antt =====
-- protocol.go: character strings. A Go string is the list of its bytes.
pub mod Utf16
pub mod Bytes
pub mod Utf8
use bacnet_go.Base.{
  ℕ, ◌+◌, ◌-◌, ◌*◌, ◌/◌, ◌%◌, ◌^◌, Bool, ◌&&◌, ◌||◌, List, [], ◌∷◌, ◌++◌, ltb, leb, ◌==◌,
  if◌then◌else◌,
}
use bacnet_go.Wire.ApplicationTag
use bacnet_go.Wire.Number.{application_tagged}

-- `CharSet…`
abbrev utf8 : ℕ
utf8 = 0

abbrev pub ucs4 : ℕ
ucs4 = 3

abbrev pub ucs2 : ℕ
ucs2 = 4

abbrev pub iso_8859_1 : ℕ
iso_8859_1 = 5

-- U+FFFD, which the Go library writes for what is no code point.
abbrev replacement : ℕ
replacement = 0xFFFD

abbrev pub is_surrogate : ℕ → Bool
is_surrogate r = leb 0xD800 r && ltb r 0xE000

-- The UTF-8 bytes that the conversion `string(runes)` writes for one rune. A rune is an int32; a
-- negative one is a number of 2 ^ 31 or more here, and is no code point either.
abbrev pub utf8_bytes : ℕ → List ℕ
utf8_bytes r =
    if ltb r 0x80
    then r ∷ []
    else if ltb r 0x800
    then (0xC0 + r / 2 ^ 6) ∷ (0x80 + r % 64) ∷ []
    else if ltb r 0x10000
    then (0xE0 + r / 2 ^ 12) ∷ (0x80 + r / 2 ^ 6 % 64) ∷ (0x80 + r % 64) ∷ []
    else (0xF0 + r / 2 ^ 18)
      ∷ (0x80 + r / 2 ^ 12 % 64)
      ∷ (0x80 + r / 2 ^ 6 % 64)
      ∷ (0x80 + r % 64)
      ∷ []

unfoldable pub encode_rune : ℕ → List ℕ
encode_rune r = utf8_bytes (if is_surrogate r || ltb 0x10FFFF r then replacement else r)

unfoldable pub string_of_runes : List ℕ → List ℕ
unfolding encode_rune
string_of_runes [] = []
string_of_runes (r ∷ rs) = encode_rune r ++ string_of_runes rs

-- `utf16.Decode`: a high surrogate joins a low one behind it, and one alone is replaced.
unfoldable pub utf16_decode : List ℕ → List ℕ
utf16_decode [] = []
utf16_decode (u ∷ []) = (if is_surrogate u then replacement else u) ∷ []
utf16_decode (u ∷ v ∷ us) =
    let joined = utf16_decode us in
    let rest = utf16_decode (v ∷ us) in
    if leb 0xD800 u && ltb u 0xDC00 && leb 0xDC00 v && ltb v 0xE000
    then ((u - 0xD800) * 2 ^ 10 + (v - 0xDC00) + 0x10000) ∷ joined
    else (if is_surrogate u then replacement else u) ∷ rest

-- The big-endian units of a payload; a part of a unit at its end is dropped.
unfoldable pub units16 : List ℕ → List ℕ
units16 (a ∷ b ∷ bytes) = (a * 256 + b) ∷ units16 bytes
units16 (a ∷ []) = []
units16 [] = []

unfoldable pub units32 : List ℕ → List ℕ
units32 (a ∷ b ∷ c ∷ d ∷ bytes) = (a * 2 ^ 24 + b * 2 ^ 16 + c * 2 ^ 8 + d) ∷ units32 bytes
units32 (a ∷ b ∷ c ∷ []) = []
units32 (a ∷ b ∷ []) = []
units32 (a ∷ []) = []
units32 [] = []

unfoldable pub encode_character_string : List ℕ → List ℕ
encode_character_string s = utf8 ∷ s

unfoldable pub encode_character_string_tag : List ℕ → List ℕ
encode_character_string_tag s =
    application_tagged ApplicationTag.character_string (encode_character_string s)

unfoldable pub decode_character_string : List ℕ → List ℕ
decode_character_string [] = []
decode_character_string (encoding ∷ payload) =
    if encoding == utf8
    then payload
    else if encoding == ucs2
    then string_of_runes (utf16_decode (units16 payload))
    else if encoding == ucs4
    then string_of_runes (units32 payload)
    else if encoding == iso_8859_1
    then string_of_runes payload
    else payload
