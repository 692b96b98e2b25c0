-- ===== src/Text/Bytes.antt =====
-- A decoded string is a list of bytes.
use bacnet_go.Base.{ℕ, List, [], ◌∷◌, All, All-append, arith}
use bacnet_go.Go.{IsByte}
use bacnet_go.Text.{
  encode_rune, string_of_runes, utf16_decode, units16, units32, decode_character_string,
}

encode_rune-bytes : (r : ℕ) → All IsByte (encode_rune r)
unfolding encode_rune
encode_rune-bytes r = ground arith

string_of_runes-bytes : (rs : List ℕ) → All IsByte (string_of_runes rs)
unfolding string_of_runes
string_of_runes-bytes [] = tt
string_of_runes-bytes (r ∷ rs) =
    All-append IsByte (encode_rune r) (string_of_runes rs) (encode_rune-bytes r)
      (string_of_runes-bytes rs)

pub decode_character_string-bytes :
    (bytes : List ℕ) → All IsByte bytes → All IsByte (decode_character_string bytes)
unfolding decode_character_string
decode_character_string-bytes [] h = tt
decode_character_string-bytes (encoding ∷ payload) h = ground (
  arith,
  string_of_runes-bytes (utf16_decode (units16 payload)),
  string_of_runes-bytes (units32 payload),
  string_of_runes-bytes payload,
  h.1,
)
