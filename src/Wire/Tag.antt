-- ===== src/Wire/Tag.antt =====
-- protocol.go: the tag octets in front of every value (`EncodeTag`, `DecodeTagNumber` and the
-- opening and closing tags around constructed data).
pub mod Total
pub mod RoundTrip
use bacnet_go.Base.{
  ℕ, ◌+◌, ◌*◌, ◌/◌, ◌%◌, ◌^◌, Bool, true, false, ◌&&◌, List, [], ◌∷◌, ◌++◌, ltb, leb, ◌==◌,
  if◌then◌else◌, length, bit_and, bit_or,
}
use bacnet_go.Base.Bits.{◌<<<◌, ◌>>>◌}
use bacnet_go.Base.Int.{ℤ, pos, negsuc}
use bacnet_go.Errors.{invalid_apdu}
use bacnet_go.Go.{
  Result, ok, panic, fail, ◌>>=◌, index, slice_from, uint16, uint32, put_uint16, put_uint32,
}

-- `TagClass`
abbrev pub application : ℕ
application = 0

abbrev pub context : ℕ
context = 1

-- The named results of `DecodeTagNumber`. A `length` of -1 marks an opening tag, -2 a closing one.
pub record Tag : Type 0 where
  pub number : ℕ
  pub class : ℕ
  pub length : ℤ
  pub header_len : ℕ

abbrev pub opening : ℤ
opening = negsuc 0

abbrev pub closing : ℤ
closing = negsuc 1

-- `length == -2` and `length == -1`
abbrev pub is_closing : ℤ → Bool
is_closing (pos n) = false
is_closing (negsuc n) = n == 1

abbrev pub is_opening : ℤ → Bool
is_opening (pos n) = false
is_opening (negsuc n) = n == 0

-- The bytes of the extended form that follow the first one.
extended_length : ℕ → List ℕ
extended_length len =
    if ltb len 5
    then []
    else if ltb len 254
    then (len % 256) ∷ []
    else if ltb len 65536
    then 254 ∷ put_uint16 len
    else 255 ∷ put_uint32 len

unfoldable pub encode_tag : ℕ → ℕ → ℕ → List ℕ
unfolding extended_length
encode_tag number class len =
    if ltb len 5 && ltb number 15
    then bit_or (bit_or ((number <<< 4) % 256) ((class <<< 3) % 256)) (len % 256) ∷ []
    else (if leb 15 number
        then bit_or 0xF0 ((class <<< 3) % 256) ∷ number ∷ []
        else bit_or (bit_or ((number <<< 4) % 256) ((class <<< 3) % 256)) 0x05 ∷ [])
      ++ extended_length len

unfoldable pub encode_context_tag : ℕ → List ℕ → List ℕ
encode_context_tag number payload = encode_tag number context (length payload) ++ payload

unfoldable pub encode_opening_tag : ℕ → List ℕ
encode_opening_tag number =
    if ltb number 15 then bit_or ((number <<< 4) % 256) 0x0E ∷ [] else 0xFE ∷ number ∷ []

unfoldable pub encode_closing_tag : ℕ → List ℕ
encode_closing_tag number =
    if ltb number 15 then bit_or ((number <<< 4) % 256) 0x0F ∷ [] else 0xFF ∷ number ∷ []

-- The tag number and the length of the header so far.
tag_number : List ℕ → ℕ → Result (ℕ × ℕ)
tag_number bytes number =
    if number == 0x0F
    then (if ltb (length bytes) 2
        then fail invalid_apdu
        else do extended ← index bytes 1; ok (extended, 2))
    else ok (number, 1)

-- The part of `DecodeTagNumber` below "Extended length".
payload_length : List ℕ → ℕ → ℕ → ℕ → ℕ → Result Tag
payload_length bytes number class len header_len =
    if len == 5
    then (if ltb (length bytes) (header_len + 1) then fail invalid_apdu else do
      marker ← index bytes header_len
      if ltb marker 254
          then ok (record {
            number = number;
            class = class;
            length = pos marker;
            header_len = header_len + 1;
          })
          else if marker == 254
          then (if ltb (length bytes) (header_len + 3) then fail invalid_apdu else do
            tail ← slice_from bytes (header_len + 1)
            wide ← uint16 tail
            ok (record {
              number = number;
              class = class;
              length = pos wide;
              header_len = header_len + 3;
            }))
          else if ltb (length bytes) (header_len + 5)
          then fail invalid_apdu
          else do
            tail ← slice_from bytes (header_len + 1)
            wide ← uint32 tail
            ok (record {
              number = number;
              class = class;
              length = pos wide;
              header_len = header_len + 5;
            }))
    else ok (record { number = number; class = class; length = pos len; header_len = header_len })

unfoldable pub decode_tag_number : List ℕ → Result Tag
unfolding tag_number payload_length
decode_tag_number bytes = if ltb (length bytes) 1 then fail invalid_apdu else do
  first ← index bytes 0
  let class = bit_and (first >>> 3) 0x01
  (number, header_len) ← tag_number bytes (bit_and (first >>> 4) 0x0F)
  if class == context && bit_and first 0x07 == 0x06
      then ok (record { number = number; class = class; length = opening; header_len = header_len })
      else if class == context && bit_and first 0x07 == 0x07
      then ok (record { number = number; class = class; length = closing; header_len = header_len })
      else payload_length bytes number class (bit_and first 0x07) header_len
