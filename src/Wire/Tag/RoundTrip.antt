-- ===== src/Wire/Tag/RoundTrip.antt =====
-- What `DecodeTagNumber` reads of the tags that the encoders write.
use bacnet_go.Base.{
  ℕ, ◌+◌, ◌*◌, ◌/◌, ◌%◌, ◌^◌, ◌≤◌, ◌<◌, ◌≡◌, List, ◌++◌, length, ltb, if◌then◌else◌, arith, bit_and,
  bit_or,
}
use bacnet_go.Base.Bits.{bit_or_sum, bit_and_low}
use bacnet_go.Base.Int.{pos}
use bacnet_go.Go.{ok, index, slice_from, uint16, uint32}
use bacnet_go.Wire.Tag.{
  opening, closing, context, encode_tag, encode_opening_tag, encode_closing_tag, decode_tag_number,
}

-- The three fields of the first byte.
abbrev octet : ℕ → ℕ → ℕ → ℕ
octet number class low = number * 16 + class * 8 + low

first_byte :
    (number class low : ℕ)
    → number < 16
    → class < 2
    → low < 8
    → bit_or (bit_or (number * 2 ^ 4 % 256) (class * 2 ^ 3 % 256)) (low % 256)
      ≡ octet number class low
first_byte number class low hn hc hl =
    ground (arith, bit_or_sum 4 number (class * 2 ^ 3), bit_or_sum 3 (number * 2 + class) low)

extended_first_byte : (class : ℕ) → class < 2 → bit_or 0xF0 (class * 2 ^ 3 % 256) ≡ octet 15 class 0
extended_first_byte class hc = ground (arith, bit_or_sum 4 15 (class * 2 ^ 3))

constructed_byte :
    (number low : ℕ)
    → number < 16
    → low < 16
    → bit_or (number * 2 ^ 4 % 256) low ≡ number * 16 + low
constructed_byte number low hn hl = ground (arith, bit_or_sum 4 number low)

-- The reads of the fields.
read_number : (b : ℕ) → bit_and (b / 2 ^ 4) 0x0F ≡ b / 16 % 16
read_number b = bit_and_low 4 (b / 16)

read_class : (b : ℕ) → bit_and (b / 2 ^ 3) 0x01 ≡ b / 8 % 2
read_class b = bit_and_low 1 (b / 8)

read_low : (b : ℕ) → bit_and b 0x07 ≡ b % 8
read_low b = bit_and_low 3 b

-- For a tag number below 15 the decoder returns what was encoded, for every length that fits
-- 32 bits, and it looks at the header alone.
pub decode_tag_number-encode_tag :
    (number class len : ℕ) (rest : List ℕ)
    → number < 15
    → class < 2
    → len < 2 ^ 32
    → decode_tag_number (encode_tag number class len ++ rest)
      ≡ ok (record {
        number = number;
        class = class;
        length = pos len;
        header_len = length (encode_tag number class len);
      })
unfolding decode_tag_number encode_tag index slice_from uint16 uint32
decode_tag_number-encode_tag number class len rest hn hc hl = ground (
  arith,
  first_byte number class len,
  first_byte number class 5,
  read_number (octet number class len),
  read_class (octet number class len),
  read_low (octet number class len),
  read_number (octet number class 5),
  read_class (octet number class 5),
  read_low (octet number class 5),
)

-- The header that the encoder writes for a tag number from 15 to 255, of either class, has two octets
-- for a length below 5, three below 254, five below 65536 and seven from there on; but whatever
-- the length was, the decoder takes the first two octets for the header, and reads the length 0.
pub decode_tag_number-encode_tag_extended :
    (number class len : ℕ) (rest : List ℕ)
    → 15 ≤ number
    → number < 256
    → class < 2
    → (decode_tag_number (encode_tag number class len ++ rest)
        ≡ ok (record { number = number; class = class; length = pos 0; header_len = 2 }))
      × (length (encode_tag number class len)
          ≡ (if ltb len 5 then 2 else if ltb len 254 then 3 else if ltb len 65536 then 5 else 7))
unfolding decode_tag_number encode_tag index slice_from uint16 uint32
decode_tag_number-encode_tag_extended number class len rest hn hm hc = ground (
  arith,
  extended_first_byte class,
  read_number (octet 15 class 0),
  read_class (octet 15 class 0),
  read_low (octet 15 class 0),
)

pub decode_tag_number-encode_opening_tag :
    (number : ℕ) (rest : List ℕ)
    → number < 256
    → decode_tag_number (encode_opening_tag number ++ rest)
      ≡ ok (record {
        number = number;
        class = context;
        length = opening;
        header_len = length (encode_opening_tag number);
      })
unfolding decode_tag_number encode_opening_tag index slice_from uint16 uint32
decode_tag_number-encode_opening_tag number rest h = ground (
  arith,
  constructed_byte number 14,
  read_number (number * 16 + 14),
  read_class (number * 16 + 14),
  read_low (number * 16 + 14),
)

pub decode_tag_number-encode_closing_tag :
    (number : ℕ) (rest : List ℕ)
    → number < 256
    → decode_tag_number (encode_closing_tag number ++ rest)
      ≡ ok (record {
        number = number;
        class = context;
        length = closing;
        header_len = length (encode_closing_tag number);
      })
unfolding decode_tag_number encode_closing_tag index slice_from uint16 uint32
decode_tag_number-encode_closing_tag number rest h = ground (
  arith,
  constructed_byte number 15,
  read_number (number * 16 + 15),
  read_class (number * 16 + 15),
  read_low (number * 16 + 15),
)

pub encode_tag_nonempty : (number class len : ℕ) → 1 ≤ length (encode_tag number class len)
unfolding encode_tag
encode_tag_nonempty number class len = ground arith

-- Headers of one byte.
length-encode_tag_short :
    (number class len : ℕ) → number < 15 → len < 5 → length (encode_tag number class len) ≡ 1
unfolding encode_tag
length-encode_tag_short number class len hn hl = ground arith
