-- ===== src/Wire/Number/RoundTrip.antt =====
-- The numeric payloads come back from their encodings.
use bacnet_go.Base.{
  ℕ, ◌+◌, ◌-◌, ◌*◌, ◌/◌, ◌%◌, ◌^◌, ◌≤◌, ◌<◌, ◌≡◌, List, length, get_or, All, get_or_lem, arith,
  bit_or,
}
use Prim.Native.Nat.{max}
use bacnet_go.Base.Bits.{bit_or_sum, bit_or_sum_right, bit_and_bit}
use bacnet_go.Base.Int.{ℤ, pos, negsuc, IsInt32}
use bacnet_go.Go.{IsByte}
use bacnet_go.Types.ObjectId
use bacnet_go.Types.ObjectId.{ObjectIdentifier, IsIdentifier, decode_object_identifier}
use bacnet_go.Wire.Number.{
  encode_unsigned, decode_unsigned, encode_signed, decode_signed, encode_real, decode_real,
  encode_double, decode_double, encode_object_identifier, decode_object_identifier_from_bytes,
}

pub three_bytes_sum :
    (a b c : ℕ)
    → b < 256
    → c < 256
    → bit_or (bit_or (a * 2 ^ 16) (b * 2 ^ 8)) c ≡ a * 2 ^ 16 + b * 2 ^ 8 + c
three_bytes_sum a b c hb hc =
    ground (arith, bit_or_sum 16 a (b * 2 ^ 8), bit_or_sum 8 (a * 2 ^ 8 + b) c)

-- Every uint32 comes back, from 1 to 4 bytes, as few as hold it.
pub decode_unsigned-encode_unsigned :
    (v : ℕ)
    → v < 2 ^ 32
    → (decode_unsigned (encode_unsigned v) ≡ v)
      × (1 ≤ length (encode_unsigned v))
      × (length (encode_unsigned v) ≤ 4)
      × (v < 2 ^ (8 * length (encode_unsigned v)))
      × (2 ^ (8 * (length (encode_unsigned v) - 1)) ≤ max v 1)
unfolding decode_unsigned encode_unsigned
decode_unsigned-encode_unsigned v h =
    ground (arith, three_bytes_sum (v / 2 ^ 16 % 256) (v / 2 ^ 8 % 256) (v % 256))

-- Every int32 comes back from its two's complement, of 1 to 4 bytes.
pub decode_signed-encode_signed :
    (v : ℤ)
    → IsInt32 v
    → (decode_signed (encode_signed v) ≡ v)
      × (1 ≤ length (encode_signed v))
      × (length (encode_signed v) ≤ 4)
unfolding decode_signed encode_signed
decode_signed-encode_signed (pos n) h = ground (
  arith,
  three_bytes_sum (n / 2 ^ 16 % 256) (n / 2 ^ 8 % 256) (n % 256),
  bit_and_bit 7 (n / 2 ^ 16 % 256),
)
decode_signed-encode_signed (negsuc n) h = ground (
  arith,
  three_bytes_sum (255 - n / 2 ^ 16 % 256) (255 - n / 2 ^ 8 % 256) (255 - n % 256),
  bit_and_bit 7 (255 - n / 2 ^ 16 % 256),
  bit_or_sum_right 24 255
      ((255 - n / 2 ^ 16 % 256) * 2 ^ 16 + (255 - n / 2 ^ 8 % 256) * 2 ^ 8 + (255 - n % 256)),
)

-- The bit patterns of both float widths come back.
pub decode_real-encode_real : (bits : ℕ) → bits < 2 ^ 32 → decode_real (encode_real bits) ≡ bits
unfolding decode_real encode_real
decode_real-encode_real bits h = omega arith

pub decode_double-encode_double :
    (bits : ℕ) → bits < 2 ^ 64 → decode_double (encode_double bits) ≡ bits
unfolding decode_double encode_double
decode_double-encode_double bits h = omega arith

decode_object_identifier_from_bytes-encode_object_identifier :
    (o : ObjectIdentifier)
    → IsIdentifier o
    → decode_object_identifier_from_bytes (encode_object_identifier o) ≡ o
unfolding decode_object_identifier_from_bytes encode_object_identifier
decode_object_identifier_from_bytes-encode_object_identifier o h =
    ground (arith, ObjectId.encode-lt o, ObjectId.decode-encode_self o h)

-- Four bytes or fewer never exceed a uint32.
pub decode_unsigned-lt : (bytes : List ℕ) → All IsByte bytes → decode_unsigned bytes < 2 ^ 32
unfolding decode_unsigned
decode_unsigned-lt bytes h = ground (
  arith,
  get_or_lem IsByte bytes 0 0 h (omega arith),
  get_or_lem IsByte bytes 1 0 h (omega arith),
  get_or_lem IsByte bytes 2 0 h (omega arith),
  get_or_lem IsByte bytes 3 0 h (omega arith),
  three_bytes_sum (get_or bytes 0 0) (get_or bytes 1 0) (get_or bytes 2 0),
)
