-- ===== src/Types/ObjectId.antt =====
-- types.go: `ObjectIdentifier` and its 32-bit form.
use bacnet_go.Base.{ℕ, ◌*◌, ◌/◌, ◌%◌, ◌^◌, ◌<◌, ◌≡◌, ◌+◌, arith, bit_and, bit_or}
use bacnet_go.Base.Bits.{◌<<<◌, ◌>>>◌, bit_or_sum, bit_and_low}

pub record ObjectIdentifier : Type 0 where
  pub type : ℕ
  pub instance_number : ℕ

abbrev pub new_object_identifier : ℕ → ℕ → ObjectIdentifier
new_object_identifier type instance_number = record {
  type = type;
  instance_number = instance_number;
}

-- `ObjectTypeDevice`
abbrev pub device_type : ℕ
device_type = 8

unfoldable pub encode : ObjectIdentifier → ℕ
encode o = bit_or ((o.type <<< 22) % 2 ^ 32) (bit_and o.instance_number 0x3FFFFF)

unfoldable pub decode_object_identifier : ℕ → ObjectIdentifier
decode_object_identifier value = record {
  type = bit_and (value >>> 22) 0x3FF;
  instance_number = bit_and value 0x3FFFFF;
}

-- `Encode` and `DecodeObjectIdentifier` as arithmetic.
encode_sum :
    (o : ObjectIdentifier) → encode o ≡ o.type % 1024 * 4194304 + o.instance_number % 4194304
unfolding encode
encode_sum o = omega (
  arith,
  bit_and_low 22 o.instance_number,
  bit_or_sum 22 (o.type % 1024) (o.instance_number % 2 ^ 22),
  mod_shift,
)
  where
    mod_shift :
        bit_or (o.type * 2 ^ 22 % 2 ^ 32) (bit_and o.instance_number 0x3FFFFF)
        ≡ bit_or (o.type % 1024 * 2 ^ 22) (o.instance_number % 2 ^ 22)
    mod_shift = ground (arith, bit_and_low 22 o.instance_number)

pub encode-lt : (o : ObjectIdentifier) → encode o < 2 ^ 32
encode-lt o = omega (arith, encode_sum o)

-- The 32-bit form keeps 10 bits of the type and 22 bits of the instance number, and no more.
decode-encode :
    (o : ObjectIdentifier)
    → decode_object_identifier (encode o)
      ≡ new_object_identifier (o.type % 2 ^ 10) (o.instance_number % 2 ^ 22)
unfolding decode_object_identifier
decode-encode o =
    ground (arith, encode_sum o, bit_and_low 10 (encode o / 2 ^ 22), bit_and_low 22 (encode o))

-- An identifier that fits its fields comes back whole.
abbrev pub IsIdentifier : ObjectIdentifier → Type 0
IsIdentifier o = (o.type < 2 ^ 10) × (o.instance_number < 2 ^ 22)

pub decode-encode_self :
    (o : ObjectIdentifier) → IsIdentifier o → decode_object_identifier (encode o) ≡ o
decode-encode_self o h = rw decode-encode (ground arith)

-- Every 32-bit value is the form of the identifier that it decodes to.
encode-decode : (v : ℕ) → v < 2 ^ 32 → encode (decode_object_identifier v) ≡ v
unfolding decode_object_identifier
encode-decode v h = omega (arith, encode_sum _, bit_and_low 10 (v / 2 ^ 22), bit_and_low 22 v)
