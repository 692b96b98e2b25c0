-- ===== src/BitString/Laws.antt =====
-- Reading bits never leaves the bytes, and the payload comes back from its encoding.
use bacnet_go.Base.{
  ℕ, ◌+◌, ◌*◌, ◌/◌, ◌≤◌, ◌≡◌, ◌⊎◌, Bool, false, not, List, [], ◌∷◌, ltb, ◌==◌, if◌then◌else◌,
  length, get_or, arith, bit_and,
}
use bacnet_go.Base.Int.{ℤ, pos, negsuc}
use bacnet_go.Go.{ok, Ensures, index, slice_from}
use bacnet_go.BitString.{
  BitString, len, bit, bit_mask, status_flags, decode_bit_string, encode_bit_string,
}

-- The value of a bit: false out of range, and else what the mask finds.
abbrev bit_value : BitString → ℤ → Bool
bit_value b (negsuc i) = false
bit_value b (pos i) =
    if ltb (i + b.unused_bits) (length b.bytes * 8)
    then not (bit_and (get_or b.bytes (i / 8) 0) (bit_mask i) == 0)
    else false

-- `Bit` never panics: for every bit string and every index it returns false out of range, and
-- inside it the bit under the mask of its byte.
pub bit-bit_value : (b : BitString) (i : ℤ) → bit b i ≡ ok (bit_value b i)
unfolding bit len index
bit-bit_value b (negsuc i) = ground arith
bit-bit_value b (pos i) = ground arith

status_flags-ok :
    (b : BitString)
    → status_flags b
      ≡ ok (record {
        in_alarm = bit_value b (pos 0);
        fault = bit_value b (pos 1);
        overridden = bit_value b (pos 2);
        out_of_service = bit_value b (pos 3);
      })
unfolding status_flags
status_flags-ok b = rw (
  bit-bit_value b (pos 0),
  bit-bit_value b (pos 1),
  bit-bit_value b (pos 2),
  bit-bit_value b (pos 3),
)

-- What `DecodeBitString` accepts: the count fits the bytes.
abbrev pub IsBitString : BitString → Type 0
IsBitString b = (b.unused_bits ≤ 7) × ((1 ≤ length b.bytes) ⊎ (b.unused_bits ≡ 0))

-- `DecodeBitString` never panics, and what it accepts is well formed and encodes to its payload.
pub decode_bit_string-IsBitString :
    (payload : List ℕ)
    → Ensures (decode_bit_string payload) (λ b. IsBitString b × (encode_bit_string b ≡ payload))
unfolding decode_bit_string encode_bit_string index slice_from
decode_bit_string-IsBitString [] = ground arith
decode_bit_string-IsBitString (x ∷ xs) = ground arith

decode_bit_string-encode_bit_string :
    (b : BitString) → IsBitString b → decode_bit_string (encode_bit_string b) ≡ ok b
unfolding decode_bit_string encode_bit_string index slice_from
decode_bit_string-encode_bit_string b h = ground arith
