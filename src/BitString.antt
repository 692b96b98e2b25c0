-- ===== src/BitString.antt =====
-- bitstring.go: bits packed from the high end of each byte, with the count of unused ones.
pub mod Laws
pub mod FromBits
pub mod OneBit
pub mod Text
use bacnet_go.Base.{
  ℕ, zero, suc, ◌+◌, ◌-◌, ◌*◌, ◌/◌, ◌%◌, ◌^◌, Bool, true, false, not, ◌&&◌, List, [], ◌∷◌, ltb,
  ◌==◌, if◌then◌else◌, length, get_or, replicate, bit_and, bit_or,
}
use bacnet_go.Base.Int.{ℤ, pos, negsuc}
use bacnet_go.Errors.{invalid_response}
use bacnet_go.Go.{Result, ok, panic, fail, ◌>>=◌, index, slice_from, make_bytes}
use bacnet_go.Wire.ApplicationTag
use bacnet_go.Wire.Number.{application_tagged}

pub record BitString : Type 0 where
  pub unused_bits : ℕ
  pub bytes : List ℕ

-- `a - b` as a Go int.
abbrev int_sub : ℕ → ℕ → ℤ
int_sub a b = if ltb a b then negsuc (b - a - 1) else pos (a - b)

-- `Len`, which is negative when `UnusedBits` is more than the bits there are.
unfoldable pub len : BitString → ℤ
len b = if length b.bytes == 0 then pos 0 else int_sub (length b.bytes * 8) b.unused_bits

abbrev below : ℕ → ℤ → Bool
below i (pos n) = ltb i n
below i (negsuc n) = false

-- The mask `0x80 >> uint(i%8)`.
abbrev pub bit_mask : ℕ → ℕ
bit_mask i = 0x80 / 2 ^ (i % 8)

unfoldable pub bit : BitString → ℤ → Result Bool
bit b (negsuc i) = ok false
bit b (pos i) =
    if not (below i (len b))
    then ok false
    else do octet ← index b.bytes (i / 8); ok (not (bit_and octet (bit_mask i) == 0))

pub record StatusFlags : Type 0 where
  pub in_alarm : Bool
  pub fault : Bool
  pub overridden : Bool
  pub out_of_service : Bool

unfoldable pub status_flags : BitString → Result StatusFlags
status_flags b = do
  in_alarm ← bit b (pos 0)
  fault ← bit b (pos 1)
  overridden ← bit b (pos 2)
  out_of_service ← bit b (pos 3)
  ok (record {
    in_alarm = in_alarm;
    fault = fault;
    overridden = overridden;
    out_of_service = out_of_service;
  })

-- `DecodeStatusFlags` of types.go, which reads the low four bits of one byte.
unfoldable pub decode_status_flags : ℕ → StatusFlags
decode_status_flags b = record {
  in_alarm = not (bit_and b 0x08 == 0);
  fault = not (bit_and b 0x04 == 0);
  overridden = not (bit_and b 0x02 == 0);
  out_of_service = not (bit_and b 0x01 == 0);
}

unfoldable pub decode_bit_string : List ℕ → Result BitString
decode_bit_string payload = if length payload == 0 then fail invalid_response else do
  unused ← index payload 0
  if ltb 7 unused
      then fail invalid_response
      else if length payload == 1 && not (unused == 0)
      then fail invalid_response
      else do bytes ← slice_from payload 1; ok (record { unused_bits = unused; bytes = bytes })

unfoldable pub encode_bit_string : BitString → List ℕ
encode_bit_string b = b.unused_bits ∷ b.bytes

unfoldable pub encode_bit_string_tag : BitString → List ℕ
encode_bit_string_tag b = application_tagged ApplicationTag.bit_string (encode_bit_string b)

-- `out.Bytes[k] |= mask`
unfoldable pub or_at : List ℕ → ℕ → ℕ → Result (List ℕ)
or_at [] k mask = panic
or_at (x ∷ xs) zero mask = ok (bit_or x mask ∷ xs)
or_at (x ∷ xs) (suc k) mask = do ys ← or_at xs k mask; ok (x ∷ ys)

-- The loop over `bits`, at index `i`.
unfoldable pub set_bits : ℕ → List Bool → List ℕ → Result (List ℕ)
set_bits i [] bytes = ok bytes
set_bits i (v ∷ vs) bytes = do
  bytes' ← if v then or_at bytes (i / 8) (bit_mask i) else ok bytes
  set_bits (i + 1) vs bytes'

unfoldable pub new_bit_string_from_bits : List Bool → Result BitString
new_bit_string_from_bits bits =
    if length bits == 0 then ok (record { unused_bits = 0; bytes = [] }) else (do
      let count = (length bits + 7) / 8
      bytes ← set_bits 0 bits (make_bytes count)
      ok (record { unused_bits = (count * 8 - length bits) % 256; bytes = bytes }))
