-- ===== src/Wire/Apdu/Laws.antt =====
-- `DecodeAPDU` on any bytes, and on what the encoders write.
use bacnet_go.Base.{
  ℕ, ◌+◌, ◌*◌, ◌/◌, ◌%◌, ◌≤◌, ◌<◌, ◌≡◌, List, [], ◌∷◌, length, length-drop, arith, get_or, bit_and,
}
use bacnet_go.Base.Bits.{bit_or_sum, bit_and_low, bit_and_high}
use bacnet_go.Go.{ok, index, slice_from, Ensures}
use bacnet_go.Wire.Apdu.{
  Apdu, new_apdu, confirmed_request, unconfirmed_request, error_pdu, reject_pdu, abort_pdu,
  complex_ack, simple_ack, encode_confirmed_request, encode_unconfirmed_request,
  decode_confirmed_request, decode_unconfirmed_request, decode_simple_ack, decode_complex_ack,
  decode_error_apdu, decode_reject_apdu, decode_abort_apdu, decode_apdu,
}

-- The type is that of the first byte, and the payload is a tail of the bytes behind the fixed fields.
pub record IsDecoded (bytes : List ℕ) (a : Apdu) : Type 0 where
  pub type_bits : a.type ≡ bit_and (get_or bytes 0 0) 0xF0
  pub shorter : length a.payload + 2 ≤ length bytes

-- `DecodeAPDU` does not panic on any bytes; what it returns has the type of the first byte, and a
-- payload that is at least two bytes shorter than its input.
pub decode_apdu-IsDecoded : (bytes : List ℕ) → Ensures (decode_apdu bytes) (IsDecoded bytes)
unfolding decode_apdu decode_confirmed_request decode_unconfirmed_request decode_simple_ack
    decode_complex_ack decode_error_apdu decode_reject_apdu decode_abort_apdu index slice_from
decode_apdu-IsDecoded bytes = ground (
  arith,
  length-drop 2 bytes,
  length-drop 3 bytes,
  length-drop 4 bytes,
  length-drop 5 bytes,
  length-drop 6 bytes,
)

high_nibble : (b : ℕ) → bit_and b 0xF0 ≡ b / 16 % 16 * 16
high_nibble b = omega (arith, bit_and_high 4 b 15, bit_and_low 4 (b / 16))

-- A confirmed request comes back with its invoke id, service, payload and limits, if the limits fit
-- their 3 and 4 bits.
pub decode_apdu-encode_confirmed_request :
    (invoke_id service : ℕ) (payload : List ℕ) (max_segments max_apdu : ℕ)
    → max_segments < 8
    → max_apdu < 16
    → decode_apdu (encode_confirmed_request invoke_id service payload max_segments max_apdu)
      ≡ ok (record (new_apdu confirmed_request invoke_id service payload) {
        max_segments = max_segments;
        max_apdu = max_apdu;
      })
unfolding decode_apdu encode_confirmed_request decode_confirmed_request index slice_from
decode_apdu-encode_confirmed_request invoke_id service payload max_segments max_apdu hs ha =
    ground (
      arith,
      bit_or_sum 4 max_segments max_apdu,
      bit_and_low 3 ((max_segments * 16 + max_apdu) / 16),
      bit_and_low 4 (max_segments * 16 + max_apdu),
    )

pub decode_apdu-encode_unconfirmed_request :
    (service : ℕ) (payload : List ℕ)
    → decode_apdu (encode_unconfirmed_request service payload)
      ≡ ok (new_apdu unconfirmed_request 0 service payload)
unfolding decode_apdu encode_unconfirmed_request decode_unconfirmed_request index slice_from
decode_apdu-encode_unconfirmed_request service payload = ground arith

-- An unsegmented acknowledgement, as a server writes one.
pub decode_apdu-complex_ack :
    (invoke_id service : ℕ) (payload : List ℕ)
    → decode_apdu (0x30 ∷ invoke_id ∷ service ∷ payload)
      ≡ ok (new_apdu complex_ack invoke_id service payload)
unfolding decode_apdu decode_complex_ack index slice_from
decode_apdu-complex_ack invoke_id service payload = ground arith

-- The same for a simple acknowledgement, an error, a reject and an abort.
pub decode_apdu-simple_ack :
    (invoke_id service : ℕ)
    → decode_apdu (0x20 ∷ invoke_id ∷ service ∷ []) ≡ ok (new_apdu simple_ack invoke_id service [])
unfolding decode_apdu decode_simple_ack index
decode_apdu-simple_ack invoke_id service = ground arith

pub decode_apdu-error_pdu :
    (invoke_id service : ℕ) (payload : List ℕ)
    → decode_apdu (0x50 ∷ invoke_id ∷ service ∷ payload)
      ≡ ok (new_apdu error_pdu invoke_id service payload)
unfolding decode_apdu decode_error_apdu index slice_from
decode_apdu-error_pdu invoke_id service payload = ground arith

pub decode_apdu-reject_pdu :
    (invoke_id reason : ℕ)
    → decode_apdu (0x60 ∷ invoke_id ∷ reason ∷ []) ≡ ok (new_apdu reject_pdu invoke_id reason [])
unfolding decode_apdu decode_reject_apdu index
decode_apdu-reject_pdu invoke_id reason = ground arith

pub decode_apdu-abort_pdu :
    (invoke_id reason : ℕ)
    → decode_apdu (0x70 ∷ invoke_id ∷ reason ∷ []) ≡ ok (new_apdu abort_pdu invoke_id reason [])
unfolding decode_apdu decode_abort_apdu index
decode_apdu-abort_pdu invoke_id reason = ground arith
