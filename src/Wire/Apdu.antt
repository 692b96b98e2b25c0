-- ===== src/Wire/Apdu.antt =====
-- protocol.go: the application layer header. Each PDU type has a decoder of its own.
pub mod Laws
use bacnet_go.Base.{
  ℕ, ◌%◌, Bool, true, false, not, List, [], ◌∷◌, ◌++◌, ltb, ◌==◌, if◌then◌else◌, length, bit_and,
  bit_or,
}
use bacnet_go.Base.Bits.{◌<<<◌, ◌>>>◌}
use bacnet_go.Errors.{invalid_apdu, sentinel, wrapped, unknown_pdu_type}
use bacnet_go.Go.{Result, ok, err, panic, fail, ◌>>=◌, index, slice_from}

pub record Apdu : Type 0 where
  pub type : ℕ
  pub segmented : Bool
  pub more_follows : Bool
  pub segmented_ack : Bool
  pub max_segments : ℕ
  pub max_apdu : ℕ
  pub invoke_id : ℕ
  pub sequence_num : ℕ
  pub window_size : ℕ
  pub service : ℕ
  pub payload : List ℕ

-- `PDUType`
abbrev pub confirmed_request : ℕ
confirmed_request = 0x00

abbrev pub unconfirmed_request : ℕ
unconfirmed_request = 0x10

abbrev pub simple_ack : ℕ
simple_ack = 0x20

abbrev pub complex_ack : ℕ
complex_ack = 0x30

abbrev pub error_pdu : ℕ
error_pdu = 0x50

abbrev pub reject_pdu : ℕ
reject_pdu = 0x60

abbrev pub abort_pdu : ℕ
abort_pdu = 0x70

-- A Go struct literal that sets these four fields and leaves the others zero.
abbrev pub new_apdu : ℕ → ℕ → ℕ → List ℕ → Apdu
new_apdu type invoke_id service payload = record {
  type = type;
  segmented = false;
  more_follows = false;
  segmented_ack = false;
  max_segments = 0;
  max_apdu = 0;
  invoke_id = invoke_id;
  sequence_num = 0;
  window_size = 0;
  service = service;
  payload = payload;
}

unfoldable pub encode_confirmed_request : ℕ → ℕ → List ℕ → ℕ → ℕ → List ℕ
encode_confirmed_request invoke_id service payload max_segments max_apdu =
    confirmed_request ∷ bit_or ((max_segments <<< 4) % 256) max_apdu ∷ invoke_id ∷ service ∷ payload

unfoldable pub encode_unconfirmed_request : ℕ → List ℕ → List ℕ
encode_unconfirmed_request service payload = unconfirmed_request ∷ service ∷ payload

abbrev has_bit : ℕ → ℕ → Bool
has_bit octet flag = not (bit_and octet flag == 0)

unfoldable pub decode_confirmed_request : List ℕ → Result Apdu
decode_confirmed_request bytes = if ltb (length bytes) 4 then fail invalid_apdu else do
  first ← index bytes 0
  second ← index bytes 1
  invoke_id ← index bytes 2
  service ← index bytes 3
  payload ← slice_from bytes 4
  let apdu = record (new_apdu confirmed_request invoke_id service payload) {
    segmented = has_bit first 0x08;
    more_follows = has_bit first 0x04;
    max_segments = bit_and (second >>> 4) 0x07;
    max_apdu = bit_and second 0x0F;
  }
  if apdu.segmented
      then (if ltb (length bytes) 6 then fail invalid_apdu else do
        sequence_num ← index bytes 4
        window_size ← index bytes 5
        rest ← slice_from bytes 6
        ok (record apdu { sequence_num = sequence_num; window_size = window_size; payload = rest }))
      else ok apdu

unfoldable pub decode_unconfirmed_request : List ℕ → Result Apdu
decode_unconfirmed_request bytes = if ltb (length bytes) 2 then fail invalid_apdu else do
  service ← index bytes 1
  payload ← slice_from bytes 2
  ok (new_apdu unconfirmed_request 0 service payload)

-- `decodeSimpleAck`, `decodeRejectAPDU` and `decodeAbortAPDU` read the same two bytes; the reason
-- of a reject or an abort stands in the service field.
abbrev two_fields : ℕ → List ℕ → Result Apdu
two_fields type bytes = if ltb (length bytes) 3 then fail invalid_apdu else do
  invoke_id ← index bytes 1
  service ← index bytes 2
  ok (new_apdu type invoke_id service [])

unfoldable pub decode_simple_ack : List ℕ → Result Apdu
decode_simple_ack bytes = two_fields simple_ack bytes

unfoldable pub decode_reject_apdu : List ℕ → Result Apdu
decode_reject_apdu bytes = two_fields reject_pdu bytes

unfoldable pub decode_abort_apdu : List ℕ → Result Apdu
decode_abort_apdu bytes = two_fields abort_pdu bytes

unfoldable pub decode_complex_ack : List ℕ → Result Apdu
decode_complex_ack bytes = if ltb (length bytes) 3 then fail invalid_apdu else do
  first ← index bytes 0
  invoke_id ← index bytes 1
  service ← index bytes 2
  payload ← slice_from bytes 3
  let apdu = record (new_apdu complex_ack invoke_id service payload) {
    segmented = has_bit first 0x08;
    more_follows = has_bit first 0x04;
  }
  if apdu.segmented
      then (if ltb (length bytes) 5 then fail invalid_apdu else do
        sequence_num ← index bytes 3
        window_size ← index bytes 4
        rest ← slice_from bytes 5
        ok (record apdu { sequence_num = sequence_num; window_size = window_size; payload = rest }))
      else ok apdu

unfoldable pub decode_error_apdu : List ℕ → Result Apdu
decode_error_apdu bytes = if ltb (length bytes) 3 then fail invalid_apdu else do
  invoke_id ← index bytes 1
  service ← index bytes 2
  payload ← slice_from bytes 3
  ok (new_apdu error_pdu invoke_id service payload)

-- The switch over the PDU type; a segment ack (0x40) falls to the default.
unfoldable pub decode_apdu : List ℕ → Result Apdu
decode_apdu bytes = if ltb (length bytes) 1 then fail invalid_apdu else do
  first ← index bytes 0
  let type = bit_and first 0xF0
  if type == confirmed_request
      then decode_confirmed_request bytes
      else if type == unconfirmed_request
      then decode_unconfirmed_request bytes
      else if type == simple_ack
      then decode_simple_ack bytes
      else if type == complex_ack
      then decode_complex_ack bytes
      else if type == error_pdu
      then decode_error_apdu bytes
      else if type == reject_pdu
      then decode_reject_apdu bytes
      else if type == abort_pdu
      then decode_abort_apdu bytes
      else err (wrapped (unknown_pdu_type type) (sentinel invalid_apdu))
