-- ===== src/Client/Request/Packet.antt =====
-- What a server reads in the datagram of a request.
use bacnet_go.Base.{ℕ, ◌+◌, ◌^◌, ◌<◌, ◌≡◌, true, List, ◌++◌, length, arith}
use bacnet_go.Client.Request.{request_packet}
use bacnet_go.Go.{ok, slice_from}
use bacnet_go.Wire.Apdu.{new_apdu, confirmed_request, encode_confirmed_request, decode_apdu}
use bacnet_go.Wire.Apdu.Laws.{decode_apdu-encode_confirmed_request}
use bacnet_go.Wire.Bvlc.{
  bacnet_ip, original_unicast_npdu, encode_bvlc, decode_bvlc, decode_bvlc-encode_bvlc,
}
use bacnet_go.Wire.Npdu.{new_npdu, encode_npdu, decode_npdu, expecting_reply}
use bacnet_go.Wire.Npdu.RoundTrip.{decode_npdu-encode_npdu}

bvlc-decodes :
    (invoke_id service : ℕ) (payload : List ℕ)
    → length (request_packet invoke_id service payload) < 2 ^ 16
    → decode_bvlc (request_packet invoke_id service payload)
      ≡ ok (record {
        type = bacnet_ip;
        function = original_unicast_npdu;
        length = length (request_packet invoke_id service payload);
      })
unfolding request_packet encode_bvlc encode_npdu encode_confirmed_request
bvlc-decodes invoke_id service payload h = ground (
  arith,
  decode_bvlc-encode_bvlc original_unicast_npdu
      (length (encode_npdu true 0)
        + length (encode_confirmed_request invoke_id service payload 0 5))
      (encode_npdu true 0 ++ encode_confirmed_request invoke_id service payload 0 5),
)

-- The three headers of the datagram of a request, read one behind the other: the BVLC length is the
-- length of the datagram, which has less than 2 ^ 16 bytes, the NPDU expects a reply, and the APDU
-- is the confirmed request with its invoke id, service and parameters.
pub request_packet-decodes :
    (invoke_id service : ℕ) (payload : List ℕ)
    → length (request_packet invoke_id service payload) < 2 ^ 16
    → (decode_bvlc (request_packet invoke_id service payload)
        ≡ ok (record {
          type = bacnet_ip;
          function = original_unicast_npdu;
          length = length (request_packet invoke_id service payload);
        }))
      × (npdu : List ℕ) × (apdu : List ℕ) × (slice_from (request_packet invoke_id service payload) 4
          ≡ ok npdu)
      × (decode_npdu npdu ≡ ok (record (new_npdu 1 expecting_reply) { payload = apdu }, 2))
      × (decode_apdu apdu
          ≡ ok (record (new_apdu confirmed_request invoke_id service payload) { max_apdu = 5 }))
unfolding request_packet
request_packet-decodes invoke_id service payload h =
    let apdu = encode_confirmed_request invoke_id service payload 0 5 in
    let npdu = encode_npdu true 0 in
    (
      bvlc-decodes invoke_id service payload h,
      npdu ++ apdu,
      apdu,
      unfold encode_bvlc slice_from in ground arith,
      decode_npdu-encode_npdu true 0 apdu (omega arith),
      decode_apdu-encode_confirmed_request invoke_id service payload 0 5 (omega arith)
          (omega arith),
    )
