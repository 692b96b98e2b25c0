-- ===== src/Tests/Client.antt =====
-- The client at concrete inputs.
use bacnet_go.Base.{ℕ, ◌≡◌, refl, List, [], ◌∷◌, length, arith}
use bacnet_go.Base.Map.{lookup}
use bacnet_go.Client.{new_client}
use bacnet_go.Client.Invariant.{IsSafe}
use bacnet_go.Client.Receive.{handle_packet}
use bacnet_go.Client.Receive.After.{After}
use bacnet_go.Client.Receive.Safe.{handle_packet-After}
use bacnet_go.Client.Request.{open_request, next_invoke_id, request_packet}
use bacnet_go.Client.Request.Packet.{request_packet-decodes}
use bacnet_go.Client.Request.Reply.{call_of}
use bacnet_go.Go.{Succeeds, ok, slice_from}
use bacnet_go.Wire.Apdu.{
  Apdu, encode_confirmed_request, new_apdu, complex_ack, confirmed_request, decode_apdu,
}
use bacnet_go.Wire.Bvlc.{encode_bvlc, bacnet_ip, original_unicast_npdu, decode_bvlc}
use bacnet_go.Wire.Npdu.{encode_npdu, new_npdu, expecting_reply, decode_npdu}

new_client-IsSafe : IsSafe new_client
unfolding lookup
new_client-IsSafe = record {
  waits_open = λ id ref e. ground arith;
  fresh = λ id ref e. ground arith;
}

-- A response that nobody waits for.
handle_packet-After_example :
    Succeeds
      (handle_packet
        (0x81 ∷ 0x0A ∷ 0 ∷ 9 ∷ 1 ∷ 0 ∷ 0x20 ∷ 7 ∷ 15 ∷ [])
        (10 ∷ 0 ∷ 0 ∷ 1 ∷ [])
        new_client)
      (After new_client)
handle_packet-After_example =
    handle_packet-After (0x81 ∷ 0x0A ∷ 0 ∷ 9 ∷ 1 ∷ 0 ∷ 0x20 ∷ 7 ∷ 15 ∷ []) (10 ∷ 0 ∷ 0 ∷ 1 ∷ [])
      new_client new_client-IsSafe

request_packet-decodes_example :
    (decode_bvlc (request_packet 1 12 (1 ∷ 2 ∷ []))
      ≡ ok (record {
        type = bacnet_ip;
        function = original_unicast_npdu;
        length = length (request_packet 1 12 (1 ∷ 2 ∷ []));
      }))
    × (npdu : List ℕ) × (apdu : List ℕ) × (slice_from (request_packet 1 12 (1 ∷ 2 ∷ [])) 4
        ≡ ok npdu)
    × (decode_npdu npdu ≡ ok (record (new_npdu 1 expecting_reply) { payload = apdu }, 2))
    × (decode_apdu apdu
        ≡ ok (record (new_apdu confirmed_request 1 12 (1 ∷ 2 ∷ [])) { max_apdu = 5 }))
request_packet-decodes_example =
    request_packet-decodes 1 12 (1 ∷ 2 ∷ [])
      (unfold request_packet encode_bvlc encode_npdu encode_confirmed_request in omega arith)

abbrev response : ℕ → Apdu
response invoke_id = new_apdu complex_ack invoke_id 12 []

invoke_id_one : (call_of 12 [] new_client).invoke_id ≡ 1
unfolding open_request next_invoke_id
invoke_id_one = refl
