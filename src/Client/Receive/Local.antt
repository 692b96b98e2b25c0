-- ===== src/Client/Receive/Local.antt =====
-- A datagram from the local network, with no addresses in its NPDU.
use bacnet_go.Base.{
  ℕ, ◌+◌, ◌≡◌, ◌≢◌, false, drop, drop_prefix, length-append, List, ◌++◌, length, arith,
}
use bacnet_go.Client.{Client}
use bacnet_go.Client.Receive.{handle_apdu, handle_npdu, handle_packet}
use bacnet_go.Go.{ok, slice_from}
use bacnet_go.Wire.Bvlc.{
  original_broadcast_npdu, forwarded_npdu, encode_bvlc, decode_bvlc-encode_bvlc,
}
use bacnet_go.Wire.Npdu.{new_npdu, encode_npdu}
use bacnet_go.Wire.Npdu.RoundTrip.{decode_npdu-encode_npdu}

abbrev pub local_packet : ℕ → List ℕ → List ℕ
local_packet function apdu =
    let npdu = encode_npdu false 0 in
    encode_bvlc function (length npdu + length apdu) ++ (npdu ++ apdu)

handle_npdu-local :
    (apdu sender : List ℕ) (c : Client)
    → handle_npdu (encode_npdu false 0 ++ apdu) sender c
      ≡ handle_apdu apdu sender (record (new_npdu 1 0) { payload = apdu }) c
unfolding handle_npdu
handle_npdu-local apdu sender c =
    let apdu_bytes : slice_from (encode_npdu false 0 ++ apdu) 2 ≡ ok apdu =
      unfold slice_from encode_npdu in ground arith in
    ground (arith, decode_npdu-encode_npdu false 0 apdu (omega arith), apdu_bytes)

behind_bvlc :
    (function size : ℕ) (rest : List ℕ) → slice_from (encode_bvlc function size ++ rest) 4 ≡ ok rest
unfolding slice_from encode_bvlc
behind_bvlc function size rest = ground arith

-- It reaches the application layer as it was sent.
pub handle_packet-local :
    (function : ℕ) (apdu sender : List ℕ) (c : Client)
    → function ≢ forwarded_npdu
    → handle_packet (local_packet function apdu) sender c
      ≡ handle_apdu apdu sender (record (new_npdu 1 0) { payload = apdu }) c
unfolding handle_packet
handle_packet-local function apdu sender c h =
    let npdu = encode_npdu false 0 in
    let size = length npdu + length apdu in
    ground (
      arith,
      decode_bvlc-encode_bvlc function size (npdu ++ apdu),
      behind_bvlc function size (npdu ++ apdu),
      handle_npdu-local apdu sender c,
    )

-- A message, an NPDU with what it carries, as its sender broadcasts it.
abbrev pub broadcast_packet : List ℕ → List ℕ
broadcast_packet message = encode_bvlc original_broadcast_npdu (length message) ++ message

-- The datagram of a BBMD: the address that the message came from stands behind the BVLC header.
abbrev pub forwarded_packet : List ℕ → List ℕ → List ℕ
forwarded_packet origin message =
    encode_bvlc forwarded_npdu (length origin + length message) ++ (origin ++ message)

-- A message that a BBMD forwards, whatever its bytes, is handled as if the BBMD itself had broadcast it:
-- the address of its origin, six bytes, is not looked at.
pub handle_packet-forwarded :
    (origin message sender : List ℕ) (c : Client)
    → length origin ≡ 6
    → handle_packet (forwarded_packet origin message) sender c
      ≡ handle_packet (broadcast_packet message) sender c
unfolding handle_packet
handle_packet-forwarded origin message sender c h =
    let size = length origin + length message in
    let whole : drop 6 (origin ++ message) ≡ message = rw h at (drop_prefix origin message) in
    let inside : slice_from (origin ++ message) 6 ≡ ok message =
      unfold slice_from in ground (arith, length-append origin message, whole) in
    ground (
      arith,
      decode_bvlc-encode_bvlc forwarded_npdu size (origin ++ message),
      decode_bvlc-encode_bvlc original_broadcast_npdu (length message) message,
      behind_bvlc forwarded_npdu size (origin ++ message),
      behind_bvlc original_broadcast_npdu (length message) message,
      inside,
      length-append origin message,
    )
