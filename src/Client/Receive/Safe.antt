-- ===== src/Client/Receive/Safe.antt =====
-- `handlePacket` on any datagram.
use bacnet_go.Base.{
  ℕ, ◌+◌, refl, List, inl, inr, length, length-drop, length-take, le_or_lt, drop, arith,
}
use bacnet_go.Client.{Client}
use bacnet_go.Client.Invariant.{IsSafe}
use bacnet_go.Client.Receive.{
  handle_apdu, read_i_am_fields, read_i_am, handle_i_am, handle_cov_notification,
  handle_unconfirmed_request, dispatch, handle_npdu, handle_packet,
}
use bacnet_go.Go.{slice-uint32, slice_from-ok, Succeeds, slice_from, slice, index, uint16}
use bacnet_go.Metrics.{inc}
use bacnet_go.Response.Fields.{read_unsigned_tag}
use bacnet_go.Response.Fields.Total.{read_unsigned_tag-Within}
use bacnet_go.Types.ObjectId.{ObjectIdentifier, decode_object_identifier}
use bacnet_go.Wire.Apdu.{Apdu, decode_apdu}
use bacnet_go.Wire.Apdu.Laws.{decode_apdu-IsDecoded}
use bacnet_go.Wire.Bvlc.{decode_bvlc}
use bacnet_go.Wire.Npdu.{Npdu, decode_npdu}
use bacnet_go.Wire.Npdu.Laws.{decode_npdu-IsDecoded}
use bacnet_go.Wire.Tag.{decode_tag_number}
use bacnet_go.Wire.Tag.Total.{decode_tag_number-IsHeader}
use bacnet_go.Client.Receive.After.{
  After, counted-IsSafe, same-After, or_drop-Succeeds, counted-After, store_device-After,
  handle_response-After,
}

read_i_am_fields-After :
    (bytes : List ℕ) (oid : ObjectIdentifier) (offset : ℕ) (sender : List ℕ) (npdu : Npdu)
    (c : Client)
    → IsSafe c
    → Succeeds (read_i_am_fields bytes oid offset sender npdu c) (After c)
unfolding read_i_am_fields
read_i_am_fields-After bytes oid offset sender npdu c h =
    or_drop-Succeeds c (read_unsigned_tag bytes offset) _ _ (After c)
      (read_unsigned_tag-Within bytes offset) (same-After c h)
      λ max_apdu _.
        or_drop-Succeeds c (read_unsigned_tag bytes max_apdu.1) _ _ (After c)
          (read_unsigned_tag-Within bytes max_apdu.1) (same-After c h)
          λ segmentation _.
            or_drop-Succeeds c (read_unsigned_tag bytes segmentation.1) _ _ (After c)
              (read_unsigned_tag-Within bytes segmentation.1) (same-After c h)
              λ vendor _. store_device-After _ c h

read_i_am-After :
    (bytes sender : List ℕ) (npdu : Npdu) (c : Client)
    → IsSafe c
    → Succeeds (read_i_am bytes sender npdu c) (After c)
unfolding read_i_am
read_i_am-After bytes sender npdu c h =
    or_drop-Succeeds c (decode_tag_number bytes) _ _ (After c) (decode_tag_number-IsHeader bytes)
      (same-After c h)
      λ t ht. elim (le_or_lt (t.header_len + 4) (length bytes)) [
        | inr short ↦ ground (arith, same-After c h)
        | inl fits ↦
            let (payload, v, e, e') = slice-uint32 bytes t.header_len fits in
            let fields =
              read_i_am_fields-After bytes (decode_object_identifier v) (t.header_len + 4) sender
                npdu c h in
            ground (arith, same-After c h, e, e', fields)
      ]

handle_i_am-After :
    (bytes sender : List ℕ) (npdu : Npdu) (c : Client)
    → IsSafe c
    → Succeeds (handle_i_am bytes sender npdu c) (After c)
unfolding handle_i_am
handle_i_am-After bytes sender npdu c h =
    read_i_am-After bytes sender npdu _
      (counted-IsSafe (record c.metrics { i_am_received = inc c.metrics.i_am_received }) c h)

handle_unconfirmed_request-After :
    (apdu : Apdu) (sender : List ℕ) (npdu : Npdu) (c : Client)
    → IsSafe c
    → Succeeds (handle_unconfirmed_request apdu sender npdu c) (After c)
unfolding handle_unconfirmed_request handle_i_am handle_cov_notification
handle_unconfirmed_request-After apdu sender npdu c h =
    let counted = handle_i_am-After apdu.payload sender npdu c h in
    let noticed =
      counted-After (record c.metrics { cov_notifications = inc c.metrics.cov_notifications }) c h
        refl refl in
    ground (arith, counted, noticed, same-After c h)

dispatch-After :
    (apdu : Apdu) (sender : List ℕ) (npdu : Npdu) (c : Client)
    → IsSafe c
    → Succeeds (dispatch apdu sender npdu c) (After c)
unfolding dispatch
dispatch-After apdu sender npdu c h = ground (
  arith,
  handle_unconfirmed_request-After apdu sender npdu c h,
  handle_response-After apdu c h,
  handle_response-After apdu _
      (counted-IsSafe (record c.metrics { errors_received = inc c.metrics.errors_received }) c h),
  handle_response-After apdu _
      (counted-IsSafe (record c.metrics { rejects_received = inc c.metrics.rejects_received }) c h),
  handle_response-After apdu _
      (counted-IsSafe (record c.metrics { aborts_received = inc c.metrics.aborts_received }) c h),
  same-After c h,
)

handle_apdu-After :
    (bytes sender : List ℕ) (npdu : Npdu) (c : Client)
    → IsSafe c
    → Succeeds (handle_apdu bytes sender npdu c) (After c)
unfolding handle_apdu
handle_apdu-After bytes sender npdu c h =
    or_drop-Succeeds c (decode_apdu bytes) _ _ (After c) (decode_apdu-IsDecoded bytes)
      (same-After c h)
      λ apdu _. dispatch-After apdu sender npdu _ (
        counted-IsSafe (record c.metrics { responses_received = inc c.metrics.responses_received })
          c h)

handle_npdu-After :
    (bytes sender : List ℕ) (c : Client)
    → IsSafe c
    → Succeeds (handle_npdu bytes sender c) (After c)
unfolding handle_npdu
handle_npdu-After bytes sender c h =
    or_drop-Succeeds c (decode_npdu bytes) _ _ (After c) (decode_npdu-IsDecoded bytes)
      (same-After c h)
      λ decoded hd. ground (
        arith,
        slice_from-ok bytes decoded.1 (hd.1),
        handle_apdu-After (drop decoded.1 bytes) sender decoded.0 c h,
        same-After c h,
      )

-- In a client where each pending request waits on an open channel, which was made before the counter
-- of channels, no datagram, from any sender, makes `handlePacket` panic: it always returns. The connection
-- state, the counter of invoke ids, the pending requests, the subscriptions, the gauge of active
-- requests and the count of recovered panics are as before; no channel is closed or loses a
-- response, and at most one response is put into an empty channel, the one that is pending under its
-- invoke id; and each pending request still waits on an open channel.
pub handle_packet-After :
    (bytes sender : List ℕ) (c : Client)
    → IsSafe c
    → Succeeds (handle_packet bytes sender c) (After c)
unfolding handle_packet decode_bvlc index slice uint16 slice_from
handle_packet-After bytes sender c h = ground (
  arith,
  length-drop 4 bytes,
  length-take 2 (drop 2 bytes),
  length-drop 2 bytes,
  same-After c h,
  handle_npdu-After (drop 4 bytes) sender c h,
  handle_npdu-After (drop 6 (drop 4 bytes)) sender c h,
)
