-- ===== src/Tests/Exchange.antt =====
-- Writing, subscribing and discovery, at concrete inputs.
use bacnet_go.Base.{ℕ, ◌≡◌, refl, true, List, [], ◌∷◌, none, some, All, arith}
use bacnet_go.Base.Map.{lookup}
use bacnet_go.Client.{Client, connected, new_client, get_device}
use bacnet_go.Client.Device.{resolve_device}
use bacnet_go.Client.Device.Discovered.{who_is, resolved, resolve_device-who_is}
use bacnet_go.Client.Receive.{handle_packet}
use bacnet_go.Client.Receive.Discovery.{Announcement, IsAnnouncement, last_word}
use bacnet_go.Client.Receive.Local.{broadcast_packet, forwarded_packet, handle_packet-forwarded}
use bacnet_go.Client.Request.{Call, request_packet}
use bacnet_go.Client.Request.Awaits.{done, response_packet, response_apdu}
use bacnet_go.Client.Service.{begin_write_property}
use bacnet_go.Client.Service.Exchange.{Ends}
use bacnet_go.Client.Service.Write.{write_property_exchange}
use bacnet_go.Go.{ok, Succeeds}
use bacnet_go.Options.{WriteOptions, SubscribeOptions, default_discover_options}
use bacnet_go.Response.ReadProperty.{decode_read_property_response}
use bacnet_go.Types.ConfirmedServiceChoice
use bacnet_go.Types.ObjectId.{ObjectIdentifier, new_object_identifier}
use bacnet_go.Value.{unsigned}
use bacnet_go.Value.RoundTrip.{read_back}

abbrev online : Client
online = record new_client { state = connected; cov_subs = (2, 70) ∷ [] }

abbrev sensor : ObjectIdentifier
sensor = new_object_identifier 0 3

abbrev server : List ℕ
server = 10 ∷ 0 ∷ 0 ∷ 1 ∷ []

abbrev at_priority_8 : WriteOptions
at_priority_8 = record { array_index = none; priority = some 8 }

write_property_exchange_example :
    let write = ConfirmedServiceChoice.write_property in
    (c' : Client) × (call : Call) × (bytes : List ℕ) × (begin_write_property sensor 85 at_priority_8
        (unsigned 300)
        online
      ≡ ok (c', call))
    × (call.packet ≡ request_packet call.invoke_id write bytes)
    × (decode_read_property_response bytes ≡ ok (read_back (unsigned 300)))
    × Succeeds
        (handle_packet (response_packet call.invoke_id (done write)) server c')
        (Ends call 5 (ok (response_apdu call.invoke_id (done write))))
write_property_exchange_example =
    write_property_exchange sensor 85 at_priority_8 (unsigned 300) online server 5 refl
      (omega arith) tt (omega arith)

abbrev for_an_hour : SubscribeOptions
for_an_hour = record { confirmed = true; lifetime = some 3600; cov_increment = none }

-- Two devices answer a Who-Is, one of them twice, from another address the second time.
abbrev boiler : List ℕ → Announcement
boiler sender = record {
  device_id = 1234;
  max_apdu = 1476;
  segmentation = 3;
  vendor_id = 260;
  sender = sender;
}

abbrev chiller : Announcement
chiller = record {
  device_id = 99;
  max_apdu = 480;
  segmentation = 3;
  vendor_id = 7;
  sender = 10 ∷ 0 ∷ 0 ∷ 2 ∷ [];
}

boiler-IsAnnouncement : (sender : List ℕ) → IsAnnouncement (boiler sender)
boiler-IsAnnouncement sender = record {
  device_fits = omega arith;
  max_apdu_fits = omega arith;
  segmentation_fits = omega arith;
  vendor_fits = omega arith;
}

chiller-IsAnnouncement : IsAnnouncement chiller
chiller-IsAnnouncement = record {
  device_fits = omega arith;
  max_apdu_fits = omega arith;
  segmentation_fits = omega arith;
  vendor_fits = omega arith;
}

abbrev heard : List Announcement
heard = boiler server ∷ chiller ∷ boiler (10 ∷ 0 ∷ 0 ∷ 9 ∷ []) ∷ []

abbrev heard-IsAnnouncement : All IsAnnouncement heard
heard-IsAnnouncement = (
  boiler-IsAnnouncement server,
  (chiller-IsAnnouncement, (boiler-IsAnnouncement (10 ∷ 0 ∷ 0 ∷ 9 ∷ []), tt)),
)

resolve_device-who_is_example :
    resolve_device 1234 (who_is default_discover_options heard) online
    ≡ resolved (last_word heard 1234 none)
resolve_device-who_is_example =
    resolve_device-who_is default_discover_options heard 1234 online refl
      (unfold get_device lookup in refl) heard-IsAnnouncement (refl, (refl, (refl, tt)))

-- The boiler's last word counts.
resolved-last_word : resolved (last_word heard 1234 none) ≡ ok (10 ∷ 0 ∷ 0 ∷ 9 ∷ [], 0xBAC0)
unfolding last_word
resolved-last_word = refl

-- An I-Am as it usually comes, broadcast to all networks.
abbrev global_i_am : List ℕ
global_i_am =
    1 ∷ 0x20 ∷ 0xFF ∷ 0xFF ∷ 0 ∷ 0xFF ∷ 0x10 ∷ 0 ∷ 0xC4 ∷ 2 ∷ 0 ∷ 4 ∷ 0xD2 ∷ 0x22 ∷ 5 ∷ 0xC4 ∷ 0x91
    ∷ 3 ∷ 0x22 ∷ 1 ∷ 4 ∷ []

handle_packet-forwarded_example :
    handle_packet (forwarded_packet (10 ∷ 9 ∷ 8 ∷ 7 ∷ 0xBA ∷ 0xC0 ∷ []) global_i_am) server online
    ≡ handle_packet (broadcast_packet global_i_am) server online
handle_packet-forwarded_example =
    handle_packet-forwarded (10 ∷ 9 ∷ 8 ∷ 7 ∷ 0xBA ∷ 0xC0 ∷ []) global_i_am server online refl
