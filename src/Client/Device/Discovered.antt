-- ===== src/Client/Device/Discovered.antt =====
-- `resolveDevice` on a miss: the Who-Is, the I-Ams that come in while it sleeps, and the address.
use bacnet_go.Base.{
  ℕ, ◌≡◌, refl, true, ap, ◌∙◌, List, [], ◌∷◌, Option, none, some, All, ◌==◌, if◌then◌else◌, length,
  arith,
}
use bacnet_go.Base.Map.{lookup}
use bacnet_go.Client.{Client, get_device}
use bacnet_go.Client.Device.{udp_address, address_of, resolve_device}
use bacnet_go.Client.Receive.Discovery.{
  Announcement, IsAnnouncement, device_of, hear_all, last_word, get_device-hear_all,
}
use bacnet_go.Client.Request.{is_connected}
use bacnet_go.Client.Service.{begin_who_is, send_unconfirmed_request}
use bacnet_go.Errors.{Error, device_not_found}
use bacnet_go.Go.{Result, ok, err, fail, Succeeds-ok}
use bacnet_go.Options.{DiscoverOptions}
use bacnet_go.Types.Device.{DeviceInfo, default_port}

-- `WhoIs`, whose broadcast is sent, and the I-Ams until it returns.
hear_or : List Announcement → Client × Option Error → Result Client
hear_or heard (c, none) = hear_all heard c
hear_or heard (c, some e) = err e

pub who_is : DiscoverOptions → List Announcement → Client → Result Client
unfolding hear_or
who_is options heard c = hear_or heard (begin_who_is options none c)

-- The address to send to: the last sender that named the device, at the default port.
abbrev pub resolved : Option DeviceInfo → Result (List ℕ × ℕ)
resolved none = fail device_not_found
resolved (some d) = ok (d.address.addr, default_port)

abbrev IsIpv4 : Announcement → Type 0
IsIpv4 a = length a.sender ≡ 4

HasIpv4 : Option DeviceInfo → Type 0
HasIpv4 none = Unit {0}
HasIpv4 (some d) = length d.address.addr ≡ 4

last_word-HasIpv4 :
    (heard : List Announcement) (id : ℕ) (known : Option DeviceInfo)
    → All IsIpv4 heard
    → HasIpv4 known
    → HasIpv4 (last_word heard id known)
unfolding last_word HasIpv4
last_word-HasIpv4 [] id known v h = h
last_word-HasIpv4 (a ∷ heard) id known v h =
    last_word-HasIpv4 heard id (if id == a.device_id then some (device_of a) else known) v.1
      (ground (arith, v.0, h))

address_of-resolved :
    (known : Option DeviceInfo) → HasIpv4 known → address_of known ≡ resolved known
unfolding address_of HasIpv4 udp_address
address_of-resolved none h = refl
address_of-resolved (some d) h = ground (arith, h)

-- Sending the Who-Is leaves the cache alone.
begin_who_is-devices :
    (options : DiscoverOptions) (c : Client)
    → is_connected c.state ≡ true
    → (c' : Client) × (begin_who_is options none c ≡ (c', none)) × (c'.devices ≡ c.devices)
unfolding begin_who_is send_unconfirmed_request
begin_who_is-devices options c h = ((begin_who_is options none c).0, rw h refl, rw h refl)

-- For a device that a connected client does not know, `resolveDevice` returns the IPv4 address of the
-- last sender that named it while the Who-Is was running, with the default port, and the error
-- `ErrDeviceNotFound` if there was none. What comes in meanwhile are I-Ams of devices on the local
-- network, without network addresses, whose numbers fit their fields, from senders with addresses of
-- four bytes; handling them does not panic.
pub resolve_device-who_is :
    (options : DiscoverOptions) (heard : List Announcement) (id : ℕ) (c : Client)
    → is_connected c.state ≡ true
    → get_device id c ≡ none
    → All IsAnnouncement heard
    → All IsIpv4 heard
    → resolve_device id (who_is options heard) c ≡ resolved (last_word heard id none)
unfolding resolve_device who_is get_device HasIpv4
resolve_device-who_is options heard id c hc miss h v =
    let (c', begun, devices) = begin_who_is-devices options c hc in
    let (c'', e, found) = Succeeds-ok (hear_all heard c') _ (get_device-hear_all heard c' h) in
    let heard_of : get_device id c'' ≡ last_word heard id none =
      found id ∙ ap (last_word heard id) (ap (lookup id) devices ∙ miss) in
    rw (miss, begun, e)
      (ap address_of heard_of
        ∙ address_of-resolved (last_word heard id none) (last_word-HasIpv4 heard id none v tt))
